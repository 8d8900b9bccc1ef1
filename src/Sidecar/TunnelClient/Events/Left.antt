-- ===== src/Sidecar/TunnelClient/Events/Left.antt =====
-- What no event undoes in a `TunnelConnection` of tunnel-client.ts: a disconnect, and a `ready` that
-- is settled.
use wrangle_webhooks.Base.{
  Text, ℕ, ◌≡◌, Bool, true, Option, none, some, arith, false, List, [], ◌∷◌,
}
use wrangle_webhooks.Sidecar.TunnelClient.{
  start_serving, disconnected, SocketState, ready_connecting, ready_open, ready_closing,
  ready_closed, Phase, idle, sleeping, ended, awaits_open, awaits_hello, serves, Leaving, staying,
  deregistering, gone, awaits_close, Incoming, TunnelClient, set_state, mark_ready, fail_ready,
  clear_ping, start_ping, note_failure, open_socket, loop_turn, attempt_failed, woke, begin,
  stop_serving, served, take_hello, forward_local, send, send_if_open, terminate,
  tunnel_connection_aborted_error,
}
use wrangle_webhooks.Sidecar.TunnelClient.Events.{
  Context, greet, on_greeting, answer_request, handle_message, on_message, on_open, on_error,
  loop_closed, give_up, finish_disconnect, send_delete, let_go, leave_socket, disconnect,
  leaving_closed, on_close_timeout, on_deleted, on_hello_timeout, on_tick, on_fetched, Event, began,
  left, opened, closes, hello_timed_out, refused, errs, receives, ticked, slept, fetched,
  close_timed_out, deleted, on_event, run,
}
use wrangle_webhooks.Sidecar.TunnelClient.Events.Sound.{is_settled}

-- From one state to a later one: a settled `ready` is as it was, and a connection that was
-- disconnected still is and has asked for no socket.
abbrev pub Continues : TunnelClient → TunnelClient → Type 0
Continues s t =
    (is_settled s.ready ≡ true → t.ready ≡ s.ready)
    × (s.is_disconnected ≡ true → t.is_disconnected ≡ true)
    × (s.is_disconnected ≡ true → t.offered ≡ s.offered)

then_Continues : (s t u : TunnelClient) → Continues s t → Continues t u → Continues s u
then_Continues s t u h k = ground (arith, h, k)

loop_turn-Continues : (s : TunnelClient) → Continues s (loop_turn s)
unfolding loop_turn open_socket
loop_turn-Continues s = ground arith

attempt_failed-Continues : (error : Text) (s : TunnelClient) → Continues s (attempt_failed error s)
unfolding attempt_failed note_failure fail_ready
attempt_failed-Continues error s = ground arith

woke-Continues : (s : TunnelClient) → Continues s (woke s)
unfolding woke loop_turn open_socket
woke-Continues s = ground arith

served-Continues : (h : ℕ) (s : TunnelClient) → Continues s (served h s)
unfolding served stop_serving clear_ping loop_turn open_socket
served-Continues h s = ground arith

begin-Continues : (s : TunnelClient) → Continues s (begin s)
unfolding begin loop_turn open_socket
begin-Continues s = ground arith

on_open-Continues : (h : ℕ) (s : TunnelClient) → Continues s (on_open h s)
unfolding on_open
on_open-Continues h s = ground arith

loop_closed-Continues : (h : ℕ) (s : TunnelClient) → Continues s (loop_closed h s)
unfolding loop_closed attempt_failed note_failure fail_ready served stop_serving clear_ping
    loop_turn open_socket
loop_closed-Continues h s = ground arith

on_error-Continues : (h : ℕ) (error : Text) (s : TunnelClient) → Continues s (on_error h error s)
unfolding on_error attempt_failed note_failure fail_ready stop_serving clear_ping
on_error-Continues h error s = ground arith

on_hello_timeout-Continues : (h : ℕ) (s : TunnelClient) → Continues s (on_hello_timeout h s)
unfolding on_hello_timeout attempt_failed note_failure fail_ready
on_hello_timeout-Continues h s = ground arith

greet-Continues :
    (h now : ℕ) (message : Option (Option Incoming)) (s : TunnelClient)
    → Continues s (greet h now message s)
unfolding greet take_hello start_serving start_ping mark_ready attempt_failed note_failure
    fail_ready
greet-Continues h now none s = ground arith
greet-Continues h now (some none) s = ground arith
greet-Continues h now (some (some message)) s = ground arith

answer_request-Continues :
    (c : Context) (h : ℕ) (message : Option (Option Incoming)) (s : TunnelClient)
    → Continues s (answer_request c h message s)
unfolding answer_request forward_local
answer_request-Continues c h none s = ground arith
answer_request-Continues c h (some none) s = ground arith
answer_request-Continues c h (some (some message)) s = ground arith

on_message-Continues :
    (c : Context) (h now : ℕ) (text : Text) (s : TunnelClient)
    → Continues s (on_message c h now text s)
unfolding on_message on_greeting handle_message
on_message-Continues c h now text s =
    ground
      (arith, greet-Continues h now (c.parse text) s, answer_request-Continues c h (c.parse text) s)

on_tick-Continues : (now : ℕ) (s : TunnelClient) → Continues s (on_tick now s)
unfolding on_tick terminate send
on_tick-Continues now s = ground arith

on_fetched-Continues :
    (h : ℕ) (id : Text) (ok : Bool) (s : TunnelClient) → Continues s (on_fetched h id ok s)
unfolding on_fetched send_if_open send
on_fetched-Continues h id ok s = ground arith

give_up-Continues : (phase : Phase) (s : TunnelClient) → Continues s (give_up phase s)
unfolding give_up terminate
give_up-Continues (awaits_open h) s = attempt_failed-Continues _ (set_state h ready_closed s)
give_up-Continues (awaits_hello h) s = attempt_failed-Continues _ s
give_up-Continues sleeping s = woke-Continues s
give_up-Continues idle s = ground arith
give_up-Continues ended s = ground arith
give_up-Continues (serves h) s = ground arith

finish_disconnect-Continues : (s : TunnelClient) → Continues s (finish_disconnect s)
unfolding finish_disconnect fail_ready
finish_disconnect-Continues s =
    let over : TunnelClient = record s { aborted = true; leaving = gone } in
    let next = fail_ready tunnel_connection_aborted_error over in
    ground (arith, give_up-Continues s.phase next)

send_delete-Continues : (c : Context) (s : TunnelClient) → Continues s (send_delete c s)
unfolding send_delete
send_delete-Continues c s = ground (arith, finish_disconnect-Continues s)

on_close_timeout-Continues :
    (c : Context) (l : Leaving) (s : TunnelClient) → Continues s (on_close_timeout c l s)
unfolding on_close_timeout terminate
on_close_timeout-Continues c (awaits_close h) s =
    send_delete-Continues c (set_state h ready_closed s)
on_close_timeout-Continues c staying s = ground arith
on_close_timeout-Continues c deregistering s = ground arith
on_close_timeout-Continues c gone s = ground arith

leaving_closed-Continues :
    (c : Context) (h : ℕ) (s : TunnelClient) → Continues s (leaving_closed c h s)
unfolding leaving_closed
leaving_closed-Continues c h s = ground (arith, send_delete-Continues c s)

on_deleted-Continues : (s : TunnelClient) → Continues s (on_deleted s)
unfolding on_deleted
on_deleted-Continues s = ground (arith, finish_disconnect-Continues s)

let_go-Continues :
    (c : Context) (state : SocketState) (h : ℕ) (s : TunnelClient)
    → Continues s (let_go c state h s)
unfolding let_go terminate
let_go-Continues c ready_open h s = ground arith
let_go-Continues c ready_connecting h s = send_delete-Continues c (set_state h ready_closed s)
let_go-Continues c ready_closing h s = send_delete-Continues c (set_state h ready_closed s)
let_go-Continues c ready_closed h s = send_delete-Continues c (set_state h ready_closed s)

leave_socket-Continues :
    (c : Context) (socket : Option ℕ) (s : TunnelClient) → Continues s (leave_socket c socket s)
unfolding leave_socket
leave_socket-Continues c none s = send_delete-Continues c s
leave_socket-Continues c (some h) s = let_go-Continues c (s.states h) h s

disconnect-Continues : (c : Context) (s : TunnelClient) → Continues s (disconnect c s)
unfolding disconnect clear_ping
disconnect-Continues c s =
    let leaving_now : TunnelClient = record s {
      is_disconnected = true;
      serving = false;
      connection_state = disconnected;
      socket = none;
      ping_timer = none;
    } in
    ground (arith, leave_socket-Continues c s.socket leaving_now)

slept-Continues : (c : Context) (s : TunnelClient) → Continues s (on_event c slept s)
unfolding on_event
slept-Continues c s = ground (arith, woke-Continues s)

closes-Continues : (c : Context) (h : ℕ) (s : TunnelClient) → Continues s (on_event c (closes h) s)
unfolding on_event
closes-Continues c h s =
    let shut : TunnelClient = set_state h ready_closed s in
    then_Continues s (loop_closed h shut) (leaving_closed c h (loop_closed h shut))
      (loop_closed-Continues h shut) (leaving_closed-Continues c h (loop_closed h shut))

refused-Continues :
    (c : Context) (h status : ℕ) (s : TunnelClient) → Continues s (on_event c (refused h status) s)
unfolding on_event terminate note_failure
refused-Continues c h status s = ground arith

on_event-Continues :
    (c : Context) (event : Event) (s : TunnelClient) → Continues s (on_event c event s)
unfolding on_event
on_event-Continues c began s = begin-Continues s
on_event-Continues c left s = disconnect-Continues c s
on_event-Continues c (opened h) s = on_open-Continues h s
on_event-Continues c (closes h) s = closes-Continues c h s
on_event-Continues c (hello_timed_out h) s = on_hello_timeout-Continues h s
on_event-Continues c (refused h status) s = refused-Continues c h status s
on_event-Continues c (errs h error) s = on_error-Continues h error s
on_event-Continues c (receives h now text) s = on_message-Continues c h now text s
on_event-Continues c (ticked now) s = on_tick-Continues now s
on_event-Continues c slept s = slept-Continues c s
on_event-Continues c (fetched h id ok) s = on_fetched-Continues h id ok s
on_event-Continues c close_timed_out s = on_close_timeout-Continues c s.leaving s
on_event-Continues c deleted s = on_deleted-Continues s

-- Whatever happens to a connection from any state on: once `ready` is settled it stays as it is, and
-- once the connection was disconnected it stays so and asks for no other socket.
pub run-Continues :
    (c : Context) (events : List Event) (s : TunnelClient) → Continues s (run c events s)
unfolding run
run-Continues c [] s = ground arith
run-Continues c (event ∷ events) s =
    then_Continues s (on_event c event s) (run c events (on_event c event s))
      (on_event-Continues c event s) (run-Continues c events (on_event c event s))
