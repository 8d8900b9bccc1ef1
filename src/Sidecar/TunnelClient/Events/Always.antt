-- ===== src/Sidecar/TunnelClient/Events/Always.antt =====
-- The events of tunnel-client.ts, and the states that a `TunnelConnection` reaches by them.
use wrangle_webhooks.Sidecar.TunnelClient.Events.{
  Event, began, left, opened, closes, hello_timed_out, refused, errs, receives, ticked, slept,
  fetched, close_timed_out, deleted, Context, on_message, on_open, on_error, loop_closed, give_up,
  finish_disconnect, send_delete, let_go, leave_socket, disconnect, leaving_closed,
  on_close_timeout, on_deleted, on_hello_timeout, on_event, run, fresh_client,
}
use wrangle_webhooks.Base.{
  is_empty, Text, codes, ℕ, ◌≡◌, refl, true, Option, none, some, List, [], ◌∷◌, arith,
}
use wrangle_webhooks.Sidecar.TunnelClient.{
  SocketState, ready_connecting, ready_open, ready_closing, ready_closed, Phase, idle, sleeping,
  ended, awaits_open, awaits_hello, serves, Leaving, staying, deregistering, gone, awaits_close,
  TunnelClient, set_state, fail_ready, clear_ping, begin, stop_serving, terminate,
}
use wrangle_webhooks.Sidecar.TunnelClient.Events.Sound.{
  has_left, IsSound, IsAtRest, if-IsSound, loop_turn-IsSound, attempt_failed-IsSound, woke-IsSound,
  stop_serving-IsAtRest, served-IsSound, waits, resting, refused-IsSound, on_greeting-IsSound,
  handle_message-IsSound, on_fetched-IsSound, on_tick-IsSound,
}

on_open-IsSound : (h : ℕ) (s : TunnelClient) → IsSound s → IsSound (on_open h s)
unfolding on_open
on_open-IsSound h s k = ground arith

on_error-IsSound :
    (h : ℕ) (error : Text) (s : TunnelClient) → IsSound s → IsSound (on_error h error s)
unfolding on_error
on_error-IsSound h error s k = ground (
  arith,
  attempt_failed-IsSound error s,
  attempt_failed-IsSound error (stop_serving h s),
  stop_serving-IsAtRest h s k,
)

loop_closed-IsSound : (h : ℕ) (s : TunnelClient) → IsSound s → IsSound (loop_closed h s)
unfolding loop_closed
loop_closed-IsSound h s k = ground (
  arith,
  attempt_failed-IsSound (codes "tunnel closed before open") s,
  attempt_failed-IsSound (codes "tunnel closed before hello") s,
  served-IsSound h s k,
)

on_hello_timeout-IsSound : (h : ℕ) (s : TunnelClient) → IsSound s → IsSound (on_hello_timeout h s)
unfolding on_hello_timeout
on_hello_timeout-IsSound h s k =
    ground (arith, attempt_failed-IsSound (codes "tunnel hello timeout") s)

on_message-IsSound :
    (c : Context) (h now : ℕ) (text : Text) (s : TunnelClient)
    → IsSound s
    → IsSound (on_message c h now text s)
unfolding on_message
on_message-IsSound c h now text s k =
    ground (arith, on_greeting-IsSound c h now text s k, handle_message-IsSound c h now text s k)

give_up-IsSound :
    (phase : Phase) (s : TunnelClient)
    → IsSound s
    → (waits phase ≡ true → IsAtRest s)
    → IsSound (give_up phase s)
unfolding give_up terminate
give_up-IsSound (awaits_open h) s k r = attempt_failed-IsSound _ _ (r refl)
give_up-IsSound (awaits_hello h) s k r = attempt_failed-IsSound _ s (r refl)
give_up-IsSound sleeping s k r = woke-IsSound s (r refl)
give_up-IsSound idle s k r = k
give_up-IsSound ended s k r = k
give_up-IsSound (serves h) s k r = k

finish_disconnect-IsSound :
    (s : TunnelClient) → IsSound s → s.is_disconnected ≡ true → IsSound (finish_disconnect s)
unfolding finish_disconnect fail_ready
finish_disconnect-IsSound s k d =
    give_up-IsSound s.phase _ (ground arith) (λ r. ground (arith, resting s k r))

send_delete-IsSound :
    (c : Context) (s : TunnelClient)
    → IsSound s
    → s.is_disconnected ≡ true
    → IsSound (send_delete c s)
unfolding send_delete
send_delete-IsSound c s k d =
    if-IsSound (is_empty s.subscriber_id) _ _ (finish_disconnect-IsSound s k d) (ground arith)

leaving_closed-IsSound :
    (c : Context) (h : ℕ) (s : TunnelClient) → IsSound s → IsSound (leaving_closed c h s)
unfolding leaving_closed
leaving_closed-IsSound c h s k = ground (arith, send_delete-IsSound c s k)

on_deleted-IsSound : (s : TunnelClient) → IsSound s → IsSound (on_deleted s)
unfolding on_deleted
on_deleted-IsSound s k = ground (arith, finish_disconnect-IsSound s k)

on_close_timeout-IsSound :
    (c : Context) (l : Leaving) (s : TunnelClient)
    → IsSound s
    → (has_left l ≡ true → s.is_disconnected ≡ true)
    → IsSound (on_close_timeout c l s)
unfolding on_close_timeout terminate
on_close_timeout-IsSound c (awaits_close h) s k d = send_delete-IsSound c _ k (d refl)
on_close_timeout-IsSound c staying s k d = k
on_close_timeout-IsSound c deregistering s k d = k
on_close_timeout-IsSound c gone s k d = k

let_go-IsSound :
    (c : Context) (state : SocketState) (h : ℕ) (s : TunnelClient)
    → IsSound s
    → s.is_disconnected ≡ true
    → IsSound (let_go c state h s)
unfolding let_go terminate
let_go-IsSound c ready_open h s k d = ground arith
let_go-IsSound c ready_connecting h s k d = send_delete-IsSound c _ k d
let_go-IsSound c ready_closing h s k d = send_delete-IsSound c _ k d
let_go-IsSound c ready_closed h s k d = send_delete-IsSound c _ k d

leave_socket-IsSound :
    (c : Context) (socket : Option ℕ) (s : TunnelClient)
    → IsSound s
    → s.is_disconnected ≡ true
    → IsSound (leave_socket c socket s)
unfolding leave_socket
leave_socket-IsSound c none s k d = send_delete-IsSound c s k d
leave_socket-IsSound c (some h) s k d = let_go-IsSound c (s.states h) h s k d

disconnect-IsSound : (c : Context) (s : TunnelClient) → IsSound s → IsSound (disconnect c s)
unfolding disconnect clear_ping
disconnect-IsSound c s k =
    if-IsSound s.is_disconnected s _ k (leave_socket-IsSound c s.socket _ (ground arith) refl)

begin-IsSound : (s : TunnelClient) → IsSound s → IsSound (begin s)
unfolding begin
begin-IsSound s k = ground (arith, loop_turn-IsSound (record s { loop_started = true }))

slept-IsSound : (c : Context) (s : TunnelClient) → IsSound s → IsSound (on_event c slept s)
unfolding on_event
slept-IsSound c s k = ground (arith, woke-IsSound s)

on_event-IsSound :
    (c : Context) (event : Event) (s : TunnelClient) → IsSound s → IsSound (on_event c event s)
unfolding on_event
on_event-IsSound c began s k = begin-IsSound s k
on_event-IsSound c left s k = disconnect-IsSound c s k
on_event-IsSound c (opened h) s k = on_open-IsSound h s k
on_event-IsSound c (closes h) s k =
    leaving_closed-IsSound c h _ (loop_closed-IsSound h (set_state h ready_closed s) k)
on_event-IsSound c (hello_timed_out h) s k = on_hello_timeout-IsSound h s k
on_event-IsSound c (refused h status) s k = refused-IsSound h status s k
on_event-IsSound c (errs h error) s k = on_error-IsSound h error s k
on_event-IsSound c (receives h now text) s k = on_message-IsSound c h now text s k
on_event-IsSound c (ticked now) s k = on_tick-IsSound now s k
on_event-IsSound c slept s k = slept-IsSound c s k
on_event-IsSound c (fetched h id ok) s k = on_fetched-IsSound h id ok s k
on_event-IsSound c close_timed_out s k = on_close_timeout-IsSound c s.leaving s k (ground arith)
on_event-IsSound c deleted s k = on_deleted-IsSound s k

run-IsSound :
    (c : Context) (events : List Event) (s : TunnelClient) → IsSound s → IsSound (run c events s)
unfolding run
run-IsSound c [] s k = k
run-IsSound c (event ∷ events) s k =
    run-IsSound c events (on_event c event s) (on_event-IsSound c event s k)

-- Whatever happens to a connection from its construction on, its state is sound.
pub reached-IsSound : (c : Context) (events : List Event) → IsSound (run c events fresh_client)
reached-IsSound c events = run-IsSound c events fresh_client (ground arith)
