-- ===== src/Sidecar/TunnelClient/Events.antt =====
-- tunnel-client.ts: what happens to a `TunnelConnection`, event by event. An event that the awaits
-- of the moment do not listen to changes no more than the socket.
use wrangle_webhooks.Base.{
  ltb, ◌==◌, if◌then◌else◌, or_else, is_empty, filter, any, Text, codes, text_eq, before, or_text,
  ℕ, ◌+◌, ◌-◌, ◌%◌, Bool, true, false, not, ◌&&◌, Option, none, some, List, [], ◌∷◌, ◌++◌,
}
use wrangle_webhooks.Tunnel.{
  tunnel_ping, tunnel_pong, tunnel_pong_deadline_ms, Parsed, is_tunnel_hello, is_tunnel_request,
}
use wrangle_webhooks.Sidecar.{connecting, disconnected, aborted}
use wrangle_webhooks.Sidecar.TunnelClient.{
  ready_open, ready_closing, ready_closed, unsettled, idle, sleeping, awaits_open, awaits_hello,
  serves, staying, deregistering, gone, awaits_close, ping, heartbeat, answer, failure, Incoming,
  TunnelClient, set_state, fail_ready, tunnel_connection_aborted_error, clear_ping, note_failure,
  attempt_failed, woke, begin, stop_serving, served, take_hello, forward_local, send, send_if_open,
  terminate, Phase, SocketState, Leaving,
}
pub mod Sound
pub mod Always
pub mod Alive
pub mod Goodbye
pub mod Left
mod Tests

-- A call of a method, what a socket reports, and the timers. A message and a tick come with the
-- time.
pub data Event : Type 0 where
  began left : Event
  opened closes hello_timed_out : ℕ → Event
  refused : ℕ → ℕ → Event
  errs : ℕ → Text → Event
  receives : ℕ → ℕ → Text → Event
  ticked : ℕ → Event
  slept : Event
  fetched : ℕ → Text → Bool → Event
  close_timed_out deleted : Event

-- The secret, `joinTargetUrl` on the target, and `JSON.parse`: `none` is its exception, and the
-- inner `none` a value that is no object.
pub record Context : Type 0 where
  pub secret : Text
  pub join : Text → Text → Text
  pub parse : Text → Option (Option Incoming)

-- What `waitForHello` does with a parsed message.
unfoldable pub greet : ℕ → ℕ → Option (Option Incoming) → TunnelClient → TunnelClient
greet h now none s = attempt_failed (codes "invalid tunnel hello") s
greet h now (some none) s = s
greet h now (some (some message)) s =
    if is_tunnel_hello (some message.parsed)
    then take_hello h now (or_else message.parsed.subscriber_id []) message s
    else s

-- A message in `waitForHello`.
unfoldable pub on_greeting : Context → ℕ → ℕ → Text → TunnelClient → TunnelClient
on_greeting c h now text s =
    if text_eq text tunnel_pong
    then record s { last_pong_at = now }
    else if text_eq text tunnel_ping
    then s
    else greet h now (c.parse text) s

-- What `handleMessage` does with a parsed message.
unfoldable pub answer_request : Context → ℕ → Option (Option Incoming) → TunnelClient → TunnelClient
answer_request c h none s = s
answer_request c h (some none) s = s
answer_request c h (some (some message)) s =
    if is_tunnel_request (some message.parsed)
    then forward_local c.join (or_else message.parsed.id []) message h s
    else s

-- `handleMessage` up to its await.
unfoldable pub handle_message : Context → ℕ → ℕ → Text → TunnelClient → TunnelClient
handle_message c h now text s =
    if text_eq text tunnel_pong
    then record s { last_pong_at = now }
    else if text_eq text tunnel_ping
    then s
    else answer_request c h (c.parse text) s

unfoldable pub on_message : Context → ℕ → ℕ → Text → TunnelClient → TunnelClient
on_message c h now text s = elim s.phase [
  | awaits_hello k ↦ if k == h then on_greeting c h now text s else s
  | serves k ↦ if k == h then handle_message c h now text s else s
  | _ ↦ s
]

unfoldable pub on_open : ℕ → TunnelClient → TunnelClient
on_open h s = elim s.phase [
  | awaits_open k ↦
      if k == h then record (set_state h ready_open s) { phase = awaits_hello h } else s
  | _ ↦ s
]

unfoldable pub on_error : ℕ → Text → TunnelClient → TunnelClient
on_error h error s = elim s.phase [
  | awaits_open k ↦ if k == h then attempt_failed error s else s
  | awaits_hello k ↦ if k == h then attempt_failed error s else s
  | serves k ↦ if k == h then attempt_failed error (stop_serving h s) else s
  | _ ↦ s
]

-- The listener of the loop on a close.
unfoldable pub loop_closed : ℕ → TunnelClient → TunnelClient
loop_closed h s = elim s.phase [
  | awaits_open k ↦ if k == h then attempt_failed (codes "tunnel closed before open") s else s
  | awaits_hello k ↦ if k == h then attempt_failed (codes "tunnel closed before hello") s else s
  | serves k ↦ if k == h then served h s else s
  | _ ↦ s
]

-- What the loop waits for gives up on the abort.
unfoldable pub give_up : Phase → TunnelClient → TunnelClient
give_up (awaits_open h) s = attempt_failed tunnel_connection_aborted_error (terminate h s)
give_up (awaits_hello h) s = attempt_failed tunnel_connection_aborted_error s
give_up sleeping s = woke s
give_up _ s = s

-- The end of `disconnect`.
unfoldable pub finish_disconnect : TunnelClient → TunnelClient
finish_disconnect s =
    give_up s.phase
      (fail_ready tunnel_connection_aborted_error (record s { aborted = true; leaving = gone }))

-- The DELETE request, with the connection token or else the secret.
unfoldable pub send_delete : Context → TunnelClient → TunnelClient
send_delete c s =
    let deleting : TunnelClient = record s {
      deletions = s.deletions ++ (or_text s.connection_token c.secret ∷ []);
      leaving = deregistering;
    } in
    if is_empty s.subscriber_id then finish_disconnect s else deleting

-- `closeSocket` begins the closing handshake of an open socket.
unfoldable pub let_go : Context → SocketState → ℕ → TunnelClient → TunnelClient
let_go c ready_open h s = record (set_state h ready_closing s) { leaving = awaits_close h }
let_go c _ h s = send_delete c (terminate h s)

unfoldable pub leave_socket : Context → Option ℕ → TunnelClient → TunnelClient
leave_socket c none s = send_delete c s
leave_socket c (some h) s = let_go c (s.states h) h s

-- `disconnect` up to its first await.
unfoldable pub disconnect : Context → TunnelClient → TunnelClient
disconnect c s =
    let leaving_now : TunnelClient = record (clear_ping s) {
      is_disconnected = true;
      serving = false;
      connection_state = disconnected;
      socket = none;
    } in
    if s.is_disconnected then s else leave_socket c s.socket leaving_now

-- The listener of `closeSocket` on a close.
unfoldable pub leaving_closed : Context → ℕ → TunnelClient → TunnelClient
leaving_closed c h s = elim s.leaving [
  | awaits_close k ↦ if k == h then send_delete c s else s
  | _ ↦ s
]

-- The timer of `closeSocket`.
unfoldable pub on_close_timeout : Context → Leaving → TunnelClient → TunnelClient
on_close_timeout c (awaits_close h) s = send_delete c (terminate h s)
on_close_timeout c _ s = s

unfoldable pub on_deleted : TunnelClient → TunnelClient
on_deleted s = elim s.leaving [ deregistering ↦ finish_disconnect s | _ ↦ s ]

unfoldable pub on_hello_timeout : ℕ → TunnelClient → TunnelClient
on_hello_timeout h s = elim s.phase [
  | awaits_hello k ↦ if k == h then attempt_failed (codes "tunnel hello timeout") s else s
  | _ ↦ s
]

-- The ping timer: a socket without a pong in time is terminated, and each second ping has a
-- heartbeat with it.
unfoldable pub on_tick : ℕ → TunnelClient → TunnelClient
on_tick now s = elim s.ping_timer [
  | none ↦ s
  | some h ↦ elim (s.states h) [
    | ready_open ↦
        if ltb tunnel_pong_deadline_ms (now - s.last_pong_at)
        then terminate h s
        else (let pinged : TunnelClient = record (send h ping s) { ticks = s.ticks + 1 } in
            if (s.ticks + 1) % 2 == 0 then send h heartbeat pinged else pinged)
    | _ ↦ s
  ]
]

abbrev is_request : ℕ → Text → ℕ × Text → Bool
is_request h id (k, other) = k == h && text_eq other id

-- A local fetch has ended, with an answer or an error, for a request that is under way.
unfoldable pub on_fetched : ℕ → Text → Bool → TunnelClient → TunnelClient
on_fetched h id ok s =
    let without : TunnelClient = record s {
      in_flight = filter (λ r. not (is_request h id r)) s.in_flight;
    } in
    if any (is_request h id) s.in_flight
    then send_if_open h (if ok then answer id else failure id) without
    else s

unfoldable pub on_event : Context → Event → TunnelClient → TunnelClient
on_event c began s = begin s
on_event c left s = disconnect c s
on_event c (opened h) s = on_open h s
on_event c (closes h) s = leaving_closed c h (loop_closed h (set_state h ready_closed s))
on_event c (hello_timed_out h) s = on_hello_timeout h s
on_event c (refused h status) s = terminate h (note_failure (codes "undefined") (some status) s)
on_event c (errs h error) s = on_error h error s
on_event c (receives h now text) s = on_message c h now text s
on_event c (ticked now) s = on_tick now s
on_event c slept s = elim s.phase [ sleeping ↦ woke s | _ ↦ s ]
on_event c (fetched h id ok) s = on_fetched h id ok s
on_event c close_timed_out s = on_close_timeout c s.leaving s
on_event c deleted s = on_deleted s

unfoldable pub run : Context → List Event → TunnelClient → TunnelClient
run c [] s = s
run c (event ∷ events) s = run c events (on_event c event s)

-- The constructor.
abbrev pub fresh_client : TunnelClient
fresh_client = record {
  subscriber_id = [];
  forward_token = [];
  connection_token = [];
  connection_state = connecting;
  last_pong_at = 0;
  aborted = false;
  is_disconnected = false;
  loop_started = false;
  serving = false;
  socket = none;
  ping_timer = none;
  ticks = 0;
  ready = unsettled;
  delay = 1000;
  phase = idle;
  leaving = staying;
  states = λ h. ready_closed;
  offered = [];
  in_flight = [];
  outbox = [];
  fetches = [];
  deletions = [];
}
