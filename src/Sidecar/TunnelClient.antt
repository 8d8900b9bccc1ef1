-- ===== src/Sidecar/TunnelClient.antt =====
-- tunnel-client.ts: the state of a `TunnelConnection`, and what its methods do up to their awaits.
-- What happens at the awaits is in the child `Events`. A socket is a number, and what `ws` keeps of
-- it is in `states`; local fetches and `URL` belong to the runtime.
use wrangle_webhooks.Base.{
  ◌==◌, if◌then◌else◌, or_else, length, is_empty, filter, Text, codes, text_eq, to_lower, ℕ, ◌*◌,
  min, Bool, true, false, not, ◌&&◌, ◌||◌, Option, none, some, List, [], ◌∷◌, ◌++◌,
}
use wrangle_webhooks.Tunnel.{Headers, Parsed}
use wrangle_webhooks.Sidecar.{
  ConnectionStateReason, connecting, connected, disconnected, next_connection_failure,
  connection_retry_max_delay_ms,
}
pub mod Events

-- `readyState`
pub data SocketState : Type 0 where
  ready_connecting ready_open ready_closing ready_closed : SocketState

-- The promise `ready`.
pub data Ready : Type 0 where
  unsettled fulfilled : Ready
  failed : Text → Ready

-- Where `runLoop` waits, for which socket.
pub data Phase : Type 0 where
  idle sleeping ended : Phase
  awaits_open awaits_hello serves : ℕ → Phase

-- Where `disconnect` waits: for the socket to close, or for the answer to its request.
pub data Leaving : Type 0 where
  staying deregistering gone : Leaving
  awaits_close : ℕ → Leaving

-- The two texts without an object, the answer to a request, and the error.
pub data ClientMessage : Type 0 where
  ping heartbeat : ClientMessage
  answer failure : Text → ClientMessage

-- `fetch` of a local URL.
pub record LocalFetch : Type 0 where
  pub url : Text
  pub method : Text
  pub headers : Headers
  pub body : Option (List ℕ)

-- A message as parsed, with what the guards do not look at.
pub record Incoming : Type 0 where
  pub parsed : Parsed
  pub forward_token : Text
  pub connection_token : Option Text
  pub method : Text
  pub path : Text
  pub search : Text

-- The connection, with the sockets that it has asked for (each with the token that was offered),
-- the local requests under way, and what it has sent: messages by socket, fetches, and the tokens of
-- its DELETE requests.
pub record TunnelClient : Type 0 where
  pub subscriber_id : Text
  pub forward_token : Text
  pub connection_token : Text
  pub connection_state : ConnectionStateReason
  pub last_pong_at : ℕ
  pub aborted : Bool
  pub is_disconnected : Bool
  pub loop_started : Bool
  pub serving : Bool
  pub socket : Option ℕ
  pub ping_timer : Option ℕ
  pub ticks : ℕ
  pub ready : Ready
  pub delay : ℕ
  pub phase : Phase
  pub leaving : Leaving
  pub states : ℕ → SocketState
  pub offered : List Text
  pub in_flight : List (ℕ × Text)
  pub outbox : List (ℕ × ClientMessage)
  pub fetches : List LocalFetch
  pub deletions : List Text

abbrev pub set_state : ℕ → SocketState → TunnelClient → TunnelClient
set_state h state s = record s { states = λ other. if other == h then state else s.states other }

abbrev is_open : SocketState → Bool
is_open ready_open = true
is_open _ = false

abbrev settle_ready : Ready → Ready → Ready
settle_ready unsettled next = next
settle_ready settled next = settled

unfoldable pub mark_ready : TunnelClient → TunnelClient
mark_ready s = record s { ready = settle_ready s.ready fulfilled }

unfoldable pub fail_ready : Text → TunnelClient → TunnelClient
fail_ready error s = record s { ready = settle_ready s.ready (failed error) }

abbrev pub tunnel_connection_aborted_error : Text
tunnel_connection_aborted_error = codes "TunnelConnection aborted"

-- `get connected()`
unfoldable pub is_connected : TunnelClient → Bool
is_connected s = elim s.socket [ none ↦ false | some h ↦ s.serving && is_open (s.states h) ]

unfoldable pub clear_ping : TunnelClient → TunnelClient
clear_ping s = record s { ping_timer = none }

unfoldable pub start_ping : ℕ → ℕ → TunnelClient → TunnelClient
start_ping h now s = record s { last_pong_at = now; ticks = 0; ping_timer = some h }

unfoldable pub note_failure : Text → Option ℕ → TunnelClient → TunnelClient
note_failure error status s = record s {
  connection_state =
      if s.is_disconnected
      then disconnected
      else next_connection_failure s.connection_state error status;
}

-- `openAndServe` up to its first await. The header is left out where the token is empty.
unfoldable pub open_socket : TunnelClient → TunnelClient
open_socket s =
    let h = length s.offered in
    record (set_state h ready_connecting s) {
      offered = s.offered ++ (s.connection_token ∷ []);
      socket = some h;
      phase = awaits_open h;
    }

-- The head of the loop.
unfoldable pub loop_turn : TunnelClient → TunnelClient
loop_turn s = if s.is_disconnected then record s { phase = ended } else open_socket s

-- The `catch` of the loop, up to its sleep.
unfoldable pub attempt_failed : Text → TunnelClient → TunnelClient
attempt_failed error s =
    let noted = note_failure error none s in
    if s.is_disconnected || s.aborted
    then record (fail_ready error noted) { phase = ended }
    else record noted { phase = sleeping }

-- The sleep has ended, by its timer or by the abort.
unfoldable pub woke : TunnelClient → TunnelClient
woke s = loop_turn (record s { delay = min (s.delay * 2) connection_retry_max_delay_ms })

unfoldable pub begin : TunnelClient → TunnelClient
begin s = if s.loop_started then s else loop_turn (record s { loop_started = true })

abbrev is_same : ℕ → Option ℕ → Bool
is_same h none = false
is_same h (some k) = k == h

abbrev not_connected : ConnectionStateReason → ConnectionStateReason
not_connected connected = connecting
not_connected state = state

-- The `finally` behind `serve`.
unfoldable pub stop_serving : ℕ → TunnelClient → TunnelClient
stop_serving h s = record (clear_ping s) {
  serving = false;
  socket = if is_same h s.socket then none else s.socket;
  connection_state =
      if s.is_disconnected then s.connection_state else not_connected s.connection_state;
}

-- `serve` has returned, and the loop goes on.
unfoldable pub served : ℕ → TunnelClient → TunnelClient
served h s = loop_turn (record (stop_serving h s) { delay = 1000 })

-- What `openAndServe` does behind the hello, up to `serve`.
unfoldable pub start_serving : ℕ → ℕ → TunnelClient → TunnelClient
start_serving h now s =
    let served_now : TunnelClient = record s {
      serving = true;
      connection_state = connected;
      phase = serves h;
    } in
    start_ping h now (mark_ready served_now)

-- A hello in `waitForHello`, which resolves it.
unfoldable pub take_hello : ℕ → ℕ → Text → Incoming → TunnelClient → TunnelClient
take_hello h now id message s = start_serving h now (record s {
  subscriber_id = id;
  forward_token = message.forward_token;
  connection_token = or_else message.connection_token [];
})

abbrev has_body : Text → Bool
has_body method = not (text_eq method (codes "GET")) && not (text_eq method (codes "HEAD"))

-- `forwardLocal` up to its fetch; `join` is `joinTargetUrl` on the target.
unfoldable pub forward_local :
    (Text → Text → Text) → Text → Incoming → ℕ → TunnelClient → TunnelClient
forward_local join id message h s = record s {
  in_flight = s.in_flight ++ ((h, id) ∷ []);
  fetches =
      s.fetches
      ++ (record {
        url = join message.path message.search;
        method = message.method;
        headers =
            filter (λ (p : Text × Text). not (text_eq (to_lower p.0) (codes "host")))
              message.parsed.headers;
        body =
            if has_body message.method && not (is_empty message.parsed.body)
            then some message.parsed.body
            else none;
      }
          ∷ []);
}

-- `socket.send`
unfoldable pub send : ℕ → ClientMessage → TunnelClient → TunnelClient
send h message s = record s { outbox = s.outbox ++ ((h, message) ∷ []) }

-- A send that the client makes only on an open socket.
unfoldable pub send_if_open : ℕ → ClientMessage → TunnelClient → TunnelClient
send_if_open h message s = if is_open (s.states h) then send h message s else s

-- `socket.terminate()`: the socket is open no more, and its close is an event to come.
unfoldable pub terminate : ℕ → TunnelClient → TunnelClient
terminate h s = set_state h ready_closed s
