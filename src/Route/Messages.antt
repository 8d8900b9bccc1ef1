-- ===== src/Route/Messages.antt =====
-- Tunnel requests and their answers: `sendAndWait`, its timer and `webSocketMessage` of
-- durable-object.ts. `JSON.parse` is a parameter.
use wrangle_webhooks.Base.{
  if◌then◌else◌, or_else, is_empty, find, Text, codes, text_eq, or_text, ℕ, ◌+◌, Bool, not, ◌&&◌,
  ◌||◌, Option, none, some, [], ◌∷◌, ◌++◌,
}
use wrangle_webhooks.Base.Sql.{delete_where, upsert}
use wrangle_webhooks.Tunnel.{
  tunnel_ping, tunnel_pong, TunnelRequestMessage, TunnelResponseMessage, Parsed,
  is_tunnel_heartbeat, is_tunnel_response, is_tunnel_error,
}
use wrangle_webhooks.Route.{
  TunnelSocket, PendingTunnel, Settlement, resolved, failed, RouteState, live_socket,
  extend_subscriber,
}

abbrev pub has_key : Text → PendingTunnel → Bool
has_key id p = text_eq p.id id

-- `this.pending.get(id)`
abbrev pub pending_for : Text → RouteState → Option PendingTunnel
pending_for id s = find (has_key id) s.pending

-- `this.pending.delete(id)`
unfoldable pub forget : Text → RouteState → RouteState
forget id s = record s { pending = delete_where (has_key id) s.pending }

unfoldable pub settle : ℕ → Settlement → RouteState → RouteState
settle promise outcome s = record s { settled = s.settled ++ ((promise, outcome) ∷ []) }

-- `this.pending.set(id, …)` for the promise that is under way: a key that is there keeps its place
-- and gets the new entry.
unfoldable pub await_answer : Text → Text → ℕ → RouteState → RouteState
await_answer id subscriber promise s =
    let entry : PendingTunnel = record { id = id; subscriber_id = subscriber; promise = promise } in
    record s { pending = upsert (has_key id) (λ _. entry) entry s.pending }

-- `sends` tells whether `ws.send` succeeds on a socket. The promise is numbered by the state.
unfoldable pub send_and_wait :
    (ℕ → Bool) → Text → TunnelRequestMessage → RouteState → RouteState × ℕ
send_and_wait sends subscriber message s =
    let promise = s.next_promise in
    let started : RouteState = record s { next_promise = promise + 1 } in
    elim (live_socket subscriber started) [
      | none ↦ (settle promise (failed (codes "tunnel_disconnected")) started, promise)
      | some ws ↦
          let waiting = await_answer message.id subscriber promise started in
          let sent : RouteState = record waiting {
            outbox = waiting.outbox ++ ((ws.handle, message) ∷ []);
          } in
          if sends ws.handle then (sent, promise) else (
            settle promise (failed (codes "tunnel_send_failed")) (forget message.id waiting),
            promise,
          )
    ]

-- The timer of `sendAndWait`, for the promise and the key that it was started with.
unfoldable pub tunnel_timeout : Text → ℕ → RouteState → RouteState
tunnel_timeout id promise s = settle promise (failed (codes "tunnel_timeout")) (forget id s)

abbrev pub response_of : Text → Parsed → TunnelResponseMessage
response_of id p = record { id = id; status = p.status; headers = p.headers; body = p.body }

-- What `webSocketMessage` does with an answer that has a pending entry.
unfoldable pub answer : Text → Parsed → PendingTunnel → RouteState → RouteState
answer id parsed entry s =
    let forgotten = forget id s in
    if is_tunnel_error (some parsed)
    then settle entry.promise (failed (or_text parsed.message parsed.code)) forgotten
    else settle entry.promise (resolved (response_of id parsed)) forgotten

-- The lookup of the pending entry of an answer.
unfoldable pub answer_pending : Text → Parsed → RouteState → RouteState
answer_pending id parsed s = elim (pending_for id s) [
  | none ↦ s
  | some entry ↦ answer id parsed entry s
]

unfoldable pub receive_parsed : ℕ → TunnelSocket → Option Parsed → RouteState → RouteState
receive_parsed now ws none s = s
receive_parsed now ws (some parsed) s =
    let id = or_else parsed.id [] in
    if is_tunnel_heartbeat (some parsed)
    then if is_empty ws.tag then s else extend_subscriber ws.tag now s
    else if not (is_tunnel_response (some parsed)) && not (is_tunnel_error (some parsed))
    then s
    else answer_pending id parsed s

-- The outer `none` of the parser is the `SyntaxError`; the inner one is a value that is no object.
unfoldable pub web_socket_message :
    (Text → Option (Option Parsed)) → ℕ → TunnelSocket → Text → RouteState → RouteState
web_socket_message parse_json now ws message s =
    if text_eq message tunnel_ping || text_eq message tunnel_pong
    then s
    else elim (parse_json message) [ none ↦ s | some parsed ↦ receive_parsed now ws parsed s ]
