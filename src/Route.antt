-- ===== src/Route.antt =====
-- durable-object.ts: the Durable Object of one route, with its subscribers, OAuth bindings, tunnel
-- sockets and pending tunnel requests. This file has the state and what every operation uses; the
-- operations are in `Expiry`, `Attach`, `Lifecycle`, `Messages` and `Delivery`.
use wrangle_webhooks.Base.{
  ltb, ◌==◌, if◌then◌else◌, is_some, or_else, length, is_empty, filter, find, Text, text_eq, ℕ, ◌+◌,
  min, max, Bool, true, false, not, ◌||◌, Option, none, some, List, [], ◌∷◌, ◌++◌, map,
}
use wrangle_webhooks.Base.Sql.{count_where, delete_where, update_where}
use wrangle_webhooks.Log.Connection.{
  SubscriberTransport, disconnected, ConnectionLogReason, ConnectionLogEventInput, is_tunnel,
  connection_log_target_base_url,
}
use wrangle_webhooks.Tunnel.{TunnelResponseMessage, TunnelRequestMessage}
pub mod Expiry
pub mod Attach
pub mod Lifecycle
pub mod Messages
pub mod Delivery
pub mod Inv
pub mod Alarm
pub mod Present
pub mod Purge
pub mod Ownership
pub mod Refusal
pub mod Removal
pub mod Resolve
pub mod Answers
mod Tests

abbrev pub subscriber_ttl_ms : ℕ
subscriber_ttl_ms = 300000

-- A row of `subscribers`; `accept_webhooks` is 0 or 1 in the table.
pub record SubscriberRow : Type 0 where
  pub id : Text
  pub transport : SubscriberTransport
  pub target_base_url : Text
  pub forward_token : Text
  pub connection_token_hash : Text
  pub environment_id : Option Text
  pub accept_webhooks : Bool
  pub created_at : ℕ
  pub last_heartbeat_at : ℕ
  pub expires_at : ℕ

-- A row of `oauth_bindings`.
pub record OauthBinding : Type 0 where
  pub state : Text
  pub subscriber_id : Text
  pub expires_at : ℕ

pub data ReadyState : Type 0 where
  live closing closed : ReadyState

-- An accepted socket that the runtime still lists: its tag, its state, the time of its last
-- automatic pong, and whether it is in `ignoreDisconnectLog`.
pub record TunnelSocket : Type 0 where
  pub handle : ℕ
  pub tag : Text
  pub ready_state : ReadyState
  pub auto_response : Option ℕ
  pub ignored : Bool

-- An entry of the map `pending`: its key, the subscriber, and the promise that it settles.
pub record PendingTunnel : Type 0 where
  pub id : Text
  pub subscriber_id : Text
  pub promise : ℕ

pub data Settlement : Type 0 where
  resolved : TunnelResponseMessage → Settlement
  failed : Text → Settlement

-- A call of the router index.
pub data IndexCall : Type 0 where
  record_connection_events : List ConnectionLogEventInput → IndexCall
  add_route remove_route : Text → IndexCall

pub record RouteState : Type 0 where
  pub rows : List SubscriberRow
  pub bindings : List OauthBinding
  pub route_id : Option Text
  pub alarm : Option ℕ
  pub sockets : List TunnelSocket
  -- `close` calls: the socket and the code.
  pub closes : List (ℕ × ℕ)
  pub pending : List PendingTunnel
  pub settled : List (ℕ × Settlement)
  pub next_promise : ℕ
  -- Tunnel messages sent: the socket and the message.
  pub outbox : List (ℕ × TunnelRequestMessage)
  pub pending_connection_log : List ConnectionLogEventInput
  pub index_calls : List IndexCall

abbrev pub has_id : Text → SubscriberRow → Bool
has_id id row = text_eq row.id id

abbrev pub is_ready : TunnelSocket → Bool
is_ready ws = elim ws.ready_state [ live ↦ true | _ ↦ false ]

-- `this.ctx.getWebSockets(id)`
abbrev pub get_web_sockets : Text → RouteState → List TunnelSocket
get_web_sockets id s = filter (λ ws. text_eq ws.tag id) s.sockets

unfoldable pub live_socket : Text → RouteState → Option TunnelSocket
live_socket id s = find is_ready (get_web_sockets id s)

unfoldable pub has_socket : Text → RouteState → Bool
has_socket id s = is_some (live_socket id s) || not (is_empty (get_web_sockets id s))

unfoldable pub lookup_subscriber : Text → RouteState → Option SubscriberRow
lookup_subscriber id s = find (has_id id) s.rows

-- `environment_id = ?`, which a null does not satisfy.
abbrev pub is_environment : Text → Option Text → Bool
is_environment environment none = false
is_environment environment (some own) = text_eq own environment

abbrev pub in_environment : Text → SubscriberRow → Bool
in_environment environment row = is_environment environment row.environment_id

unfoldable pub lookup_subscriber_by_environment : Text → RouteState → Option SubscriberRow
lookup_subscriber_by_environment environment s = find (in_environment environment) s.rows

unfoldable pub subscriber_count : RouteState → ℕ
subscriber_count s = length s.rows

-- The event is given the route id where it has none of its own.
unfoldable pub queue_connection_log : ConnectionLogEventInput → RouteState → RouteState
queue_connection_log event s = record s {
  pending_connection_log = s.pending_connection_log ++ (event ∷ []);
}

-- `this.getRouteId() ?? ""`
abbrev pub route_or_root : RouteState → Text
route_or_root s = or_else s.route_id []

unfoldable pub flush_connection_log : RouteState → RouteState
flush_connection_log s = if is_empty s.pending_connection_log then s else record s {
  pending_connection_log = [];
  index_calls = s.index_calls ++ (record_connection_events s.pending_connection_log ∷ []);
}

unfoldable pub sync_index : RouteState → RouteState
sync_index s =
    let flushed = flush_connection_log s in
    elim flushed.route_id [
      | none ↦ flushed
      | some route ↦ record flushed {
        index_calls =
            flushed.index_calls
            ++ ((if subscriber_count flushed == 0 then remove_route route else add_route route)
                ∷ []);
      }
    ]

unfoldable pub set_route_id : Text → RouteState → RouteState
set_route_id route s = record s { route_id = some route }

-- The SQL of `extendSubscriber`.
abbrev pub extended : ℕ → SubscriberRow → SubscriberRow
extended now row = record row { last_heartbeat_at = now; expires_at = now + subscriber_ttl_ms }

unfoldable pub extend_subscriber : Text → ℕ → RouteState → RouteState
extend_subscriber id now s = record s { rows = update_where (has_id id) (extended now) s.rows }

-- The rejections of all promises that wait for a subscriber.
unfoldable pub rejections : Text → Text → List PendingTunnel → List (ℕ × Settlement)
rejections id error [] = []
rejections id error (p ∷ ps) =
    if text_eq p.subscriber_id id
    then (p.promise, failed error) ∷ rejections id error ps
    else rejections id error ps

unfoldable pub fail_pending_for_subscriber : Text → Text → RouteState → RouteState
fail_pending_for_subscriber id error s = record s {
  pending = delete_where (λ p. text_eq p.subscriber_id id) s.pending;
  settled = s.settled ++ rejections id error s.pending;
}

unfoldable pub remove_subscriber_row : Text → ConnectionLogReason → RouteState → RouteState
remove_subscriber_row id reason s = elim (lookup_subscriber id s) [
  | none ↦ s
  | some row ↦
      let logged =
        queue_connection_log
          (record {
            action = disconnected;
            reason = reason;
            route_id = route_or_root s;
            subscriber_id = some id;
            environment_id = row.environment_id;
            transport = some row.transport;
            target_base_url =
                connection_log_target_base_url (some row.transport) (some row.target_base_url);
            client_ip = none;
            occurred_at = none;
          })
          s in
      record logged {
        rows = delete_where (has_id id) logged.rows;
        bindings = delete_where (λ b. text_eq b.subscriber_id id) logged.bindings;
      }
]

abbrev start_close : Bool → TunnelSocket → TunnelSocket
start_close ignore ws = record ws {
  ready_state = elim ws.ready_state [ live ↦ closing | other ↦ other ];
  ignored = ws.ignored || ignore;
}

-- `closeSockets(id, { ignoreDisconnectLog: true })`
unfoldable pub close_sockets : Text → RouteState → RouteState
close_sockets id s = record s {
  sockets = update_where (λ ws. text_eq ws.tag id) (start_close true) s.sockets;
  closes = s.closes ++ map (λ ws. (ws.handle, 1000)) (get_web_sockets id s);
}

-- `ws.close(code, …)` on one socket.
unfoldable pub close_socket : ℕ → ℕ → RouteState → RouteState
close_socket handle code s = record s {
  sockets = update_where (λ ws. ws.handle == handle) (start_close false) s.sockets;
  closes = s.closes ++ ((handle, code) ∷ []);
}

-- The smallest number of a list, `Math.min` and SQL's `MIN`.
abbrev pub least : List ℕ → Option ℕ
least [] = none
least (a ∷ rest) = elim (least rest) [ none ↦ some a | some b ↦ some (min a b) ]

unfoldable pub schedule_cleanup : ℕ → RouteState → RouteState
schedule_cleanup now s =
    let expiries = map (λ (row : SubscriberRow). row.expires_at) s.rows in
    let tunnels = count_where (λ (row : SubscriberRow). is_tunnel row.transport) s.rows in
    let first : List ℕ = elim (least expiries) [ none ↦ [] | some at ↦ at ∷ [] ] in
    let second : List ℕ = if ltb 0 tunnels then (now + 30000) ∷ [] else [] in
    let candidates = filter (λ at. ltb 0 at) (first ++ second) in
    record s {
      alarm = elim (least candidates) [ none ↦ none | some at ↦ some (max at (now + 1000)) ];
    }
