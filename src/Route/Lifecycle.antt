-- ===== src/Route/Lifecycle.antt =====
-- Heartbeats, removal, OAuth bindings, the alarm and closed sockets, of durable-object.ts.
use wrangle_webhooks.Base.{
  ltb, leb, ◌==◌, if◌then◌else◌, is_some, length, is_empty, filter, find, Text, codes, text_eq, ℕ,
  ◌+◌, ◌/◌, Bool, false, not, ◌&&◌, ◌||◌, Option, none, some, List, map,
}
use wrangle_webhooks.Base.Sql.{upsert, order_by}
use wrangle_webhooks.Log.Connection.{
  SubscriberTransport, tunnel, disconnected, ConnectionLogReason, deregistered, socket_closed,
  stale_tunnel, ConnectionLogEventInput, is_tunnel,
}
use wrangle_webhooks.Secrets.{connection_token_matches}
use wrangle_webhooks.Oauth.{oauth_state_ttl_ms, oauth_state_max_length}
use wrangle_webhooks.Route.{
  subscriber_ttl_ms, SubscriberRow, OauthBinding, TunnelSocket, RouteState, has_id, live_socket,
  lookup_subscriber, subscriber_count, queue_connection_log, route_or_root, flush_connection_log,
  sync_index, extend_subscriber, fail_pending_for_subscriber, remove_subscriber_row, close_sockets,
  close_socket, schedule_cleanup,
}
use wrangle_webhooks.Route.Expiry.{has_environment, purge_expired}

-- An active subscriber, as the management API lists it.
pub record Subscriber : Type 0 where
  pub id : Text
  pub transport : SubscriberTransport
  pub target_base_url : Text
  pub created_at : ℕ
  pub last_heartbeat_at : ℕ
  pub expires_at : ℕ
  pub environment_id : Option Text
  pub accept_webhooks : Bool

unfoldable pub to_subscriber : SubscriberRow → Subscriber
to_subscriber row = record {
  id = row.id;
  transport = row.transport;
  target_base_url = if is_tunnel row.transport then codes "reverse-tunnel" else row.target_base_url;
  created_at = row.created_at;
  last_heartbeat_at = row.last_heartbeat_at;
  expires_at = row.expires_at;
  environment_id = row.environment_id;
  accept_webhooks = row.accept_webhooks;
}

-- The result is `expiresIn` in seconds, or null.
unfoldable pub heartbeat : ℕ → Text → RouteState → RouteState × Option ℕ
heartbeat now id s =
    let purged = purge_expired now s in
    let found =
      find (λ (row : SubscriberRow). has_id id row && ltb now row.expires_at) purged.rows in
    let beaten = schedule_cleanup now (extend_subscriber id now purged) in
    if not (is_some found)
    then (flush_connection_log purged, none)
    else (flush_connection_log beaten, some (subscriber_ttl_ms / 1000))

module _ (sha256 : Text → Text) where
  unfoldable pub verify_connection_token : Text → Text → RouteState → Bool
  verify_connection_token id token s = elim (lookup_subscriber id s) [
    | none ↦ false
    | some row ↦ connection_token_matches sha256 token row.connection_token_hash
  ]

unfoldable pub deregister : ℕ → Text → RouteState → RouteState
deregister now id s =
    let closed = close_sockets id s in
    let failed_all = fail_pending_for_subscriber id (codes "subscriber_disconnected") closed in
    let purged = purge_expired now (remove_subscriber_row id deregistered failed_all) in
    let no_alarm : RouteState = record purged { alarm = none } in
    sync_index (if subscriber_count purged == 0 then no_alarm else schedule_cleanup now purged)

pub data BindResult : Type 0 where
  bound : BindResult
  invalid_oauth_state subscriber_not_found : BindResult

-- The upsert of `bindOAuthState`.
unfoldable pub put_binding : Text → Text → ℕ → RouteState → RouteState
put_binding id state now s = record s {
  bindings =
      upsert (λ (b : OauthBinding). text_eq b.state state)
        (λ b. record b { subscriber_id = id; expires_at = now + oauth_state_ttl_ms })
        (record { state = state; subscriber_id = id; expires_at = now + oauth_state_ttl_ms })
        s.bindings;
}

unfoldable pub bind_oauth_state : ℕ → Text → Text → RouteState → RouteState × BindResult
bind_oauth_state now id state s =
    let purged = purge_expired now s in
    if is_empty state || ltb oauth_state_max_length (length state)
    then (s, invalid_oauth_state)
    else if not (is_some (lookup_subscriber id purged))
    then (flush_connection_log purged, subscriber_not_found)
    else (flush_connection_log (put_binding id state now purged), bound)

-- `ORDER BY created_at ASC`
abbrev pub by_creation : List SubscriberRow → List SubscriberRow
by_creation rows = order_by (λ (a b : SubscriberRow). leb a.created_at b.created_at) rows

abbrev pub is_active : RouteState → SubscriberRow → Bool
is_active s row =
    not (is_tunnel row.transport) || (is_some (live_socket row.id s) || has_environment row)

unfoldable pub get_active_subscribers : ℕ → RouteState → RouteState × List Subscriber
get_active_subscribers now s =
    let purged = purge_expired now s in
    (
      flush_connection_log purged,
      map to_subscriber (filter (is_active purged) (by_creation purged.rows)),
    )

unfoldable pub run_alarm : ℕ → RouteState → RouteState
run_alarm now s = sync_index (schedule_cleanup now (purge_expired now s))

abbrev pub parked_event :
    ConnectionLogReason → Text → SubscriberRow → RouteState → ConnectionLogEventInput
parked_event reason id row s = record {
  action = disconnected;
  reason = reason;
  route_id = route_or_root s;
  subscriber_id = some id;
  environment_id = row.environment_id;
  transport = some tunnel;
  target_base_url = some (codes "reverse-tunnel");
  client_ip = none;
  occurred_at = none;
}

-- A row with an environment is parked for another term, and any other is removed.
unfoldable pub park_or_remove :
    ℕ → Text → ConnectionLogReason → Option SubscriberRow → RouteState → RouteState
park_or_remove now id reason none s = sync_index (remove_subscriber_row id reason s)
park_or_remove now id reason (some row) s =
    let parked = extend_subscriber id now (queue_connection_log (parked_event reason id row s) s) in
    if has_environment row
    then sync_index (schedule_cleanup now parked)
    else sync_index (remove_subscriber_row id reason s)

unfoldable pub detach_socket : ℕ → TunnelSocket → ConnectionLogReason → RouteState → RouteState
detach_socket now ws reason s =
    let failed_all = fail_pending_for_subscriber ws.tag (codes "tunnel_disconnected") s in
    if is_empty ws.tag
    then s
    else if ws.ignored
    then failed_all
    else park_or_remove now ws.tag reason (lookup_subscriber ws.tag failed_all) failed_all

unfoldable pub web_socket_close : ℕ → TunnelSocket → ℕ → RouteState → RouteState
web_socket_close now ws code s =
    close_socket ws.handle code
      (detach_socket now ws (if code == 4000 then stale_tunnel else socket_closed) s)

unfoldable pub web_socket_error : ℕ → TunnelSocket → RouteState → RouteState
web_socket_error now ws s = detach_socket now ws socket_closed s
