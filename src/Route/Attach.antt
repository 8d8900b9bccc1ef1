-- ===== src/Route/Attach.antt =====
-- `reclaimOrCreate` of durable-object.ts. What
-- `randomHex` and the runtime provide comes in as `Fresh`; the digest is a parameter.
use wrangle_webhooks.Path.RouteId.{is_allowed_environment_id}
use wrangle_webhooks.Tunnel.{
  no_match, malformed, tunnel_of, route_id_from_tunnel_path, selected_tunnel_protocol, TunnelPath,
}
use wrangle_webhooks.Base.{
  if◌then◌else◌, or_else, is_empty, any, Text, codes, or_text, ℕ, ◌+◌, Bool, true, false, not, ◌||◌,
  Option, none, some, List, [], ◌∷◌, ◌++◌, is_some, text_eq, to_lower, ◌&&◌,
}
use wrangle_webhooks.Base.Sql.{update_where}
use wrangle_webhooks.Log.Connection.{
  SubscriberTransport, ConnectionLogAction, connected, disconnected, rejected, ConnectionLogReason,
  registered, reclaimed, replaced, environment_in_use, ConnectionLogEventInput, is_tunnel,
  connection_log_target_base_url, public_target, tunnel, sanitize_client_ip,
}
use wrangle_webhooks.Oauth.{truthy}
use wrangle_webhooks.AcceptWebhooks.{Scalar, parse_accept_webhooks_value}
use wrangle_webhooks.Secrets.{
  random_connection_token, hash_connection_token, connection_token_matches,
}
use wrangle_webhooks.Route.{
  subscriber_ttl_ms, SubscriberRow, RouteState, has_id, get_web_sockets, in_environment,
  lookup_subscriber_by_environment, queue_connection_log, route_or_root, flush_connection_log,
  sync_index, set_route_id, fail_pending_for_subscriber, close_sockets, schedule_cleanup, live,
  closed,
}
use wrangle_webhooks.Route.Expiry.{purge_expired}
pub mod Connect

-- The random texts of one call, and the handle of the socket that it may accept.
pub record Fresh : Type 0 where
  pub connection_hex : Text
  pub subscriber_hex : Text
  pub forward_hex : Text
  pub handle : ℕ

pub record AttachOptions : Type 0 where
  pub environment_id : Option Text
  pub transport : SubscriberTransport
  pub target_base_url : Text
  pub connection_token : Option Text
  pub client_ip : Option Text
  pub accept_webhooks : Bool

-- `threw` is an exception: the table refuses a second row with the id or the environment.
pub data Attached : Type 0 where
  attached : Text → Text → Text → Attached
  environment_taken threw : Attached

-- `row.forward_token` if it is not empty, else a fresh one.
unfoldable pub forward_token_of : Fresh → SubscriberRow → Text
forward_token_of fresh row = or_text row.forward_token (codes "ft_" ++ fresh.forward_hex)

unfoldable pub ensure_forward_token : Fresh → SubscriberRow → RouteState → RouteState
ensure_forward_token fresh row s =
    if is_empty row.forward_token
    then record s {
      rows =
          update_where (has_id row.id)
            (λ r. record r { forward_token = forward_token_of fresh row }) s.rows;
    }
    else s

unfoldable pub subscriber_is_live : SubscriberRow → RouteState → Bool
subscriber_is_live row s =
    if is_tunnel row.transport then not (is_empty (get_web_sockets row.id s)) else true

-- The event of an existing subscriber that was refused or replaced.
abbrev pub existing_event :
    ConnectionLogAction
    → ConnectionLogReason
    → SubscriberRow
    → Option Text
    → RouteState
    → ConnectionLogEventInput
existing_event action reason row client_ip s = record {
  action = action;
  reason = reason;
  route_id = route_or_root s;
  subscriber_id = some row.id;
  environment_id = row.environment_id;
  transport = some row.transport;
  target_base_url = connection_log_target_base_url (some row.transport) (some row.target_base_url);
  client_ip = client_ip;
  occurred_at = none;
}

-- The event of a subscriber that connects under the options.
abbrev connected_event :
    ConnectionLogReason → Text → AttachOptions → RouteState → ConnectionLogEventInput
connected_event reason id options s = record {
  action = connected;
  reason = reason;
  route_id = route_or_root s;
  subscriber_id = some id;
  environment_id = options.environment_id;
  transport = some options.transport;
  target_base_url =
      connection_log_target_base_url (some options.transport) (some options.target_base_url);
  client_ip = options.client_ip;
  occurred_at = none;
}

-- The SET list of the reclaiming UPDATE.
abbrev pub reclaimed_row : Text → ℕ → AttachOptions → SubscriberRow → SubscriberRow
reclaimed_row hash now options r = record r {
  transport = options.transport;
  target_base_url = options.target_base_url;
  connection_token_hash = hash;
  last_heartbeat_at = now;
  expires_at = now + subscriber_ttl_ms;
  environment_id = options.environment_id;
  accept_webhooks = options.accept_webhooks;
}

-- What follows the checks: the row passes to the caller.
unfoldable pub take_over :
    Fresh → Text → ℕ → AttachOptions → SubscriberRow → RouteState → RouteState
take_over fresh hash now options existing s =
    let closed = close_sockets existing.id s in
    let failed_all = fail_pending_for_subscriber existing.id (codes "subscriber_replaced") closed in
    let ensured = ensure_forward_token fresh existing failed_all in
    let updated : RouteState = record ensured {
      rows = update_where (has_id existing.id) (reclaimed_row hash now options) ensured.rows;
    } in
    queue_connection_log (connected_event reclaimed existing.id options updated) updated

-- The UNIQUE constraints on the id and on the environment.
unfoldable pub conflicts : SubscriberRow → List SubscriberRow → Bool
conflicts row rows =
    any (has_id row.id) rows
    || elim row.environment_id [ none ↦ false | some e ↦ any (in_environment e) rows ]

abbrev pub new_row : Fresh → Text → ℕ → AttachOptions → SubscriberRow
new_row fresh hash now options = record {
  id = codes "sub_" ++ fresh.subscriber_hex;
  transport = options.transport;
  target_base_url = options.target_base_url;
  forward_token = codes "ft_" ++ fresh.forward_hex;
  connection_token_hash = hash;
  environment_id = options.environment_id;
  accept_webhooks = options.accept_webhooks;
  created_at = now;
  last_heartbeat_at = now;
  expires_at = now + subscriber_ttl_ms;
}

unfoldable pub create : Fresh → Text → ℕ → AttachOptions → RouteState → RouteState × Attached
create fresh hash now options s =
    let row = new_row fresh hash now options in
    let inserted : RouteState = record s { rows = s.rows ++ (row ∷ []) } in
    if conflicts row s.rows then (s, threw) else (
      queue_connection_log (connected_event registered row.id options inserted) inserted,
      attached row.id row.forward_token (random_connection_token fresh.connection_hex),
    )

-- The query that `reclaimOrCreate` begins with; an empty environment id is none.
unfoldable pub find_existing : AttachOptions → RouteState → Option SubscriberRow
find_existing options s = elim options.environment_id [
  | none ↦ none
  | some e ↦ if is_empty e then none else lookup_subscriber_by_environment e s
]

module _ (sha256 : Text → Text) where
  -- What `reclaimOrCreate` does after it awaited the digest, with the row that it had found
  -- before.
  unfoldable pub attach_with :
      Fresh → ℕ → AttachOptions → Option SubscriberRow → RouteState → RouteState × Attached
  attach_with fresh now options none s =
      create fresh (hash_connection_token sha256 (random_connection_token fresh.connection_hex)) now
        options s
  attach_with fresh now options (some existing) s =
      let token = random_connection_token fresh.connection_hex in
      let hash = hash_connection_token sha256 token in
      let result = attached existing.id (forward_token_of fresh existing) token in
      let proof = or_else options.connection_token [] in
      if subscriber_is_live existing s
      then if not (connection_token_matches sha256 proof existing.connection_token_hash)
        then (
          queue_connection_log
              (existing_event rejected environment_in_use existing options.client_ip s) s,
          environment_taken,
        )
        else (
          take_over fresh hash now options existing
              (queue_connection_log (existing_event disconnected replaced existing none s) s),
          result,
        )
      else (take_over fresh hash now options existing s, result)

  unfoldable pub reclaim_or_create : Fresh → ℕ → AttachOptions → RouteState → RouteState × Attached
  reclaim_or_create fresh now options s = attach_with fresh now options (find_existing options s) s
