-- ===== src/Route/Attach/Connect.antt =====
-- `register` and the tunnel upgrade (`fetch`) of durable-object.ts.
use wrangle_webhooks.Path.RouteId.{is_allowed_environment_id}
use wrangle_webhooks.Tunnel.{
  TunnelPath, no_match, malformed, tunnel_of, route_id_from_tunnel_path, selected_tunnel_protocol,
}
use wrangle_webhooks.Base.{
  if◌then◌else◌, is_some, or_else, is_empty, Text, codes, text_eq, to_lower, ℕ, false, not, ◌&&◌,
  Option, none, some, [], ◌∷◌, ◌++◌,
}
use wrangle_webhooks.Log.Connection.{public_target, tunnel, sanitize_client_ip}
use wrangle_webhooks.Oauth.{truthy}
use wrangle_webhooks.AcceptWebhooks.{Scalar, parse_accept_webhooks_value}
use wrangle_webhooks.Route.{
  live, RouteState, flush_connection_log, sync_index, set_route_id, schedule_cleanup,
}
use wrangle_webhooks.Route.Expiry.{purge_expired}
use wrangle_webhooks.Route.Attach.{
  Fresh, AttachOptions, Attached, attached, environment_taken, threw, reclaim_or_create,
}

-- `environmentId || null`
abbrev pub non_empty : Option Text → Option Text
non_empty none = none
non_empty (some e) = if is_empty e then none else some e

-- What `fetch` reads of an upgrade request.
pub record TunnelUpgrade : Type 0 where
  pub upgrade : Option Text
  pub pathname : Text
  pub environment_param : Option Text
  pub accept_webhooks : Scalar
  pub connection_token : Option Text
  pub client_ip : Option Text
  pub protocols : Option Text

-- An upgrade is answered with the values of the `hello` message and the selected subprotocol.
pub data UpgradeResult : Type 0 where
  refused : ℕ → Text → UpgradeResult
  upgraded : Text → Text → Text → Option Text → UpgradeResult
  upgrade_threw : UpgradeResult

unfoldable pub parse_environment_id : Option Text → Option Text
parse_environment_id none = none
parse_environment_id (some value) =
    if is_empty value then none else if is_allowed_environment_id value then some value else none

-- `acceptWebSocket(server, [id])`
unfoldable pub accept_socket : ℕ → Text → RouteState → RouteState
accept_socket handle id s = record s {
  sockets =
      s.sockets
      ++ (record {
        handle = handle;
        tag = id;
        ready_state = live;
        auto_response = none;
        ignored = false;
      }
          ∷ []);
}

-- What `fetch` does with the outcome of `reclaimOrCreate`.
unfoldable pub upgrade : Fresh → TunnelUpgrade → RouteState × Attached → RouteState × UpgradeResult
upgrade fresh request (s, environment_taken) =
    (flush_connection_log s, refused 409 (codes "environment_in_use"))
upgrade fresh request (s, threw) = (s, upgrade_threw)
upgrade fresh request (s, attached id forward token) = (
  accept_socket fresh.handle id (sync_index s),
  upgraded id forward token (selected_tunnel_protocol request.protocols),
)

-- What `register` does with the outcome of `reclaimOrCreate`.
unfoldable pub finish_register : ℕ → RouteState × Attached → RouteState × Attached
finish_register now (s, environment_taken) = (flush_connection_log s, environment_taken)
finish_register now (s, threw) = (s, threw)
finish_register now (s, attached id forward token) =
    (sync_index (schedule_cleanup now s), attached id forward token)

module _ (sha256 : Text → Text) where
  -- `register`, from the URL that `validateTargetBaseUrl` returned; an empty environment id is
  -- none.
  unfoldable pub register : Fresh → ℕ → Text → AttachOptions → RouteState → RouteState × Attached
  register fresh now route_id given s =
      let ready = set_route_id route_id (purge_expired now s) in
      let options : AttachOptions = record given {
        environment_id = non_empty given.environment_id;
        transport = public_target;
      } in
      finish_register now (reclaim_or_create sha256 fresh now options ready)

  -- What `fetch` does once the request has passed its checks.
  unfoldable pub open_tunnel :
      Fresh → ℕ → TunnelUpgrade → Text → RouteState → RouteState × UpgradeResult
  open_tunnel fresh now request route s =
      let ready = set_route_id route (purge_expired now s) in
      let options : AttachOptions = record {
        environment_id = parse_environment_id request.environment_param;
        transport = tunnel;
        target_base_url = [];
        connection_token = request.connection_token;
        client_ip = sanitize_client_ip request.client_ip;
        accept_webhooks = parse_accept_webhooks_value request.accept_webhooks;
      } in
      upgrade fresh request (reclaim_or_create sha256 fresh now options ready)

  -- `fetch` from the lookup of the route on.
  unfoldable pub connect_at :
      Fresh → ℕ → TunnelUpgrade → TunnelPath → RouteState → RouteState × UpgradeResult
  connect_at fresh now request no_match s = (s, refused 400 (codes "invalid_tunnel_path"))
  connect_at fresh now request malformed s = (s, upgrade_threw)
  connect_at fresh now request (tunnel_of route) s =
      if truthy request.environment_param
        && not (is_some (parse_environment_id request.environment_param))
      then (s, refused 400 (codes "invalid_environment_id"))
      else open_tunnel fresh now request route s

  -- `fetch`: the upgrade of a tunnel.
  unfoldable pub connect_tunnel :
      Fresh → ℕ → TunnelUpgrade → RouteState → RouteState × UpgradeResult
  connect_tunnel fresh now request s =
      if not (text_eq (to_lower (or_else request.upgrade [])) (codes "websocket"))
      then (s, refused 426 (codes "expected_websocket"))
      else connect_at fresh now request (route_id_from_tunnel_path request.pathname) s
