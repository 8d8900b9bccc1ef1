-- ===== src/Management/Subscribers.antt =====
-- management-http.ts: credentials, tunnels and the life of a subscriber.
use wrangle_webhooks.Base.{
  if◌then◌else◌, or_else, is_empty, Text, codes, text_eq, to_lower, ℕ, ◌/◌, Bool, true, false, not,
  ◌&&◌, Option, none, some, [],
}
use wrangle_webhooks.Log.Connection.{public_target, sanitize_client_ip}
use wrangle_webhooks.Path.RouteId.{is_allowed_route_id, is_allowed_environment_id}
use wrangle_webhooks.AcceptWebhooks.{absent, text, parse_accept_webhooks_value}
use wrangle_webhooks.TargetBaseUrl.{Target, valid, invalid, validate_target_base_url}
use wrangle_webhooks.Secrets.{derive_route_secret}
use wrangle_webhooks.Tunnel.{TunnelPath, no_match, route_id_from_tunnel_path}
use wrangle_webhooks.Oauth.{get, truthy}
use wrangle_webhooks.Index.{put_route, delete_route}
use wrangle_webhooks.Route.{subscriber_ttl_ms}
use wrangle_webhooks.Route.Attach.{AttachOptions, Attached, attached, environment_taken, threw}
use wrangle_webhooks.Route.Attach.Connect.{TunnelUpgrade, register, connect_tunnel}
use wrangle_webhooks.Route.Lifecycle.{
  heartbeat, deregister, BindResult, bound, invalid_oauth_state, subscriber_not_found,
  bind_oauth_state, get_active_subscribers,
}
use wrangle_webhooks.Ingress.Handler.{World}
use wrangle_webhooks.Management.{
  Json, property, text_property, ManagementRequest, Env, Answer, failure, failure_with, credential,
  subscribed, beaten, state_bound, no_content, tunnel_answer, exception,
  unauthorized_management_response, invalid_route, invalid_json, at_route, require_management_auth,
}

unfoldable pub mint_route_credential : Env → ManagementRequest → Text → Answer
mint_route_credential env request route =
    if not (require_management_auth env request)
    then unauthorized_management_response
    else if not (is_allowed_route_id route)
    then invalid_route
    else credential route (derive_route_secret env.hmac env.secret route)

-- The parameters of an upgrade, as the route reads them from the request.
unfoldable pub upgrade_of : ManagementRequest → TunnelUpgrade
upgrade_of request = record {
  upgrade = request.upgrade;
  pathname = request.pathname;
  environment_param = get (codes "environmentId") request.query;
  accept_webhooks = elim (get (codes "acceptWebhooks") request.query) [
    | none ↦ absent
    | some value ↦ text value
  ];
  connection_token = request.connection_token;
  client_ip = request.connecting_ip;
  protocols = request.protocols;
}

unfoldable pub is_no_tunnel : TunnelPath → Bool
is_no_tunnel no_match = true
is_no_tunnel _ = false

unfoldable pub handle_tunnel : Env → ManagementRequest → Text → World → World × Answer
handle_tunnel env request route w =
    let (next, result) =
      at_route env route (connect_tunnel env.sha256 env.fresh env.now (upgrade_of request)) w in
    if not (is_allowed_route_id route)
    then (w, invalid_route)
    else if not (text_eq (to_lower (or_else request.upgrade [])) (codes "websocket"))
    then (w, failure 426 (codes "expected_websocket"))
    else if is_no_tunnel (route_id_from_tunnel_path request.pathname)
    then (w, failure 400 (codes "invalid_tunnel_path"))
    else (next, tunnel_answer result)

-- What the outcome of `register` becomes.
unfoldable pub finish_subscriber : Env → Text → World × Attached → World × Answer
finish_subscriber env route (w, environment_taken) = (w, failure 409 (codes "environment_in_use"))
finish_subscriber env route (w, threw) = (w, exception)
finish_subscriber env route (w, attached id forward token) = (
  record w { index = put_route route env.now w.index },
  subscribed id route (subscriber_ttl_ms / 1000) forward token,
)

-- The arguments of `register` that the body gives.
unfoldable pub options_of : ManagementRequest → Json → Text → AttachOptions
options_of request payload url = record {
  environment_id = text_property (codes "environmentId") payload;
  transport = public_target;
  target_base_url = url;
  connection_token = text_property (codes "connectionToken") payload;
  client_ip = sanitize_client_ip request.connecting_ip;
  accept_webhooks = parse_accept_webhooks_value (property (codes "acceptWebhooks") payload);
}

-- From the check of the environment on.
unfoldable pub register_target :
    Env → ManagementRequest → Text → Json → Target → World → World × Answer
register_target env request route payload (invalid message) w =
    (w, failure_with 400 (codes "invalid_target_base_url") message)
register_target env request route payload (valid url) w =
    let environment = text_property (codes "environmentId") payload in
    if truthy environment && not (is_allowed_environment_id (or_else environment []))
    then (w, failure 400 (codes "invalid_environment_id"))
    else finish_subscriber env route (
        at_route env route
          (register env.sha256 env.fresh env.now route (options_of request payload url)) w)

unfoldable pub register_subscriber : Env → ManagementRequest → Text → World → World × Answer
register_subscriber env request route w =
    if not (is_allowed_route_id route) then (w, invalid_route) else elim request.body [
      | none ↦ (w, invalid_json)
      | some payload ↦
          let target = or_else (text_property (codes "targetBaseUrl") payload) [] in
          if is_empty target
          then (w, failure 400 (codes "target_base_url_required"))
          else register_target env request route payload
              (validate_target_base_url env.parse_url target) w
    ]

-- The answer to what `heartbeat` gave.
unfoldable pub beaten_answer : Text → Text → Option ℕ → Answer
beaten_answer route id none = failure 404 (codes "subscriber_not_found")
beaten_answer route id (some expires_in) = beaten id route expires_in

unfoldable pub heartbeat_subscriber : Env → Text → Text → World → World × Answer
heartbeat_subscriber env route id w =
    let (next, result) = at_route env route (heartbeat env.now id) w in
    if not (is_allowed_route_id route)
    then (w, invalid_route)
    else (next, beaten_answer route id result)

unfoldable pub bound_answer : BindResult → Answer
bound_answer bound = state_bound
bound_answer invalid_oauth_state = failure 400 (codes "invalid_oauth_state")
bound_answer subscriber_not_found = failure 404 (codes "subscriber_not_found")

-- `bindOAuthState` of management-http.ts.
unfoldable pub bind_subscriber_state :
    Env → ManagementRequest → Text → Text → World → World × Answer
bind_subscriber_state env request route id w =
    if not (is_allowed_route_id route) then (w, invalid_route) else elim request.body [
      | none ↦ (w, invalid_json)
      | some payload ↦
          let state = or_else (text_property (codes "state") payload) [] in
          let (next, result) = at_route env route (bind_oauth_state env.now id state) w in
          (next, bound_answer result)
    ]

unfoldable pub deregister_subscriber : Env → Text → Text → World → World × Answer
deregister_subscriber env route id w =
    let (gone, _) = at_route {0} env route (λ s. (deregister env.now id s, tt)) w in
    let (next, remaining) = at_route env route (get_active_subscribers env.now) gone in
    let unlisted : World = record next { index = delete_route route next.index } in
    if not (is_allowed_route_id route)
    then (w, invalid_route)
    else (if is_empty remaining then unlisted else next, no_content)
