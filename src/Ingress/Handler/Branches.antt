-- ===== src/Ingress/Handler/Branches.antt =====
-- `handlePublicIngress` of public-ingress.ts. What a subscriber answers to an OAuth callback comes in
-- as a parameter, and so do the parts of the request that the runtime reads.
use wrangle_webhooks.Base.{
  ◌==◌, if◌then◌else◌, is_some, length, filter, Text, codes, or_text, ℕ, Bool, not, ◌||◌, Option,
  none, some, List, [], ◌∷◌, ◌++◌,
}
use wrangle_webhooks.Path.RouteId.{durable_object_name_for_route}
use wrangle_webhooks.Path.Scanner.{is_scanner_probe_path}
use wrangle_webhooks.Path.Ingress.{public_path_has_dot_dot_segment}
use wrangle_webhooks.Log.Inbound.{InboundLogEventInput, inbound_body_bytes}
use wrangle_webhooks.Oauth.{
  Params, DeliveryClass, oauth, fanout, oauth_callback_incomplete, oauth_callback_not_registered,
  oauth_method_not_allowed, DeliveryOptions, classify_delivery, read_oauth_state, parse_form_body,
}
use wrangle_webhooks.Oauth.Paths.{list_oauth_callback_paths_for_route}
use wrangle_webhooks.Oauth.Signed.{SignedOauthState}
use wrangle_webhooks.Fanout.Storage.{get_webhook_fanout_settings}
use wrangle_webhooks.Tunnel.{tunnel_max_body_bytes, Headers}
use wrangle_webhooks.Ingress.Body.{CappedBody, read, too_large, read_capped_ingress_body}
use wrangle_webhooks.Route.{route_or_root, flush_connection_log}
use wrangle_webhooks.Route.Delivery.{
  DeliverySubscriber, IngressPayload, count_webhook_fanout_deliveries, Started, fan_out, ProxyStart,
  proxy_error, started_with, proxy_oauth,
}
use wrangle_webhooks.Ingress.Handler.{
  World, PublicRequest, PublicResponse, ResolvedRoute, set_route, resolve_public_route,
  inbound_log_kind, record_public_inbound_log,
}

-- What the handler takes from outside: the parser of parameters, the decoder of a body's text, the
-- headers for a subscriber, the sockets that take a message, the unwrapping of states, fresh hex
-- digits, and the outcome of a delivery that was started, with its status.
pub record Outside : Type 0 where
  pub parse_params : Text → Params
  pub decode_text : List ℕ → Text
  pub build : DeliverySubscriber → IngressPayload → Headers
  pub sends : ℕ → Bool
  pub unwrap : Text → Option SignedOauthState
  pub hex : Text → Text
  pub outcome : Started → PublicResponse

module _ (o : Outside) where
  -- The event of a request, with the kind and the outcome.
  abbrev pub event_of :
      PublicRequest
      → Text
      → Option Text
      → Text
      → Text
      → Text
      → PublicResponse
      → ℕ
      → ℕ
      → ℕ
      → InboundLogEventInput
  event_of request id route remaining kind result response subscribers delivered bytes = record {
    id = id;
    method = request.method;
    route_id = route;
    remaining_path = remaining;
    search = some request.search;
    kind = kind;
    result = result;
    status = response.status;
    error = response.error;
    subscriber_count = subscribers;
    delivered_subscriber_count = some delivered;
    body_bytes = bytes;
    occurred_at = none;
  }

  abbrev pub rejection : ℕ → Text → PublicResponse
  rejection status error = record { status = status; error = some error }

  abbrev pub options_for : PublicRequest → Text → Option Params → List Text → DeliveryOptions
  options_for request remaining form allowed = record {
    remaining_path = remaining;
    search = request.search;
    form = form;
    method = some request.method;
    allowed_callback_paths = allowed;
  }

  -- A rejection after the route was found.
  unfoldable pub reject :
      ℕ
      → PublicRequest
      → Text
      → ResolvedRoute
      → Text
      → PublicResponse
      → ℕ
      → World
      → World × PublicResponse
  reject now request id target kind response bytes w = (
    record_public_inbound_log now
        (event_of request id (some target.route_id) target.remaining_path kind (codes "rejected")
          response (length target.subscribers) 0 bytes)
        w,
    response,
  )

  abbrev pub payload_of : PublicRequest → Text → Text → List ℕ → Option Params → IngressPayload
  payload_of request id remaining body form = record {
    remaining_path = remaining;
    search = request.search;
    method = request.method;
    header_pairs = request.header_pairs;
    body = body;
    request_id = id;
    public_host = request.host;
    public_proto = or_text (filter (λ c. not (c == b':')) request.protocol) (codes "https");
    client_ip = request.connecting_ip;
    oauth_state = read_oauth_state o.parse_params request.search form;
  }

  -- The result of `proxyOAuth`: that of the delivery where one was started.
  unfoldable pub proxy_response : ProxyStart → PublicResponse
  proxy_response (proxy_error status error) = rejection status error
  proxy_response (started_with subscriber started) = o.outcome started

  abbrev pub started_by : ProxyStart → List Started
  started_by (proxy_error status error) = []
  started_by (started_with subscriber started) = started ∷ []

  -- The branch that proxies an OAuth callback; `proxyOAuth` ends with a flush of the log.
  unfoldable pub proxy_branch :
      ℕ → PublicRequest → Text → ResolvedRoute → IngressPayload → ℕ → World → World × PublicResponse
  proxy_branch now request id target payload bytes w =
      let name = durable_object_name_for_route target.route_id in
      let (next, start) =
        proxy_oauth o.build o.sends o.unwrap o.hex now now payload (w.routes name) in
      let response = proxy_response start in
      let proxied = not (is_some response.error) in
      let moved : World = record (set_route name (flush_connection_log next) w) {
        started = w.started ++ started_by start;
      } in
      (
        record_public_inbound_log now
            (event_of request id (some target.route_id) target.remaining_path (codes "oauth")
              (if proxied then codes "proxied" else codes "rejected") response
              (length target.subscribers) (if proxied then 1 else 0) bytes)
            moved,
        response,
      )

  -- The branch that fans a webhook out; `fanOut` ends with a flush of the log.
  unfoldable pub fanout_branch :
      ℕ → PublicRequest → Text → ResolvedRoute → IngressPayload → ℕ → World → World × PublicResponse
  fanout_branch now request id target payload bytes w =
      let name = durable_object_name_for_route target.route_id in
      let settings = get_webhook_fanout_settings w.index.fanout (route_or_root (w.routes name)) in
      let (counted, count) =
        count_webhook_fanout_deliveries o.hex now target.remaining_path settings (w.routes name) in
      let response : PublicResponse = record { status = 202; error = none } in
      let logged =
        record_public_inbound_log now
          (event_of request id (some target.route_id) target.remaining_path (codes "webhook")
            (codes "accepted") response (length target.subscribers) count bytes)
          (set_route name counted w) in
      let (next, started) =
        fan_out o.build o.sends o.hex now settings payload (logged.routes name) in
      (
        record (set_route name (flush_connection_log next) logged) {
          started = logged.started ++ started;
        },
        response,
      )

  -- What follows the classification.
  unfoldable pub deliver_as :
      DeliveryClass
      → ℕ
      → PublicRequest
      → Text
      → ResolvedRoute
      → IngressPayload
      → ℕ
      → World
      → World × PublicResponse
  deliver_as oauth_callback_not_registered now request id target payload bytes w =
      reject now request id target (codes "oauth")
        (rejection 404 (codes "oauth_callback_not_registered")) bytes w
  deliver_as oauth_callback_incomplete now request id target payload bytes w =
      reject now request id target (codes "oauth")
        (rejection 404 (codes "oauth_callback_incomplete")) bytes w
  deliver_as oauth_method_not_allowed now request id target payload bytes w =
      reject now request id target (codes "oauth")
        (rejection 405 (codes "oauth_method_not_allowed")) bytes w
  deliver_as oauth now request id target payload bytes w =
      proxy_branch now request id target payload bytes w
  deliver_as fanout now request id target payload bytes w =
      fanout_branch now request id target payload bytes w

  -- What follows the reading of the body.
  unfoldable pub with_body :
      ℕ → PublicRequest → Text → ResolvedRoute → CappedBody → World → World × PublicResponse
  with_body now request id target (too_large bytes) w =
      let allowed = list_oauth_callback_paths_for_route w.index.callback_paths target.route_id in
      let kind = inbound_log_kind (
        classify_delivery o.parse_params
          (options_for request target.remaining_path none allowed)) in
      reject now request id target kind (rejection 413 (codes "request_too_large")) bytes w
  with_body now request id target (read body) w =
      let allowed = list_oauth_callback_paths_for_route w.index.callback_paths target.route_id in
      let form = parse_form_body o.parse_params request.content_type (o.decode_text body) in
      let payload = payload_of request id target.remaining_path body form in
      let delivery =
        classify_delivery o.parse_params (options_for request target.remaining_path form allowed) in
      deliver_as delivery now request id target payload
        (inbound_body_bytes request.content_length (some (length body))) w

  abbrev pub not_found : PublicResponse
  not_found = rejection 404 (codes "route_not_found")

  -- What follows the resolution of the route.
  unfoldable pub with_route :
      ℕ → PublicRequest → Text → World × Option ResolvedRoute → World × PublicResponse
  with_route now request id (w, none) =
      let remaining = or_text request.pathname (codes "/") in
      let kind =
        inbound_log_kind
          (classify_delivery o.parse_params (options_for request remaining none [])) in
      (
        record_public_inbound_log now
            (event_of request id none remaining kind (codes "rejected") not_found 0 0
              (inbound_body_bytes request.content_length none))
            w,
        not_found,
      )
  with_route now request id (w, some target) =
      if public_path_has_dot_dot_segment target.remaining_path
      then (w, not_found)
      else with_body now request id target
          (read_capped_ingress_body request.content_length request.stream tunnel_max_body_bytes) w

  unfoldable pub handle_public_ingress : ℕ → PublicRequest → Text → World → World × PublicResponse
  handle_public_ingress now request id w =
      if is_scanner_probe_path request.pathname || public_path_has_dot_dot_segment request.pathname
      then (w, not_found)
      else with_route now request id (resolve_public_route now request.pathname w)
