-- ===== src/Ingress/Handler.antt =====
-- public-ingress.ts over the states of the router index and the routes: how the route of a request
-- is found, and how a request is recorded. The branches are in the child `Branches`.
use wrangle_webhooks.Base.{
  ◌==◌, if◌then◌else◌, is_some, or_else, length, is_empty, filter, find, Text, codes, text_eq,
  split, or_text, ℕ, Bool, not, ◌&&◌, ◌||◌, Option, none, some, List, [], ◌∷◌, ◌++◌,
}
use wrangle_webhooks.Path.RouteId.{is_valid_route_id, durable_object_name_for_route}
use wrangle_webhooks.Path.Scanner.{is_scanner_probe_path}
use wrangle_webhooks.Path.Ingress.{public_path_has_dot_dot_segment, remaining_path_from_public_url}
use wrangle_webhooks.Log.Inbound.{InboundLogEventInput, inbound_body_bytes}
use wrangle_webhooks.Oauth.{
  Params, DeliveryClass, oauth, fanout, oauth_callback_incomplete, oauth_callback_not_registered,
  oauth_method_not_allowed, truthy, DeliveryOptions, classify_delivery, read_oauth_state,
  parse_form_body,
}
use wrangle_webhooks.Oauth.Paths.{list_oauth_callback_paths_for_route}
use wrangle_webhooks.Oauth.Signed.{SignedOauthState}
use wrangle_webhooks.Fanout.Storage.{get_webhook_fanout_settings}
use wrangle_webhooks.Tunnel.{tunnel_max_body_bytes, Headers}
use wrangle_webhooks.Index.{IndexState, indexed_public_route_presence, record_inbound_events}
use wrangle_webhooks.Ingress.Body.{CappedBody, read, too_large, read_capped_ingress_body}
use wrangle_webhooks.Route.{RouteState, subscriber_count}
use wrangle_webhooks.Route.Lifecycle.{Subscriber, get_active_subscribers}
use wrangle_webhooks.Route.Delivery.{
  DeliverySubscriber, IngressPayload, count_webhook_fanout_deliveries, Started, fan_out, ProxyStart,
  proxy_error, started_with, proxy_oauth,
}
pub mod Branches
pub mod Record

-- The router: the index, and the state of each route's object by its name. `recorded` has the
-- arguments of all calls of `recordInboundEvents`, and `started` what the deliveries started. The
-- calls that a route makes of the index are in the `index_calls` of its state.
pub record World : Type 0 where
  pub index : IndexState
  pub routes : Text → RouteState
  pub recorded : List InboundLogEventInput
  pub started : List Started

-- A public request as the handler reads it.
pub record PublicRequest : Type 0 where
  pub pathname : Text
  pub search : Text
  pub host : Text
  pub protocol : Text
  pub method : Text
  pub header_pairs : Headers
  pub content_type : Option Text
  pub content_length : Option Text
  pub connecting_ip : Option Text
  pub stream : Option (List (List ℕ))

-- The status, and the error of a rejection.
pub record PublicResponse : Type 0 where
  pub status : ℕ
  pub error : Option Text

pub record ResolvedRoute : Type 0 where
  pub route_id : Text
  pub remaining_path : Text
  pub subscribers : List Subscriber

unfoldable pub set_route : Text → RouteState → World → World
set_route name state w = record w {
  routes = λ other. if text_eq other name then state else w.routes other;
}

-- `getActiveSubscribers` of the route's object.
unfoldable pub active_of : ℕ → Text → World → World × List Subscriber
active_of now route w =
    let name = durable_object_name_for_route route in
    let (next, subscribers) = get_active_subscribers now (w.routes name) in
    (set_route name next w, subscribers)

-- `url.pathname.split("/").filter(Boolean)[0]`
unfoldable pub first_segment : Text → Option Text
first_segment pathname = find (λ (s : Text). not (is_empty s)) (split b'/' pathname)

abbrev pub valid_candidate : Option Text → Option Text
valid_candidate none = none
valid_candidate (some c) = if is_valid_route_id c then some c else none

-- One of the two lookups; `none` where it has no subscriber.
unfoldable pub try_route : ℕ → Text → Text → World → World × Option ResolvedRoute
try_route now route pathname w =
    let (next, subscribers) = active_of now route w in
    if is_empty subscribers then (next, none) else (
      next,
      some (record {
        route_id = route;
        remaining_path = remaining_path_from_public_url pathname route;
        subscribers = subscribers;
      }),
    )

-- The root, if the named route has given nothing.
unfoldable pub or_root_route :
    ℕ → Bool → Text → World × Option ResolvedRoute → World × Option ResolvedRoute
or_root_route now root pathname (w, some found) = (w, some found)
or_root_route now root pathname (w, none) = if root then try_route now [] pathname w else (w, none)

unfoldable pub resolve_public_route : ℕ → Text → World → World × Option ResolvedRoute
resolve_public_route now pathname w =
    let candidate = first_segment pathname in
    let indexed = indexed_public_route_presence (valid_candidate candidate) w.index in
    or_root_route now indexed.root pathname (
      if indexed.named && truthy candidate
      then try_route now (or_else candidate []) pathname w
      else (w, none))

unfoldable pub inbound_log_kind : DeliveryClass → Text
inbound_log_kind fanout = codes "webhook"
inbound_log_kind _ = codes "oauth"

-- `recordInboundEvents([event])`
unfoldable pub record_public_inbound_log : ℕ → InboundLogEventInput → World → World
record_public_inbound_log now event w = record w {
  index = record_inbound_events now (event ∷ []) w.index;
  recorded = w.recorded ++ (event ∷ []);
}
