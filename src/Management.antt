-- ===== src/Management.antt =====
-- management-auth.ts, and what management-http.ts has in common: the request, the answers, and who
-- is let in. The handlers are in the children.
use wrangle_webhooks.Base.{
  ltb, if◌then◌else◌, or_else, length, is_empty, drop, Text, codes, text_eq, starts_with, ℕ, Bool,
  true, false, not, ◌&&◌, Option, none, some, List, [], ◌∷◌,
}
use wrangle_webhooks.Log.Connection.{rejected, unauthorized, sanitize_client_ip}
use wrangle_webhooks.Path.RouteId.{
  is_allowed_route_id, is_allowed_environment_id, durable_object_name_for_route,
}
use wrangle_webhooks.AcceptWebhooks.{Scalar, absent, boolean, text}
use wrangle_webhooks.TargetBaseUrl.{Url}
use wrangle_webhooks.Secrets.{
  timing_safe_equal_string, JoinRole, operator_role, match_join_credential,
}
use wrangle_webhooks.Tunnel.{decode_tunnel_subprotocol_secret}
use wrangle_webhooks.Oauth.{Params, get}
use wrangle_webhooks.Oauth.Paths.{OauthCallbackPathRow}
use wrangle_webhooks.Fanout.{WebhookFanoutRule, WebhookFanoutSettings}
use wrangle_webhooks.Index.{record_events, apply_calls}
use wrangle_webhooks.Route.{RouteState}
use wrangle_webhooks.Route.Attach.{Fresh}
use wrangle_webhooks.Route.Attach.Connect.{UpgradeResult}
use wrangle_webhooks.Route.Lifecycle.{verify_connection_token}
use wrangle_webhooks.Ingress.Handler.{World, set_route}
pub mod Subscribers
pub mod Settings
pub mod Dispatch
pub mod Access
pub mod Effects
pub mod Found
pub mod Agreement
mod Tests

-- A JSON value as far as the handlers look at it. An array is an object that has none of the
-- properties.
pub data Json : Type 0 where
  object : List (Text × Scalar) → Json
  no_object : Json

-- `payload[name]`, if the payload is an object with that property.
unfoldable pub property : Text → Json → Scalar
property name no_object = absent
property name (object []) = absent
property name (object ((k, v) ∷ fields)) =
    if text_eq k name then v else property name (object fields)

-- `typeof payload[name] === "string"`
unfoldable pub text_property : Text → Json → Option Text
text_property name payload = elim (property name payload) [ text t ↦ some t | _ ↦ none ]

unfoldable pub boolean_property : Text → Json → Option Bool
boolean_property name payload = elim (property name payload) [ boolean b ↦ some b | _ ↦ none ]

-- What the handlers read of a request. The body is `none` where `request.json()` throws.
pub record ManagementRequest : Type 0 where
  pub pathname : Text
  pub method : Text
  pub query : Params
  pub authorization : Option Text
  pub protocols : Option Text
  pub upgrade : Option Text
  pub content_type : Option Text
  pub connecting_ip : Option Text
  pub connection_token : Option Text
  pub body : Option Json

-- The operator's secret, what the runtime provides, and the time and the random texts of the
-- request.
pub record Env : Type 0 where
  pub secret : Text
  pub hmac : Text → Text → Text
  pub sha256 : Text → Text
  pub decode_secret : Text → Option Text
  pub parse_url : Text → Option Url
  pub hex : ℕ → Text
  pub fresh : Fresh
  pub now : ℕ

-- An answer: its status, and the error or what the body has.
pub data Answer : Type 0 where
  failure : ℕ → Text → Answer
  failure_with : ℕ → Text → Text → Answer
  credential : Text → Text → Answer
  subscribed : Text → Text → ℕ → Text → Text → Answer
  beaten : Text → Text → ℕ → Answer
  state_bound no_content : Answer
  path_list : Text → List Text → Answer
  path_stored : OauthCallbackPathRow → Answer
  settings : WebhookFanoutSettings → Answer
  rule_list : Text → List WebhookFanoutRule → Answer
  rule_stored : WebhookFanoutRule → Answer
  tunnel_answer : UpgradeResult → Answer
  exception : Answer

abbrev pub unauthorized_management_response : Answer
unauthorized_management_response = failure 401 (codes "unauthorized")

abbrev pub invalid_route : Answer
invalid_route = failure 400 (codes "invalid_route_id")

abbrev pub invalid_json : Answer
invalid_json = failure 400 (codes "invalid_json")

abbrev pub method_not_allowed : Answer
method_not_allowed = failure 405 (codes "method_not_allowed")

-- The calls that a route has made of the index reach it.
unfoldable pub deliver_calls : Env → Text → World → World
deliver_calls env name w =
    set_route name (record (w.routes name) { index_calls = [] })
      (record w { index = apply_calls env.now env.hex (w.routes name).index_calls w.index })

-- A method of the object of a route.
unfoldable pub at_route {ℓ} :
    {R : Type ℓ} → Env → Text → (RouteState → RouteState × R) → World → World × R
at_route env route method w =
    let name = durable_object_name_for_route route in
    let (next, result) = method (w.routes name) in
    (deliver_calls env name (set_route name next w), result)

unfoldable pub read_management_secret : Env → ManagementRequest → Option Text
read_management_secret env request =
    let header = or_else request.authorization [] in
    let prefix = codes "Bearer " in
    if starts_with header prefix && ltb (length prefix) (length header)
    then some (drop (length prefix) header)
    else decode_tunnel_subprotocol_secret env.decode_secret request.protocols

unfoldable pub require_management_auth : Env → ManagementRequest → Bool
require_management_auth env request = elim (read_management_secret env request) [
  | none ↦ false
  | some bearer ↦ timing_safe_equal_string bearer env.secret
]

-- `parameter && isAllowedEnvironmentId(parameter) ? parameter : null`
unfoldable pub logged_environment : Option Text → Option Text
logged_environment none = none
logged_environment (some value) =
    if not (is_empty value) && is_allowed_environment_id value then some value else none

unfoldable pub record_rejected_join : Env → ManagementRequest → Text → World → World
record_rejected_join env request route w = record w {
  index =
      record_events env.now env.hex
        (record {
          action = rejected;
          reason = unauthorized;
          route_id = route;
          subscriber_id = none;
          environment_id = logged_environment (get (codes "environmentId") request.query);
          transport = none;
          target_base_url = none;
          client_ip = sanitize_client_ip request.connecting_ip;
          occurred_at = none;
        }
          ∷ [])
        w.index;
}

-- The answer of a denial, or none.
unfoldable pub authorize_join : Env → ManagementRequest → Text → World → World × Option Answer
authorize_join env request route w =
    elim (match_join_credential env.hmac (read_management_secret env request) env.secret route) [
      | some role ↦ (w, none)
      | none ↦ (record_rejected_join env request route w, some unauthorized_management_response)
    ]

abbrev pub is_operator : Option JoinRole → Bool
is_operator (some operator_role) = true
is_operator _ = false

unfoldable pub authorize_subscriber : Env → ManagementRequest → Text → Text → World → Option Answer
authorize_subscriber env request route id w = elim (read_management_secret env request) [
  | none ↦ some unauthorized_management_response
  | some bearer ↦
      if is_empty bearer
      then some unauthorized_management_response
      else if is_operator (match_join_credential env.hmac (some bearer) env.secret route)
      then none
      else if not (is_allowed_route_id route)
      then some invalid_route
      else if verify_connection_token env.sha256 id bearer
          (w.routes (durable_object_name_for_route route))
      then none
      else some unauthorized_management_response
]

-- `if (denied) return denied;`
unfoldable pub unless_denied : Option Answer → World → (World → World × Answer) → World × Answer
unless_denied (some denied) w handle = (w, denied)
unless_denied none w handle = handle w
