-- ===== src/Dashboard.antt =====
-- dashboard-http.ts and the status of dashboard.ts: the request, the answers and the forms. The
-- pages' HTML is left out, and an answer keeps what its page is made from.
use wrangle_webhooks.Base.{
  if◌then◌else◌, or_else, length, is_empty, filter, Text, codes, text_eq, includes, trim, to_lower,
  ℕ, ◌+◌, Bool, false, not, ◌&&◌, ◌||◌, Option, none, some, List, [], ◌∷◌,
}
use wrangle_webhooks.Log.Inbound.{InboundLogEvent}
use wrangle_webhooks.Log.Retention.{ConnectionLogEvent}
use wrangle_webhooks.Oauth.Paths.{OauthCallbackPathRow}
use wrangle_webhooks.Fanout.{WebhookFanoutRule}
use wrangle_webhooks.Route.Lifecycle.{Subscriber}
use wrangle_webhooks.Management.{Json, text_property}
pub mod Session
pub mod Http
pub mod Access
pub mod LogIn
mod Tests
pub mod Routes

-- A value of a form.
pub data FormValue : Type 0 where
  typed : Text → FormValue
  file : FormValue

abbrev pub Form : Type 0
Form = List (Text × FormValue)

-- What the handlers read of a request. The form and the body are `none` where reading them throws,
-- and `secure` says whether the URL's scheme is HTTPS.
pub record DashboardRequest : Type 0 where
  pub pathname : Text
  pub method : Text
  pub content_type : Option Text
  pub cookie : Option Text
  pub secure : Bool
  pub form : Option Form
  pub body : Option Json

pub record DashboardRoute : Type 0 where
  pub route_id : Text
  pub public_path : Text
  pub subscribers : List Subscriber

pub record DashboardStatus : Type 0 where
  pub secret_configured : Bool
  pub generated_at : ℕ
  pub route_count : ℕ
  pub subscriber_count : ℕ
  pub routes : List DashboardRoute
  pub oauth_callback_paths : List OauthCallbackPathRow
  pub fanout_settings : List (Text × Bool)
  pub fanout_rules : List WebhookFanoutRule
  pub inbound_log : List InboundLogEvent
  pub connection_log : List ConnectionLogEvent

-- An answer: an error, a redirect with its status and path, the page of the login with its error, a
-- cookie that sets or clears the session with a redirect to the dashboard, or the status, as JSON or
-- as a page.
pub data Page : Type 0 where
  dashboard_error : ℕ → Text → Page
  redirect : ℕ → Text → Page
  with_cookie : Text → Page
  login_page : ℕ → Option Text → Page
  status_json status_page : DashboardStatus → Page
  thrown : Page

abbrev pub unauthorized_dashboard : Page
unauthorized_dashboard = dashboard_error 401 (codes "unauthorized")

-- `Response.redirect(new URL("/dashboard", request.url), 303)`
abbrev pub back_to_dashboard : Page
back_to_dashboard = redirect 303 (codes "/dashboard")

-- `form.get(name)`
unfoldable pub form_value : Text → Form → Option FormValue
form_value name [] = none
form_value name ((k, v) ∷ form) = if text_eq k name then some v else form_value name form

-- `typeof raw === "string" ? raw : ""`
abbrev pub text_of : Option FormValue → Text
text_of (some (typed t)) = t
text_of _ = []

-- `typeof raw === "string" ? raw.trim() : ""`
unfoldable pub trimmed_value : Text → Form → Text
trimmed_value name form = trim (text_of (form_value name form))

-- `form.getAll(name)` has this text. A file's text is "[object File]", and none that is looked for.
unfoldable pub has_value : Text → Text → Form → Bool
has_value name value [] = false
has_value name value ((k, typed t) ∷ form) =
    (text_eq k name && text_eq t value) || has_value name value form
has_value name value ((k, file) ∷ form) = has_value name value form

-- `none` is the exception of `formData`.
unfoldable pub read_dashboard_login_password : DashboardRequest → Option Text
read_dashboard_login_password request =
    if includes (to_lower (or_else request.content_type [])) (codes "application/json")
    then elim request.body [
      | none ↦ some []
      | some payload ↦ some (or_else (text_property (codes "password") payload) [])
    ]
    else elim request.form [
      | none ↦ none
      | some form ↦ some (text_of (form_value (codes "password") form))
    ]

pub record PathForm : Type 0 where
  pub route_id : Text
  pub path : Text

unfoldable pub read_oauth_callback_path_form : Form → PathForm
read_oauth_callback_path_form form = record {
  route_id = trimmed_value (codes "routeId") form;
  path = trimmed_value (codes "path") form;
}

pub record RuleForm : Type 0 where
  pub route_id : Text
  pub mode : Text
  pub path : Text
  pub environment_id : Text

unfoldable pub read_webhook_fanout_rule_form : Form → RuleForm
read_webhook_fanout_rule_form form = record {
  route_id = trimmed_value (codes "routeId") form;
  mode = trimmed_value (codes "mode") form;
  path = trimmed_value (codes "path") form;
  environment_id = trimmed_value (codes "environmentId") form;
}

abbrev pub has_subscribers : DashboardRoute → Bool
has_subscribers route = not (is_empty route.subscribers)

abbrev pub sum_of_subscribers : List DashboardRoute → ℕ
sum_of_subscribers [] = 0
sum_of_subscribers (route ∷ routes) = length route.subscribers + sum_of_subscribers routes

unfoldable pub dashboard_status :
    Bool
    → ℕ
    → List DashboardRoute
    → List ConnectionLogEvent
    → List InboundLogEvent
    → List OauthCallbackPathRow
    → List (Text × Bool)
    → List WebhookFanoutRule
    → DashboardStatus
dashboard_status secret_configured now routes connections inbound paths flags rules =
    let active = filter has_subscribers routes in
    record {
      secret_configured = secret_configured;
      generated_at = now;
      route_count = length active;
      subscriber_count = sum_of_subscribers active;
      routes = active;
      oauth_callback_paths = paths;
      fanout_settings = flags;
      fanout_rules = rules;
      inbound_log = inbound;
      connection_log = connections;
    }
