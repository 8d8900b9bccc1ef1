-- ===== src/Dashboard/Http.antt =====
-- `handleDashboard` of dashboard-http.ts and the forms that it handles.
use wrangle_webhooks.Base.{
  if◌then◌else◌, is_some, is_empty, Text, codes, text_eq, Bool, not, ◌&&◌, ◌||◌, none, some,
}
use wrangle_webhooks.Path.RouteId.{is_allowed_route_id}
use wrangle_webhooks.Path.Remaining.{
  validate_webhook_filter_path, validate_oauth_callback_path, validate_webhook_fanout_rule_mode,
  parse_webhook_filter_environment_id,
}
use wrangle_webhooks.Secrets.{timing_safe_equal_string}
use wrangle_webhooks.Index.{
  add_oauth_callback_path, remove_oauth_callback_path, add_webhook_fanout_rule,
  remove_webhook_fanout_rule, set_webhook_fanout_deny_all,
}
use wrangle_webhooks.Ingress.Handler.{World}
use wrangle_webhooks.Management.{Env}
use wrangle_webhooks.Management.Settings.{set_index}
use wrangle_webhooks.Dashboard.Session.{
  mint_dashboard_session, require_dashboard_auth, dashboard_session_set_cookie,
  dashboard_session_clear_cookie,
}
use wrangle_webhooks.Dashboard.Routes.{load_dashboard_status}
use wrangle_webhooks.Dashboard.{
  Form, DashboardRequest, Page, redirect, with_cookie, login_page, status_json, status_page,
  unauthorized_dashboard, back_to_dashboard, trimmed_value, has_value,
  read_dashboard_login_password, read_oauth_callback_path_form, read_webhook_fanout_rule_form,
  dashboard_error, thrown,
}

unfoldable pub add_dashboard_oauth_callback_path : Env → Form → World → World × Page
add_dashboard_oauth_callback_path env form w =
    let given = read_oauth_callback_path_form form in
    let (next, row) = add_oauth_callback_path given.route_id given.path env.now w.index in
    if not (is_allowed_route_id given.route_id)
      || not (is_some (validate_oauth_callback_path given.path))
    then (w, back_to_dashboard)
    else (set_index next w, back_to_dashboard)

unfoldable pub delete_dashboard_oauth_callback_path : Form → World → World × Page
delete_dashboard_oauth_callback_path form w =
    let given = read_oauth_callback_path_form form in
    let (next, removed) = remove_oauth_callback_path given.route_id given.path w.index in
    if not (is_allowed_route_id given.route_id)
      || not (is_some (validate_oauth_callback_path given.path))
    then (w, back_to_dashboard)
    else (set_index next w, back_to_dashboard)

unfoldable pub save_dashboard_webhook_fanout : Env → Form → World → World × Page
save_dashboard_webhook_fanout env form w =
    let route = trimmed_value (codes "routeId") form in
    let deny_all = has_value (codes "denyAllWebhooks") (codes "on") form in
    let (next, written) = set_webhook_fanout_deny_all route deny_all env.now w.index in
    if not (is_allowed_route_id route)
    then (w, back_to_dashboard)
    else (set_index next w, back_to_dashboard)

unfoldable pub add_dashboard_webhook_fanout_rule : Env → Form → World → World × Page
add_dashboard_webhook_fanout_rule env form w =
    let given = read_webhook_fanout_rule_form form in
    let (next, written) =
      add_webhook_fanout_rule given.route_id given.mode given.path (some given.environment_id)
        env.now w.index in
    if not (is_allowed_route_id given.route_id)
      || (not (is_some (validate_webhook_fanout_rule_mode given.mode))
          || (not (is_some (validate_webhook_filter_path given.path))
              || not (is_some (parse_webhook_filter_environment_id (some given.environment_id)))))
    then (w, back_to_dashboard)
    else (set_index next w, back_to_dashboard)

unfoldable pub delete_dashboard_webhook_fanout_rule : Form → World → World × Page
delete_dashboard_webhook_fanout_rule form w =
    let given = read_webhook_fanout_rule_form form in
    let (next, removed) =
      remove_webhook_fanout_rule given.route_id given.mode given.path (some given.environment_id)
        w.index in
    if not (is_allowed_route_id given.route_id)
      || (not (is_some (validate_webhook_fanout_rule_mode given.mode))
          || not (is_some (validate_webhook_filter_path given.path)))
    then (w, back_to_dashboard)
    else (set_index next w, back_to_dashboard)

-- A form that cannot be read is an exception.
unfoldable pub with_form : DashboardRequest → (Form → World → World × Page) → World → World × Page
with_form request handle w = elim request.form [ none ↦ (w, thrown) | some form ↦ handle form w ]

unfoldable pub log_in : Env → Text → DashboardRequest → Page
log_in env password request = elim (read_dashboard_login_password request) [
  | none ↦ thrown
  | some submitted ↦
      if is_empty submitted || not (timing_safe_equal_string submitted password)
      then login_page 401 (some (codes "Incorrect password"))
      else with_cookie (
          dashboard_session_set_cookie request.secure
            (mint_dashboard_session env.hmac password env.now))
]

-- The tests on a path and on a method.
abbrev pub at_path : DashboardRequest → Text → Bool
at_path request path = text_eq request.pathname path

abbrev pub has_method : DashboardRequest → Text → Bool
has_method request method = text_eq request.method method

abbrev pub is_post : DashboardRequest → Text → Bool
is_post request path = at_path request path && has_method request (codes "POST")

abbrev pub if_authed : Bool → World → World × Page → World × Page
if_authed authed w answer = if authed then answer else (w, unauthorized_dashboard)

-- What follows the forms.
unfoldable pub show_dashboard : Env → Bool → DashboardRequest → World → World × Page
show_dashboard env authed request w =
    let (next, status) = load_dashboard_status env w in
    if not (has_method request (codes "GET")) && not (has_method request (codes "HEAD"))
    then (w, dashboard_error 405 (codes "method_not_allowed"))
    else if at_path request (codes "/dashboard/status")
    then if_authed authed w (next, status_json status)
    else if at_path request (codes "/dashboard") || at_path request (codes "/dashboard/login")
    then if authed then (next, status_page status) else (w, login_page 200 none)
    else (w, dashboard_error 404 (codes "not_found"))

unfoldable pub handle_authed : Env → Bool → DashboardRequest → World → World × Page
handle_authed env authed request w =
    if is_post request (codes "/dashboard/oauth-callback-paths")
    then if_authed authed w (with_form request (add_dashboard_oauth_callback_path env) w)
    else if is_post request (codes "/dashboard/oauth-callback-paths/delete")
    then if_authed authed w (with_form request delete_dashboard_oauth_callback_path w)
    else if is_post request (codes "/dashboard/webhook-fanout")
    then if_authed authed w (with_form request (save_dashboard_webhook_fanout env) w)
    else if is_post request (codes "/dashboard/webhook-fanout-rules")
    then if_authed authed w (with_form request (add_dashboard_webhook_fanout_rule env) w)
    else if is_post request (codes "/dashboard/webhook-fanout-rules/delete")
    then if_authed authed w (with_form request delete_dashboard_webhook_fanout_rule w)
    else show_dashboard env authed request w

-- An empty password is one that is not configured.
unfoldable pub handle_dashboard : Env → Text → DashboardRequest → World → World × Page
handle_dashboard env password request w =
    let authed = require_dashboard_auth env.hmac request.cookie password env.now in
    if is_empty password
    then (w, dashboard_error 503 (codes "dashboard_password_not_configured"))
    else if at_path request (codes "/dashboard.json")
    then (w, redirect 308 (codes "/dashboard/status"))
    else if is_post request (codes "/dashboard/login")
    then (w, log_in env password request)
    else if is_post request (codes "/dashboard/logout")
    then (w, with_cookie (dashboard_session_clear_cookie request.secure))
    else handle_authed env authed request w
