-- ===== src/Dashboard/Access.antt =====
-- What a request without a session gets of `handleDashboard`.
use wrangle_webhooks.Base.{
  Bool-cases, Option-cases, is_empty, Text, ◌≡◌, ◌⊎◌, inl, inr, false, not, ◌||◌, some, arith,
}
use wrangle_webhooks.Secrets.{utf8, timing_safe_equal_string}
use wrangle_webhooks.Secrets.TimingSafe.{timing_safe_equal_iff}
use wrangle_webhooks.Ingress.Handler.{World}
use wrangle_webhooks.Management.{Env}
use wrangle_webhooks.Dashboard.Session.{dashboard_session_clear_cookie, require_dashboard_auth}
use wrangle_webhooks.Dashboard.{
  DashboardRequest, Page, with_cookie, status_json, status_page, read_dashboard_login_password,
}
use wrangle_webhooks.Dashboard.Http.{log_in, show_dashboard, handle_authed, handle_dashboard}

-- The request submits the password, in UTF-8.
abbrev pub Submits : DashboardRequest → Text → Type 0
Submits request password =
    (given : Text) × (read_dashboard_login_password request ≡ some given)
    × (utf8 given ≡ utf8 password)

-- No status is shown, and a cookie is either cleared or given for the password.
abbrev pub IsClosed : Text → DashboardRequest → Page → Type 0
IsClosed password request (status_json status) = ⊥
IsClosed password request (status_page status) = ⊥
IsClosed password request (with_cookie cookie) =
    (cookie ≡ dashboard_session_clear_cookie request.secure) ⊎ Submits request password
IsClosed password request _ = Unit

log_in-IsClosed :
    (env : Env) (password : Text) (request : DashboardRequest)
    → IsClosed password request (log_in env password request)
unfolding log_in
log_in-IsClosed env password request = elim (Option-cases (read_dashboard_login_password request)) [
  | inl e ↦ rw (e, log_in) tt
  | inr (given, e) ↦
      elim (Bool-cases (is_empty given || not (timing_safe_equal_string given password))) [
        | inl k ↦ rw (e, log_in, k) tt
        | inr k ↦
            rw (e, log_in, k)
              (inr (given, e, (timing_safe_equal_iff given password).0 (ground arith)))
      ]
]

abbrev ChangesNothing : Text → DashboardRequest → World → World × Page → Type 0
ChangesNothing password request w (next, page) = (next ≡ w) × IsClosed password request page

show_dashboard_closed :
    (env : Env) (password : Text) (request : DashboardRequest) (w : World)
    → ChangesNothing password request w (show_dashboard env false request w)
unfolding show_dashboard
show_dashboard_closed env password request w = ground arith

handle_authed_closed :
    (env : Env) (password : Text) (request : DashboardRequest) (w : World)
    → ChangesNothing password request w (handle_authed env false request w)
unfolding handle_authed
handle_authed_closed env password request w =
    ground (arith, show_dashboard_closed env password request w)

-- A request without a session that verifies changes nothing in the index or in a route, and is shown
-- no status, whatever its path and method. It is given a cookie only where that clears the session
-- or where the request submits the dashboard's password.
pub handle_dashboard-IsClosed :
    (env : Env) (password : Text) (request : DashboardRequest) (w : World)
    → require_dashboard_auth env.hmac request.cookie password env.now ≡ false
    → ((handle_dashboard env password request w).0 ≡ w)
      × IsClosed password request (handle_dashboard env password request w).1
unfolding handle_dashboard
handle_dashboard-IsClosed env password request w h = rw h (
    ground
      (arith, log_in-IsClosed env password request, handle_authed_closed env password request w))
