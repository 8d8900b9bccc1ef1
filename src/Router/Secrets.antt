-- ===== src/Router/Secrets.antt =====
-- The secrets of the router as a whole: what a request that brings none can change.
use wrangle_webhooks.Base.{Text, ◌≡◌, ap, false}
use wrangle_webhooks.Ingress.Handler.{World}
use wrangle_webhooks.Ingress.Handler.Branches.{Outside}
use wrangle_webhooks.Management.{Env}
use wrangle_webhooks.Management.Access.{IsOperator}
use wrangle_webhooks.Management.Effects.OperatorOnly.{HasSameSettings, settings_need_operator}
use wrangle_webhooks.Dashboard.Session.{require_dashboard_auth}
use wrangle_webhooks.Dashboard.Access.{handle_dashboard-IsClosed}
use wrangle_webhooks.Router.{
  dashboard, management, ingress, Part, dispatch, dashboard, management, ingress, part_for, Request,
  dashboard_request, management_request, public_request, fetch,
}
use wrangle_webhooks.Router.Settings.{handle_public_ingress-settings}

module _ (o : Outside) (env : Env) (password id : Text) where
  dispatch-settings :
      (part : Part) (request : Request) (w : World)
      → ¬ (IsOperator env (management_request request))
      → require_dashboard_auth env.hmac request.cookie password env.now ≡ false
      → HasSameSettings w.index (dispatch o env password id part request w).0.index
  unfolding dispatch
  dispatch-settings dashboard request w h k =
      let (same, _) = handle_dashboard-IsClosed env password (dashboard_request request) w k in
      (ap (λ v. v.index.callback_paths) same, ap (λ v. v.index.fanout) same)
  dispatch-settings management request w h k =
      settings_need_operator env (management_request request) w h
  dispatch-settings ingress request w h k =
      handle_public_ingress-settings o env.now (public_request request) id w

-- No request to the router, by whatever path and method, changes an OAuth callback path, a deny-all
-- flag or a rule of the webhook fan-out, unless it brings the operator's secret or a session of the
-- dashboard that verifies.
pub settings_need_secret :
    (o : Outside) (env : Env) (password id : Text) (request : Request) (w : World)
    → ¬ (IsOperator env (management_request request))
    → require_dashboard_auth env.hmac request.cookie password env.now ≡ false
    → HasSameSettings w.index (fetch o env password id request w).0.index
unfolding fetch
settings_need_secret o env password id request w h k =
    dispatch-settings o env password id (part_for request.pathname) request w h k
