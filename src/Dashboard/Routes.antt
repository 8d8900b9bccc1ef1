-- ===== src/Dashboard/Routes.antt =====
-- `loadDashboardRoutes` and `loadDashboardStatus` of dashboard-http.ts.
use wrangle_webhooks.Base.{if◌then◌else◌, is_empty, Text, not, List, [], ◌∷◌, ℕ}
use wrangle_webhooks.Log.Connection.{public_path_for_route_id}
use wrangle_webhooks.Index.{
  list_all_oauth_callback_paths, list_all_webhook_fanout_settings, list_all_webhook_fanout_rules,
  delete_route, list_routes, list_connection_events, list_inbound_events,
}
use wrangle_webhooks.Route.Lifecycle.{Subscriber, get_active_subscribers}
use wrangle_webhooks.Ingress.Handler.{World}
use wrangle_webhooks.Management.{Env, at_route}
use wrangle_webhooks.Dashboard.{DashboardRoute, DashboardStatus, dashboard_status}
pub mod Shown

abbrev pub connection_log_dashboard_limit : ℕ
connection_log_dashboard_limit = 200

abbrev pub inbound_log_dashboard_limit : ℕ
inbound_log_dashboard_limit = 200

-- One round of the loop: a route without subscribers leaves the index.
unfoldable pub visit_route : Env → Text → World → World × List Subscriber
visit_route env route w =
    let (next, subscribers) = at_route env route (get_active_subscribers env.now) w in
    let without = record next { index = delete_route route next.index } in
    (if is_empty subscribers then without else next, subscribers)

unfoldable pub load_from : Env → List Text → World → World × List DashboardRoute
load_from env [] w = (w, [])
load_from env (route ∷ ids) w =
    let (next, subscribers) = visit_route env route w in
    let (last, routes) = load_from env ids next in
    if is_empty subscribers then (last, routes) else (
      last,
      record {
        route_id = route;
        public_path = public_path_for_route_id route;
        subscribers = subscribers;
      }
          ∷ routes,
    )

-- `loadDashboardRoutes` lists the ids and then visits each route.
unfoldable pub load_dashboard_routes : Env → World → World × List DashboardRoute
load_dashboard_routes env w = load_from env (list_routes w.index) w

-- The five lists leave the index before the first route answers, since all of them are asked for
-- at once.
unfoldable pub load_dashboard_status : Env → World → World × DashboardStatus
load_dashboard_status env w =
    let (after_connections, connections) =
      list_connection_events connection_log_dashboard_limit env.now w.index in
    let (after_inbound, inbound) =
      list_inbound_events inbound_log_dashboard_limit env.now after_connections in
    let (next, routes) = load_from env (list_routes w.index) (record w { index = after_inbound }) in
    (
      next,
      dashboard_status (not (is_empty env.secret)) env.now routes connections inbound
          (list_all_oauth_callback_paths w.index) (list_all_webhook_fanout_settings w.index)
          (list_all_webhook_fanout_rules w.index),
    )
