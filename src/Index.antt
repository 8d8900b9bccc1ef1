-- ===== src/Index.antt =====
-- router-index.ts: the table of active routes, and the tables of the two logs, the OAuth callback
-- paths and the fan-out settings that the router index keeps beside it.
use wrangle_webhooks.Base.{
  if◌then◌else◌, or_else, is_empty, filter, any, Text, text_eq, ℕ, Bool, false, not, ◌&&◌, ◌||◌,
  Option, List, [], map, ◌∷◌,
}
use wrangle_webhooks.Base.Sql.{delete_where, upsert, order_by, text_lt}
use wrangle_webhooks.Path.RouteId.{is_valid_route_id, is_allowed_route_id}
use wrangle_webhooks.Log.Connection.{ConnectionLogEventInput}
use wrangle_webhooks.Log.Inbound.{InboundLogEvent, InboundLogEventInput}
use wrangle_webhooks.Log.Retention.{
  ConnectionLogEvent, insert_connection_log_events, list_connection_log_events,
  insert_inbound_log_events, list_inbound_log_events,
}
use wrangle_webhooks.Oauth.Paths.{
  OauthCallbackPathRow, upsert_oauth_callback_path, delete_oauth_callback_path,
  list_oauth_callback_paths_for_route, list_all_oauth_callback_paths as all_callback_paths,
}
use wrangle_webhooks.Fanout.Storage.{
  FanoutTables, WriteResult, upsert_webhook_fanout_rule, delete_webhook_fanout_rule,
  clear_webhook_fanout_storage, set_webhook_fanout_deny_all as set_deny_all,
  get_webhook_fanout_settings as settings_of, list_all_webhook_fanout_settings as all_settings,
  list_all_webhook_fanout_rules as all_rules,
}
use wrangle_webhooks.Fanout.{WebhookFanoutRule, WebhookFanoutSettings}
use wrangle_webhooks.Route.{IndexCall, record_connection_events, add_route, remove_route}
pub mod Presence
pub mod Keys
mod Tests

pub record RouteRow : Type 0 where
  pub route_id : Text
  pub updated_at : ℕ

pub record IndexState : Type 0 where
  pub routes : List RouteRow
  pub connection_events : List ConnectionLogEvent
  pub inbound_events : List InboundLogEvent
  pub callback_paths : List OauthCallbackPathRow
  pub fanout : FanoutTables

abbrev pub is_route : Text → RouteRow → Bool
is_route route r = text_eq r.route_id route

unfoldable pub put_route : Text → ℕ → IndexState → IndexState
put_route route now s = if not (is_allowed_route_id route) then s else record s {
  routes =
      upsert (is_route route) (λ r. record r { updated_at = now })
        (record { route_id = route; updated_at = now }) s.routes;
}

unfoldable pub delete_route : Text → IndexState → IndexState
delete_route route s = record s { routes = delete_where (is_route route) s.routes }

unfoldable pub list_routes : IndexState → List Text
list_routes s =
    map (λ (r : RouteRow). r.route_id)
      (order_by (λ (a b : RouteRow). not (text_lt b.route_id a.route_id)) s.routes)

pub record RoutePresence : Type 0 where
  pub named : Bool
  pub root : Bool

unfoldable pub indexed_public_route_presence : Option Text → IndexState → RoutePresence
indexed_public_route_presence named_route s =
    let given = or_else named_route [] in
    let root = any (is_route []) s.routes in
    if not (is_empty given) && is_valid_route_id given
    then record {
      named =
          any (is_route given)
            (filter (λ (r : RouteRow). is_route given r || is_route [] r) s.routes);
      root =
          any (is_route []) (filter (λ (r : RouteRow). is_route given r || is_route [] r) s.routes);
    }
    else record { named = false; root = root }

unfoldable pub record_events :
    ℕ → (ℕ → Text) → List ConnectionLogEventInput → IndexState → IndexState
record_events now hex events s = if is_empty events then s else record s {
  connection_events = insert_connection_log_events now hex events s.connection_events;
}

unfoldable pub record_inbound_events : ℕ → List InboundLogEventInput → IndexState → IndexState
record_inbound_events now events s =
    if is_empty events
    then s
    else record s { inbound_events = insert_inbound_log_events now events s.inbound_events }

unfoldable pub list_connection_events : ℕ → ℕ → IndexState → IndexState × List ConnectionLogEvent
list_connection_events limit now s =
    let (rows, events) = list_connection_log_events limit now s.connection_events in
    (record s { connection_events = rows }, events)

unfoldable pub list_inbound_events : ℕ → ℕ → IndexState → IndexState × List InboundLogEvent
list_inbound_events limit now s =
    let (rows, events) = list_inbound_log_events limit now s.inbound_events in
    (record s { inbound_events = rows }, events)

unfoldable pub add_oauth_callback_path :
    Text → Text → ℕ → IndexState → IndexState × Option OauthCallbackPathRow
add_oauth_callback_path route path now s =
    let (rows, row) = upsert_oauth_callback_path s.callback_paths route path now in
    (record s { callback_paths = rows }, row)

unfoldable pub remove_oauth_callback_path : Text → Text → IndexState → IndexState × Bool
remove_oauth_callback_path route path s =
    let (rows, found) = delete_oauth_callback_path s.callback_paths route path in
    (record s { callback_paths = rows }, found)

unfoldable pub add_webhook_fanout_rule :
    Text → Text → Text → Option Text → ℕ → IndexState → IndexState × WriteResult
add_webhook_fanout_rule route mode path environment now s =
    let (tables, result) = upsert_webhook_fanout_rule s.fanout route mode path environment now in
    (record s { fanout = tables }, result)

unfoldable pub remove_webhook_fanout_rule :
    Text → Text → Text → Option Text → IndexState → IndexState × Bool
remove_webhook_fanout_rule route mode path environment s =
    let (tables, found) = delete_webhook_fanout_rule s.fanout route mode path environment in
    (record s { fanout = tables }, found)

unfoldable pub set_webhook_fanout_deny_all :
    Text → Bool → ℕ → IndexState → IndexState × Option WebhookFanoutSettings
set_webhook_fanout_deny_all route deny_all now s =
    let (tables, settings) = set_deny_all s.fanout route deny_all now in
    (record s { fanout = tables }, settings)

unfoldable pub get_webhook_fanout_settings : Text → IndexState → WebhookFanoutSettings
get_webhook_fanout_settings route s = settings_of s.fanout route

unfoldable pub list_oauth_callback_paths : Text → IndexState → List Text
list_oauth_callback_paths route s = list_oauth_callback_paths_for_route s.callback_paths route

unfoldable pub clear_webhook_fanout : IndexState → IndexState
clear_webhook_fanout s = record s { fanout = clear_webhook_fanout_storage s.fanout }

unfoldable pub list_all_oauth_callback_paths : IndexState → List OauthCallbackPathRow
list_all_oauth_callback_paths s = all_callback_paths s.callback_paths

unfoldable pub list_all_webhook_fanout_settings : IndexState → List (Text × Bool)
list_all_webhook_fanout_settings s = all_settings s.fanout

unfoldable pub list_all_webhook_fanout_rules : IndexState → List WebhookFanoutRule
list_all_webhook_fanout_rules s = all_rules s.fanout

-- What a call of a route does to the index.
unfoldable pub apply_call : ℕ → (ℕ → Text) → IndexCall → IndexState → IndexState
apply_call now hex (record_connection_events events) s = record_events now hex events s
apply_call now hex (add_route route) s = put_route route now s
apply_call now hex (remove_route route) s = delete_route route s

-- The calls in their order.
unfoldable pub apply_calls : ℕ → (ℕ → Text) → List IndexCall → IndexState → IndexState
apply_calls now hex [] s = s
apply_calls now hex (call ∷ calls) s = apply_calls now hex calls (apply_call now hex call s)
