-- ===== src/Dashboard/Tests.antt =====
-- The theorems on the dashboard at concrete requests.
use wrangle_webhooks.Path.RouteId.{durable_object_name_for_route, is_allowed_route_id}
use wrangle_webhooks.Base.Sql.{text_lt, order_by}
use wrangle_webhooks.Log.Connection.{public_target}
use wrangle_webhooks.Base.{
  text_eq, if◌then◌else◌, Text, [], codes, has_unit, length, none, refl, some, split, text_eq, trim,
  true, ◌∷◌, ◌≡◌,
}
use wrangle_webhooks.Index.{list_routes}
use wrangle_webhooks.Route.Inv.Reach.{empty_route}
use wrangle_webhooks.Ingress.Handler.{World}
use wrangle_webhooks.Management.{Env}
use wrangle_webhooks.Dashboard.{DashboardRequest, sum_of_subscribers, typed}
use wrangle_webhooks.Dashboard.Session.{
  cookie_value, find_cookie, read_dashboard_session, require_dashboard_auth,
}
use wrangle_webhooks.Dashboard.Http.{handle_dashboard}
use wrangle_webhooks.Dashboard.Access.{IsClosed, handle_dashboard-IsClosed}
use wrangle_webhooks.Dashboard.Routes.{load_dashboard_status}
use wrangle_webhooks.Dashboard.Routes.Shown.{active_routes, status_shows_active}

abbrev pub env : Env
env = record {
  secret = codes "op";
  hmac = λ secret message. codes "m-1";
  sha256 = λ text. text;
  decode_secret = λ text. none;
  parse_url = λ text. none;
  hex = λ id. codes "00";
  fresh = record {
    connection_hex = codes "c1";
    subscriber_hex = codes "s1";
    forward_hex = codes "f1";
    handle = 1;
  };
  now = 5;
}

abbrev pub world : World
world = record {
  index = record {
    routes =
        record { route_id = codes "app"; updated_at = 1 }
        ∷ record { route_id = []; updated_at = 2 }
        ∷ [];
    connection_events = [];
    inbound_events = [];
    callback_paths = [];
    fanout = record { settings = []; rules = [] };
  };
  routes = λ name.
      if text_eq name (codes "app")
      then record empty_route {
        rows =
            record {
              id = codes "sub_1";
              transport = public_target;
              target_base_url = codes "https://example.com";
              forward_token = codes "ft_1";
              connection_token_hash = codes "h";
              environment_id = none;
              accept_webhooks = true;
              created_at = 1;
              last_heartbeat_at = 1;
              expires_at = 300;
            }
            ∷ [];
      }
      else empty_route;
  recorded = [];
  started = [];
}

abbrev visit : Text → Text → DashboardRequest
visit method pathname = record {
  pathname = pathname;
  method = method;
  content_type = none;
  cookie = none;
  secure = true;
  form = some ((codes "password", typed (codes "pw")) ∷ []);
  body = none;
}

abbrev logging_in : DashboardRequest
logging_in = visit (codes "POST") (codes "/dashboard/login")

handle_dashboard-IsClosed_example :
    ((handle_dashboard env (codes "pw") (visit (codes "GET") (codes "/dashboard/status")) world).0
      ≡ world)
    × IsClosed
        (codes "pw")
        (visit (codes "GET") (codes "/dashboard/status"))
        (handle_dashboard env
          (codes "pw")
          (visit (codes "GET") (codes "/dashboard/status"))
          world).1
unfolding require_dashboard_auth read_dashboard_session find_cookie split cookie_value has_unit trim
handle_dashboard-IsClosed_example =
    handle_dashboard-IsClosed env (codes "pw") (visit (codes "GET") (codes "/dashboard/status"))
      world refl

status_shows_active_example :
    ((load_dashboard_status env world).1.routes ≡ active_routes env world (list_routes world.index))
    × ((load_dashboard_status env world).1.route_count
        ≡ length (active_routes env world (list_routes world.index)))
    × ((load_dashboard_status env world).1.subscriber_count
        ≡ sum_of_subscribers (active_routes env world (list_routes world.index)))
unfolding list_routes order_by text_lt text_eq durable_object_name_for_route is_allowed_route_id
status_shows_active_example = status_shows_active env world (refl, refl, (refl, refl, tt))
