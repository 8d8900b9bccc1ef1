-- ===== src/Index/Tests.antt =====
-- The index theorems at a concrete table.
use wrangle_webhooks.Base.{any, Text, codes, text_eq, ◌≡◌, not, ◌&&◌, ◌||◌, [], ◌∷◌}
use wrangle_webhooks.Path.RouteId.{is_allowed_route_id}
use wrangle_webhooks.Index.{IndexState, is_route, put_route, delete_route}
use wrangle_webhooks.Index.Presence.{routes_are_a_set}

abbrev app : Text
app = codes "app"

abbrev with_root : IndexState
with_root = record {
  routes = record { route_id = []; updated_at = 1 } ∷ [];
  connection_events = [];
  inbound_events = [];
  callback_paths = [];
  fanout = record { settings = []; rules = [] };
}

routes_are_a_set_example :
    (any (is_route []) (put_route app 5 with_root).routes
      ≡ ((is_allowed_route_id app && text_eq app []) || any (is_route []) with_root.routes))
    × (any (is_route []) (delete_route app with_root).routes
        ≡ (not (text_eq app []) && any (is_route []) with_root.routes))
routes_are_a_set_example = routes_are_a_set app [] 5 with_root
