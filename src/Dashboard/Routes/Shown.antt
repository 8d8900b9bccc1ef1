-- ===== src/Dashboard/Routes/Shown.antt =====
-- Which routes `loadDashboardStatus` shows.
use wrangle_webhooks.Base.{
  filter, All, Text, text_eq, ◌≡◌, refl, ap, ◌∙◌, false, List, [], ◌∷◌, map, arith, Bool-cases,
  length, is_empty, inl, inr, any, true,
}
use wrangle_webhooks.Path.RouteId.{durable_object_name_for_route, is_allowed_route_id}
use wrangle_webhooks.Log.Connection.{public_path_for_route_id}
use wrangle_webhooks.Path.RouteId.Names.{durable_object_name_for_route_injective}
use wrangle_webhooks.Base.TextLaws.{text_eq_iff, text_eq_refl}
use wrangle_webhooks.Index.Keys.{IsKeyed, order_by-IsKeyed}
use wrangle_webhooks.Index.{RouteRow, IndexState, is_route, list_routes}
use wrangle_webhooks.Route.Lifecycle.{get_active_subscribers}
use wrangle_webhooks.Ingress.Handler.{World, set_route}
use wrangle_webhooks.Management.{Env, at_route, deliver_calls}
use wrangle_webhooks.Dashboard.{
  DashboardRoute, has_subscribers, sum_of_subscribers, dashboard_status,
}
use wrangle_webhooks.Dashboard.Routes.{visit_route, load_from, load_dashboard_status}

-- No two of the routes share an object.
abbrev pub IsApart : List Text → Type 0
IsApart [] = Unit
IsApart (route ∷ ids) =
    All
      (λ other.
        text_eq (durable_object_name_for_route other) (durable_object_name_for_route route) ≡ false)
      ids
    × IsApart ids

-- A route with the subscribers that its object holds to be active.
abbrev pub shown : Env → World → Text → DashboardRoute
shown env w route = record {
  route_id = route;
  public_path = public_path_for_route_id route;
  subscribers = (get_active_subscribers env.now (w.routes (durable_object_name_for_route route))).1;
}

-- The routes that have any.
abbrev pub active_routes : Env → World → List Text → List DashboardRoute
active_routes env w ids = filter has_subscribers (map (shown env w) ids)

-- The objects of these routes are the same in both.
abbrev AreSame : World → World → List Text → Type 0
AreSame v w ids =
    All
      (λ route.
        v.routes (durable_object_name_for_route route)
        ≡ w.routes (durable_object_name_for_route route))
      ids

visit_route-spares :
    (env : Env) (route other : Text) (w : World)
    → text_eq (durable_object_name_for_route other) (durable_object_name_for_route route) ≡ false
    → (visit_route env route w).0.routes (durable_object_name_for_route other)
      ≡ w.routes (durable_object_name_for_route other)
unfolding visit_route at_route deliver_calls set_route
visit_route-spares env route other w h = ground arith

visit_route-AreSame :
    (env : Env) (route : Text) (ids : List Text) (w v : World)
    → All
        (λ other.
          text_eq (durable_object_name_for_route other) (durable_object_name_for_route route)
          ≡ false)
        ids
    → AreSame w v ids
    → AreSame (visit_route env route w).0 v ids
visit_route-AreSame env route [] w v h k = tt
visit_route-AreSame env route (other ∷ ids) w v (h, hs) (k, ks) =
    (visit_route-spares env route other w h ∙ k, visit_route-AreSame env route ids w v hs ks)

visited_subscribers :
    (env : Env) (route : Text) (w : World)
    → (visit_route env route w).1 ≡ (shown env w route).subscribers
unfolding visit_route at_route
visited_subscribers env route w = refl

load_from-active :
    (env : Env) (ids : List Text) (w v : World)
    → IsApart ids
    → AreSame w v ids
    → (load_from env ids w).1 ≡ active_routes env v ids
unfolding load_from
load_from-active env [] w v h k = refl
load_from-active env (route ∷ ids) w v (h, hs) (k, ks) =
    let next = (visit_route env route w).0 in
    let rest = load_from-active env ids next v hs (visit_route-AreSame env route ids w v h ks) in
    let same : (visit_route env route w).1 ≡ (shown env v route).subscribers =
      visited_subscribers env route w ∙ ap (λ s. (get_active_subscribers env.now s).1) k in
    elim (Bool-cases (is_empty (shown env v route).subscribers)) [
      | inl e ↦ rw (same, e, rest) refl
      | inr e ↦ rw (same, e, rest) refl
    ]

same_objects : (w : World) (ids : List Text) → AreSame w w ids
same_objects w [] = tt
same_objects w (route ∷ ids) = (refl, same_objects w ids)

filter_idem :
    (routes : List DashboardRoute)
    → filter has_subscribers (filter has_subscribers routes) ≡ filter has_subscribers routes
filter_idem [] = refl
filter_idem (route ∷ routes) = ground (arith, filter_idem routes)

other_object :
    (r other : Text)
    → is_allowed_route_id r ≡ true
    → is_allowed_route_id other ≡ true
    → text_eq other r ≡ false
    → text_eq (durable_object_name_for_route other) (durable_object_name_for_route r) ≡ false
other_object r other a b h =
    let name = durable_object_name_for_route in
    elim (Bool-cases (text_eq (name other) (name r))) [
      | inr e ↦ e
      | inl e ↦
          let same =
            durable_object_name_for_route_injective other r b a
              ((text_eq_iff (name other) (name r)).0 e) in
          cc (rw (same, text_eq_refl r) at h)
    ]

other_objects :
    (id : Text) (rows : List RouteRow)
    → is_allowed_route_id id ≡ true
    → any (is_route id) rows ≡ false
    → IsKeyed rows
    → All
        (λ other.
          text_eq (durable_object_name_for_route other) (durable_object_name_for_route id) ≡ false)
        (map (λ (r : RouteRow). r.route_id) rows)
other_objects id [] a h k = tt
other_objects id (r ∷ rows) a h (fresh, allowed, k) =
    (other_object id r.route_id a allowed (ground arith), other_objects id rows a (ground arith) k)

keyed-IsApart :
    (rows : List RouteRow) → IsKeyed rows → IsApart (map (λ (r : RouteRow). r.route_id) rows)
keyed-IsApart [] k = tt
keyed-IsApart (r ∷ rows) (fresh, allowed, k) =
    (other_objects r.route_id rows allowed fresh k, keyed-IsApart rows k)

-- No two routes that the index lists share an object.
list_routes-IsApart : (s : IndexState) → IsKeyed s.routes → IsApart (list_routes s)
unfolding list_routes
list_routes-IsApart s k = keyed-IsApart _ (order_by-IsKeyed _ s.routes k)

-- The status has exactly the routes of the index whose objects hold a subscriber to be active, in
-- the order of the index, each with those subscribers, and counts these routes and subscribers,
-- where the index has allowed route ids, each of them once.
pub status_shows_active :
    (env : Env) (w : World)
    → IsKeyed w.index.routes
    → ((load_dashboard_status env w).1.routes ≡ active_routes env w (list_routes w.index))
      × ((load_dashboard_status env w).1.route_count
          ≡ length (active_routes env w (list_routes w.index)))
      × ((load_dashboard_status env w).1.subscriber_count
          ≡ sum_of_subscribers (active_routes env w (list_routes w.index)))
unfolding load_dashboard_status dashboard_status
status_shows_active env w h =
    let ids = list_routes w.index in
    let loaded =
      load_from-active env ids _ w (list_routes-IsApart w.index h) (same_objects w ids) in
    let active =
      ap (λ routes. filter has_subscribers routes) loaded ∙ filter_idem (map (shown env w) ids) in
    (active, ap (λ routes. length routes) active, ap (λ routes. sum_of_subscribers routes) active)
