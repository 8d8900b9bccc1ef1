-- ===== src/Index/Presence.antt =====
-- What the index tells of a route after the route's calls.
use wrangle_webhooks.Base.TextLaws.{text_eq_iff}
use wrangle_webhooks.Base.{
  Bool-cases, or_else, is_empty, filter, any, Text, text_eq, ℕ, ◌≡◌, refl, inl, inr, Bool, not,
  ◌&&◌, ◌||◌, Option, List, [], ◌∷◌, arith, ap, ◌++◌,
}
use wrangle_webhooks.Base.Sql.{upsert, delete_where, update_where}
use wrangle_webhooks.Path.RouteId.{is_valid_route_id, is_allowed_route_id}
use wrangle_webhooks.Index.{
  RouteRow, IndexState, is_route, indexed_public_route_presence, put_route, delete_route,
}

any-or_filter :
    (p q : RouteRow → Bool) (rows : List RouteRow)
    → (any p (filter (λ r. p r || q r) rows) ≡ any p rows)
      × (any q (filter (λ r. p r || q r) rows) ≡ any q rows)
any-or_filter p q [] = (refl, refl)
any-or_filter p q (r ∷ rows) =
    let h = any-or_filter p q rows in (ground (arith, h.0), ground (arith, h.1))

-- The index says that a named route is there exactly when it has a row and the name is a valid
-- route id, and that the root is there exactly when the empty route id has a row.
pub indexed_public_route_presence_iff :
    (named_route : Option Text) (s : IndexState)
    → ((indexed_public_route_presence named_route s).named ≡ (
        (not (is_empty (or_else named_route [])) && is_valid_route_id (or_else named_route []))
        && any (is_route (or_else named_route [])) s.routes))
      × ((indexed_public_route_presence named_route s).root ≡ any (is_route []) s.routes)
unfolding indexed_public_route_presence
indexed_public_route_presence_iff named_route s =
    let given = or_else named_route [] in
    let h = any-or_filter (is_route given) (is_route []) s.routes in
    elim (Bool-cases (not (is_empty given) && is_valid_route_id given)) [
      | inl e ↦ rw (e, indexed_public_route_presence) (h.0, h.1)
      | inr e ↦ rw (e, indexed_public_route_presence) (refl, refl)
    ]

pub any-append_last :
    (q : RouteRow → Bool) (rows : List RouteRow) (r : RouteRow)
    → any q (rows ++ (r ∷ [])) ≡ (any q rows || q r)
any-append_last q [] r = ground arith
any-append_last q (x ∷ rows) r = ground (arith, any-append_last q rows r)

any-touch :
    (p q : RouteRow → Bool) (now : ℕ) (rows : List RouteRow)
    → ((r : RouteRow) → q (record r { updated_at = now }) ≡ q r)
    → any q (update_where p (λ r. record r { updated_at = now }) rows) ≡ any q rows
any-touch p q now [] k = refl
any-touch p q now (r ∷ rows) k = ground (arith, k r, any-touch p q now rows k)

any_same :
    (route other : Text) (rows : List RouteRow)
    → route ≡ other
    → any (is_route route) rows ≡ any (is_route other) rows
any_same route other rows e = ap (λ t. any (is_route t) rows) e

any-upsert :
    (route other : Text) (now : ℕ) (rows : List RouteRow)
    → any (is_route other) (
        upsert
          (is_route route)
          (λ r. record r { updated_at = now })
          (record { route_id = route; updated_at = now })
          rows)
      ≡ (text_eq route other || any (is_route other) rows)
unfolding upsert
any-upsert route other now rows = elim (Bool-cases (any (is_route route) rows)) [
  | inl e ↦
      rw (e, any-touch (is_route route) (is_route other) now rows (λ r. refl))
        (ground (arith, text_eq_iff route other, any_same route other rows))
  | inr e ↦
      rw (e, any-append_last (is_route other) rows (record { route_id = route; updated_at = now }))
        (ground arith)
]

any-delete_where :
    (route other : Text) (rows : List RouteRow)
    → any (is_route other) (delete_where (is_route route) rows)
      ≡ (not (text_eq route other) && any (is_route other) rows)
any-delete_where route other [] = ground arith
any-delete_where route other (r ∷ rows) = ground (
  arith,
  any-delete_where route other rows,
  text_eq_iff r.route_id route,
  text_eq_iff r.route_id other,
  text_eq_iff route other,
)

-- The table of routes is a set of route ids: adding one that is allowed makes it a member, removing
-- one makes it none, and no other route changes by either.
pub routes_are_a_set :
    (route other : Text) (now : ℕ) (s : IndexState)
    → (any (is_route other) (put_route route now s).routes
        ≡ ((is_allowed_route_id route && text_eq route other) || any (is_route other) s.routes))
      × (any (is_route other) (delete_route route s).routes
          ≡ (not (text_eq route other) && any (is_route other) s.routes))
unfolding put_route delete_route
routes_are_a_set route other now s = (
  elim (Bool-cases (is_allowed_route_id route)) [
    | inl e ↦ rw (e, put_route) (any-upsert route other now s.routes)
    | inr e ↦ rw (e, put_route) refl
  ],
  any-delete_where route other s.routes,
)
