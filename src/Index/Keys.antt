-- ===== src/Index/Keys.antt =====
-- The primary key of the table of routes in router-index.ts.
use wrangle_webhooks.Base.{
  Bool-cases, any, Text, text_eq, ℕ, ◌≡◌, refl, sym, ap, ◌∙◌, inl, inr, Bool, true, false, ◌||◌,
  List, [], ◌∷◌, ◌++◌, arith,
}
use wrangle_webhooks.Base.TextLaws.{text_eq_iff, text_eq_refl}
use wrangle_webhooks.Base.Sql.{delete_where, update_where, insert_by, order_by, upsert}
use wrangle_webhooks.Path.RouteId.{is_allowed_route_id}
use wrangle_webhooks.Index.Presence.{any-append_last}
use wrangle_webhooks.Index.{IndexState, put_route, delete_route, RouteRow, is_route}

-- No two rows have one route id, and all of the ids are allowed.
abbrev pub IsKeyed : List RouteRow → Type 0
IsKeyed [] = Unit
IsKeyed (r ∷ rows) =
    (any (is_route r.route_id) rows ≡ false)
    × (is_allowed_route_id r.route_id ≡ true)
    × IsKeyed rows

text_eq_sym : (s t : Text) → text_eq s t ≡ false → text_eq t s ≡ false
text_eq_sym s t h = elim (Bool-cases (text_eq t s)) [
  | inl e ↦ cc (rw (sym ((text_eq_iff t s).0 e), text_eq_refl t) at h)
  | inr e ↦ e
]

any-insert_by :
    (q : RouteRow → Bool) (le : RouteRow → RouteRow → Bool) (x : RouteRow) (rows : List RouteRow)
    → any q (insert_by le x rows) ≡ (q x || any q rows)
unfolding insert_by
any-insert_by q le x [] = refl
any-insert_by q le x (y ∷ rows) = ground (arith, any-insert_by q le x rows)

insert_by-IsKeyed :
    (le : RouteRow → RouteRow → Bool) (x : RouteRow) (rows : List RouteRow)
    → any (is_route x.route_id) rows ≡ false
    → is_allowed_route_id x.route_id ≡ true
    → IsKeyed rows
    → IsKeyed (insert_by le x rows)
unfolding insert_by
insert_by-IsKeyed le x [] h a k = (refl, a, tt)
insert_by-IsKeyed le x (y ∷ rows) h a (fresh, allowed, k) = elim (Bool-cases (le x y)) [
  | inl e ↦ rw e (h, a, (fresh, allowed, k))
  | inr e ↦
      let apart = text_eq_sym y.route_id x.route_id (ground arith) in
      rw e (
        any-insert_by (is_route y.route_id) le x rows ∙ ground (arith, apart, fresh),
        allowed,
        insert_by-IsKeyed le x rows (ground arith) a k,
      )
]

any-order_by :
    (q : RouteRow → Bool) (le : RouteRow → RouteRow → Bool) (rows : List RouteRow)
    → any q (order_by le rows) ≡ any q rows
unfolding order_by
any-order_by q le [] = refl
any-order_by q le (r ∷ rows) =
    any-insert_by q le r (order_by le rows) ∙ ap (λ b. q r || b) (any-order_by q le rows)

pub order_by-IsKeyed :
    (le : RouteRow → RouteRow → Bool) (rows : List RouteRow)
    → IsKeyed rows
    → IsKeyed (order_by le rows)
unfolding order_by
order_by-IsKeyed le [] k = tt
order_by-IsKeyed le (r ∷ rows) (fresh, allowed, k) =
    insert_by-IsKeyed le r (order_by le rows) (any-order_by (is_route r.route_id) le rows ∙ fresh)
      allowed (order_by-IsKeyed le rows k)

any-touched :
    (id route : Text) (now : ℕ) (rows : List RouteRow)
    → any (is_route id) (update_where (is_route route) (λ r. record r { updated_at = now }) rows)
      ≡ any (is_route id) rows
any-touched id route now [] = refl
any-touched id route now (r ∷ rows) = ground (arith, any-touched id route now rows)

touched-IsKeyed :
    (route : Text) (now : ℕ) (rows : List RouteRow)
    → IsKeyed rows
    → IsKeyed (update_where (is_route route) (λ r. record r { updated_at = now }) rows)
touched-IsKeyed route now [] k = tt
touched-IsKeyed route now (r ∷ rows) (fresh, allowed, k) = elim (Bool-cases (is_route route r)) [
  | inl e ↦
      rw e
        (any-touched r.route_id route now rows ∙ fresh, allowed, touched-IsKeyed route now rows k)
  | inr e ↦
      rw e
        (any-touched r.route_id route now rows ∙ fresh, allowed, touched-IsKeyed route now rows k)
]

appended-IsKeyed :
    (new : RouteRow) (rows : List RouteRow)
    → any (is_route new.route_id) rows ≡ false
    → is_allowed_route_id new.route_id ≡ true
    → IsKeyed rows
    → IsKeyed (rows ++ (new ∷ []))
appended-IsKeyed new [] h a k = (refl, a, tt)
appended-IsKeyed new (r ∷ rows) h a (fresh, allowed, k) =
    let apart = text_eq_sym r.route_id new.route_id (ground arith) in
    (
      any-append_last (is_route r.route_id) rows new ∙ ground (arith, apart, fresh),
      allowed,
      appended-IsKeyed new rows (ground arith) a k,
    )

any-deleted :
    (id route : Text) (rows : List RouteRow)
    → any (is_route id) rows ≡ false
    → any (is_route id) (delete_where (is_route route) rows) ≡ false
any-deleted id route [] h = refl
any-deleted id route (r ∷ rows) h = ground (arith, any-deleted id route rows)

deleted-IsKeyed :
    (route : Text) (rows : List RouteRow)
    → IsKeyed rows
    → IsKeyed (delete_where (is_route route) rows)
deleted-IsKeyed route [] k = tt
deleted-IsKeyed route (r ∷ rows) (fresh, allowed, k) = elim (Bool-cases (is_route route r)) [
  | inl e ↦ rw e (deleted-IsKeyed route rows k)
  | inr e ↦ rw e (any-deleted r.route_id route rows fresh, allowed, deleted-IsKeyed route rows k)
]

-- Adding a route keeps the key, whether the id is allowed or not, and so does removing one.
pub routes-IsKeyed :
    (route : Text) (now : ℕ) (s : IndexState)
    → IsKeyed s.routes
    → IsKeyed (put_route route now s).routes × IsKeyed (delete_route route s).routes
unfolding put_route delete_route upsert
routes-IsKeyed route now s k = (
  elim (Bool-cases (is_allowed_route_id route)) [
    | inr e ↦ rw (e, put_route) k
    | inl e ↦ elim (Bool-cases (any (is_route route) s.routes)) [
      | inl f ↦ rw (e, put_route, f) (touched-IsKeyed route now s.routes k)
      | inr f ↦
          rw (e, put_route, f)
            (appended-IsKeyed (record { route_id = route; updated_at = now }) s.routes f e k)
    ]
  ],
  deleted-IsKeyed route s.routes k,
)
