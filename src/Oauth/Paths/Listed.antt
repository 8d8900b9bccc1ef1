-- ===== src/Oauth/Paths/Listed.antt =====
-- The allowlist after a change to it.
use wrangle_webhooks.Base.{
  Bool-cases, Option-cases, or_else, any, Member, Text, text_eq, ℕ, ◌≡◌, refl, ap, subst, inl, inr,
  true, Option, some, List, [], ◌∷◌, map, arith, ◌==◌, filter, sym, Bool, false,
}
use wrangle_webhooks.Base.Sql.{
  Member-filter, Member-order_by, Member-upsert, Member-map, count_where, delete_where, order_by,
  count_where_zero, count_where-order_by,
}
use wrangle_webhooks.Base.TextLaws.{text_eq_iff}
use wrangle_webhooks.Path.RouteId.{is_allowed_route_id}
use wrangle_webhooks.Path.Remaining.{
  normalize_oauth_callback_path, validate_oauth_callback_path, is_allowlisted_oauth_callback_path,
}
use wrangle_webhooks.Oauth.Paths.{
  OauthCallbackPathRow, has_path_key, put_callback_path, upsert_oauth_callback_path,
  list_oauth_callback_paths_for_route, delete_oauth_callback_path, by_path,
}

listed :
    (sql : List OauthCallbackPathRow) (route path : Text) (row : OauthCallbackPathRow)
    → is_allowed_route_id route ≡ true
    → Member row sql
    → row.route_id ≡ route
    → row.remaining_path ≡ path
    → Member path (list_oauth_callback_paths_for_route sql route)
unfolding list_oauth_callback_paths_for_route
listed sql route path row a m er ep =
    let own = filter (λ (r : OauthCallbackPathRow). text_eq r.route_id route) sql in
    let path_of = λ (r : OauthCallbackPathRow). r.remaining_path in
    rw a (
      subst (λ t. Member t (map path_of (order_by by_path own))) ep
        (Member-map path_of row (order_by by_path own) (
          Member-order_by by_path row own (
            Member-filter (λ (r : OauthCallbackPathRow). text_eq r.route_id route) row sql m
              ((text_eq_iff row.route_id route).1 er)))))

allowlisted-Member :
    (path : Text) (allowed : List Text)
    → Member path allowed
    → is_allowlisted_oauth_callback_path path allowed ≡ true
unfolding is_allowlisted_oauth_callback_path
allowlisted-Member path [] m = absurd m
allowlisted-Member path (a ∷ allowed) m = go (a ∷ allowed) m
  where
    n : Text
    n = normalize_oauth_callback_path path

    go :
        (ts : List Text)
        → Member path ts
        → any (λ allowed. text_eq (normalize_oauth_callback_path allowed) n) ts ≡ true
    go [] m = absurd m
    go (t ∷ ts) (inl e) =
        let k =
          (text_eq_iff (normalize_oauth_callback_path t) n).1
            (ap normalize_oauth_callback_path e) in
        ground arith
    go (t ∷ ts) (inr m) = let k = go ts m in ground arith

same_row :
    (route path : Text) (now : ℕ) (r : OauthCallbackPathRow)
    → has_path_key route path r ≡ true
    → ◌≡◌ {A = OauthCallbackPathRow}
        (record r { created_at = now })
        (record { route_id = route; remaining_path = path; created_at = now })
same_row route path now r h =
    ground (arith, text_eq_iff r.route_id route, text_eq_iff r.remaining_path path)

-- A callback path that is reported as registered is allowlisted for its route from then on.
pub upsert-allowlisted :
    (sql : List OauthCallbackPathRow) (route given : Text) (now : ℕ) (row : OauthCallbackPathRow)
    → (upsert_oauth_callback_path sql route given now).1 ≡ some row
    → is_allowlisted_oauth_callback_path row.remaining_path (
        list_oauth_callback_paths_for_route
          (upsert_oauth_callback_path sql route given now).0
          route)
      ≡ true
unfolding upsert_oauth_callback_path
upsert-allowlisted sql route given now row h = elim (Bool-cases (is_allowed_route_id route)) [
  | inr e ↦ let k = rw e at h in cc
  | inl e ↦ elim (Option-cases (validate_oauth_callback_path given)) [
    | inl v ↦ let k = rw (e, v) at h in cc
    | inr (path, v) ↦
        let new : OauthCallbackPathRow = record {
          route_id = route;
          remaining_path = path;
          created_at = now;
        } in
        let same = ap (λ (o : Option OauthCallbackPathRow). or_else o new) (rw (e, v) at h) in
        let there =
          Member-upsert (has_path_key route path) (λ r. record r { created_at = now }) new sql
            (same_row route path now) in
        let there' =
          listed (put_callback_path route path now sql) route path new e there refl refl in
        rw (e, v)
          (subst
            (λ (r : OauthCallbackPathRow).
              is_allowlisted_oauth_callback_path r.remaining_path
                (list_oauth_callback_paths_for_route (put_callback_path route path now sql) route)
              ≡ true)
            same (allowlisted-Member path _ there'))
  ]
]

any-order_by :
    (q : OauthCallbackPathRow → Bool) (rows : List OauthCallbackPathRow)
    → any q rows ≡ false
    → any q (order_by by_path rows) ≡ false
any-order_by q rows h = ground (
  arith,
  count_where_zero q rows,
  count_where_zero q (order_by by_path rows),
  count_where-order_by q by_path rows,
)

any-map :
    (path : Text) (rows : List OauthCallbackPathRow)
    → any (λ (r : OauthCallbackPathRow). text_eq r.remaining_path path) rows ≡ false
    → any (λ t. text_eq t path) (map (λ (r : OauthCallbackPathRow). r.remaining_path) rows) ≡ false
any-map path [] h = refl
any-map path (r ∷ rows) h = ground (arith, any-map path rows)

own_absent :
    (route path : Text) (rows : List OauthCallbackPathRow)
    → any (has_path_key route path) rows ≡ false
    → any
        (λ (r : OauthCallbackPathRow). text_eq r.remaining_path path)
        (filter (λ (r : OauthCallbackPathRow). text_eq r.route_id route) rows)
      ≡ false
own_absent route path [] h = refl
own_absent route path (r ∷ rows) h = ground (arith, own_absent route path rows)

any-delete_where :
    (q : OauthCallbackPathRow → Bool) (rows : List OauthCallbackPathRow)
    → any q (delete_where q rows) ≡ false
any-delete_where q [] = refl
any-delete_where q (r ∷ rows) = ground (arith, any-delete_where q rows)

unlisted :
    (sql : List OauthCallbackPathRow) (route path : Text)
    → any (has_path_key route path) sql ≡ false
    → any (λ t. text_eq t path) (list_oauth_callback_paths_for_route sql route) ≡ false
unfolding list_oauth_callback_paths_for_route
unlisted sql route path h =
    let own = filter (λ (r : OauthCallbackPathRow). text_eq r.route_id route) sql in
    elim (Bool-cases (is_allowed_route_id route)) [
      | inr e ↦ rw e refl
      | inl e ↦ rw e (
          any-map path (order_by by_path own)
            (any-order_by (λ r. text_eq r.remaining_path path) own (own_absent route path sql h)))
    ]

-- After a path of a route that may have paths is deleted, no path that is listed for the route is
-- the one that the text stands for, and the answer tells whether one was.
pub delete-unlisted :
    (sql : List OauthCallbackPathRow) (route given : Text)
    → is_allowed_route_id route ≡ true
    → (any
          (λ t. text_eq t (normalize_oauth_callback_path given))
          (list_oauth_callback_paths_for_route (delete_oauth_callback_path sql route given).0 route)
        ≡ false)
      × ((delete_oauth_callback_path sql route given).1
          ≡ any (has_path_key route (normalize_oauth_callback_path given)) sql)
unfolding delete_oauth_callback_path
delete-unlisted sql route given a =
    let path = normalize_oauth_callback_path given in
    let key = has_path_key route path in
    elim (Bool-cases (count_where key sql == 0)) [
      | inl e ↦
          let none_there : any key sql ≡ false = ground (arith, count_where_zero key sql) in
          rw (a, e) (unlisted sql route path none_there, sym none_there)
      | inr e ↦
          rw (a, e)
            (
              unlisted (delete_where key sql) route path (any-delete_where key sql),
              ground (arith, count_where_zero key sql),
            )
    ]
