-- ===== src/Route/Ownership.antt =====
-- Who may take an environment: `reclaimOrCreate` of durable-object.ts.
use wrangle_webhooks.Secrets.TimingSafe.{timing_safe_equal_iff}
use wrangle_webhooks.Route.Lifecycle.{verify_connection_token}
use wrangle_webhooks.Log.Connection.{replaced, disconnected}
use wrangle_webhooks.Base.{
  Bool-cases, any, find, find-cons, Text, ℕ, ◌+◌, ◌≡◌, refl, ap, subst, inl, inr, Bool, true, false,
  Option, none, some, List, [], ◌∷◌, ◌++◌, arith, Option-cases, or_else, is_empty, codes, ◌∙◌,
  or_text,
}
use wrangle_webhooks.Base.Sql.{update_where}
use wrangle_webhooks.Base.TextLaws.{text_eq_iff, text_eq_refl}
use wrangle_webhooks.Secrets.{
  random_connection_token, hash_connection_token, connection_token_matches,
}
use wrangle_webhooks.Route.{
  subscriber_ttl_ms, SubscriberRow, RouteState, has_id, lookup_subscriber, in_environment,
  lookup_subscriber_by_environment, queue_connection_log, fail_pending_for_subscriber,
  close_sockets,
}
use wrangle_webhooks.Route.Attach.{
  Fresh, AttachOptions, Attached, attached, environment_taken, threw, conflicts, new_row, create,
  find_existing, forward_token_of, ensure_forward_token, subscriber_is_live, existing_event,
  reclaimed_row, take_over, attach_with, reclaim_or_create,
}
use wrangle_webhooks.Route.Inv.Reclaim.{find_not}
use wrangle_webhooks.Route.Inv.{HasDistinctIds, IsConsistent}

find-append_last :
    (p : SubscriberRow → Bool) (rows : List SubscriberRow) (r : SubscriberRow)
    → any p rows ≡ false
    → p r ≡ true
    → find p (rows ++ (r ∷ [])) ≡ some r
find-append_last p [] r h k = ground arith
find-append_last p (x ∷ rows) r h k = ground (arith, find-append_last p rows r)

find-update_where :
    (p : SubscriberRow → Bool) (f : SubscriberRow → SubscriberRow) (rows : List SubscriberRow)
    (x : SubscriberRow)
    → ((r : SubscriberRow) → p (f r) ≡ p r)
    → find p rows ≡ some x
    → find p (update_where p f rows) ≡ some (f x)
find-update_where p f [] x k h = cc
find-update_where p f (r ∷ rows) x k h = elim (find-cons p r x rows h) [
  | inl here ↦ rw (here.0, k r, here.0) (ap (λ t. some (f t)) here.1)
  | inr later ↦ rw (later.0, later.0) (find-update_where p f rows x k later.1)
]

-- A row that some query finds is found by its id.
find_by_own_id :
    (p : SubscriberRow → Bool) (rows : List SubscriberRow) (x : SubscriberRow)
    → HasDistinctIds rows
    → find p rows ≡ some x
    → find (has_id x.id) rows ≡ some x
find_by_own_id p [] x d h = cc
find_by_own_id p (r ∷ rows) x d h = elim (find-cons p r x rows h) [
  | inl here ↦
      subst (λ t. find (has_id t.id) (r ∷ rows) ≡ some t) here.1 (rw (text_eq_refl r.id) refl)
  | inr later ↦
      let other = find_not p (has_id r.id) rows x later.1 d.0 in
      ground (arith, find_by_own_id p rows x d.1 later.1, text_eq_iff r.id x.id, text_eq_refl x.id)
]

-- The row that a caller who was let in holds.
pub record IsHolder (sha256 : Text → Text) (now : ℕ) (o : AttachOptions) (id forward token : Text)
    (row : SubscriberRow) : Type 0 where
  pub same_id : row.id ≡ id
  pub same_forward : row.forward_token ≡ forward
  pub same_hash : row.connection_token_hash ≡ hash_connection_token sha256 token
  pub same_environment : row.environment_id ≡ o.environment_id
  pub same_transport : row.transport ≡ o.transport
  pub same_target : row.target_base_url ≡ o.target_base_url
  pub same_choice : row.accept_webhooks ≡ o.accept_webhooks
  pub full_term : row.expires_at ≡ now + subscriber_ttl_ms

-- The result has the row of the subscriber that it names.
abbrev pub IsHeldIn : (Text → Text) → ℕ → AttachOptions → RouteState → Attached → Type 0
IsHeldIn sha256 now o t environment_taken = Unit
IsHeldIn sha256 now o t threw = Unit
IsHeldIn sha256 now o t (attached id forward token) =
    (row : SubscriberRow) × (lookup_subscriber id t ≡ some row)
    × IsHolder sha256 now o id forward token row

find_existing-lookup :
    (o : AttachOptions) (s : RouteState) (x : SubscriberRow)
    → IsConsistent s
    → find_existing o s ≡ some x
    → find (has_id x.id) s.rows ≡ some x
unfolding find_existing lookup_subscriber_by_environment
find_existing-lookup o s x v h = go o.environment_id refl
  where
    go : (e : Option Text) → o.environment_id ≡ e → find (has_id x.id) s.rows ≡ some x
    go none k = cc (rw (k, find_existing) at h)
    go (some e) k = find_by_own_id (in_environment e) s.rows x v.ids (found e k)
      where
        found : (e : Text) → o.environment_id ≡ some e → find (in_environment e) s.rows ≡ some x
        found e k = ground arith

matches_self :
    (sha256 : Text → Text) (given hash : Text)
    → hash ≡ hash_connection_token sha256 given
    → is_empty (sha256 given) ≡ false
    → connection_token_matches sha256 given hash ≡ true
unfolding connection_token_matches hash_connection_token
matches_self sha256 given hash e h =
    rw e (rw h ((timing_safe_equal_iff (sha256 given) (sha256 given)).1 refl))

or_text_kept : (t d : Text) → is_empty t ≡ false → t ≡ or_text t d
unfolding or_text
or_text_kept [] d h = cc
or_text_kept (a ∷ t) d h = refl

module _ (sha256 : Text → Text) (fresh : Fresh) (now : ℕ) (o : AttachOptions) where
  abbrev token : Text
  token = random_connection_token fresh.connection_hex

  create-IsHeld :
      (s : RouteState)
      → IsHeldIn sha256 now o
          (create fresh (hash_connection_token sha256 token) now o s).0
          (create fresh (hash_connection_token sha256 token) now o s).1
  unfolding create queue_connection_log lookup_subscriber conflicts
  create-IsHeld s =
      let row = new_row fresh (hash_connection_token sha256 token) now o in
      elim (Bool-cases (conflicts row s.rows)) [
        | inl e ↦ rw e tt
        | inr e ↦ rw e (
          row,
          find-append_last (has_id row.id) s.rows row (ground arith) (text_eq_refl row.id),
          record {
            same_id = refl;
            same_forward = refl;
            same_hash = refl;
            same_environment = refl;
            same_transport = refl;
            same_target = refl;
            same_choice = refl;
            full_term = refl;
          },
        )
      ]

  -- What the row of an existing subscriber becomes.
  abbrev taken_row : SubscriberRow → SubscriberRow
  taken_row x =
      reclaimed_row (hash_connection_token sha256 token) now o
        (record x { forward_token = forward_token_of fresh x })

  ensured_row :
      (x : SubscriberRow) (s : RouteState)
      → find (has_id x.id) s.rows ≡ some x
      → find (has_id x.id) (ensure_forward_token fresh x s).rows
        ≡ some (record x { forward_token = forward_token_of fresh x })
  unfolding ensure_forward_token
  ensured_row x s h = elim (Bool-cases (is_empty x.forward_token)) [
    | inl e ↦ rw e (
        find-update_where (has_id x.id) (λ r. record r { forward_token = forward_token_of fresh x })
          s.rows x (λ r. refl) h)
    | inr e ↦ rw e (h ∙ ap (λ t. some (record x { forward_token = t })) (kept e))
  ]
    where
      kept : is_empty x.forward_token ≡ false → x.forward_token ≡ forward_token_of fresh x
      kept e =
          unfold forward_token_of in
          or_text_kept x.forward_token (codes "ft_" ++ fresh.forward_hex) e

  take_over-row :
      (x : SubscriberRow) (s : RouteState)
      → find (has_id x.id) s.rows ≡ some x
      → lookup_subscriber x.id (take_over fresh (hash_connection_token sha256 token) now o x s)
        ≡ some (taken_row x)
  unfolding take_over lookup_subscriber queue_connection_log
  take_over-row x s h =
      let t =
        fail_pending_for_subscriber x.id (codes "subscriber_replaced") (close_sockets x.id s) in
      find-update_where (has_id x.id) (reclaimed_row (hash_connection_token sha256 token) now o)
        (ensure_forward_token fresh x t).rows
        (record x { forward_token = forward_token_of fresh x }) (λ r. refl)
        (ensured_row x t (unfold fail_pending_for_subscriber close_sockets in h))

  take_over-IsHeld :
      (x : SubscriberRow) (s : RouteState)
      → find (has_id x.id) s.rows ≡ some x
      → IsHeldIn sha256 now o
          (take_over fresh (hash_connection_token sha256 token) now o x s)
          (attached x.id (forward_token_of fresh x) token)
  take_over-IsHeld x s h = (
    taken_row x,
    take_over-row x s h,
    record {
      same_id = refl;
      same_forward = refl;
      same_hash = refl;
      same_environment = refl;
      same_transport = refl;
      same_target = refl;
      same_choice = refl;
      full_term = refl;
    },
  )

  with-IsHeld :
      (x : SubscriberRow) (s : RouteState)
      → find (has_id x.id) s.rows ≡ some x
      → IsHeldIn sha256 now o
          (attach_with sha256 fresh now o (some x) s).0
          (attach_with sha256 fresh now o (some x) s).1
  unfolding attach_with
  with-IsHeld x s h =
      let proof = or_else o.connection_token [] in
      let event = existing_event disconnected replaced x none s in
      elim (Bool-cases (subscriber_is_live x s)) [
        | inr e ↦ rw e (take_over-IsHeld x s h)
        | inl e ↦
            elim (Bool-cases (connection_token_matches sha256 proof x.connection_token_hash)) [
              | inr k ↦ rw (e, k) tt
              | inl k ↦
                  rw (e, k)
                    (take_over-IsHeld x (queue_connection_log event s)
                      (unfold queue_connection_log in h))
            ]
      ]

  -- Whoever is let in holds the row of the subscriber that the result names: it has the
  -- environment, the target and the choices that were asked for, the forward token that was
  -- returned, the digest of the connection token that was returned, and a full term to live.
  pub reclaim_or_create-IsHeld :
      (s : RouteState)
      → IsConsistent s
      → IsHeldIn sha256 now o
          (reclaim_or_create sha256 fresh now o s).0
          (reclaim_or_create sha256 fresh now o s).1
  unfolding reclaim_or_create attach_with
  reclaim_or_create-IsHeld s v = elim (Option-cases (find_existing o s)) [
    | inl e ↦ rw e (create-IsHeld s)
    | inr (x, e) ↦ rw e (with-IsHeld x s (find_existing-lookup o s x v e))
  ]

  held_verifies :
      (s t : RouteState) (id forward given : Text)
      → (reclaim_or_create sha256 fresh now o s).0 ≡ t
      → (reclaim_or_create sha256 fresh now o s).1 ≡ attached id forward given
      → IsConsistent s
      → is_empty (sha256 given) ≡ false
      → verify_connection_token sha256 id given t ≡ true
  unfolding verify_connection_token
  held_verifies s t id forward given et er v h =
      let held : IsHeldIn sha256 now o t (attached id forward given) =
        subst (IsHeldIn sha256 now o t) er (
          subst (λ u. IsHeldIn sha256 now o u (reclaim_or_create sha256 fresh now o s).1) et
            (reclaim_or_create-IsHeld s v)) in
      let (row, found, holder) = held in
      rw (found, verify_connection_token)
        (matches_self sha256 given row.connection_token_hash holder.same_hash h)

  -- The connection token that a caller is given proves that the subscriber is its own, where
  -- digests are not empty.
  pub returned_token_verifies :
      (s : RouteState) (id forward given : Text)
      → (reclaim_or_create sha256 fresh now o s).1 ≡ attached id forward given
      → IsConsistent s
      → is_empty (sha256 given) ≡ false
      → verify_connection_token sha256 id given (reclaim_or_create sha256 fresh now o s).0 ≡ true
  returned_token_verifies s id forward given er v h =
      held_verifies s (reclaim_or_create sha256 fresh now o s).0 id forward given refl er v h
