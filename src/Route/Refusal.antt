-- ===== src/Route/Refusal.antt =====
-- When `reclaimOrCreate` of durable-object.ts refuses an environment, and what a refusal leaves.
use wrangle_webhooks.Base.TextLaws.{text_eq_refl}
use wrangle_webhooks.Base.{
  Bool-cases, Text, ℕ, ◌≡◌, refl, inl, inr, true, false, some, [], Option-cases, or_else, ◌≢◌, any,
  Bool, none, List, ◌∷◌, ◌++◌, arith,
}
use wrangle_webhooks.Secrets.{
  connection_token_matches, random_connection_token, hash_connection_token,
}
use wrangle_webhooks.Route.{SubscriberRow, RouteState, queue_connection_log, in_environment}
use wrangle_webhooks.Route.Attach.{
  Fresh, AttachOptions, environment_taken, conflicts, new_row, create, find_existing,
  subscriber_is_live, attach_with, reclaim_or_create, attached, threw,
}

-- What a refusal leaves as it was: everything but the log.
abbrev pub IsUntouched : RouteState → RouteState → Type 0
IsUntouched s t =
    (t.rows ≡ s.rows)
    × (t.bindings ≡ s.bindings)
    × (t.sockets ≡ s.sockets)
    × (t.closes ≡ s.closes)
    × (t.pending ≡ s.pending)
    × (t.settled ≡ s.settled)

module _ (sha256 : Text → Text) (fresh : Fresh) (now : ℕ) (o : AttachOptions) where
  -- The subscriber is live, and the caller does not prove that it is its own.
  abbrev pub IsGuarded : SubscriberRow → RouteState → Type 0
  IsGuarded x s =
      (subscriber_is_live x s ≡ true)
      × (connection_token_matches sha256 (or_else o.connection_token []) x.connection_token_hash
          ≡ false)

  create_not_refused :
      (hash : Text) (s : RouteState) → (create fresh hash now o s).1 ≢ environment_taken
  unfolding create
  create_not_refused hash s h = elim (Bool-cases (conflicts (new_row fresh hash now o) s.rows)) [
    | inl e ↦ let k = rw e at h in cc
    | inr e ↦ let k = rw e at h in cc
  ]

  with_refused :
      (x : SubscriberRow) (s : RouteState)
      → (attach_with sha256 fresh now o (some x) s).1 ≡ environment_taken
      → IsGuarded x s × IsUntouched s (attach_with sha256 fresh now o (some x) s).0
  unfolding attach_with queue_connection_log
  with_refused x s h =
      let proof = or_else o.connection_token [] in
      elim (Bool-cases (subscriber_is_live x s)) [
        | inr e ↦ let k = rw e at h in cc
        | inl e ↦
            elim (Bool-cases (connection_token_matches sha256 proof x.connection_token_hash)) [
              | inl k ↦ let m = rw (e, k) at h in cc
              | inr k ↦ rw (e, k) ((refl, refl), (refl, refl, refl, refl, refl, refl))
            ]
      ]

  -- A refusal changes no subscriber, no OAuth binding, no socket and no pending request.
  pub refused-IsUntouched :
      (s : RouteState)
      → (reclaim_or_create sha256 fresh now o s).1 ≡ environment_taken
      → IsUntouched s (reclaim_or_create sha256 fresh now o s).0
  unfolding reclaim_or_create attach_with
  refused-IsUntouched s h = elim (Option-cases (find_existing o s)) [
    | inl e ↦ absurd (create_not_refused _ s (rw (e, reclaim_or_create) at h))
    | inr (x, e) ↦ rw e (with_refused x s (rw (e, reclaim_or_create) at h)).1
  ]

any_last :
    (q : SubscriberRow → Bool) (rows : List SubscriberRow) (r : SubscriberRow)
    → q r ≡ true
    → any q (rows ++ (r ∷ [])) ≡ true
any_last q [] r h = ground arith
any_last q (x ∷ rows) r h = ground (arith, any_last q rows r h)

created_last :
    (fresh : Fresh) (hash : Text) (now : ℕ) (o : AttachOptions) (s : RouteState)
    (id forward token : Text)
    → (create fresh hash now o s).1 ≡ attached id forward token
    → (create fresh hash now o s).0.rows ≡ s.rows ++ (new_row fresh hash now o ∷ [])
unfolding create queue_connection_log
created_last fresh hash now o s id forward token h =
    elim (Bool-cases (conflicts (new_row fresh hash now o) s.rows)) [
      | inl e ↦ let k = rw e at h in cc
      | inr e ↦ rw e refl
    ]

taken_conflicts :
    (row : SubscriberRow) (e : Text) (rows : List SubscriberRow)
    → row.environment_id ≡ some e
    → any (in_environment e) rows ≡ true
    → conflicts row rows ≡ true
unfolding conflicts
taken_conflicts row e rows h k = ground arith

threw_of :
    (fresh : Fresh) (hash : Text) (now : ℕ) (o : AttachOptions) (s : RouteState)
    → conflicts (new_row fresh hash now o) s.rows ≡ true
    → (create fresh hash now o s).1 ≡ threw
unfolding create
threw_of fresh hash now o s h = rw h refl

-- Two registrations of one environment that both looked it up before either was stored: when the
-- first has been let in, the second ends in an exception, whatever it brings.
pub interleaved_creation_throws :
    (sha256 : Text → Text) (first second : Fresh) (now later : ℕ) (o p : AttachOptions) (e : Text)
    (s : RouteState) (id forward token : Text)
    → o.environment_id ≡ some e
    → p.environment_id ≡ some e
    → (attach_with sha256 first now o none s).1 ≡ attached id forward token
    → (attach_with sha256 second later p none (attach_with sha256 first now o none s).0).1 ≡ threw
unfolding attach_with
interleaved_creation_throws sha256 first second now later o p e s id forward token a b h =
    let hash =
      λ (f : Fresh). hash_connection_token sha256 (random_connection_token f.connection_hex) in
    let row = new_row first (hash first) now o in
    let there : any (in_environment e) (create first (hash first) now o s).0.rows ≡ true =
      rw (created_last first (hash first) now o s id forward token h)
        (any_last (in_environment e) s.rows row (rw a (text_eq_refl e))) in
    threw_of second (hash second) later p _
      (taken_conflicts (new_row second (hash second) later p) e _ b there)
