-- ===== src/Route/Inv/Reclaim.antt =====
-- Reclaiming and creating subscribers keeps the tables consistent.
use wrangle_webhooks.Base.Sql.{update_where}
use wrangle_webhooks.Route.Inv.Keeps.{fail-IsConsistent, queue-IsConsistent}
use wrangle_webhooks.Secrets.{connection_token_matches}
use wrangle_webhooks.Log.Connection.{disconnected, replaced}
use wrangle_webhooks.Base.{
  or_else, Bool-cases, Option-cases, is_empty, any, find, All, find-cons, Text, codes, ℕ, ◌≡◌, refl,
  ap, subst, inl, inr, Bool, true, false, Option, none, some, List, [], ◌∷◌, arith,
}
use wrangle_webhooks.Base.TextLaws.{text_eq_iff}
use wrangle_webhooks.Base.{
  Bool-cases, is_empty, Text, ◌≡◌, refl, inl, inr, Option, List, any, find, All, ap, subst, Bool,
  true, false, none, some, [], ◌∷◌, arith, find-cons, codes, ℕ, Option-cases,
}
use wrangle_webhooks.Route.{
  SubscriberRow, RouteState, has_id, close_sockets, is_environment, in_environment,
  queue_connection_log, fail_pending_for_subscriber, lookup_subscriber_by_environment,
}
use wrangle_webhooks.Route.Attach.{
  Fresh, forward_token_of, ensure_forward_token, existing_event, subscriber_is_live, AttachOptions,
  reclaimed_row, take_over, conflicts, new_row, create, find_existing, attach_with,
  reclaim_or_create,
}
use wrangle_webhooks.Route.Inv.{IsConsistent, update_where-Consistent, HasDistinctIds, KeepsKeys}
use wrangle_webhooks.Route.Inv.Append.{append-Consistent}

pub close_sockets-IsConsistent :
    (id : Text) (s : RouteState) → IsConsistent s → IsConsistent (close_sockets id s)
unfolding close_sockets
close_sockets-IsConsistent id s v = v

ensure-IsConsistent :
    (fresh : Fresh) (row : SubscriberRow) (s : RouteState)
    → IsConsistent s
    → IsConsistent (ensure_forward_token fresh row s)
unfolding ensure_forward_token
ensure-IsConsistent fresh row s v = elim (Bool-cases (is_empty row.forward_token)) [
  | inl e ↦ rw e (
      update_where-Consistent (has_id row.id)
        (λ r. record r { forward_token = forward_token_of fresh row }) (λ r _. (refl, refl)) v)
  | inr e ↦ rw e v
]

-- The rows with this id are in this environment.
abbrev IsScoped : Text → Option Text → List SubscriberRow → Type 0
IsScoped id e rows = All (λ r. has_id id r ≡ true → r.environment_id ≡ e) rows

IsScoped-absent :
    (id : Text) (e : Option Text) (rows : List SubscriberRow)
    → any (has_id id) rows ≡ false
    → IsScoped id e rows
IsScoped-absent id e [] h = tt
IsScoped-absent id e (r ∷ rows) h = (λ k. ground arith, IsScoped-absent id e rows (ground arith))

pub find_not :
    (p q : SubscriberRow → Bool) (rows : List SubscriberRow) (x : SubscriberRow)
    → find p rows ≡ some x
    → any q rows ≡ false
    → q x ≡ false
find_not p q [] x h k = cc
find_not p q (r ∷ rows) x h k = elim (find-cons p r x rows h) [
  | inl here ↦ subst (λ t. q t ≡ false) here.1 (ground arith)
  | inr later ↦ find_not p q rows x later.1 (ground arith)
]

environment_of :
    (e : Text) (r : SubscriberRow) → in_environment e r ≡ true → r.environment_id ≡ some e
environment_of e r h = go r.environment_id h
  where
    go : (o : Option Text) → is_environment e o ≡ true → o ≡ some e
    go none k = cc
    go (some own) k = ap some ((text_eq_iff own e).0 k)

-- What is found by its environment is the only row with its id.
found-IsScoped :
    (e : Text) (rows : List SubscriberRow) (x : SubscriberRow)
    → HasDistinctIds rows
    → find (in_environment e) rows ≡ some x
    → IsScoped x.id (some e) rows
found-IsScoped e [] x d h = tt
found-IsScoped e (r ∷ rows) x d h = elim (find-cons (in_environment e) r x rows h) [
  | inl here ↦
      subst (λ t. IsScoped t.id (some e) (r ∷ rows)) here.1
        (λ _. environment_of e r here.0, IsScoped-absent r.id (some e) rows d.0)
  | inr later ↦
      let other = find_not (in_environment e) (has_id r.id) rows x later.1 d.0 in
      (
        λ k. ground (arith, text_eq_iff r.id x.id, text_eq_iff x.id r.id),
        found-IsScoped e rows x d.1 later.1,
      )
]

IsScoped-update_where :
    (id : Text) (e : Option Text) (p : SubscriberRow → Bool) (f : SubscriberRow → SubscriberRow)
    (rows : List SubscriberRow)
    → KeepsKeys p f
    → IsScoped id e rows
    → IsScoped id e (update_where p f rows)
IsScoped-update_where id e p f [] k h = tt
IsScoped-update_where id e p f (r ∷ rows) k h =
    (λ m. ground (arith, k r, h.0), IsScoped-update_where id e p f rows k h.1)

-- On such rows reclaiming writes the environment that is there.
reclaim_keeps :
    (id hash : Text) (now : ℕ) (o : AttachOptions) (rows : List SubscriberRow)
    → IsScoped id o.environment_id rows
    → update_where (has_id id) (reclaimed_row hash now o) rows
      ≡ update_where
          (has_id id)
          (λ r. record (reclaimed_row hash now o r) { environment_id = r.environment_id })
          rows
reclaim_keeps id hash now o [] h = refl
reclaim_keeps id hash now o (r ∷ rows) h = ground (arith, h.0, reclaim_keeps id hash now o rows h.1)

ensure-IsScoped :
    (fresh : Fresh) (row : SubscriberRow) (e : Option Text) (s : RouteState)
    → IsScoped row.id e s.rows
    → IsScoped row.id e (ensure_forward_token fresh row s).rows
unfolding ensure_forward_token
ensure-IsScoped fresh row e s v = elim (Bool-cases (is_empty row.forward_token)) [
  | inl q ↦ rw q (
      IsScoped-update_where row.id e (has_id row.id)
        (λ r. record r { forward_token = forward_token_of fresh row }) s.rows (λ r _. (refl, refl))
        v)
  | inr q ↦ rw q v
]

pub take_over-IsConsistent :
    (fresh : Fresh) (hash : Text) (now : ℕ) (o : AttachOptions) (x : SubscriberRow) (s : RouteState)
    → IsConsistent s
    → IsScoped x.id o.environment_id s.rows
    → IsConsistent (take_over fresh hash now o x s)
unfolding take_over queue_connection_log
take_over-IsConsistent fresh hash now o x s v h =
    let t = fail_pending_for_subscriber x.id (codes "subscriber_replaced") (close_sockets x.id s) in
    let w =
      fail-IsConsistent x.id (codes "subscriber_replaced") (close_sockets x.id s)
        (close_sockets-IsConsistent x.id s v) in
    let u = ensure_forward_token fresh x t in
    let scoped =
      ensure-IsScoped fresh x o.environment_id t
        (unfold fail_pending_for_subscriber close_sockets in h) in
    rw (reclaim_keeps x.id hash now o u.rows scoped) (
      update_where-Consistent (has_id x.id)
        (λ r. record (reclaimed_row hash now o r) { environment_id = r.environment_id })
        (λ r _. (refl, refl)) (ensure-IsConsistent fresh x t w))

create-IsConsistent :
    (fresh : Fresh) (hash : Text) (now : ℕ) (o : AttachOptions) (s : RouteState)
    → IsConsistent s
    → IsConsistent (create fresh hash now o s).0
unfolding create queue_connection_log
create-IsConsistent fresh hash now o s v =
    elim (Bool-cases (conflicts (new_row fresh hash now o) s.rows)) [
      | inl e ↦ rw e v
      | inr e ↦ rw e (append-Consistent (new_row fresh hash now o) e v)
    ]

find_existing-IsScoped :
    (o : AttachOptions) (s : RouteState) (x : SubscriberRow)
    → IsConsistent s
    → find_existing o s ≡ some x
    → IsScoped x.id o.environment_id s.rows
unfolding find_existing lookup_subscriber_by_environment
find_existing-IsScoped o s x v h = go o.environment_id refl
  where
    go : (e : Option Text) → o.environment_id ≡ e → IsScoped x.id e s.rows
    go none k = cc (rw (k, find_existing) at h)
    go (some e) k = found-IsScoped e s.rows x v.ids (found e k)
      where
        found : (e : Text) → o.environment_id ≡ some e → find (in_environment e) s.rows ≡ some x
        found e k = ground arith

module _ (sha256 : Text → Text) where
  taken-IsConsistent :
      (fresh : Fresh) (now : ℕ) (o : AttachOptions) (x : SubscriberRow) (s : RouteState)
      → IsConsistent s
      → IsScoped x.id o.environment_id s.rows
      → IsConsistent (attach_with sha256 fresh now o (some x) s).0
  unfolding attach_with
  taken-IsConsistent fresh now o x s v h =
      let proof = or_else o.connection_token [] in
      let event = existing_event disconnected replaced x none s in
      elim (Bool-cases (subscriber_is_live x s)) [
        | inr e ↦ rw e (take_over-IsConsistent fresh _ now o x s v h)
        | inl e ↦
            elim (Bool-cases (connection_token_matches sha256 proof x.connection_token_hash)) [
              | inr k ↦ rw (e, k) (queue-IsConsistent _ s v)
              | inl k ↦
                  rw (e, k)
                    (take_over-IsConsistent fresh _ now o x (queue_connection_log event s)
                      (queue-IsConsistent event s v) (unfold queue_connection_log in h))
            ]
      ]

  pub attach-IsConsistent :
      (fresh : Fresh) (now : ℕ) (o : AttachOptions) (s : RouteState)
      → IsConsistent s
      → IsConsistent (reclaim_or_create sha256 fresh now o s).0
  unfolding reclaim_or_create attach_with
  attach-IsConsistent fresh now o s v = elim (Option-cases (find_existing o s)) [
    | inl e ↦ rw e (create-IsConsistent fresh _ now o s v)
    | inr (x, e) ↦ rw e (taken-IsConsistent fresh now o x s v (find_existing-IsScoped o s x v e))
  ]
