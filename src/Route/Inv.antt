-- ===== src/Route/Inv.antt =====
-- The invariant of a route's tables, and the changes to the tables that keep it.
use wrangle_webhooks.Base.TextLaws.{text_eq_refl, text_eq_iff}
use wrangle_webhooks.Base.{
  any, ◌≡◌, refl, Bool, true, false, none, some, List, [], ◌∷◌, arith, if◌then◌else◌, Bool-cases,
  Text, text_eq, ap, ◌∙◌, inl, inr, ◌||◌, Option, ap₂, ◌++◌,
}
use wrangle_webhooks.Base.Sql.{delete_where, update_where}
use wrangle_webhooks.Route.{
  SubscriberRow, OauthBinding, RouteState, has_id, in_environment, is_environment,
}
use wrangle_webhooks.Route.Attach.{conflicts}
pub mod Append
pub mod Keeps
pub mod Reclaim
pub mod Ops
pub mod Sockets
pub mod Reach

-- No two rows share an id.
abbrev pub HasDistinctIds : List SubscriberRow → Type 0
HasDistinctIds [] = Unit
HasDistinctIds (r ∷ rows) = (any (has_id r.id) rows ≡ false) × HasDistinctIds rows

-- Some row has this environment.
abbrev pub shares_environment : Option Text → List SubscriberRow → Bool
shares_environment none rows = false
shares_environment (some e) rows = any (in_environment e) rows

-- No two rows share an environment.
abbrev pub HasDistinctEnvironments : List SubscriberRow → Type 0
HasDistinctEnvironments [] = Unit
HasDistinctEnvironments (r ∷ rows) =
    (shares_environment r.environment_id rows ≡ false) × HasDistinctEnvironments rows

-- Every binding names a subscriber that is there.
abbrev pub HasSubscribers : List SubscriberRow → List OauthBinding → Type 0
HasSubscribers rows [] = Unit
HasSubscribers rows (b ∷ bindings) =
    (any (has_id b.subscriber_id) rows ≡ true) × HasSubscribers rows bindings

pub record Consistent (rows : List SubscriberRow) (bindings : List OauthBinding) : Type 0 where
  pub ids : HasDistinctIds rows
  pub environments : HasDistinctEnvironments rows
  pub subscribers : HasSubscribers rows bindings

-- Ids and environments are unique, and every OAuth binding names a subscriber that is there.
abbrev pub IsConsistent : RouteState → Type 0
IsConsistent s = Consistent s.rows s.bindings

-- A change of some rows that leaves each id and each environment as it is.
module _ (p : SubscriberRow → Bool) (f : SubscriberRow → SubscriberRow) where
  abbrev pub KeepsKeys : Type 0
  KeepsKeys =
      (r : SubscriberRow)
      → p r ≡ true
      → ((f r).id ≡ r.id) × ((f r).environment_id ≡ r.environment_id)

  keeps_id : (r : SubscriberRow) → KeepsKeys → (if p r then f r else r).id ≡ r.id
  keeps_id r k = ground (arith, k r)

  keeps_environment :
      (r : SubscriberRow) → KeepsKeys → (if p r then f r else r).environment_id ≡ r.environment_id
  keeps_environment r k = ground (arith, k r)

  pub any_id-update_where :
      (x : Text) (rows : List SubscriberRow)
      → KeepsKeys
      → any (has_id x) (update_where p f rows) ≡ any (has_id x) rows
  any_id-update_where x [] k = refl
  any_id-update_where x (r ∷ rows) k = rw (keeps_id r k, any_id-update_where x rows k) refl

  shares-update_where :
      (e : Option Text) (rows : List SubscriberRow)
      → KeepsKeys
      → shares_environment e (update_where p f rows) ≡ shares_environment e rows
  shares-update_where none rows k = refl
  shares-update_where (some e) [] k = refl
  shares-update_where (some e) (r ∷ rows) k =
      ap₂ (λ a b. is_environment e a || b) (keeps_environment r k)
        (shares-update_where (some e) rows k)

  update_where-ids :
      (rows : List SubscriberRow)
      → KeepsKeys
      → HasDistinctIds rows
      → HasDistinctIds (update_where p f rows)
  update_where-ids [] k h = tt
  update_where-ids (r ∷ rows) k h =
      (rw (keeps_id r k) (any_id-update_where r.id rows k ∙ h.0), update_where-ids rows k h.1)

  update_where-environments :
      (rows : List SubscriberRow)
      → KeepsKeys
      → HasDistinctEnvironments rows
      → HasDistinctEnvironments (update_where p f rows)
  update_where-environments [] k h = tt
  update_where-environments (r ∷ rows) k h = (
    rw (keeps_environment r k) (shares-update_where r.environment_id rows k ∙ h.0),
    update_where-environments rows k h.1,
  )

  update_where-subscribers :
      (rows : List SubscriberRow) (bindings : List OauthBinding)
      → KeepsKeys
      → HasSubscribers rows bindings
      → HasSubscribers (update_where p f rows) bindings
  update_where-subscribers rows [] k h = tt
  update_where-subscribers rows (b ∷ bindings) k h = (
    any_id-update_where b.subscriber_id rows k ∙ h.0,
    update_where-subscribers rows bindings k h.1,
  )

  pub update_where-Consistent :
      {rows : List SubscriberRow} {bindings : List OauthBinding}
      → KeepsKeys
      → Consistent rows bindings
      → Consistent (update_where p f rows) bindings
  update_where-Consistent {rows} {bindings} k c = record {
    ids = update_where-ids rows k c.ids;
    environments = update_where-environments rows k c.environments;
    subscribers = update_where-subscribers rows bindings k c.subscribers;
  }

-- Removing a subscriber with its bindings.
any-delete_where :
    (p q : SubscriberRow → Bool) (rows : List SubscriberRow)
    → any q rows ≡ false
    → any q (delete_where p rows) ≡ false
any-delete_where p q [] h = refl
any-delete_where p q (r ∷ rows) h = ground (arith, any-delete_where p q rows)

shares-delete_where :
    (p : SubscriberRow → Bool) (e : Option Text) (rows : List SubscriberRow)
    → shares_environment e rows ≡ false
    → shares_environment e (delete_where p rows) ≡ false
shares-delete_where p none rows h = refl
shares-delete_where p (some e) rows h = any-delete_where p (in_environment e) rows h

delete_where-ids :
    (p : SubscriberRow → Bool) (rows : List SubscriberRow)
    → HasDistinctIds rows
    → HasDistinctIds (delete_where p rows)
delete_where-ids p [] h = tt
delete_where-ids p (r ∷ rows) h = elim (Bool-cases (p r)) [
  | inl e ↦ rw e (delete_where-ids p rows h.1)
  | inr e ↦ rw e (any-delete_where p (has_id r.id) rows h.0, delete_where-ids p rows h.1)
]

delete_where-environments :
    (p : SubscriberRow → Bool) (rows : List SubscriberRow)
    → HasDistinctEnvironments rows
    → HasDistinctEnvironments (delete_where p rows)
delete_where-environments p [] h = tt
delete_where-environments p (r ∷ rows) h = elim (Bool-cases (p r)) [
  | inl e ↦ rw e (delete_where-environments p rows h.1)
  | inr e ↦
      rw e (shares-delete_where p r.environment_id rows h.0, delete_where-environments p rows h.1)
]

pub any_id-delete_where_other :
    (x id : Text) (rows : List SubscriberRow)
    → text_eq x id ≡ false
    → any (has_id x) (delete_where (has_id id) rows) ≡ any (has_id x) rows
any_id-delete_where_other x id [] h = refl
any_id-delete_where_other x id (r ∷ rows) h = ground (
  arith,
  any_id-delete_where_other x id rows h,
  text_eq_iff r.id id,
  text_eq_iff r.id x,
  text_eq_refl x,
)

delete_where-subscribers :
    (id : Text) (rows : List SubscriberRow) (bindings : List OauthBinding)
    → HasSubscribers rows bindings
    → HasSubscribers
        (delete_where (has_id id) rows)
        (delete_where (λ b. text_eq b.subscriber_id id) bindings)
delete_where-subscribers id rows [] h = tt
delete_where-subscribers id rows (b ∷ bindings) h = elim (Bool-cases (text_eq b.subscriber_id id)) [
  | inl e ↦ rw e (delete_where-subscribers id rows bindings h.1)
  | inr e ↦ rw e (
    any_id-delete_where_other b.subscriber_id id rows e ∙ h.0,
    delete_where-subscribers id rows bindings h.1,
  )
]

pub delete_where-Consistent :
    (id : Text) {rows : List SubscriberRow} {bindings : List OauthBinding}
    → Consistent rows bindings
    → Consistent
        (delete_where (has_id id) rows)
        (delete_where (λ b. text_eq b.subscriber_id id) bindings)
delete_where-Consistent id {rows} {bindings} c = record {
  ids = delete_where-ids (has_id id) rows c.ids;
  environments = delete_where-environments (has_id id) rows c.environments;
  subscribers = delete_where-subscribers id rows bindings c.subscribers;
}
