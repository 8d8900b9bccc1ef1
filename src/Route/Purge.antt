-- ===== src/Route/Purge.antt =====
-- What the loops of `purgeExpired` of durable-object.ts leave in the tables.

use wrangle_webhooks.Base.{
  Bool-cases, Option-cases, filter, any, find, All, Text, codes, text_eq, ℕ, ◌≡◌, refl, sym, subst,
  inl, inr, Bool, true, false, none, List, [], ◌∷◌, map, arith,
}
use wrangle_webhooks.Base.Sql.{delete_where, update_where}
use wrangle_webhooks.Base.TextLaws.{text_eq_refl}
use wrangle_webhooks.Log.Connection.{ConnectionLogReason, expired}
use wrangle_webhooks.Route.{
  SubscriberRow, RouteState, has_id, has_socket, lookup_subscriber, queue_connection_log, extended,
  extend_subscriber, fail_pending_for_subscriber, remove_subscriber_row,
}
use wrangle_webhooks.Route.Expiry.{
  for_each, ids_where, is_expired, expired_public, expired_tunnel, expire_public, expire_tunnel,
  purge_rows,
}
pub mod Current
pub mod Kept
pub mod Sweeps

delete_where-absent :
    (p : SubscriberRow → Bool) (rows : List SubscriberRow)
    → find p rows ≡ none
    → delete_where p rows ≡ rows
delete_where-absent p [] h = refl
delete_where-absent p (r ∷ rows) h = ground (arith, delete_where-absent p rows)

pub remove-rows :
    (id : Text) (reason : ConnectionLogReason) (s : RouteState)
    → (remove_subscriber_row id reason s).rows ≡ delete_where (has_id id) s.rows
unfolding remove_subscriber_row queue_connection_log lookup_subscriber
remove-rows id reason s = elim (Option-cases (find (has_id id) s.rows)) [
  | inl e ↦ rw (e, remove_subscriber_row) (sym (delete_where-absent (has_id id) s.rows e))
  | inr (row, e) ↦ rw (e, remove_subscriber_row) refl
]

-- The rows that satisfy a test are named by a list of ids.
module _ (q : SubscriberRow → Bool) where
  abbrev AreNamed : List Text → List SubscriberRow → Type 0
  AreNamed ids rows = All (λ r. q r ≡ true → any (text_eq r.id) ids ≡ true) rows

  named_step :
      (id : Text) (ids : List Text) (rows : List SubscriberRow)
      → AreNamed (id ∷ ids) rows
      → AreNamed ids (delete_where (has_id id) rows)
  named_step id ids [] h = tt
  named_step id ids (r ∷ rows) h = elim (Bool-cases (text_eq r.id id)) [
    | inl e ↦ rw e (named_step id ids rows h.1)
    | inr e ↦ rw e (λ k. ground (arith, h.0 k), named_step id ids rows h.1)
  ]

  named_update :
      (id : Text) (ids : List Text) (f : SubscriberRow → SubscriberRow) (rows : List SubscriberRow)
      → ((r : SubscriberRow) → q (f r) ≡ false)
      → AreNamed (id ∷ ids) rows
      → AreNamed ids (update_where (has_id id) f rows)
  named_update id ids f [] k h = tt
  named_update id ids f (r ∷ rows) k h = elim (Bool-cases (text_eq r.id id)) [
    | inl e ↦ rw e (λ m. cc (k r), named_update id ids f rows k h.1)
    | inr e ↦ rw e (λ m. ground (arith, h.0 m), named_update id ids f rows k h.1)
  ]

  unnamed : (rows : List SubscriberRow) → AreNamed [] rows → All (λ r. q r ≡ false) rows
  unnamed [] h = tt
  unnamed (r ∷ rows) h = (ground (arith, h.0), unnamed rows h.1)

more_ids :
    (q : SubscriberRow → Bool) (id : Text) (ids : List Text) (rows : List SubscriberRow)
    → AreNamed q ids rows
    → AreNamed q (id ∷ ids) rows
more_ids q id ids [] h = tt
more_ids q id ids (r ∷ rows) h = (λ k. ground (arith, h.0 k), more_ids q id ids rows h.1)

abbrev pub ids_of : List SubscriberRow → List Text
ids_of rows = map (λ (r : SubscriberRow). r.id) rows

named_by_query :
    (q : SubscriberRow → Bool) (rows : List SubscriberRow)
    → AreNamed q (ids_of (filter q rows)) rows
named_by_query q [] = tt
named_by_query q (r ∷ rows) = elim (Bool-cases (q r)) [
  | inl e ↦
      subst (λ l. AreNamed q (ids_of l) (r ∷ rows)) (yes e)
        (
          λ k. ground (arith, text_eq_refl r.id),
          more_ids q r.id (ids_of (filter q rows)) rows (named_by_query q rows),
        )
  | inr e ↦ subst (λ l. AreNamed q (ids_of l) (r ∷ rows)) (no e) (λ k. cc, named_by_query q rows)
]
  where
    yes : q r ≡ true → r ∷ filter q rows ≡ filter q (r ∷ rows)
    yes e = ground arith

    no : q r ≡ false → filter q rows ≡ filter q (r ∷ rows)
    no e = ground arith

public_loop :
    (now : ℕ) (ids : List Text) (s : RouteState)
    → AreNamed (expired_public now) ids s.rows
    → AreNamed (expired_public now) [] (for_each expire_public ids s).rows
unfolding expire_public
public_loop now [] s h = h
public_loop now (id ∷ ids) s h =
    public_loop now ids (remove_subscriber_row id expired s)
      (rw (remove-rows id expired s) (named_step (expired_public now) id ids s.rows h))

tunnel_step :
    (now : ℕ) (id : Text) (ids : List Text) (s : RouteState)
    → AreNamed (is_expired now) (id ∷ ids) s.rows
    → AreNamed (is_expired now) ids (expire_tunnel now id s).rows
unfolding expire_tunnel extend_subscriber fail_pending_for_subscriber
tunnel_step now id ids s h = elim (Bool-cases (has_socket id s)) [
  | inl e ↦ rw e (named_update (is_expired now) id ids (extended now) s.rows (λ r. ground arith) h)
  | inr e ↦
      rw
        (e, remove-rows id expired (fail_pending_for_subscriber id (codes "tunnel_disconnected") s))
        (named_step (is_expired now) id ids s.rows h)
]

tunnel_loop :
    (now : ℕ) (ids : List Text) (s : RouteState)
    → AreNamed (is_expired now) ids s.rows
    → AreNamed (is_expired now) [] (for_each (expire_tunnel now) ids s).rows
tunnel_loop now [] s h = h
tunnel_loop now (id ∷ ids) s h =
    tunnel_loop now ids (expire_tunnel now id s) (tunnel_step now id ids s h)

tunnels_named :
    (now : ℕ) (rows : List SubscriberRow) (ids : List Text)
    → All (λ r. expired_public now r ≡ false) rows
    → AreNamed (expired_tunnel now) ids rows
    → AreNamed (is_expired now) ids rows
tunnels_named now [] ids h k = tt
tunnels_named now (r ∷ rows) ids h k =
    (λ e. k.0 (ground (arith, h.0)), tunnels_named now rows ids h.1 k.1)

-- After the loops no row has expired.
pub purge_rows-current :
    (now : ℕ) (s : RouteState) → All (λ r. is_expired now r ≡ false) (purge_rows now s).rows
unfolding purge_rows
purge_rows-current now s =
    let first = for_each expire_public (ids_where (expired_public now) s) s in
    let public_done =
      public_loop now (ids_where (expired_public now) s) s
        (named_by_query (expired_public now) s.rows) in
    unnamed (is_expired now) (purge_rows now s).rows (
      tunnel_loop now (ids_where (expired_tunnel now) first) first (
        tunnels_named now first.rows (ids_where (expired_tunnel now) first)
          (unnamed (expired_public now) first.rows public_done)
          (named_by_query (expired_tunnel now) first.rows)))
