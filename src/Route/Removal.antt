-- ===== src/Route/Removal.antt =====
-- What `deregister` of durable-object.ts leaves of a subscriber, and how waiting requests end.
use wrangle_webhooks.Route.Inv.Reclaim.{close_sockets-IsConsistent}
use wrangle_webhooks.Route.Lifecycle.{deregister}
use wrangle_webhooks.Route.Inv.Keeps.{fail-IsConsistent, sync_rows}
use wrangle_webhooks.Base.{
  leb, Bool-cases, Option-cases, any, find, All, Text, codes, text_eq, ℕ, ◌≡◌, refl, inl, inr,
  false, none, List, [], ◌∷◌, arith, ◌==◌, is_empty, Member, ap, ◌∙◌, true, ◌++◌,
}
use wrangle_webhooks.Base.Sql.{update_where}
use wrangle_webhooks.Base.TextLaws.{text_eq_iff}
use wrangle_webhooks.Log.Connection.{ConnectionLogReason, expired, deregistered}
use wrangle_webhooks.Route.{
  SubscriberRow, OauthBinding, PendingTunnel, RouteState, has_id, has_socket, lookup_subscriber,
  queue_connection_log, extended, extend_subscriber, remove_subscriber_row, failed,
  subscriber_count, flush_connection_log, sync_index, rejections, fail_pending_for_subscriber,
  close_sockets, schedule_cleanup,
}
use wrangle_webhooks.Route.Expiry.{
  for_each, ids_where, expired_public, expired_tunnel, expire_public, expire_tunnel, purge_rows,
  purge_bindings, purge_expired,
}
use wrangle_webhooks.Route.Inv.{HasSubscribers, IsConsistent}
use wrangle_webhooks.Route.Purge.Sweeps.{
  All-delete_where, delete_where-All, Holds, fail-Holds, remove-Holds, sweeps-Holds,
}

-- Neither table nor the pending requests mention the subscriber.
abbrev pub IsGone : Text → RouteState → Type 0
IsGone id =
    Holds (λ (r : SubscriberRow). text_eq r.id id ≡ false)
      (λ (b : OauthBinding). text_eq b.subscriber_id id ≡ false)
      (λ (p : PendingTunnel). text_eq p.subscriber_id id ≡ false)

extended-absent :
    (id other : Text) (now : ℕ) (rows : List SubscriberRow)
    → All (λ r. text_eq r.id id ≡ false) rows
    → All (λ r. text_eq r.id id ≡ false) (update_where (has_id other) (extended now) rows)
extended-absent id other now [] h = tt
extended-absent id other now (r ∷ rows) h =
    (ground (arith, h.0), extended-absent id other now rows h.1)

extend-IsGone :
    (id other : Text) (now : ℕ) (s : RouteState)
    → IsGone id s
    → IsGone id (extend_subscriber other now s)
unfolding extend_subscriber
extend-IsGone id other now s h = (extended-absent id other now s.rows h.0, h.1, h.2)

expire_tunnel-IsGone :
    (id : Text) (now : ℕ) (other : Text) (s : RouteState)
    → IsGone id s
    → IsGone id (expire_tunnel now other s)
unfolding expire_tunnel
expire_tunnel-IsGone id now other s h = elim (Bool-cases (has_socket other s)) [
  | inl e ↦ rw e (extend-IsGone id other now s h)
  | inr e ↦ rw e (
      remove-Holds _ _ _ other expired _ (fail-Holds _ _ _ other (codes "tunnel_disconnected") s h))
]

expire_public-IsGone :
    (id other : Text) (s : RouteState) → IsGone id s → IsGone id (expire_public other s)
unfolding expire_public
expire_public-IsGone id other s h = remove-Holds _ _ _ other expired s h

for_each-IsGone :
    (id : Text) (body : Text → RouteState → RouteState) (ids : List Text) (s : RouteState)
    → ((other : Text) (t : RouteState) → IsGone id t → IsGone id (body other t))
    → IsGone id s
    → IsGone id (for_each body ids s)
for_each-IsGone id body [] s k h = h
for_each-IsGone id body (other ∷ ids) s k h =
    for_each-IsGone id body ids (body other s) k (k other s h)

purge-IsGone :
    (id : Text) (now : ℕ) (s : RouteState) → IsGone id s → IsGone id (purge_expired now s)
unfolding purge_expired purge_rows purge_bindings
purge-IsGone id now s h =
    let first = for_each expire_public (ids_where (expired_public now) s) s in
    let a = purge_rows now s in
    let k =
      for_each-IsGone id (expire_tunnel now) (ids_where (expired_tunnel now) first) first
        (expire_tunnel-IsGone id now)
        (for_each-IsGone id expire_public (ids_where (expired_public now) s) s
          (expire_public-IsGone id) h) in
    sweeps-Holds _ _ _ now (purge_bindings now a)
      (k.0, All-delete_where _ (λ (b : OauthBinding). leb b.expires_at now) a.bindings k.1, k.2)

absent_rows :
    (id : Text) (rows : List SubscriberRow)
    → find (has_id id) rows ≡ none
    → All (λ r. text_eq r.id id ≡ false) rows
absent_rows id [] h = tt
absent_rows id (r ∷ rows) h = elim (Bool-cases (text_eq r.id id)) [
  | inl e ↦ let k = rw e at h in cc
  | inr e ↦ (e, absent_rows id rows (ground arith))
]

absent_any :
    (id : Text) (rows : List SubscriberRow)
    → find (has_id id) rows ≡ none
    → any (has_id id) rows ≡ false
absent_any id [] h = refl
absent_any id (r ∷ rows) h = ground (arith, absent_any id rows)

absent_bindings :
    (id : Text) (rows : List SubscriberRow) (bindings : List OauthBinding)
    → find (has_id id) rows ≡ none
    → HasSubscribers rows bindings
    → All (λ b. text_eq b.subscriber_id id ≡ false) bindings
absent_bindings id rows [] h k = tt
absent_bindings id rows (b ∷ bindings) h k = (
  ground (arith, k.0, text_eq_iff b.subscriber_id id, absent_any id rows h),
  absent_bindings id rows bindings h k.1,
)

remove-IsGone :
    (id : Text) (reason : ConnectionLogReason) (s : RouteState)
    → IsConsistent s
    → All (λ (p : PendingTunnel). text_eq p.subscriber_id id ≡ false) s.pending
    → IsGone id (remove_subscriber_row id reason s)
unfolding remove_subscriber_row queue_connection_log lookup_subscriber
remove-IsGone id reason s v h = elim (Option-cases (find (has_id id) s.rows)) [
  | inl e ↦
      rw (e, remove_subscriber_row)
        (absent_rows id s.rows e, absent_bindings id s.rows s.bindings e v.subscribers, h)
  | inr (row, e) ↦
      rw (e, remove_subscriber_row)
        (
          delete_where-All (has_id id) s.rows,
          delete_where-All (λ (b : OauthBinding). text_eq b.subscriber_id id) s.bindings,
          h,
        )
]

flush_pending : (s : RouteState) → (flush_connection_log s).pending ≡ s.pending
unfolding flush_connection_log
flush_pending s = elim (Bool-cases (is_empty s.pending_connection_log)) [
  | inl e ↦ rw e refl
  | inr e ↦ rw e refl
]

flush_tables :
    (s : RouteState)
    → ((flush_connection_log s).rows ≡ s.rows) × ((flush_connection_log s).bindings ≡ s.bindings)
unfolding flush_connection_log
flush_tables s = elim (Bool-cases (is_empty s.pending_connection_log)) [
  | inl e ↦ rw e (refl, refl)
  | inr e ↦ rw e (refl, refl)
]

sync_pending : (s : RouteState) → (sync_index s).pending ≡ (flush_connection_log s).pending
unfolding sync_index
sync_pending s = elim (Option-cases (flush_connection_log s).route_id) [
  | inl e ↦ rw (e, sync_index) refl
  | inr (r, e) ↦ rw (e, sync_index) refl
]

sync-IsGone : (id : Text) (s : RouteState) → IsGone id s → IsGone id (sync_index s)
sync-IsGone id s h =
    let (r, b) = sync_rows s in
    let (fr, fb) = flush_tables s in rw (r, b, sync_pending s, fr, fb, flush_pending s) h

Member-append_right : {A : Type 0} (x : A) (xs ys : List A) → Member x ys → Member x (xs ++ ys)
Member-append_right x [] ys m = m
Member-append_right x (y ∷ xs) ys m = inr (Member-append_right x xs ys m)

rejected-Member :
    (id error : Text) (p : PendingTunnel) (ps : List PendingTunnel)
    → Member p ps
    → text_eq p.subscriber_id id ≡ true
    → Member (p.promise, failed error) (rejections id error ps)
unfolding rejections
rejected-Member id error p [] m h = m
rejected-Member id error p (q ∷ ps) (inl e) h =
    rw (ap (λ t. text_eq t.subscriber_id id) e ∙ h) (inl (ap (λ t. (t.promise, failed error)) e))
rejected-Member id error p (q ∷ ps) (inr m) h = elim (Bool-cases (text_eq q.subscriber_id id)) [
  | inl e ↦ rw e (inr (rejected-Member id error p ps m h))
  | inr e ↦ rw e (rejected-Member id error p ps m h)
]

-- When a subscriber goes, each request that waits for it is settled with the error, and none waits
-- any longer.
pub fail_pending-settles :
    (id error : Text) (s : RouteState)
    → ((p : PendingTunnel)
        → Member p s.pending
        → text_eq p.subscriber_id id ≡ true
        → Member (p.promise, failed error) (fail_pending_for_subscriber id error s).settled)
      × All
          (λ (p : PendingTunnel). text_eq p.subscriber_id id ≡ false)
          (fail_pending_for_subscriber id error s).pending
unfolding fail_pending_for_subscriber
fail_pending-settles id error s = (
  λ p m h.
      Member-append_right (p.promise, failed error) s.settled (rejections id error s.pending)
        (rejected-Member id error p s.pending m h),
  delete_where-All (λ p. text_eq p.subscriber_id id) s.pending,
)

-- After `deregister` no subscriber has the id, no OAuth binding names it, and no tunnel request
-- waits for it, if the tables were consistent.
pub deregister-IsGone :
    (now : ℕ) (id : Text) (s : RouteState) → IsConsistent s → IsGone id (deregister now id s)
unfolding deregister
deregister-IsGone now id s v =
    let closed = close_sockets id s in
    let error = codes "subscriber_disconnected" in
    let failed_all = fail_pending_for_subscriber id error closed in
    let removed = remove_subscriber_row id deregistered failed_all in
    let purged = purge_expired now removed in
    let w = fail-IsConsistent id error closed (close_sockets-IsConsistent id s v) in
    let gone =
      purge-IsGone id now removed
        (remove-IsGone id deregistered failed_all w (fail_pending-settles id error closed).1) in
    elim (Bool-cases (subscriber_count purged == 0)) [
      | inl e ↦ rw e (sync-IsGone id (record purged { alarm = none }) gone)
      | inr e ↦
          rw e (sync-IsGone id (schedule_cleanup now purged) (unfold schedule_cleanup in gone))
    ]
