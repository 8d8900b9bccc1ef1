-- ===== src/Route/Purge/Kept.antt =====
-- What a purge may not take.
use wrangle_webhooks.Base.{
  Bool-cases, filter, any, Member, Text, codes, text_eq, ℕ, ◌<◌, ◌≡◌, refl, sym, ap, subst, ◌∙◌,
  inl, inr, Bool, false, List, [], ◌∷◌, arith,
}
use wrangle_webhooks.Base.Sql.{delete_where, update_where}
use wrangle_webhooks.Base.TextLaws.{text_eq_iff}
use wrangle_webhooks.Log.Connection.{socket_closed, expired, is_tunnel}
use wrangle_webhooks.Route.{
  SubscriberRow, RouteState, has_id, has_socket, extended, extend_subscriber,
  fail_pending_for_subscriber, remove_subscriber_row,
}
use wrangle_webhooks.Route.Expiry.{
  for_each, ids_where, expired_public, expired_tunnel, expire_public, expire_tunnel,
  has_environment, purge_disconnected, for_each_row, purge_disconnected_tunnels, expire_stale,
  expire_stale_tunnels, purge_rows, purge_bindings, purge_expired,
}
use wrangle_webhooks.Route.Inv.{HasDistinctIds, IsConsistent}
use wrangle_webhooks.Route.Inv.Keeps.{
  expire_stale_tables, public_loop-IsConsistent, purge_rows-IsConsistent,
}
use wrangle_webhooks.Route.Purge.{remove-rows, ids_of}

-- The list of ids does not have this one.
abbrev IsAbsent : Text → List Text → Type 0
IsAbsent id ids = any (text_eq id) ids ≡ false

IsAbsent-no_row :
    (q : SubscriberRow → Bool) (id : Text) (rows : List SubscriberRow)
    → any (has_id id) rows ≡ false
    → IsAbsent id (ids_of (filter q rows))
IsAbsent-no_row q id [] h = refl
IsAbsent-no_row q id (x ∷ rows) h =
    ground (arith, IsAbsent-no_row q id rows, text_eq_iff x.id id, text_eq_iff id x.id)

other_id :
    (x r : SubscriberRow) (rows : List SubscriberRow)
    → any (has_id x.id) rows ≡ false
    → Member r rows
    → text_eq r.id x.id ≡ false
other_id x r [] h m = absurd m
other_id x r (y ∷ rows) h (inl e) = ap (λ t. text_eq t.id x.id) (sym e) ∙ ground arith
other_id x r (y ∷ rows) h (inr m) = other_id x r rows (ground arith) m

-- A query that a row does not satisfy does not return its id.
ids_avoid :
    (q : SubscriberRow → Bool) (r : SubscriberRow) (rows : List SubscriberRow)
    → HasDistinctIds rows
    → Member r rows
    → q r ≡ false
    → IsAbsent r.id (ids_of (filter q rows))
ids_avoid q r [] d m h = absurd m
ids_avoid q r (x ∷ rows) d (inl e) h =
    let skip : q x ≡ false = ap q e ∙ h in
    rw skip
      (subst (λ t. IsAbsent t.id (ids_of (filter q rows))) e (IsAbsent-no_row q x.id rows d.0))
ids_avoid q r (x ∷ rows) d (inr m) h =
    let other = other_id x r rows d.0 m in ground (arith, ids_avoid q r rows d.1 m h)

Member-delete_other :
    (id : Text) (r : SubscriberRow) (rows : List SubscriberRow)
    → text_eq r.id id ≡ false
    → Member r rows
    → Member r (delete_where (has_id id) rows)
Member-delete_other id r [] h m = absurd m
Member-delete_other id r (x ∷ rows) h (inl e) =
    let keep : text_eq x.id id ≡ false = ap (λ t. text_eq t.id id) e ∙ h in rw keep (inl e)
Member-delete_other id r (x ∷ rows) h (inr m) = elim (Bool-cases (text_eq x.id id)) [
  | inl e ↦ rw e (Member-delete_other id r rows h m)
  | inr e ↦ rw e (inr (Member-delete_other id r rows h m))
]

Member-update_other :
    (id : Text) (f : SubscriberRow → SubscriberRow) (r : SubscriberRow) (rows : List SubscriberRow)
    → text_eq r.id id ≡ false
    → Member r rows
    → Member r (update_where (has_id id) f rows)
Member-update_other id f r [] h m = absurd m
Member-update_other id f r (x ∷ rows) h (inl e) =
    let keep : text_eq x.id id ≡ false = ap (λ t. text_eq t.id id) e ∙ h in rw keep (inl e)
Member-update_other id f r (x ∷ rows) h (inr m) = inr (Member-update_other id f r rows h m)

public_loop-Member :
    (r : SubscriberRow) (ids : List Text) (s : RouteState)
    → IsAbsent r.id ids
    → Member r s.rows
    → Member r (for_each expire_public ids s).rows
unfolding expire_public
public_loop-Member r [] s h m = m
public_loop-Member r (id ∷ ids) s h m =
    public_loop-Member r ids (remove_subscriber_row id expired s) (ground arith)
      (rw (remove-rows id expired s) (Member-delete_other id r s.rows (ground arith) m))

expire_tunnel-Member :
    (r : SubscriberRow) (now : ℕ) (id : Text) (s : RouteState)
    → text_eq r.id id ≡ false
    → Member r s.rows
    → Member r (expire_tunnel now id s).rows
unfolding expire_tunnel extend_subscriber fail_pending_for_subscriber
expire_tunnel-Member r now id s h m = elim (Bool-cases (has_socket id s)) [
  | inl e ↦ rw e (Member-update_other id (extended now) r s.rows h m)
  | inr e ↦
      rw
        (e, remove-rows id expired (fail_pending_for_subscriber id (codes "tunnel_disconnected") s))
        (Member-delete_other id r s.rows h m)
]

tunnel_loop-Member :
    (r : SubscriberRow) (now : ℕ) (ids : List Text) (s : RouteState)
    → IsAbsent r.id ids
    → Member r s.rows
    → Member r (for_each (expire_tunnel now) ids s).rows
tunnel_loop-Member r now [] s h m = m
tunnel_loop-Member r now (id ∷ ids) s h m =
    tunnel_loop-Member r now ids (expire_tunnel now id s) (ground arith)
      (expire_tunnel-Member r now id s (ground arith) m)

disconnected-Member :
    (r row : SubscriberRow) (s : RouteState)
    → text_eq r.id row.id ≡ false
    → Member r s.rows
    → Member r (purge_disconnected row s).rows
unfolding purge_disconnected fail_pending_for_subscriber
disconnected-Member r row s h m = elim (Bool-cases (has_socket row.id s)) [
  | inl e ↦ rw e m
  | inr e ↦ elim (Bool-cases (has_environment row)) [
    | inl k ↦ rw (e, k) m
    | inr k ↦
        let error = codes "tunnel_disconnected" in
        rw (e, k, remove-rows row.id socket_closed (fail_pending_for_subscriber row.id error s))
          (Member-delete_other row.id r s.rows h m)
  ]
]

sweep-Member :
    (r : SubscriberRow) (rows : List SubscriberRow) (s : RouteState)
    → IsAbsent r.id (ids_of rows)
    → Member r s.rows
    → Member r (for_each_row purge_disconnected rows s).rows
sweep-Member r [] s h m = m
sweep-Member r (row ∷ rows) s h m =
    sweep-Member r rows (purge_disconnected row s) (ground arith)
      (disconnected-Member r row s (ground arith) m)

stale-Member :
    (r : SubscriberRow) (now : ℕ) (rows : List SubscriberRow) (s : RouteState)
    → Member r s.rows
    → Member r (for_each_row (expire_stale now) rows s).rows
stale-Member r now [] s m = m
stale-Member r now (row ∷ rows) s m =
    stale-Member r now rows (expire_stale now row s) (rw (expire_stale_tables now row s).0 m)

-- A public subscriber whose term has not ended is still there after a purge, unchanged, if the
-- tables were consistent.
pub purge_expired-keeps :
    (now : ℕ) (r : SubscriberRow) (s : RouteState)
    → IsConsistent s
    → Member r s.rows
    → is_tunnel r.transport ≡ false
    → now < r.expires_at
    → Member r (purge_expired now s).rows
unfolding purge_expired purge_rows purge_bindings purge_disconnected_tunnels expire_stale_tunnels
purge_expired-keeps now r s v m public later =
    let ids = ids_where (expired_public now) s in
    let first = for_each expire_public ids s in
    let w = public_loop-IsConsistent ids s v in
    let n : Member r first.rows =
      public_loop-Member r ids s (ids_avoid (expired_public now) r s.rows v.ids m (ground arith))
        m in
    let a = purge_rows now s in
    let k : Member r a.rows =
      tunnel_loop-Member r now (ids_where (expired_tunnel now) first) first
        (ids_avoid (expired_tunnel now) r first.rows w.ids n (ground arith)) n in
    let b = purge_bindings now a in
    let tunnels = filter (λ (row : SubscriberRow). is_tunnel row.transport) b.rows in
    let c = purge_disconnected_tunnels b in
    stale-Member r now (filter (λ (row : SubscriberRow). is_tunnel row.transport) c.rows) c (
      sweep-Member r tunnels b
        (ids_avoid (λ (row : SubscriberRow). is_tunnel row.transport) r b.rows
          (purge_rows-IsConsistent now s v).ids k public)
        k)
