-- ===== src/Route/Purge/Sweeps.antt =====
-- The sweeps that `purgeExpired` of durable-object.ts ends with only remove.
use wrangle_webhooks.Tunnel.{tunnel_stale_ms}
use wrangle_webhooks.Route.Inv.Keeps.{expire_stale_tables}
use wrangle_webhooks.Base.{
  leb, Bool-cases, Option-cases, filter, All, Text, codes, text_eq, ℕ, ◌-◌, ◌≡◌, refl, inl, inr,
  Bool, false, List, [], ◌∷◌,
}
use wrangle_webhooks.Base.Sql.{delete_where}
use wrangle_webhooks.Log.Connection.{ConnectionLogReason, socket_closed, is_tunnel}
use wrangle_webhooks.Route.{
  SubscriberRow, OauthBinding, PendingTunnel, RouteState, has_id, live_socket, has_socket,
  lookup_subscriber, queue_connection_log, fail_pending_for_subscriber, remove_subscriber_row,
  close_socket,
}
use wrangle_webhooks.Route.Expiry.{
  has_environment, purge_disconnected, for_each_row, purge_disconnected_tunnels, last_seen,
  expire_stale, expire_stale_tunnels,
}

pub All-delete_where :
    {A : Type 0} (P : A → Type 0) (p : A → Bool) (xs : List A)
    → All P xs
    → All P (delete_where p xs)
All-delete_where P p [] h = tt
All-delete_where P p (x ∷ xs) h = elim (Bool-cases (p x)) [
  | inl e ↦ rw e (All-delete_where P p xs h.1)
  | inr e ↦ rw e (h.0, All-delete_where P p xs h.1)
]

pub delete_where-All :
    {A : Type 0} (p : A → Bool) (xs : List A) → All (λ x. p x ≡ false) (delete_where p xs)
delete_where-All p [] = tt
delete_where-All p (x ∷ xs) = elim (Bool-cases (p x)) [
  | inl e ↦ rw e (delete_where-All p xs)
  | inr e ↦ rw e (e, delete_where-All p xs)
]

expire_stale_pending :
    (now : ℕ) (row : SubscriberRow) (s : RouteState) → (expire_stale now row s).pending ≡ s.pending
unfolding expire_stale close_socket
expire_stale_pending now row s = elim (Option-cases (live_socket row.id s)) [
  | inl e ↦ rw (e, expire_stale) refl
  | inr (ws, e) ↦ elim (Bool-cases (leb (now - last_seen row ws) tunnel_stale_ms)) [
    | inl h ↦ rw (e, h, expire_stale) refl
    | inr h ↦ rw (e, h, expire_stale) refl
  ]
]

-- The sweeps that follow only remove rows, bindings and pending requests.
module _ (P : SubscriberRow → Type 0) (Q : OauthBinding → Type 0) (R : PendingTunnel → Type 0) where
  abbrev pub Holds : RouteState → Type 0
  Holds s = All P s.rows × All Q s.bindings × All R s.pending

  pub fail-Holds :
      (id error : Text) (s : RouteState) → Holds s → Holds (fail_pending_for_subscriber id error s)
  unfolding fail_pending_for_subscriber
  fail-Holds id error s h =
      (h.0, h.1, All-delete_where R (λ p. text_eq p.subscriber_id id) s.pending h.2)

  pub remove-Holds :
      (id : Text) (reason : ConnectionLogReason) (s : RouteState)
      → Holds s
      → Holds (remove_subscriber_row id reason s)
  unfolding remove_subscriber_row queue_connection_log
  remove-Holds id reason s h = elim (Option-cases (lookup_subscriber id s)) [
    | inl e ↦ rw (e, remove_subscriber_row) h
    | inr (row, e) ↦
        rw (e, remove_subscriber_row)
          (
            All-delete_where P (has_id id) s.rows h.0,
            All-delete_where Q (λ b. text_eq b.subscriber_id id) s.bindings h.1,
            h.2,
          )
  ]

  disconnected-Holds :
      (row : SubscriberRow) (s : RouteState) → Holds s → Holds (purge_disconnected row s)
  unfolding purge_disconnected
  disconnected-Holds row s h =
      let error = codes "tunnel_disconnected" in
      elim (Bool-cases (has_socket row.id s)) [
        | inl e ↦ rw e h
        | inr e ↦ elim (Bool-cases (has_environment row)) [
          | inl k ↦ rw (e, k) h
          | inr k ↦
              rw (e, k)
                (remove-Holds row.id socket_closed (fail_pending_for_subscriber row.id error s)
                  (fail-Holds row.id error s h))
        ]
      ]

  sweep-Holds :
      (rows : List SubscriberRow) (s : RouteState)
      → Holds s
      → Holds (for_each_row purge_disconnected rows s)
  sweep-Holds [] s h = h
  sweep-Holds (row ∷ rows) s h =
      sweep-Holds rows (purge_disconnected row s) (disconnected-Holds row s h)

  stale_step :
      (now : ℕ) (row : SubscriberRow) (s : RouteState) → Holds s → Holds (expire_stale now row s)
  stale_step now row s h =
      let (r, b) = expire_stale_tables now row s in rw (r, b, expire_stale_pending now row s) h

  stale-Holds :
      (now : ℕ) (rows : List SubscriberRow) (s : RouteState)
      → Holds s
      → Holds (for_each_row (expire_stale now) rows s)
  stale-Holds now [] s h = h
  stale-Holds now (row ∷ rows) s h =
      stale-Holds now rows (expire_stale now row s) (stale_step now row s h)

  -- Both sweeps, one after the other.
  pub sweeps-Holds :
      (now : ℕ) (s : RouteState)
      → Holds s
      → Holds (expire_stale_tunnels now (purge_disconnected_tunnels s))
  unfolding purge_disconnected_tunnels expire_stale_tunnels
  sweeps-Holds now s h =
      let c = purge_disconnected_tunnels s in
      stale-Holds now (filter (λ (row : SubscriberRow). is_tunnel row.transport) c.rows) c
        (sweep-Holds (filter (λ (row : SubscriberRow). is_tunnel row.transport) s.rows) s h)
