-- ===== src/Route/Inv/Keeps.antt =====
-- Each operation of a route keeps its tables consistent.
use wrangle_webhooks.Base.{
  leb, Bool-cases, Option-cases, is_empty, Text, ℕ, ◌-◌, ◌≡◌, refl, inl, inr, List, [], ◌∷◌, filter,
}
use wrangle_webhooks.Base.Sql.{delete_where}
use wrangle_webhooks.Log.Connection.{ConnectionLogReason, ConnectionLogEventInput, is_tunnel}
use wrangle_webhooks.Tunnel.{tunnel_stale_ms}
use wrangle_webhooks.Route.{
  SubscriberRow, OauthBinding, RouteState, has_id, live_socket, has_socket, lookup_subscriber,
  queue_connection_log, flush_connection_log, sync_index, extended, extend_subscriber,
  fail_pending_for_subscriber, remove_subscriber_row, close_socket, schedule_cleanup,
}
use wrangle_webhooks.Route.Expiry.{
  for_each, expire_public, expire_tunnel, has_environment, purge_disconnected, for_each_row,
  purge_disconnected_tunnels, last_seen, expire_stale, expire_stale_tunnels, purge_rows,
  purge_bindings, purge_expired, ids_where, expired_public, expired_tunnel,
}
use wrangle_webhooks.Route.Inv.{
  HasSubscribers, IsConsistent, update_where-Consistent, delete_where-Consistent,
}

pub queue-IsConsistent :
    (e : ConnectionLogEventInput) (s : RouteState)
    → IsConsistent s
    → IsConsistent (queue_connection_log e s)
unfolding queue_connection_log
queue-IsConsistent e s v = v

pub flush-IsConsistent : (s : RouteState) → IsConsistent s → IsConsistent (flush_connection_log s)
unfolding flush_connection_log
flush-IsConsistent s v = elim (Bool-cases (is_empty s.pending_connection_log)) [
  | inl e ↦ rw e v
  | inr e ↦ rw e v
]

pub sync_rows :
    (s : RouteState)
    → ((sync_index s).rows ≡ (flush_connection_log s).rows)
      × ((sync_index s).bindings ≡ (flush_connection_log s).bindings)
unfolding sync_index
sync_rows s = elim (Option-cases (flush_connection_log s).route_id) [
  | inl e ↦ rw (e, sync_index) (refl, refl)
  | inr (r, e) ↦ rw (e, sync_index) (refl, refl)
]

pub sync-IsConsistent : (s : RouteState) → IsConsistent s → IsConsistent (sync_index s)
sync-IsConsistent s v = let (r, b) = sync_rows s in rw (r, b) (flush-IsConsistent s v)

pub schedule-IsConsistent :
    (now : ℕ) (s : RouteState) → IsConsistent s → IsConsistent (schedule_cleanup now s)
unfolding schedule_cleanup
schedule-IsConsistent now s v = v

pub extend-IsConsistent :
    (id : Text) (now : ℕ) (s : RouteState)
    → IsConsistent s
    → IsConsistent (extend_subscriber id now s)
unfolding extend_subscriber
extend-IsConsistent id now s v =
    update_where-Consistent (has_id id) (extended now) (λ r _. (refl, refl)) v

pub fail-IsConsistent :
    (id error : Text) (s : RouteState)
    → IsConsistent s
    → IsConsistent (fail_pending_for_subscriber id error s)
unfolding fail_pending_for_subscriber
fail-IsConsistent id error s v = v

pub remove-IsConsistent :
    (id : Text) (reason : ConnectionLogReason) (s : RouteState)
    → IsConsistent s
    → IsConsistent (remove_subscriber_row id reason s)
unfolding remove_subscriber_row queue_connection_log
remove-IsConsistent id reason s v = elim (Option-cases (lookup_subscriber id s)) [
  | inl e ↦ rw (e, remove_subscriber_row) v
  | inr (row, e) ↦ rw (e, remove_subscriber_row) (delete_where-Consistent id v)
]

-- The loops.
for_each-IsConsistent :
    (body : Text → RouteState → RouteState) (ids : List Text) (s : RouteState)
    → ((id : Text) (t : RouteState) → IsConsistent t → IsConsistent (body id t))
    → IsConsistent s
    → IsConsistent (for_each body ids s)
for_each-IsConsistent body [] s k v = v
for_each-IsConsistent body (id ∷ ids) s k v =
    for_each-IsConsistent body ids (body id s) k (k id s v)

for_each_row-IsConsistent :
    (body : SubscriberRow → RouteState → RouteState) (rows : List SubscriberRow) (s : RouteState)
    → ((row : SubscriberRow) (t : RouteState) → IsConsistent t → IsConsistent (body row t))
    → IsConsistent s
    → IsConsistent (for_each_row body rows s)
for_each_row-IsConsistent body [] s k v = v
for_each_row-IsConsistent body (row ∷ rows) s k v =
    for_each_row-IsConsistent body rows (body row s) k (k row s v)

expire_tunnel-IsConsistent :
    (now : ℕ) (id : Text) (s : RouteState) → IsConsistent s → IsConsistent (expire_tunnel now id s)
unfolding expire_tunnel
expire_tunnel-IsConsistent now id s v = elim (Bool-cases (has_socket id s)) [
  | inl e ↦ rw e (extend-IsConsistent id now s v)
  | inr e ↦ rw e (remove-IsConsistent id _ _ (fail-IsConsistent id _ s v))
]

expire_public-IsConsistent :
    (id : Text) (s : RouteState) → IsConsistent s → IsConsistent (expire_public id s)
unfolding expire_public
expire_public-IsConsistent id s v = remove-IsConsistent id _ s v

purge_disconnected-IsConsistent :
    (row : SubscriberRow) (s : RouteState)
    → IsConsistent s
    → IsConsistent (purge_disconnected row s)
unfolding purge_disconnected
purge_disconnected-IsConsistent row s v = elim (Bool-cases (has_socket row.id s)) [
  | inl e ↦ rw e v
  | inr e ↦ elim (Bool-cases (has_environment row)) [
    | inl h ↦ rw (e, h) v
    | inr h ↦ rw (e, h) (remove-IsConsistent row.id _ _ (fail-IsConsistent row.id _ s v))
  ]
]

pub expire_stale_tables :
    (now : ℕ) (row : SubscriberRow) (s : RouteState)
    → ((expire_stale now row s).rows ≡ s.rows) × ((expire_stale now row s).bindings ≡ s.bindings)
unfolding expire_stale close_socket
expire_stale_tables now row s = elim (Option-cases (live_socket row.id s)) [
  | inl e ↦ rw (e, expire_stale) (refl, refl)
  | inr (ws, e) ↦ elim (Bool-cases (leb (now - last_seen row ws) tunnel_stale_ms)) [
    | inl h ↦ rw (e, h, expire_stale) (refl, refl)
    | inr h ↦ rw (e, h, expire_stale) (refl, refl)
  ]
]

expire_stale-IsConsistent :
    (now : ℕ) (row : SubscriberRow) (s : RouteState)
    → IsConsistent s
    → IsConsistent (expire_stale now row s)
expire_stale-IsConsistent now row s v = let (r, b) = expire_stale_tables now row s in rw (r, b) v

pub public_loop-IsConsistent :
    (ids : List Text) (s : RouteState)
    → IsConsistent s
    → IsConsistent (for_each expire_public ids s)
public_loop-IsConsistent ids s v =
    for_each-IsConsistent expire_public ids s expire_public-IsConsistent v

purge_bindings-subscribers :
    (now : ℕ) (rows : List SubscriberRow) (bindings : List OauthBinding)
    → HasSubscribers rows bindings
    → HasSubscribers rows (delete_where (λ b. leb b.expires_at now) bindings)
purge_bindings-subscribers now rows [] h = tt
purge_bindings-subscribers now rows (b ∷ bindings) h = elim (Bool-cases (leb b.expires_at now)) [
  | inl e ↦ rw e (purge_bindings-subscribers now rows bindings h.1)
  | inr e ↦ rw e (h.0, purge_bindings-subscribers now rows bindings h.1)
]

purge_bindings-IsConsistent :
    (now : ℕ) (s : RouteState) → IsConsistent s → IsConsistent (purge_bindings now s)
unfolding purge_bindings
purge_bindings-IsConsistent now s v = record {
  ids = v.ids;
  environments = v.environments;
  subscribers = purge_bindings-subscribers now s.rows s.bindings v.subscribers;
}

pub purge_rows-IsConsistent :
    (now : ℕ) (s : RouteState) → IsConsistent s → IsConsistent (purge_rows now s)
unfolding purge_rows
purge_rows-IsConsistent now s v =
    let first = for_each expire_public (ids_where (expired_public now) s) s in
    for_each-IsConsistent (expire_tunnel now) (ids_where (expired_tunnel now) first) first
      (expire_tunnel-IsConsistent now)
      (for_each-IsConsistent expire_public (ids_where (expired_public now) s) s
        expire_public-IsConsistent v)

sweep-IsConsistent : (s : RouteState) → IsConsistent s → IsConsistent (purge_disconnected_tunnels s)
unfolding purge_disconnected_tunnels
sweep-IsConsistent s v =
    for_each_row-IsConsistent purge_disconnected
      (filter (λ (row : SubscriberRow). is_tunnel row.transport) s.rows) s
      purge_disconnected-IsConsistent v

stale-IsConsistent :
    (now : ℕ) (s : RouteState) → IsConsistent s → IsConsistent (expire_stale_tunnels now s)
unfolding expire_stale_tunnels
stale-IsConsistent now s v =
    for_each_row-IsConsistent (expire_stale now)
      (filter (λ (row : SubscriberRow). is_tunnel row.transport) s.rows) s
      (expire_stale-IsConsistent now) v

pub purge-IsConsistent :
    (now : ℕ) (s : RouteState) → IsConsistent s → IsConsistent (purge_expired now s)
unfolding purge_expired
purge-IsConsistent now s v =
    let a = purge_rows now s in
    let b = purge_bindings now a in
    let c = purge_disconnected_tunnels b in
    stale-IsConsistent now c
      (sweep-IsConsistent b (purge_bindings-IsConsistent now a (purge_rows-IsConsistent now s v)))
