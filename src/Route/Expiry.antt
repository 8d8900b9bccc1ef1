-- ===== src/Route/Expiry.antt =====
-- `purgeExpired` of durable-object.ts and the two sweeps that it ends with.
use wrangle_webhooks.Base.{
  leb, ◌==◌, if◌then◌else◌, is_empty, filter, Text, codes, ℕ, ◌-◌, max, Bool, false, not, ◌&&◌,
  none, some, List, [], ◌∷◌, map,
}
use wrangle_webhooks.Base.Sql.{delete_where}
use wrangle_webhooks.Log.Connection.{socket_closed, expired, is_tunnel}
use wrangle_webhooks.Tunnel.{tunnel_stale_ms}
use wrangle_webhooks.Route.{
  SubscriberRow, OauthBinding, TunnelSocket, RouteState, live_socket, has_socket, extend_subscriber,
  fail_pending_for_subscriber, remove_subscriber_row, close_socket,
}

-- `for (const row of rows) { … }` over the ids that a query returned.
abbrev pub for_each : (Text → RouteState → RouteState) → List Text → RouteState → RouteState
for_each body [] s = s
for_each body (id ∷ ids) s = for_each body ids (body id s)

abbrev pub ids_where : (SubscriberRow → Bool) → RouteState → List Text
ids_where p s = map (λ (row : SubscriberRow). row.id) (filter p s.rows)

abbrev pub is_expired : ℕ → SubscriberRow → Bool
is_expired now row = leb row.expires_at now

abbrev pub expired_public : ℕ → SubscriberRow → Bool
expired_public now row = not (is_tunnel row.transport) && is_expired now row

abbrev pub expired_tunnel : ℕ → SubscriberRow → Bool
expired_tunnel now row = is_tunnel row.transport && is_expired now row

unfoldable pub expire_public : Text → RouteState → RouteState
expire_public id s = remove_subscriber_row id expired s

-- The body of the second loop: a tunnel with a socket is kept.
unfoldable pub expire_tunnel : ℕ → Text → RouteState → RouteState
expire_tunnel now id s =
    if has_socket id s
    then extend_subscriber id now s
    else remove_subscriber_row id expired
        (fail_pending_for_subscriber id (codes "tunnel_disconnected") s)

-- `row.environment_id` as a condition.
abbrev pub has_environment : SubscriberRow → Bool
has_environment row = elim row.environment_id [ none ↦ false | some e ↦ not (is_empty e) ]

-- The body of the loop of `purgeDisconnectedTunnels`, over a row that the query returned.
unfoldable pub purge_disconnected : SubscriberRow → RouteState → RouteState
purge_disconnected row s =
    if has_socket row.id s
    then s
    else if has_environment row
    then s
    else remove_subscriber_row row.id socket_closed
        (fail_pending_for_subscriber row.id (codes "tunnel_disconnected") s)

abbrev pub for_each_row :
    (SubscriberRow → RouteState → RouteState) → List SubscriberRow → RouteState → RouteState
for_each_row body [] s = s
for_each_row body (row ∷ rows) s = for_each_row body rows (body row s)

unfoldable pub purge_disconnected_tunnels : RouteState → RouteState
purge_disconnected_tunnels s =
    for_each_row purge_disconnected
      (filter (λ (row : SubscriberRow). is_tunnel row.transport) s.rows) s

-- The later of the last heartbeat, or the creation, and the last automatic pong.
unfoldable pub last_seen : SubscriberRow → TunnelSocket → ℕ
last_seen row ws =
    let beat = if row.last_heartbeat_at == 0 then row.created_at else row.last_heartbeat_at in
    elim ws.auto_response [ none ↦ beat | some auto ↦ max beat auto ]

unfoldable pub expire_stale : ℕ → SubscriberRow → RouteState → RouteState
expire_stale now row s = elim (live_socket row.id s) [
  | none ↦ s
  | some ws ↦
      if leb (now - last_seen row ws) tunnel_stale_ms then s else close_socket ws.handle 4000 s
]

unfoldable pub expire_stale_tunnels : ℕ → RouteState → RouteState
expire_stale_tunnels now s =
    for_each_row (expire_stale now)
      (filter (λ (row : SubscriberRow). is_tunnel row.transport) s.rows) s

unfoldable pub purge_rows : ℕ → RouteState → RouteState
purge_rows now s =
    let first = for_each expire_public (ids_where (expired_public now) s) s in
    for_each (expire_tunnel now) (ids_where (expired_tunnel now) first) first

unfoldable pub purge_bindings : ℕ → RouteState → RouteState
purge_bindings now s = record s {
  bindings = delete_where (λ (b : OauthBinding). leb b.expires_at now) s.bindings;
}

unfoldable pub purge_expired : ℕ → RouteState → RouteState
purge_expired now s =
    expire_stale_tunnels now (purge_disconnected_tunnels (purge_bindings now (purge_rows now s)))
