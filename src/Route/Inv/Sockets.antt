-- ===== src/Route/Inv/Sockets.antt =====
-- Closed sockets, tunnel messages and deliveries keep the tables consistent.
use wrangle_webhooks.Base.{
  ltb, Bool-cases, Option-cases, or_else, length, is_empty, Text, codes, text_eq, ℕ, ◌+◌, refl, inl,
  inr, Bool, not, ◌&&◌, ◌||◌, Option, none, some, List, [], ◌∷◌,
}
use wrangle_webhooks.Log.Connection.{ConnectionLogReason, is_tunnel}
use wrangle_webhooks.Tunnel.{
  tunnel_ping, tunnel_pong, tunnel_max_body_bytes, Headers, TunnelRequestMessage, Parsed,
  is_tunnel_heartbeat, is_tunnel_response, is_tunnel_error,
}
use wrangle_webhooks.Fanout.{WebhookFanoutSettings}
use wrangle_webhooks.Oauth.Signed.{SignedOauthState}
use wrangle_webhooks.Route.{
  SubscriberRow, TunnelSocket, PendingTunnel, RouteState, live_socket, lookup_subscriber,
  queue_connection_log, extend_subscriber, fail_pending_for_subscriber, remove_subscriber_row,
  close_socket, schedule_cleanup,
}
use wrangle_webhooks.Route.Expiry.{has_environment, purge_expired}
use wrangle_webhooks.Route.Lifecycle.{
  parked_event, park_or_remove, detach_socket, web_socket_close, web_socket_error,
}
use wrangle_webhooks.Route.Messages.{
  pending_for, forget, settle, await_answer, send_and_wait, tunnel_timeout, answer, receive_parsed,
  web_socket_message, answer_pending,
}
use wrangle_webhooks.Route.Delivery.{
  DeliverySubscriber, IngressPayload, ensure_token, can_deliver, delivery_subscribers,
  webhook_fanout_targets, deliver, deliver_all, fan_out, proxy_oauth, resolve_oauth_subscriber,
}
use wrangle_webhooks.Route.Inv.{IsConsistent, update_where-Consistent}
use wrangle_webhooks.Route.Inv.Keeps.{
  queue-IsConsistent, sync-IsConsistent, schedule-IsConsistent, extend-IsConsistent,
  fail-IsConsistent, remove-IsConsistent, purge-IsConsistent, flush-IsConsistent,
}

park-IsConsistent :
    (now : ℕ) (id : Text) (reason : ConnectionLogReason) (row : Option SubscriberRow)
    (s : RouteState)
    → IsConsistent s
    → IsConsistent (park_or_remove now id reason row s)
unfolding park_or_remove
park-IsConsistent now id reason none s v =
    sync-IsConsistent (remove_subscriber_row id reason s) (remove-IsConsistent id reason s v)
park-IsConsistent now id reason (some row) s v = elim (Bool-cases (has_environment row)) [
  | inl e ↦
      let queued = queue_connection_log (parked_event reason id row s) s in
      let extended = extend_subscriber id now queued in
      rw e (
        sync-IsConsistent (schedule_cleanup now extended) (
          schedule-IsConsistent now extended
            (extend-IsConsistent id now queued (queue-IsConsistent _ s v))))
  | inr e ↦
      rw e
        (sync-IsConsistent (remove_subscriber_row id reason s) (remove-IsConsistent id reason s v))
]

detach-IsConsistent :
    (now : ℕ) (ws : TunnelSocket) (reason : ConnectionLogReason) (s : RouteState)
    → IsConsistent s
    → IsConsistent (detach_socket now ws reason s)
unfolding detach_socket
detach-IsConsistent now ws reason s v =
    let error = codes "tunnel_disconnected" in
    let failed_all = fail_pending_for_subscriber ws.tag error s in
    let w = fail-IsConsistent ws.tag error s v in
    elim (Bool-cases (is_empty ws.tag)) [
      | inl e ↦ rw e v
      | inr e ↦ elim (Bool-cases ws.ignored) [
        | inl k ↦ rw (e, k) w
        | inr k ↦
            rw (e, k)
              (park-IsConsistent now ws.tag reason (lookup_subscriber ws.tag failed_all) failed_all
                w)
      ]
    ]

pub close-IsConsistent :
    (now : ℕ) (ws : TunnelSocket) (code : ℕ) (s : RouteState)
    → IsConsistent s
    → IsConsistent (web_socket_close now ws code s)
unfolding web_socket_close close_socket
close-IsConsistent now ws code s v = detach-IsConsistent now ws _ s v

pub error-IsConsistent :
    (now : ℕ) (ws : TunnelSocket) (s : RouteState)
    → IsConsistent s
    → IsConsistent (web_socket_error now ws s)
unfolding web_socket_error
error-IsConsistent now ws s v = detach-IsConsistent now ws _ s v

pub timeout-IsConsistent :
    (id : Text) (promise : ℕ) (s : RouteState)
    → IsConsistent s
    → IsConsistent (tunnel_timeout id promise s)
unfolding tunnel_timeout settle forget
timeout-IsConsistent id promise s v = v

answer-IsConsistent :
    (id : Text) (parsed : Parsed) (entry : PendingTunnel) (s : RouteState)
    → IsConsistent s
    → IsConsistent (answer id parsed entry s)
unfolding answer settle forget
answer-IsConsistent id parsed entry s v = elim (Bool-cases (is_tunnel_error (some parsed))) [
  | inl e ↦ rw e v
  | inr e ↦ rw e v
]

answered-IsConsistent :
    (id : Text) (parsed : Parsed) (s : RouteState)
    → IsConsistent s
    → IsConsistent (answer_pending id parsed s)
unfolding answer_pending
answered-IsConsistent id parsed s v = elim (Option-cases (pending_for id s)) [
  | inl e ↦ rw (e, answer_pending) v
  | inr (entry, e) ↦ rw (e, answer_pending) (answer-IsConsistent id parsed entry s v)
]

receive-IsConsistent :
    (now : ℕ) (ws : TunnelSocket) (p : Option Parsed) (s : RouteState)
    → IsConsistent s
    → IsConsistent (receive_parsed now ws p s)
unfolding receive_parsed
receive-IsConsistent now ws none s v = v
receive-IsConsistent now ws (some parsed) s v =
    let error = is_tunnel_error (some parsed) in
    let response = is_tunnel_response (some parsed) in
    elim (Bool-cases (is_tunnel_heartbeat (some parsed))) [
      | inl e ↦ elim (Bool-cases (is_empty ws.tag)) [
        | inl k ↦ rw (e, k) v
        | inr k ↦ rw (e, k) (extend-IsConsistent ws.tag now s v)
      ]
      | inr e ↦ elim (Bool-cases (not response && not error)) [
        | inl k ↦ rw (e, k) v
        | inr k ↦ rw (e, k) (answered-IsConsistent (or_else parsed.id []) parsed s v)
      ]
    ]

pub message-IsConsistent :
    (parse_json : Text → Option (Option Parsed)) (now : ℕ) (ws : TunnelSocket) (message : Text)
    (s : RouteState)
    → IsConsistent s
    → IsConsistent (web_socket_message parse_json now ws message s)
unfolding web_socket_message
message-IsConsistent parse_json now ws message s v =
    elim (Bool-cases (text_eq message tunnel_ping || text_eq message tunnel_pong)) [
      | inl e ↦ rw e v
      | inr e ↦ elim (Option-cases (parse_json message)) [
        | inl k ↦ rw (e, k) v
        | inr (parsed, k) ↦ rw (e, k) (receive-IsConsistent now ws parsed s v)
      ]
    ]

send-IsConsistent :
    (sends : ℕ → Bool) (id : Text) (message : TunnelRequestMessage) (s : RouteState)
    → IsConsistent s
    → IsConsistent (send_and_wait sends id message s).0
unfolding send_and_wait await_answer settle forget
send-IsConsistent sends id message s v =
    let started : RouteState = record s { next_promise = s.next_promise + 1 } in
    elim (Option-cases (live_socket id started)) [
      | inl e ↦ rw (e, send_and_wait) v
      | inr (ws, e) ↦ elim (Bool-cases (sends ws.handle)) [
        | inl k ↦ rw (e, k, send_and_wait) v
        | inr k ↦ rw (e, k, send_and_wait) v
      ]
    ]

module _ (build : DeliverySubscriber → IngressPayload → Headers) (sends : ℕ → Bool) where
  pub deliver-IsConsistent :
      (now : ℕ) (payload : IngressPayload) (d : DeliverySubscriber) (s : RouteState)
      → IsConsistent s
      → IsConsistent (deliver build sends now payload d s).0
  unfolding deliver
  deliver-IsConsistent now payload d s v =
      let touched = extend_subscriber d.id now s in
      let w = extend-IsConsistent d.id now s v in
      elim (Bool-cases (is_tunnel d.transport)) [
        | inr e ↦ rw e w
        | inl e ↦ elim (Bool-cases (ltb tunnel_max_body_bytes (length payload.body))) [
          | inl k ↦ rw (e, k) w
          | inr k ↦ rw (e, k) (send-IsConsistent sends d.id _ touched w)
        ]
      ]

  pub deliver_all-IsConsistent :
      (now : ℕ) (payload : IngressPayload) (ds : List DeliverySubscriber) (s : RouteState)
      → IsConsistent s
      → IsConsistent (deliver_all build sends now payload ds s).0
  unfolding deliver_all
  deliver_all-IsConsistent now payload [] s v = v
  deliver_all-IsConsistent now payload (d ∷ ds) s v =
      deliver_all-IsConsistent now payload ds (deliver build sends now payload d s).0
        (deliver-IsConsistent now payload d s v)

  pub delivery-IsConsistent :
      (hex : Text → Text) (now : ℕ) (s : RouteState)
      → IsConsistent s
      → IsConsistent (delivery_subscribers hex now s).0
  unfolding delivery_subscribers ensure_token
  delivery-IsConsistent hex now s v =
      let purged = purge_expired now s in
      update_where-Consistent (can_deliver purged) (ensure_token hex) (λ r _. (refl, refl))
        (purge-IsConsistent now s v)

  pub fan_out-IsConsistent :
      (hex : Text → Text) (now : ℕ) (settings : WebhookFanoutSettings) (payload : IngressPayload)
      (s : RouteState)
      → IsConsistent s
      → IsConsistent (fan_out build sends hex now settings payload s).0
  unfolding fan_out webhook_fanout_targets
  fan_out-IsConsistent hex now settings payload s v =
      deliver_all-IsConsistent now payload _ _ (delivery-IsConsistent hex now s v)

  pub proxy-IsConsistent :
      (unwrap : Text → Option SignedOauthState) (hex : Text → Text) (now later : ℕ)
      (payload : IngressPayload) (s : RouteState)
      → IsConsistent s
      → IsConsistent (proxy_oauth build sends unwrap hex now later payload s).0
  unfolding proxy_oauth
  proxy-IsConsistent unwrap hex now later payload s v =
      let next = (delivery_subscribers hex now s).0 in
      let subscribers = (delivery_subscribers hex now s).1 in
      let w = delivery-IsConsistent hex now s v in
      let flushed = flush-IsConsistent next w in
      let choice = resolve_oauth_subscriber unwrap later payload.oauth_state subscribers next in
      elim (Bool-cases (is_empty subscribers)) [
        | inl e ↦ rw e flushed
        | inr e ↦ elim (Option-cases choice) [
          | inl k ↦ elim (Bool-cases (ltb 1 (length subscribers))) [
            | inl m ↦ rw (e, k, m) flushed
            | inr m ↦ rw (e, k, m) flushed
          ]
          | inr (d, k) ↦
              let large =
                ltb tunnel_max_body_bytes (length payload.body) && is_tunnel d.transport in
              elim (Bool-cases large) [
                | inl m ↦ rw (e, k, m) flushed
                | inr m ↦ rw (e, k, m) (deliver-IsConsistent later payload d next w)
              ]
        ]
      ]
