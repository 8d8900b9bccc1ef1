-- ===== src/Route/Answers.antt =====
-- Answers on a tunnel: `webSocketMessage` and `sendAndWait` of durable-object.ts.
use wrangle_webhooks.Base.{
  Bool-cases, Option-cases, or_else, is_empty, find, Text, text_eq, ℕ, ◌≡◌, refl, ap, inl, inr,
  Bool, not, ◌&&◌, ◌||◌, Option, none, some, List, [], ◌∷◌, sym, ◌∙◌,
}
use wrangle_webhooks.Base.Sql.{delete_where, update_where}
use wrangle_webhooks.Tunnel.{
  tunnel_ping, tunnel_pong, Parsed, is_tunnel_heartbeat, is_tunnel_response, is_tunnel_error,
}
use wrangle_webhooks.Route.{
  SubscriberRow, TunnelSocket, PendingTunnel, RouteState, has_id, extended, extend_subscriber,
}
use wrangle_webhooks.Route.Messages.{
  has_key, pending_for, forget, settle, answer, receive_parsed, web_socket_message, answer_pending,
}

find-delete_where :
    (p : PendingTunnel → Bool) (ps : List PendingTunnel) → find p (delete_where p ps) ≡ none
find-delete_where p [] = refl
find-delete_where p (x ∷ ps) = elim (Bool-cases (p x)) [
  | inl e ↦ rw e (find-delete_where p ps)
  | inr e ↦ rw (e, e) (find-delete_where p ps)
]

answer_forgets :
    (id : Text) (parsed : Parsed) (entry : PendingTunnel) (s : RouteState)
    → pending_for id (answer id parsed entry s) ≡ none
unfolding answer settle forget
answer_forgets id parsed entry s = elim (Bool-cases (is_tunnel_error (some parsed))) [
  | inl e ↦ rw e (find-delete_where (has_key id) s.pending)
  | inr e ↦ rw e (find-delete_where (has_key id) s.pending)
]

extend_twice :
    (p : SubscriberRow → Bool) (now : ℕ) (rows : List SubscriberRow)
    → ((r : SubscriberRow) → p (extended now r) ≡ p r)
    → update_where p (extended now) (update_where p (extended now) rows)
      ≡ update_where p (extended now) rows
extend_twice p now [] k = refl
extend_twice p now (r ∷ rows) k = elim (Bool-cases (p r)) [
  | inl e ↦ rw (e, k r, e) (ap (λ l. extended now r ∷ l) (extend_twice p now rows k))
  | inr e ↦ rw (e, e) (ap (λ l. r ∷ l) (extend_twice p now rows k))
]

extend_idem :
    (id : Text) (now : ℕ) (s : RouteState)
    → extend_subscriber id now (extend_subscriber id now s) ≡ extend_subscriber id now s
unfolding extend_subscriber
extend_idem id now s =
    ap (λ l. record s { rows = l }) (extend_twice (has_id id) now s.rows (λ r. refl))

answered_none :
    (id : Text) (parsed : Parsed) (s : RouteState)
    → pending_for id s ≡ none
    → answer_pending id parsed s ≡ s
unfolding answer_pending
answered_none id parsed s e = rw (e, answer_pending) refl

answered_some :
    (id : Text) (parsed : Parsed) (entry : PendingTunnel) (s : RouteState)
    → pending_for id s ≡ some entry
    → answer_pending id parsed s ≡ answer id parsed entry s
unfolding answer_pending
answered_some id parsed entry s e = rw (e, answer_pending) refl

IsIdempotent : (RouteState → RouteState) → Type 0
IsIdempotent f = (s : RouteState) → f (f s) ≡ f s

IsIdempotent-along :
    (f g : RouteState → RouteState)
    → ((s : RouteState) → f s ≡ g s)
    → IsIdempotent g
    → IsIdempotent f
unfolding IsIdempotent
IsIdempotent-along f g e h s = e (f s) ∙ ap g (e s) ∙ h s ∙ sym (e s)

IsIdempotent-id : (f : RouteState → RouteState) → ((s : RouteState) → f s ≡ s) → IsIdempotent f
unfolding IsIdempotent
IsIdempotent-id f e s = e (f s)

answered_idem : (id : Text) (parsed : Parsed) → IsIdempotent (answer_pending id parsed)
unfolding IsIdempotent
answered_idem id parsed s = elim (Option-cases (pending_for id s)) [
  | inl e ↦
      answered_none id parsed (answer_pending id parsed s) (rw (answered_none id parsed s e) e)
  | inr (entry, e) ↦
      answered_none id parsed (answer_pending id parsed s)
        (rw (answered_some id parsed entry s e) (answer_forgets id parsed entry s))
]

extend_once : (id : Text) (now : ℕ) → IsIdempotent (extend_subscriber id now)
unfolding IsIdempotent
extend_once id now s = extend_idem id now s

receive_idem :
    (now : ℕ) (ws : TunnelSocket) (p : Option Parsed) → IsIdempotent (receive_parsed now ws p)
unfolding receive_parsed
receive_idem now ws none = IsIdempotent-id (receive_parsed now ws none) (λ s. refl)
receive_idem now ws (some parsed) =
    let f = receive_parsed now ws (some parsed) in
    let error = is_tunnel_error (some parsed) in
    let response = is_tunnel_response (some parsed) in
    elim (Bool-cases (is_tunnel_heartbeat (some parsed))) [
      | inl e ↦ elim (Bool-cases (is_empty ws.tag)) [
        | inl k ↦ IsIdempotent-id f (λ s. rw (e, k, receive_parsed) refl)
        | inr k ↦
            IsIdempotent-along f (extend_subscriber ws.tag now)
              (λ s. rw (e, k, receive_parsed) refl) (extend_once ws.tag now)
      ]
      | inr e ↦ elim (Bool-cases (not response && not error)) [
        | inl k ↦ IsIdempotent-id f (λ s. rw (e, k, receive_parsed) refl)
        | inr k ↦
            IsIdempotent-along f (answer_pending (or_else parsed.id []) parsed)
              (λ s. rw (e, k, receive_parsed) refl) (answered_idem (or_else parsed.id []) parsed)
      ]
    ]

message_idem :
    (parse_json : Text → Option (Option Parsed)) (now : ℕ) (ws : TunnelSocket) (message : Text)
    → IsIdempotent (web_socket_message parse_json now ws message)
unfolding web_socket_message
message_idem parse_json now ws message =
    let f = web_socket_message parse_json now ws message in
    elim (Bool-cases (text_eq message tunnel_ping || text_eq message tunnel_pong)) [
      | inl e ↦ IsIdempotent-id f (λ s. rw (e, web_socket_message) refl)
      | inr e ↦ elim (Option-cases (parse_json message)) [
        | inl k ↦ IsIdempotent-id f (λ s. rw (e, k, web_socket_message) refl)
        | inr (parsed, k) ↦
            IsIdempotent-along f (receive_parsed now ws parsed)
              (λ s. rw (e, k, web_socket_message) refl) (receive_idem now ws parsed)
      ]
    ]

-- A message that is received a second time at the same time changes nothing: no request is settled
-- twice by it, and no term is extended further.
pub web_socket_message_idem :
    (parse_json : Text → Option (Option Parsed)) (now : ℕ) (ws : TunnelSocket) (message : Text)
    (s : RouteState)
    → web_socket_message parse_json now ws message (web_socket_message parse_json now ws message s)
      ≡ web_socket_message parse_json now ws message s
unfolding IsIdempotent
web_socket_message_idem parse_json now ws message s = message_idem parse_json now ws message s
