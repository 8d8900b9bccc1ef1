-- ===== src/Route/Delivery.antt =====
-- Fan-out and OAuth proxying of durable-object.ts. The settings come from the router index, and
-- the public fetch and the answers of tunnels come later: `deliver` says what was started.
use wrangle_webhooks.Base.{
  ltb, if◌then◌else◌, is_some, or_else, length, is_empty, filter, find, Text, codes, text_eq,
  or_text, ℕ, Bool, false, not, ◌&&◌, ◌||◌, Option, none, some, List, [], ◌∷◌, ◌++◌, map,
}
use wrangle_webhooks.Base.Sql.{update_where}
use wrangle_webhooks.Log.Connection.{SubscriberTransport, is_tunnel}
use wrangle_webhooks.Fanout.{
  WebhookFanoutSubscriber, WebhookFanoutSettings, select_webhook_fanout_subscribers,
}
use wrangle_webhooks.Oauth.{truthy}
use wrangle_webhooks.Oauth.Signed.{JsonValue, missing, num, str, SignedOauthState}
use wrangle_webhooks.Tunnel.{tunnel_max_body_bytes, Headers, TunnelRequestMessage}
use wrangle_webhooks.Route.{
  SubscriberRow, OauthBinding, RouteState, live_socket, route_or_root, flush_connection_log,
  extend_subscriber,
}
use wrangle_webhooks.Route.Expiry.{purge_expired}
use wrangle_webhooks.Route.Lifecycle.{by_creation}
use wrangle_webhooks.Route.Messages.{send_and_wait}

pub record DeliverySubscriber : Type 0 where
  pub id : Text
  pub transport : SubscriberTransport
  pub target_base_url : Text
  pub forward_token : Text
  pub environment_id : Option Text
  pub accept_webhooks : Bool

-- The body is kept as its bytes.
pub record IngressPayload : Type 0 where
  pub remaining_path : Text
  pub search : Text
  pub method : Text
  pub header_pairs : Headers
  pub body : List ℕ
  pub request_id : Text
  pub public_host : Text
  pub public_proto : Text
  pub client_ip : Option Text
  pub oauth_state : Option Text

-- `ensureForwardToken`: `hex` is what `randomHex(18)` returns for the row.
unfoldable pub ensure_token : (Text → Text) → SubscriberRow → SubscriberRow
ensure_token hex row = record row {
  forward_token = or_text row.forward_token (codes "ft_" ++ hex row.id);
}

abbrev pub can_deliver : RouteState → SubscriberRow → Bool
can_deliver s row = not (is_tunnel row.transport) || is_some (live_socket row.id s)

unfoldable pub to_delivery : (Text → Text) → SubscriberRow → DeliverySubscriber
to_delivery hex row = record {
  id = row.id;
  transport = row.transport;
  target_base_url = row.target_base_url;
  forward_token = (ensure_token hex row).forward_token;
  environment_id = row.environment_id;
  accept_webhooks = row.accept_webhooks;
}

-- The rows that are delivered to are given a forward token where they had none.
unfoldable pub delivery_subscribers :
    (Text → Text) → ℕ → RouteState → RouteState × List DeliverySubscriber
delivery_subscribers hex now s =
    let purged = purge_expired now s in
    let chosen = filter (can_deliver purged) (by_creation purged.rows) in
    (
      record purged { rows = update_where (can_deliver purged) (ensure_token hex) purged.rows },
      map (to_delivery hex) chosen,
    )

abbrev pub fanout_view : DeliverySubscriber → WebhookFanoutSubscriber
fanout_view d = record {
  id = d.id;
  environment_id = d.environment_id;
  accept_webhooks = d.accept_webhooks;
}

unfoldable pub webhook_fanout_targets :
    (Text → Text)
    → ℕ
    → Text
    → WebhookFanoutSettings
    → RouteState
    → RouteState × List DeliverySubscriber
webhook_fanout_targets hex now remaining_path settings s =
    let (next, subscribers) = delivery_subscribers hex now s in
    (next, select_webhook_fanout_subscribers fanout_view subscribers remaining_path settings)

unfoldable pub count_webhook_fanout_deliveries :
    (Text → Text) → ℕ → Text → WebhookFanoutSettings → RouteState → RouteState × ℕ
count_webhook_fanout_deliveries hex now remaining_path settings s =
    let (next, targets) = webhook_fanout_targets hex now remaining_path settings s in
    (next, length targets)

-- What `deliver` has started for a subscriber: a fetch of its public target, a wait for the promise
-- of a tunnel request, or nothing, the body being too large for the tunnel.
pub data Started : Type 0 where
  fetching : DeliverySubscriber → Started
  waiting : ℕ → Started
  request_too_large : Started

-- `build` makes the headers that are forwarded to a subscriber.
module _ (build : DeliverySubscriber → IngressPayload → Headers) (sends : ℕ → Bool) where
  unfoldable pub deliver :
      ℕ → IngressPayload → DeliverySubscriber → RouteState → RouteState × Started
  deliver now payload subscriber s =
      let touched = extend_subscriber subscriber.id now s in
      let message : TunnelRequestMessage = record {
        id = payload.request_id;
        method = payload.method;
        path = payload.remaining_path;
        search = payload.search;
        headers = build subscriber payload;
        body = payload.body;
      } in
      let (sent, promise) = send_and_wait sends subscriber.id message touched in
      if is_tunnel subscriber.transport
      then if ltb tunnel_max_body_bytes (length payload.body)
        then (touched, request_too_large)
        else (sent, waiting promise)
      else (touched, fetching subscriber)

  unfoldable pub deliver_all :
      ℕ → IngressPayload → List DeliverySubscriber → RouteState → RouteState × List Started
  deliver_all now payload [] s = (s, [])
  deliver_all now payload (d ∷ ds) s =
      let (next, started) = deliver now payload d s in
      let (last, rest) = deliver_all now payload ds next in (last, started ∷ rest)

  -- `fanOut` up to the wait for all deliveries, after which it flushes the log.
  unfoldable pub fan_out :
      (Text → Text)
      → ℕ
      → WebhookFanoutSettings
      → IngressPayload
      → RouteState
      → RouteState × List Started
  fan_out hex now settings payload s =
      let (next, targets) = webhook_fanout_targets hex now payload.remaining_path settings s in
      deliver_all now payload targets next

-- `signed.sub === id`
abbrev pub is_text : JsonValue → Text → Bool
is_text (str s) t = text_eq s t
is_text (num n) t = false
is_text missing t = false

abbrev pub by_id : Text → List DeliverySubscriber → Option DeliverySubscriber
by_id id = find (λ (d : DeliverySubscriber). text_eq d.id id)

-- The only subscriber, if there is exactly one.
abbrev pub only : List DeliverySubscriber → Option DeliverySubscriber
only [] = none
only (d ∷ []) = some d
only (d ∷ e ∷ rest) = none

-- `SELECT … WHERE state = ? AND expires_at > ?`
abbrev pub binding_for : ℕ → Text → RouteState → Option OauthBinding
binding_for now state s =
    find (λ (b : OauthBinding). text_eq b.state state && ltb now b.expires_at) s.bindings

-- The subscriber that a signed state names, if the state is of this route.
unfoldable pub signed_subscriber :
    SignedOauthState → List DeliverySubscriber → RouteState → Option DeliverySubscriber
signed_subscriber signed subscribers s =
    if is_some s.route_id && not (is_text signed.route (route_or_root s))
    then none
    else find (λ (d : DeliverySubscriber). is_text signed.sub d.id) subscribers

-- `unwrap` is `unwrapOAuthStateForRoute` with the secrets of this route; it returns null where no
-- operator secret is configured.
module _ (unwrap : Text → Option SignedOauthState) where
  unfoldable pub resolve_oauth_subscriber :
      ℕ → Option Text → List DeliverySubscriber → RouteState → Option DeliverySubscriber
  resolve_oauth_subscriber now state subscribers s =
      let given = or_else state [] in
      if truthy state
      then elim (unwrap given) [
        | some signed ↦ signed_subscriber signed subscribers s
        | none ↦ elim (binding_for now given s) [
          | some found ↦ by_id found.subscriber_id subscribers
          | none ↦ only subscribers
        ]
      ]
      else only subscribers

pub data ProxyStart : Type 0 where
  proxy_error : ℕ → Text → ProxyStart
  started_with : DeliverySubscriber → Started → ProxyStart

module _ (build : DeliverySubscriber → IngressPayload → Headers) (sends : ℕ → Bool)
    (unwrap : Text → Option SignedOauthState) where
  -- `proxyOAuth` up to the wait for the subscriber: `now` is the time of the purge, and `later`
  -- that of the lookup of the binding and of the delivery, after the digest was awaited.
  unfoldable pub proxy_oauth :
      (Text → Text) → ℕ → ℕ → IngressPayload → RouteState → RouteState × ProxyStart
  proxy_oauth hex now later payload s =
      let (next, subscribers) = delivery_subscribers hex now s in
      let flushed = flush_connection_log next in
      if is_empty subscribers
      then (flushed, proxy_error 404 (codes "route_not_found"))
      else elim (resolve_oauth_subscriber unwrap later payload.oauth_state subscribers next) [
        | none ↦
            if ltb 1 (length subscribers)
            then (flushed, proxy_error 409 (codes "oauth_unroutable"))
            else (flushed, proxy_error 404 (codes "oauth_subscriber_not_found"))
        | some matched ↦
            let (delivered, started) = deliver build sends later payload matched next in
            if ltb tunnel_max_body_bytes (length payload.body) && is_tunnel matched.transport
            then (flushed, proxy_error 413 (codes "request_too_large"))
            else (delivered, started_with matched started)
      ]
