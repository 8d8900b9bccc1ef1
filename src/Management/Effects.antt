-- ===== src/Management/Effects.antt =====
-- What `handleManagement` may change: one route's object, and settings only for the operator.

use wrangle_webhooks.Management.Dispatch.{
  Endpoint, tunnel, callback_paths, fanout_settings, fanout_rules, mint, subscribers, heartbeat,
  oauth_states, subscriber, perform,
}
use wrangle_webhooks.Base.{
  Bool-cases, Option-cases, or_else, is_empty, Text, codes, text_eq, to_lower, inl, inr, not, ◌&&◌,
  Option, none, some, [],
}
use wrangle_webhooks.Secrets.{match_join_credential}
use wrangle_webhooks.Path.RouteId.{is_allowed_route_id, is_allowed_environment_id}
use wrangle_webhooks.TargetBaseUrl.{Target, valid, invalid, validate_target_base_url}
use wrangle_webhooks.Tunnel.{route_id_from_tunnel_path}
use wrangle_webhooks.Oauth.{truthy}
use wrangle_webhooks.Index.{put_route, delete_route}
use wrangle_webhooks.Route.{RouteState}
use wrangle_webhooks.Route.Lifecycle.{
  deregister, bind_oauth_state, get_active_subscribers, heartbeat as beat,
}
use wrangle_webhooks.Route.Attach.{Attached, attached, environment_taken, threw}
use wrangle_webhooks.Route.Attach.Connect.{upgraded, upgrade, register, connect_tunnel}
use wrangle_webhooks.Ingress.Handler.{World}
use wrangle_webhooks.Management.Subscribers.{
  upgrade_of, is_no_tunnel, handle_tunnel, finish_subscriber, options_of, register_target,
  register_subscriber, heartbeat_subscriber, bind_subscriber_state, deregister_subscriber,
}
use wrangle_webhooks.Management.Settings.{
  handle_oauth_callback_paths, handle_webhook_fanout_settings, handle_webhook_fanout_rules,
}
use wrangle_webhooks.Management.{
  Json, text_property, ManagementRequest, Env, Answer, at_route, read_management_secret,
  record_rejected_join, authorize_join, authorize_subscriber, unless_denied,
}
pub mod Local
pub mod OperatorOnly

-- A property of worlds that methods of the route and changes of the index's routes keep is kept by
-- the operations on subscribers.
module _ (env : Env) (request : ManagementRequest) (route : Text) (P : World → Type 0)
    (keep_method : (R : Type 0) (m : RouteState → RouteState × R) (v : World)
      → P v
      → P (at_route env route m v).0)
    (keep_put : (v : World) → P v → P (record v { index = put_route route env.now v.index }))
    (keep_log : (v : World) → P v → P (record_rejected_join env request route v))
    (keep_delete : (v : World) → P v → P (record v { index = delete_route route v.index })) where
  finish-keeps :
      (v : World) (result : Attached) → P v → P (finish_subscriber env route (v, result)).0
  unfolding finish_subscriber
  finish-keeps v environment_taken h = h
  finish-keeps v threw h = h
  finish-keeps v (attached id forward token) h = keep_put v h

  target-keeps :
      (payload : Json) (target : Target) (w : World)
      → P w
      → P (register_target env request route payload target w).0
  unfolding register_target
  target-keeps payload (invalid message) w h = h
  target-keeps payload (valid url) w h =
      let environment = text_property (codes "environmentId") payload in
      elim (Bool-cases
        (truthy environment && not (is_allowed_environment_id (or_else environment [])))) [
          | inl e ↦ rw e h
          | inr e ↦
              let m =
                register env.sha256 env.fresh env.now route (options_of request payload url) in
              rw e (
                finish-keeps (at_route env route m w).0 (at_route env route m w).1
                  (keep_method _ m w h))
        ]

  register-keeps : (w : World) → P w → P (register_subscriber env request route w).0
  unfolding register_subscriber
  register-keeps w h = elim (Bool-cases (is_allowed_route_id route)) [
    | inr a ↦ rw a h
    | inl a ↦ elim (Option-cases request.body) [
      | inl e ↦ rw (a, e) h
      | inr (payload, e) ↦
          let target = or_else (text_property (codes "targetBaseUrl") payload) [] in
          elim (Bool-cases (is_empty target)) [
            | inl t ↦ rw (a, e, t) h
            | inr t ↦
                rw (a, e, t)
                  (target-keeps payload (validate_target_base_url env.parse_url target) w h)
          ]
    ]
  ]

  heartbeat-keeps : (id : Text) (w : World) → P w → P (heartbeat_subscriber env route id w).0
  unfolding heartbeat_subscriber
  heartbeat-keeps id w h = elim (Bool-cases (is_allowed_route_id route)) [
    | inl a ↦ rw a (keep_method _ (beat env.now id) w h)
    | inr a ↦ rw a h
  ]

  bind-keeps : (id : Text) (w : World) → P w → P (bind_subscriber_state env request route id w).0
  unfolding bind_subscriber_state
  bind-keeps id w h = elim (Bool-cases (is_allowed_route_id route)) [
    | inr a ↦ rw a h
    | inl a ↦ elim (Option-cases request.body) [
      | inl e ↦ rw (a, e) h
      | inr (payload, e) ↦
          let state = or_else (text_property (codes "state") payload) [] in
          rw (a, e) (keep_method _ (bind_oauth_state env.now id state) w h)
    ]
  ]

  deregister-keeps : (id : Text) (w : World) → P w → P (deregister_subscriber env route id w).0
  unfolding deregister_subscriber
  deregister-keeps id w h =
      let removal : RouteState → RouteState × Unit {0} = λ s. (deregister env.now id s, tt) in
      let gone = (at_route {0} env route removal w).0 in
      let next = at_route env route (get_active_subscribers env.now) gone in
      let kept = keep_method _ (get_active_subscribers env.now) gone (keep_method _ removal w h) in
      elim (Bool-cases (is_allowed_route_id route)) [
        | inr a ↦ rw a h
        | inl a ↦ elim (Bool-cases (is_empty next.1)) [
          | inl e ↦ rw (a, e) (keep_delete next.0 kept)
          | inr e ↦ rw (a, e) kept
        ]
      ]

  tunnel-keeps : (w : World) → P w → P (handle_tunnel env request route w).0
  unfolding handle_tunnel
  tunnel-keeps w h =
      let upgraded = connect_tunnel env.sha256 env.fresh env.now (upgrade_of request) in
      elim (Bool-cases (is_allowed_route_id route)) [
        | inr a ↦ rw a h
        | inl a ↦
            elim (Bool-cases
              (text_eq (to_lower (or_else request.upgrade [])) (codes "websocket"))) [
                | inr b ↦ rw (a, b) h
                | inl b ↦
                    elim (Bool-cases (is_no_tunnel (route_id_from_tunnel_path request.pathname))) [
                      | inl c ↦ rw (a, b, c) h
                      | inr c ↦ rw (a, b, c) (keep_method _ upgraded w h)
                    ]
              ]
      ]

  denial-keeps :
      (denied : Option Answer) (w : World) (handle : World → World × Answer)
      → P w
      → P (handle w).0
      → P (unless_denied denied w handle).0
  unfolding unless_denied
  denial-keeps none w handle h k = k
  denial-keeps (some answer) w handle h k = h

  join-keeps : (w : World) → P w → P (authorize_join env request route w).0
  unfolding authorize_join
  join-keeps w h =
      elim (Option-cases
        (match_join_credential env.hmac (read_management_secret env request) env.secret route)) [
          | inl e ↦ rw (e, authorize_join) (keep_log w h)
          | inr (role, e) ↦ rw (e, authorize_join) h
        ]

  -- The endpoints but those of the settings.
  abbrev IsKeptBySettings : World → Type 0
  IsKeptBySettings w =
      P (handle_oauth_callback_paths env request route w).0
      × P (handle_webhook_fanout_settings env request route w).0
      × P (handle_webhook_fanout_rules env request route w).0

  pub perform-keeps :
      (endpoint : Endpoint) (id : Text) (w : World)
      → P w
      → IsKeptBySettings w
      → P (perform env request endpoint (record { route = route; id = id }) w).0
  unfolding perform
  perform-keeps tunnel id w h k =
      let (checked, denied) = authorize_join env request route w in
      denial-keeps denied checked (handle_tunnel env request route) (join-keeps w h)
        (tunnel-keeps checked (join-keeps w h))
  perform-keeps subscribers id w h k =
      let (checked, denied) = authorize_join env request route w in
      denial-keeps denied checked (register_subscriber env request route) (join-keeps w h)
        (register-keeps checked (join-keeps w h))
  perform-keeps heartbeat id w h k =
      denial-keeps (authorize_subscriber env request route id w) w _ h (heartbeat-keeps id w h)
  perform-keeps oauth_states id w h k =
      denial-keeps (authorize_subscriber env request route id w) w _ h (bind-keeps id w h)
  perform-keeps subscriber id w h k =
      denial-keeps (authorize_subscriber env request route id w) w _ h (deregister-keeps id w h)
  perform-keeps callback_paths id w h k = k.0
  perform-keeps fanout_settings id w h k = k.1
  perform-keeps fanout_rules id w h k = k.2
  perform-keeps mint id w h k = h
