-- ===== src/Route/Inv/Reach.antt =====
-- Every run of operations of a route keeps its tables consistent.
use wrangle_webhooks.Base.{Text, ℕ, Bool, Option, none, []}
use wrangle_webhooks.Tunnel.{Headers, Parsed}
use wrangle_webhooks.Fanout.{WebhookFanoutSettings}
use wrangle_webhooks.Oauth.Signed.{SignedOauthState}
use wrangle_webhooks.Route.{TunnelSocket, RouteState, flush_connection_log, set_route_id}
use wrangle_webhooks.Route.Expiry.{purge_expired}
use wrangle_webhooks.Route.Attach.Connect.{TunnelUpgrade, register, connect_tunnel}
use wrangle_webhooks.Route.Attach.{Fresh, AttachOptions}
use wrangle_webhooks.Route.Lifecycle.{
  heartbeat, deregister, bind_oauth_state, get_active_subscribers, run_alarm, web_socket_close,
  web_socket_error,
}
use wrangle_webhooks.Route.Messages.{tunnel_timeout, web_socket_message}
use wrangle_webhooks.Route.Delivery.{DeliverySubscriber, IngressPayload, fan_out, proxy_oauth}
use wrangle_webhooks.Route.Inv.{IsConsistent}
use wrangle_webhooks.Route.Inv.Keeps.{purge-IsConsistent}
use wrangle_webhooks.Route.Inv.Reclaim.{attach-IsConsistent}
use wrangle_webhooks.Route.Inv.Ops.{set_route-IsConsistent, finish_register-IsConsistent}

-- The tables of a route before any operation.
abbrev pub empty_route : RouteState
empty_route = record {
  rows = [];
  bindings = [];
  route_id = none;
  alarm = none;
  sockets = [];
  closes = [];
  pending = [];
  settled = [];
  next_promise = 0;
  outbox = [];
  pending_connection_log = [];
  index_calls = [];
}

-- What a route is given: the digest, the JSON parser, the headers that it forwards, the sockets that
-- take a message, and the unwrapping of signed states.
pub record Runtime : Type 0 where
  pub sha256 : Text → Text
  pub parse_json : Text → Option (Option Parsed)
  pub build : DeliverySubscriber → IngressPayload → Headers
  pub sends : ℕ → Bool
  pub unwrap : Text → Option SignedOauthState

-- One operation, at any time and with any arguments.
pub data Step (w : Runtime) : RouteState → RouteState → Type 0 where
  registering :
      (fresh : Fresh) (now : ℕ) (route : Text) (o : AttachOptions) (s : RouteState)
      → Step w s (register w.sha256 fresh now route o s).0
  connecting :
      (fresh : Fresh) (now : ℕ) (request : TunnelUpgrade) (s : RouteState)
      → Step w s (connect_tunnel w.sha256 fresh now request s).0
  beating : (now : ℕ) (id : Text) (s : RouteState) → Step w s (heartbeat now id s).0
  deregistering : (now : ℕ) (id : Text) (s : RouteState) → Step w s (deregister now id s)
  binding :
      (now : ℕ) (id state : Text) (s : RouteState) → Step w s (bind_oauth_state now id state s).0
  listing : (now : ℕ) (s : RouteState) → Step w s (get_active_subscribers now s).0
  alarming : (now : ℕ) (s : RouteState) → Step w s (run_alarm now s)
  closing_socket :
      (now : ℕ) (ws : TunnelSocket) (code : ℕ) (s : RouteState)
      → Step w s (web_socket_close now ws code s)
  breaking : (now : ℕ) (ws : TunnelSocket) (s : RouteState) → Step w s (web_socket_error now ws s)
  receiving :
      (now : ℕ) (ws : TunnelSocket) (message : Text) (s : RouteState)
      → Step w s (web_socket_message w.parse_json now ws message s)
  timing_out : (id : Text) (promise : ℕ) (s : RouteState) → Step w s (tunnel_timeout id promise s)
  fanning_out :
      (hex : Text → Text) (now : ℕ) (settings : WebhookFanoutSettings) (payload : IngressPayload)
      (s : RouteState)
      → Step w s (fan_out w.build w.sends hex now settings payload s).0
  proxying :
      (hex : Text → Text) (now later : ℕ) (payload : IngressPayload) (s : RouteState)
      → Step w s (proxy_oauth w.build w.sends w.unwrap hex now later payload s).0
  -- The end of a fan-out or of a proxied request.
  flushing : (s : RouteState) → Step w s (flush_connection_log s)

pub data Reachable (w : Runtime) : RouteState → Type 0 where
  initial : Reachable w empty_route
  after : {s t : RouteState} → Reachable w s → Step w s t → Reachable w t

pub register-IsConsistent :
    (sha256 : Text → Text) (fresh : Fresh) (now : ℕ) (route : Text) (o : AttachOptions)
    (s : RouteState)
    → IsConsistent s
    → IsConsistent (register sha256 fresh now route o s).0
unfolding register
register-IsConsistent sha256 fresh now route o s v = finish_register-IsConsistent now _ (
    attach-IsConsistent sha256 fresh now _ (set_route_id route (purge_expired now s))
      (set_route-IsConsistent route (purge_expired now s) (purge-IsConsistent now s v)))
