-- ===== src/Route/Tests/Events.antt =====
-- The theorems on a route's messages, deliveries and interleavings at concrete states.
use wrangle_webhooks.Base.{Member, codes, ◌≡◌, refl, true, false, none, [], ◌∷◌}
use wrangle_webhooks.Log.Connection.{public_target}
use wrangle_webhooks.Secrets.{random_connection_token}
use wrangle_webhooks.Tunnel.{TunnelRequestMessage}
use wrangle_webhooks.Route.{live, TunnelSocket, RouteState}
use wrangle_webhooks.Route.Attach.{Fresh, threw, conflicts, create, attach_with}
use wrangle_webhooks.Route.Delivery.{DeliverySubscriber, resolve_oauth_subscriber}
use wrangle_webhooks.Route.Inv.Reach.{empty_route}
use wrangle_webhooks.Route.Refusal.{interleaved_creation_throws}
use wrangle_webhooks.Route.Resolve.{IsChosen, resolve_oauth_subscriber-IsChosen}
use wrangle_webhooks.Route.Tests.{sha256, fresh, wanted, held_state}

abbrev socket : TunnelSocket
socket = record {
  handle = 4;
  tag = codes "sub_s1";
  ready_state = live;
  auto_response = none;
  ignored = false;
}

-- A request that waits for the subscriber's tunnel.
abbrev waiting_state : RouteState
waiting_state = record held_state {
  sockets = socket ∷ [];
  pending = record { id = codes "r"; subscriber_id = codes "sub_s1"; promise = 0 } ∷ [];
  next_promise = 1;
}

abbrev message : TunnelRequestMessage
message = record {
  id = codes "r";
  method = codes "POST";
  path = codes "/hooks";
  search = [];
  headers = [];
  body = [];
}

abbrev delivered : DeliverySubscriber
delivered = record {
  id = codes "sub_s1";
  transport = public_target;
  target_base_url = codes "https://example.com/";
  forward_token = codes "ft_f1";
  environment_id = none;
  accept_webhooks = true;
}

resolve_oauth_subscriber-IsChosen_example :
    Member delivered (delivered ∷ [])
    × IsChosen (λ state. none) 5 none (delivered ∷ []) held_state delivered
unfolding resolve_oauth_subscriber
resolve_oauth_subscriber-IsChosen_example =
    resolve_oauth_subscriber-IsChosen (λ state. none) 5 none (delivered ∷ []) held_state delivered
      refl

abbrev fresh_two : Fresh
fresh_two = record {
  connection_hex = codes "c2";
  subscriber_hex = codes "s2";
  forward_hex = codes "f2";
  handle = 2;
}

interleaved_creation_throws_example :
    (attach_with sha256 fresh_two 6 wanted none
      (attach_with sha256 fresh 5 wanted none empty_route).0).1
    ≡ threw
unfolding attach_with create conflicts
interleaved_creation_throws_example =
    interleaved_creation_throws sha256 fresh fresh_two 5 6 wanted wanted (codes "alice") empty_route
      (codes "sub_s1") (codes "ft_f1") (random_connection_token fresh.connection_hex) refl refl refl
