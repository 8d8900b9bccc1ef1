-- ===== src/Forward/Tests.antt =====
-- The forwarding theorem at a request that brings its own token.
use wrangle_webhooks.Base.{codes, none, [], ◌∷◌}
use wrangle_webhooks.Forward.{router_header_token, ForwardOptions, build_forward_headers}
use wrangle_webhooks.Forward.Clean.{IsOwnOrSafe, router_pairs, build_forward_headers-IsOwnOrSafe}

abbrev forged : ForwardOptions
forged = record {
  incoming = (router_header_token, codes "mine") ∷ (codes "x-event", codes "push") ∷ [];
  route_id = codes "app";
  subscriber_id = codes "sub_1";
  request_id = codes "req_1";
  public_host = codes "example.com";
  public_proto = codes "https";
  client_ip = none;
  forward_token = codes "ft_1";
}

build_forward_headers-IsOwnOrSafe_example :
    IsOwnOrSafe (router_pairs forged) (build_forward_headers forged)
build_forward_headers-IsOwnOrSafe_example = build_forward_headers-IsOwnOrSafe forged
