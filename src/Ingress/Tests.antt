-- ===== src/Ingress/Tests.antt =====
-- The theorems on public requests at concrete requests.
use wrangle_webhooks.Base.{
  length, codes, ℕ, ◌≤◌, ◌<◌, ◌≡◌, refl, true, none, some, List, [], ◌∷◌, arith,
}
use wrangle_webhooks.Path.RouteId.{is_valid_route_id}
use wrangle_webhooks.Path.Scanner.{is_scanner_probe_path}
use wrangle_webhooks.Path.Ingress.{public_path_has_dot_dot_segment}
use wrangle_webhooks.Index.{indexed_public_route_presence}
use wrangle_webhooks.Route.Inv.Reach.{empty_route}
use wrangle_webhooks.Ingress.Body.{
  read, declared_ingress_content_length, read_capped_ingress_body, all_bytes, IsTooLarge,
  read_capped_ingress_body_total,
}
use wrangle_webhooks.Ingress.Handler.Branches.{Outside, handle_public_ingress}
use wrangle_webhooks.Ingress.Handler.{
  World, PublicRequest, first_segment, or_root_route, resolve_public_route,
}
use wrangle_webhooks.Ingress.Handler.Record.{IsRecorded, handle_public_ingress-IsRecorded}

abbrev chunks : List (List ℕ)
chunks = (1 ∷ 2 ∷ []) ∷ (3 ∷ []) ∷ []

read_capped_ingress_body_total_example :
    (length (all_bytes chunks) ≤ 2
      → read_capped_ingress_body none (some chunks) 2 ≡ read (all_bytes chunks))
    × (2 < length (all_bytes chunks) → IsTooLarge 2 (read_capped_ingress_body none (some chunks) 2))
unfolding declared_ingress_content_length
read_capped_ingress_body_total_example = read_capped_ingress_body_total none chunks 2 (omega arith)

abbrev request : PublicRequest
request = record {
  pathname = codes "/hooks";
  search = [];
  host = codes "example.com";
  protocol = codes "https:";
  method = codes "POST";
  header_pairs = [];
  content_type = none;
  content_length = none;
  connecting_ip = none;
  stream = some chunks;
}

abbrev outside : Outside
outside = record {
  parse_params = λ text. [];
  decode_text = λ bytes. bytes;
  build = λ d payload. [];
  sends = λ handle. true;
  unwrap = λ state. none;
  hex = λ id. codes "00";
  outcome = λ started. record { status = 200; error = none };
}

abbrev empty_world : World
empty_world = record {
  index = record {
    routes = [];
    connection_events = [];
    inbound_events = [];
    callback_paths = [];
    fanout = record { settings = []; rules = [] };
  };
  routes = λ name. empty_route;
  recorded = [];
  started = [];
}

handle_public_ingress-IsRecorded_example :
    IsRecorded [] request
      (codes "req_1")
      (handle_public_ingress outside 5 request (codes "req_1") empty_world)
unfolding is_scanner_probe_path public_path_has_dot_dot_segment resolve_public_route or_root_route
    first_segment indexed_public_route_presence is_valid_route_id
handle_public_ingress-IsRecorded_example =
    handle_public_ingress-IsRecorded outside 5 request (codes "req_1") empty_world refl (λ k. k)
