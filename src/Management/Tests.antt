-- ===== src/Management/Tests.antt =====
-- The theorems on management requests at concrete requests.
use wrangle_webhooks.Base.{
  Text, codes, text_eq, starts_with, split, ◌≡◌, refl, inl, inr, none, some, [], ◌∷◌, ◌++◌, arith,
  length, ap,
}
use wrangle_webhooks.Secrets.{utf8, derive_route_secret}
use wrangle_webhooks.AcceptWebhooks.{Scalar}
use wrangle_webhooks.Path.RouteId.{durable_object_name_for_route}
use wrangle_webhooks.Path.Uri.{decode_uri_component}
use wrangle_webhooks.Route.Inv.Reach.{empty_route}
use wrangle_webhooks.Ingress.Handler.{World}
use wrangle_webhooks.Management.Dispatch.{
  match_parts, match_path, subscribers, Place, place_of, decode_all, destination_from, destination,
  handle_management,
}
use wrangle_webhooks.Management.{object, ManagementRequest, Env, read_management_secret}
use wrangle_webhooks.Management.Access.{MayJoin, IsTurnedAway, handle_management-IsTurnedAway}
use wrangle_webhooks.Management.Effects.Local.{handle_management-IsLocal}

abbrev env : Env
env = record {
  secret = codes "op";
  hmac = λ secret message. message;
  sha256 = λ text. codes "h" ++ text;
  decode_secret = λ text. none;
  parse_url = λ text.
      some (record {
        protocol = codes "https:";
        username = [];
        password = [];
        hash = [];
        href = text;
      });
  hex = λ id. codes "00";
  fresh = record {
    connection_hex = codes "c1";
    subscriber_hex = codes "s1";
    forward_hex = codes "f1";
    handle = 1;
  };
  now = 5;
}

abbrev start : World
start = record {
  index = record {
    routes = [];
    connection_events = [];
    inbound_events = [];
    callback_paths = [];
    fanout = record { settings = []; rules = [] };
  };
  routes = λ name. empty_route;
  recorded = [];
  started = [];
}

-- A request that brings the text as its bearer token.
abbrev with_bearer : Text → Text → Text → ManagementRequest
with_bearer bearer method pathname = record {
  pathname = pathname;
  method = method;
  query = [];
  authorization = some (codes "Bearer " ++ bearer);
  protocols = none;
  upgrade = none;
  content_type = none;
  connecting_ip = none;
  connection_token = none;
  body = some (object ((codes "targetBaseUrl", Scalar.text (codes "https://example.com/")) ∷ []));
}

abbrev stranger : ManagementRequest
stranger = with_bearer (codes "x") (codes "POST") (codes "/_router/routes/app/subscribers")

abbrev app : Place
app = record { route = codes "app"; id = [] }

is_stranger : (given : Text) → read_management_secret env stranger ≡ some given → given ≡ codes "x"
unfolding read_management_secret starts_with
is_stranger given e = cc

may_not_join : ¬ (MayJoin env stranger app)
unfolding utf8 derive_route_secret
may_not_join (inl (given, e, same)) =
    let sizes = ap length (rw (is_stranger given e) at same) in absurd (omega arith)
may_not_join (inr (given, e, same)) =
    let sizes = ap length (rw (is_stranger given e) at same) in absurd (omega arith)

handle_management-IsTurnedAway_example : IsTurnedAway start (handle_management env stranger start)
unfolding destination destination_from match_path match_parts split text_eq decode_all
    decode_uri_component place_of
handle_management-IsTurnedAway_example =
    handle_management-IsTurnedAway env stranger subscribers app start refl may_not_join

handle_management-IsLocal_example :
    (handle_management env stranger start).0.routes (codes "other") ≡ start.routes (codes "other")
unfolding destination destination_from match_path match_parts split text_eq decode_all
    decode_uri_component place_of durable_object_name_for_route
handle_management-IsLocal_example =
    handle_management-IsLocal env stranger (codes "other") start refl

abbrev operator : ManagementRequest
operator = with_bearer (codes "op") (codes "POST") (codes "/_router/routes/app/subscribers")
