-- ===== src/Management/Dispatch.antt =====
-- `handleManagement` of management-http.ts: which handler a request reaches.
use wrangle_webhooks.Base.{
  if◌then◌else◌, is_empty, Text, codes, text_eq, split, ◌≡◌, refl, Bool, true, false, not, ◌&&◌,
  Option, none, some, List, [], ◌∷◌, map,
}
use wrangle_webhooks.Path.Uri.{decode_uri_component}
use wrangle_webhooks.Oauth.{truthy}
use wrangle_webhooks.Ingress.Handler.{World}
use wrangle_webhooks.Management.{
  ManagementRequest, Env, Answer, failure, exception, unauthorized_management_response,
  read_management_secret, require_management_auth, authorize_join, authorize_subscriber,
  unless_denied,
}
use wrangle_webhooks.Management.Subscribers.{
  mint_route_credential, handle_tunnel, register_subscriber, heartbeat_subscriber,
  bind_subscriber_state, deregister_subscriber,
}
use wrangle_webhooks.Management.Settings.{
  handle_oauth_callback_paths, handle_webhook_fanout_settings, handle_webhook_fanout_rules,
}

-- Between two slashes a pattern has a word, or `([^/]+)`.
pub data Part : Type 0 where
  word : Text → Part
  capture : Part

abbrev pub part_of : Text → Part
part_of segment = if text_eq segment (codes "*") then capture else word segment

-- What the pattern captures of a path's segments, if it matches all of them.
unfoldable pub match_parts : List Part → List Text → Option (List Text)
match_parts [] [] = some []
match_parts [] (_ ∷ _) = none
match_parts (_ ∷ _) [] = none
match_parts (word w ∷ parts) (s ∷ segments) =
    let rest = match_parts parts segments in if text_eq w s then rest else none
match_parts (capture ∷ parts) (s ∷ segments) = elim (match_parts parts segments) [
  | none ↦ none
  | some found ↦ if is_empty s then none else some (s ∷ found)
]

-- `pathname.match(pattern)`; a star in the pattern stands for `([^/]+)`.
unfoldable pub match_path : Text → Text → Option (List Text)
match_path pattern pathname = match_parts (map part_of (split b'/' pattern)) (split b'/' pathname)

pub data Endpoint : Type 0 where
  tunnel callback_paths fanout_settings fanout_rules mint : Endpoint
  subscribers heartbeat oauth_states subscriber : Endpoint

-- One test of the handler: the pattern, the method where it is tested, and whether the pattern
-- names a route.
pub record Rule : Type 0 where
  pub pattern : Text
  pub method : Option Text
  pub named : Bool
  pub endpoint : Endpoint

abbrev rule_at : Text → Option Text → Bool → Endpoint → Rule
rule_at pattern method named endpoint = record {
  pattern = pattern;
  method = method;
  named = named;
  endpoint = endpoint;
}

-- The tests in their order.
abbrev pub rules : List Rule
rules =
    rule_at (codes "/_router/routes/*/tunnel") none true tunnel
    ∷ rule_at (codes "/_router/tunnel") none false tunnel
    ∷ rule_at (codes "/_router/oauth-callback-paths") none false callback_paths
    ∷ rule_at (codes "/_router/routes/*/oauth-callback-paths") none true callback_paths
    ∷ rule_at (codes "/_router/webhook-fanout") none false fanout_settings
    ∷ rule_at (codes "/_router/routes/*/webhook-fanout") none true fanout_settings
    ∷ rule_at (codes "/_router/webhook-fanout-rules") none false fanout_rules
    ∷ rule_at (codes "/_router/routes/*/webhook-fanout-rules") none true fanout_rules
    ∷ rule_at (codes "/_router/credential") (some (codes "GET")) false mint
    ∷ rule_at (codes "/_router/routes/*/credential") (some (codes "GET")) true mint
    ∷ rule_at (codes "/_router/subscribers") (some (codes "POST")) false subscribers
    ∷ rule_at (codes "/_router/subscribers/*/heartbeat") (some (codes "POST")) false heartbeat
    ∷ rule_at (codes "/_router/subscribers/*/oauth-states") (some (codes "POST")) false oauth_states
    ∷ rule_at (codes "/_router/routes/*/subscribers") (some (codes "POST")) true subscribers
    ∷ rule_at (codes "/_router/routes/*/subscribers/*/heartbeat") (some (codes "POST")) true
        heartbeat
    ∷ rule_at (codes "/_router/routes/*/subscribers/*/oauth-states") (some (codes "POST")) true
        oauth_states
    ∷ rule_at (codes "/_router/subscribers/*") (some (codes "DELETE")) false subscriber
    ∷ rule_at (codes "/_router/routes/*/subscribers/*") (some (codes "DELETE")) true subscriber
    ∷ []

abbrev pub allows_method : Text → Option Text → Bool
allows_method method none = true
allows_method method (some wanted) = text_eq method wanted

-- The route and the subscriber that the captures name; without a route it is the root.
pub record Place : Type 0 where
  pub route : Text
  pub id : Text

unfoldable pub place_of : Bool → List Text → Place
place_of false [] = record { route = []; id = [] }
place_of false (id ∷ _) = record { route = []; id = id }
place_of true [] = record { route = []; id = [] }
place_of true (route ∷ []) = record { route = route; id = [] }
place_of true (route ∷ id ∷ _) = record { route = route; id = id }

unfoldable pub decode_all : List Text → Option (List Text)
decode_all [] = some []
decode_all (s ∷ segments) = elim (decode_uri_component s) [
  | none ↦ none
  | some text ↦ elim (decode_all segments) [ none ↦ none | some rest ↦ some (text ∷ rest) ]
]

-- Where a request goes: no test passes, a segment is no valid escape, or an endpoint and a place.
pub data Destination : Type 0 where
  nowhere malformed : Destination
  reaches : Endpoint → Place → Destination

unfoldable pub destination_from : List Rule → Text → Text → Destination
destination_from [] method pathname = nowhere
destination_from (rule ∷ rest) method pathname =
    let later = destination_from rest method pathname in
    elim (match_path rule.pattern pathname) [
      | none ↦ later
      | some captured ↦
          if not (allows_method method rule.method) then later else elim (decode_all captured) [
            | none ↦ malformed
            | some segments ↦ reaches rule.endpoint (place_of rule.named segments)
          ]
    ]

unfoldable pub destination : Text → Text → Destination
destination method pathname = destination_from rules method pathname

-- The call of an endpoint's handler, behind the check of who may call it.
unfoldable pub perform : Env → ManagementRequest → Endpoint → Place → World → World × Answer
perform env request tunnel place w =
    let (checked, denied) = authorize_join env request place.route w in
    unless_denied denied checked (handle_tunnel env request place.route)
perform env request callback_paths place w = handle_oauth_callback_paths env request place.route w
perform env request fanout_settings place w =
    handle_webhook_fanout_settings env request place.route w
perform env request fanout_rules place w = handle_webhook_fanout_rules env request place.route w
perform env request mint place w = (w, mint_route_credential env request place.route)
perform env request subscribers place w =
    let (checked, denied) = authorize_join env request place.route w in
    unless_denied denied checked (register_subscriber env request place.route)
perform env request heartbeat place w =
    unless_denied (authorize_subscriber env request place.route place.id w) w
      (heartbeat_subscriber env place.route place.id)
perform env request oauth_states place w =
    unless_denied (authorize_subscriber env request place.route place.id w) w
      (bind_subscriber_state env request place.route place.id)
perform env request subscriber place w =
    unless_denied (authorize_subscriber env request place.route place.id w) w
      (deregister_subscriber env place.route place.id)

-- Behind the tests.
unfoldable pub not_found : Env → ManagementRequest → Answer
not_found env request =
    if not (require_management_auth env request)
      && not (truthy (read_management_secret env request))
    then unauthorized_management_response
    else failure 404 (codes "not_found")

unfoldable pub go_to : Env → ManagementRequest → Destination → World → World × Answer
go_to env request nowhere w = (w, not_found env request)
go_to env request malformed w = (w, exception)
go_to env request (reaches endpoint place) w = perform env request endpoint place w

unfoldable pub handle_management : Env → ManagementRequest → World → World × Answer
handle_management env request w =
    if is_empty env.secret
    then (w, failure 500 (codes "server_misconfigured"))
    else go_to env request (destination request.method request.pathname) w

heartbeat_path :
    destination (codes "POST") (codes "/_router/routes/a%2Db/subscribers/sub_1/heartbeat")
    ≡ reaches heartbeat (record { route = codes "a-b"; id = codes "sub_1" })
unfolding destination destination_from match_path match_parts split text_eq decode_all
    decode_uri_component place_of
heartbeat_path = refl

other_methods :
    (destination (codes "GET") (codes "/_router/subscribers/sub_1") ≡ nowhere)
    × (destination (codes "DELETE") (codes "/_router/subscribers/sub_1")
        ≡ reaches subscriber (record { route = []; id = codes "sub_1" }))
    × (destination (codes "PATCH") (codes "/_router/routes//tunnel") ≡ nowhere)
    × (destination (codes "PATCH") (codes "/_router/routes/%zz/tunnel") ≡ malformed)
unfolding destination destination_from match_path match_parts split text_eq decode_all
    decode_uri_component place_of
other_methods = (refl, refl, refl, refl)
