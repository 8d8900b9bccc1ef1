-- ===== src/Forward.antt =====
-- router-headers.ts and forward.ts: the headers that reach a subscriber, and those that come back.
-- A `Headers` object is the list of its pairs with names in lower case, as it iterates.
use wrangle_webhooks.Base.{
  if◌then◌else◌, or_else, is_empty, filter, Text, codes, text_eq, to_lower, text_mem, Bool, not,
  ◌&&◌, Option, List, [], ◌∷◌, ◌++◌,
}
use wrangle_webhooks.Base.Sql.{delete_where}
use wrangle_webhooks.Tunnel.{Headers}
pub mod Clean
mod Tests

abbrev pub router_header_route : Text
router_header_route = codes "x-dev-router-route"

abbrev pub router_header_subscriber : Text
router_header_subscriber = codes "x-dev-router-subscriber"

abbrev pub router_header_request_id : Text
router_header_request_id = codes "x-dev-router-request-id"

abbrev pub router_header_token : Text
router_header_token = codes "x-dev-router-token"

abbrev pub hop_by_hop_headers : List Text
hop_by_hop_headers =
    codes "connection"
    ∷ codes "keep-alive"
    ∷ codes "proxy-authenticate"
    ∷ codes "proxy-authorization"
    ∷ codes "te"
    ∷ codes "trailers"
    ∷ codes "transfer-encoding"
    ∷ codes "upgrade"
    ∷ codes "host"
    ∷ codes "content-length"
    ∷ codes "authorization"
    ∷ codes "cookie"
    ∷ codes "set-cookie"
    ∷ []

abbrev pub spoofed_forward_headers : List Text
spoofed_forward_headers =
    codes "cf-connecting-ip"
    ∷ codes "forwarded"
    ∷ codes "true-client-ip"
    ∷ codes "x-client-ip"
    ∷ codes "x-dev-router-connection"
    ∷ codes "x-dev-router-request-id"
    ∷ codes "x-dev-router-route"
    ∷ codes "x-dev-router-secret"
    ∷ codes "x-dev-router-subscriber"
    ∷ codes "x-dev-router-token"
    ∷ codes "x-forwarded-for"
    ∷ codes "x-forwarded-host"
    ∷ codes "x-forwarded-proto"
    ∷ codes "x-forwarded-server"
    ∷ codes "x-originating-ip"
    ∷ codes "x-original-url"
    ∷ codes "x-real-ip"
    ∷ codes "x-rewrite-url"
    ∷ []

unfoldable pub should_forward_header : Text → Bool
should_forward_header name =
    let lower = to_lower name in
    not (text_mem lower hop_by_hop_headers) && not (text_mem lower spoofed_forward_headers)

abbrev pub has_name : Text → Text × Text → Bool
has_name name (n, v) = text_eq n name

-- `headers.set(name, value)`
unfoldable pub set_header : Text → Text → Headers → Headers
set_header name value headers = delete_where (has_name name) headers ++ ((name, value) ∷ [])

-- `forEach` with the test, and `append`.
unfoldable pub filter_response_headers : Headers → Headers
filter_response_headers pairs = filter (λ (pair : Text × Text). should_forward_header pair.0) pairs

pub record ForwardOptions : Type 0 where
  pub incoming : Headers
  pub route_id : Text
  pub subscriber_id : Text
  pub request_id : Text
  pub public_host : Text
  pub public_proto : Text
  pub client_ip : Option Text
  pub forward_token : Text

-- `if (value) headers.set(name, value)`
abbrev pub set_if_given : Text → Text → Headers → Headers
set_if_given name value headers = if is_empty value then headers else set_header name value headers

unfoldable pub build_forward_headers : ForwardOptions → Headers
build_forward_headers o =
    let copied = filter_response_headers o.incoming in
    let routed = set_header router_header_route o.route_id copied in
    let named = set_header router_header_subscriber o.subscriber_id routed in
    let numbered = set_header router_header_request_id o.request_id named in
    let proven = set_if_given router_header_token o.forward_token numbered in
    let hosted = set_header (codes "x-forwarded-host") o.public_host proven in
    let schemed = set_header (codes "x-forwarded-proto") o.public_proto hosted in
    set_if_given (codes "x-forwarded-for") (or_else o.client_ip []) schemed
