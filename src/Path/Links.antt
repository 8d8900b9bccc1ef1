-- ===== src/Path/Links.antt =====
-- The paths of the management API that a sidecar asks for: ingress-urls.ts and tunnel-protocol.ts.
-- `none` is the `URIError` of `encodeURIComponent`.
use wrangle_webhooks.Base.{
  ltb, leb, ◌==◌, if◌then◌else◌, or_else, is_empty, Text, codes, text_eq, has_unit, strip_end,
  is_digit, is_letter, ℕ, ◌+◌, ◌-◌, ◌/◌, ◌%◌, Bool, ◌&&◌, ◌||◌, Option, none, some, List, [], ◌∷◌,
  ◌++◌,
}
use wrangle_webhooks.Secrets.{utf8, is_pair}
pub mod Plain

-- What `encodeURIComponent` leaves as it is.
unfoldable pub is_uri_unit : ℕ → Bool
is_uri_unit c = (is_letter c || is_digit c) || has_unit c (codes "-_.!~*'()")

abbrev upper_hex : ℕ → ℕ
upper_hex d = if ltb d 10 then b'0' + d else b'A' + (d - 10)

-- The escapes of bytes.
abbrev pub percent : List ℕ → Text
percent [] = []
percent (b ∷ bytes) = b'%' ∷ upper_hex (b / 16) ∷ upper_hex (b % 16) ∷ percent bytes

-- One unit that is no half of a pair.
unfoldable pub encode_unit : ℕ → Option Text
encode_unit c =
    if is_uri_unit c
    then some (c ∷ [])
    else if leb 0xd800 c && leb c 0xdfff
    then none
    else some (percent (utf8 (c ∷ [])))

abbrev pub both : Option Text → Option Text → Option Text
both none t = none
both (some s) none = none
both (some s) (some t) = some (s ++ t)

-- `encodeURIComponent(s)`
unfoldable pub encode_uri_component : Text → Option Text
encode_uri_component [] = some []
encode_uri_component (a ∷ []) = encode_unit a
encode_uri_component (a ∷ b ∷ s) =
    let paired = both (some (percent (utf8 (a ∷ b ∷ [])))) (encode_uri_component s) in
    let single = both (encode_unit a) (encode_uri_component (b ∷ s)) in
    if is_pair a b then paired else single

-- A path below the router's or the route's prefix.
unfoldable pub below_route : Text → Text → Option Text
below_route route_id rest =
    if text_eq route_id []
    then some (codes "/_router" ++ rest)
    else both (some (codes "/_router/routes/")) (both (encode_uri_component route_id) (some rest))

unfoldable pub management_subscriber_path : Text → Option Text → Option Text → Option Text
management_subscriber_path route_id subscriber_id suffix =
    let base = below_route route_id (codes "/subscribers") in
    let id = or_else subscriber_id [] in
    let end = or_else suffix [] in
    let subscriber_path = both base (both (some (codes "/")) (encode_uri_component id)) in
    if is_empty id
    then base
    else if is_empty end
    then subscriber_path
    else both subscriber_path (some (b'/' ∷ end))

unfoldable pub management_oauth_state_path : Text → Text → Option Text
management_oauth_state_path route_id subscriber_id =
    both (below_route route_id (codes "/subscribers")) (
      both (some (codes "/"))
        (both (encode_uri_component subscriber_id) (some (codes "/oauth-states"))))

unfoldable pub management_credential_path : Text → Option Text
management_credential_path route_id = below_route route_id (codes "/credential")

-- The parameters of the tunnel, as `URLSearchParams` takes them.
unfoldable pub tunnel_params : Option Text → Bool → List (Text × Text)
tunnel_params environment_id accept_webhooks =
    (if is_empty (or_else environment_id [])
      then []
      else (codes "environmentId", or_else environment_id []) ∷ [])
    ++ (if accept_webhooks then [] else (codes "acceptWebhooks", codes "0") ∷ [])

-- `to_query` is `URLSearchParams.toString`.
unfoldable pub management_tunnel_path :
    (List (Text × Text) → Text) → Text → Option Text → Bool → Option Text
management_tunnel_path to_query route_id environment_id accept_webhooks =
    let path = below_route route_id (codes "/tunnel") in
    let query = to_query (tunnel_params environment_id accept_webhooks) in
    if is_empty query then path else both path (some (b'?' ∷ query))

-- `s.replace(/\/+$/, "")`
abbrev without_slashes : Text → Text
without_slashes s = strip_end (λ c. c == b'/') s

unfoldable pub public_ingress_url : Text → Text → Text
public_ingress_url router_url route_id =
    let base = without_slashes router_url in
    if text_eq route_id [] then base ++ codes "/*" else base ++ (b'/' ∷ (route_id ++ codes "/*"))

unfoldable pub forwarding_display_url : Text → Text
forwarding_display_url target_base_url = without_slashes target_base_url ++ codes "/*"
