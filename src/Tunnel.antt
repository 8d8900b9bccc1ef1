-- ===== src/Tunnel.antt =====
-- tunnel-protocol.ts: the constants of the tunnel, its paths, and the guards on its messages. The
-- JSON text of a message is read by a parameter where it is needed; here a message is what the
-- guards look at.
use wrangle_webhooks.Base.{
  if◌then◌else◌, is_some, length, is_empty, drop, Text, codes, text_eq, starts_with, before, split,
  trim, ℕ, ◌*◌, Bool, false, not, ◌&&◌, Option, none, some, List, [], ◌∷◌, ◌++◌,
}
use wrangle_webhooks.Path.Uri.{decode_uri_component}

abbrev pub tunnel_ping : Text
tunnel_ping = codes "ping"

abbrev pub tunnel_pong : Text
tunnel_pong = codes "pong"

abbrev pub tunnel_subprotocol_prefix : Text
tunnel_subprotocol_prefix = codes "dev-router.v1."

abbrev pub tunnel_max_body_bytes : ℕ
tunnel_max_body_bytes = 768 * 1024

abbrev pub tunnel_ping_interval_ms : ℕ
tunnel_ping_interval_ms = 30000

abbrev pub tunnel_pong_deadline_ms : ℕ
tunnel_pong_deadline_ms = 75000

abbrev pub tunnel_stale_ms : ℕ
tunnel_stale_ms = 90000

abbrev pub Headers : Type 0
Headers = List (Text × Text)

pub record TunnelRequestMessage : Type 0 where
  pub id : Text
  pub method : Text
  pub path : Text
  pub search : Text
  pub headers : Headers
  pub body : List ℕ

pub record TunnelResponseMessage : Type 0 where
  pub id : Text
  pub status : ℕ
  pub headers : Headers
  pub body : List ℕ

-- An object as parsed: a property that is missing, or no text where the guards want one, is
-- `none`.
pub record Parsed : Type 0 where
  pub kind : Option Text
  pub id : Option Text
  pub subscriber_id : Option Text
  pub status : ℕ
  pub headers : Headers
  pub body : List ℕ
  pub message : Text
  pub code : Text

abbrev pub has_kind : Text → Option Text → Bool
has_kind kind none = false
has_kind kind (some k) = text_eq k kind

-- The guards; `none` is a value that is no object.
unfoldable pub is_tunnel_hello : Option Parsed → Bool
is_tunnel_hello none = false
is_tunnel_hello (some p) = has_kind (codes "hello") p.kind && is_some p.subscriber_id

unfoldable pub is_tunnel_heartbeat : Option Parsed → Bool
is_tunnel_heartbeat none = false
is_tunnel_heartbeat (some p) = has_kind (codes "heartbeat") p.kind

unfoldable pub is_tunnel_request : Option Parsed → Bool
is_tunnel_request none = false
is_tunnel_request (some p) = has_kind (codes "request") p.kind && is_some p.id

unfoldable pub is_tunnel_response : Option Parsed → Bool
is_tunnel_response none = false
is_tunnel_response (some p) = has_kind (codes "response") p.kind && is_some p.id

unfoldable pub is_tunnel_error : Option Parsed → Bool
is_tunnel_error none = false
is_tunnel_error (some p) = has_kind (codes "error") p.kind && is_some p.id

-- What `routeIdFromTunnelPath` gives; `malformed` is the `URIError` of a bad escape.
pub data TunnelPath : Type 0 where
  no_match malformed : TunnelPath
  tunnel_of : Text → TunnelPath

-- The one segment of `/^\/_router\/routes\/([^/]+)\/tunnel$/`.
unfoldable pub tunnel_segment : Text → Option Text
tunnel_segment pathname =
    let behind = drop (length (codes "/_router/routes/")) pathname in
    let segment = before b'/' behind in
    if starts_with pathname (codes "/_router/routes/")
      && (not (is_empty segment) && text_eq behind (segment ++ codes "/tunnel"))
    then some segment
    else none

unfoldable pub route_id_from_tunnel_path : Text → TunnelPath
route_id_from_tunnel_path pathname =
    if text_eq pathname (codes "/_router/tunnel")
    then tunnel_of []
    else elim (tunnel_segment pathname) [
      | none ↦ no_match
      | some segment ↦ elim (decode_uri_component segment) [
        | none ↦ malformed
        | some route_id ↦ tunnel_of route_id
      ]
    ]

first_protocol : List Text → Option Text
first_protocol [] = none
first_protocol (part ∷ parts) =
    if starts_with (trim part) tunnel_subprotocol_prefix
    then some (trim part)
    else first_protocol parts

-- `selectedTunnelProtocol` of durable-object.ts.
unfoldable pub selected_tunnel_protocol : Option Text → Option Text
unfolding first_protocol
selected_tunnel_protocol none = none
selected_tunnel_protocol (some header) =
    if is_empty header then none else first_protocol (split b',' header)

-- `decodeTunnelSubprotocolSecret`; `decode` reads base64url as UTF-8, and `none` is its exception.
unfoldable pub decode_tunnel_subprotocol_secret : (Text → Option Text) → Option Text → Option Text
unfolding first_protocol
decode_tunnel_subprotocol_secret decode none = none
decode_tunnel_subprotocol_secret decode (some header) =
    if is_empty header then none else elim (first_protocol (split b',' header)) [
      | none ↦ none
      | some token ↦ decode (drop (length tunnel_subprotocol_prefix) token)
    ]
