-- ===== src/Log/Inbound.antt =====
-- inbound-log.ts: the metadata that is kept of an inbound request. Numbers are those that the code
-- gives: finite, whole and not negative.
use wrangle_webhooks.Base.{
  decimal, decimal_on, refl, ◌≡◌, ◌++◌, ltb, leb, ◌==◌, if◌then◌else◌, or_else, length, is_empty,
  take, drop, all, Text, codes, starts_with, has_unit, before, trim, is_digit, is_letter, to_lower,
  to_upper, text_mem, or_text, ℕ, ◌+◌, ◌-◌, ◌*◌, min, Bool, not, ◌&&◌, ◌||◌, Option, none, some,
  List, [], ◌∷◌, ◌/◌, ◌%◌,
}
pub mod Clean

-- Seven days, in milliseconds.
abbrev pub inbound_log_retention_ms : ℕ
inbound_log_retention_ms = 7 * 24 * 60 * 60 * 1000

abbrev pub inbound_log_max_events : ℕ
inbound_log_max_events = 5000

abbrev pub inbound_log_dashboard_limit : ℕ
inbound_log_dashboard_limit = 200

abbrev pub inbound_log_path_max_length : ℕ
inbound_log_path_max_length = 256

-- The kind, the result and the error are the texts of the union types.
pub record InboundLogEvent : Type 0 where
  pub id : Text
  pub occurred_at : ℕ
  pub method : Text
  pub route_id : Option Text
  pub path : Text
  pub has_query : Bool
  pub kind : Text
  pub result : Text
  pub status : ℕ
  pub error : Option Text
  pub subscriber_count : ℕ
  pub delivered_subscriber_count : ℕ
  pub body_bytes : ℕ

pub record InboundLogEventInput : Type 0 where
  pub id : Text
  pub method : Text
  pub route_id : Option Text
  pub remaining_path : Text
  pub search : Option Text
  pub kind : Text
  pub result : Text
  pub status : ℕ
  pub error : Option Text
  pub subscriber_count : ℕ
  pub delivered_subscriber_count : Option ℕ
  pub body_bytes : ℕ
  pub occurred_at : Option ℕ

abbrev pub kinds : List Text
kinds = codes "webhook" ∷ codes "oauth" ∷ []

abbrev pub results : List Text
results = codes "accepted" ∷ codes "proxied" ∷ codes "rejected" ∷ []

abbrev pub errors : List Text
errors =
    codes "route_not_found"
    ∷ codes "oauth_unroutable"
    ∷ codes "oauth_subscriber_not_found"
    ∷ codes "oauth_callback_incomplete"
    ∷ codes "oauth_callback_not_registered"
    ∷ codes "oauth_method_not_allowed"
    ∷ codes "request_too_large"
    ∷ codes "subscriber_unreachable"
    ∷ []

-- True of a search with anything behind its question mark.
unfoldable pub inbound_has_query : Text → Bool
inbound_has_query search =
    not (is_empty (if starts_with search (codes "?") then drop 1 search else search))

unfoldable pub sanitize_inbound_path : Text → Text
sanitize_inbound_path value =
    let without_query = before b'#' (before b'?' value) in
    let path =
      if starts_with without_query (codes "/") then without_query else b'/' ∷ without_query in
    if is_empty without_query || (has_unit 13 without_query || has_unit 10 without_query)
    then codes "/"
    else or_text (take inbound_log_path_max_length path) (codes "/")

abbrev pub is_upper : ℕ → Bool
is_upper c = leb 65 c && leb c 90

-- `/^[A-Z]{1,16}$/`
unfoldable pub is_method_token : Text → Bool
is_method_token method = (not (is_empty method) && leb (length method) 16) && all is_upper method

unfoldable pub sanitize_http_method : Text → Text
sanitize_http_method value =
    let method = to_upper (trim value) in if is_method_token method then method else codes "UNKNOWN"

unfoldable pub sanitize_inbound_status : ℕ → ℕ
sanitize_inbound_status value = if ltb value 100 || ltb 599 value then 0 else value

-- `/^req_[a-z0-9]{8,32}$/i`
unfoldable pub is_request_id : Text → Bool
is_request_id value =
    let rest = drop 4 value in
    starts_with (to_lower value) (codes "req_")
    && ((leb 8 (length rest) && leb (length rest) 32) && all (λ c. is_letter c || is_digit c) rest)

unfoldable pub sanitize_inbound_request_id : Text → Text
sanitize_inbound_request_id value =
    if is_request_id (trim value) then trim value else codes "req_invalid"

-- `[A-Za-z0-9._~-]`
abbrev pub is_unreserved : ℕ → Bool
is_unreserved c =
    (is_letter c || is_digit c) || ((c == b'.' || c == b'_') || (c == b'~' || c == b'-'))

unfoldable pub sanitize_inbound_route_id : Option Text → Option Text
sanitize_inbound_route_id none = none
sanitize_inbound_route_id (some route) =
    if is_empty route
    then some []
    else if ltb 128 (length route) || not (all is_unreserved route)
    then none
    else some route

unfoldable pub sanitize_inbound_error : Option Text → Option Text
sanitize_inbound_error none = none
sanitize_inbound_error (some value) =
    if is_empty value || not (text_mem value errors) then none else some value

unfoldable pub sanitize_inbound_count : ℕ → ℕ
sanitize_inbound_count value = min 10000 value

unfoldable pub sanitize_inbound_body_bytes : ℕ → ℕ
sanitize_inbound_body_bytes value = min 1000000000 value

-- The label of a size; `toFixed(1)` rounds a half up.
unfoldable pub format_inbound_body_bytes : ℕ → Text
format_inbound_body_bytes body_bytes =
    let bytes = sanitize_inbound_body_bytes body_bytes in
    let tenths = (bytes * 10 + 512) / 1024 in
    if ltb bytes 1024
    then decimal bytes ++ codes " B"
    else decimal (tenths / 10) ++ (b'.' ∷ (decimal (tenths % 10) ++ codes " KB"))

size_labels :
    (format_inbound_body_bytes 1023 ≡ codes "1023 B")
    × (format_inbound_body_bytes 1024 ≡ codes "1.0 KB")
    × (format_inbound_body_bytes 1075 ≡ codes "1.0 KB")
    × (format_inbound_body_bytes 1076 ≡ codes "1.1 KB")
    × (format_inbound_body_bytes 2000000000 ≡ codes "976562.5 KB")
unfolding format_inbound_body_bytes decimal decimal_on sanitize_inbound_body_bytes
size_labels = (refl, refl, refl, refl, refl)

-- The number that a text of digits stands for.
abbrev pub decimal_from : ℕ → Text → ℕ
decimal_from n [] = n
decimal_from n (c ∷ s) = decimal_from (n * 10 + (c - 48)) s

-- `/^\d{1,12}$/`
abbrev pub is_length_header : Text → Bool
is_length_header value = (not (is_empty value) && leb (length value) 12) && all is_digit value

-- Of the length of the body that was read, and else of the `Content-Length`.
unfoldable pub inbound_body_bytes : Option Text → Option ℕ → ℕ
inbound_body_bytes header (some size) = sanitize_inbound_body_bytes size
inbound_body_bytes none none = 0
inbound_body_bytes (some header) none =
    if is_empty header || not (is_length_header (trim header))
    then 0
    else sanitize_inbound_body_bytes (decimal_from 0 (trim header))

unfoldable pub build_inbound_log_event : ℕ → InboundLogEventInput → InboundLogEvent
build_inbound_log_event now input = record {
  id = sanitize_inbound_request_id input.id;
  occurred_at = or_else input.occurred_at now;
  method = sanitize_http_method input.method;
  route_id = sanitize_inbound_route_id input.route_id;
  path = sanitize_inbound_path input.remaining_path;
  has_query = inbound_has_query (or_else input.search []);
  kind = if text_mem input.kind kinds then input.kind else codes "webhook";
  result = if text_mem input.result results then input.result else codes "rejected";
  status = sanitize_inbound_status input.status;
  error = sanitize_inbound_error input.error;
  subscriber_count = sanitize_inbound_count input.subscriber_count;
  delivered_subscriber_count = sanitize_inbound_count (or_else input.delivered_subscriber_count 0);
  body_bytes = sanitize_inbound_body_bytes input.body_bytes;
}
