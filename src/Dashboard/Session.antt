-- ===== src/Dashboard/Session.antt =====
-- dashboard-session.ts: the signed session of the dashboard and its cookie. HMAC-SHA256 is a
-- parameter.
use wrangle_webhooks.Oauth.{or_other}
use wrangle_webhooks.Base.{
  decimal, ltb, ◌==◌, if◌then◌else◌, or_else, length, is_empty, drop, Text, codes, text_eq,
  has_unit, before, split, strip_start, is_space, trim, is_digit, ℕ, zero, suc, ◌+◌, ◌*◌, ◌/◌, ◌%◌,
  Bool, true, false, not, ◌||◌, Option, none, some, List, [], ◌∷◌, ◌++◌,
}
use wrangle_webhooks.Secrets.{timing_safe_equal_string}
use wrangle_webhooks.Log.Inbound.{decimal_from}
use wrangle_webhooks.Oauth.Signed.{split_last}
pub mod RoundTrip
pub mod Decimal

abbrev pub dashboard_cookie_name : Text
dashboard_cookie_name = codes "dev_router_dashboard"

abbrev pub dashboard_session_ttl_ms : ℕ
dashboard_session_ttl_ms = 7 * 24 * 60 * 60 * 1000

-- The longest run of digits at the start.
unfoldable pub leading_digits : Text → Text
leading_digits [] = []
leading_digits (c ∷ s) = let rest = leading_digits s in if is_digit c then c ∷ rest else []

abbrev pub digits_value : Text → Option ℕ
digits_value s =
    let digits = leading_digits s in if is_empty digits then none else some (decimal_from 0 digits)

-- `-0` is zero, and other numbers below it are left out.
abbrev pub not_negative : Option ℕ → Option ℕ
not_negative (some zero) = some 0
not_negative _ = none

unfoldable pub signed_value : Text → Option ℕ
signed_value [] = none
signed_value (c ∷ s) =
    if c == b'-'
    then not_negative (digits_value s)
    else if c == b'+'
    then digits_value s
    else digits_value (c ∷ s)

-- `Number.parseInt(s, 10)`, where it is a number of zero or more: the caller refuses the rest.
-- Digits past the precision of a double are not rounded.
unfoldable pub parse_int : Text → Option ℕ
parse_int s = signed_value (strip_start is_space s)

unfoldable pub dashboard_session_payload : ℕ → Text
dashboard_session_payload exp = codes "dev-router:dashboard:" ++ decimal exp

module _ (hmac : Text → Text → Text) where
  unfoldable pub mint_dashboard_session : Text → ℕ → Text
  mint_dashboard_session password now =
      let exp = now + dashboard_session_ttl_ms in
      let mac = hmac password (dashboard_session_payload exp) in decimal exp ++ (b'.' ∷ mac)

  -- What follows the split.
  unfoldable pub verify_parts : Text → ℕ → Text → Text → Bool
  verify_parts password now exp_raw mac = elim (parse_int exp_raw) [
    | none ↦ false
    | some exp ↦
        if ltb exp now
        then false
        else timing_safe_equal_string mac (hmac password (dashboard_session_payload exp))
  ]

  unfoldable pub verify_dashboard_session : Text → Text → ℕ → Bool
  verify_dashboard_session session password now = elim (split_last b'.' session) [
    | none ↦ false
    | some (exp_raw, mac) ↦
        if is_empty exp_raw then false else verify_parts password now exp_raw mac
  ]

-- The value of the cookie in one part of the header.
unfoldable pub cookie_value : Text → Option Text
cookie_value part =
    let trimmed = trim part in
    let name = before b'=' trimmed in
    if not (has_unit b'=' trimmed) || is_empty name
    then none
    else if text_eq name dashboard_cookie_name
    then some (drop (suc (length name)) trimmed)
    else none

-- The first part with the name.
unfoldable pub find_cookie : List Text → Option Text
find_cookie [] = none
find_cookie (part ∷ parts) = or_other (cookie_value part) (find_cookie parts)

unfoldable pub read_dashboard_session : Option Text → Option Text
read_dashboard_session cookie = find_cookie (split b';' (or_else cookie []))

-- The tests of the password and of the cookie's value are for the empty text as well.
unfoldable pub require_dashboard_auth : (Text → Text → Text) → Option Text → Text → ℕ → Bool
require_dashboard_auth hmac cookie password now =
    if is_empty password then false else elim (read_dashboard_session cookie) [
      | none ↦ false
      | some session ↦
          if is_empty session then false else verify_dashboard_session hmac session password now
    ]

-- `secure` says whether the request came by HTTPS.
unfoldable pub serialize_dashboard_cookie : Bool → Text → ℕ → Text
serialize_dashboard_cookie secure value max_age =
    dashboard_cookie_name
    ++ (b'='
        ∷ (value
            ++ (codes "; Path=/dashboard; Max-Age="
                ++ (decimal max_age
                    ++ (codes "; HttpOnly; SameSite=Strict"
                        ++ (if secure then codes "; Secure" else []))))))

unfoldable pub dashboard_session_set_cookie : Bool → Text → Text
dashboard_session_set_cookie secure session =
    serialize_dashboard_cookie secure session (dashboard_session_ttl_ms / 1000)

unfoldable pub dashboard_session_clear_cookie : Bool → Text
dashboard_session_clear_cookie secure = serialize_dashboard_cookie secure [] 0
