-- ===== src/Oauth/Signed.antt =====
-- The signed OAuth states of oauth-state.ts. HMAC-SHA256, and JSON in base64url, are parameters.
use wrangle_webhooks.Base.{
  ltb, ◌==◌, if◌then◌else◌, or_else, length, is_empty, drop, Text, starts_with, ℕ, ◌+◌, Bool, true,
  false, not, ◌&&◌, ◌||◌, Option, none, some, [], ◌∷◌, ◌++◌,
}
use wrangle_webhooks.Secrets.{timing_safe_equal_string}
use wrangle_webhooks.Oauth.{oauth_state_prefix, oauth_state_ttl_ms, truthy, or_other}
pub mod RoundTrip

-- A value of a parsed JSON object; `missing` stands for all that is no number and no text.
pub data JsonValue : Type 0 where
  missing : JsonValue
  num : ℕ → JsonValue
  str : Text → JsonValue

pub record SignedOauthState : Type 0 where
  pub v : JsonValue
  pub sub : JsonValue
  pub route : JsonValue
  pub exp : JsonValue
  pub d : JsonValue

-- The text before and behind the last separator.
unfoldable pub split_last : ℕ → Text → Option (Text × Text)
split_last c [] = none
split_last c (a ∷ s) = elim (split_last c s) [
  | some (x, y) ↦ some (a ∷ x, y)
  | none ↦ if a == c then some ([], s) else none
]

abbrev pub is_str : JsonValue → Bool
is_str (str s) = true
is_str (num n) = false
is_str missing = false

-- `payload.exp < now`, and false of no number.
abbrev pub is_num : JsonValue → Bool
is_num (num n) = true
is_num (str s) = false
is_num missing = false

abbrev pub num_or_zero : JsonValue → ℕ
num_or_zero (num n) = n
num_or_zero (str s) = 0
num_or_zero missing = 0

-- The checks on a decoded payload.
unfoldable pub accept_payload : ℕ → SignedOauthState → Option SignedOauthState
accept_payload now payload =
    if not (is_num payload.v && num_or_zero payload.v == 1)
      || (not (is_str payload.sub) || not (is_num payload.exp))
    then none
    else if ltb (num_or_zero payload.exp) now
    then none
    else some payload

module _ (hmac : Text → Text → Text) (encode : SignedOauthState → Text)
    (decode : Text → Option SignedOauthState) where
  -- `none` is the exception on an empty subscriber id.
  unfoldable pub wrap_oauth_state : Text → Text → Text → Option Text → ℕ → Option Text
  wrap_oauth_state secret subscriber_id route_id inner now =
      let payload : SignedOauthState = record {
        v = num 1;
        sub = str subscriber_id;
        route = str route_id;
        exp = num (now + oauth_state_ttl_ms);
        d = if truthy inner then str (or_else inner []) else missing;
      } in
      let encoded = encode payload in
      if is_empty subscriber_id
      then none
      else some (oauth_state_prefix ++ (encoded ++ (b'.' ∷ hmac secret encoded)))

  -- The part of `unwrapOAuthState` behind the split.
  unfoldable pub unwrap_parts : Text → ℕ → Text → Text → Option SignedOauthState
  unwrap_parts secret now encoded mac =
      if is_empty encoded
      then none
      else if not (timing_safe_equal_string mac (hmac secret encoded))
      then none
      else elim (decode encoded) [ none ↦ none | some payload ↦ accept_payload now payload ]

  unfoldable pub unwrap_oauth_state : Text → Text → ℕ → Option SignedOauthState
  unwrap_oauth_state secret state now =
      if not (starts_with state oauth_state_prefix)
      then none
      else elim (split_last b'.' (drop (length oauth_state_prefix) state)) [
        | none ↦ none
        | some (encoded, mac) ↦ unwrap_parts secret now encoded mac
      ]

  unfoldable pub unwrap_oauth_state_for_route : Text → Text → Text → ℕ → Option SignedOauthState
  unwrap_oauth_state_for_route operator_secret route_secret state now =
      or_other (unwrap_oauth_state operator_secret state now)
        (unwrap_oauth_state route_secret state now)
