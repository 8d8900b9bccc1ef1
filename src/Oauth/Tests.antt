-- ===== src/Oauth/Tests.antt =====
-- The OAuth theorems at concrete requests, states and paths.
use wrangle_webhooks.Base.{
  ltb, ◌==◌, if◌then◌else◌, or_else, ◌>>=◌, length, is_empty, take, drop, Text, codes, starts_with,
  has_unit, ◌+◌, ◌≡◌, refl, ap, ◌↔◌, ◌⊎◌, true, false, Option, none, some, [], ◌∷◌, ◌++◌, arith,
}
use wrangle_webhooks.Path.Remaining.{looks_like_oauth_callback_path}
use wrangle_webhooks.Oauth.{
  oauth_state_prefix, oauth_state_ttl_ms, Params, oauth, fanout, truthy, is_oauth_callback_method,
  ResultParams, DeliveryOptions, oauth_callback_result_params, classify_delivery,
}
use wrangle_webhooks.Oauth.Classify.{IsRegistered, classify_delivery_iff}
use wrangle_webhooks.Oauth.Signed.{
  JsonValue, missing, num, str, SignedOauthState, wrap_oauth_state, unwrap_oauth_state,
}
use wrangle_webhooks.Oauth.Signed.RoundTrip.{unwrap-wrap}
use wrangle_webhooks.Oauth.Paths.{OauthCallbackPathRow}

-- A parser of parameters that finds a code in every text.
abbrev parse_params : Text → Params
parse_params text = (codes "code", text) ∷ []

abbrev options : DeliveryOptions
options = record {
  remaining_path = codes "/auth/callback";
  search = codes "?x";
  form = none;
  method = some (codes "GET");
  allowed_callback_paths = codes "/auth/callback" ∷ [];
}

abbrev found : ResultParams
found = oauth_callback_result_params parse_params options.search options.form

classify_delivery_iff_example :
    ((classify_delivery parse_params options ≡ oauth) ↔ (
      IsRegistered options.remaining_path options.allowed_callback_paths
      × ((truthy found.code ≡ true) ⊎ (truthy found.error ≡ true))
      × ((truthy options.method ≡ false)
          ⊎ (is_oauth_callback_method (or_else options.method []) ≡ true))))
    × ((classify_delivery parse_params options ≡ fanout) ↔ (
        (¬ IsRegistered options.remaining_path options.allowed_callback_paths)
        × (looks_like_oauth_callback_path options.remaining_path ≡ false)
        × (starts_with (or_else found.state []) oauth_state_prefix ≡ false)))
classify_delivery_iff_example = classify_delivery_iff parse_params options

-- An encoding of payloads that is read back: each value behind its tag, texts behind their length.
abbrev encode_value : JsonValue → Text → Text
encode_value missing rest = 0 ∷ rest
encode_value (num n) rest = 1 ∷ n ∷ rest
encode_value (str s) rest = 2 ∷ length s ∷ (s ++ rest)

abbrev decode_value : Text → Option (JsonValue × Text)
decode_value [] = none
decode_value (tag ∷ []) = if tag == 0 then some (missing, []) else none
decode_value (tag ∷ n ∷ rest) =
    if tag == 0
    then some (missing, n ∷ rest)
    else if tag == 1
    then some (num n, rest)
    else some (str (take n rest), drop n rest)

take-append : (s rest : Text) → take (length s) (s ++ rest) ≡ s
take-append [] rest = refl
take-append (a ∷ s) rest = ap (λ t. a ∷ t) (take-append s rest)

drop-append : (s rest : Text) → drop (length s) (s ++ rest) ≡ rest
drop-append [] rest = refl
drop-append (a ∷ s) rest = drop-append s rest

decode_value-encode :
    (v : JsonValue) (rest : Text) → decode_value (encode_value v rest) ≡ some (v, rest)
decode_value-encode missing [] = refl
decode_value-encode missing (a ∷ rest) = refl
decode_value-encode (num n) rest = refl
decode_value-encode (str s) rest = rw (take-append s rest, drop-append s rest) refl

abbrev encode : SignedOauthState → Text
encode p =
    encode_value p.v
      (encode_value p.sub (encode_value p.route (encode_value p.exp (encode_value p.d []))))

abbrev decode : Text → Option SignedOauthState
decode text = do
  (v, a) ← decode_value text
  (sub, b) ← decode_value a
  (route, c) ← decode_value b
  (exp, e) ← decode_value c
  (d, rest) ← decode_value e
  some (record { v = v; sub = sub; route = route; exp = exp; d = d })

decode-encode : (p : SignedOauthState) → decode (encode p) ≡ some p
decode-encode p =
    rw
      (
        decode_value-encode p.v
            (encode_value p.sub (encode_value p.route (encode_value p.exp (encode_value p.d [])))),
        decode_value-encode p.sub (encode_value p.route (encode_value p.exp (encode_value p.d []))),
        decode_value-encode p.route (encode_value p.exp (encode_value p.d [])),
        decode_value-encode p.exp (encode_value p.d []),
        decode_value-encode p.d [],
      )
      refl

encode_value_some : (v : JsonValue) (rest : Text) → is_empty (encode_value v rest) ≡ false
encode_value_some missing rest = refl
encode_value_some (num n) rest = refl
encode_value_some (str s) rest = refl

encoded_some : (p : SignedOauthState) → is_empty (encode p) ≡ false
encoded_some p = encode_value_some p.v _

-- A keyed hash without a dot.
abbrev mac : Text → Text → Text
mac secret text = 109 ∷ (length secret + 100) ∷ []

mac_no_dot : (secret text : Text) → has_unit b'.' (mac secret text) ≡ false
unfolding has_unit
mac_no_dot secret text = ground arith

abbrev payload : SignedOauthState
payload = record {
  v = num 1;
  sub = str (codes "sub_1");
  route = str (codes "app");
  exp = num (5 + oauth_state_ttl_ms);
  d = str (codes "x.y");
}

abbrev state : Text
state = oauth_state_prefix ++ (encode payload ++ (b'.' ∷ mac (codes "s") (encode payload)))

unwrap-wrap_example :
    unwrap_oauth_state mac encode decode (codes "s") state 7
    ≡ (if ltb (5 + oauth_state_ttl_ms) 7 then none else some payload)
unfolding wrap_oauth_state
unwrap-wrap_example =
    unwrap-wrap mac encode decode decode-encode encoded_some mac_no_dot (codes "s") (codes "sub_1")
      (codes "app") (some (codes "x.y")) 5 7 state refl

abbrev row : OauthCallbackPathRow
row = record { route_id = codes "app"; remaining_path = codes "/auth/callback"; created_at = 7 }
