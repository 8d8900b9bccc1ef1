-- ===== src/Secrets.antt =====
-- timing-safe-equal.ts and credentials.ts: comparing secrets, and the credentials that are derived
-- from the operator's. The keyed hash and the digest of the Web Crypto API are parameters.
use Prim.Native.Nat.{bit_or, bit_xor}
use wrangle_webhooks.Base.{
  ltb, leb, ◌==◌, if◌then◌else◌, length, is_empty, drop, Text, codes, ℕ, zero, suc, ◌+◌, ◌-◌, ◌*◌,
  ◌/◌, ◌%◌, max, Bool, false, ◌&&◌, Option, none, some, List, [], ◌∷◌, ◌++◌,
}
pub mod TimingSafe
pub mod Join
mod Tests

-- One code point in UTF-8; `TextEncoder` writes U+FFFD for a surrogate that stands alone.
utf8_point : ℕ → List ℕ
utf8_point c =
    if ltb c 0x80
    then c ∷ []
    else if ltb c 0x800
    then (0xc0 + c / 64) ∷ (0x80 + c % 64) ∷ []
    else if leb 0xd800 c && leb c 0xdfff
    then 0xef ∷ 0xbf ∷ 0xbd ∷ []
    else if ltb c 0x10000
    then (0xe0 + c / 4096) ∷ (0x80 + c / 64 % 64) ∷ (0x80 + c % 64) ∷ []
    else (0xf0 + c / 262144) ∷ (0x80 + c / 4096 % 64) ∷ (0x80 + c / 64 % 64) ∷ (0x80 + c % 64) ∷ []

unfoldable pub is_pair : ℕ → ℕ → Bool
is_pair a b = (leb 0xd800 a && leb a 0xdbff) && (leb 0xdc00 b && leb b 0xdfff)

-- `new TextEncoder().encode(s)`
unfoldable pub utf8 : Text → List ℕ
unfolding utf8_point is_pair
utf8 [] = []
utf8 (a ∷ []) = utf8_point a
utf8 (a ∷ b ∷ s) =
    let paired = utf8_point (0x10000 + (a - 0xd800) * 1024 + (b - 0xdc00)) ++ utf8 s in
    let single = utf8_point a ++ utf8 (b ∷ s) in if is_pair a b then paired else single

-- `bytes[0] ?? 0`
abbrev pub head_or_zero : List ℕ → ℕ
head_or_zero [] = 0
head_or_zero (a ∷ s) = a

-- The loop: rounds left, what is left of the two sides, and the mismatch so far.
unfoldable pub mismatch_from : ℕ → List ℕ → List ℕ → ℕ → ℕ
mismatch_from zero left right mismatch = mismatch
mismatch_from (suc n) left right mismatch =
    mismatch_from n (drop 1 left) (drop 1 right)
      (bit_or mismatch (bit_xor (head_or_zero left) (head_or_zero right)))

unfoldable pub timing_safe_equal_string : Text → Text → Bool
timing_safe_equal_string left right =
    let left_bytes = utf8 left in
    let right_bytes = utf8 right in
    let rounds = max (max (length left_bytes) (length right_bytes)) 1 in
    mismatch_from rounds left_bytes right_bytes
      (if length left_bytes == length right_bytes then 0 else 1)
    == 0

pub data JoinRole : Type 0 where
  operator_role route_role : JoinRole

-- `hmac secret message` is the HMAC-SHA256 in base64url, and `sha256` the digest in hexadecimal.
module _ (hmac : Text → Text → Text) where
  unfoldable pub derive_route_secret : Text → Text → Text
  derive_route_secret operator_secret route_id =
      codes "rt_" ++ hmac operator_secret (codes "dev-router:route:" ++ route_id)

  unfoldable pub match_join_credential : Option Text → Text → Text → Option JoinRole
  match_join_credential secret operator_secret route_id = elim secret [
    | none ↦ none
    | some given ↦
        if is_empty given
        then none
        else if timing_safe_equal_string given operator_secret
        then some operator_role
        else if timing_safe_equal_string given (derive_route_secret operator_secret route_id)
        then some route_role
        else none
  ]

-- The argument is what `randomHex(18)` returns.
unfoldable pub random_connection_token : Text → Text
random_connection_token hex = codes "ct_" ++ hex

module _ (sha256 : Text → Text) where
  unfoldable pub hash_connection_token : Text → Text
  hash_connection_token token = sha256 token

  unfoldable pub connection_token_matches : Text → Text → Bool
  connection_token_matches token expected_hash =
      if is_empty expected_hash
      then false
      else timing_safe_equal_string (hash_connection_token token) expected_hash
