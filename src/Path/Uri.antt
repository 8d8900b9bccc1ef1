-- ===== src/Path/Uri.antt =====
-- `decodeURIComponent`, as the source calls it; `none` is the `URIError`.
use mathlib.Core.Option
use wrangle_webhooks.Base.{
  has_unit, false, arith, ◌>>=◌, ltb, leb, ◌==◌, if◌then◌else◌, or_else, drop, Text, codes, ℕ, zero,
  suc, ◌+◌, ◌-◌, ◌*◌, ◌/◌, ◌%◌, ◌≡◌, refl, ◌&&◌, ◌||◌, Option, none, some, [], ◌∷◌, ◌++◌,
}

hex_digit : ℕ → Option ℕ
hex_digit c =
    if leb b'0' c && leb c b'9'
    then some (c - b'0')
    else if leb b'a' c && leb c b'f'
    then some (c - 87)
    else if leb b'A' c && leb c b'F'
    then some (c - 55)
    else none

-- The byte that two hexadecimal digits spell.
hex_byte : Text → Option ℕ
unfolding hex_digit
hex_byte [] = none
hex_byte (_ ∷ []) = none
hex_byte (a ∷ b ∷ s) = do h ← hex_digit a; l ← hex_digit b; some (h * 16 + l)

-- The six bits of a continuation byte, `%80` to `%BF`.
continuation : Text → Option ℕ
unfolding hex_byte
continuation [] = none
continuation (c ∷ s) =
    if c == b'%'
    then (do b ← hex_byte s; if leb 0x80 b && leb b 0xbf then some (b - 0x80) else none)
    else none

-- A code point beyond 16 bits as two units.
surrogates : ℕ → Text
surrogates p = (0xd800 + (p - 0x10000) / 0x400) ∷ (0xdc00 + (p - 0x10000) % 0x400) ∷ []

-- The escapes of two, three and four bytes, from the first byte and the text behind its percent
-- sign; overlong forms, surrogates and what lies beyond U+10FFFF are errors.
two_bytes : ℕ → Text → Option (Text × ℕ)
unfolding continuation
two_bytes b s = do c ← continuation (drop 2 s); some (((b - 0xc0) * 64 + c) ∷ [], 5)

three_bytes : ℕ → Text → Option (Text × ℕ)
unfolding continuation
three_bytes b s = do
  c ← continuation (drop 2 s)
  d ← continuation (drop 5 s)
  let p = (b - 0xe0) * 4096 + c * 64 + d
  if ltb p 0x800 || (leb 0xd800 p && leb p 0xdfff) then none else some (p ∷ [], 8)

four_bytes : ℕ → Text → Option (Text × ℕ)
unfolding continuation surrogates
four_bytes b s = do
  c ← continuation (drop 2 s)
  d ← continuation (drop 5 s)
  e ← continuation (drop 8 s)
  let p = (b - 0xf0) * 262144 + c * 4096 + d * 64 + e
  if ltb p 0x10000 || ltb 0x10ffff p then none else some (surrogates p, 11)

-- What follows a percent sign: the units that it stands for, and how many units it takes.
escape_of : ℕ → Text → Option (Text × ℕ)
unfolding two_bytes three_bytes four_bytes
escape_of b s =
    if ltb b 0x80
    then some (b ∷ [], 2)
    else if ltb b 0xc2
    then none
    else if ltb b 0xe0
    then two_bytes b s
    else if ltb b 0xf0
    then three_bytes b s
    else if ltb b 0xf5
    then four_bytes b s
    else none

escape : Text → Option (Text × ℕ)
unfolding hex_byte escape_of
escape s = hex_byte s >>= λ b. escape_of b s

-- The first argument counts the units of an escape that are still to be passed over.
decode_from : ℕ → Text → Option Text
unfolding escape
decode_from k [] = some []
decode_from (suc k) (c ∷ s) = decode_from k s
decode_from zero (c ∷ s) =
    if c == b'%'
    then elim (escape s) [
      | none ↦ none
      | some (units, n) ↦ Option.map (λ r. units ++ r) (decode_from n s)
    ]
    else Option.map (λ r. c ∷ r) (decode_from zero s)

unfoldable pub decode_uri_component : Text → Option Text
unfolding decode_from
decode_uri_component s = decode_from 0 s

-- A text without an escape stands for itself.
pub decode_plain : (s : Text) → has_unit b'%' s ≡ false → decode_uri_component s ≡ some s
unfolding decode_uri_component decode_from has_unit
decode_plain [] h = refl
decode_plain (c ∷ s) h = ground (arith, decode_plain s)

-- `try { decodeURIComponent(s) } catch { s }`
unfoldable pub decode_once : Text → Text
unfolding decode_uri_component
decode_once s = or_else (decode_uri_component s) s

decode_once_tests :
    (decode_once (codes "/a%2e%2E/%c3%a9") ≡ codes "/a../é")
    × (decode_once (codes "%zz") ≡ codes "%zz")
    × (decode_once (codes "%f0%9f%98%80") ≡ 0xd83d ∷ 0xde00 ∷ [])
    × (decode_once (codes "%c0%80") ≡ codes "%c0%80")
unfolding decode_once
decode_once_tests = (refl, refl, refl, refl)
