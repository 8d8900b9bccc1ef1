-- ===== src/Base/Strings.antt =====
-- Texts as the source's strings are: lists of UTF-16 code units. What the source uses of `String`
-- is written out over them.
use Prim.Native.Char.{code}
use Prim.Native.String.{String}
use Prim.Native.Nat.{ℕ, zero, suc, ◌+◌, ◌-◌, ◌/◌, ◌%◌}
use mathlib.Core.Bool.{Bool, true, false, ◌&&◌, ◌||◌}
use mathlib.Core.List.{List, [], ◌∷◌, ◌++◌}
use wrangle_webhooks.Base.Tests.{ltb, leb, ◌==◌, if◌then◌else◌}
use wrangle_webhooks.Base.Lists.{is_empty, any}

abbrev pub Text : Type 0
Text = List ℕ

-- A literal of the source; all of them are ASCII.
abbrev pub codes : String → Text
codes String.[] = []
codes (String.◌∷◌ c s) = code c ∷ codes s

-- `s === t`
unfoldable pub text_eq : Text → Text → Bool
text_eq [] [] = true
text_eq [] (_ ∷ _) = false
text_eq (_ ∷ _) [] = false
text_eq (a ∷ s) (b ∷ t) = a == b && text_eq s t

-- `s.startsWith(p)`
unfoldable pub starts_with : Text → Text → Bool
starts_with s [] = true
starts_with [] (_ ∷ _) = false
starts_with (a ∷ s) (b ∷ p) = a == b && starts_with s p

-- `s.includes(p)`
unfoldable pub includes : Text → Text → Bool
unfolding starts_with
includes [] p = starts_with [] p
includes (a ∷ s) p = starts_with (a ∷ s) p || includes s p

-- `s.includes(c)` and `/[c]/.test(s)` for one code unit.
unfoldable pub has_unit : ℕ → Text → Bool
has_unit c s = any (λ a. a == c) s

-- `s.split(c)[0]`, the part before the first separator.
unfoldable pub before : ℕ → Text → Text
before c [] = []
before c (a ∷ s) = if a == c then [] else a ∷ before c s

abbrev pub push_front : ℕ → List Text → List Text
push_front a [] = (a ∷ []) ∷ []
push_front a (p ∷ ps) = (a ∷ p) ∷ ps

-- `s.split(c)` for one code unit.
unfoldable pub split : ℕ → Text → List Text
split c [] = [] ∷ []
split c (a ∷ s) = let rest = split c s in if a == c then [] ∷ rest else push_front a rest

-- Drop the longest run at the start of units that pass.
unfoldable pub strip_start : (ℕ → Bool) → Text → Text
strip_start p [] = []
strip_start p (a ∷ s) = if p a then strip_start p s else a ∷ s

-- Drop the longest run at the end of units that pass; `replace(/\/+$/, "")` for the slash.
unfoldable pub strip_end : (ℕ → Bool) → Text → Text
strip_end p [] = []
strip_end p (a ∷ s) = let rest = strip_end p s in if p a && is_empty rest then [] else a ∷ rest

-- White space and line terminators of ECMAScript.
unfoldable pub is_space : ℕ → Bool
is_space c =
    (leb 9 c && leb c 13)
    || (c == 32
        || (c == 0xa0
            || (c == 0x1680
                || ((leb 0x2000 c && leb c 0x200a)
                    || (c == 0x2028
                        || (c == 0x2029
                            || (c == 0x202f || (c == 0x205f || (c == 0x3000 || c == 0xfeff)))))))))

-- `s.trim()`
unfoldable pub trim : Text → Text
unfolding strip_start strip_end is_space
trim s = strip_end is_space (strip_start is_space s)

unfoldable pub is_digit : ℕ → Bool
is_digit c = leb b'0' c && leb c b'9'

unfoldable pub is_letter : ℕ → Bool
is_letter c = (leb b'a' c && leb c b'z') || (leb b'A' c && leb c b'Z')

-- `s.toLowerCase()`. Every use in the source compares the result with ASCII words; besides the
-- capital letters, only U+212A and U+0130 have an ASCII letter in their lower case, and other
-- units stand for themselves here.
unfoldable pub to_lower : Text → Text
to_lower [] = []
to_lower (c ∷ s) =
    let rest = to_lower s in
    if leb b'A' c && leb c b'Z'
    then (c + 32) ∷ rest
    else if c == 0x212a
    then b'k' ∷ rest
    else if c == 0x130
    then b'i' ∷ 0x307 ∷ rest
    else c ∷ rest

-- One unit's upper case. Every use in the source compares the whole result with ASCII words, so
-- what has a unit beyond ASCII in its upper case stands for itself.
unfoldable pub upper : ℕ → Text
upper c =
    if leb b'a' c && leb c b'z'
    then (c - 32) ∷ []
    else if c == 0x131
    then codes "I"
    else if c == 0x17f
    then codes "S"
    else if c == 0xdf
    then codes "SS"
    else if c == 0xfb00
    then codes "FF"
    else if c == 0xfb01
    then codes "FI"
    else if c == 0xfb02
    then codes "FL"
    else if c == 0xfb03
    then codes "FFI"
    else if c == 0xfb04
    then codes "FFL"
    else if c == 0xfb05 || c == 0xfb06
    then codes "ST"
    else c ∷ []

-- `s.toUpperCase()`
unfoldable pub to_upper : Text → Text
unfolding upper
to_upper [] = []
to_upper (c ∷ s) = upper c ++ to_upper s

-- `set.has(s)`, and `ids.includes(s)`.
unfoldable pub text_mem : Text → List Text → Bool
unfolding text_eq
text_mem s [] = false
text_mem s (t ∷ ts) = text_eq s t || text_mem s ts

-- `s || d` for a text that may be empty.
unfoldable pub or_text : Text → Text → Text
or_text [] d = d
or_text (a ∷ s) d = a ∷ s

-- The digits of a number before those of `out`, on fuel; `decimal` gives enough.
unfoldable pub decimal_on : ℕ → ℕ → Text → Text
decimal_on zero n out = out
decimal_on (suc fuel) n out = elim (ltb n 10) [
  | true ↦ (b'0' + n) ∷ out
  | false ↦ decimal_on fuel (n / 10) ((b'0' + n % 10) ∷ out)
]

-- `${n}`
unfoldable pub decimal : ℕ → Text
unfolding decimal_on
decimal n = decimal_on (suc n) n []
