-- ===== src/Dashboard/Session/Decimal.antt =====
-- The decimal texts of dashboard-session.ts and what `parseInt` reads of them.
use wrangle_webhooks.Base.{
  decimal, decimal_on, ltb, ◌==◌, Bool-cases, is_empty, all, Text, strip_start, is_space, is_digit,
  ℕ, zero, suc, ◌+◌, ◌-◌, ◌*◌, ◌/◌, ◌%◌, ◌<◌, ◌≡◌, refl, ap, ◌∙◌, inl, inr, true, false, some, [],
  ◌∷◌, arith,
}
use wrangle_webhooks.Log.Inbound.{decimal_from}
use wrangle_webhooks.Dashboard.Session.{leading_digits, signed_value, parse_int}

decimal_from-decimal_on :
    (fuel n : ℕ) (out : Text)
    → n < fuel
    → decimal_from 0 (decimal_on fuel n out) ≡ decimal_from n out
unfolding decimal_on
decimal_from-decimal_on zero n out h = absurd (omega arith)
decimal_from-decimal_on (suc fuel) n out h = elim (Bool-cases (ltb n 10)) [
  | inl e ↦ rw (e, decimal_on) (ground arith)
  | inr e ↦
      let last = (b'0' + n % 10) ∷ out in
      let whole : n / 10 * 10 + (b'0' + n % 10 - b'0') ≡ n = omega arith in
      rw (e, decimal_on)
        (decimal_from-decimal_on fuel (n / 10) last (ground arith)
          ∙ ap (λ m. decimal_from m out) whole)
]

pub decimal_on-digits :
    (fuel n : ℕ) (out : Text)
    → all is_digit out ≡ true
    → n < fuel
    → (all is_digit (decimal_on fuel n out) ≡ true) × (is_empty (decimal_on fuel n out) ≡ false)
unfolding decimal_on is_digit
decimal_on-digits zero n out h k = absurd (omega arith)
decimal_on-digits (suc fuel) n out h k = elim (Bool-cases (ltb n 10)) [
  | inl e ↦ rw (e, decimal_on) (ground arith, refl)
  | inr e ↦
      rw (e, decimal_on)
        (decimal_on-digits fuel (n / 10) ((b'0' + n % 10) ∷ out) (ground arith) (ground arith))
]

leading_digits-all : (s : Text) → all is_digit s ≡ true → leading_digits s ≡ s
unfolding leading_digits
leading_digits-all [] h = refl
leading_digits-all (c ∷ s) h = ground (arith, leading_digits-all s)

digit-no_sign :
    (c : ℕ)
    → is_digit c ≡ true
    → (is_space c ≡ false) × ((c == b'-') ≡ false) × ((c == b'+') ≡ false)
unfolding is_digit is_space
digit-no_sign c h = (ground arith, ground arith, ground arith)

parse_int-digits :
    (s : Text) → all is_digit s ≡ true → is_empty s ≡ false → parse_int s ≡ some (decimal_from 0 s)
unfolding parse_int strip_start signed_value
parse_int-digits [] h k = absurd (cc)
parse_int-digits (c ∷ s) h k =
    let (no_space, no_minus, no_plus) = digit-no_sign c (ground arith) in
    rw (no_space, no_minus, no_plus, leading_digits-all (c ∷ s) h) refl

-- A number is read back from its decimal text.
pub parse_int-decimal : (n : ℕ) → parse_int (decimal n) ≡ some n
unfolding decimal
parse_int-decimal n =
    let (digits, some_digit) = decimal_on-digits (suc n) n [] refl (omega arith) in
    parse_int-digits (decimal_on (suc n) n []) digits some_digit
    ∙ ap (λ m. some m) (decimal_from-decimal_on (suc n) n [] (omega arith))

pub decimal_some : (n : ℕ) → is_empty (decimal n) ≡ false
unfolding decimal
decimal_some n = (decimal_on-digits (suc n) n [] refl (omega arith)).1
