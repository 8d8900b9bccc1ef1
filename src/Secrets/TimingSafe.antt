-- ===== src/Secrets/TimingSafe.antt =====
-- The comparison by exclusive or is equality of the bytes.
use Prim.Native.Nat.{bit_or, bit_xor, bit_or-bitwise, bit_xor-bitwise, digits, differ, max}
use wrangle_webhooks.Base.{
  ◌==◌, Bool-cases, length, drop, Text, ℕ, zero, suc, ◌/◌, ◌%◌, ◌≤◌, max, ◌≡◌, refl, ap, ◌≢◌, ◌↔◌,
  inl, inr, true, List, [], ◌∷◌, arith,
}
use wrangle_webhooks.Secrets.{utf8, head_or_zero, mismatch_from, timing_safe_equal_string}

differ_zero : (x y : ℕ) → (differ x y ≡ 0) ↔ (x ≡ y)
differ_zero zero y = ground arith
differ_zero (suc x) zero = ground arith
differ_zero (suc x) (suc y) = ground (arith, differ_zero x y)

xor_digits_zero : (n a b : ℕ) → a ≤ n → (digits (λ b. b) differ n a b ≡ 0) ↔ (a ≡ b)
xor_digits_zero zero zero b h = ground arith
xor_digits_zero zero (suc a) b h = absurd (omega arith)
xor_digits_zero (suc n) zero b h = ground arith
xor_digits_zero (suc n) (suc a) b h =
    ground
      (arith, xor_digits_zero n (suc a / 2) (b / 2) (omega arith), differ_zero (suc a % 2) (b % 2))

or_digits_zero : (n a b : ℕ) → a ≤ n → (digits (λ b. b) max n a b ≡ 0) ↔ ((a ≡ 0) × (b ≡ 0))
or_digits_zero zero zero b h = ground arith
or_digits_zero zero (suc a) b h = absurd (omega arith)
or_digits_zero (suc n) zero b h = ground arith
or_digits_zero (suc n) (suc a) b h =
    ground (arith, or_digits_zero n (suc a / 2) (b / 2) (omega arith))

bit_xor_zero : (a b : ℕ) → (bit_xor a b ≡ 0) ↔ (a ≡ b)
bit_xor_zero a b = rw (bit_xor-bitwise a b) (xor_digits_zero a a b (omega arith))

bit_or_zero : (a b : ℕ) → (bit_or a b ≡ 0) ↔ ((a ≡ 0) × (b ≡ 0))
bit_or_zero a b = rw (bit_or-bitwise a b) (or_digits_zero a a b (omega arith))

mismatch_zero :
    (n : ℕ) (l r : List ℕ) (m : ℕ)
    → length l ≡ length r
    → length l ≤ n
    → (mismatch_from n l r m ≡ 0) ↔ ((m ≡ 0) × (l ≡ r))
unfolding mismatch_from
mismatch_zero zero [] [] m e h = (λ z. (z, refl), λ z. z.0)
mismatch_zero zero (a ∷ l) r m e h = absurd (omega arith)
mismatch_zero zero [] (b ∷ r) m e h = absurd (omega arith)
mismatch_zero (suc n) [] [] m e h = ground (
  arith,
  mismatch_zero n [] [] (bit_or m (bit_xor 0 0)) refl (omega arith),
  bit_or_zero m (bit_xor 0 0),
  bit_xor_zero 0 0,
)
mismatch_zero (suc n) [] (b ∷ r) m e h = absurd (omega arith)
mismatch_zero (suc n) (a ∷ l) [] m e h = absurd (omega arith)
mismatch_zero (suc n) (a ∷ l) (b ∷ r) m e h = ground (
  arith,
  mismatch_zero n l r (bit_or m (bit_xor a b)) (omega arith) (omega arith),
  bit_or_zero m (bit_xor a b),
  bit_xor_zero a b,
)

mismatch_pos : (n : ℕ) (l r : List ℕ) (m : ℕ) → m ≢ 0 → mismatch_from n l r m ≢ 0
unfolding mismatch_from
mismatch_pos zero l r m h = h
mismatch_pos (suc n) l r m h =
    let x = bit_xor (head_or_zero l) (head_or_zero r) in
    mismatch_pos n (drop 1 l) (drop 1 r) (bit_or m x) (λ e. h (((bit_or_zero m x).0 e).0))

-- Two texts are taken for equal exactly when their UTF-8 encodings are equal, whatever their
-- lengths.
pub timing_safe_equal_iff : (s t : Text) → (timing_safe_equal_string s t ≡ true) ↔ (utf8 s ≡ utf8 t)
unfolding timing_safe_equal_string
timing_safe_equal_iff s t = elim (Bool-cases (length (utf8 s) == length (utf8 t))) [
  | inl same ↦ ground (
    arith,
    mismatch_zero (max (max (length (utf8 s)) (length (utf8 t))) 1) (utf8 s) (utf8 t) 0
        (ground arith) (omega arith),
  )
  | inr differs ↦ ground (
    arith,
    mismatch_pos (max (max (length (utf8 s)) (length (utf8 t))) 1) (utf8 s) (utf8 t) 1
        (omega arith),
    λ (e : utf8 s ≡ utf8 t). ap length e,
  )
]
