-- ===== src/Base/TextLaws.antt =====
-- Laws of the text functions.
use wrangle_webhooks.Base.{
  ℕ, ◌≡◌, refl, ◌↔◌, Bool, true, false, [], ◌∷◌, arith, some, Text, text_eq, has_unit, before,
  split, strip_start, strip_end, head?, length, starts_with, ◌≤◌, ◌++◌,
}

pub text_eq_iff : (s t : Text) → (text_eq s t ≡ true) ↔ (s ≡ t)
unfolding text_eq
text_eq_iff [] [] = ground arith
text_eq_iff [] (b ∷ t) = ground arith
text_eq_iff (a ∷ s) [] = ground arith
text_eq_iff (a ∷ s) (b ∷ t) = ground (arith, text_eq_iff s t)

pub text_eq_refl : (s : Text) → text_eq s s ≡ true
text_eq_refl s = (text_eq_iff s s).1 refl

pub has_unit-before : (c d : ℕ) (s : Text) → has_unit c s ≡ false → has_unit c (before d s) ≡ false
unfolding has_unit before
has_unit-before c d [] h = refl
has_unit-before c d (a ∷ s) h = ground (arith, has_unit-before c d s)

pub has_unit-before_self : (c : ℕ) (s : Text) → has_unit c (before c s) ≡ false
unfolding has_unit before
has_unit-before_self c [] = refl
has_unit-before_self c (a ∷ s) = ground (arith, has_unit-before_self c s)

pub before_absent : (c : ℕ) (s : Text) → has_unit c s ≡ false → before c s ≡ s
unfolding has_unit before
before_absent c [] h = refl
before_absent c (a ∷ s) h = ground (arith, before_absent c s)

pub has_unit-strip_start :
    (c : ℕ) (p : ℕ → Bool) (s : Text) → has_unit c s ≡ false → has_unit c (strip_start p s) ≡ false
unfolding has_unit strip_start
has_unit-strip_start c p [] h = refl
has_unit-strip_start c p (a ∷ s) h = ground (arith, has_unit-strip_start c p s)

pub has_unit-strip_end :
    (c : ℕ) (p : ℕ → Bool) (s : Text) → has_unit c s ≡ false → has_unit c (strip_end p s) ≡ false
unfolding has_unit strip_end
has_unit-strip_end c p [] h = refl
has_unit-strip_end c p (a ∷ s) h = ground (arith, has_unit-strip_end c p s)

pub head?-split : (c : ℕ) (s : Text) → head? (split c s) ≡ some (before c s)
unfolding split before
head?-split c [] = refl
head?-split c (a ∷ s) = ground (arith, head?-split c s)

pub starts_with_iff : (s p : Text) → (starts_with s p ≡ true) ↔ ((r : Text) × (s ≡ p ++ r))
unfolding starts_with
starts_with_iff s [] = (λ _. (s, refl), λ _. refl)
starts_with_iff [] (b ∷ p) = (λ h. cc, λ (r, e). cc)
starts_with_iff (a ∷ s) (b ∷ p) = (
  (λ h. let (r, e) = (starts_with_iff s p).0 (ground arith) in (r, ground arith)),
  (λ (r, e). ground (arith, (starts_with_iff s p).1 (r, ground arith))),
)

pub strip_end_idem : (p : ℕ → Bool) (s : Text) → strip_end p (strip_end p s) ≡ strip_end p s
unfolding strip_end
strip_end_idem p [] = refl
strip_end_idem p (a ∷ s) = ground (arith, strip_end_idem p s)

pub length-strip_end-le : (p : ℕ → Bool) (s : Text) → length (strip_end p s) ≤ length s
unfolding strip_end
length-strip_end-le p [] = omega arith
length-strip_end-le p (a ∷ s) = ground (arith, length-strip_end-le p s)

-- What keeps its length was not stripped.
pub strip_end_full :
    (p : ℕ → Bool) (s : Text) → length s ≤ length (strip_end p s) → strip_end p s ≡ s
unfolding strip_end
strip_end_full p [] h = refl
strip_end_full p (a ∷ s) h = ground (arith, strip_end_full p s)

pub strip_end-cons :
    (p : ℕ → Bool) (a : ℕ) (s : Text) → p a ≡ false → strip_end p (a ∷ s) ≡ a ∷ strip_end p s
unfolding strip_end
strip_end-cons p a s h = ground arith

-- A text without the separator is one part, and one before a separator is the first.
pub split_absent : (c : ℕ) (s : Text) → has_unit c s ≡ false → split c s ≡ s ∷ []
unfolding split has_unit
split_absent c [] h = refl
split_absent c (a ∷ s) h = rw (split_absent c s (ground arith)) (ground arith)

pub split_at : (c : ℕ) (s t : Text) → has_unit c s ≡ false → split c (s ++ (c ∷ t)) ≡ s ∷ split c t
unfolding split has_unit
split_at c [] t h = ground arith
split_at c (a ∷ s) t h = rw (split_at c s t (ground arith)) (ground arith)
