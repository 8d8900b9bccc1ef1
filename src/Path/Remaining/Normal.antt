-- ===== src/Path/Remaining/Normal.antt =====
-- The normal form of a remaining path, and when normalising is stable.
use wrangle_webhooks.Base.{
  Bool-cases, is_empty, Text, codes, starts_with, has_unit, before, strip_end, is_space, trim,
  or_text, ℕ, ◌≡◌, refl, ◌≢◌, ◌⊎◌, inl, inr, true, false, [], ◌∷◌, arith, length, strip_start, ◌≤◌,
  Bool, sym, ap, ◌∙◌, ◌↔◌,
}
use wrangle_webhooks.Base.TextLaws.{
  has_unit-before, has_unit-before_self, before_absent, has_unit-strip_start, has_unit-strip_end,
  strip_end_idem, length-strip_end-le, strip_end_full,
}
use wrangle_webhooks.Path.Scanner.{with_slash}
use wrangle_webhooks.Path.Remaining.{is_slash, normalize_path, normalize_webhook_filter_path}

has_unit-with_slash :
    (c : ℕ) (s : Text) → c ≢ b'/' → has_unit c s ≡ false → has_unit c (with_slash s) ≡ false
unfolding has_unit with_slash
has_unit-with_slash c s n h = ground arith

pub has_unit-trim : (c : ℕ) (s : Text) → has_unit c s ≡ false → has_unit c (trim s) ≡ false
unfolding trim
has_unit-trim c s h = has_unit-strip_end c is_space _ (has_unit-strip_start c is_space s h)

-- Normalising brings in no code unit but the slash.
pub has_unit-normalize_path :
    (c : ℕ) (p : Text)
    → c ≢ b'/'
    → has_unit c (before b'#' (before b'?' p)) ≡ false
    → has_unit c (normalize_path p) ≡ false
unfolding normalize_path or_text has_unit
has_unit-normalize_path c p n h = ground (
  arith,
  has_unit-strip_end c is_slash _
      (has_unit-with_slash c _ n (has_unit-trim c (before b'#' (before b'?' p)) h)),
)

pub normalize_path_no_query : (p : Text) → has_unit b'?' (normalize_path p) ≡ false
normalize_path_no_query p =
    has_unit-normalize_path b'?' p (omega arith)
      (has_unit-before b'?' b'#' _ (has_unit-before_self b'?' p))

pub normalize_path_no_hash : (p : Text) → has_unit b'#' (normalize_path p) ≡ false
normalize_path_no_hash p =
    has_unit-normalize_path b'#' p (omega arith) (has_unit-before_self b'#' _)

-- The normal form is "/" or a text that begins with a slash and does not end with one.
abbrev pub IsNormal : Text → Type 0
IsNormal n = (n ≡ codes "/") ⊎ ((starts_with n (codes "/") ≡ true) × (strip_end is_slash n ≡ n))

rooted-with_slash : (s : Text) → starts_with (with_slash s) (codes "/") ≡ true
unfolding with_slash starts_with
rooted-with_slash s = ground arith

rooted-strip_end :
    (s : Text)
    → starts_with s (codes "/") ≡ true
    → (strip_end is_slash s ≡ []) ⊎ (starts_with (strip_end is_slash s) (codes "/") ≡ true)
unfolding starts_with strip_end
rooted-strip_end [] h = inl refl
rooted-strip_end (a ∷ s) h = ground arith

or_text-IsNormal :
    (s : Text)
    → (s ≡ []) ⊎ (starts_with s (codes "/") ≡ true)
    → strip_end is_slash s ≡ s
    → IsNormal (or_text s (codes "/"))
unfolding or_text starts_with
or_text-IsNormal [] h k = inl refl
or_text-IsNormal (a ∷ s) (inl e) k = cc
or_text-IsNormal (a ∷ s) (inr e) k = inr (e, k)

pub normalize_path-IsNormal : (p : Text) → IsNormal (normalize_path p)
unfolding normalize_path
normalize_path-IsNormal p =
    let t = trim (before b'#' (before b'?' p)) in
    let n =
      or_text-IsNormal (strip_end is_slash (with_slash t))
        (rooted-strip_end (with_slash t) (rooted-with_slash t))
        (strip_end_idem is_slash (with_slash t)) in
    elim (Bool-cases (is_empty t)) [ inl e ↦ rw e (inl refl) | inr e ↦ rw e n ]

normal_rooted : (n : Text) → IsNormal n → starts_with n (codes "/") ≡ true
unfolding starts_with
normal_rooted n (inl e) = rw e refl
normal_rooted n (inr h) = h.0

normal_strip : (n : Text) → IsNormal n → or_text (strip_end is_slash n) (codes "/") ≡ n
unfolding starts_with strip_end or_text is_slash
normal_strip n (inl e) = rw e refl
normal_strip [] (inr h) = ground arith
normal_strip (a ∷ s) (inr h) = rw (h.1) refl

length-strip_start-le : (p : ℕ → Bool) (s : Text) → length (strip_start p s) ≤ length s
unfolding strip_start
length-strip_start-le p [] = omega arith
length-strip_start-le p (a ∷ s) = ground (arith, length-strip_start-le p s)

-- A rooted text has no white space to lose at its start.
trim_rooted : (n : Text) → starts_with n (codes "/") ≡ true → trim n ≡ strip_end is_space n
unfolding trim strip_start starts_with is_space
trim_rooted [] r = refl
trim_rooted (a ∷ s) r = ground arith

trim_still_rooted :
    (n : Text)
    → starts_with n (codes "/") ≡ true
    → starts_with (strip_end is_space n) (codes "/") ≡ true
unfolding starts_with strip_end is_space
trim_still_rooted [] r = r
trim_still_rooted (a ∷ s) r = ground arith

with_slash_rooted : (n : Text) → starts_with n (codes "/") ≡ true → with_slash n ≡ n
unfolding with_slash
with_slash_rooted n r = ground arith

is_empty_rooted : (n : Text) → starts_with n (codes "/") ≡ true → is_empty n ≡ false
unfolding starts_with
is_empty_rooted n r = ground arith

-- On a rooted text without query and fragment only the stripping is left.
normalize_path_rooted :
    (n : Text)
    → has_unit b'?' n ≡ false
    → has_unit b'#' n ≡ false
    → starts_with n (codes "/") ≡ true
    → normalize_path n ≡ or_text (strip_end is_slash (strip_end is_space n)) (codes "/")
unfolding normalize_path
normalize_path_rooted n q h r =
    let t = trim_still_rooted n r in
    rw
      (
        before_absent b'?' n q,
        before_absent b'#' n h,
        trim_rooted n r,
        with_slash_rooted _ t,
        is_empty_rooted _ t,
      )
      refl

or_text_slash :
    (n t : Text)
    → length t ≤ length n
    → or_text (strip_end is_slash t) (codes "/") ≡ n
    → (n ≡ codes "/") ⊎ (length n ≤ length t)
unfolding or_text
or_text_slash n t l e = ground (arith, length-strip_end-le is_slash t)

strip_root : strip_end is_space (codes "/") ≡ codes "/"
unfolding strip_end is_space
strip_root = refl

-- Normalising a normal form leaves it alone exactly when it was trimmed already.
pub normal_stable_iff :
    (n : Text)
    → IsNormal n
    → has_unit b'?' n ≡ false
    → has_unit b'#' n ≡ false
    → (normalize_path n ≡ n) ↔ (trim n ≡ n)
normal_stable_iff n k q h = (λ e. rw (trim_rooted n r) (to (sym step ∙ e)), from)
  where
    r : starts_with n (codes "/") ≡ true
    r = normal_rooted n k

    step : normalize_path n ≡ or_text (strip_end is_slash (strip_end is_space n)) (codes "/")
    step = normalize_path_rooted n q h r

    to :
        or_text (strip_end is_slash (strip_end is_space n)) (codes "/") ≡ n
        → strip_end is_space n ≡ n
    to e = elim (or_text_slash n _ (length-strip_end-le is_space n) e) [
      | inl root ↦ rw root strip_root
      | inr l ↦ strip_end_full is_space n l
    ]

    from : trim n ≡ n → normalize_path n ≡ n
    from t =
        step
        ∙ ap (λ m. or_text (strip_end is_slash m) (codes "/")) (sym (trim_rooted n r) ∙ t)
        ∙ normal_strip n k

-- Normalising a webhook filter path twice gives what normalising it once gives, exactly when the
-- once normalised path has no white space at its end.
pub normalize_webhook_filter_path_idem_iff :
    (p : Text)
    → let n = normalize_webhook_filter_path p in
      (normalize_webhook_filter_path n ≡ n) ↔ (trim n ≡ n)
unfolding normalize_webhook_filter_path
normalize_webhook_filter_path_idem_iff p =
    normal_stable_iff (normalize_path p) (normalize_path-IsNormal p) (normalize_path_no_query p)
      (normalize_path_no_hash p)
