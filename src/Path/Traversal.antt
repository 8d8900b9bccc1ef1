-- ===== src/Path/Traversal.antt =====
-- What the traversal filter establishes, and the remaining path behind a route prefix.
use wrangle_webhooks.Base.{
  Bool-cases, length, drop, Text, codes, text_eq, starts_with, ℕ, zero, suc, ◌≤◌, ◌≡◌, refl, ◌≢◌,
  ◌↔◌, inl, inr, true, false, [], ◌∷◌, ◌++◌, arith,
}
use wrangle_webhooks.Base.TextLaws.{text_eq_iff, text_eq_refl}
use wrangle_webhooks.Path.Uri.{decode_once}
use wrangle_webhooks.Path.Ingress.{
  path_segments_include_dot_dot, dot_dot_from, public_path_has_dot_dot_segment,
  remaining_path_from_public_url,
}

-- The path after so many rounds of percent decoding.
abbrev pub decode_times : ℕ → Text → Text
decode_times zero p = p
decode_times (suc n) p = decode_times n (decode_once p)

decode_times_fixed : (n : ℕ) (p : Text) → decode_once p ≡ p → decode_times n p ≡ p
decode_times_fixed zero p e = refl
decode_times_fixed (suc n) p e = rw e (decode_times_fixed n p e)

dot_dot_from_sound :
    (rounds k : ℕ) (p : Text)
    → k ≤ rounds
    → dot_dot_from rounds p ≡ false
    → path_segments_include_dot_dot (decode_times k p) ≡ false
unfolding dot_dot_from
dot_dot_from_sound zero zero p h e = e
dot_dot_from_sound zero (suc k) p h e = absurd (omega arith)
dot_dot_from_sound (suc rounds) zero p h e = ground arith
dot_dot_from_sound (suc rounds) (suc k) p h e = elim (Bool-cases (text_eq (decode_once p) p)) [
  | inl same ↦
      let fixed = (text_eq_iff _ _).0 same in rw (decode_times_fixed (suc k) p fixed) (ground arith)
  | inr moved ↦ dot_dot_from_sound rounds k (decode_once p) (omega arith) (ground arith)
]

dot_dot_from_complete :
    (rounds : ℕ) (p : Text)
    → dot_dot_from rounds p ≡ true
    → (k : ℕ) × (k ≤ rounds) × (path_segments_include_dot_dot (decode_times k p) ≡ true)
unfolding dot_dot_from
dot_dot_from_complete zero p e = (0, omega arith, e)
dot_dot_from_complete (suc rounds) p e = elim (Bool-cases (path_segments_include_dot_dot p)) [
  | inl now ↦ (0, omega arith, now)
  | inr later ↦
      let (k, h, found) = dot_dot_from_complete rounds (decode_once p) (ground arith) in
      (suc k, omega arith, found)
]

-- A path passes the traversal filter exactly when it has no ".." segment now and after one to four
-- rounds of percent decoding.
pub no_dot_dot_iff :
    (p : Text)
    → (public_path_has_dot_dot_segment p ≡ false)
      ↔ ((k : ℕ) → k ≤ 4 → path_segments_include_dot_dot (decode_times k p) ≡ false)
unfolding public_path_has_dot_dot_segment
no_dot_dot_iff p = (
  λ e k h. dot_dot_from_sound 4 k p h e,
  λ all. elim (Bool-cases (dot_dot_from 4 p)) [
    | inl found ↦
        let (k, h, seen) = dot_dot_from_complete 4 p found in absurd (ground (arith, all k h))
    | inr clear ↦ clear
  ],
)

drop-append : (s t : Text) → drop (length s) (s ++ t) ≡ t
drop-append [] t = refl
drop-append (a ∷ s) t = drop-append s t

append-ne : (s t : Text) (c : ℕ) → s ++ (c ∷ t) ≢ s
append-ne [] t c e = ground arith
append-ne (a ∷ s) t c e = append-ne s t c (ground arith)

starts_with-append : (s t : Text) → starts_with (s ++ t) s ≡ true
unfolding starts_with
starts_with-append [] t = refl
starts_with-append (a ∷ s) t = ground (arith, starts_with-append s t)

starts_with-append_slash :
    (s t : Text) (c : ℕ) → starts_with (s ++ (c ∷ t)) (s ++ codes "/") ≡ true → c ≡ b'/'
unfolding starts_with
starts_with-append_slash [] t c h = ground arith
starts_with-append_slash (a ∷ s) t c h = ground (arith, starts_with-append_slash s t c)

append_slash_starts : (s t : Text) → starts_with (s ++ (b'/' ∷ t)) (s ++ codes "/") ≡ true
unfolding starts_with
append_slash_starts [] t = refl
append_slash_starts (a ∷ s) t = ground (arith, append_slash_starts s t)

-- Behind a route's prefix exactly the prefix is removed when a slash follows it, nothing remains
-- when the path is the prefix alone, and a path in which the prefix is only part of a longer first
-- segment is left whole.
pub remaining_path_prefix :
    (a : ℕ) (id rest : Text) (c : ℕ)
    → let route = a ∷ id in
      let prefix = b'/' ∷ route in
      (remaining_path_from_public_url (prefix ++ (b'/' ∷ rest)) route ≡ b'/' ∷ rest)
      × (remaining_path_from_public_url prefix route ≡ [])
      × (c ≢ b'/'
          → remaining_path_from_public_url (prefix ++ (c ∷ rest)) route ≡ prefix ++ (c ∷ rest))
unfolding remaining_path_from_public_url
remaining_path_prefix a id rest c = (
  ground (
    arith,
    drop-append id (b'/' ∷ rest),
    append_slash_starts id rest,
    append-ne id rest b'/',
    text_eq_iff (id ++ (b'/' ∷ rest)) id,
  ),
  ground (arith, text_eq_refl id),
  λ n. ground (
    arith,
    starts_with-append_slash id rest c,
    append-ne id rest c,
    text_eq_iff (id ++ (c ∷ rest)) id,
  ),
)
