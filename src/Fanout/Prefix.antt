-- ===== src/Fanout/Prefix.antt =====
-- A prefix rule respects the borders of path segments.
use mathlib.Core.List.{append_assoc}
use wrangle_webhooks.Base.TextLaws.{text_eq_iff, starts_with_iff}
use wrangle_webhooks.Base.{
  Text, codes, ◌≡◌, ◌∙◌, ◌≢◌, ◌↔◌, ◌⊎◌, true, ◌∷◌, ◌++◌, starts_with, split, sym, inl, inr, arith,
}
use wrangle_webhooks.Path.Remaining.{normalize_webhook_filter_path}
use wrangle_webhooks.Fanout.{remaining_path_matches_webhook_prefix}

prefix_slash : (s p r : Text) → s ≡ (p ++ codes "/") ++ r → s ≡ p ++ (b'/' ∷ r)
prefix_slash s p r e = e ∙ append_assoc p (codes "/") r

segment_cases :
    (p q : Text)
    → ((starts_with p (q ++ codes "/")) ≡ true) ↔ ((rest : Text) × (p ≡ q ++ (b'/' ∷ rest)))
segment_cases p q =
    let (to, from) = starts_with_iff p (q ++ codes "/") in
    (
      λ h. let (r, e) = to h in (r, prefix_slash p q r e),
      λ (r, e). from (r, e ∙ sym (append_assoc q (codes "/") r)),
    )

open_test :
    (path prefix : Text)
    → let p = normalize_webhook_filter_path path in
      let q = normalize_webhook_filter_path prefix in
      (remaining_path_matches_webhook_prefix path prefix ≡ true)
      ↔ ((q ≢ codes "/") × ((p ≡ q) ⊎ (starts_with p (q ++ codes "/") ≡ true)))
unfolding remaining_path_matches_webhook_prefix
open_test path prefix =
    let p = normalize_webhook_filter_path path in
    let q = normalize_webhook_filter_path prefix in
    ground (arith, text_eq_iff q (codes "/"), text_eq_iff p q)

-- A remaining path matches a prefix exactly when the normal form of the prefix is not the root and
-- the normal form of the path is the prefix itself or the prefix, a slash and anything more.
pub matches_iff :
    (path prefix : Text)
    → let p = normalize_webhook_filter_path path in
      let q = normalize_webhook_filter_path prefix in
      (remaining_path_matches_webhook_prefix path prefix ≡ true)
      ↔ ((q ≢ codes "/") × ((p ≡ q) ⊎ ((rest : Text) × (p ≡ q ++ (b'/' ∷ rest)))))
matches_iff path prefix =
    let p = normalize_webhook_filter_path path in
    let q = normalize_webhook_filter_path prefix in
    let (to, from) = open_test path prefix in
    let (split, join) = segment_cases p q in
    (
      λ h. let (n, c) = to h in (n, elim c [ inl e ↦ inl e | inr e ↦ inr (split e) ]),
      λ (n, c). from (n, elim c [ inl e ↦ inl e | inr e ↦ inr (join e) ]),
    )
