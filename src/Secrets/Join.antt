-- ===== src/Secrets/Join.antt =====
-- Which credentials `matchJoinCredential` of credentials.ts accepts, and as what.
use wrangle_webhooks.Base.{
  Bool-cases, is_some, is_empty, Text, ◌≡◌, refl, ◌↔◌, ◌⊎◌, inl, inr, true, false, some, arith,
}
use wrangle_webhooks.Secrets.{
  utf8, timing_safe_equal_string, operator_role, derive_route_secret, match_join_credential,
}
use wrangle_webhooks.Secrets.TimingSafe.{timing_safe_equal_iff}

module _ (hmac : Text → Text → Text) (operator_secret : Text) where
  -- What is presented is the same text, in UTF-8.
  abbrev pub IsSecret : Text → Text → Type 0
  IsSecret given secret = (is_empty given ≡ false) × (utf8 given ≡ utf8 secret)

  pub match_join_credential_iff :
      (given route : Text)
      → ((match_join_credential hmac (some given) operator_secret route ≡ some operator_role)
          ↔ IsSecret given operator_secret)
        × ((is_some (match_join_credential hmac (some given) operator_secret route) ≡ true) ↔ (
            IsSecret given operator_secret
            ⊎ IsSecret given (derive_route_secret hmac operator_secret route)))
  unfolding match_join_credential
  match_join_credential_iff given route =
      let own = derive_route_secret hmac operator_secret route in
      elim (Bool-cases (is_empty given)) [
        | inl e ↦ rw e ((λ h. cc, λ h. cc), (λ h. cc, λ h. elim h [ inl a ↦ cc | inr b ↦ cc ]))
        | inr e ↦ elim (Bool-cases (timing_safe_equal_string given operator_secret)) [
          | inl k ↦
              let same = (timing_safe_equal_iff given operator_secret).0 k in
              rw (e, k) ((λ h. (refl, same), λ h. refl), (λ h. inl (refl, same), λ h. refl))
          | inr k ↦ elim (Bool-cases (timing_safe_equal_string given own)) [
            | inl m ↦
                let same = (timing_safe_equal_iff given own).0 m in
                rw (e, k, m)
                  (
                    (
                      λ h. cc,
                      λ h. ground (arith, (timing_safe_equal_iff given operator_secret).1 h.1),
                    ),
                    (λ h. inr (refl, same), λ h. refl),
                  )
            | inr m ↦
                rw (e, k, m)
                  (
                    (
                      λ h. cc,
                      λ h. ground (arith, (timing_safe_equal_iff given operator_secret).1 h.1),
                    ),
                    (
                      λ h. cc,
                      λ h. elim h [
                        | inl a ↦
                            ground (arith, (timing_safe_equal_iff given operator_secret).1 a.1)
                        | inr b ↦ ground (arith, (timing_safe_equal_iff given own).1 b.1)
                      ],
                    ),
                  )
          ]
        ]
      ]
