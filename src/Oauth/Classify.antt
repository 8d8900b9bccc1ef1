-- ===== src/Oauth/Classify.antt =====
-- When a request is proxied, rejected or fanned out.
use wrangle_webhooks.Base.{
  or_else, any, Any, Text, text_eq, starts_with, ◌≡◌, ◌≢◌, ◌↔◌, ◌⊎◌, true, false, Option, some,
  List, [], ◌∷◌, arith,
}
use wrangle_webhooks.Base.TextLaws.{text_eq_iff}
use wrangle_webhooks.Path.Remaining.{
  normalize_oauth_callback_path, is_allowlisted_oauth_callback_path, looks_like_oauth_callback_path,
}
use wrangle_webhooks.Oauth.{
  oauth_state_prefix, Params, oauth, fanout, truthy, is_oauth_callback_method, DeliveryOptions,
  classify, oauth_callback_result_params, classify_delivery,
}

-- The registered path is, in normal form, the remaining path.
abbrev pub IsRegistered : Text → List Text → Type 0
IsRegistered path allowed =
    Any (λ a. normalize_oauth_callback_path a ≡ normalize_oauth_callback_path path) allowed

abbrev HasText : Option Text → Type 0
HasText o = (s : Text) × (o ≡ some s) × (s ≢ [])

any_registered :
    (n : Text) (allowed : List Text)
    → (any (λ a. text_eq (normalize_oauth_callback_path a) n) allowed ≡ true)
      ↔ Any (λ a. normalize_oauth_callback_path a ≡ n) allowed
any_registered n [] = ground arith
any_registered n (a ∷ allowed) =
    ground (arith, any_registered n allowed, text_eq_iff (normalize_oauth_callback_path a) n)

IsRegistered-iff :
    (path : Text) (allowed : List Text)
    → (is_allowlisted_oauth_callback_path path allowed ≡ true) ↔ IsRegistered path allowed
unfolding is_allowlisted_oauth_callback_path
IsRegistered-iff path [] = ground arith
IsRegistered-iff path (a ∷ allowed) =
    any_registered (normalize_oauth_callback_path path) (a ∷ allowed)

module _ (parse_params : Text → Params) where
  -- A request is proxied to one subscriber exactly when its path is registered, it carries a code or
  -- an error, and its method, where one is given, is GET or POST. It is fanned out exactly when its
  -- path is not registered, does not look like a callback, and its state has no signature prefix.
  pub classify_delivery_iff :
      (o : DeliveryOptions)
      → let r = oauth_callback_result_params parse_params o.search o.form in
        ((classify_delivery parse_params o ≡ oauth) ↔ (
          IsRegistered o.remaining_path o.allowed_callback_paths
          × ((truthy r.code ≡ true) ⊎ (truthy r.error ≡ true))
          × ((truthy o.method ≡ false) ⊎ (is_oauth_callback_method (or_else o.method []) ≡ true))))
        × ((classify_delivery parse_params o ≡ fanout) ↔ (
            (¬ IsRegistered o.remaining_path o.allowed_callback_paths)
            × (looks_like_oauth_callback_path o.remaining_path ≡ false)
            × (starts_with (or_else r.state []) oauth_state_prefix ≡ false)))
  unfolding classify_delivery classify
  classify_delivery_iff o =
      ground (arith, IsRegistered-iff o.remaining_path o.allowed_callback_paths)
