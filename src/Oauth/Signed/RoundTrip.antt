-- ===== src/Oauth/Signed/RoundTrip.antt =====
-- What wrapping a state and unwrapping it again gives, for oauth-state.ts.
use wrangle_webhooks.Base.{
  ltb, if◌then◌else◌, Bool-cases, or_else, length, is_empty, drop, Text, starts_with, has_unit, ℕ,
  ◌+◌, ◌≡◌, refl, ap, subst, inl, inr, true, false, Option, none, some, [], ◌∷◌, ◌++◌, arith,
}
use wrangle_webhooks.Base.TextLaws.{starts_with_iff}
use wrangle_webhooks.Secrets.TimingSafe.{timing_safe_equal_iff}
use wrangle_webhooks.Oauth.{oauth_state_prefix, oauth_state_ttl_ms, truthy}
use wrangle_webhooks.Oauth.Signed.{
  missing, num, str, SignedOauthState, split_last, accept_payload, wrap_oauth_state, unwrap_parts,
  unwrap_oauth_state,
}

split_last_absent : (c : ℕ) (s : Text) → has_unit c s ≡ false → split_last c s ≡ none
unfolding split_last has_unit
split_last_absent c [] h = refl
split_last_absent c (a ∷ s) h = rw (split_last_absent c s (ground arith)) (ground arith)

pub split_last_at :
    (c : ℕ) (s t : Text) → has_unit c t ≡ false → split_last c (s ++ (c ∷ t)) ≡ some (s, t)
unfolding split_last
split_last_at c [] t h = rw (split_last_absent c t h) (ground arith)
split_last_at c (a ∷ s) t h = rw (split_last_at c s t h) refl

starts_with-append : (p s : Text) → starts_with (p ++ s) p ≡ true
starts_with-append p s = (starts_with_iff (p ++ s) p).1 (s, refl)

drop-append : (p s : Text) → drop (length p) (p ++ s) ≡ s
drop-append [] s = refl
drop-append (a ∷ p) s = drop-append p s

-- What the code relies on: base64url of JSON is read back and is not empty, and neither it nor a MAC
-- in base64url has a dot.
module _ (hmac : Text → Text → Text) (encode : SignedOauthState → Text)
    (decode : Text → Option SignedOauthState)
    (decode-encode : (p : SignedOauthState) → decode (encode p) ≡ some p)
    (encoded_some : (p : SignedOauthState) → is_empty (encode p) ≡ false)
    (mac_no_dot : (secret text : Text) → has_unit b'.' (hmac secret text) ≡ false) where
  -- The payload of a wrapped state.
  abbrev payload_for : Text → Text → Option Text → ℕ → SignedOauthState
  payload_for subscriber_id route_id inner now = record {
    v = num 1;
    sub = str subscriber_id;
    route = str route_id;
    exp = num (now + oauth_state_ttl_ms);
    d = if truthy inner then str (or_else inner []) else missing;
  }

  unwrapped :
      (secret : Text) (p : SignedOauthState) (later : ℕ)
      → unwrap_oauth_state hmac encode decode secret
          (oauth_state_prefix ++ (encode p ++ (b'.' ∷ hmac secret (encode p))))
          later
        ≡ accept_payload later p
  unfolding unwrap_oauth_state unwrap_parts
  unwrapped secret p later =
      let body = encode p ++ (b'.' ∷ hmac secret (encode p)) in
      let mac = hmac secret (encode p) in
      rw
        (
          starts_with-append oauth_state_prefix body,
          drop-append oauth_state_prefix body,
          split_last_at b'.' (encode p) mac (mac_no_dot secret (encode p)),
          encoded_some p,
          (timing_safe_equal_iff mac mac).1 refl,
          decode-encode p,
        )
        refl

  -- A state that was wrapped for a subscriber and a route is unwrapped, under the same secret and
  -- within 15 minutes, to exactly that subscriber, route and inner state, and later to nothing.
  pub unwrap-wrap :
      (secret subscriber_id route_id : Text) (inner : Option Text) (now later : ℕ) (state : Text)
      → wrap_oauth_state hmac encode decode secret subscriber_id route_id inner now ≡ some state
      → unwrap_oauth_state hmac encode decode secret state later ≡ (
          if ltb (now + oauth_state_ttl_ms) later
          then none
          else some (payload_for subscriber_id route_id inner now))
  unfolding wrap_oauth_state accept_payload
  unwrap-wrap secret subscriber_id route_id inner now later state h =
      let p = payload_for subscriber_id route_id inner now in
      elim (Bool-cases (is_empty subscriber_id)) [
        | inl e ↦ let k = rw e at h in cc
        | inr e ↦
            let same = ap (λ (o : Option Text). or_else o []) (rw e at h) in
            subst
              (λ t.
                unwrap_oauth_state hmac encode decode secret t later
                ≡ (if ltb (now + oauth_state_ttl_ms) later then none else some p))
              same (unwrapped secret p later)
      ]
