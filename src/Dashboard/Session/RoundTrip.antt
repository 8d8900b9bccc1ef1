-- ===== src/Dashboard/Session/RoundTrip.antt =====
-- What minting a session and verifying it gives, for dashboard-session.ts.
use wrangle_webhooks.Base.TextLaws.{split_absent}
use wrangle_webhooks.Base.{
  decimal, decimal_on, ltb, ◌==◌, if◌then◌else◌, is_empty, any, all, Text, codes, text_eq, has_unit,
  before, strip_start, strip_end, is_space, trim, is_digit, is_letter, ℕ, suc, ◌+◌, ◌/◌, ◌≡◌, refl,
  Bool, true, false, not, ◌||◌, some, [], ◌∷◌, ◌++◌, arith,
}
use wrangle_webhooks.Secrets.TimingSafe.{timing_safe_equal_iff}
use wrangle_webhooks.Oauth.Signed.RoundTrip.{split_last_at}
use wrangle_webhooks.Dashboard.Session.{
  dashboard_cookie_name, dashboard_session_ttl_ms, dashboard_session_payload,
  mint_dashboard_session, verify_parts, verify_dashboard_session, cookie_value, find_cookie,
  read_dashboard_session, require_dashboard_auth, serialize_dashboard_cookie,
  dashboard_session_set_cookie,
}
use wrangle_webhooks.Dashboard.Session.Decimal.{decimal_on-digits, parse_int-decimal, decimal_some}

cons-some : (c : ℕ) (s t : Text) → is_empty (s ++ (c ∷ t)) ≡ false
cons-some c [] t = refl
cons-some c (a ∷ s) t = refl

any_none :
    (p q : ℕ → Bool) (s : Text)
    → ((c : ℕ) → p c ≡ true → q c ≡ false)
    → all p s ≡ true
    → any q s ≡ false
any_none p q [] k h = refl
any_none p q (c ∷ s) k h = ground (arith, k c, any_none p q s k)

any-append : (q : ℕ → Bool) (s t : Text) → any q (s ++ t) ≡ (any q s || any q t)
any-append q [] t = refl
any-append q (c ∷ s) t = rw (any-append q s t) (ground arith)

-- The letters of base64url.
abbrev pub is_base64url : ℕ → Bool
is_base64url c = (is_letter c || is_digit c) || (c == b'-' || c == b'_')

base64url-plain :
    (c : ℕ)
    → is_base64url c ≡ true
    → (is_space c ≡ false) × ((c == b'.') ≡ false) × ((c == b';') ≡ false)
unfolding is_digit is_letter is_space
base64url-plain c h = (ground arith, ground arith, ground arith)

digit-base64url : (c : ℕ) → is_digit c ≡ true → is_base64url c ≡ true
digit-base64url c h = rw h (ground arith)

-- Texts without spaces are not trimmed.
strip_start_none : (s : Text) → any is_space s ≡ false → strip_start is_space s ≡ s
unfolding strip_start
strip_start_none [] h = refl
strip_start_none (c ∷ s) h = ground arith

strip_end_none : (s : Text) → any is_space s ≡ false → strip_end is_space s ≡ s
unfolding strip_end
strip_end_none [] h = refl
strip_end_none (c ∷ s) h = ground (arith, strip_end_none s)

trim_none : (s : Text) → any is_space s ≡ false → trim s ≡ s
unfolding trim
trim_none s h = rw (strip_start_none s h) (strip_end_none s h)

before_at : (c : ℕ) (s t : Text) → has_unit c s ≡ false → before c (s ++ (c ∷ t)) ≡ s
unfolding before has_unit
before_at c [] t h = ground arith
before_at c (a ∷ s) t h = rw (before_at c s t (ground arith)) (ground arith)

-- What the code relies on: a MAC in base64url has the units of base64url.
module _ (hmac : Text → Text → Text)
    (mac_base64url : (secret text : Text) → all is_base64url (hmac secret text) ≡ true) where
  mac_none :
      (q : ℕ → Bool) (secret text : Text)
      → ((c : ℕ) → is_base64url c ≡ true → q c ≡ false)
      → any q (hmac secret text) ≡ false
  mac_none q secret text k =
      any_none is_base64url q (hmac secret text) k (mac_base64url secret text)

  minted_none :
      (q : ℕ → Bool) (password : Text) (now : ℕ)
      → ((c : ℕ) → is_base64url c ≡ true → q c ≡ false)
      → q b'.' ≡ false
      → any q (mint_dashboard_session hmac password now) ≡ false
  unfolding mint_dashboard_session decimal
  minted_none q password now k dot =
      let exp = now + dashboard_session_ttl_ms in
      let payload = dashboard_session_payload exp in
      let (digits, _) = decimal_on-digits (suc exp) exp [] refl (omega arith) in
      let before_dot =
        any_none is_digit q (decimal_on (suc exp) exp []) (λ c h. k c (digit-base64url c h))
          digits in
      rw
        (any-append q (decimal_on (suc exp) exp []) (b'.' ∷ hmac password payload), before_dot, dot)
        (mac_none q password payload k)

  -- The verdict on a minted session, at any later time.
  pub verify-mint :
      (password : Text) (now later : ℕ)
      → verify_dashboard_session hmac (mint_dashboard_session hmac password now) password later
        ≡ not (ltb (now + dashboard_session_ttl_ms) later)
  unfolding verify_dashboard_session verify_parts mint_dashboard_session has_unit
  verify-mint password now later =
      let exp = now + dashboard_session_ttl_ms in
      let mac = hmac password (dashboard_session_payload exp) in
      let no_dot =
        mac_none (λ a. a == b'.') password (dashboard_session_payload exp)
          (λ c h. (base64url-plain c h).1) in
      rw
        (
          split_last_at b'.' (decimal exp) mac no_dot,
          verify_dashboard_session,
          decimal_some exp,
          parse_int-decimal exp,
          verify_parts,
          (timing_safe_equal_iff mac mac).1 refl,
        )
        (ground arith)

  minted_some :
      (password : Text) (now : ℕ) → is_empty (mint_dashboard_session hmac password now) ≡ false
  unfolding mint_dashboard_session
  minted_some password now =
      let exp = now + dashboard_session_ttl_ms in
      cons-some b'.' (decimal exp) (hmac password (dashboard_session_payload exp))

  session_cookie_read :
      (secure : Bool) (session : Text)
      → any is_space session ≡ false
      → has_unit b';' session ≡ false
      → read_dashboard_session (some (before b';' (dashboard_session_set_cookie secure session)))
        ≡ some session
  unfolding read_dashboard_session dashboard_session_set_cookie serialize_dashboard_cookie before
      find_cookie cookie_value has_unit text_eq is_space
  session_cookie_read secure session h k =
      let pair = dashboard_cookie_name ++ (b'=' ∷ session) in
      let attributes =
        codes " Path=/dashboard; Max-Age="
        ++ (decimal (dashboard_session_ttl_ms / 1000)
            ++ (codes "; HttpOnly; SameSite=Strict"
                ++ (if secure then codes "; Secure" else []))) in
      let cut = before_at b';' session attributes k in
      rw (cut, split_absent b';' pair k, trim_none pair h) refl

  -- A browser that sends back the cookie that a login has set is let in until the session ends.
  pub set_cookie_lets_in :
      (secure : Bool) (password : Text) (now later : ℕ)
      → is_empty password ≡ false
      → require_dashboard_auth hmac
          (some (
            before b';'
              (dashboard_session_set_cookie secure (mint_dashboard_session hmac password now))))
          password
          later
        ≡ not (ltb (now + dashboard_session_ttl_ms) later)
  unfolding require_dashboard_auth has_unit is_space
  set_cookie_lets_in secure password now later h =
      let session = mint_dashboard_session hmac password now in
      let no_space = minted_none is_space password now (λ c k. (base64url-plain c k).0) refl in
      let no_mark =
        minted_none (λ a. a == b';') password now (λ c k. (base64url-plain c k).2) refl in
      rw
        (
          session_cookie_read secure session no_space no_mark,
          require_dashboard_auth,
          h,
          minted_some password now,
        )
        (verify-mint password now later)
