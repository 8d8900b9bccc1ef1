-- ===== src/Path/Remaining.antt =====
-- webhook-filter-path.ts and oauth-callback-path.ts: the remaining paths that operators register,
-- how they are normalised and which are refused. The two files share the bodies of their
-- normalisers and most of their validators.
use wrangle_webhooks.Base.{
  ltb, ◌==◌, if◌then◌else◌, length, is_empty, drop, any, Text, codes, text_eq, starts_with,
  includes, has_unit, before, strip_start, strip_end, trim, is_digit, is_letter, or_text, ℕ, Bool,
  true, false, not, ◌&&◌, ◌||◌, Option, none, some, List, [], ◌∷◌,
}
use wrangle_webhooks.Path.Scanner.{with_slash, starts_with_ci, is_scanner_probe_path}
use wrangle_webhooks.Path.Ingress.{public_path_has_dot_dot_segment}
use wrangle_webhooks.Path.RouteId.{is_allowed_environment_id}
pub mod Normal
pub mod Valid

abbrev pub webhook_filter_path_max_length : ℕ
webhook_filter_path_max_length = 256

abbrev pub oauth_callback_path_max_length : ℕ
oauth_callback_path_max_length = 256

pub is_slash : ℕ → Bool
is_slash c = c == b'/'

-- The body that both normalisers have.
unfoldable pub normalize_path : Text → Text
unfolding before trim with_slash strip_end is_slash or_text
normalize_path path =
    let trimmed = trim (before b'#' (before b'?' path)) in
    if is_empty trimmed
    then codes "/"
    else or_text (strip_end is_slash (with_slash trimmed)) (codes "/")

unfoldable pub normalize_webhook_filter_path : Text → Text
normalize_webhook_filter_path path = normalize_path path

unfoldable pub normalize_oauth_callback_path : Text → Text
normalize_oauth_callback_path path = normalize_path path

scheme_unit : ℕ → Bool
unfolding is_letter is_digit
scheme_unit c = is_letter c || (is_digit c || (c == b'+' || (c == b'.' || c == b'-')))

-- `/^[a-zA-Z][a-zA-Z0-9+.-]*:/`
has_scheme : Text → Bool
unfolding is_letter scheme_unit strip_start starts_with
has_scheme [] = false
has_scheme (c ∷ s) = is_letter c && starts_with (strip_start scheme_unit s) (codes ":")

-- The early returns that both validators have.
unfoldable pub is_refused : ℕ → Text → Bool
unfolding has_unit has_scheme includes starts_with public_path_has_dot_dot_segment
    is_scanner_probe_path
is_refused max_length path =
    (is_empty path || ltb max_length (length path))
    || ((any (λ c. c == 13 || (c == 10 || c == 0)) path
          || (has_unit b'*' path || (has_unit b'?' path || has_unit b'#' path)))
        || ((has_scheme path || includes path (codes "//"))
            || (not (starts_with path (codes "/"))
                || (public_path_has_dot_dot_segment path || is_scanner_probe_path path))))

unfoldable pub validate_webhook_filter_path : Text → Option Text
validate_webhook_filter_path path =
    let normalized = normalize_webhook_filter_path path in
    if is_refused webhook_filter_path_max_length path
    then none
    else if text_eq normalized (codes "/") || ltb webhook_filter_path_max_length (length normalized)
    then none
    else some normalized

unfoldable pub validate_oauth_callback_path : Text → Option Text
validate_oauth_callback_path path =
    let normalized = normalize_oauth_callback_path path in
    if is_refused oauth_callback_path_max_length path
    then none
    else if ltb oauth_callback_path_max_length (length normalized)
    then none
    else some normalized

-- `.some((allowed) => normalize(allowed) === normalized)`, and false on an empty list.
unfoldable pub is_allowlisted_oauth_callback_path : Text → List Text → Bool
is_allowlisted_oauth_callback_path remaining_path allowed_paths =
    if is_empty allowed_paths
    then false
    else let normalized = normalize_oauth_callback_path remaining_path in
      any (λ allowed. text_eq (normalize_oauth_callback_path allowed) normalized) allowed_paths

-- What follows the word: the end of the text or a slash.
ends_segment : Text → Bool
ends_segment [] = true
ends_segment (c ∷ _) = c == b'/'

callback_at : Text → Bool
unfolding starts_with_ci ends_segment
callback_at s =
    (starts_with_ci s (codes "/oauth/callback") && ends_segment (drop 15 s))
    || (starts_with_ci s (codes "/auth/callback") && ends_segment (drop 14 s))

-- `/\/(oauth|auth)\/callback(?:\/|$)/i`
pub has_callback : Text → Bool
unfolding callback_at
has_callback [] = false
has_callback (c ∷ s) = callback_at (c ∷ s) || has_callback s

unfoldable pub looks_like_oauth_callback_path : Text → Bool
looks_like_oauth_callback_path remaining_path =
    has_callback (normalize_oauth_callback_path remaining_path)

pub data WebhookFanoutRuleMode : Type 0 where
  allow deny : WebhookFanoutRuleMode

unfoldable pub validate_webhook_fanout_rule_mode : Text → Option WebhookFanoutRuleMode
unfolding text_eq
validate_webhook_fanout_rule_mode mode =
    if text_eq mode (codes "allow")
    then some allow
    else if text_eq mode (codes "deny")
    then some deny
    else none

-- The outer `none` is `{ ok: false }`.
unfoldable pub parse_webhook_filter_environment_id : Option Text → Option (Option Text)
parse_webhook_filter_environment_id none = some none
parse_webhook_filter_environment_id (some value) =
    let trimmed = trim value in
    if is_empty trimmed
    then some none
    else if is_allowed_environment_id trimmed
    then some (some trimmed)
    else none
