-- ===== src/Path/Scanner.antt =====
-- scanner-probe.ts: paths that only internet scanners ask for.
use wrangle_webhooks.Base.{
  leb, ◌==◌, if◌then◌else◌, or_else, is_empty, drop, head?, get_last?, filter, Text, codes, text_eq,
  starts_with, includes, before, split, strip_start, is_digit, to_lower, text_mem, ◌+◌, ◌≡◌, refl,
  Bool, true, false, not, ◌&&◌, ◌||◌, List, [], ◌∷◌,
}
use wrangle_webhooks.Path.Uri.{decode_once}

scanner_credential_filenames : List Text
scanner_credential_filenames =
    codes "application_default_credentials.json"
    ∷ codes "credentials.json"
    ∷ codes "firebase-adminsdk.json"
    ∷ codes "firebase-key.json"
    ∷ codes "gcp-credentials.json"
    ∷ codes "gcp-key.json"
    ∷ codes "gcp-sa.json"
    ∷ codes "google-credentials.json"
    ∷ codes "google-key.json"
    ∷ codes "id_rsa"
    ∷ codes "key.json"
    ∷ codes "keyfile.json"
    ∷ codes "sa.json"
    ∷ codes "service-account.json"
    ∷ []

scanner_debug_segments : List Text
scanner_debug_segments =
    codes "_environment"
    ∷ codes "php-info"
    ∷ codes "phpinfo"
    ∷ codes "phpversion"
    ∷ codes "server-info"
    ∷ codes "server-status"
    ∷ []

-- `path.startsWith("/") ? path : "/" + path`
unfoldable pub with_slash : Text → Text
unfolding starts_with
with_slash path = if starts_with path (codes "/") then path else b'/' ∷ path

unfoldable pub normalize_scanner_path : Text → Text
unfolding before decode_once to_lower with_slash
normalize_scanner_path pathname =
    with_slash (to_lower (decode_once (before b'#' (before b'?' pathname))))

-- The end of the text, or one of `./~_-`.
ends_word : Text → Bool
ends_word [] = true
ends_word (c ∷ _) = c == b'.' || (c == b'/' || (c == b'~' || (c == b'_' || c == b'-')))

-- A case-insensitive match of an ASCII word, in small letters, at the start of a text.
unfoldable pub starts_with_ci : Text → Text → Bool
starts_with_ci s [] = true
starts_with_ci [] (_ ∷ _) = false
starts_with_ci (a ∷ s) (b ∷ p) =
    (if leb b'A' a && leb a b'Z' then a + 32 == b else a == b) && starts_with_ci s p

-- What stands behind the dot of the pattern.
script_extension : Text → Bool
unfolding starts_with_ci ends_word strip_start is_digit
script_extension s =
    (starts_with_ci s (codes "php") && ends_word (strip_start is_digit (drop 3 s)))
    || ((starts_with_ci s (codes "phtml") && ends_word (drop 5 s))
        || ((starts_with_ci s (codes "asp") && ends_word (drop 3 s))
            || ((starts_with_ci s (codes "aspx") && ends_word (drop 4 s))
                || ((starts_with_ci s (codes "jsp") && ends_word (drop 3 s))
                    || (starts_with_ci s (codes "cgi") && ends_word (drop 3 s))))))

has_blocked_script_extension : Text → Bool
unfolding script_extension
has_blocked_script_extension [] = false
has_blocked_script_extension (c ∷ s) =
    (c == b'.' && script_extension s) || has_blocked_script_extension s

-- `split("/").filter(Boolean)`
unfoldable pub segments_of : Text → List Text
unfolding split
segments_of path = filter (λ s. not (is_empty s)) (split b'/' path)

-- The tests on a normalised path other than "/".
is_probe : Text → Text → Text → Bool
unfolding has_blocked_script_extension starts_with text_eq text_mem includes
    scanner_credential_filenames scanner_debug_segments
is_probe path first last =
    has_blocked_script_extension path
    || ((starts_with first (codes ".") && not (text_eq first (codes ".well-known")))
        || ((text_mem last scanner_credential_filenames || text_mem last scanner_debug_segments)
            || ((text_eq first (codes "_profiler")
                  || (text_eq first (codes "wp-admin") || text_eq first (codes "wp-content")))
                || includes path (codes "/vendor/phpunit"))))

unfoldable pub is_scanner_probe_path : Text → Bool
unfolding normalize_scanner_path is_probe segments_of text_eq
is_scanner_probe_path pathname =
    let path = normalize_scanner_path pathname in
    let segments = segments_of path in
    if text_eq path (codes "/")
    then false
    else is_probe path (or_else (head? segments) []) (or_else (get_last? segments) [])

probes :
    (is_scanner_probe_path (codes "/index.php/_environment") ≡ true)
    × (is_scanner_probe_path (codes "/a/%2eenv") ≡ false)
    × (is_scanner_probe_path (codes "/.env") ≡ true)
    × (is_scanner_probe_path (codes "/.well-known/x") ≡ false)
    × (is_scanner_probe_path (codes "/x/KEY.json?q") ≡ true)
    × (is_scanner_probe_path (codes "/webhooks/stripe") ≡ false)
unfolding is_scanner_probe_path
probes = (refl, refl, refl, refl, refl, refl)
