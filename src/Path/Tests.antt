-- ===== src/Path/Tests.antt =====
-- The path theorems at concrete paths.
use wrangle_webhooks.Base.{Text, codes, trim, ℕ, ◌≤◌, ◌≡◌, ◌↔◌, false}
use wrangle_webhooks.Path.Ingress.{path_segments_include_dot_dot, public_path_has_dot_dot_segment}
use wrangle_webhooks.Path.Remaining.{normalize_webhook_filter_path}
use wrangle_webhooks.Path.Remaining.Normal.{normalize_webhook_filter_path_idem_iff}
use wrangle_webhooks.Path.Traversal.{decode_times, no_dot_dot_iff}

abbrev app : Text
app = codes "app"

abbrev hooks : Text
hooks = codes "/hooks/"

abbrev callback : Text
callback = codes "/auth/callback/"

-- A path that a second normalisation changes.
abbrev with_space : Text
with_space = codes "/a /"

normalize_webhook_filter_path_idem_iff_example :
    (normalize_webhook_filter_path (normalize_webhook_filter_path with_space)
      ≡ normalize_webhook_filter_path with_space)
    ↔ (trim (normalize_webhook_filter_path with_space) ≡ normalize_webhook_filter_path with_space)
normalize_webhook_filter_path_idem_iff_example = normalize_webhook_filter_path_idem_iff with_space

abbrev traversal : Text
traversal = codes "/a/%2e%2e/b"

no_dot_dot_iff_example :
    (public_path_has_dot_dot_segment traversal ≡ false)
    ↔ ((k : ℕ) → k ≤ 4 → path_segments_include_dot_dot (decode_times k traversal) ≡ false)
no_dot_dot_iff_example = no_dot_dot_iff traversal
