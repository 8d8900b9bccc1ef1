-- ===== src/AcceptWebhooks.antt =====
-- accept-webhooks.ts: whether a sidecar takes part in the webhook fan-out.
use wrangle_webhooks.Base.{
  ◌==◌, if◌then◌else◌, or_else, is_empty, Text, codes, text_eq, trim, to_lower, ℕ, Bool, true,
  false, not, ◌||◌, Option, none, some,
}

-- A value of a query or of a JSON body, as far as the parser looks at it.
pub data Scalar : Type 0 where
  absent other : Scalar
  boolean : Bool → Scalar
  number : ℕ → Scalar
  text : Text → Scalar

unfoldable pub env_disables_webhook_fanout : Option Text → Bool
env_disables_webhook_fanout none = false
env_disables_webhook_fanout (some value) =
    let normalized = to_lower (trim value) in
    if is_empty value
    then false
    else text_eq normalized (codes "1")
      || (text_eq normalized (codes "true") || text_eq normalized (codes "yes"))

unfoldable pub parse_accept_webhooks_value : Scalar → Bool
parse_accept_webhooks_value absent = true
parse_accept_webhooks_value other = true
parse_accept_webhooks_value (boolean b) = b
parse_accept_webhooks_value (number n) = not (n == 0)
parse_accept_webhooks_value (text t) = not (text_eq t (codes "0") || text_eq t (codes "false"))

-- The options `flag`, `envValue` and `acceptWebhooks`.
unfoldable pub resolve_accept_webhooks : Option Bool → Option Text → Option Bool → Bool
resolve_accept_webhooks flag env_value accept_webhooks =
    if not (or_else accept_webhooks true) || or_else flag false
    then false
    else if env_disables_webhook_fanout env_value
    then false
    else true
