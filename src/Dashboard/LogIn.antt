-- ===== src/Dashboard/LogIn.antt =====
-- Logging in to the dashboard, and what the cookie opens afterwards.
use wrangle_webhooks.Base.{ltb, Text, before, ℕ, ◌+◌, ◌≡◌, not, some}
use wrangle_webhooks.Management.{Env}
use wrangle_webhooks.Dashboard.Session.{dashboard_session_ttl_ms, require_dashboard_auth}
use wrangle_webhooks.Dashboard.{Page, with_cookie}

-- The cookie of the answer lets a later request in as long as the session lasts.
abbrev pub Opens : Env → Text → Page → ℕ → Type 0
Opens env password page later =
    (cookie : Text) × (page ≡ with_cookie cookie)
    × (require_dashboard_auth env.hmac (some (before b';' cookie)) password later
        ≡ not (ltb (env.now + dashboard_session_ttl_ms) later))
