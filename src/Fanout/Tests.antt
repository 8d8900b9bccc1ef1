-- ===== src/Fanout/Tests.antt =====
-- The fan-out theorems at concrete rules and subscribers.
use wrangle_webhooks.Base.{Member, Text, codes, ◌≡◌, ◌↔◌, true, false, none, some, [], ◌∷◌, arith}
use wrangle_webhooks.Path.Remaining.{deny}
use wrangle_webhooks.Fanout.{
  WebhookFanoutRule, WebhookFanoutSettings, WebhookFanoutSubscriber,
  select_webhook_fanout_subscribers,
}
use wrangle_webhooks.Fanout.Selection.{Accepts, select_iff}
use wrangle_webhooks.Fanout.Storage.{
  FanoutTables, upsert_webhook_fanout_rule, delete_webhook_fanout_rule,
}
use wrangle_webhooks.Fanout.Storage.Limit.{IsWithinLimit, rules-IsWithinLimit}

abbrev hooks : Text
hooks = codes "/hooks"

abbrev alice : WebhookFanoutSubscriber
alice = record { id = codes "sub_a"; environment_id = some (codes "alice"); accept_webhooks = true }

abbrev carol : WebhookFanoutSubscriber
carol = record { id = codes "sub_c"; environment_id = none; accept_webhooks = true }

-- A rule that denies the hooks to bob's environment.
abbrev for_bob : WebhookFanoutRule
for_bob = record {
  route_id = codes "app";
  mode = deny;
  remaining_path = hooks;
  environment_id = some (codes "bob");
  created_at = 1;
}

abbrev settings : WebhookFanoutSettings
settings = record { route_id = codes "app"; deny_all_webhooks = false; rules = for_bob ∷ [] }

select_iff_example :
    Member alice (select_webhook_fanout_subscribers (λ s. s) (alice ∷ carol ∷ []) hooks settings)
    ↔ (Member alice (alice ∷ carol ∷ [])
        × (settings.deny_all_webhooks ≡ false)
        × Accepts alice hooks settings.rules)
select_iff_example = select_iff (λ s. s) alice (alice ∷ carol ∷ []) hooks settings

abbrev no_tables : FanoutTables
no_tables = record { settings = []; rules = [] }

rules-IsWithinLimit_example :
    IsWithinLimit (upsert_webhook_fanout_rule no_tables (codes "app") (codes "deny") hooks none 5).0
    × IsWithinLimit (delete_webhook_fanout_rule no_tables (codes "app") (codes "deny") hooks none).0
rules-IsWithinLimit_example =
    rules-IsWithinLimit no_tables (codes "app") (codes "deny") hooks none 5 (λ route. omega arith)

abbrev new_rule : WebhookFanoutRule
new_rule = record {
  route_id = codes "app";
  mode = deny;
  remaining_path = hooks;
  environment_id = none;
  created_at = 5;
}
