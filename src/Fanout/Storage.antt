-- ===== src/Fanout/Storage.antt =====
-- webhook-fanout-settings-storage.ts: the deny-all flags and the prefix rules in the router index.
use wrangle_webhooks.Base.{
  leb, ◌==◌, if◌then◌else◌, or_else, filter, find, Text, text_eq, ℕ, Bool, true, false, not, ◌&&◌,
  Option, none, some, List, [], map,
}
use wrangle_webhooks.Base.Sql.{count_where, delete_where, upsert, order_by, text_lt, before_or_same}
use wrangle_webhooks.Path.RouteId.{is_allowed_route_id}
use wrangle_webhooks.Path.Remaining.{
  validate_webhook_filter_path, WebhookFanoutRuleMode, allow, deny,
  validate_webhook_fanout_rule_mode, parse_webhook_filter_environment_id,
}
use wrangle_webhooks.Fanout.{WebhookFanoutRule, WebhookFanoutSettings}
pub mod Limit

abbrev pub webhook_fanout_rule_limit : ℕ
webhook_fanout_rule_limit = 32

-- `deny_all_webhooks` is 0 or 1 in the table.
pub record SettingsRow : Type 0 where
  pub route_id : Text
  pub deny_all_webhooks : Bool
  pub updated_at : ℕ

-- `environment_id` is empty for all environments.
pub record RuleRow : Type 0 where
  pub route_id : Text
  pub mode : WebhookFanoutRuleMode
  pub remaining_path : Text
  pub environment_id : Text
  pub created_at : ℕ

pub record FanoutTables : Type 0 where
  pub settings : List SettingsRow
  pub rules : List RuleRow

pub data WriteError : Type 0 where
  invalid_route_id invalid_webhook_filter_path invalid_webhook_fanout_mode : WriteError
  invalid_environment_id webhook_fanout_rule_limit_reached : WriteError

pub data WriteResult : Type 0 where
  stored : WebhookFanoutRule → WriteResult
  refused : WriteError → WriteResult

abbrev pub mode_eq : WebhookFanoutRuleMode → WebhookFanoutRuleMode → Bool
mode_eq allow allow = true
mode_eq deny deny = true
mode_eq _ _ = false

-- The order of `'allow' < 'deny'`.
abbrev mode_lt : WebhookFanoutRuleMode → WebhookFanoutRuleMode → Bool
mode_lt allow deny = true
mode_lt _ _ = false

unfoldable pub to_webhook_fanout_rule : RuleRow → WebhookFanoutRule
to_webhook_fanout_rule row = record {
  route_id = row.route_id;
  mode = row.mode;
  remaining_path = row.remaining_path;
  environment_id = if text_eq row.environment_id [] then none else some row.environment_id;
  created_at = row.created_at;
}

-- `ORDER BY mode ASC, remaining_path ASC, environment_id ASC`
unfoldable pub rule_le : RuleRow → RuleRow → Bool
rule_le a b = before_or_same (mode_lt a.mode b.mode) (mode_eq a.mode b.mode) (
    before_or_same (text_lt a.remaining_path b.remaining_path)
      (text_eq a.remaining_path b.remaining_path) (not (text_lt b.environment_id a.environment_id)))

unfoldable pub list_webhook_fanout_rules_for_route : FanoutTables → Text → List WebhookFanoutRule
list_webhook_fanout_rules_for_route sql route_id =
    if not (is_allowed_route_id route_id)
    then []
    else map to_webhook_fanout_rule
        (order_by rule_le (filter (λ r. text_eq r.route_id route_id) sql.rules))

unfoldable pub list_all_webhook_fanout_rules : FanoutTables → List WebhookFanoutRule
list_all_webhook_fanout_rules sql = map to_webhook_fanout_rule (
    order_by
      (λ a b.
        before_or_same (text_lt a.route_id b.route_id) (text_eq a.route_id b.route_id)
          (rule_le a b))
      sql.rules)

unfoldable pub get_webhook_fanout_settings : FanoutTables → Text → WebhookFanoutSettings
get_webhook_fanout_settings sql route_id =
    if not (is_allowed_route_id route_id)
    then record { route_id = route_id; deny_all_webhooks = false; rules = [] }
    else record {
      route_id = route_id;
      deny_all_webhooks = elim (find (λ r. text_eq r.route_id route_id) sql.settings) [
        | none ↦ false
        | some row ↦ row.deny_all_webhooks
      ];
      rules = list_webhook_fanout_rules_for_route sql route_id;
    }

unfoldable pub set_webhook_fanout_deny_all :
    FanoutTables → Text → Bool → ℕ → FanoutTables × Option WebhookFanoutSettings
set_webhook_fanout_deny_all sql route_id deny_all_webhooks now =
    let next : FanoutTables = record sql {
      settings =
          upsert (λ r. text_eq r.route_id route_id)
            (λ r. record r { deny_all_webhooks = deny_all_webhooks; updated_at = now })
            (record {
              route_id = route_id;
              deny_all_webhooks = deny_all_webhooks;
              updated_at = now;
            })
            sql.settings;
    } in
    if not (is_allowed_route_id route_id)
    then (sql, none)
    else (next, some (get_webhook_fanout_settings next route_id))

unfoldable pub list_all_webhook_fanout_settings : FanoutTables → List (Text × Bool)
list_all_webhook_fanout_settings sql =
    map (λ r. (r.route_id, r.deny_all_webhooks))
      (order_by (λ a b. not (text_lt b.route_id a.route_id)) sql.settings)

-- The primary key of the rules.
abbrev pub same_key : Text → WebhookFanoutRuleMode → Text → Text → RuleRow → Bool
same_key route_id mode path environment r =
    text_eq r.route_id route_id
    && (mode_eq r.mode mode
        && (text_eq r.remaining_path path && text_eq r.environment_id environment))

-- The statements that follow the checks of the arguments.
unfoldable pub write_rule :
    FanoutTables
    → Text
    → WebhookFanoutRuleMode
    → Text
    → Option Text
    → ℕ
    → FanoutTables × WriteResult
write_rule sql route_id mode path environment now =
    let environment_key = or_else environment [] in
    let key = same_key route_id mode path environment_key in
    if count_where key sql.rules == 0
      && leb webhook_fanout_rule_limit (count_where (λ r. text_eq r.route_id route_id) sql.rules)
    then (sql, refused webhook_fanout_rule_limit_reached)
    else (
      record sql {
        rules =
            upsert key (λ r. record r { created_at = now })
              (record {
                route_id = route_id;
                mode = mode;
                remaining_path = path;
                environment_id = environment_key;
                created_at = now;
              })
              sql.rules;
      },
      stored (record {
        route_id = route_id;
        mode = mode;
        remaining_path = path;
        environment_id = environment;
        created_at = now;
      }),
    )

unfoldable pub upsert_webhook_fanout_rule :
    FanoutTables → Text → Text → Text → Option Text → ℕ → FanoutTables × WriteResult
upsert_webhook_fanout_rule sql route_id mode_raw remaining_path environment_id_raw now =
    if not (is_allowed_route_id route_id)
    then (sql, refused invalid_route_id)
    else elim (validate_webhook_fanout_rule_mode mode_raw) [
      | none ↦ (sql, refused invalid_webhook_fanout_mode)
      | some mode ↦ elim (validate_webhook_filter_path remaining_path) [
        | none ↦ (sql, refused invalid_webhook_filter_path)
        | some path ↦ elim (parse_webhook_filter_environment_id environment_id_raw) [
          | none ↦ (sql, refused invalid_environment_id)
          | some environment ↦ write_rule sql route_id mode path environment now
        ]
      ]
    ]

unfoldable pub erase_rule :
    FanoutTables → Text → WebhookFanoutRuleMode → Text → Option Text → FanoutTables × Bool
erase_rule sql route_id mode path environment =
    let key = same_key route_id mode path (or_else environment []) in
    if count_where key sql.rules == 0
    then (sql, false)
    else (record sql { rules = delete_where key sql.rules }, true)

unfoldable pub delete_webhook_fanout_rule :
    FanoutTables → Text → Text → Text → Option Text → FanoutTables × Bool
delete_webhook_fanout_rule sql route_id mode_raw remaining_path environment_id_raw =
    if not (is_allowed_route_id route_id)
    then (sql, false)
    else elim (validate_webhook_fanout_rule_mode mode_raw) [
      | none ↦ (sql, false)
      | some mode ↦ elim (validate_webhook_filter_path remaining_path) [
        | none ↦ (sql, false)
        | some path ↦ elim (parse_webhook_filter_environment_id environment_id_raw) [
          | none ↦ (sql, false)
          | some environment ↦ erase_rule sql route_id mode path environment
        ]
      ]
    ]

unfoldable pub clear_webhook_fanout_storage : FanoutTables → FanoutTables
clear_webhook_fanout_storage sql = record { settings = []; rules = [] }
