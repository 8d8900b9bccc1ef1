-- ===== src/Fanout/Storage/Limit.antt =====
-- The bound on the rules of a route, and what is stored is listed.
use wrangle_webhooks.Path.RouteId.{is_allowed_route_id}
use wrangle_webhooks.Fanout.{WebhookFanoutRule}
use wrangle_webhooks.Base.{
  or_else, Text, text_eq, ℕ, ◌≤◌, refl, Option, [], arith, if◌then◌else◌, Bool-cases, Option-cases,
  Member, ◌≡◌, inl, inr, Bool, true, false, none, some, sym, subst, ◌∙◌,
}
use wrangle_webhooks.Base.TextLaws.{text_eq_iff}
use wrangle_webhooks.Base.Sql.{
  count_where, count_where_zero, count_where-delete_where-le, count_where-upsert, upsert,
  Member-filter, Member-order_by, Member-upsert, Member-map,
}
use wrangle_webhooks.Path.Remaining.{
  WebhookFanoutRuleMode, validate_webhook_filter_path, validate_webhook_fanout_rule_mode,
  parse_webhook_filter_environment_id,
}
use wrangle_webhooks.Fanout.Storage.{
  webhook_fanout_rule_limit, RuleRow, FanoutTables, same_key, write_rule,
  upsert_webhook_fanout_rule, erase_rule, delete_webhook_fanout_rule, WriteError, invalid_route_id,
  invalid_webhook_filter_path, invalid_webhook_fanout_mode, invalid_environment_id, WriteResult,
  stored, refused, to_webhook_fanout_rule, list_webhook_fanout_rules_for_route, rule_le,
}
pub mod Listed

abbrev pub rules_of : Text → FanoutTables → ℕ
rules_of route sql = count_where (λ r. text_eq r.route_id route) sql.rules

-- No route has more rules than the limit.
abbrev pub IsWithinLimit : FanoutTables → Type 0
IsWithinLimit sql = (route : Text) → rules_of route sql ≤ webhook_fanout_rule_limit

write_rule-IsWithinLimit :
    (sql : FanoutTables) (id : Text) (m : WebhookFanoutRuleMode) (path : Text) (env : Option Text)
    (now : ℕ)
    → IsWithinLimit sql
    → IsWithinLimit (write_rule sql id m path env now).0
unfolding write_rule
write_rule-IsWithinLimit sql id m path env now v route =
    let key = same_key id m path (or_else env []) in
    let new : RuleRow = record {
      route_id = id;
      mode = m;
      remaining_path = path;
      environment_id = or_else env [];
      created_at = now;
    } in
    ground (
      arith,
      v route,
      v id,
      count_where_zero key sql.rules,
      text_eq_iff id route,
      count_where-upsert key (λ r. text_eq r.route_id route) (λ r. record r { created_at = now })
          new sql.rules (λ r. refl),
    )

erase_rule-IsWithinLimit :
    (sql : FanoutTables) (id : Text) (m : WebhookFanoutRuleMode) (path : Text) (env : Option Text)
    → IsWithinLimit sql
    → IsWithinLimit (erase_rule sql id m path env).0
unfolding erase_rule
erase_rule-IsWithinLimit sql id m path env v route =
    let key = same_key id m path (or_else env []) in
    ground
      (arith, v route, count_where-delete_where-le key (λ r. text_eq r.route_id route) sql.rules)

-- Either the arguments are refused and the tables stay, or the checked arguments are written.
pub upsert_cases {ℓ} :
    (P : FanoutTables × WriteResult → Type ℓ) (sql : FanoutTables) (id mode path : Text)
    (env : Option Text) (now : ℕ)
    → ((e : WriteError) → P (sql, refused e))
    → ((m : WebhookFanoutRuleMode) (q : Text) (scope : Option Text)
        → is_allowed_route_id id ≡ true
        → validate_webhook_filter_path path ≡ some q
        → parse_webhook_filter_environment_id env ≡ some scope
        → P (write_rule sql id m q scope now))
    → P (upsert_webhook_fanout_rule sql id mode path env now)
unfolding upsert_webhook_fanout_rule
upsert_cases P sql id mode path env now bad good = elim (Bool-cases (is_allowed_route_id id)) [
  | inr e ↦ rw (e, upsert_webhook_fanout_rule) (bad invalid_route_id)
  | inl a ↦ elim (Option-cases (validate_webhook_fanout_rule_mode mode)) [
    | inl e ↦ rw (a, e, upsert_webhook_fanout_rule) (bad invalid_webhook_fanout_mode)
    | inr (m, em) ↦ elim (Option-cases (validate_webhook_filter_path path)) [
      | inl e ↦ rw (a, em, e, upsert_webhook_fanout_rule) (bad invalid_webhook_filter_path)
      | inr (q, eq) ↦ elim (Option-cases (parse_webhook_filter_environment_id env)) [
        | inl e ↦ rw (a, em, eq, e, upsert_webhook_fanout_rule) (bad invalid_environment_id)
        | inr (scope, es) ↦ rw (a, em, eq, es, upsert_webhook_fanout_rule) (good m q scope a eq es)
      ]
    ]
  ]
]

delete_cases {ℓ} :
    (P : FanoutTables × Bool → Type ℓ) (sql : FanoutTables) (id mode path : Text)
    (env : Option Text)
    → P (sql, false)
    → ((m : WebhookFanoutRuleMode) (q : Text) (scope : Option Text)
        → P (erase_rule sql id m q scope))
    → P (delete_webhook_fanout_rule sql id mode path env)
unfolding delete_webhook_fanout_rule
delete_cases P sql id mode path env bad good = elim (Bool-cases (is_allowed_route_id id)) [
  | inr e ↦ rw (e, delete_webhook_fanout_rule) bad
  | inl a ↦ elim (Option-cases (validate_webhook_fanout_rule_mode mode)) [
    | inl e ↦ rw (a, e, delete_webhook_fanout_rule) bad
    | inr (m, em) ↦ elim (Option-cases (validate_webhook_filter_path path)) [
      | inl e ↦ rw (a, em, e, delete_webhook_fanout_rule) bad
      | inr (q, eq) ↦ elim (Option-cases (parse_webhook_filter_environment_id env)) [
        | inl e ↦ rw (a, em, eq, e, delete_webhook_fanout_rule) bad
        | inr (scope, es) ↦ rw (a, em, eq, es, delete_webhook_fanout_rule) (good m q scope)
      ]
    ]
  ]
]

-- Neither storing nor removing a rule takes any route over 32 rules.
pub rules-IsWithinLimit :
    (sql : FanoutTables) (id mode path : Text) (env : Option Text) (now : ℕ)
    → IsWithinLimit sql
    → IsWithinLimit (upsert_webhook_fanout_rule sql id mode path env now).0
      × IsWithinLimit (delete_webhook_fanout_rule sql id mode path env).0
rules-IsWithinLimit sql id mode path env now v = (
  upsert_cases (λ r. IsWithinLimit r.0) sql id mode path env now (λ e. v)
      (λ m q scope _ _ _. write_rule-IsWithinLimit sql id m q scope now v),
  delete_cases (λ r. IsWithinLimit r.0) sql id mode path env v
      (λ m q scope. erase_rule-IsWithinLimit sql id m q scope v),
)
