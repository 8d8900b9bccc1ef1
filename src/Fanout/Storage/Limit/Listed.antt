-- ===== src/Fanout/Storage/Limit/Listed.antt =====
-- A stored rule is listed as it was reported.
use wrangle_webhooks.Path.RouteId.{is_allowed_route_id}
use wrangle_webhooks.Fanout.{WebhookFanoutRule}
use wrangle_webhooks.Base.{
  if◌then◌else◌, or_else, Member, Text, text_eq, ℕ, ◌≡◌, refl, sym, subst, ◌∙◌, true, Option, none,
  some, [], arith,
}
use wrangle_webhooks.Base.TextLaws.{text_eq_iff}
use wrangle_webhooks.Base.Sql.{upsert, Member-filter, Member-order_by, Member-upsert, Member-map}
use wrangle_webhooks.Path.Remaining.{WebhookFanoutRuleMode, parse_webhook_filter_environment_id}
use wrangle_webhooks.Fanout.Storage.{
  RuleRow, FanoutTables, stored, to_webhook_fanout_rule, rule_le,
  list_webhook_fanout_rules_for_route, same_key, write_rule, upsert_webhook_fanout_rule,
}
use wrangle_webhooks.Fanout.Storage.Limit.{upsert_cases}

key_row :
    (id : Text) (m : WebhookFanoutRuleMode) (path env : Text) (now : ℕ) (r : RuleRow)
    → same_key id m path env r ≡ true
    → ◌≡◌ {A = RuleRow}
        (record r { created_at = now })
        (record {
          route_id = id;
          mode = m;
          remaining_path = path;
          environment_id = env;
          created_at = now;
        })
key_row id m path env now r h = ground (
  arith,
  text_eq_iff r.route_id id,
  text_eq_iff r.remaining_path path,
  text_eq_iff r.environment_id env,
)

-- An environment scope that was accepted is not empty.
abbrev IsScope : Option Text → Type 0
IsScope scope = (if text_eq (or_else scope []) [] then none else some (or_else scope [])) ≡ scope

parse-IsScope :
    (env scope : Option Text) → parse_webhook_filter_environment_id env ≡ some scope → IsScope scope
unfolding parse_webhook_filter_environment_id text_eq
parse-IsScope none scope h = ground arith
parse-IsScope (some value) scope h = ground arith

abbrev row_of : Text → WebhookFanoutRuleMode → Text → Option Text → ℕ → RuleRow
row_of id m path scope now = record {
  route_id = id;
  mode = m;
  remaining_path = path;
  environment_id = or_else scope [];
  created_at = now;
}

write_rule_stored :
    (sql : FanoutTables) (id : Text) (m : WebhookFanoutRuleMode) (path : Text) (scope : Option Text)
    (now : ℕ) (rule : WebhookFanoutRule)
    → (write_rule sql id m path scope now).1 ≡ stored rule
    → ((write_rule sql id m path scope now).0.rules
        ≡ upsert
            (same_key id m path (or_else scope []))
            (λ r. record r { created_at = now })
            (row_of id m path scope now)
            sql.rules)
      × (rule ≡ record {
        route_id = id;
        mode = m;
        remaining_path = path;
        environment_id = scope;
        created_at = now;
      })
unfolding write_rule
write_rule_stored sql id m path scope now rule h = ground arith

row_rule :
    (id : Text) (m : WebhookFanoutRuleMode) (path : Text) (scope : Option Text) (now : ℕ)
    → IsScope scope
    → to_webhook_fanout_rule (row_of id m path scope now) ≡ record {
      route_id = id;
      mode = m;
      remaining_path = path;
      environment_id = scope;
      created_at = now;
    }
unfolding to_webhook_fanout_rule
row_rule id m path scope now k = λ i. record {
  route_id = id;
  mode = m;
  remaining_path = path;
  environment_id = k i;
  created_at = now;
}

list-Member :
    (sql : FanoutTables) (id : Text) (row : RuleRow)
    → is_allowed_route_id id ≡ true
    → row.route_id ≡ id
    → Member row sql.rules
    → Member (to_webhook_fanout_rule row) (list_webhook_fanout_rules_for_route sql id)
unfolding list_webhook_fanout_rules_for_route
list-Member sql id row a e m = rw a (
    Member-map to_webhook_fanout_rule row _ (
      Member-order_by rule_le row _ (
        Member-filter (λ r. text_eq r.route_id id) row sql.rules m
          ((text_eq_iff row.route_id id).1 e))))

listed :
    (sql : FanoutTables) (id : Text) (m : WebhookFanoutRuleMode) (path : Text) (scope : Option Text)
    (now : ℕ) (rule : WebhookFanoutRule)
    → is_allowed_route_id id ≡ true
    → IsScope scope
    → (write_rule sql id m path scope now).1 ≡ stored rule
    → Member rule (list_webhook_fanout_rules_for_route (write_rule sql id m path scope now).0 id)
listed sql id m path scope now rule a k h =
    let key = same_key id m path (or_else scope []) in
    let (rows, same) = write_rule_stored sql id m path scope now rule h in
    let new = row_of id m path scope now in
    let there =
      Member-upsert key (λ r. record r { created_at = now }) new sql.rules
        (key_row id m path (or_else scope []) now) in
    let found =
      list-Member (write_rule sql id m path scope now).0 id new a refl
        (subst (λ t. Member new t) (sym rows) there) in
    subst
      (λ t.
        Member t (list_webhook_fanout_rules_for_route (write_rule sql id m path scope now).0 id))
      (row_rule id m path scope now k ∙ sym same) found

-- A rule that is reported as stored is among the rules of its route from then on, exactly as it was
-- reported.
pub upsert_listed :
    (sql : FanoutTables) (id mode path : Text) (env : Option Text) (now : ℕ)
    (rule : WebhookFanoutRule)
    → (upsert_webhook_fanout_rule sql id mode path env now).1 ≡ stored rule
    → Member rule (
        list_webhook_fanout_rules_for_route
          (upsert_webhook_fanout_rule sql id mode path env now).0
          id)
upsert_listed sql id mode path env now rule =
    upsert_cases (λ r. r.1 ≡ stored rule → Member rule (list_webhook_fanout_rules_for_route r.0 id))
      sql id mode path env now (λ e h. cc)
      (λ m q scope a _ p h. listed sql id m q scope now rule a (parse-IsScope env scope p) h)
