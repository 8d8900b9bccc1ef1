-- ===== src/Fanout.antt =====
-- webhook-path-filter.ts: which subscribers of a route receive a webhook. The storage of the rules
-- is in the child `Storage`.
use wrangle_webhooks.Base.{
  if◌then◌else◌, is_empty, filter, any, Text, codes, text_eq, starts_with, ℕ, Bool, true, false,
  not, ◌&&◌, ◌||◌, Option, none, some, List, [], ◌++◌,
}
use wrangle_webhooks.Path.Remaining.{
  normalize_webhook_filter_path, WebhookFanoutRuleMode, allow, deny,
}
pub mod Prefix
pub mod Selection
pub mod Storage
mod Tests

pub record WebhookFanoutRule : Type 0 where
  pub route_id : Text
  pub mode : WebhookFanoutRuleMode
  pub remaining_path : Text
  pub environment_id : Option Text
  pub created_at : ℕ

pub record WebhookFanoutSettings : Type 0 where
  pub route_id : Text
  pub deny_all_webhooks : Bool
  pub rules : List WebhookFanoutRule

-- The fields of a subscriber that the filter consults.
pub record WebhookFanoutSubscriber : Type 0 where
  pub id : Text
  pub environment_id : Option Text
  pub accept_webhooks : Bool

unfoldable pub remaining_path_matches_webhook_prefix : Text → Text → Bool
remaining_path_matches_webhook_prefix remaining_path prefix =
    let path = normalize_webhook_filter_path remaining_path in
    let normalized_prefix = normalize_webhook_filter_path prefix in
    if text_eq normalized_prefix (codes "/")
    then false
    else text_eq path normalized_prefix || starts_with path (normalized_prefix ++ codes "/")

-- `rule.environmentId === null || rule.environmentId === subscriber.environmentId`
unfoldable pub applies_to : WebhookFanoutSubscriber → WebhookFanoutRule → Bool
applies_to subscriber rule = elim rule.environment_id [
  | none ↦ true
  | some scope ↦ elim subscriber.environment_id [ none ↦ false | some own ↦ text_eq scope own ]
]

abbrev pub is_allow : WebhookFanoutRule → Bool
is_allow rule = elim rule.mode [ allow ↦ true | deny ↦ false ]

abbrev pub is_deny : WebhookFanoutRule → Bool
is_deny rule = elim rule.mode [ allow ↦ false | deny ↦ true ]

abbrev pub matches_rule : Text → WebhookFanoutRule → Bool
matches_rule remaining_path rule =
    remaining_path_matches_webhook_prefix remaining_path rule.remaining_path

unfoldable pub subscriber_accepts_webhook_path :
    WebhookFanoutSubscriber → Text → List WebhookFanoutRule → Bool
subscriber_accepts_webhook_path subscriber remaining_path rules =
    let applicable = filter (applies_to subscriber) rules in
    let allows = filter is_allow applicable in
    let denies = filter is_deny applicable in
    if not subscriber.accept_webhooks
    then false
    else if not (is_empty allows) && not (any (matches_rule remaining_path) allows)
    then false
    else if any (matches_rule remaining_path) denies
    then false
    else true

-- `T` extends the subscriber of the filter; `view` is that part of it.
module _ {T : Type 0} (view : T → WebhookFanoutSubscriber) where
  unfoldable pub select_webhook_fanout_subscribers : List T → Text → WebhookFanoutSettings → List T
  select_webhook_fanout_subscribers subscribers remaining_path settings =
      if settings.deny_all_webhooks
      then []
      else filter (λ s. subscriber_accepts_webhook_path (view s) remaining_path settings.rules)
          subscribers
