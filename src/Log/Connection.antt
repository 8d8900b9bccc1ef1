-- ===== src/Log/Connection.antt =====
-- connection-log.ts: the events of the connection audit log.
use wrangle_webhooks.Base.{
  ltb, if◌then◌else◌, length, is_empty, Text, codes, text_eq, has_unit, trim, ℕ, ◌*◌, Bool, true,
  false, ◌||◌, Option, none, some, [], ◌++◌,
}

-- 90 days, in milliseconds.
abbrev pub connection_log_retention_ms : ℕ
connection_log_retention_ms = 90 * 24 * 60 * 60 * 1000

abbrev pub connection_log_max_events : ℕ
connection_log_max_events = 2000

pub data SubscriberTransport : Type 0 where
  public_target tunnel : SubscriberTransport

pub data ConnectionLogAction : Type 0 where
  connected disconnected rejected : ConnectionLogAction

pub data ConnectionLogReason : Type 0 where
  registered reclaimed replaced deregistered socket_closed : ConnectionLogReason
  expired stale_tunnel unauthorized environment_in_use : ConnectionLogReason

pub record ConnectionLogEventInput : Type 0 where
  pub action : ConnectionLogAction
  pub reason : ConnectionLogReason
  pub route_id : Text
  pub subscriber_id : Option Text
  pub environment_id : Option Text
  pub transport : Option SubscriberTransport
  pub target_base_url : Option Text
  pub client_ip : Option Text
  pub occurred_at : Option ℕ

abbrev pub is_tunnel : SubscriberTransport → Bool
is_tunnel tunnel = true
is_tunnel public_target = false

unfoldable pub sanitize_client_ip : Option Text → Option Text
sanitize_client_ip none = none
sanitize_client_ip (some value) =
    let trimmed = trim value in
    if is_empty value
    then none
    else if is_empty trimmed || ltb 64 (length trimmed)
    then none
    else if has_unit 13 trimmed || has_unit 10 trimmed
    then none
    else some trimmed

unfoldable pub public_path_for_route_id : Text → Text
public_path_for_route_id route_id =
    if text_eq route_id [] then codes "/*" else codes "/" ++ (route_id ++ codes "/*")

unfoldable pub connection_log_target_base_url :
    Option SubscriberTransport → Option Text → Option Text
connection_log_target_base_url (some tunnel) target = some (codes "reverse-tunnel")
connection_log_target_base_url _ none = none
connection_log_target_base_url _ (some target) = if is_empty target then none else some target
