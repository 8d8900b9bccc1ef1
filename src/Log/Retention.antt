-- ===== src/Log/Retention.antt =====
-- connection-log-storage.ts and inbound-log-storage.ts: the two logs as tables of the router index.
use wrangle_webhooks.Base.{
  ltb, ◌==◌, if◌then◌else◌, or_else, length, is_empty, take, filter, Text, codes, text_eq, text_mem,
  ℕ, ◌+◌, ◌-◌, min, max, Bool, not, ◌&&◌, ◌||◌, Option, none, some, List, [], ◌∷◌, ◌++◌, map,
}
use wrangle_webhooks.Base.Sql.{delete_where, order_by, text_lt, before_or_same}
use wrangle_webhooks.Log.Connection.{
  connection_log_retention_ms, connection_log_max_events, SubscriberTransport, ConnectionLogAction,
  ConnectionLogReason, ConnectionLogEventInput, sanitize_client_ip, connection_log_target_base_url,
}
use wrangle_webhooks.Log.Inbound.{
  inbound_log_retention_ms, inbound_log_max_events, InboundLogEvent, InboundLogEventInput, kinds,
  results, errors, build_inbound_log_event,
}
pub mod Cap

pub record ConnectionLogEvent : Type 0 where
  pub id : Text
  pub occurred_at : ℕ
  pub action : ConnectionLogAction
  pub reason : ConnectionLogReason
  pub route_id : Text
  pub subscriber_id : Option Text
  pub environment_id : Option Text
  pub transport : Option SubscriberTransport
  pub target_base_url : Option Text
  pub client_ip : Option Text

-- The statements of both purges, over the key of a row: its time and its id.
module _ {A : Type 0} (occurred_at : A → ℕ) (id : A → Text) where
  -- `ORDER BY occurred_at ASC, id ASC`
  abbrev pub older : A → A → Bool
  older a b =
      before_or_same (ltb (occurred_at a) (occurred_at b)) (occurred_at a == occurred_at b)
        (not (text_lt (id b) (id a)))

  unfoldable pub purge_events : ℕ → ℕ → ℕ → List A → List A
  purge_events retention cap now rows =
      let kept = delete_where (λ r. ltb (occurred_at r + retention) now) rows in
      let overflow = length kept - cap in
      let oldest = map id (take overflow (order_by older kept)) in
      if ltb 0 overflow then delete_where (λ r. text_mem (id r) oldest) kept else kept

  -- `WHERE occurred_at >= ? ORDER BY occurred_at DESC, id DESC LIMIT ?`
  unfoldable pub newest : ℕ → ℕ → ℕ → ℕ → List A → List A
  newest retention cap limit now rows =
      take (max 1 (min limit cap))
        (order_by (λ a b. older b a) (filter (λ r. not (ltb (occurred_at r + retention) now)) rows))

-- The rows of `connection_events` in an insert, with the id that `randomHex(8)` gives each.
unfoldable pub connection_row : ℕ → Text → ConnectionLogEventInput → ConnectionLogEvent
connection_row now hex event = record {
  id = codes "clog_" ++ hex;
  occurred_at = or_else event.occurred_at now;
  action = event.action;
  reason = event.reason;
  route_id = event.route_id;
  subscriber_id = event.subscriber_id;
  environment_id = event.environment_id;
  transport = event.transport;
  target_base_url = event.target_base_url;
  client_ip = sanitize_client_ip event.client_ip;
}

unfoldable pub purge_connection_log_events : ℕ → List ConnectionLogEvent → List ConnectionLogEvent
purge_connection_log_events now rows =
    purge_events (λ (e : ConnectionLogEvent). e.occurred_at) (λ (e : ConnectionLogEvent). e.id)
      connection_log_retention_ms connection_log_max_events now rows

-- The loop of the insert; the random ids are new, each by its position.
unfoldable pub append_connection_events :
    ℕ
    → (ℕ → Text)
    → ℕ
    → List ConnectionLogEventInput
    → List ConnectionLogEvent
    → List ConnectionLogEvent
append_connection_events now hex n [] rows = rows
append_connection_events now hex n (event ∷ events) rows =
    append_connection_events now hex (n + 1) events
      (rows ++ (connection_row now (hex n) event ∷ []))

unfoldable pub insert_connection_log_events :
    ℕ
    → (ℕ → Text)
    → List ConnectionLogEventInput
    → List ConnectionLogEvent
    → List ConnectionLogEvent
insert_connection_log_events now hex events rows =
    purge_connection_log_events now (append_connection_events now hex 0 events rows)

unfoldable pub to_connection_log_event : ConnectionLogEvent → ConnectionLogEvent
to_connection_log_event row = record row {
  target_base_url = connection_log_target_base_url row.transport row.target_base_url;
}

-- The table after the purge, and the events.
unfoldable pub list_connection_log_events :
    ℕ → ℕ → List ConnectionLogEvent → List ConnectionLogEvent × List ConnectionLogEvent
list_connection_log_events limit now rows =
    let purged = purge_connection_log_events now rows in
    (
      purged,
      map to_connection_log_event (
          newest (λ (e : ConnectionLogEvent). e.occurred_at) (λ (e : ConnectionLogEvent). e.id)
            connection_log_retention_ms connection_log_max_events limit now purged),
    )

unfoldable pub purge_inbound_log_events : ℕ → List InboundLogEvent → List InboundLogEvent
purge_inbound_log_events now rows =
    purge_events (λ (e : InboundLogEvent). e.occurred_at) (λ (e : InboundLogEvent). e.id)
      inbound_log_retention_ms inbound_log_max_events now rows

-- `INSERT OR REPLACE`: the row with the id goes first.
unfoldable pub replace_inbound_events :
    ℕ → List InboundLogEventInput → List InboundLogEvent → List InboundLogEvent
replace_inbound_events now [] rows = rows
replace_inbound_events now (input ∷ inputs) rows =
    let event = build_inbound_log_event now input in
    replace_inbound_events now inputs
      (delete_where (λ (r : InboundLogEvent). text_eq r.id event.id) rows ++ (event ∷ []))

unfoldable pub insert_inbound_log_events :
    ℕ → List InboundLogEventInput → List InboundLogEvent → List InboundLogEvent
insert_inbound_log_events now inputs rows =
    purge_inbound_log_events now (replace_inbound_events now inputs rows)

abbrev known_error : Option Text → Option Text
known_error none = none
known_error (some e) = if not (is_empty e) && text_mem e errors then some e else none

unfoldable pub to_inbound_log_event : InboundLogEvent → Option InboundLogEvent
to_inbound_log_event row =
    if not (text_mem row.kind kinds) || not (text_mem row.result results)
    then none
    else some (record row { error = known_error row.error })

-- `rows.map(f).filter((event) => event !== null)`
abbrev pub filter_map : {A B : Type 0} → (A → Option B) → List A → List B
filter_map f [] = []
filter_map f (x ∷ xs) = elim (f x) [ none ↦ filter_map f xs | some y ↦ y ∷ filter_map f xs ]

unfoldable pub list_inbound_log_events :
    ℕ → ℕ → List InboundLogEvent → List InboundLogEvent × List InboundLogEvent
list_inbound_log_events limit now rows =
    let purged = purge_inbound_log_events now rows in
    (
      purged,
      filter_map to_inbound_log_event (
          newest (λ (e : InboundLogEvent). e.occurred_at) (λ (e : InboundLogEvent). e.id)
            inbound_log_retention_ms inbound_log_max_events limit now purged),
    )
