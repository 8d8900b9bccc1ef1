-- ===== src/Log/Tests.antt =====
-- The log theorems at concrete events.
use wrangle_webhooks.Base.{codes, none, some, [], ◌∷◌}
use wrangle_webhooks.Log.Connection.{
  connection_log_retention_ms, connection_log_max_events, tunnel, connected, registered,
  ConnectionLogEventInput,
}
use wrangle_webhooks.Log.Inbound.{
  inbound_log_retention_ms, inbound_log_max_events, InboundLogEvent, InboundLogEventInput,
  build_inbound_log_event,
}
use wrangle_webhooks.Log.Inbound.Clean.{IsCleanEvent, build_inbound_log_event-IsClean}
use wrangle_webhooks.Log.Retention.{
  ConnectionLogEvent, insert_connection_log_events, insert_inbound_log_events,
}
use wrangle_webhooks.Log.Retention.Cap.{IsTrimmed, inserted-IsTrimmed}

abbrev joined : ConnectionLogEventInput
joined = record {
  action = connected;
  reason = registered;
  route_id = codes "app";
  subscriber_id = some (codes "sub_1");
  environment_id = none;
  transport = some tunnel;
  target_base_url = none;
  client_ip = none;
  occurred_at = none;
}

-- A request with a line break in its path and a status that is none.
abbrev odd : InboundLogEventInput
odd = record {
  id = codes "req_0123456789ab";
  method = codes "post";
  route_id = some (codes "app");
  remaining_path = b'/' ∷ 10 ∷ codes "x?secret=1";
  search = some (codes "?secret=1");
  kind = codes "other";
  result = codes "accepted";
  status = 42;
  error = some (codes "boom");
  subscriber_count = 20000;
  delivered_subscriber_count = none;
  body_bytes = 3;
  occurred_at = none;
}

build_inbound_log_event-IsClean_example : IsCleanEvent (build_inbound_log_event 7 odd)
build_inbound_log_event-IsClean_example = build_inbound_log_event-IsClean 7 odd

inserted-IsTrimmed_example :
    IsTrimmed
      (λ (e : ConnectionLogEvent). e.occurred_at)
      (λ (e : ConnectionLogEvent). e.id)
      connection_log_retention_ms
      connection_log_max_events
      7
      (insert_connection_log_events 7 (λ n. n ∷ []) (joined ∷ []) [])
    × IsTrimmed
        (λ (e : InboundLogEvent). e.occurred_at)
        (λ (e : InboundLogEvent). e.id)
        inbound_log_retention_ms
        inbound_log_max_events
        7
        (insert_inbound_log_events 7 (odd ∷ []) [])
inserted-IsTrimmed_example = inserted-IsTrimmed 7 (λ n. n ∷ []) (joined ∷ []) [] (odd ∷ []) []
