-- ===== src/Route/Alarm/Chain.antt =====
-- `alarm` and `deregister` of durable-object.ts set the next alarm.
use wrangle_webhooks.Base.{
  ◌==◌, Bool-cases, Option-cases, is_empty, All, Text, codes, ℕ, ◌<◌, ◌≡◌, refl, inl, inr, none,
  List, [], ◌∷◌, arith, length, true,
}
use wrangle_webhooks.Route.{
  SubscriberRow, RouteState, subscriber_count, flush_connection_log, sync_index,
  fail_pending_for_subscriber, remove_subscriber_row, close_sockets, schedule_cleanup,
}
use wrangle_webhooks.Route.Expiry.{purge_expired}
use wrangle_webhooks.Route.Lifecycle.{deregister, run_alarm}
use wrangle_webhooks.Log.Connection.{deregistered}
use wrangle_webhooks.Route.Purge.Current.{purge_expired-current}
use wrangle_webhooks.Route.Alarm.{IsArmed, schedule_cleanup-IsArmed}

pub flush_tables :
    (s : RouteState)
    → ((flush_connection_log s).rows ≡ s.rows) × ((flush_connection_log s).alarm ≡ s.alarm)
unfolding flush_connection_log
flush_tables s = elim (Bool-cases (is_empty s.pending_connection_log)) [
  | inl e ↦ rw e (refl, refl)
  | inr e ↦ rw e (refl, refl)
]

-- The index learns of the rows; the rows and the alarm stay.
pub sync_tables :
    (s : RouteState) → ((sync_index s).rows ≡ s.rows) × ((sync_index s).alarm ≡ s.alarm)
unfolding sync_index
sync_tables s = elim (Option-cases (flush_connection_log s).route_id) [
  | inl e ↦ rw (e, sync_index) (flush_tables s)
  | inr (r, e) ↦ rw (e, sync_index) (flush_tables s)
]

positive :
    (now : ℕ) (rows : List SubscriberRow)
    → All (λ (r : SubscriberRow). now < r.expires_at) rows
    → All (λ (r : SubscriberRow). 0 < r.expires_at) rows
positive now [] h = tt
positive now (r ∷ rows) h = let later = h.0 in (omega arith, positive now rows h.1)

abbrev StaysArmed : ℕ → RouteState → Type 0
StaysArmed now s = IsArmed now s.rows s.alarm

sync-StaysArmed : (now : ℕ) (s : RouteState) → StaysArmed now s → StaysArmed now (sync_index s)
sync-StaysArmed now s h = let (r, a) = sync_tables s in rw (r, a) h

purged-StaysArmed :
    (now : ℕ) (s : RouteState) → StaysArmed now (schedule_cleanup now (purge_expired now s))
unfolding schedule_cleanup
purged-StaysArmed now s =
    let p = purge_expired now s in
    schedule_cleanup-IsArmed now p (positive now p.rows (purge_expired-current now s).0)

no_rows : (rows : List SubscriberRow) → (length rows == 0) ≡ true → rows ≡ []
no_rows [] h = refl
no_rows (r ∷ rows) h = absurd (ground arith)

-- After the alarm has run, and after a subscriber was removed, an alarm is set again as long as the
-- route has a subscriber: at least a second away, and for each row not after the end of its term,
-- or, for a tunnel, the check in thirty seconds, unless that is less than a second away.
pub run_alarm-IsArmed :
    (now : ℕ) (id : Text) (s : RouteState)
    → IsArmed now (run_alarm now s).rows (run_alarm now s).alarm
      × IsArmed now (deregister now id s).rows (deregister now id s).alarm
unfolding run_alarm deregister subscriber_count
run_alarm-IsArmed now id s =
    let closed = close_sockets id s in
    let failed_all = fail_pending_for_subscriber id (codes "subscriber_disconnected") closed in
    let removed = remove_subscriber_row id deregistered failed_all in
    let purged = purge_expired now removed in
    let no_alarm : RouteState = record purged { alarm = none } in
    (
      sync-StaysArmed now (schedule_cleanup now (purge_expired now s)) (purged-StaysArmed now s),
      elim (Bool-cases (subscriber_count purged == 0)) [
        | inl e ↦ rw e (sync-StaysArmed now no_alarm (no_rows purged.rows e))
        | inr e ↦
            rw e (sync-StaysArmed now (schedule_cleanup now purged) (purged-StaysArmed now removed))
      ],
    )
