-- ===== src/Route/Inv/Ops.antt =====
-- Registration, heartbeats, removal, bindings and the alarm keep the tables consistent.
use wrangle_webhooks.Oauth.{oauth_state_max_length}
use wrangle_webhooks.Base.{
  ltb, ◌==◌, Bool-cases, is_some, length, is_empty, any, find, Text, codes, ℕ, ◌≡◌, refl, inl, inr,
  Bool, true, ◌&&◌, ◌||◌, none, List, [], ◌∷◌, ◌++◌, arith,
}
use wrangle_webhooks.Base.Sql.{update_where, upsert}
use wrangle_webhooks.Log.Connection.{deregistered}
use wrangle_webhooks.Route.{
  SubscriberRow, OauthBinding, RouteState, has_id, lookup_subscriber, subscriber_count,
  set_route_id, extend_subscriber, fail_pending_for_subscriber, remove_subscriber_row,
  close_sockets, schedule_cleanup,
}
use wrangle_webhooks.Route.Expiry.{purge_expired}
use wrangle_webhooks.Route.Attach.Connect.{TunnelUpgrade, accept_socket, upgrade, finish_register}
use wrangle_webhooks.Route.Attach.{Fresh, Attached, attached, environment_taken, threw}
use wrangle_webhooks.Route.Lifecycle.{
  heartbeat, deregister, put_binding, bind_oauth_state, get_active_subscribers, run_alarm,
}
use wrangle_webhooks.Route.Inv.{HasSubscribers, IsConsistent}
use wrangle_webhooks.Route.Inv.Keeps.{
  flush-IsConsistent, sync-IsConsistent, schedule-IsConsistent, extend-IsConsistent,
  fail-IsConsistent, remove-IsConsistent, purge-IsConsistent,
}
use wrangle_webhooks.Route.Inv.Reclaim.{close_sockets-IsConsistent}

pub set_route-IsConsistent :
    (route : Text) (s : RouteState) → IsConsistent s → IsConsistent (set_route_id route s)
unfolding set_route_id
set_route-IsConsistent route s v = v

pub finish_register-IsConsistent :
    (now : ℕ) (p : RouteState × Attached)
    → IsConsistent p.0
    → IsConsistent (finish_register now p).0
unfolding finish_register
finish_register-IsConsistent now (s, environment_taken) v = flush-IsConsistent s v
finish_register-IsConsistent now (s, threw) v = v
finish_register-IsConsistent now (s, attached id forward token) v =
    sync-IsConsistent (schedule_cleanup now s) (schedule-IsConsistent now s v)

pub upgrade-IsConsistent :
    (fresh : Fresh) (request : TunnelUpgrade) (p : RouteState × Attached)
    → IsConsistent p.0
    → IsConsistent (upgrade fresh request p).0
unfolding upgrade accept_socket
upgrade-IsConsistent fresh request (s, environment_taken) v = flush-IsConsistent s v
upgrade-IsConsistent fresh request (s, threw) v = v
upgrade-IsConsistent fresh request (s, attached id forward token) v = sync-IsConsistent s v

pub heartbeat-IsConsistent :
    (now : ℕ) (id : Text) (s : RouteState) → IsConsistent s → IsConsistent (heartbeat now id s).0
unfolding heartbeat
heartbeat-IsConsistent now id s v =
    let purged = purge_expired now s in
    let w = purge-IsConsistent now s v in
    let row = find (λ (row : SubscriberRow). has_id id row && ltb now row.expires_at) purged.rows in
    elim (Bool-cases (is_some row)) [
      | inr e ↦ rw e (flush-IsConsistent purged w)
      | inl e ↦ rw e (
          flush-IsConsistent (schedule_cleanup now (extend_subscriber id now purged)) (
            schedule-IsConsistent now (extend_subscriber id now purged)
              (extend-IsConsistent id now purged w)))
    ]

pub deregister-IsConsistent :
    (now : ℕ) (id : Text) (s : RouteState) → IsConsistent s → IsConsistent (deregister now id s)
unfolding deregister
deregister-IsConsistent now id s v =
    let closed = close_sockets id s in
    let failed_all = fail_pending_for_subscriber id (codes "subscriber_disconnected") closed in
    let removed = remove_subscriber_row id deregistered failed_all in
    let purged = purge_expired now removed in
    let w = purge-IsConsistent now removed (
      remove-IsConsistent id deregistered failed_all (
        fail-IsConsistent id (codes "subscriber_disconnected") closed
          (close_sockets-IsConsistent id s v))) in
    elim (Bool-cases (subscriber_count purged == 0)) [
      | inl e ↦ rw e (sync-IsConsistent (record purged { alarm = none }) w)
      | inr e ↦
          rw e
            (sync-IsConsistent (schedule_cleanup now purged) (schedule-IsConsistent now purged w))
    ]

update_where-bound :
    (p : OauthBinding → Bool) (f : OauthBinding → OauthBinding) (id : Text)
    (rows : List SubscriberRow) (bindings : List OauthBinding)
    → any (has_id id) rows ≡ true
    → ((x : OauthBinding) → (f x).subscriber_id ≡ id)
    → HasSubscribers rows bindings
    → HasSubscribers rows (update_where p f bindings)
update_where-bound p f id rows [] here k h = tt
update_where-bound p f id rows (x ∷ bindings) here k h = elim (Bool-cases (p x)) [
  | inl c ↦ rw c (rw (k x) here, update_where-bound p f id rows bindings here k h.1)
  | inr c ↦ rw c (h.0, update_where-bound p f id rows bindings here k h.1)
]

append_last-bound :
    (b : OauthBinding) (rows : List SubscriberRow) (bindings : List OauthBinding)
    → any (has_id b.subscriber_id) rows ≡ true
    → HasSubscribers rows bindings
    → HasSubscribers rows (bindings ++ (b ∷ []))
append_last-bound b rows [] here h = (here, tt)
append_last-bound b rows (x ∷ bindings) here h = (h.0, append_last-bound b rows bindings here h.1)

upsert-subscribers :
    (p : OauthBinding → Bool) (f : OauthBinding → OauthBinding) (b : OauthBinding)
    (rows : List SubscriberRow) (bindings : List OauthBinding)
    → any (has_id b.subscriber_id) rows ≡ true
    → ((x : OauthBinding) → (f x).subscriber_id ≡ b.subscriber_id)
    → HasSubscribers rows bindings
    → HasSubscribers rows (upsert p f b bindings)
unfolding upsert
upsert-subscribers p f b rows bindings here k h = elim (Bool-cases (any p bindings)) [
  | inl c ↦ rw c (update_where-bound p f b.subscriber_id rows bindings here k h)
  | inr c ↦ rw c (append_last-bound b rows bindings here h)
]

find-is_some :
    (p : SubscriberRow → Bool) (rows : List SubscriberRow)
    → is_some (find p rows) ≡ true
    → any p rows ≡ true
find-is_some p [] h = h
find-is_some p (r ∷ rows) h = ground (arith, find-is_some p rows)

put_binding-IsConsistent :
    (id state : Text) (now : ℕ) (s : RouteState)
    → is_some (lookup_subscriber id s) ≡ true
    → IsConsistent s
    → IsConsistent (put_binding id state now s)
unfolding put_binding lookup_subscriber
put_binding-IsConsistent id state now s h v = record {
  ids = v.ids;
  environments = v.environments;
  subscribers =
      upsert-subscribers _ _ _ s.rows s.bindings (find-is_some (has_id id) s.rows h) (λ x. refl)
        v.subscribers;
}

pub bind-IsConsistent :
    (now : ℕ) (id state : Text) (s : RouteState)
    → IsConsistent s
    → IsConsistent (bind_oauth_state now id state s).0
unfolding bind_oauth_state
bind-IsConsistent now id state s v =
    let purged = purge_expired now s in
    let w = purge-IsConsistent now s v in
    elim (Bool-cases (is_empty state || ltb oauth_state_max_length (length state))) [
      | inl e ↦ rw e v
      | inr e ↦ elim (Bool-cases (is_some (lookup_subscriber id purged))) [
        | inr k ↦ rw (e, k) (flush-IsConsistent purged w)
        | inl k ↦
            rw (e, k)
              (flush-IsConsistent (put_binding id state now purged)
                (put_binding-IsConsistent id state now purged k w))
      ]
    ]

pub active-IsConsistent :
    (now : ℕ) (s : RouteState) → IsConsistent s → IsConsistent (get_active_subscribers now s).0
unfolding get_active_subscribers
active-IsConsistent now s v = flush-IsConsistent (purge_expired now s) (purge-IsConsistent now s v)

pub alarm-IsConsistent :
    (now : ℕ) (s : RouteState) → IsConsistent s → IsConsistent (run_alarm now s)
unfolding run_alarm
alarm-IsConsistent now s v =
    let purged = purge_expired now s in
    sync-IsConsistent (schedule_cleanup now purged)
      (schedule-IsConsistent now purged (purge-IsConsistent now s v))
