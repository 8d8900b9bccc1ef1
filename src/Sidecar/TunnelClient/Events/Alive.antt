-- ===== src/Sidecar/TunnelClient/Events/Alive.antt =====
-- The ping timer of tunnel-client.ts.
use mathlib.Core.List.{append_assoc, append-nil}
use wrangle_webhooks.Base.{
  sym, ◌∙◌, ap, ◌==◌, if◌then◌else◌, ℕ, zero, suc, ◌+◌, ◌-◌, ◌%◌, ◌≤◌, ◌≡◌, refl, some, List, [],
  ◌∷◌, ◌++◌, ltb, Bool-cases, length, All, ◌<◌, inl, inr, false, arith, true, subst,
}
use wrangle_webhooks.Tunnel.{tunnel_pong_deadline_ms}
use wrangle_webhooks.Sidecar.TunnelClient.{
  ready_open, ClientMessage, ping, heartbeat, TunnelClient, send, ready_closed, terminate,
}
use wrangle_webhooks.Sidecar.TunnelClient.Events.{Event, ticked, on_tick, Context, on_event, run}

-- What rounds of the timer send, the first of them the round after `ticks`: a ping, and with each
-- second ping a heartbeat.
abbrev pub rounds : ℕ → ℕ → ℕ → List (ℕ × ClientMessage)
rounds h ticks zero = []
rounds h ticks (suc n) =
    let later = rounds h (ticks + 1) n in
    if (ticks + 1) % 2 == 0 then (h, ping) ∷ (h, heartbeat) ∷ later else (h, ping) ∷ later

abbrev IsInTime : ℕ → ℕ → Type 0
IsInTime pong now = now - pong ≤ tunnel_pong_deadline_ms

abbrev pub ticks_at : List ℕ → List Event
ticks_at [] = []
ticks_at (now ∷ times) = ticked now ∷ ticks_at times

tick_in_time :
    (now h : ℕ) (s : TunnelClient)
    → s.ping_timer ≡ some h
    → s.states h ≡ ready_open
    → IsInTime s.last_pong_at now
    → on_tick now s ≡ record s { ticks = s.ticks + 1; outbox = s.outbox ++ rounds h s.ticks 1 }
unfolding on_tick send
tick_in_time now h s timer live time =
    let in_time : ltb tunnel_pong_deadline_ms (now - s.last_pong_at) ≡ false = ground arith in
    elim (Bool-cases ((s.ticks + 1) % 2 == 0)) [
      | inl e ↦
          rw (timer, live, in_time, e)
            (ap (λ o. record s { ping_timer = some h; ticks = s.ticks + 1; outbox = o })
              (append_assoc s.outbox ((h, ping) ∷ []) ((h, heartbeat) ∷ [])))
      | inr e ↦ rw (timer, live, in_time, e) refl
    ]

rounds-suc : (h ticks n : ℕ) → rounds h ticks 1 ++ rounds h (ticks + 1) n ≡ rounds h ticks (suc n)
rounds-suc h ticks n = elim (Bool-cases ((ticks + 1) % 2 == 0)) [
  | inl e ↦ rw e refl
  | inr e ↦ rw e refl
]

late_tick :
    (late h : ℕ) (s : TunnelClient)
    → s.ping_timer ≡ some h
    → s.states h ≡ ready_open
    → tunnel_pong_deadline_ms < late - s.last_pong_at
    → (on_tick late s).states h ≡ ready_closed
unfolding on_tick terminate
late_tick late h s timer live overdue =
    let is_late : ltb tunnel_pong_deadline_ms (late - s.last_pong_at) ≡ true = ground arith in
    let same : (h == h) ≡ true = ground arith in rw (timer, on_tick, live, is_late, same) refl

-- Rounds of the timer on an open socket, none of them later than the deadline behind the last pong,
-- send a ping each and a heartbeat with every second one, and nothing else; the first that is later
-- terminates the socket.
pub ticks_keep_alive :
    (c : Context) (times : List ℕ) (late h : ℕ) (s : TunnelClient)
    → s.ping_timer ≡ some h
    → s.states h ≡ ready_open
    → All (IsInTime s.last_pong_at) times
    → tunnel_pong_deadline_ms < late - s.last_pong_at
    → ((run c (ticks_at times) s).outbox ≡ s.outbox ++ rounds h s.ticks (length times))
      × ((run c (ticked late ∷ []) (run c (ticks_at times) s)).states h ≡ ready_closed)
unfolding run on_event
ticks_keep_alive c [] late h s timer live _ overdue =
    (sym (append-nil s.outbox), late_tick late h s timer live overdue)
ticks_keep_alive c (now ∷ times) late h s timer live (time, later) overdue =
    let next : TunnelClient = record s {
      ticks = s.ticks + 1;
      outbox = s.outbox ++ rounds h s.ticks 1;
    } in
    let (sent, shut) = ticks_keep_alive c times late h next timer live later overdue in
    let first = rounds h s.ticks 1 in
    let rest = rounds h (s.ticks + 1) (length times) in
    subst
      (λ v.
        ((run c (ticks_at times) v).outbox ≡ s.outbox ++ rounds h s.ticks (suc (length times)))
        × ((run c (ticked late ∷ []) (run c (ticks_at times) v)).states h ≡ ready_closed))
      (sym (tick_in_time now h s timer live time))
      (
        sent
            ∙ append_assoc s.outbox first rest
            ∙ ap (λ sending. s.outbox ++ sending) (rounds-suc h s.ticks (length times)),
        shut,
      )
