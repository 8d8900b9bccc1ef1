-- ===== src/Route/Alarm.antt =====
-- The alarm that `scheduleCleanup` of durable-object.ts sets.
use wrangle_webhooks.Base.{
  Bool-cases, All, ℕ, ◌+◌, ◌≤◌, ◌<◌, min, max, ◌≡◌, refl, inl, inr, true, false, Option, none, some,
  List, [], ◌∷◌, map, arith, ltb,
}
use wrangle_webhooks.Base.Sql.{count_where}
use wrangle_webhooks.Log.Connection.{is_tunnel}
use wrangle_webhooks.Route.{SubscriberRow, least, RouteState, schedule_cleanup}
pub mod Chain

-- An alarm at t is in time for a row.
abbrev pub IsDue : ℕ → ℕ → SubscriberRow → Type 0
IsDue now t r =
    (t ≤ max r.expires_at (now + 1000)) × (is_tunnel r.transport ≡ true → t ≤ now + 30000)

-- An alarm at t is at least a second away, and it is not after the end of a row's term, or, for a
-- tunnel, the next check, unless that is less than a second away; no alarm is set for no rows.
abbrev pub IsArmed : ℕ → List SubscriberRow → Option ℕ → Type 0
IsArmed now rows none = rows ≡ []
IsArmed now rows (some t) = (now + 1000 ≤ t) × All (IsDue now t) rows

abbrev expiries_of : List SubscriberRow → List ℕ
expiries_of rows = map (λ (row : SubscriberRow). row.expires_at) rows

abbrev IsFrom : ℕ → SubscriberRow → Type 0
IsFrom m r = m ≤ r.expires_at

All-IsFrom_lower :
    (m n : ℕ) (rows : List SubscriberRow) → m ≤ n → All (IsFrom n) rows → All (IsFrom m) rows
All-IsFrom_lower m n [] h k = tt
All-IsFrom_lower m n (r ∷ rows) h k = (omega arith, All-IsFrom_lower m n rows h k.1)

-- The least end of a term, of at least one row.
least_expiry :
    (r : SubscriberRow) (rows : List SubscriberRow)
    → All (λ (x : SubscriberRow). 0 < x.expires_at) (r ∷ rows)
    → (m : ℕ) × (least (expiries_of (r ∷ rows)) ≡ some m) × (0 < m) × All (IsFrom m) (r ∷ rows)
least_expiry r [] h = (r.expires_at, refl, h.0, (omega arith, tt))
least_expiry r (x ∷ rows) h =
    let (m, e, p, k) = least_expiry x rows h.1 in
    let positive = h.0 in
    (
      min r.expires_at m,
      rw e refl,
      omega arith,
      (omega arith, All-IsFrom_lower (min r.expires_at m) m (x ∷ rows) (omega arith) k),
    )

no_tunnel :
    (rows : List SubscriberRow)
    → count_where (λ (row : SubscriberRow). is_tunnel row.transport) rows ≡ 0
    → All (λ (r : SubscriberRow). is_tunnel r.transport ≡ false) rows
no_tunnel [] h = tt
no_tunnel (r ∷ rows) h = elim (Bool-cases (is_tunnel r.transport)) [
  | inl e ↦ absurd (ground arith)
  | inr e ↦ (e, no_tunnel rows (ground arith))
]

ltb-true : (a b : ℕ) → a < b → ltb a b ≡ true
ltb-true a b h = ground arith

-- Each row under the two candidates for the alarm.
armed_by_both :
    (now m : ℕ) (rows : List SubscriberRow)
    → All (IsFrom m) rows
    → All (IsDue now (max (min m (now + 30000)) (now + 1000))) rows
armed_by_both now m [] h = tt
armed_by_both now m (r ∷ rows) h =
    let from = h.0 in ((omega arith, λ _. omega arith), armed_by_both now m rows h.1)

-- Without a tunnel the end of the first term is the only candidate.
armed_by_expiry :
    (now m : ℕ) (rows : List SubscriberRow)
    → All (IsFrom m) rows
    → All (λ (r : SubscriberRow). is_tunnel r.transport ≡ false) rows
    → All (IsDue now (max m (now + 1000))) rows
armed_by_expiry now m [] h k = tt
armed_by_expiry now m (r ∷ rows) h k =
    let from = h.0 in
    let public = k.0 in
    ((omega arith, λ t. absurd (ground arith)), armed_by_expiry now m rows h.1 k.1)

-- If no row's term ends at 0, the alarm that is set is at least a second away, and for each row it
-- is not after the end of its term, or, for a tunnel, the next check in thirty seconds, unless that
-- is less than a second away; the alarm is deleted only if there is no row.
pub schedule_cleanup-IsArmed :
    (now : ℕ) (s : RouteState)
    → All (λ (r : SubscriberRow). 0 < r.expires_at) s.rows
    → IsArmed now s.rows (schedule_cleanup now s).alarm
unfolding schedule_cleanup
schedule_cleanup-IsArmed now s h = arm now s.rows h
  where
    arm :
        (now : ℕ) (rows : List SubscriberRow)
        → All (λ (r : SubscriberRow). 0 < r.expires_at) rows
        → IsArmed now rows (schedule_cleanup now (record s { rows = rows })).alarm
    arm now [] h = refl
    arm now (r ∷ rows) h =
        let (m, e, p, k) = least_expiry r rows h in
        elim (Bool-cases
          (ltb 0 (count_where (λ (row : SubscriberRow). is_tunnel row.transport) (r ∷ rows)))) [
            | inl t ↦
                rw (e, t, ltb-true 0 m p, ltb-true 0 (now + 30000) (omega arith))
                  (omega arith, armed_by_both now m (r ∷ rows) k)
            | inr t ↦
                rw (e, t, ltb-true 0 m p)
                  (
                    omega arith,
                    armed_by_expiry now m (r ∷ rows) k (no_tunnel (r ∷ rows) (ground arith)),
                  )
          ]
