-- ===== src/Log/Retention/Cap.antt =====
-- What the purges of the two logs keep.
use wrangle_webhooks.Log.Inbound.{
  InboundLogEvent, InboundLogEventInput, inbound_log_retention_ms, inbound_log_max_events,
}
use wrangle_webhooks.Log.Connection.{
  ConnectionLogEventInput, connection_log_retention_ms, connection_log_max_events,
}
use wrangle_webhooks.Base.TextLaws.{text_eq_refl}
use wrangle_webhooks.Log.Retention.{
  insert_inbound_log_events, purge_connection_log_events, purge_events, older,
  insert_connection_log_events, ConnectionLogEvent, append_connection_events,
  purge_inbound_log_events, replace_inbound_events,
}
use wrangle_webhooks.Base.{
  length, ◌+◌, ◌≡◌, refl, Bool, List, [], ◌∷◌, arith, ltb, Bool-cases, take, All, Text, text_mem, ℕ,
  zero, suc, ◌-◌, ◌≤◌, min, sym, ap, ◌∙◌, inl, inr, true, map,
}
use wrangle_webhooks.Base.Sql.{count_where, delete_where, order_by, count_where-order_by}

module _ {A : Type 0} (p : A → Bool) where
  length-delete_where : (xs : List A) → length (delete_where p xs) + count_where p xs ≡ length xs
  length-delete_where [] = refl
  length-delete_where (x ∷ xs) = ground (arith, length-delete_where xs)

  count_where-take :
      (k : ℕ) (xs : List A)
      → All (λ x. p x ≡ true) (take k xs)
      → min k (length xs) ≤ count_where p xs
  count_where-take zero xs h = omega arith
  count_where-take (suc k) [] h = omega arith
  count_where-take (suc k) (x ∷ xs) h = ground (arith, h.0, count_where-take k xs h.1)

count_where-true : {A : Type 0} (xs : List A) → count_where (λ x. true) xs ≡ length xs
count_where-true [] = refl
count_where-true (x ∷ xs) = ap suc (count_where-true xs)

length-order_by :
    {A : Type 0} (le : A → A → Bool) (xs : List A) → length (order_by le xs) ≡ length xs
length-order_by le xs =
    sym (count_where-true (order_by le xs))
    ∙ count_where-order_by (λ x. true) le xs
    ∙ count_where-true xs

module _ {A : Type 0} (occurred_at : A → ℕ) (id : A → Text) where
  weaken :
      (t : Text) (ts : List Text) (xs : List A)
      → All (λ x. text_mem (id x) ts ≡ true) xs
      → All (λ x. text_mem (id x) (t ∷ ts) ≡ true) xs
  unfolding text_mem
  weaken t ts [] h = tt
  weaken t ts (x ∷ xs) h = (ground (arith, h.0), weaken t ts xs h.1)

  All-named : (xs : List A) → All (λ x. text_mem (id x) (map id xs) ≡ true) xs
  unfolding text_mem
  All-named [] = tt
  All-named (x ∷ xs) = (rw (text_eq_refl (id x)) refl, weaken (id x) (map id xs) xs (All-named xs))

  -- Deleting the rows with the oldest ids deletes at least as many as there are.
  cut_length :
      (k : ℕ) (rows : List A)
      → length (
            delete_where
              (λ r. text_mem (id r) (map id (take k (order_by (older occurred_at id) rows))))
              rows)
          + min k (length rows)
        ≤ length rows
  cut_length k rows =
      let sorted = order_by (older occurred_at id) rows in
      let p = λ (r : A). text_mem (id r) (map id (take k sorted)) in
      omega (
        arith,
        length-delete_where p rows,
        count_where-take p k sorted (All-named (take k sorted)),
        count_where-order_by p (older occurred_at id) rows,
        length-order_by (older occurred_at id) rows,
      )

  kept_recent :
      (p : A → Bool) (P : A → Type 0) (rows : List A) → All P rows → All P (delete_where p rows)
  kept_recent p P [] h = tt
  kept_recent p P (r ∷ rows) h = elim (Bool-cases (p r)) [
    | inl e ↦ rw e (kept_recent p P rows h.1)
    | inr e ↦ rw e (h.0, kept_recent p P rows h.1)
  ]

  recent :
      (retention now : ℕ) (rows : List A)
      → All
          (λ r. now ≤ occurred_at r + retention)
          (delete_where (λ r. ltb (occurred_at r + retention) now) rows)
  recent retention now [] = tt
  recent retention now (r ∷ rows) = elim (Bool-cases (ltb (occurred_at r + retention) now)) [
    | inl e ↦ rw e (recent retention now rows)
    | inr e ↦ rw e (ground arith, recent retention now rows)
  ]

  -- The row is not before its term, and the table is within its bound.
  abbrev pub IsTrimmed : ℕ → ℕ → ℕ → List A → Type 0
  IsTrimmed retention cap now rows =
      (length rows ≤ cap) × All (λ r. now ≤ occurred_at r + retention) rows

  purge_events-IsTrimmed :
      (retention cap now : ℕ) (rows : List A)
      → IsTrimmed retention cap now (purge_events occurred_at id retention cap now rows)
  unfolding purge_events
  purge_events-IsTrimmed retention cap now rows =
      let kept = delete_where (λ r. ltb (occurred_at r + retention) now) rows in
      let overflow = length kept - cap in
      let oldest = map id (take overflow (order_by (older occurred_at id) kept)) in
      elim (Bool-cases (ltb 0 overflow)) [
        | inl e ↦ rw e (
          ground (arith, cut_length overflow kept),
          kept_recent (λ r. text_mem (id r) oldest) (λ r. now ≤ occurred_at r + retention) kept
              (recent retention now rows),
        )
        | inr e ↦ rw e (ground arith, recent retention now rows)
      ]

-- After events are recorded, each log holds at most as many events as its cap, and none that is
-- older than its retention.
pub inserted-IsTrimmed :
    (now : ℕ) (hex : ℕ → Text) (events : List ConnectionLogEventInput)
    (rows : List ConnectionLogEvent) (inputs : List InboundLogEventInput)
    (requests : List InboundLogEvent)
    → IsTrimmed
        (λ (e : ConnectionLogEvent). e.occurred_at)
        (λ (e : ConnectionLogEvent). e.id)
        connection_log_retention_ms
        connection_log_max_events
        now
        (insert_connection_log_events now hex events rows)
      × IsTrimmed
          (λ (e : InboundLogEvent). e.occurred_at)
          (λ (e : InboundLogEvent). e.id)
          inbound_log_retention_ms
          inbound_log_max_events
          now
          (insert_inbound_log_events now inputs requests)
unfolding insert_connection_log_events purge_connection_log_events insert_inbound_log_events
    purge_inbound_log_events
inserted-IsTrimmed now hex events rows inputs requests = (
  purge_events-IsTrimmed (λ (e : ConnectionLogEvent). e.occurred_at)
      (λ (e : ConnectionLogEvent). e.id) connection_log_retention_ms connection_log_max_events now
      (append_connection_events now hex 0 events rows),
  purge_events-IsTrimmed (λ (e : InboundLogEvent). e.occurred_at) (λ (e : InboundLogEvent). e.id)
      inbound_log_retention_ms inbound_log_max_events now
      (replace_inbound_events now inputs requests),
)
