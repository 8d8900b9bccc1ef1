-- ===== src/Sidecar.antt =====
-- connection-state.ts and connection-retry.ts: how a sidecar sees its connection, and how it tries
-- again. An error is its message, and an attempt of the loop is what happened in it.
use wrangle_webhooks.Base.{
  ◌==◌, if◌then◌else◌, drop, Text, codes, starts_with, includes, is_digit, is_letter, to_lower, ℕ,
  ◌*◌, min, Bool, true, false, not, ◌&&◌, ◌||◌, Option, none, some, List, [], ◌∷◌,
}
pub mod Failures
pub mod Delays
pub mod TunnelClient
mod Tests

-- Why a sidecar is connecting, live, unauthorized, failed by the network, or disconnected.
pub data ConnectionStateReason : Type 0 where
  connecting connected unauthorized network_error disconnected : ConnectionStateReason

-- `\w`
unfoldable pub is_word_unit : ℕ → Bool
unfolding is_letter is_digit
is_word_unit c = is_letter c || (is_digit c || c == b'_')

abbrev pub ends_word : Text → Bool
ends_word [] = true
ends_word (c ∷ s) = not (is_word_unit c)

-- `/\b(401|403)\b/` from a place on, after a word unit or not.
unfoldable pub mentions_denial : Bool → Text → Bool
unfolding is_word_unit starts_with
mentions_denial after_word [] = false
mentions_denial after_word (c ∷ s) =
    let here = starts_with (c ∷ s) (codes "401") || starts_with (c ∷ s) (codes "403") in
    (not after_word && (here && ends_word (drop 3 (c ∷ s)))) || mentions_denial (is_word_unit c) s

unfoldable pub classify_connection_failure : Text → Option ℕ → ConnectionStateReason
classify_connection_failure message status_code =
    let denied : Bool = elim status_code [
      | none ↦ false
      | some code ↦ code == 401 || code == 403
    ] in
    if denied
    then unauthorized
    else if mentions_denial false message || includes (to_lower message) (codes "unauthorized")
    then unauthorized
    else network_error

-- The new state from the current one and the class of the failure.
abbrev pub keep_sticky : ConnectionStateReason → ConnectionStateReason → ConnectionStateReason
keep_sticky disconnected next = disconnected
keep_sticky unauthorized network_error = unauthorized
keep_sticky current next = next

unfoldable pub next_connection_failure :
    ConnectionStateReason → Text → Option ℕ → ConnectionStateReason
next_connection_failure current message status_code =
    keep_sticky current (classify_connection_failure message status_code)

abbrev pub connection_retry_max_delay_ms : ℕ
connection_retry_max_delay_ms = 30000

-- What `fn` did in an attempt.
pub data Outcome (A : Type 0) : Type 0 where
  returned : A → Outcome A
  threw : Text → Outcome A

-- One turn of the loop: the signal at its start, the outcome, the signal after a failure, and
-- whether it fires during the sleep.
pub record Attempt (A : Type 0) : Type 0 where
  pub aborted_before : Bool
  pub outcome : Outcome A
  pub aborted_after : Bool
  pub aborted_asleep : Bool

-- The loop's end: a value, the error of `fn`, the error for an abort, or not yet.
pub data Ended (A : Type 0) : Type 0 where
  got : A → Ended A
  rethrew : Text → Ended A
  aborted still_trying : Ended A

-- The loop over the attempts: the delays that it started to sleep, and its end.
unfoldable pub retry_from : {A : Type 0} → ℕ → List (Attempt A) → List ℕ × Ended A
retry_from delay [] = ([], still_trying)
retry_from delay (a ∷ attempts) =
    let later = retry_from (min (delay * 2) connection_retry_max_delay_ms) attempts in
    if a.aborted_before then ([], aborted) else elim a.outcome [
      | returned value ↦ ([], got value)
      | threw error ↦
          if a.aborted_after
          then ([], rethrew error)
          else if a.aborted_asleep
          then (delay ∷ [], aborted)
          else (delay ∷ later.0, later.1)
    ]

unfoldable pub retry_until_aborted : {A : Type 0} → List (Attempt A) → List ℕ × Ended A
retry_until_aborted attempts = retry_from 1000 attempts
