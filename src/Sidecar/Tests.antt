-- ===== src/Sidecar/Tests.antt =====
-- The sidecar's theorems at concrete failures.
use wrangle_webhooks.Base.{
  length, Text, codes, starts_with, includes, is_digit, is_letter, to_lower, ◌≡◌, refl, true, false,
  none, some, List, [], ◌∷◌, ◌++◌, map, ℕ,
}
use wrangle_webhooks.Sidecar.{
  connected, is_word_unit, mentions_denial, classify_connection_failure, got, retry_until_aborted,
  Attempt,
}
use wrangle_webhooks.Sidecar.Failures.{
  Failure, after_failures, is_denial, state_by_history, after_failures_lem,
}
use wrangle_webhooks.Sidecar.Delays.{schedule, failing, succeeding, retry_until_aborted-schedule}

abbrev refused : Failure
refused = (codes "registration failed: 401", none)

abbrev unreachable : Failure
unreachable = (codes "fetch failed", some 502)

is_denial-refused : is_denial refused ≡ true
unfolding classify_connection_failure mentions_denial is_word_unit is_letter is_digit starts_with
is_denial-refused = refl

longer_number_passes : is_denial (codes "took 4010 ms", none) ≡ false
unfolding classify_connection_failure mentions_denial is_word_unit is_letter is_digit starts_with
    includes to_lower
longer_number_passes = refl

after_failures_lem_example :
    after_failures connected (refused ∷ unreachable ∷ [])
    ≡ state_by_history connected (refused ∷ unreachable ∷ [])
after_failures_lem_example = after_failures_lem connected (refused ∷ unreachable ∷ [])

abbrev errors : List Text
errors = codes "fetch failed" ∷ codes "fetch failed" ∷ []

abbrev attempts : List (Attempt ℕ)
attempts = failing (codes "down") ∷ succeeding 7 ∷ []

retry_until_aborted-schedule_example :
    ((retry_until_aborted attempts).0 ≡ schedule 0 (length (retry_until_aborted attempts).0))
    × (retry_until_aborted (map failing errors ++ (succeeding 8 ∷ attempts))
        ≡ (schedule 0 (length errors), got 8))
retry_until_aborted-schedule_example = retry_until_aborted-schedule attempts errors 8
