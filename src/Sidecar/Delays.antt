-- ===== src/Sidecar/Delays.antt =====
-- The delays of the retry loop.
use wrangle_webhooks.Sidecar.{
  Attempt, retry_from, Outcome, returned, threw, got, retry_until_aborted,
}
use wrangle_webhooks.Base.{
  ℕ, zero, suc, ◌*◌, ◌^◌, min, ◌≡◌, List, [], ◌∷◌, arith, Bool-cases, length, refl, inl, inr, Text,
  ap, ◌⊎◌, false, ◌++◌, map,
}

-- The delays from the n-th on: they double from one second and stop at thirty.
abbrev pub schedule : ℕ → ℕ → List ℕ
schedule n zero = []
schedule n (suc k) = min (1000 * 2 ^ n) 30000 ∷ schedule (suc n) k

delay_step : (n : ℕ) → min (min (1000 * 2 ^ n) 30000 * 2) 30000 ≡ min (1000 * 2 ^ suc n) 30000
delay_step n = omega arith

Outcome-cases :
    {A : Type 0}
    → (o : Outcome A) → ((value : A) × (o ≡ returned value)) ⊎ ((error : Text) × (o ≡ threw error))
Outcome-cases (returned value) = inl (value, refl)
Outcome-cases (threw error) = inr (error, refl)

retry_from_delays :
    {A : Type 0}
    → (n : ℕ) (attempts : List (Attempt A))
    → (retry_from (min (1000 * 2 ^ n) 30000) attempts).0
      ≡ schedule n (length (retry_from (min (1000 * 2 ^ n) 30000) attempts).0)
unfolding retry_from
retry_from_delays n [] = refl
retry_from_delays n (a ∷ attempts) = elim (Bool-cases a.aborted_before) [
  | inl b ↦ rw b refl
  | inr b ↦ elim (Outcome-cases a.outcome) [
    | inl (value, o) ↦ rw (b, o) refl
    | inr (error, o) ↦ elim (Bool-cases a.aborted_after) [
      | inl f ↦ rw (b, o, f) refl
      | inr f ↦ elim (Bool-cases a.aborted_asleep) [
        | inl z ↦ rw (b, o, f, z) refl
        | inr z ↦
            rw (b, o, f, z, delay_step n)
              (ap (λ rest. min (1000 * 2 ^ n) 30000 ∷ rest) (retry_from_delays (suc n) attempts))
      ]
    ]
  ]
]

-- An attempt in which `fn` failed, and nothing was aborted.
abbrev pub failing : {A : Type 0} → Text → Attempt A
failing error = record {
  aborted_before = false;
  outcome = threw error;
  aborted_after = false;
  aborted_asleep = false;
}

-- An attempt in which `fn` returned.
abbrev pub succeeding : {A : Type 0} → A → Attempt A
succeeding value = record {
  aborted_before = false;
  outcome = returned value;
  aborted_after = false;
  aborted_asleep = false;
}

retry_from_succeeds :
    {A : Type 0}
    → (n : ℕ) (errors : List Text) (value : A) (rest : List (Attempt A))
    → retry_from (min (1000 * 2 ^ n) 30000) (map failing errors ++ (succeeding value ∷ rest))
      ≡ (schedule n (length errors), got value)
unfolding retry_from
retry_from_succeeds n [] value rest = refl
retry_from_succeeds n (error ∷ errors) value rest =
    rw (delay_step n, retry_from_succeeds (suc n) errors value rest) refl

-- Whatever happens, the loop sleeps for a second, then twice as long each time, and never longer
-- than thirty seconds; and if nothing is aborted it returns the first value after a sleep for each
-- failure before it.
pub retry_until_aborted-schedule :
    {A : Type 0}
    → (attempts : List (Attempt A)) (errors : List Text) (value : A)
    → ((retry_until_aborted attempts).0 ≡ schedule 0 (length (retry_until_aborted attempts).0))
      × (retry_until_aborted (map failing errors ++ (succeeding value ∷ attempts))
          ≡ (schedule 0 (length errors), got value))
unfolding retry_until_aborted
retry_until_aborted-schedule attempts errors value =
    (retry_from_delays 0 attempts, retry_from_succeeds 0 errors value attempts)
