-- ===== src/Sidecar/Failures.antt =====
-- A connection's state after any failures.
use wrangle_webhooks.Base.{
  Text, ℕ, ◌≡◌, Option, List, [], ◌∷◌, if◌then◌else◌, any, refl, ◌⊎◌, inl, inr, Bool, true, false,
  ◌||◌, ◌==◌, Bool-cases, codes, includes, to_lower, none, some,
}
use wrangle_webhooks.Sidecar.{
  ConnectionStateReason, unauthorized, classify_connection_failure, next_connection_failure,
  connecting, connected, network_error, disconnected, mentions_denial,
}

-- A failure's message and its status.
abbrev pub Failure : Type 0
Failure = Text × Option ℕ

abbrev pub after_failures : ConnectionStateReason → List Failure → ConnectionStateReason
after_failures current [] = current
after_failures current (f ∷ failures) =
    after_failures (next_connection_failure current f.0 f.1) failures

abbrev pub is_unauthorized : ConnectionStateReason → Bool
is_unauthorized unauthorized = true
is_unauthorized current = false

-- The failure says that the router refused the credential.
abbrev pub is_denial : Failure → Bool
is_denial f = is_unauthorized (classify_connection_failure f.0 f.1)

-- The state by what has happened, in any order.
abbrev pub state_by_history : ConnectionStateReason → List Failure → ConnectionStateReason
state_by_history current [] = current
state_by_history disconnected (f ∷ failures) = disconnected
state_by_history current (f ∷ failures) =
    if is_unauthorized current || any is_denial (f ∷ failures) then unauthorized else network_error

classify_cases :
    (f : Failure)
    → (classify_connection_failure f.0 f.1 ≡ unauthorized)
      ⊎ (classify_connection_failure f.0 f.1 ≡ network_error)
unfolding classify_connection_failure
classify_cases (message, none) =
    elim (Bool-cases
      (mentions_denial false message || includes (to_lower message) (codes "unauthorized"))) [
        | inl e ↦ rw e (inl refl)
        | inr e ↦ rw e (inr refl)
      ]
classify_cases (message, some code) = elim (Bool-cases (code == 401 || code == 403)) [
  | inl h ↦ rw h (inl refl)
  | inr h ↦
      elim (Bool-cases
        (mentions_denial false message || includes (to_lower message) (codes "unauthorized"))) [
          | inl e ↦ rw (h, e) (inl refl)
          | inr e ↦ rw (h, e) (inr refl)
        ]
]

from_disconnected : (failures : List Failure) → after_failures disconnected failures ≡ disconnected
unfolding next_connection_failure
from_disconnected [] = refl
from_disconnected (f ∷ failures) = from_disconnected failures

from_unauthorized : (failures : List Failure) → after_failures unauthorized failures ≡ unauthorized
unfolding next_connection_failure
from_unauthorized [] = refl
from_unauthorized (f ∷ failures) = elim (classify_cases f) [
  | inl e ↦ rw e (from_unauthorized failures)
  | inr e ↦ rw e (from_unauthorized failures)
]

from_network_error :
    (failures : List Failure)
    → after_failures network_error failures
      ≡ (if any is_denial failures then unauthorized else network_error)
unfolding next_connection_failure
from_network_error [] = refl
from_network_error (f ∷ failures) = elim (classify_cases f) [
  | inl e ↦ rw e (from_unauthorized failures)
  | inr e ↦ rw e (from_network_error failures)
]

-- After any failures a connection that was disconnected still is, one that was unauthorized or saw
-- a denial, at any place among them, is unauthorized, and any other is in a network error; without
-- a failure the state is the one before.
pub after_failures_lem :
    (current : ConnectionStateReason) (failures : List Failure)
    → after_failures current failures ≡ state_by_history current failures
unfolding next_connection_failure
after_failures_lem current [] = refl
after_failures_lem disconnected (f ∷ failures) = from_disconnected failures
after_failures_lem unauthorized (f ∷ failures) = from_unauthorized (f ∷ failures)
after_failures_lem network_error (f ∷ failures) = from_network_error (f ∷ failures)
after_failures_lem connecting (f ∷ failures) = from_network_error (f ∷ failures)
after_failures_lem connected (f ∷ failures) = from_network_error (f ∷ failures)
