-- ===== src/Gateway.antt =====
-- src/ai/model-gateway.js: the circuit of each model and the slots of concurrent decisions. A time
-- is what `now()` gives, a count of milliseconds.
pub mod Circuits
pub mod Slots
pub mod Errors
pub mod Route
pub mod Attempts
mod Tests
use Prim.Native.String
use whatsapp_ai_supervisor.Common.{
  Bool, Option, String, eqb, false, if◌then◌else◌, leb, ltb, none, some, text_of, true, ℕ, ◌+◌,
  ◌||◌,
}
use whatsapp_ai_supervisor.Common.Maps.{Map, get, put, remove}

pub record Candidate : Type 0 where
  pub provider : String
  pub model : Option String

pub record Circuit : Type 0 where
  pub failures : ℕ
  pub opened_at : Option ℕ
  pub half_open : Bool

-- The limits that the constructor keeps.
pub record Limits : Type 0 where
  pub max_concurrent : ℕ
  pub circuit_failure_threshold : ℕ
  pub circuit_open_ms : ℕ

unfoldable pub circuit_key : Candidate → String
circuit_key candidate = String.◌++◌ candidate.provider (String.◌++◌ ":" (text_of candidate.model))

-- `!state?.openedAt`, where 0 is no time: the time if there is one.
abbrev pub opened : Option Circuit → Option ℕ
opened none = none
opened (some circuit) = elim (circuit.opened_at) [
  | none ↦ none
  | some at ↦ if eqb at 0 then none else some at
]

abbrev pub is_half_open : Option Circuit → Bool
is_half_open none = false
is_half_open (some circuit) = circuit.half_open

abbrev pub probing : Option Circuit → Circuit
probing none = record { failures = 0; opened_at = none; half_open = true }
probing (some circuit) = record circuit { half_open = true }

-- `canAttempt` from the time at which the circuit opened: whether to try, and whether the circuit
-- becomes half open by it. `now - at < open` with the subtraction of integers.
abbrev pub check_circuit : Limits → ℕ → Option ℕ → Bool → Bool × Bool
check_circuit limits now none half_open = (true, false)
check_circuit limits now (some at) half_open =
    if ltb now (at + limits.circuit_open_ms)
    then (false, false)
    else if half_open
    then (false, false)
    else (true, true)

abbrev pub attempt_with : Limits → ℕ → Map Circuit → String → Option Circuit → Map Circuit × Bool
attempt_with limits now circuits key found =
    let (go, probes) = check_circuit limits now (opened found) (is_half_open found) in
    (if probes then put circuits key (probing found) else circuits, go)

unfoldable pub can_attempt : Limits → ℕ → Map Circuit → Candidate → Map Circuit × Bool
can_attempt limits now circuits candidate =
    attempt_with limits now circuits (circuit_key candidate) (get circuits (circuit_key candidate))

unfoldable pub record_success : Map Circuit → Candidate → Map Circuit
record_success circuits candidate = remove circuits (circuit_key candidate)

abbrev pub failures_of : Option Circuit → ℕ
failures_of none = 0
failures_of (some circuit) = circuit.failures

-- The circuit after one more failure.
abbrev pub failed_circuit : Limits → ℕ → Option Circuit → Circuit
failed_circuit limits now current =
    let failures = failures_of current + 1 in
    let should_open = is_half_open current || leb limits.circuit_failure_threshold failures in
    record {
      failures = failures;
      opened_at = if should_open then some now else none;
      half_open = false;
    }

unfoldable pub record_failure : Limits → ℕ → Map Circuit → Candidate → Bool → Map Circuit
record_failure limits now circuits candidate retryable =
    let key = circuit_key candidate in
    if retryable then put circuits key (failed_circuit limits now (get circuits key)) else circuits
