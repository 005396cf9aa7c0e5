-- ===== src/Gateway/Tests.antt =====
-- Runs of model-gateway.js.
use whatsapp_ai_supervisor.Common.{
  [], any, arith, eqb, false, if◌then◌else◌, inl, inr, none, ok, refl, some, true, ℕ, ◌+◌, ◌<◌, ◌∷◌,
  ◌≡◌,
}
use whatsapp_ai_supervisor.Common.Maps.{get, put, remove}
use whatsapp_ai_supervisor.Gateway.{
  Candidate, Circuit, Limits, can_attempt, circuit_key, record_failure, record_success,
}
use whatsapp_ai_supervisor.Gateway.Errors.{error_of_status, normalize_provider_error, other}
use whatsapp_ai_supervisor.Gateway.Route.{
  Execution, Visit, execute, execute_from, replied, run_candidate, run_one,
}
use whatsapp_ai_supervisor.Gateway.Attempts.{Accounted, execute-Accounted}
use whatsapp_ai_supervisor.Gateway.Circuits.{fail_times, fail_times-probe}
use whatsapp_ai_supervisor.Gateway.Slots.{
  IsSound, Reachable-IsSound, Slots, abandon, acquire, acquires, next, no_slots, release,
  remove_first, start, wake,
}

abbrev limits : Limits
limits = record { max_concurrent = 1; circuit_failure_threshold = 2; circuit_open_ms = 30000 }

abbrev small : Candidate
small = record { provider = "anthropic"; model = some "small" }

abbrev clock : ℕ → ℕ
clock n = 1000 + n

code : Unit {0}
unfolding circuit_key can_attempt record_success record_failure fail_times get put remove acquire
    release wake abandon remove_first any
code = tt

two_failures :
    fail_times limits small 2 clock []
    ≡ ("anthropic:small", record { failures = 2; opened_at = some 1001; half_open = false }) ∷ []
unfolding code
two_failures = refl

-- A probe that ends in an error that is not retryable leaves the circuit half open, and no later
-- time lets the candidate be tried.
stuck_probe :
    (let probe = can_attempt limits 40000 (fail_times limits small 2 clock []) small in
      can_attempt limits 9000000 (record_failure limits 40001 probe.0 small false) small)
    ≡ (
      ("anthropic:small", record { failures = 2; opened_at = some 1001; half_open = true }) ∷ [],
      false,
    )
unfolding code
stuck_probe = refl

abbrev busy : Slots
busy = record { active = 1; waiters = 2 ∷ []; holders = 1 ∷ [] }

taken_and_waiting : acquire 1 false 2 (acquire 1 false 1 no_slots) ≡ busy
unfolding code
taken_and_waiting = refl

passed_on : release 1 busy ≡ record { active = 1; waiters = []; holders = 2 ∷ [] }
unfolding code
passed_on = refl

nothing : get {V = Circuit} [] (circuit_key small) ≡ none
unfolding code
nothing = refl

fail_times-probe_example :
    (let after = fail_times limits small 2 clock [] in
      let probe = can_attempt limits 40000 after small in
      ((soon : ℕ) → soon < 1001 + 30000 → can_attempt limits soon after small ≡ (after, false))
      × (probe.1 ≡ true)
      × (can_attempt limits 9000000 probe.0 small ≡ (probe.0, false)))
fail_times-probe_example =
    fail_times-probe limits small 1 clock 40000 9000000 [] nothing refl (omega arith) (omega arith)

Reachable-IsSound_example : IsSound 1 (acquire 1 false 1 no_slots)
Reachable-IsSound_example =
    Reachable-IsSound 1 (acquire 1 false 1 no_slots) (next start (acquires false 1 no_slots))

-- The first candidate fails twice with a status of 500, the second answers.
abbrev visits : ℕ → Visit ℕ
visits index = record {
  aborted = false;
  checked_at = 5;
  tries = λ attempt. record {
    aborted_before = false;
    aborted_after = false;
    answer = if eqb index 0 then inr (other "" none (some 500)) else inl 7;
    failed_at = 9;
    checked_at = 9;
  };
}

abbrev large : Candidate
large = record { provider = "openai"; model = some "large" }

abbrev answered_second : Execution ℕ
answered_second = record {
  circuits =
      ("anthropic:small", record { failures = 2; opened_at = some 9; half_open = false }) ∷ [];
  asked = 3;
  result = replied 7;
}

execute_run :
    execute limits 1 (λ name. true) visits "standard" 4 (small ∷ large ∷ []) [] ≡ ok answered_second
unfolding code run_candidate run_one execute_from execute normalize_provider_error error_of_status
execute_run = refl

execute-Accounted_example : Accounted limits 1 (λ name. true) visits 2 0 answered_second
execute-Accounted_example =
    execute-Accounted limits 1 (λ name. true) visits "standard" 4 (small ∷ large ∷ []) []
      answered_second execute_run
