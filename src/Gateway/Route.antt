-- ===== src/Gateway/Route.antt =====
-- src/ai/model-gateway.js, `runCandidate`, `execute` and `resolveProvider`. What the providers, the
-- deadline and the clock do is an argument, one record for each try.
use Prim.Native.String
use whatsapp_ai_supervisor.Common.{
  Bool, List, Result, String, [], false, if◌then◌else◌, inl, inr, is_empty, none, not, ok, suc,
  take, throws, true, zero, ℕ, ◌&&◌, ◌++◌, ◌+◌, ◌==◌, ◌||◌, ◌∷◌, ◌⊎◌,
}
use whatsapp_ai_supervisor.Common.Maps.{Map}
use whatsapp_ai_supervisor.Gateway.{
  Candidate, Circuit, Limits, can_attempt, record_failure, record_success,
}
use whatsapp_ai_supervisor.Gateway.Errors.{
  Code, GatewayError, Thrown, circuit_open, deadline_exceeded, error_of, normalize_provider_error,
  unavailable,
}

-- One pass of the loop: whether the deadline is over before and after the provider's answer, the
-- answer, and `now()` in `recordFailure` and in `canAttempt`.
pub record Try (R : Type 0) : Type 0 where
  pub aborted_before : Bool
  pub aborted_after : Bool
  pub answer : R ⊎ Thrown
  pub failed_at : ℕ
  pub checked_at : ℕ

-- One candidate of the route.
pub record Visit (R : Type 0) : Type 0 where
  pub aborted : Bool
  pub checked_at : ℕ
  pub tries : ℕ → Try R

pub data Reply (R : Type 0) : Type 0 where
  answered : R → Reply R
  failed : GatewayError → Reply R

abbrev pub deadline_error : GatewayError
deadline_error = record { code = deadline_exceeded; provider = none; retryable = false }

-- The circuits, how often a provider was asked, and the reply.
pub record Ran (R : Type 0) : Type 0 where
  pub circuits : Map Circuit
  pub asked : ℕ
  pub reply : Reply R

abbrev pub ran : {R : Type 0} → Map Circuit → ℕ → Reply R → Ran R
ran circuits asked reply = record { circuits = circuits; asked = asked; reply = reply }

abbrev pub one_more : {R : Type 0} → Ran R → Ran R
one_more result = record result { asked = result.asked + 1 }

module _ {R : Type 0} (limits : Limits) (candidate : Candidate) (tries : ℕ → Try R) where
  -- After a failure that may be tried again, if the circuit allows it.
  abbrev pub retry : Map Circuit × Bool → GatewayError → (Map Circuit → Ran R) → Ran R
  retry (circuits, true) error again = one_more (again circuits)
  retry (circuits, false) error again = ran circuits 1 (failed error)

  -- The rest of a pass, from the provider's answer on; `last_try` is `attempt >= max`.
  abbrev pub judge : Map Circuit → Try R → Bool → R ⊎ Thrown → (Map Circuit → Ran R) → Ran R
  judge circuits try_ last_try (inl value) again =
      if try_.aborted_after
      then ran circuits 1 (failed deadline_error)
      else ran (record_success circuits candidate) 1 (answered value)
  judge circuits try_ last_try (inr thrown) again =
      let error = normalize_provider_error thrown candidate.provider in
      let after = record_failure limits try_.failed_at circuits candidate error.retryable in
      if try_.aborted_after
      then ran circuits 1 (failed deadline_error)
      else if not error.retryable || last_try
      then ran after 1 (failed error)
      else retry (can_attempt limits try_.checked_at after candidate) error again

  -- The loop with `left` retries left, at the given attempt.
  unfoldable pub run_candidate : ℕ → ℕ → Map Circuit → Ran R
  run_candidate zero attempt circuits =
      let now_try = tries attempt in
      if now_try.aborted_before
      then ran circuits 0 (failed deadline_error)
      else judge circuits now_try true now_try.answer (λ c. ran c 0 (failed deadline_error))
  run_candidate (suc left) attempt circuits =
      let now_try = tries attempt in
      if now_try.aborted_before
      then ran circuits 0 (failed deadline_error)
      else judge circuits now_try false now_try.answer (run_candidate left (attempt + 1))

abbrev pub is_deadline : Code → Bool
is_deadline deadline_exceeded = true
is_deadline _ = false

-- `this.providers[name]`, with the two names that stand for each other.
abbrev pub resolves : (String → Bool) → String → Bool
resolves providers name =
    not (is_empty name)
    && (providers name
        || (name == "tabitoken" && providers "anthropic")
        || (name == "anthropic" && providers "tabitoken"))

-- What `execute` comes to.
pub data Executed (R : Type 0) : Type 0 where
  replied : R → Executed R
  out_of_time : GatewayError → Executed R
  all_failed : List GatewayError → Executed R

pub record Execution (R : Type 0) : Type 0 where
  pub circuits : Map Circuit
  pub asked : ℕ
  pub result : Executed R

abbrev pub executed : {R : Type 0} → Map Circuit → ℕ → Executed R → Execution R
executed circuits asked result = record { circuits = circuits; asked = asked; result = result }

abbrev pub asked_before : {R : Type 0} → ℕ → Execution R → Execution R
asked_before n execution = record execution { asked = n + execution.asked }

module _ {R : Type 0} (limits : Limits) (max_retries : ℕ) (providers : String → Bool)
    (visits : ℕ → Visit R) where
  -- After a candidate was run, or not tried: the next one, unless it replied or time is up.
  abbrev pub on_reply :
      Map Circuit
      → ℕ
      → Reply R
      → List GatewayError
      → (Map Circuit → List GatewayError → Execution R)
      → Execution R
  on_reply circuits asked (answered value) failures rest = executed circuits asked (replied value)
  on_reply circuits asked (failed error) failures rest =
      if is_deadline error.code
      then executed circuits asked (out_of_time error)
      else asked_before asked (rest circuits (failures ++ error ∷ []))

  -- The candidate, if the circuit lets it be tried.
  abbrev pub run_allowed : Candidate → Visit R → Map Circuit × Bool → Ran R
  run_allowed candidate visit (circuits, true) =
      run_candidate limits candidate visit.tries max_retries 0 circuits
  run_allowed candidate visit (circuits, false) =
      ran circuits 0 (failed (error_of circuit_open candidate.provider false))

  unfoldable pub run_one : Candidate → Visit R → Map Circuit → Ran R
  run_one candidate visit circuits =
      if resolves providers candidate.provider
      then run_allowed candidate visit (can_attempt limits visit.checked_at circuits candidate)
      else ran circuits 0 (failed (error_of unavailable candidate.provider false))

  -- The loop over the candidates from the one with this index.
  unfoldable pub execute_from : ℕ → List Candidate → List GatewayError → Map Circuit → Execution R
  execute_from index [] failures circuits = executed circuits 0 (all_failed failures)
  execute_from index (candidate ∷ candidates) failures circuits =
      let rest = λ (later : Map Circuit) (errors : List GatewayError).
        execute_from (index + 1) candidates errors later in
      if (visits index).aborted
      then executed circuits 0 (out_of_time deadline_error)
      else (let run = run_one candidate (visits index) circuits in
          on_reply run.circuits run.asked run.reply failures rest)

  -- `configured` is the list of the route, or of the standard one.
  unfoldable pub execute : String → ℕ → List Candidate → Map Circuit → Result (Execution R)
  execute route max_candidates [] circuits =
      throws (String.◌++◌ "No model route configured for " route)
  execute route max_candidates configured circuits =
      ok (execute_from 0 (take max_candidates configured) [] circuits)
