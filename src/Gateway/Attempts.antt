-- ===== src/Gateway/Attempts.antt =====
-- src/ai/model-gateway.js, `runCandidate` and `execute`: how often providers are asked, and what is
-- left when all of them failed.
use mathlib.Core.Path.{subst}
use whatsapp_ai_supervisor.Common.{
  Bool, List, String, [], ap, arith, false, if-holds, inl, inr, length, length-append, length-take,
  min, not, ok, ok-injective, refl, suc, take, true, zero, ℕ, ◌*◌, ◌++◌, ◌+◌, ◌||◌, ◌∷◌, ◌≡◌, ◌≤◌,
  ◌⊎◌,
}
use whatsapp_ai_supervisor.Common.Maps.{Map}
use whatsapp_ai_supervisor.Gateway.{Candidate, Circuit, Limits, can_attempt, record_failure}
use whatsapp_ai_supervisor.Gateway.Errors.{GatewayError, Thrown, normalize_provider_error}
use whatsapp_ai_supervisor.Gateway.Route.{
  Executed, Execution, Ran, Reply, Try, Visit, all_failed, answered, deadline_error, execute,
  execute_from, failed, is_deadline, judge, on_reply, ran, resolves, retry, run_allowed,
  run_candidate, run_one,
}

module _ {R : Type 0} (limits : Limits) where
  pub retry-asked-le :
      (candidate : Candidate) (tries : ℕ → Try R) (checked : Map Circuit × Bool)
      (error : GatewayError) (again : Map Circuit → Ran R) (left : ℕ)
      → ((circuits : Map Circuit) → (again circuits).asked ≤ left)
      → (retry limits candidate tries checked error again).asked ≤ left + 1
  retry-asked-le candidate tries (circuits, true) error again left h = omega (arith, h circuits)
  retry-asked-le candidate tries (circuits, false) error again left h = omega arith

  pub judge-asked-le :
      (candidate : Candidate) (tries : ℕ → Try R) (circuits : Map Circuit) (now_try : Try R)
      (last_try : Bool) (answer : R ⊎ Thrown) (again : Map Circuit → Ran R) (left : ℕ)
      → ((circuits : Map Circuit) → (again circuits).asked ≤ left)
      → (judge limits candidate tries circuits now_try last_try answer again).asked ≤ left + 1
  judge-asked-le candidate tries circuits now_try last_try (inl value) again left h =
      if-holds (λ (r : Ran R). r.asked ≤ left + 1) now_try.aborted_after (λ _. omega arith)
        (λ _. omega arith)
  judge-asked-le candidate tries circuits now_try last_try (inr thrown) again left h =
      let error = normalize_provider_error thrown candidate.provider in
      let after = record_failure limits now_try.failed_at circuits candidate error.retryable in
      if-holds (λ (r : Ran R). r.asked ≤ left + 1) now_try.aborted_after (λ _. omega arith)
        (λ _.
          if-holds (λ (r : Ran R). r.asked ≤ left + 1) (not error.retryable || last_try)
            (λ _. omega arith)
            (λ _.
              retry-asked-le candidate tries (can_attempt limits now_try.checked_at after candidate)
                error again left h))

  -- The loop asks once, and once more for each retry, at most.
  pub run_candidate-asked-le :
      (candidate : Candidate) (tries : ℕ → Try R) (left attempt : ℕ) (circuits : Map Circuit)
      → (run_candidate limits candidate tries left attempt circuits).asked ≤ left + 1
  unfolding run_candidate
  run_candidate-asked-le candidate tries zero attempt circuits =
      if-holds (λ (r : Ran R). r.asked ≤ 1) (tries attempt).aborted_before (λ _. omega arith)
        (λ _.
          judge-asked-le candidate tries circuits (tries attempt) true (tries attempt).answer
            (λ c. ran c 0 (failed deadline_error)) 0 (λ c. omega arith))
  run_candidate-asked-le candidate tries (suc left) attempt circuits =
      if-holds (λ (r : Ran R). r.asked ≤ suc left + 1) (tries attempt).aborted_before
        (λ _. omega arith)
        (λ _.
          judge-asked-le candidate tries circuits (tries attempt) false (tries attempt).answer
            (run_candidate limits candidate tries left (attempt + 1)) (suc left)
            (λ c. omega (arith, run_candidate-asked-le candidate tries left (attempt + 1) c)))

pub all_failed-injective :
    {R : Type 0} (result : Executed R) {failures errors : List GatewayError}
    → result ≡ all_failed failures
    → result ≡ all_failed errors
    → failures ≡ errors
all_failed-injective result e₁ e₂ = cc

module _ {R : Type 0} (limits : Limits) (max_retries : ℕ) (providers : String → Bool)
    (visits : ℕ → Visit R) where
  pub run_one-asked-le :
      (candidate : Candidate) (visit : Visit R) (circuits : Map Circuit)
      → (run_one limits max_retries providers visits candidate visit circuits).asked
        ≤ max_retries + 1
  unfolding run_one
  run_one-asked-le candidate visit circuits =
      if-holds (λ (r : Ran R). r.asked ≤ max_retries + 1) (resolves providers candidate.provider)
        (λ _. allowed_le (can_attempt limits visit.checked_at circuits candidate))
        (λ _. omega arith)
    where
      allowed_le :
          (checked : Map Circuit × Bool)
          → (run_allowed limits max_retries providers visits candidate visit checked).asked
            ≤ max_retries + 1
      allowed_le (after, true) =
          run_candidate-asked-le limits candidate visit.tries max_retries 0 after
      allowed_le (after, false) = omega arith

  -- The calls are bounded, and a failure of all is one error for each candidate.
  pub record Accounted (count earlier : ℕ) (execution : Execution R) : Type 0 where
    pub bounded : execution.asked ≤ count * (max_retries + 1)
    pub listed :
        (errors : List GatewayError)
        → execution.result ≡ all_failed errors
        → length errors ≡ earlier + count

  pub on_reply-Accounted :
      (circuits : Map Circuit) (asked : ℕ) (reply : Reply R) (failures : List GatewayError)
      (rest : Map Circuit → List GatewayError → Execution R) (count : ℕ)
      → asked ≤ max_retries + 1
      → ((circuits : Map Circuit) (errors : List GatewayError)
          → Accounted count (length errors) (rest circuits errors))
      → Accounted
          (suc count)
          (length failures)
          (on_reply limits max_retries providers visits circuits asked reply failures rest)
  on_reply-Accounted circuits asked (answered value) failures rest count few h = record {
    bounded = omega arith;
    listed = λ errors e. cc;
  }
  on_reply-Accounted circuits asked (failed error) failures rest count few h =
      let later = h circuits (failures ++ error ∷ []) in
      let bounded = later.bounded in
      if-holds (Accounted (suc count) (length failures)) (is_deadline error.code)
        (λ _. record { bounded = omega arith; listed = λ errors e. cc })
        (λ _. record {
          bounded = omega arith;
          listed =
              λ errors e. omega (arith, later.listed errors e, length-append failures (error ∷ []));
        })

  pub execute_from-Accounted :
      (index : ℕ) (candidates : List Candidate) (failures : List GatewayError)
      (circuits : Map Circuit)
      → Accounted
          (length candidates)
          (length failures)
          (execute_from limits max_retries providers visits index candidates failures circuits)
  unfolding execute_from
  execute_from-Accounted index [] failures circuits = record {
    bounded = omega arith;
    listed =
        λ errors e. omega (arith, ap length (all_failed-injective _ {failures = failures} refl e));
  }
  execute_from-Accounted index (candidate ∷ candidates) failures circuits =
      if-holds (Accounted (suc (length candidates)) (length failures)) (visits index).aborted
        (λ _. record { bounded = omega arith; listed = λ errors e. cc })
        (λ _.
          let run = run_one limits max_retries providers visits candidate (visits index) circuits in
          on_reply-Accounted run.circuits run.asked run.reply failures
            (λ later errors.
              execute_from limits max_retries providers visits (index + 1) candidates errors later)
            (length candidates) (run_one-asked-le candidate (visits index) circuits)
            (λ later errors. execute_from-Accounted (index + 1) candidates errors later))

  -- A run of a route asks providers at most `max_retries + 1` times for each of its first
  -- `max_candidates` candidates, and when it ends in the failure of all, there is exactly one error
  -- for each of these candidates.
  pub execute-Accounted :
      (route : String) (max_candidates : ℕ) (configured : List Candidate) (circuits : Map Circuit)
      (execution : Execution R)
      → execute limits max_retries providers visits route max_candidates configured circuits
        ≡ ok execution
      → Accounted (min max_candidates (length configured)) 0 execution
  unfolding execute
  execute-Accounted route max_candidates [] circuits execution e = cc
  execute-Accounted route max_candidates (first ∷ others) circuits execution e =
      let configured = first ∷ others in
      let accounted = execute_from-Accounted 0 (take max_candidates configured) [] circuits in
      subst (λ count. Accounted count 0 execution) (length-take max_candidates configured)
        (subst (Accounted (length (take max_candidates configured)) 0) (ok-injective e) accounted)
