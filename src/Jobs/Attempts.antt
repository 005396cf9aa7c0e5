-- ===== src/Jobs/Attempts.antt =====
-- src/jobs/durable-job-worker.js, `runOnce`.
use mathlib.Core.Path.{subst}
use whatsapp_ai_supervisor.Common.{
  >>=-ok_parts, All, Bool-cases, List, Option, Result, String, [], arith, eq_refl, false, filter,
  if◌then◌else◌, inl, inr, is_empty, leb, max, none, not, ok, ok-injective, refl, require-passed,
  some, throws, ℕ, ◌+◌, ◌∷◌, ◌≡◌, ◌≤◌,
}
use whatsapp_ai_supervisor.Jobs.{
  Config, Handlers, Job, Round, Status, claim_next, claimed, complete, completed, completed_row,
  dead, dead_row, earliest, fail, failed, handle, idle, is_claimable, queued, retried_row,
  retry_delay_ms, run_claimed, run_once, settle, settle_failed, settle_handled, succeeded,
  update_where_id,
}
use whatsapp_ai_supervisor.Jobs.Leases.{earliest-none}
use whatsapp_ai_supervisor.Jobs.Rows.{update_where_id-All}

module _ {A : Type 0} where
  -- What becomes of a job whose handler threw.
  abbrev pub status_after_failure : Job A → Status
  status_after_failure job = if leb (max 1 job.max_attempts) job.attempt_count then dead else queued

  pub complete-All :
      (table : List (Job A)) (id : String) {after : List (Job A)}
      → complete table id ≡ ok after
      → All (λ row. row.id ≡ id → row.status ≡ completed) after
  unfolding complete completed_row
  complete-All table id {after} e =
      let (_, done) =
        require-passed (not (is_empty id)) "job_id_required"
          (ok (update_where_id id completed_row table)) e in
      subst (All (λ row. row.id ≡ id → row.status ≡ completed)) (ok-injective done) (
        update_where_id-All (λ row. row.id ≡ id → row.status ≡ completed) id completed_row table
          (λ row same _. refl) (λ row other same. absurd (other same)))

  pub fail-All :
      (config : Config) (table : List (Job A)) (job : Job A) (now jitter : ℕ) {after : List (Job A)}
      → fail config table job now jitter ≡ ok after
      → All (λ row. row.id ≡ job.id → row.status ≡ status_after_failure job) after
  unfolding fail dead_row retried_row
  fail-All config table job now jitter {after} e =
      let Settled = λ (row : Job A). (row.id ≡ job.id → row.status ≡ status_after_failure job) in
      elim (Bool-cases (leb (max 1 job.max_attempts) job.attempt_count)) [
        | inl spent ↦
            let done : update_where_id job.id dead_row table ≡ after = ground arith in
            subst (All Settled) done (
              update_where_id-All Settled job.id dead_row table (λ row same _. ground arith)
                (λ row other same. absurd (other same)))
        | inr left ↦
            let retried = retried_row (now + retry_delay_ms config job.attempt_count jitter) in
            let done : update_where_id job.id retried table ≡ after = ground arith in
            subst (All Settled) done (
              update_where_id-All Settled job.id retried table (λ row same _. ground arith)
                (λ row other same. absurd (other same)))
      ]

  -- A job that cannot be completed cannot be failed: it has no id.
  complete-fail :
      (config : Config) (table : List (Job A)) (job : Job A) (now jitter : ℕ) {message : String}
      {after : List (Job A)} {round : Round A}
      → complete table job.id ≡ throws message
      → settle_failed config table job now jitter ≡ ok (after, round)
      → ⊥
  unfolding complete fail settle_failed
  complete-fail config table job now jitter thrown e = elim (Bool-cases (is_empty job.id)) [
    | inl blank ↦ ground (arith, blank, e)
    | inr named ↦ ground (arith, named, thrown)
  ]

  -- What a round says it did, against the table it left.
  abbrev pub Outcome : Handlers A → ℕ → List (Job A) → List (Job A) → Round A → Type 0
  Outcome handlers now before after idle =
      (after ≡ before) × (filter (is_claimable now) before ≡ [])
  Outcome handlers now before after (succeeded job) =
      (handle handlers job ≡ ok tt) × All (λ row. row.id ≡ job.id → row.status ≡ completed) after
  Outcome handlers now before after (failed job) =
      ((message : String) × (handle handlers job ≡ throws message))
      × All (λ row. row.id ≡ job.id → row.status ≡ status_after_failure job) after

  pub settle-Outcome :
      (config : Config) (handlers : Handlers A) (table before : List (Job A)) (job : Job A)
      (handled : Result (Unit {0})) (now jitter : ℕ) {after : List (Job A)} {round : Round A}
      → handle handlers job ≡ handled
      → settle config table job handled now jitter ≡ ok (after, round)
      → Outcome handlers now before after round
  unfolding settle settle_failed
  settle-Outcome config handlers table before job (ok done) now jitter {after} {round} h e =
      by_completion (complete table job.id) refl e
    where
      by_completion :
          (answer : Result (List (Job A)))
          → complete table job.id ≡ answer
          → settle_handled config table job answer now jitter ≡ ok (after, round)
          → Outcome handlers now before after round
      by_completion (ok next) settled same =
          subst (λ p. Outcome handlers now before p.0 p.1) (ok-injective same)
            (h, complete-All table job.id settled)
      by_completion (throws message) thrown same =
          absurd (complete-fail config table job now jitter thrown same)
  settle-Outcome config handlers table before job (throws message) now jitter {after} {round} h e =
      let (next, settled, same) =
        >>=-ok_parts (fail config table job now jitter) (λ next. ok (next, failed job)) e in
      subst (λ p. Outcome handlers now before p.0 p.1) (ok-injective same)
        ((message, h), fail-All config table job now jitter settled)

  pub claim_next-none :
      (config : Config) (table : List (Job A)) (now : ℕ) {after : List (Job A)}
      → claim_next config table now ≡ (after, none)
      → (after ≡ table) × (filter (is_claimable now) table ≡ [])
  unfolding claim_next
  claim_next-none config table now {after} e =
      by_found (earliest (filter (is_claimable now) table)) refl e
    where
      by_found :
          (found : Option (Job A))
          → earliest (filter (is_claimable now) table) ≡ found
          → claim_next config table now ≡ (after, none)
          → (after ≡ table) × (filter (is_claimable now) table ≡ [])
      by_found none missed same =
          (ground (arith, missed, same), earliest-none (filter (is_claimable now) table) missed)
      by_found (some job) picked same = ground (arith, picked, same)

  pub run_claimed-Outcome :
      (config : Config) (handlers : Handlers A) (table : List (Job A)) (now jitter : ℕ)
      (claim : List (Job A) × Option (Job A)) {after : List (Job A)} {round : Round A}
      → claim_next config table now ≡ claim
      → run_claimed config handlers claim now jitter ≡ ok (after, round)
      → Outcome handlers now table after round
  unfolding run_claimed
  run_claimed-Outcome config handlers table now jitter (next, none) {after} {round} h e =
      subst (λ p. Outcome handlers now table p.0 p.1) (ok-injective e)
        (claim_next-none config table now h)
  run_claimed-Outcome config handlers table now jitter (next, some job) h e =
      settle-Outcome config handlers next table job (handle handlers job) now jitter refl e

  -- A round that went through is one of three: no job was claimable and the table is as before; the
  -- handler of the claimed job returned and its row is completed; or the handler threw, or there is
  -- none, and its row is dead if the attempts are used up and queued if not.
  pub run_once-Outcome :
      (config : Config) (handlers : Handlers A) (table : List (Job A)) (now jitter : ℕ)
      {after : List (Job A)} {round : Round A}
      → run_once config handlers table now jitter ≡ ok (after, round)
      → Outcome handlers now table after round
  unfolding run_once
  run_once-Outcome config handlers table now jitter {after} {round} e =
      run_claimed-Outcome config handlers table now jitter (claim_next config table now) refl e

  -- What the failure of a claimed job makes of its row.
  abbrev pub failed_row : Config → ℕ → ℕ → Job A → Job A
  failed_row config now jitter job =
      if leb (max 1 job.max_attempts) job.attempt_count
      then dead_row job
      else retried_row (now + retry_delay_ms config job.attempt_count jitter) job

  pub claim_next-alone :
      (config : Config) (job : Job A) (now : ℕ)
      → job.status ≡ queued
      → job.available_at ≤ now
      → claim_next config (job ∷ []) now
        ≡ (claimed config now job ∷ [], some (claimed config now job))
  unfolding claim_next filter is_claimable earliest update_where_id
  claim_next-alone config job now waiting due = ground (arith, eq_refl job.id)

  pub fail-alone :
      (config : Config) (job : Job A) (now jitter : ℕ)
      → is_empty job.id ≡ false
      → fail config (job ∷ []) job now jitter ≡ ok (failed_row config now jitter job ∷ [])
  unfolding fail update_where_id
  fail-alone config job now jitter named = ground (arith, eq_refl job.id)

  pub run_once-failing :
      (config : Config) (handlers : Handlers A) (job : Job A) (now jitter : ℕ) (message : String)
      → is_empty job.id ≡ false
      → job.status ≡ queued
      → job.available_at ≤ now
      → handle handlers job ≡ throws message
      → run_once config handlers (job ∷ []) now jitter
        ≡ ok (
          failed_row config now jitter (claimed config now job) ∷ [],
          failed (claimed config now job),
        )
  unfolding run_once run_claimed settle settle_failed claimed handle
  run_once-failing config handlers job now jitter message named waiting due h = ground (
    arith,
    claim_next-alone config job now waiting due,
    fail-alone config (claimed config now job) now jitter named,
  )
