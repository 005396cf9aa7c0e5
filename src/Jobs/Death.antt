-- ===== src/Jobs/Death.antt =====
-- src/jobs/durable-job-worker.js, `run`, on a table that holds one job.
use whatsapp_ai_supervisor.Common.{
  List, Result, String, [], ap, arith, false, is_empty, max, ok, refl, suc, throws, zero, ℕ, ◌+◌,
  ◌<◌, ◌>>=◌, ◌∙◌, ◌∷◌, ◌≡◌, ◌≤◌,
}
use whatsapp_ai_supervisor.Jobs.{
  Config, Handlers, Job, Round, claimed, dead, dead_row, handle, queued, retried_row,
  retry_delay_ms, run_once,
}
use whatsapp_ai_supervisor.Jobs.Attempts.{failed_row, run_once-failing}

pub retry_delay_ms-le :
    (config : Config) (attempt_count jitter : ℕ)
    → retry_delay_ms config attempt_count jitter ≤ config.max_retry_ms
unfolding retry_delay_ms
retry_delay_ms-le config attempt_count jitter = omega arith

module _ {A : Type 0} where
  -- `n` rounds of the loop, each with its jitter and its wait for the next one.
  unfoldable pub rounds :
      Config → Handlers A → (jitters waits : ℕ → ℕ) → ℕ → List (Job A) → ℕ → Result (List (Job A))
  rounds config handlers jitters waits zero table now = ok table
  rounds config handlers jitters waits (suc n) table now =
      run_once config handlers table now (jitters n)
      >>= (λ result. rounds config handlers jitters waits n result.0 (now + waits n))

  pub rounds-step :
      (config : Config) (handlers : Handlers A) (jitters waits : ℕ → ℕ) (n : ℕ) (job next : Job A)
      (now : ℕ) {round : Round A}
      → run_once config handlers (job ∷ []) now (jitters n) ≡ ok (next ∷ [], round)
      → rounds config handlers jitters waits (suc n) (job ∷ []) now
        ≡ rounds config handlers jitters waits n (next ∷ []) (now + waits n)
  unfolding rounds
  rounds-step config handlers jitters waits n job next now e = ground arith

  pub failed_row-spent :
      (config : Config) (now jitter : ℕ) (job : Job A)
      → max 1 job.max_attempts ≡ job.attempt_count + 1
      → failed_row config now jitter (claimed config now job) ≡ dead_row (claimed config now job)
  unfolding claimed
  failed_row-spent config now jitter job e = ground arith

  pub failed_row-left :
      (config : Config) (now jitter : ℕ) (job : Job A)
      → job.attempt_count + 1 < max 1 job.max_attempts
      → failed_row config now jitter (claimed config now job)
        ≡ retried_row
            (now + retry_delay_ms config (job.attempt_count + 1) jitter)
            (claimed config now job)
  unfolding claimed
  failed_row-left config now jitter job e = ground arith

  -- A job that waits alone in the table, is due, and whose handler throws whenever it runs is dead
  -- after exactly as many rounds of the worker as it has attempts left, all of them used, where each
  -- round comes after the one before by the longest delay of a retry or later: whatever the jitters,
  -- the job is then due in each of these rounds.
  pub rounds-dead :
      (config : Config) (handlers : Handlers A) (job : Job A) (now n : ℕ) (jitters waits : ℕ → ℕ)
      (message : String)
      → ((k : ℕ) → config.max_retry_ms ≤ waits k)
      → is_empty job.id ≡ false
      → job.status ≡ queued
      → job.available_at ≤ now
      → handle handlers job ≡ throws message
      → max 1 job.max_attempts ≡ job.attempt_count + suc n
      → (final : Job A) × (rounds config handlers jitters waits (suc n) (job ∷ []) now
          ≡ ok (final ∷ []))
        × (final.status ≡ dead)
        × (final.attempt_count ≡ max 1 job.max_attempts)
  unfolding dead_row claimed retried_row handle rounds
  rounds-dead config handlers job now zero jitters waits message long named waiting due h e =
      let first =
        run_once-failing config handlers job now (jitters zero) message named waiting due h in
      let row = failed_row-spent config now (jitters zero) job e in
      (
        dead_row (claimed config now job),
        rounds-step config handlers jitters waits zero job
              (failed_row config now (jitters zero) (claimed config now job)) now first
            ∙ ap (λ r. ok (r ∷ [])) row,
        refl,
        omega arith,
      )
  rounds-dead config handlers job now (suc n) jitters waits message long named waiting due h e =
      let first =
        run_once-failing config handlers job now (jitters (suc n)) message named waiting due h in
      let row = failed_row-left config now (jitters (suc n)) job (omega arith) in
      let later =
        retried_row (now + retry_delay_ms config (job.attempt_count + 1) (jitters (suc n)))
          (claimed config now job) in
      let (final, runs, died, count) =
        rounds-dead config handlers later (now + waits (suc n)) n jitters waits message long named
          refl
          (omega (
            arith,
            long (suc n),
            retry_delay_ms-le config (job.attempt_count + 1) (jitters (suc n)),
          ))
          h (omega arith) in
      (
        final,
        rounds-step config handlers jitters waits (suc n) job
              (failed_row config now (jitters (suc n)) (claimed config now job)) now first
            ∙ (ap (λ r. rounds config handlers jitters waits (suc n) (r ∷ []) (now + waits (suc n)))
                  row
                ∙ runs),
        died,
        count,
      )
