-- ===== src/Jobs/Tests.antt =====
-- Runs of postgres-job-queue.js and durable-job-worker.js.
use whatsapp_ai_supervisor.Common.{
  All, [], arith, false, filter, find, min, none, ok, refl, some, throws, ℕ, ◌*◌, ◌+◌, ◌-◌, ◌^◌,
  ◌∷◌, ◌≡◌, ◌≤◌,
}
use whatsapp_ai_supervisor.Jobs.{
  Config, Handlers, Job, Request, claim_next, claimed, complete, completed_row, conflicts, dead,
  dead_row, earliest, enqueue, fail, handle, is_claimable, is_earlier, jitter_units, jittered,
  new_config, new_job, queued, retried_row, retry_delay_ms, run_claimed, run_once, running, settle,
  settle_failed, succeeded, update_where_id,
}
use whatsapp_ai_supervisor.Jobs.Rows.{enqueue-repeated}
use whatsapp_ai_supervisor.Jobs.Leases.{claim_next-lease}
use whatsapp_ai_supervisor.Jobs.Retries.{retry_delay_ms-bounds}
use whatsapp_ai_supervisor.Jobs.Attempts.{Outcome, run_once-Outcome}
use whatsapp_ai_supervisor.Jobs.Death.{rounds, rounds-dead}

abbrev worker : Config
worker = record { owner_id = "w1"; lease_ms = 60000; base_retry_ms = 1000; max_retry_ms = 60000 }

abbrev reply : Request ℕ
reply = record {
  new_id = "j1";
  tenant_id = "shop";
  type = "inbound-decision";
  payload = 7;
  idempotency_key = some "m1";
  max_attempts = 2;
}

abbrev waiting : Job ℕ
waiting = record {
  id = "j1";
  tenant_id = "shop";
  type = "inbound-decision";
  payload = 7;
  idempotency_key = some "m1";
  status = queued;
  attempt_count = 0;
  max_attempts = 2;
  available_at = 5;
  lease_owner = none;
  leased_until = none;
  last_error = none;
  created_at = 5;
}

abbrev running_row : Job ℕ
running_row = record waiting {
  status = running;
  attempt_count = 1;
  lease_owner = some "w1";
  leased_until = some 60010;
}

abbrev no_handlers : Handlers ℕ
no_handlers type = none

abbrev good_handlers : Handlers ℕ
good_handlers type = some (λ payload. ok tt)

code : Unit {0}
unfolding new_config jitter_units jittered retry_delay_ms conflicts new_job enqueue is_claimable
    is_earlier earliest update_where_id claimed claim_next completed_row complete dead_row
    retried_row fail handle settle settle_failed run_claimed run_once rounds find filter
code = tt

enqueued : enqueue [] reply 5 ≡ ok (waiting ∷ [], waiting)
unfolding code
enqueued = refl

claimed_first : claim_next worker (waiting ∷ []) 10 ≡ (running_row ∷ [], some running_row)
unfolding code
claimed_first = refl

delay : retry_delay_ms worker 3 jitter_units ≡ 4800
unfolding code
delay = refl

-- A worker whose lease has run out can still fail the job that another has completed.
stale_failure :
    fail worker (completed_row running_row ∷ []) running_row 70000 0
    ≡ ok (retried_row 71000 running_row ∷ [])
unfolding code
stale_failure = refl

completed_run :
    run_once worker good_handlers (waiting ∷ []) 10 0
    ≡ ok (completed_row running_row ∷ [], succeeded running_row)
unfolding code
completed_run = refl

configured : new_config "w1" 0 0 0 ≡ ok worker
unfolding code
configured = refl

enqueue-repeated_example :
    enqueue (waiting ∷ []) (record reply { new_id = "j2"; payload = 8; max_attempts = 9 }) 99
    ≡ ok (waiting ∷ [], waiting)
enqueue-repeated_example =
    enqueue-repeated [] (waiting ∷ []) waiting reply 5 "m1" refl refl enqueued "j2" 8 9 99

claim_next-lease_example :
    All (λ row. row.id ≡ "j1" → is_claimable 60009 row ≡ false) (running_row ∷ [])
claim_next-lease_example =
    claim_next-lease worker (waiting ∷ []) 10 (running_row ∷ []) running_row claimed_first 60009
      (omega arith)

retry_delay_ms-bounds_example :
    (1000 ≤ retry_delay_ms worker 9 3)
    × (retry_delay_ms worker 9 3 ≤ 60000)
    × (min 60000 (1000 * 2 ^ (9 - 1)) ≤ retry_delay_ms worker 9 3)
retry_delay_ms-bounds_example = retry_delay_ms-bounds "w1" 0 0 0 9 3 worker configured

run_once-Outcome_example :
    Outcome good_handlers 10 (waiting ∷ []) (completed_row running_row ∷ []) (succeeded running_row)
run_once-Outcome_example =
    run_once-Outcome worker good_handlers (waiting ∷ []) 10 0
      {after = completed_row running_row ∷ []} {round = succeeded running_row} completed_run

unsupported : handle no_handlers waiting ≡ throws "unsupported_job_type:inbound-decision"
unfolding code
unsupported = refl

rounds-dead_example :
    (final : Job ℕ) × (rounds worker no_handlers (λ k. k) (λ k. 60000 + k) 2 (waiting ∷ []) 10
      ≡ ok (final ∷ []))
    × (final.status ≡ dead)
    × (final.attempt_count ≡ 2)
rounds-dead_example =
    rounds-dead worker no_handlers waiting 10 1 (λ k. k) (λ k. 60000 + k)
      "unsupported_job_type:inbound-decision" (λ k. omega arith) refl refl (omega arith) unsupported
      refl
