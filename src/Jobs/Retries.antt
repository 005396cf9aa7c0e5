-- ===== src/Jobs/Retries.antt =====
-- src/jobs/postgres-job-queue.js, `retryDelayMs` and `fail`; durable-job-worker.js, `runOnce`.
use whatsapp_ai_supervisor.Common.{
  String, arith, le_scaled, min, ok, power_positive, ℕ, ◌*◌, ◌-◌, ◌^◌, ◌≡◌, ◌≤◌,
}
use whatsapp_ai_supervisor.Jobs.{Config, jitter_units, jittered, new_config, retry_delay_ms}

pub jittered-le : (base jitter : ℕ) → base ≤ jittered base jitter
unfolding jittered
jittered-le base jitter = omega arith

pub new_config-ordered :
    (owner_id : String) (lease_ms base_retry_ms max_retry_ms : ℕ) (config : Config)
    → new_config owner_id lease_ms base_retry_ms max_retry_ms ≡ ok config
    → config.base_retry_ms ≤ config.max_retry_ms
unfolding new_config
new_config-ordered owner_id lease_ms base_retry_ms max_retry_ms config e = ground arith

-- A configuration of whole milliseconds that the constructor accepts delays a retry by its base at least, by its maximum
-- at most, and by what doubling the base for each further attempt gives, unless that is too much.
pub retry_delay_ms-bounds :
    (owner_id : String) (lease_ms base_retry_ms max_retry_ms attempt_count jitter : ℕ)
    (config : Config)
    → new_config owner_id lease_ms base_retry_ms max_retry_ms ≡ ok config
    → (config.base_retry_ms ≤ retry_delay_ms config attempt_count jitter)
      × (retry_delay_ms config attempt_count jitter ≤ config.max_retry_ms)
      × (min config.max_retry_ms (config.base_retry_ms * 2 ^ (attempt_count - 1))
          ≤ retry_delay_ms config attempt_count jitter)
unfolding new_config retry_delay_ms
retry_delay_ms-bounds owner_id lease_ms base_retry_ms max_retry_ms attempt_count jitter config e =
    let ordered = new_config-ordered owner_id lease_ms base_retry_ms max_retry_ms config e in
    let backoff = le_scaled config.base_retry_ms (2 ^ (attempt_count - 1)) (power_positive _) in
    let delayed =
      jittered-le (min config.max_retry_ms (config.base_retry_ms * 2 ^ (attempt_count - 1)))
        (min jitter_units jitter) in
    (omega arith, omega arith, omega arith)
