-- ===== src/Jobs.antt =====
-- src/jobs/postgres-job-queue.js and src/jobs/durable-job-worker.js: jobs that survive a crash. The
-- table durable_jobs is a list of rows and each SQL statement a function on it; a time is a count of
-- whole milliseconds, the database's NOW() an argument. A query that the database fails is not modelled.
pub mod Rows
pub mod Leases
pub mod Retries
pub mod Attempts
pub mod Death
mod Tests
use Prim.Native.String
use whatsapp_ai_supervisor.Common.{
  Bool, List, Option, Result, String, [], eqb, false, filter, find, if◌then◌else◌, is_empty,
  is_text, leb, ltb, max, min, none, not, ok, require, some, throws, ℕ, ◌&&◌, ◌*◌, ◌++◌, ◌+◌, ◌-◌,
  ◌/◌, ◌==◌, ◌>>=◌, ◌>>◌, ◌^◌, ◌||◌, ◌∷◌,
}

pub data Status : Type 0 where
  queued running completed dead : Status

-- A row; `A` is the type of the payloads.
pub record Job (A : Type 0) : Type 0 where
  pub id : String
  pub tenant_id : String
  pub type : String
  pub payload : A
  pub idempotency_key : Option String
  pub status : Status
  pub attempt_count : ℕ
  pub max_attempts : ℕ
  pub available_at : ℕ
  pub lease_owner : Option String
  pub leased_until : Option ℕ
  pub last_error : Option String
  pub created_at : ℕ

-- What the constructor of `PostgresJobQueue` keeps, where it is given whole counts of milliseconds, as
-- the configuration of the program has them; it takes fractions too, which are not modelled.
pub record Config : Type 0 where
  pub owner_id : String
  pub lease_ms : ℕ
  pub base_retry_ms : ℕ
  pub max_retry_ms : ℕ

-- `Number(x) || fallback`
abbrev or_default : ℕ → ℕ → ℕ
or_default n fallback = if eqb n 0 then fallback else n

unfoldable pub new_config : String → ℕ → ℕ → ℕ → Result Config
new_config owner_id lease_ms base_retry_ms max_retry_ms = do
  require (not (is_empty owner_id)) "PostgresJobQueue ownerId is required"
  let base = max 100 (or_default base_retry_ms 1000)
  ok (record {
    owner_id = owner_id;
    lease_ms = max 1000 (or_default lease_ms 60000);
    base_retry_ms = base;
    max_retry_ms = max base (or_default max_retry_ms 60000);
  })

-- A jitter of `Math.random` is a multiple of 2 ^ -53.
unfoldable pub jitter_units : ℕ
jitter_units = 2 ^ 53

-- `Math.round(base + base * 0.2 * jitter)`, where the doubles are taken as exact.
unfoldable pub jittered : ℕ → ℕ → ℕ
jittered base jitter = base + (2 * base * jitter + 5 * jitter_units) / (10 * jitter_units)

unfoldable pub retry_delay_ms : Config → ℕ → ℕ → ℕ
retry_delay_ms config attempt_count jitter =
    let base = min config.max_retry_ms (config.base_retry_ms * 2 ^ (attempt_count - 1)) in
    min config.max_retry_ms (jittered base (min jitter_units jitter))

-- What `enqueue` takes, with the id that the database makes up.
pub record Request (A : Type 0) : Type 0 where
  pub new_id : String
  pub tenant_id : String
  pub type : String
  pub payload : A
  pub idempotency_key : Option String
  pub max_attempts : ℕ

-- An empty key is stored as NULL.
abbrev pub stored_key : Option String → Option String
stored_key none = none
stored_key (some key) = if is_empty key then none else some key

abbrev pub elapsed : Option ℕ → ℕ → Bool
elapsed none now = false
elapsed (some until) now = leb until now

-- NULL equals nothing.
abbrev pub same_key : Option String → Option String → Bool
same_key stored none = false
same_key stored (some key) = is_text stored key

-- What one round of the worker did.
pub data Round (A : Type 0) : Type 0 where
  idle : Round A
  succeeded failed : Job A → Round A

-- `handlers[job.type]`, and what it makes of the payload.
abbrev pub Handlers : Type 0 → Type 0
Handlers A = String → Option (A → Result (Unit {0}))

module _ {A : Type 0} where
  -- The row that ON CONFLICT finds; NULL keys do not conflict.
  unfoldable pub conflicts : Request A → Job A → Bool
  conflicts request job =
      (job.tenant_id == request.tenant_id)
      && (job.type == request.type)
      && same_key job.idempotency_key (stored_key request.idempotency_key)

  unfoldable pub new_job : Request A → ℕ → Job A
  new_job request now = record {
    id = request.new_id;
    tenant_id = request.tenant_id;
    type = request.type;
    payload = request.payload;
    idempotency_key = stored_key request.idempotency_key;
    status = queued;
    attempt_count = 0;
    max_attempts = max 1 (or_default request.max_attempts 5);
    available_at = now;
    lease_owner = none;
    leased_until = none;
    last_error = none;
    created_at = now;
  }

  abbrev pub insert_or : List (Job A) → Job A → Option (Job A) → List (Job A) × Job A
  insert_or table job none = (table ++ job ∷ [], job)
  insert_or table job (some existing) = (table, existing)

  unfoldable pub enqueue : List (Job A) → Request A → ℕ → Result (List (Job A) × Job A)
  enqueue table request now = do
    require (not (is_empty request.tenant_id) && not (is_empty request.type))
        "job_tenant_and_type_required"
    ok (insert_or table (new_job request now) (find (conflicts request) table))

  -- The WHERE clause of `claimNext`.
  unfoldable pub is_claimable : ℕ → Job A → Bool
  is_claimable now job = elim (job.status) [
    | queued ↦ leb job.available_at now
    | running ↦ elapsed job.leased_until now
    | _ ↦ false
  ]

  -- ORDER BY available_at, created_at: whether `a` comes before `b`.
  unfoldable pub is_earlier : Job A → Job A → Bool
  is_earlier a b =
      ltb a.available_at b.available_at
      || eqb a.available_at b.available_at && ltb a.created_at b.created_at

  -- The first row of the ordered selection.
  unfoldable pub earliest : List (Job A) → Option (Job A)
  earliest [] = none
  earliest (job ∷ jobs) = elim (earliest jobs) [
    | none ↦ some job
    | some other ↦ some (if is_earlier other job then other else job)
  ]

  -- UPDATE … WHERE id = $1
  unfoldable pub update_where_id : String → (Job A → Job A) → List (Job A) → List (Job A)
  update_where_id id change [] = []
  update_where_id id change (job ∷ jobs) =
      (if job.id == id then change job else job) ∷ update_where_id id change jobs

  unfoldable pub claimed : Config → ℕ → Job A → Job A
  claimed config now job = record job {
    status = running;
    attempt_count = job.attempt_count + 1;
    lease_owner = some config.owner_id;
    leased_until = some (now + config.lease_ms);
  }

  unfoldable pub claim_next : Config → List (Job A) → ℕ → List (Job A) × Option (Job A)
  claim_next config table now = elim (earliest (filter (is_claimable now) table)) [
    | none ↦ (table, none)
    | some job ↦ (update_where_id job.id (claimed config now) table, some (claimed config now job))
  ]

  unfoldable pub completed_row : Job A → Job A
  completed_row job = record job {
    status = completed;
    lease_owner = none;
    leased_until = none;
    last_error = none;
  }

  unfoldable pub complete : List (Job A) → String → Result (List (Job A))
  complete table id = do
    require (not (is_empty id)) "job_id_required"
    ok (update_where_id id completed_row table)

  unfoldable pub dead_row : Job A → Job A
  dead_row job = record job {
    status = dead;
    lease_owner = none;
    leased_until = none;
    last_error = some "job_failed";
  }

  unfoldable pub retried_row : ℕ → Job A → Job A
  retried_row available_at job = record job {
    status = queued;
    lease_owner = none;
    leased_until = none;
    available_at = available_at;
    last_error = some "job_failed";
  }

  -- `job` is the row as it was claimed.
  unfoldable pub fail : Config → List (Job A) → Job A → ℕ → ℕ → Result (List (Job A))
  fail config table job now jitter = do
    require (not (is_empty job.id)) "job_id_required"
    if leb (max 1 job.max_attempts) job.attempt_count
        then ok (update_where_id job.id dead_row table)
        else ok (
            update_where_id job.id
              (retried_row (now + retry_delay_ms config job.attempt_count jitter)) table)

  unfoldable pub handle : Handlers A → Job A → Result (Unit {0})
  handle handlers job = elim (handlers job.type) [
    | none ↦ throws (String.◌++◌ "unsupported_job_type:" job.type)
    | some handler ↦ handler job.payload
  ]

  -- The `catch` of `runOnce`.
  unfoldable pub settle_failed :
      Config → List (Job A) → Job A → ℕ → ℕ → Result (List (Job A) × Round A)
  settle_failed config table job now jitter = do
    next ← fail config table job now jitter
    ok (next, failed job)

  abbrev pub settle_handled :
      Config
      → List (Job A)
      → Job A
      → Result (List (Job A))
      → ℕ
      → ℕ
      → Result (List (Job A) × Round A)
  settle_handled config table job (ok next) now jitter = ok (next, succeeded job)
  settle_handled config table job (throws e) now jitter = settle_failed config table job now jitter

  -- The part of `runOnce` after the claim: `complete` is under the `try` as the handler is.
  unfoldable pub settle :
      Config → List (Job A) → Job A → Result (Unit {0}) → ℕ → ℕ → Result (List (Job A) × Round A)
  settle config table job (ok _) now jitter =
      settle_handled config table job (complete table job.id) now jitter
  settle config table job (throws e) now jitter = settle_failed config table job now jitter

  unfoldable pub run_claimed :
      Config → Handlers A → List (Job A) × Option (Job A) → ℕ → ℕ → Result (List (Job A) × Round A)
  run_claimed config handlers (table, none) now jitter = ok (table, idle)
  run_claimed config handlers (table, some job) now jitter =
      settle config table job (handle handlers job) now jitter

  unfoldable pub run_once :
      Config → Handlers A → List (Job A) → ℕ → ℕ → Result (List (Job A) × Round A)
  run_once config handlers table now jitter =
      run_claimed config handlers (claim_next config table now) now jitter
