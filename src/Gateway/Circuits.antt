-- ===== src/Gateway/Circuits.antt =====
-- src/ai/model-gateway.js, `canAttempt`, `recordSuccess` and `recordFailure`.
use whatsapp_ai_supervisor.Common.{
  Option, ap, arith, eq_refl, false, if◌then◌else◌, leb, none, some, suc, true, zero, ℕ, ◌+◌, ◌<◌,
  ◌∙◌, ◌≡◌, ◌≤◌,
}
use whatsapp_ai_supervisor.Common.Maps.{Map, get, get-put, put}
use whatsapp_ai_supervisor.Gateway.{
  Candidate, Circuit, Limits, attempt_with, can_attempt, circuit_key, failed_circuit, probing,
  record_failure,
}

module _ (limits : Limits) (candidate : Candidate) where
  -- `n` retryable failures in a row, each at its time.
  unfoldable pub fail_times : ℕ → (ℕ → ℕ) → Map Circuit → Map Circuit
  fail_times zero times circuits = circuits
  fail_times (suc n) times circuits =
      record_failure limits (times n) (fail_times n times circuits) candidate true

  pub can_attempt-get :
      (now : ℕ) (circuits : Map Circuit) {circuit : Option Circuit}
      → get circuits (circuit_key candidate) ≡ circuit
      → can_attempt limits now circuits candidate
        ≡ attempt_with limits now circuits (circuit_key candidate) circuit
  unfolding can_attempt
  can_attempt-get now circuits e =
      ap (λ c. attempt_with limits now circuits (circuit_key candidate) c) e

  pub get-put-same :
      (circuits : Map Circuit) (circuit : Circuit)
      → get (put circuits (circuit_key candidate) circuit) (circuit_key candidate) ≡ some circuit
  get-put-same circuits circuit = ground (
    arith,
    get-put circuits (circuit_key candidate) (circuit_key candidate) circuit,
    eq_refl (circuit_key candidate),
  )

  pub get-record_failure :
      (now : ℕ) (circuits : Map Circuit)
      → get (record_failure limits now circuits candidate true) (circuit_key candidate)
        ≡ some (failed_circuit limits now (get circuits (circuit_key candidate)))
  unfolding record_failure
  get-record_failure now circuits = ground (
    arith,
    get-put circuits (circuit_key candidate) (circuit_key candidate)
        (failed_circuit limits now (get circuits (circuit_key candidate))),
    eq_refl (circuit_key candidate),
  )

  -- The failures of a candidate that has no circuit yet are counted, and its circuit is open from
  -- the time of the last one if and only if there are as many as the threshold.
  pub get-fail_times :
      (n : ℕ) (times : ℕ → ℕ) (circuits : Map Circuit)
      → get circuits (circuit_key candidate) ≡ none
      → get (fail_times (suc n) times circuits) (circuit_key candidate)
        ≡ some (record {
          failures = suc n;
          opened_at = if leb limits.circuit_failure_threshold (suc n) then some (times n) else none;
          half_open = false;
        })
  unfolding fail_times
  get-fail_times zero times circuits e = ground (arith, get-record_failure (times 0) circuits)
  get-fail_times (suc n) times circuits e = ground (
    arith,
    get-record_failure (times (suc n)) (fail_times (suc n) times circuits),
    get-fail_times n times circuits e,
  )

  abbrev pub open_circuit : ℕ → ℕ → Circuit
  open_circuit failures at = record { failures = failures; opened_at = some at; half_open = false }

  pub can_attempt-open :
      (failures at now : ℕ) (circuits : Map Circuit)
      → get circuits (circuit_key candidate) ≡ some (open_circuit failures at)
      → 0 < at
      → now < at + limits.circuit_open_ms
      → can_attempt limits now circuits candidate ≡ (circuits, false)
  can_attempt-open failures at now circuits e positive soon =
      can_attempt-get now circuits e ∙ ground arith

  pub can_attempt-probe :
      (failures at now : ℕ) (circuits : Map Circuit)
      → get circuits (circuit_key candidate) ≡ some (open_circuit failures at)
      → 0 < at
      → at + limits.circuit_open_ms ≤ now
      → can_attempt limits now circuits candidate
        ≡ (put circuits (circuit_key candidate) (probing (some (open_circuit failures at))), true)
  can_attempt-probe failures at now circuits e positive enough =
      can_attempt-get now circuits e ∙ ground arith

  pub can_attempt-half_open :
      (failures at now : ℕ) (circuits : Map Circuit)
      → get circuits (circuit_key candidate) ≡ some (probing (some (open_circuit failures at)))
      → 0 < at
      → can_attempt limits now circuits candidate ≡ (circuits, false)
  can_attempt-half_open failures at now circuits e positive =
      can_attempt-get now circuits e ∙ ground arith

  -- A candidate with no circuit yet, that fails as often as the threshold says, each time in a way that
  -- may be tried again, and at times of which the last is not 0, is not tried again while its circuit
  -- is open; then it is tried once, and not a second time, whatever the time, before the result of that
  -- probe is recorded.
  pub fail_times-probe :
      (n : ℕ) (times : ℕ → ℕ) (later much_later : ℕ) (circuits : Map Circuit)
      → get circuits (circuit_key candidate) ≡ none
      → limits.circuit_failure_threshold ≡ suc n
      → 0 < times n
      → times n + limits.circuit_open_ms ≤ later
      → (let failed = fail_times (suc n) times circuits in
          let probe = can_attempt limits later failed candidate in
          ((soon : ℕ)
            → soon < times n + limits.circuit_open_ms
            → can_attempt limits soon failed candidate ≡ (failed, false))
          × (probe.1 ≡ true)
          × (can_attempt limits much_later probe.0 candidate ≡ (probe.0, false)))
  fail_times-probe n times later much_later circuits e₁ e₂ positive enough =
      let failed = fail_times (suc n) times circuits in
      let now_open : get failed (circuit_key candidate) ≡ some (open_circuit (suc n) (times n)) =
        ground (arith, get-fail_times n times circuits e₁) in
      let probe = can_attempt-probe (suc n) (times n) later failed now_open positive enough in
      (
        λ soon within. can_attempt-open (suc n) (times n) soon failed now_open positive within,
        ap (λ p. p.1) probe,
        can_attempt-half_open (suc n) (times n) much_later
            (can_attempt limits later failed candidate).0
            (ap (λ p. get p.0 (circuit_key candidate)) probe
              ∙ get-put-same failed (probing (some (open_circuit (suc n) (times n)))))
            positive,
      )
