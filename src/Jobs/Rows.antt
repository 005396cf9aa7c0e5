-- ===== src/Jobs/Rows.antt =====
-- src/jobs/postgres-job-queue.js, `enqueue` and the UPDATE statements.
use mathlib.Core.Path.{subst}
use whatsapp_ai_supervisor.Common.{
  All, Bool, List, Option, Option-cases, String, [], arith, eq_iff, eq_refl, false, find,
  find-append_none, if-holds, inl, inr, is_empty, not, ok, ok-injective, require-passed, some, true,
  ℕ, ◌&&◌, ◌==◌, ◌∷◌, ◌≡◌, ◌≢◌,
}
use whatsapp_ai_supervisor.Jobs.{
  Job, Request, conflicts, enqueue, insert_or, new_job, stored_key, update_where_id,
}

module _ {A : Type 0} where
  pub enqueue-ok :
      (table : List (Job A)) (request : Request A) (now : ℕ) {after : List (Job A) × Job A}
      → enqueue table request now ≡ ok after
      → ((not (is_empty request.tenant_id) && not (is_empty request.type)) ≡ true)
        × (insert_or table (new_job request now) (find (conflicts request) table) ≡ after)
  unfolding enqueue
  enqueue-ok table request now e =
      let (valid, done) =
        require-passed (not (is_empty request.tenant_id) && not (is_empty request.type))
          "job_tenant_and_type_required"
          (ok (insert_or table (new_job request now) (find (conflicts request) table))) e in
      (valid, ok-injective done)

  pub conflicts-new_job :
      (request : Request A) (now : ℕ) {key : String}
      → stored_key request.idempotency_key ≡ some key
      → conflicts request (new_job request now) ≡ true
  unfolding conflicts new_job
  conflicts-new_job request now {key} e =
      ground (arith, eq_refl key, eq_refl request.tenant_id, eq_refl request.type)

  pub update_where_id-All :
      (P : Job A → Type 0) (id : String) (change : Job A → Job A) (table : List (Job A))
      → ((job : Job A) → job.id ≡ id → P (change job))
      → ((job : Job A) → job.id ≢ id → P job)
      → All P (update_where_id id change table)
  unfolding update_where_id
  update_where_id-All P id change [] same other = tt
  update_where_id-All P id change (job ∷ jobs) same other = (
    if-holds P (job.id == id) (λ e. same job (ground (arith, eq_iff job.id id)))
        (λ e. other job (λ q. ground (arith, eq_iff job.id id))),
    update_where_id-All P id change jobs same other,
  )

  pub find-append_new :
      (p : Job A → Bool) (table : List (Job A)) (job : Job A)
      → p job ≡ true
      → (let found = insert_or table job (find p table) in find p found.0 ≡ some found.1)
  unfolding find
  find-append_new p table job h = elim (Option-cases (find p table)) [
    | inl none_found ↦ ground (arith, find-append_none p table (job ∷ []) none_found)
    | inr (other, found) ↦ ground arith
  ]

  pub insert_or-kept :
      (table : List (Job A)) (job other : Job A) (found : Option (Job A)) {existing : Job A}
      → found ≡ some existing
      → insert_or table job found ≡ (table, existing)
  insert_or-kept table job other found e = ground arith

  pub enqueue-found :
      (table : List (Job A)) (request : Request A) (now : ℕ) {existing : Job A}
      → (not (is_empty request.tenant_id) && not (is_empty request.type)) ≡ true
      → find (conflicts request) table ≡ some existing
      → enqueue table request now ≡ ok (table, existing)
  unfolding enqueue
  enqueue-found table request now {existing} valid found = ground (
    arith,
    insert_or-kept table (new_job request now) existing (find (conflicts request) table)
        {existing = existing},
  )

  -- An enqueue with the tenant, the type and the non-empty key of an earlier one, whatever its
  -- payload, returns the row that the earlier one returned and leaves the table as it was.
  pub enqueue-repeated :
      (table after : List (Job A)) (job : Job A) (request : Request A) (now : ℕ) (key : String)
      → request.idempotency_key ≡ some key
      → is_empty key ≡ false
      → enqueue table request now ≡ ok (after, job)
      → (new_id : String) (payload : A) (max_attempts later : ℕ)
      → enqueue after
          (record request { new_id = new_id; payload = payload; max_attempts = max_attempts })
          later
        ≡ ok (after, job)
  unfolding enqueue conflicts
  enqueue-repeated table after job request now key e₁ e₂ h new_id payload max_attempts later =
      let stored : stored_key request.idempotency_key ≡ some key = ground arith in
      let found =
        find-append_new (conflicts request) table (new_job request now)
          (conflicts-new_job request now stored) in
      let (valid, result) = enqueue-ok table request now h in
      let again = subst (λ pair. find (conflicts request) pair.0 ≡ some pair.1) result found in
      enqueue-found after
        (record request { new_id = new_id; payload = payload; max_attempts = max_attempts }) later
        valid again
