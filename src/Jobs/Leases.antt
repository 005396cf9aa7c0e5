-- ===== src/Jobs/Leases.antt =====
-- src/jobs/postgres-job-queue.js, `claimNext`.
use mathlib.Core.List.{Memᴰ}
use mathlib.Core.Path.{subst}
use whatsapp_ai_supervisor.Common.{
  All, All-Memᴰ, All-filter, All-map, All-member, Bool-cases, List, Option-cases, [], ap, arith,
  false, filter, filter-All, inl, inr, none, refl, some, sym, true, ℕ, ◌+◌, ◌<◌, ◌∙◌, ◌∷◌, ◌≡◌,
}
use whatsapp_ai_supervisor.Jobs.{
  Config, Job, claim_next, claimed, earliest, is_claimable, is_earlier, update_where_id,
}
use whatsapp_ai_supervisor.Jobs.Rows.{update_where_id-All}

module _ {A : Type 0} where
  pub earliest-Memᴰ : (jobs : List (Job A)) {job : Job A} → earliest jobs ≡ some job → Memᴰ job jobs
  unfolding earliest
  earliest-Memᴰ [] e = cc
  earliest-Memᴰ (first ∷ rest) {job} e = elim (Option-cases (earliest rest)) [
    | inl nothing ↦ Memᴰ.head (ground arith)
    | inr (other, found) ↦ elim (Bool-cases (is_earlier other first)) [
      | inl sooner ↦
          let same : other ≡ job = ground arith in
          Memᴰ.tail (subst (λ x. Memᴰ x rest) same (earliest-Memᴰ rest found))
      | inr later ↦ Memᴰ.head (ground arith)
    ]
  ]

  pub earliest-none : (jobs : List (Job A)) → earliest jobs ≡ none → jobs ≡ []
  unfolding earliest
  earliest-none [] e = refl
  earliest-none (first ∷ rest) e = ground arith

  pub is_earlier_trans :
      (a b c : Job A) → is_earlier a b ≡ false → is_earlier b c ≡ false → is_earlier a c ≡ false
  unfolding is_earlier
  is_earlier_trans a b c h k = ground arith

  pub is_earlier_asym : (a b : Job A) → is_earlier a b ≡ true → is_earlier b a ≡ false
  unfolding is_earlier
  is_earlier_asym a b h = ground arith

  pub is_earlier_irrefl : (a : Job A) → is_earlier a a ≡ false
  unfolding is_earlier
  is_earlier_irrefl a = ground arith

  -- No job of the list comes before the one that is picked.
  pub earliest-All :
      (jobs : List (Job A)) {job : Job A}
      → earliest jobs ≡ some job
      → All (λ other. is_earlier other job ≡ false) jobs
  unfolding earliest
  earliest-All [] e = tt
  earliest-All (first ∷ rest) {job} e = elim (Option-cases (earliest rest)) [
    | inl nothing ↦
        let same : first ≡ job = ground arith in
        let alone = earliest-none rest nothing in
        (
          subst (λ x. is_earlier first x ≡ false) same (is_earlier_irrefl first),
          subst (All (λ y. is_earlier y job ≡ false)) (sym alone) tt,
        )
    | inr (other, found) ↦
        let before = earliest-All rest found in
        elim (Bool-cases (is_earlier other first)) [
          | inl sooner ↦
              let same : other ≡ job = ground arith in
              subst (λ x. All (λ y. is_earlier y x ≡ false) (first ∷ rest)) same
                (is_earlier_asym other first sooner, before)
          | inr later ↦
              let same : first ≡ job = ground arith in
              subst (λ x. All (λ y. is_earlier y x ≡ false) (first ∷ rest)) same
                (
                  is_earlier_irrefl first,
                  All-map (λ y h. is_earlier_trans y other first h later) rest before,
                )
        ]
  ]

  -- What a claim did: the job was claimable, none of the claimable ones comes before it, and its row
  -- alone has changed.
  pub record Claim (config : Config) (table : List (Job A)) (now : ℕ) (after : List (Job A))
      (job : Job A) : Type 0 where
    pub row : Job A
    pub listed : Memᴰ row table
    pub claimable : is_claimable now row ≡ true
    pub first : All (λ other. is_earlier other row ≡ false) (filter (is_claimable now) table)
    pub returned : job ≡ claimed config now row
    pub changed : after ≡ update_where_id row.id (claimed config now) table

  pub claim_next-Claim :
      (config : Config) (table : List (Job A)) (now : ℕ) {after : List (Job A)} {job : Job A}
      → claim_next config table now ≡ (after, some job)
      → Claim config table now after job
  unfolding claim_next
  claim_next-Claim config table now {after} {job} e =
      elim (Option-cases (earliest (filter (is_claimable now) table))) [
        | inl nothing ↦ ground arith
        | inr (row, found) ↦
            let member = earliest-Memᴰ (filter (is_claimable now) table) found in
            record {
              row = row;
              listed =
                  All-member (λ x. Memᴰ x table) _
                    (All-filter (λ x. Memᴰ x table) (is_claimable now) table (All-Memᴰ table))
                    member;
              claimable =
                  All-member (λ x. is_claimable now x ≡ true) _
                    (filter-All (is_claimable now) table) member;
              first = earliest-All (filter (is_claimable now) table) found;
              returned = ground arith;
              changed = ground arith;
            }
      ]

  pub is_claimable-claimed :
      (config : Config) (now later : ℕ) (row : Job A)
      → later < now + config.lease_ms
      → is_claimable later (claimed config now row) ≡ false
  unfolding is_claimable claimed
  is_claimable-claimed config now later row short = ground arith

  pub claimed-id :
      (config : Config) (now : ℕ) (row : Job A) {job : Job A}
      → job ≡ claimed config now row
      → job.id ≡ row.id
  unfolding claimed
  claimed-id config now row e = ap (λ j. j.id) e

  -- The lease: the row of a claimed job is claimable again at no time before the lease ends.
  pub claim_next-lease :
      (config : Config) (table : List (Job A)) (now : ℕ) (after : List (Job A)) (job : Job A)
      → claim_next config table now ≡ (after, some job)
      → (later : ℕ) → later < now + config.lease_ms
      → All (λ row. row.id ≡ job.id → is_claimable later row ≡ false) after
  claim_next-lease config table now after job e later short =
      let claim = claim_next-Claim config table now e in
      let same_id : job.id ≡ claim.row.id = claimed-id config now claim.row claim.returned in
      subst (All (λ row. row.id ≡ job.id → is_claimable later row ≡ false)) (sym claim.changed) (
        update_where_id-All (λ row. row.id ≡ job.id → is_claimable later row ≡ false) claim.row.id
          (claimed config now) table (λ row same _. is_claimable-claimed config now later row short)
          (λ row other same. absurd (other (same ∙ same_id))))
