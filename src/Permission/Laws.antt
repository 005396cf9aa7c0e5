-- ===== src/Permission/Laws.antt =====
-- src/domain/permission-engine.js: what an evaluation grants.
use mathlib.Core.Path.{subst}
use whatsapp_ai_supervisor.Common.{
  >>=-ok_parts, Bool, List, Option, String, [], any, arith, eqb, false, filter, head?, inl, inr,
  none, ok, ok-injective, or_else, refl, some, sym, true, ◌&&◌, ◌∙◌, ◌∷◌, ◌≡◌, ◌≢◌, ◌≤◌, ◌⊎◌,
}
use whatsapp_ai_supervisor.Common.Numbers.{Number, above, eight_tenths, is_finite, less}
use whatsapp_ai_supervisor.Permission.{
  ModelDecision, Permission, Policy, Rule, apply_rule, assert_effect, deny, effect_rank,
  evaluate_v2, human, insert_rule, rule_matches, select_rule, sort_rules, v2_result, v2_selected,
  validate_all,
}
use whatsapp_ai_supervisor.Permission.Order.{Outranks, select_rule-Outranks}

module _ (decision : ModelDecision) (channel : Option String) (confidence : Number) where
  -- A rule of the list matches and denies.
  abbrev pub denies : List Rule → Bool
  denies = any (λ r. rule_matches decision channel confidence r && eqb (effect_rank r.effect) 3)

  denies-rank :
      (top : Rule) (rules : List Rule)
      → denies rules ≡ true
      → Outranks top (filter (rule_matches decision channel confidence) rules)
      → 3 ≤ effect_rank top.effect
  unfolding any filter
  denies-rank top [] d h = cc
  denies-rank top (r ∷ rules) d h = ground (arith, denies-rank top rules)

  denies-matching :
      (rules : List Rule)
      → denies rules ≡ true
      → filter (rule_matches decision channel confidence) rules ≢ []
  unfolding any filter
  denies-matching [] d = ground arith
  denies-matching (r ∷ rules) d = ground (arith, denies-matching rules)

  denied_by_rule :
      (policy : Policy) (rule : Rule) {p : Permission}
      → 3 ≤ effect_rank rule.effect
      → apply_rule policy decision rule rule.effect ≡ ok p
      → (p.action ≡ human) × (p.effect ≡ some deny)
  unfolding apply_rule
  denied_by_rule policy rule h e = ground arith

module _ (locale_after : String → String → Bool) where
  insert_rule-ne-nil : (a : Rule) (rules : List Rule) → insert_rule locale_after a rules ≢ []
  unfolding insert_rule
  insert_rule-ne-nil a [] = ground arith
  insert_rule-ne-nil a (b ∷ rules) = ground arith

  sort_rules-ne-nil : (rules : List Rule) → rules ≢ [] → sort_rules locale_after rules ≢ []
  unfolding sort_rules
  sort_rules-ne-nil [] h = h
  sort_rules-ne-nil (r ∷ rules) h = insert_rule-ne-nil r _

  head?-ne-none {ℓ} : {A : Type ℓ} (xs : List A) → xs ≢ [] → (x : A) × (head? xs ≡ some x)
  head?-ne-none [] h = absurd (h refl)
  head?-ne-none (x ∷ xs) h = (x, refl)

  selected-denies :
      (policy : Policy) (decision : ModelDecision) (channel : Option String) (confidence : Number)
      (rules : List Rule) {p : Permission}
      → denies decision channel confidence rules ≡ true
      → v2_selected policy decision (select_rule locale_after rules decision channel confidence)
        ≡ ok p
      → (p.action ≡ human) × (p.effect ≡ some deny)
  unfolding v2_selected
  selected-denies policy decision channel confidence rules d e =
      let (top, found) =
        head?-ne-none
          (sort_rules locale_after (filter (rule_matches decision channel confidence) rules))
          (sort_rules-ne-nil _ (denies-matching decision channel confidence rules d)) in
      let picked : select_rule locale_after rules decision channel confidence ≡ some top =
        unfold select_rule in found in
      denied_by_rule decision channel confidence policy top
        (denies-rank decision channel confidence top rules d
          (select_rule-Outranks locale_after rules decision channel confidence picked))
        (rw (picked, v2_selected) at e)

  -- What a successful evaluation of version 2 went through.
  pub record Evaluated (policy : Policy) (decision : ModelDecision) (channel : Option String)
      (p : Permission) : Type 0 where
    pub rules : List Rule
    pub validated : validate_all (or_else policy.rules []) ≡ ok rules
    pub outcome :
        (p ≡ v2_result policy human deny "low_confidence" "low_confidence" none false none)
        ⊎ ((is_finite (or_else decision.confidence (above 0)) ≡ true)
            × (less
                  (or_else decision.confidence (above 0))
                  (or_else policy.min_confidence eight_tenths)
                ≡ false)
            × (v2_selected policy decision (
                  select_rule locale_after rules decision channel
                    (or_else decision.confidence (above 0)))
                ≡ ok p))

  pub evaluate_v2-Evaluated :
      (policy : Policy) (decision : ModelDecision) (channel : Option String) {p : Permission}
      → evaluate_v2 locale_after policy decision channel ≡ ok p
      → Evaluated policy decision channel p
  unfolding evaluate_v2
  evaluate_v2-Evaluated policy decision channel e =
      let (effect, _, e1) =
        >>=-ok_parts (assert_effect (some (or_else policy.default_effect "deny"))) _ e in
      let (rules, er, e2) = >>=-ok_parts (validate_all (or_else policy.rules [])) _ e1 in
      record { rules = rules; validated = er; outcome = ground arith }

  -- Deny overrides: whenever some rule that matches has the effect `deny`, a successful evaluation
  -- of a version 2 policy leaves the message to a person, whatever other rules match.
  pub evaluate_v2-denies :
      (policy : Policy) (decision : ModelDecision) (channel : Option String) {rules : List Rule}
      {p : Permission}
      → validate_all (or_else policy.rules []) ≡ ok rules
      → denies decision channel (or_else decision.confidence (above 0)) rules ≡ true
      → evaluate_v2 locale_after policy decision channel ≡ ok p
      → (p.action ≡ human) × (p.effect ≡ some deny)
  unfolding v2_result
  evaluate_v2-denies policy decision channel {rules} {p} er d e =
      let run = evaluate_v2-Evaluated policy decision channel e in
      let same : run.rules ≡ rules = ok-injective (sym run.validated ∙ er) in
      elim (run.outcome) [
        | inl low ↦ rw low (refl, refl)
        | inr (_, _, selected) ↦
            selected-denies policy decision channel (or_else decision.confidence (above 0)) rules d
              (subst
                (λ x.
                  v2_selected policy decision (
                    select_rule locale_after x decision channel
                      (or_else decision.confidence (above 0)))
                  ≡ ok p)
                same selected)
      ]
