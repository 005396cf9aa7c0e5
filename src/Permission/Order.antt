-- ===== src/Permission/Order.antt =====
-- src/domain/permission-engine.js, `selectRule`: which rule decides.
use native.Mathlib.Nat.{le_refl}
use mathlib.Core.Path.{subst}
use whatsapp_ai_supervisor.Common.{
  All, Bool, Bool-cases, List, Option, String, [], arith, false, filter, head?, inl, inr, some,
  true, ◌∷◌, ◌≡◌, ◌≤◌,
}
use whatsapp_ai_supervisor.Common.Numbers.{Number}
use whatsapp_ai_supervisor.Permission.{
  ModelDecision, Rule, comes_after, effect_rank, insert_rule, rule_matches, select_rule, sort_rules,
}

-- No rule of the list has a stronger effect.
abbrev pub Outranks : Rule → List Rule → Type 0
Outranks top = All (λ r. effect_rank r.effect ≤ effect_rank top.effect)

Outranks-mono :
    (top r : Rule) (rules : List Rule)
    → effect_rank r.effect ≤ effect_rank top.effect
    → Outranks r rules
    → Outranks top rules
Outranks-mono top r [] h k = tt
Outranks-mono top r (q ∷ rules) h (k, ks) = (omega arith, Outranks-mono top r rules h ks)

-- The first rule has no stronger one behind it.
abbrev Led : List Rule → Type 0
Led [] = Unit
Led (top ∷ rules) = Outranks top (top ∷ rules)

module _ (locale_after : String → String → Bool) where
  module _ {κ} (P : Rule → Type κ) where
    insert_rule-All :
        (a : Rule) (rules : List Rule)
        → P a
        → All P rules
        → All P (insert_rule locale_after a rules)
    unfolding insert_rule
    insert_rule-All a [] h k = (h, tt)
    insert_rule-All a (b ∷ rules) h (k, ks) = elim (Bool-cases (comes_after locale_after a b)) [
      | inl later ↦ rw later (k, insert_rule-All a rules h ks)
      | inr sooner ↦ rw sooner (h, (k, ks))
    ]

    All-insert_rule :
        (a : Rule) (rules : List Rule)
        → All P (insert_rule locale_after a rules)
        → P a × All P rules
    unfolding insert_rule
    All-insert_rule a [] h = h
    All-insert_rule a (b ∷ rules) h = elim (Bool-cases (comes_after locale_after a b)) [
      | inl later ↦
          let (hb, rest) = rw (later, insert_rule) at h in
          let (ha, hs) = All-insert_rule a rules rest in (ha, (hb, hs))
      | inr sooner ↦ rw (sooner, insert_rule) at h
    ]

    pub sort_rules-All : (rules : List Rule) → All P rules → All P (sort_rules locale_after rules)
    unfolding sort_rules
    sort_rules-All [] h = tt
    sort_rules-All (r ∷ rules) (h, hs) = insert_rule-All r _ h (sort_rules-All rules hs)

    pub All-sort_rules : (rules : List Rule) → All P (sort_rules locale_after rules) → All P rules
    unfolding sort_rules
    All-sort_rules [] h = tt
    All-sort_rules (r ∷ rules) h =
        let (hr, hs) = All-insert_rule r _ h in (hr, All-sort_rules rules hs)

  comes_after-le :
      (a b : Rule)
      → (comes_after locale_after a b ≡ true → effect_rank a.effect ≤ effect_rank b.effect)
        × (comes_after locale_after a b ≡ false → effect_rank b.effect ≤ effect_rank a.effect)
  unfolding comes_after
  comes_after-le a b = (λ e. ground arith, λ e. ground arith)

  insert_rule-Led :
      (a : Rule) (rules : List Rule) → Led rules → Led (insert_rule locale_after a rules)
  unfolding insert_rule
  insert_rule-Led a [] h = (le_refl _, tt)
  insert_rule-Led a (b ∷ rules) (h, hs) = elim (Bool-cases (comes_after locale_after a b)) [
    | inl later ↦ rw later (
      h,
      insert_rule-All (λ r. effect_rank r.effect ≤ effect_rank b.effect) a rules
          ((comes_after-le a b).0 later) hs,
    )
    | inr sooner ↦
        let below_a = (comes_after-le a b).1 sooner in
        rw sooner (le_refl _, (below_a, Outranks-mono a b rules below_a hs))
  ]

  sort_rules-Led : (rules : List Rule) → Led (sort_rules locale_after rules)
  unfolding sort_rules
  sort_rules-Led [] = tt
  sort_rules-Led (r ∷ rules) = insert_rule-Led r _ (sort_rules-Led rules)

  sort_rules-head :
      (rules sorted : List Rule) {top : Rule}
      → Led sorted
      → (All (λ r. effect_rank r.effect ≤ effect_rank top.effect) sorted → Outranks top rules)
      → head? sorted ≡ some top
      → Outranks top rules
  sort_rules-head rules [] h k e = cc
  sort_rules-head rules (s ∷ sorted) {top} h k e =
      let same : s ≡ top = ground arith in k (subst (λ x. Outranks x (s ∷ sorted)) same h)

  -- The rule that is selected has the strongest effect among the rules that match.
  pub select_rule-Outranks :
      (rules : List Rule) (decision : ModelDecision) (channel : Option String) (confidence : Number)
      {top : Rule}
      → select_rule locale_after rules decision channel confidence ≡ some top
      → Outranks top (filter (rule_matches decision channel confidence) rules)
  unfolding select_rule
  select_rule-Outranks rules decision channel confidence e =
      let matching = filter (rule_matches decision channel confidence) rules in
      sort_rules-head matching (sort_rules locale_after matching) (sort_rules-Led matching)
        (All-sort_rules (λ r. _) matching) e
