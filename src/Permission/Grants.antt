-- ===== src/Permission/Grants.antt =====
-- src/domain/permission-engine.js: the agent acts only under a grant of the policy.
use mathlib.Core.Path.{subst}
use mathlib.Core.List.{Memᴰ}
use whatsapp_ai_supervisor.Common.{
  >>=-ok_parts, All, All-Memᴰ, All-filter, All-head?, Bool, List, OnOk, OnOk-ok, Option,
  Option-cases, String, [], any, ap, arith, eq_iff, false, filter, filter-All, head?, inl, inr,
  none, ok, ok-injective, or_else, refl, some, sym, true, ◌∙◌, ◌∷◌, ◌≡◌, ◌≢◌, ◌⊎◌,
}
use whatsapp_ai_supervisor.Common.Numbers.{Number, above, eight_tenths, is_finite, less}
use whatsapp_ai_supervisor.Permission.{
  Action, Effect, ModelDecision, Permission, Policy, RawRule, Rule, allow, apply_model_ceiling,
  apply_rule, approval_result, assert_autonomy_action, assert_effect, default_for,
  default_v2_result, deny, evaluate_v2, human, require_approval, rule_matches, select_rule,
  sort_rules, v2_result, v2_selected, validate_all, validate_v2_rule,
}
use whatsapp_ai_supervisor.Permission.Ceiling.{IsWithin, apply_model_ceiling-IsWithin}
use whatsapp_ai_supervisor.Permission.Order.{All-sort_rules, sort_rules-All}
use whatsapp_ai_supervisor.Permission.Laws.{evaluate_v2-Evaluated}

-- A rule of the policy that is valid, matches and allows the action.
pub record RuleGrant (policy : Policy) (decision : ModelDecision) (channel : Option String)
    (a : Action) : Type 0 where
  pub rule : Rule
  pub listed : Memᴰ rule.raw (or_else policy.rules [])
  pub valid : validate_v2_rule rule.raw ≡ ok rule
  pub matches : rule_matches decision channel (or_else decision.confidence (above 0)) rule ≡ true
  pub allows : rule.effect ≡ allow
  pub granted : Action
  pub action : assert_autonomy_action rule.raw.action ≡ ok granted
  pub within : IsWithin granted decision.requested_action a

-- The policy's default, where no rule matches.
pub record DefaultGrant (policy : Policy) (decision : ModelDecision) (channel : Option String)
    (a : Action) : Type 0 where
  pub rules : List Rule
  pub valid : validate_all (or_else policy.rules []) ≡ ok rules
  pub unmatched :
      any (rule_matches decision channel (or_else decision.confidence (above 0))) rules ≡ false
  pub allows : policy.default_effect ≡ some "allow"
  pub action : assert_autonomy_action policy.default_action ≡ ok a

validate_v2_rule-raw : (raw : RawRule) {r : Rule} → validate_v2_rule raw ≡ ok r → r.raw ≡ raw
unfolding validate_v2_rule
validate_v2_rule-raw raw e = ground arith

-- What holds of the raw rules holds of the valid ones, which are what validation makes of them.
validate_all-valid :
    (P : RawRule → Type 0) (raws : List RawRule) {rules : List Rule}
    → All P raws
    → validate_all raws ≡ ok rules
    → All (λ r. P r.raw × (validate_v2_rule r.raw ≡ ok r)) rules
unfolding validate_all
validate_all-valid P [] {rules} h e =
    let same : [] ≡ rules = ok-injective e in
    subst (All (λ r. P r.raw × (validate_v2_rule r.raw ≡ ok r))) same tt
validate_all-valid P (raw ∷ raws) {rules} (h, hs) e =
    let (r, er, e1) = >>=-ok_parts (validate_v2_rule raw) _ e in
    let (rs, ers, e2) = >>=-ok_parts (validate_all raws) _ e1 in
    let same : r ∷ rs ≡ rules = ok-injective e2 in
    let source : r.raw ≡ raw = validate_v2_rule-raw raw er in
    subst (All (λ q. P q.raw × (validate_v2_rule q.raw ≡ ok q))) same
      ((rw source h, rw source er), validate_all-valid P raws hs ers)

assert_effect-allow :
    (value : Option String) → assert_effect value ≡ ok allow → value ≡ some "allow"
unfolding assert_effect
assert_effect-allow none e = cc
assert_effect-allow (some value) e =
    ground (arith, eq_iff value "allow", eq_iff value "require_approval", eq_iff value "deny")

low_action :
    (policy : Policy) {p : Permission}
    → p ≡ v2_result policy human deny "low_confidence" "low_confidence" none false none
    → p.action ≡ human
unfolding v2_result
low_action policy e = ap (λ x. x.action) e

approval-human :
    (policy : Policy) (id action reason_code : Option String)
    → OnOk (λ p. p.action ≡ human) (approval_result policy id action reason_code)
unfolding approval_result
approval-human policy id action reason_code = ground arith

default_for-grant :
    (policy : Policy) (effect : Effect) {p : Permission}
    → default_for policy effect ≡ ok p
    → p.action ≢ human
    → (effect ≡ allow) × (assert_autonomy_action policy.default_action ≡ ok p.action)
unfolding default_for approval_result
default_for-grant policy deny e h = ground arith
default_for-grant policy require_approval e h = ground arith
default_for-grant policy allow e h = ground arith

allow-default : (o : Option String) → some (or_else o "deny") ≡ some "allow" → o ≡ some "allow"
allow-default none e = ground (arith, eq_iff "deny" "allow")
allow-default (some s) e = e

default-grant :
    (policy : Policy) (decision : ModelDecision) (channel : Option String) (rules : List Rule)
    {p : Permission}
    → validate_all (or_else policy.rules []) ≡ ok rules
    → any (rule_matches decision channel (or_else decision.confidence (above 0))) rules ≡ false
    → default_v2_result policy ≡ ok p
    → p.action ≢ human
    → DefaultGrant policy decision channel p.action
unfolding default_v2_result
default-grant policy decision channel rules ev missed e h =
    let (effect, ee, e1) =
      >>=-ok_parts (assert_effect (some (or_else policy.default_effect "deny"))) _ e in
    let (allowed, action) = default_for-grant policy effect e1 h in
    record {
      rules = rules;
      valid = ev;
      unmatched = missed;
      allows = allow-default policy.default_effect (assert_effect-allow _ (ee ∙ ap ok allowed));
      action = action;
    }

rule-grant :
    (policy : Policy) (decision : ModelDecision) (rule : Rule) (effect : Effect) {p : Permission}
    → apply_rule policy decision rule effect ≡ ok p
    → p.action ≢ human
    → (effect ≡ allow)
      × (granted : Action) × (assert_autonomy_action rule.raw.action ≡ ok granted)
      × IsWithin granted decision.requested_action p.action
unfolding apply_rule v2_result
rule-grant policy decision rule deny e h = ground arith
rule-grant policy decision rule require_approval e h =
    ground (arith, approval-human policy rule.raw.id rule.raw.action rule.raw.reason_code)
rule-grant policy decision rule allow {p} e h =
    let (granted, eg, e1) = >>=-ok_parts (assert_autonomy_action rule.raw.action) _ e in
    let (resolved, er, e2) =
      >>=-ok_parts (apply_model_ceiling granted decision.requested_action) _ e1 in
    let same : resolved.0 ≡ p.action = ap (λ x. x.action) (ok-injective e2) in
    (
      refl,
      granted,
      eg,
      subst (IsWithin granted decision.requested_action) same (
          OnOk-ok _ (apply_model_ceiling granted decision.requested_action)
            (apply_model_ceiling-IsWithin granted decision.requested_action) er),
    )

head?-none : {A : Type 0} (xs : List A) → head? xs ≡ none → xs ≡ []
head?-none [] e = refl
head?-none (x ∷ xs) e = cc

any-filter_same : {A : Type 0} (p : A → Bool) (xs : List A) → any p (filter p xs) ≡ any p xs
unfolding any filter
any-filter_same p [] = refl
any-filter_same p (x ∷ xs) = ground (arith, any-filter_same p xs)

any-absent : {A : Type 0} (p : A → Bool) (xs : List A) → All (λ _. ⊥) xs → any p xs ≡ false
unfolding any
any-absent p [] h = refl
any-absent p (x ∷ xs) (h, _) = absurd h

module _ (locale_after : String → String → Bool) where
  select_rule-none :
      (decision : ModelDecision) (channel : Option String) (confidence : Number) (rules : List Rule)
      → select_rule locale_after rules decision channel confidence ≡ none
      → any (rule_matches decision channel confidence) rules ≡ false
  unfolding select_rule any
  select_rule-none decision channel confidence rules e =
      let p = rule_matches decision channel confidence in
      let empty = head?-none (sort_rules locale_after (filter p rules)) e in
      sym (any-filter_same p rules)
      ∙ any-absent p (filter p rules) (
          All-sort_rules locale_after (λ _. ⊥) (filter p rules)
            (subst (All (λ (r : Rule). ⊥)) (sym empty) tt))

  rules-of_selected :
      (decision : ModelDecision) (channel : Option String) (confidence : Number) (rules : List Rule)
      (P : Rule → Type 0) {top : Rule}
      → All P rules
      → select_rule locale_after rules decision channel confidence ≡ some top
      → P top × (rule_matches decision channel confidence top ≡ true)
  unfolding select_rule
  rules-of_selected decision channel confidence rules P h e =
      let matching = filter (rule_matches decision channel confidence) rules in
      (
        All-head? P _ (sort_rules-All locale_after P matching (All-filter P _ rules h)) e,
        All-head? (λ r. rule_matches decision channel confidence r ≡ true) _
            (sort_rules-All locale_after _ matching (filter-All _ rules)) e,
      )

  -- Whenever a version 2 policy lets the agent do anything but hand over to a person, the model's
  -- confidence is finite and not below the policy's, and either a valid rule of the policy matches,
  -- allows an action, and the result has no more authority than that action and than the one that
  -- the model asked for; or no rule matches and the policy allows its default action.
  pub evaluate_v2-grants :
      (policy : Policy) (decision : ModelDecision) (channel : Option String) {p : Permission}
      → evaluate_v2 locale_after policy decision channel ≡ ok p
      → p.action ≢ human
      → (is_finite (or_else decision.confidence (above 0)) ≡ true)
        × (less (or_else decision.confidence (above 0)) (or_else policy.min_confidence eight_tenths)
            ≡ false)
        × (RuleGrant policy decision channel p.action
            ⊎ DefaultGrant policy decision channel p.action)
  unfolding v2_selected
  evaluate_v2-grants policy decision channel {p} e h =
      let run = evaluate_v2-Evaluated locale_after policy decision channel e in
      elim (run.outcome) [
        | inl low ↦ absurd (h (low_action policy low))
        | inr (finite, enough, selected) ↦ (
          finite,
          enough,
          elim (Option-cases (
              select_rule locale_after run.rules decision channel
                (or_else decision.confidence (above 0)))) [
                  | inl missed ↦ inr (
                      default-grant policy decision channel run.rules run.validated
                        (select_rule-none decision channel (or_else decision.confidence (above 0))
                          run.rules missed)
                        (rw (missed, v2_selected) at selected) h)
                  | inr (top, picked) ↦
                      let ((listed, valid), matches) =
                        rules-of_selected decision channel (or_else decision.confidence (above 0))
                          run.rules _
                          (validate_all-valid (λ x. Memᴰ x (or_else policy.rules []))
                            (or_else policy.rules []) (All-Memᴰ _) run.validated)
                          picked in
                      let (allows, granted, action, within) =
                        rule-grant policy decision top top.effect
                          (rw (picked, v2_selected) at selected) h in
                      inl (record {
                        rule = top;
                        listed = listed;
                        valid = valid;
                        matches = matches;
                        allows = allows;
                        granted = granted;
                        action = action;
                        within = within;
                      })
                ],
        )
      ]
