-- ===== src/Permission/Gaps.antt =====
-- src/domain/permission-engine.js: two places where a grant is wider than docs/POLICY_V2.md and
-- docs/ARCHITECTURE.md say.
use whatsapp_ai_supervisor.Common.{
  Bool, List, Option, String, [], false, none, ok, or_else, refl, some, ◌≡◌,
}
use whatsapp_ai_supervisor.Common.Numbers.{Number, above, eight_tenths, less, nan, plus_infinity}
use whatsapp_ai_supervisor.Permission.{
  ModelDecision, Policy, RawRule, Rule, evaluate_v1, evaluate_v2, rule_matches, select_rule,
  v1_matched, v2_selected, validate_all,
}

less-plus_infinity : (x : Number) → less plus_infinity x ≡ false
less-plus_infinity nan = refl
less-plus_infinity plus_infinity = refl
less-plus_infinity _ = refl

v1_matched-confidence :
    (policy : Policy) (decision : ModelDecision) (c d : Option Number) (rule : Option RawRule)
    → v1_matched policy (record decision { confidence = c }) rule
      ≡ v1_matched policy (record decision { confidence = d }) rule
unfolding v1_matched
v1_matched-confidence policy decision c d none = refl
v1_matched-confidence policy decision c d (some rule) = refl

select_rule-requested :
    (locale_after : String → String → Bool) (decision : ModelDecision)
    (channel requested : Option String) (rules : List Rule) (confidence : Number)
    → select_rule locale_after rules
        (record decision { requested_action = requested })
        channel
        confidence
      ≡ select_rule locale_after rules decision channel confidence
unfolding select_rule rule_matches
select_rule-requested locale_after decision channel requested rules confidence = refl

-- Under a version 1 policy a confidence that is not a number is never low: the evaluation is the
-- one for an infinite confidence.
pub evaluate_v1-nan :
    (policy : Policy) (decision : ModelDecision)
    → evaluate_v1 policy (record decision { confidence = some nan })
      ≡ evaluate_v1 policy (record decision { confidence = some plus_infinity })
unfolding evaluate_v1
evaluate_v1-nan policy decision =
    rw (less-plus_infinity (or_else policy.min_confidence eight_tenths))
      (v1_matched-confidence policy decision (some nan) (some plus_infinity) _)

-- Where no rule of a version 2 policy matches, the result is the same whatever action the model
-- asks for, `human` and `ignore` included.
pub evaluate_v2-default :
    (locale_after : String → String → Bool) (policy : Policy) (decision : ModelDecision)
    (channel requested : Option String) {rules : List Rule}
    → validate_all (or_else policy.rules []) ≡ ok rules
    → select_rule locale_after rules decision channel (or_else decision.confidence (above 0)) ≡ none
    → evaluate_v2 locale_after policy (record decision { requested_action = requested }) channel
      ≡ evaluate_v2 locale_after policy decision channel
unfolding evaluate_v2 v2_selected
evaluate_v2-default locale_after policy decision channel requested er missed = rw (
  er,
  select_rule-requested locale_after decision channel requested _
      (or_else decision.confidence (above 0)),
  missed,
  v2_selected,
)
