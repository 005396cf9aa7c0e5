-- ===== src/Permission/Tests.antt =====
-- Runs of permission-engine.js.
use whatsapp_ai_supervisor.Common.{
  Bool, List, OnOk, Option, String, [], any, every, false, filter, find, is_space, none, ok, refl,
  some, throws, trim, true, ◌∷◌, ◌≡◌, ◌≢◌, ◌⊎◌,
}
use whatsapp_ai_supervisor.Common.Numbers.{
  above, eight_tenths, is_finite, less, of_natural, one, same_number, units,
}
use whatsapp_ai_supervisor.Permission.{
  ModelDecision, Permission, Policy, RawRule, Rule, allow, apply_model_ceiling, apply_rule,
  approval_result, assert_autonomy_action, assert_effect, check_action, comes_after, default_for,
  default_v2_result, denied_result, deny, draft, evaluate_permission, evaluate_v2, human,
  insert_rule, reply, rule_matches, select_rule, sort_rules, tie_after, v2_result, v2_selected,
  validate_all, validate_v2_rule,
}
use whatsapp_ai_supervisor.Permission.Laws.{denies, evaluate_v2-denies}
use whatsapp_ai_supervisor.Permission.Grants.{DefaultGrant, RuleGrant, evaluate_v2-grants}

abbrev by_code : String → String → Bool
by_code a b = false

abbrev answer_prices : RawRule
answer_prices = record {
  id = some "prices";
  intent = some "pricing";
  intents = none;
  effect = some "allow";
  action = some "act";
  reason_code = none;
  channels = some ("whatsapp" ∷ []);
  min_confidence = none;
  priority = some (above 5);
  capability = none;
}

abbrev no_refunds : RawRule
no_refunds = record answer_prices {
  id = some "refunds";
  intents = some ("refund" ∷ "pricing" ∷ []);
  effect = some "deny";
  action = none;
  priority = none;
}

abbrev policy_of : List RawRule → Policy
policy_of rules = record {
  version = of_natural 2;
  id = some "p1";
  min_confidence = some (above 0);
  rules = some rules;
  default_action = some "draft";
  default_effect = some "allow";
}

abbrev asks : String → String → ModelDecision
asks intent requested = record {
  intent = some intent;
  confidence = some one;
  requested_action = some requested;
}

-- What a run computes with.
code : Unit {0}
unfolding evaluate_permission same_number evaluate_v2 validate_all validate_v2_rule check_action
    assert_effect assert_autonomy_action any find every filter trim is_space select_rule sort_rules
    insert_rule comes_after tie_after rule_matches v2_selected apply_rule apply_model_ceiling
    denied_result approval_result default_v2_result default_for v2_result one eight_tenths units
    of_natural
code = tt

abbrev whatsapp : Option String
whatsapp = some "whatsapp"

abbrev valid_rules : List RawRule → List Rule
valid_rules raws = elim (validate_all raws) [ ok rules ↦ rules | throws e ↦ [] ]

abbrev granted : Permission
granted =
    v2_result (policy_of (answer_prices ∷ [])) reply allow "model_requested_less_autonomy"
      "model_requested_less_autonomy" (some "prices") false none

prices_answered :
    evaluate_v2 by_code (policy_of (answer_prices ∷ [])) (asks "pricing" "reply") whatsapp
    ≡ ok granted
unfolding code
prices_answered = refl

abbrev refused : Permission
refused =
    denied_result (policy_of (answer_prices ∷ no_refunds ∷ []))
      (some (record { raw = no_refunds; intents = "refund" ∷ "pricing" ∷ []; effect = deny }))
      "policy_denied"

refund_denied :
    evaluate_v2 by_code
      (policy_of (answer_prices ∷ no_refunds ∷ []))
      (asks "pricing" "act")
      whatsapp
    ≡ ok refused
unfolding code
refund_denied = refl

abbrev both_rules : List Rule
both_rules =
    record { raw = answer_prices; intents = "pricing" ∷ []; effect = allow }
    ∷ record { raw = no_refunds; intents = "refund" ∷ "pricing" ∷ []; effect = deny }
    ∷ []

both_valid : validate_all (answer_prices ∷ no_refunds ∷ []) ≡ ok both_rules
unfolding code
both_valid = refl

both_deny : denies (asks "pricing" "act") whatsapp one both_rules ≡ true
unfolding code
both_deny = refl

evaluate_v2-denies_example : (refused.action ≡ human) × (refused.effect ≡ some deny)
evaluate_v2-denies_example =
    evaluate_v2-denies by_code (policy_of (answer_prices ∷ no_refunds ∷ [])) (asks "pricing" "act")
      whatsapp both_valid both_deny refund_denied

granted-acts : granted.action ≢ human
unfolding code
granted-acts e = cc

evaluate_v2-grants_example :
    (is_finite one ≡ true)
    × (less one (above 0) ≡ false)
    × (RuleGrant (policy_of (answer_prices ∷ [])) (asks "pricing" "reply") whatsapp granted.action
        ⊎ DefaultGrant
            (policy_of (answer_prices ∷ []))
            (asks "pricing" "reply")
            whatsapp
            granted.action)
evaluate_v2-grants_example =
    evaluate_v2-grants by_code (policy_of (answer_prices ∷ [])) (asks "pricing" "reply") whatsapp
      prices_answered granted-acts

no_rule : select_rule by_code both_rules (asks "hours" "human") whatsapp one ≡ none
unfolding code
no_rule = refl

default_drafts :
    OnOk
      (λ p. p.action ≡ draft)
      (evaluate_v2 by_code
        (policy_of (answer_prices ∷ no_refunds ∷ []))
        (asks "hours" "human")
        whatsapp)
unfolding code
default_drafts = refl
