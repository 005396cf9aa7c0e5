-- ===== src/Permission.antt =====
-- src/domain/types.js and src/domain/permission-engine.js: what a tenant's policy lets the agent do
-- with the model's decision. `none` is undefined or null; a number is what `Number` makes of it.
pub mod Actions
pub mod Order
pub mod Ceiling
pub mod Laws
pub mod Grants
pub mod Gaps
mod Tests
unfoldable pub use Actions.*
use Prim.Native.String
use whatsapp_ai_supervisor.Common.{
  Bool, List, Option, Result, String, [], any, eqb, false, filter, find, head?, if◌then◌else◌,
  is_empty, is_text, ltb, none, not, ok, or_else, require, same_text, some, text_of, trim, true,
  ◌&&◌, ◌>>=◌, ◌>>◌, ◌||◌, ◌∷◌,
}
use whatsapp_ai_supervisor.Common.Numbers.{
  Number, above, eight_tenths, is_finite, less, minus_infinity, one, same_number,
}

abbrev v1_result : Action → String → Option String → Permission
v1_result action reason matched_rule_id = record {
  action = action;
  reason = reason;
  matched_rule_id = matched_rule_id;
  effect = none;
  reason_code = none;
  requires_approval = false;
  intended_action = none;
  policy_version = none;
  policy_id = none;
}

abbrev lowered : Bool → String → String
lowered downgraded other = if downgraded then "model_requested_less_autonomy" else other

-- The rest of `evaluateV1`, for the rule that was found.
unfoldable pub v1_matched : Policy → ModelDecision → Option RawRule → Result Permission
v1_matched policy decision none = do
  action ← assert_autonomy_action (some (or_else policy.default_action "human"))
  ok (v1_result action "no_matching_rule" none)
v1_matched policy decision (some rule) = do
  policy_action ← assert_autonomy_action rule.action
  resolved ← apply_model_ceiling policy_action decision.requested_action
  ok (v1_result resolved.0 (lowered resolved.1 "matched_rule") rule.id)

unfoldable pub evaluate_v1 : Policy → ModelDecision → Result Permission
evaluate_v1 policy decision =
    let confidence = or_else decision.confidence (above 0) in
    if less confidence (or_else policy.min_confidence eight_tenths)
    then ok (v1_result human "low_confidence" none)
    else v1_matched policy decision
        (find (λ candidate. same_text candidate.intent decision.intent) (or_else policy.rules []))

-- A rule that passed `validateV2Rule`.
pub record Rule : Type 0 where
  pub raw : RawRule
  pub intents : List String
  pub effect : Effect

abbrev is_blank : String → Bool
is_blank s = is_empty (trim s)

-- `rule.intents ?? (rule.intent ? [rule.intent] : [])`
abbrev intents_of : RawRule → List String
intents_of rule =
    or_else rule.intents (if is_empty (text_of rule.intent) then [] else text_of rule.intent ∷ [])

abbrev is_deny : Effect → Bool
is_deny deny = true
is_deny _ = false

abbrev nonempty : List String → Bool
nonempty [] = false
nonempty (x ∷ xs) = true

abbrev is_confidence : Number → Bool
is_confidence value = is_finite value && not (less value (above 0)) && not (less one value)

-- The tests on a rule's action: no action is needed to deny.
unfoldable pub check_action : RawRule → Effect → Result (Unit {0})
check_action rule effect = elim (rule.action) [
  | none ↦ require (is_deny effect) (String.◌++◌ "Policy rule action is required: " (shown rule.id))
  | some action ↦ assert_autonomy_action (some action) >>= λ _. ok tt
]

unfoldable pub validate_v2_rule : RawRule → Result Rule
validate_v2_rule rule = do
  require (not (is_blank (text_of rule.id))) "Policy rule id is required"
  require (nonempty (intents_of rule) && not (any is_blank (intents_of rule)))
      (String.◌++◌ "Policy rule intent is required: " (shown rule.id))
  effect ← assert_effect rule.effect
  check_action rule effect
  require (not (any is_blank (or_else rule.channels [])))
      (String.◌++◌ "Invalid policy channels constraint: " (shown rule.id))
  require (is_confidence (or_else rule.min_confidence (above 0)))
      (String.◌++◌ "Invalid policy confidence constraint: " (shown rule.id))
  ok (record { raw = rule; intents = intents_of rule; effect = effect })

-- `list.map(validateV2Rule)`
unfoldable pub validate_all : List RawRule → Result (List Rule)
validate_all [] = ok []
validate_all (rule ∷ rules) = do ok ((← validate_v2_rule rule) ∷ (← validate_all rules))

unfoldable pub rule_matches : ModelDecision → Option String → Number → Rule → Bool
rule_matches decision channel confidence rule =
    let channels = or_else rule.raw.channels [] in
    any (is_text decision.intent) rule.intents
    && (not (nonempty channels) || any (is_text channel) channels)
    && not (less confidence (or_else rule.raw.min_confidence minus_infinity))

unfoldable pub v2_result :
    Policy → Action → Effect → String → String → Option String → Bool → Option Action → Permission
v2_result policy action effect reason reason_code matched_rule_id requires_approval intended =
    record {
      action = action;
      reason = reason;
      matched_rule_id = matched_rule_id;
      effect = some effect;
      reason_code = some reason_code;
      requires_approval = requires_approval;
      intended_action = intended;
      policy_version = some 2;
      policy_id = policy.id;
    }

unfoldable pub denied_result : Policy → Option Rule → String → Permission
unfolding v2_result
denied_result policy none reason =
    v2_result policy human deny reason "no_matching_rule" none false none
denied_result policy (some rule) reason =
    v2_result policy human deny reason (or_else rule.raw.reason_code "policy_denied") rule.raw.id
      false none

unfoldable pub approval_result :
    Policy → Option String → Option String → Option String → Result Permission
unfolding v2_result
approval_result policy id action reason_code = do
  intended ← assert_autonomy_action action
  ok (
      v2_result policy human require_approval "approval_required"
        (or_else reason_code "approval_required") id true (some intended))

-- The branch of `defaultV2Result` for each default effect.
unfoldable pub default_for : Policy → Effect → Result Permission
unfolding v2_result denied_result
default_for policy deny = ok (denied_result policy none "no_matching_rule")
default_for policy require_approval = do
  require (not (is_empty (text_of policy.default_action)))
      "Policy v2 defaultAction is required for default approval"
  approval_result policy none policy.default_action (some "default_approval_required")
default_for policy allow = do
  require (not (is_empty (text_of policy.default_action)))
      "Policy v2 defaultAction is required when defaultEffect is allow"
  action ← assert_autonomy_action policy.default_action
  ok (v2_result policy action allow "no_matching_rule" "default_allow" none false none)

unfoldable pub default_v2_result : Policy → Result Permission
default_v2_result policy = do
  effect ← assert_effect (some (or_else policy.default_effect "deny"))
  default_for policy effect

-- The branch of `evaluateV2` for the rule that was selected.
unfoldable pub apply_rule : Policy → ModelDecision → Rule → Effect → Result Permission
unfolding v2_result denied_result
apply_rule policy decision rule deny = ok (denied_result policy (some rule) "policy_denied")
apply_rule policy decision rule require_approval =
    approval_result policy rule.raw.id rule.raw.action rule.raw.reason_code
apply_rule policy decision rule allow = do
  policy_action ← assert_autonomy_action rule.raw.action
  resolved ← apply_model_ceiling policy_action decision.requested_action
  ok (
      v2_result policy resolved.0 allow (lowered resolved.1 "matched_rule")
        (lowered resolved.1 (or_else rule.raw.reason_code "matched_rule")) rule.raw.id false none)

unfoldable pub v2_selected : Policy → ModelDecision → Option Rule → Result Permission
v2_selected policy decision none = default_v2_result policy
v2_selected policy decision (some rule) = apply_rule policy decision rule rule.effect

-- `a.localeCompare(b) > 0` is up to the engine's locale data.
module _ (locale_after : String → String → Bool) where
  -- The comparator of `selectRule` is positive, for rules of one effect: by priority, where a NaN
  -- difference counts as 0, then by id.
  unfoldable pub tie_after : Rule → Rule → Bool
  tie_after a b =
      let pa = or_else a.raw.priority (above 0) in
      let pb = or_else b.raw.priority (above 0) in
      if less pa pb
      then true
      else if less pb pa
      then false
      else is_finite pa && is_finite pb && locale_after (text_of a.raw.id) (text_of b.raw.id)

  -- The comparator is positive: `a` comes after `b`.
  unfoldable pub comes_after : Rule → Rule → Bool
  comes_after a b =
      if eqb (effect_rank a.effect) (effect_rank b.effect)
      then tie_after a b
      else ltb (effect_rank a.effect) (effect_rank b.effect)

  unfoldable pub insert_rule : Rule → List Rule → List Rule
  insert_rule a [] = a ∷ []
  insert_rule a (b ∷ rules) =
      let later = insert_rule a rules in if comes_after a b then b ∷ later else a ∷ b ∷ rules

  -- `Array.prototype.sort` is stable.
  unfoldable pub sort_rules : List Rule → List Rule
  sort_rules [] = []
  sort_rules (rule ∷ rules) = insert_rule rule (sort_rules rules)

  unfoldable pub select_rule : List Rule → ModelDecision → Option String → Number → Option Rule
  select_rule rules decision channel confidence =
      head? (sort_rules (filter (rule_matches decision channel confidence) rules))

  unfoldable pub evaluate_v2 : Policy → ModelDecision → Option String → Result Permission
  evaluate_v2 policy decision channel = do
    _ ← assert_effect (some (or_else policy.default_effect "deny"))
    rules ← validate_all (or_else policy.rules [])
    let confidence = or_else decision.confidence (above 0)
    let low =
        not (is_finite confidence) || less confidence (or_else policy.min_confidence eight_tenths)
    if low
        then ok (v2_result policy human deny "low_confidence" "low_confidence" none false none)
        else v2_selected policy decision (select_rule rules decision channel confidence)

  unfoldable pub evaluate_permission : Policy → ModelDecision → Option String → Result Permission
  evaluate_permission policy decision channel =
      if same_number policy.version 2
      then evaluate_v2 policy decision channel
      else evaluate_v1 policy decision
