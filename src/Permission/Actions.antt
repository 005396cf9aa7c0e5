-- ===== src/Permission/Actions.antt =====
-- src/domain/types.js and src/domain/permission-engine.js: the actions and effects of a policy, its rules,
-- and how the action that the model asks for lowers one that the policy grants.
use Prim.Native.String
use whatsapp_ai_supervisor.Common.{
  Bool, List, Option, Result, String, false, if◌then◌else◌, is_empty, is_text, ltb, none, ok, some,
  text_of, throws, true, ℕ, ◌>>=◌,
}
use whatsapp_ai_supervisor.Common.Numbers.{Number}
use whatsapp_ai_supervisor.Common.Json.{Json}

pub data Action : Type 0 where
  ignore draft reply act human : Action

pub data Effect : Type 0 where
  allow require_approval deny : Effect

-- `value` in a message.
abbrev pub shown : Option String → String
shown none = "undefined"
shown (some value) = value

unfoldable pub assert_autonomy_action : Option String → Result Action
assert_autonomy_action value =
    if is_text value "ignore"
    then ok ignore
    else if is_text value "draft"
    then ok draft
    else if is_text value "reply"
    then ok reply
    else if is_text value "act"
    then ok act
    else if is_text value "human"
    then ok human
    else throws (String.◌++◌ "Invalid autonomy action: " (shown value))

unfoldable pub assert_effect : Option String → Result Effect
assert_effect value =
    if is_text value "allow"
    then ok allow
    else if is_text value "require_approval"
    then ok require_approval
    else if is_text value "deny"
    then ok deny
    else throws (String.◌++◌ "Invalid policy effect: " (shown value))

-- What a rule lets the agent run.
pub record Capability : Type 0 where
  pub type : Option String
  pub tool_id : Option String
  pub task : Option String
  pub allowed_domains : Option Json
  pub timeout_ms : Option Number
  pub parameters : Option Json

-- A rule as it is written: `none` is a key that is not there, or a null that the code reads alike. A null
-- action is the text "null" and null channels are one blank text, since version 2 refuses these in the
-- same way, and a null confidence is 0, which is what `Number` makes of it.
pub record RawRule : Type 0 where
  pub id : Option String
  pub intent : Option String
  pub intents : Option (List String)
  pub effect : Option String
  pub action : Option String
  pub reason_code : Option String
  pub channels : Option (List String)
  pub min_confidence : Option Number
  pub priority : Option Number
  pub capability : Option Capability

pub record Policy : Type 0 where
  pub version : Number
  pub id : Option String
  pub min_confidence : Option Number
  pub rules : Option (List RawRule)
  pub default_action : Option String
  pub default_effect : Option String

pub record ModelDecision : Type 0 where
  pub intent : Option String
  pub confidence : Option Number
  pub requested_action : Option String

-- The result of either version; the fields from `effect` on are those that version 2 adds.
pub record Permission : Type 0 where
  pub action : Action
  pub reason : String
  pub matched_rule_id : Option String
  pub effect : Option Effect
  pub reason_code : Option String
  pub requires_approval : Bool
  pub intended_action : Option Action
  pub policy_version : Option ℕ
  pub policy_id : Option String

abbrev pub authority_rank : Action → Option ℕ
authority_rank draft = some 1
authority_rank reply = some 2
authority_rank act = some 3
authority_rank _ = none

abbrev pub effect_rank : Effect → ℕ
effect_rank allow = 1
effect_rank require_approval = 2
effect_rank deny = 3

-- The test `requestedRank !== undefined && policyRank !== undefined && requestedRank < policyRank`
abbrev pub ranks_below : Option ℕ → Option ℕ → Bool
ranks_below (some requested) (some policy) = ltb requested policy
ranks_below _ _ = false

abbrev pub is_terminal : Action → Bool
is_terminal human = true
is_terminal ignore = true
is_terminal _ = false

abbrev pub ceiling : Action → Action → Action × Bool
ceiling policy_action requested =
    if is_terminal policy_action
    then (policy_action, false)
    else if is_terminal requested
    then (requested, true)
    else if ranks_below (authority_rank requested) (authority_rank policy_action)
    then (requested, true)
    else (policy_action, false)

-- The action, and whether the model lowered it.
unfoldable pub apply_model_ceiling : Action → Option String → Result (Action × Bool)
apply_model_ceiling policy_action requested_action =
    if is_empty (text_of requested_action) then ok (policy_action, false) else do
      requested ← assert_autonomy_action requested_action
      ok (ceiling policy_action requested)
