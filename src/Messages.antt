-- ===== src/Messages.antt =====
-- What src/core/orchestrator.js passes around: messages, tenants, the model's answer, the result, the
-- audit entry, and the services with the calls that they get.
use whatsapp_ai_supervisor.Common.{Bool, List, Option, Result, String, ℕ}
use whatsapp_ai_supervisor.Common.Json.{Json}
use whatsapp_ai_supervisor.Permission.{Action, ModelDecision, Permission, Policy, RawRule}
use whatsapp_ai_supervisor.Attribution.{Attribution}

pub data Mode : Type 0 where
  live shadow simulation : Mode

pub record ContextEntry : Type 0 where
  pub direction : String
  pub text : Option String
  pub at : Option String
  pub intent : Option String

pub record Message : Type 0 where
  pub id : String
  pub tenant_id : String
  pub channel : String
  pub customer_id : String
  pub customer_name : Option String
  pub text : Option String
  pub context : Option (List ContextEntry)

pub record Tenant : Type 0 where
  pub id : String
  pub shadow_mode : Bool
  pub policy : Policy
  pub route : Option String
  pub routes : Option Json
  pub business_context : Option Json

-- An event of the conversation store.
pub record StoredEvent : Type 0 where
  pub customer_id : String
  pub direction : String
  pub text : Option String
  pub at : Option String
  pub intent : Option String

pub record RouteConfig : Type 0 where
  pub route : String
  pub routes : Option Json
  pub business_context : Option Json
  pub available_capabilities : List (Option String × String)

-- The model's answer.
pub record Model : Type 0 where
  pub decision : ModelDecision
  pub reply : Option String
  pub thinking : Option String
  pub proactive_offer : Option Json
  pub model : Option String
  pub provider : Option String

pub record Outbound : Type 0 where
  pub transport : Option String
  pub platform_message_id : Option String
  pub session_id : Option String
  -- `messages?.[0]?.id ?? id`
  pub message_id : Option String

-- `wouldAction` is kept apart: a result is the action itself, or the mode that withheld it.
pub data Done : Type 0 where
  did : Action → Done
  withheld : Mode → Done

pub record Handled : Type 0 where
  pub action : Done
  pub would_action : Option Action
  pub reason : Option String
  pub outbound : Option Outbound
  pub attributed : Option Bool
  pub action_result : Option Json
  pub action_error : Option String
  pub model : Model
  pub permission : Permission

pub record AuditEntry : Type 0 where
  pub tenant_id : String
  pub message_id : String
  pub customer_id : String
  pub channel : String
  pub model : Model
  pub permission : Permission
  pub action : Done
  pub would_action : Option Action
  pub reason : Option String

-- What a service was asked.
pub data Call : Type 0 where
  model_asked : Message → RouteConfig → Call
  text_sent : (to body reply_to_id : String) → Call
  attribution_recorded : Attribution → Call
  action_executed : Tenant → Message → Option RawRule → Call
  audit_appended : AuditEntry → Call

-- The constructor's arguments, by what they answer. `clock` is `now()`, `shorten` is
-- `slice(0, 300)`, `locale_after` whether an id comes later by `localeCompare`, and `parse` and `to_iso` are those of `Date`.
pub record Services : Type 0 where
  pub decide : Message → RouteConfig → Result Model
  pub send_text : String → String → String → Result Outbound
  pub execute : Option (Tenant → Message → Option RawRule → Result Json)
  pub read_events : Option (String → Result (List StoredEvent))
  pub record_attribution : Option (Attribution → Result (Unit {0}))
  pub append_audit : AuditEntry → Result (Unit {0})
  pub clock : String
  pub shorten : String → String
  pub locale_after : String → String → Bool
  pub parse : String → Option ℕ
  pub to_iso : ℕ → Option String
