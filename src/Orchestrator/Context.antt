-- ===== src/Orchestrator/Context.antt =====
-- src/core/orchestrator.js: the mode of a run and what the model is told of the conversation.
use Prim.Native.String
use whatsapp_ai_supervisor.Messages.{
  Call, ContextEntry, Mode, Services, StoredEvent, Tenant, live, shadow, simulation,
}
use whatsapp_ai_supervisor.Common.{
  Bool, List, Option, Result, String, [], drop, filter, if◌then◌else◌, is_empty, is_text, length,
  map, none, not, ok, or_else, some, text_of, throws, ◌&&◌, ◌-◌, ◌==◌, ◌||◌,
}
use whatsapp_ai_supervisor.Common.Numbers.{same_number}
use whatsapp_ai_supervisor.Common.Traces.{Trace}
use whatsapp_ai_supervisor.Permission.{Policy, RawRule}

-- The calls that were made, in order, and what came of it.
abbrev pub Run : Type 0 → Type 0
Run A = Trace Call A

abbrev capability_type : RawRule → String
capability_type rule = elim (rule.capability) [
  | none ↦ ""
  | some capability ↦ text_of capability.type
]

-- The test of the filter.
abbrev pub offers : Bool → RawRule → Bool
offers is_v2 rule =
    is_text rule.action "act"
    && not (is_empty (capability_type rule))
    && (not is_v2 || is_text rule.effect "allow")

unfoldable pub available_capabilities : Policy → List (Option String × String)
available_capabilities policy =
    map (λ rule. (rule.intent, capability_type rule))
      (filter (offers (same_number policy.version 2)) (or_else policy.rules []))

-- Shadow mode turns a live run into a shadow run.
abbrev pub shadowed : Bool → Mode → Mode
shadowed shadow_mode mode = if shadow_mode then shadow else mode

unfoldable pub resolve_execution_mode : Tenant → Option String → Result Mode
resolve_execution_mode tenant requested_mode =
    let requested = or_else requested_mode "live" in
    if requested == "simulation"
    then ok simulation
    else if requested == "live"
    then ok (shadowed tenant.shadow_mode live)
    else if requested == "shadow"
    then ok (shadowed tenant.shadow_mode shadow)
    else throws (String.◌++◌ "invalid_execution_mode: " requested)

abbrev context_entry : StoredEvent → ContextEntry
context_entry event = record {
  direction = if event.direction == "inbound" then "user" else "assistant";
  text = event.text;
  at = event.at;
  intent = event.intent;
}

-- `slice(-6)`
abbrev last_six : List StoredEvent → List StoredEvent
last_six events = drop (length events - 6) events

unfoldable pub conversation_context : Result (List StoredEvent) → String → List ContextEntry
conversation_context (throws e) customer_id = []
conversation_context (ok events) customer_id =
    map context_entry (last_six (filter (λ event. event.customer_id == customer_id) events))

unfoldable pub build_conversation_context : Services → String → String → List ContextEntry
build_conversation_context services tenant_id customer_id = elim (services.read_events) [
  | none ↦ []
  | some read_events ↦ conversation_context (read_events tenant_id) customer_id
]
