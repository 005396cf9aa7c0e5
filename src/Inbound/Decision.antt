-- ===== src/Inbound/Decision.antt =====
-- src/jobs/inbound-decision-handler.js: whether the agent decides on a message, and what is kept of it.
use text.Mathlib.Text.{starts_with}
use Prim.Native.String
use whatsapp_ai_supervisor.Common.{
  Bool, Option, Result, String, [], false, if◌then◌else◌, is_empty, map, none, not, ok, require,
  some, text_of, throws, true, ◌&&◌, ◌==◌, ◌>>=◌, ◌>>◌, ◌||◌, ◌∷◌,
}
use whatsapp_ai_supervisor.Common.Traces.{call, quiet, then_run}
use whatsapp_ai_supervisor.Common.Numbers.{Number}
use whatsapp_ai_supervisor.Common.Json.{Fields, Json}
use whatsapp_ai_supervisor.Permission.{Action, act, draft, human, ignore}
use whatsapp_ai_supervisor.Messages.{
  Done, Handled, Message, Mode, Model, Tenant, did, live, shadow, simulation, withheld,
}
use whatsapp_ai_supervisor.DomainEvent.{
  DomainEvent, EventInput, assert_domain_event, derive_domain_event, is_among, or_field,
  shown_field, string, undefined,
}
use whatsapp_ai_supervisor.Ownership.{
  State, ai_active, ai_paused, human_active, human_requested, state_text, waiting_approval,
}
use whatsapp_ai_supervisor.Orchestrator.{Run, handle}
use whatsapp_ai_supervisor.Inbound.{
  Backends, ConversationBackend, OwnershipBackend, Task, Verdict, append_event, block_audited,
  blocked, broadcast, decision_recorded, json_text, orchestrated, ownership_read, supervised,
  with_conversations,
}

-- `String(state).toLowerCase()`
abbrev pub lower_state : State → String
lower_state ai_active = "ai_active"
lower_state waiting_approval = "waiting_approval"
lower_state human_requested = "human_requested"
lower_state human_active = "human_active"
lower_state ai_paused = "ai_paused"

abbrev pub ownership_block_result : State → Verdict
ownership_block_result state = blocked (String.◌++◌ "ownership_" (lower_state state)) (some state)

abbrev pub action_text : Action → String
action_text ignore = "ignore"
action_text draft = "draft"
action_text Action.reply = "reply"
action_text act = "act"
action_text human = "human"

abbrev mode_text : Mode → String
mode_text live = "live"
mode_text shadow = "shadow"
mode_text simulation = "simulation"

abbrev done_text : Done → String
done_text (did action) = action_text action
done_text (withheld mode) = mode_text mode

-- `result.action`, `result.reason` and `result.model`
abbrev pub verdict_action : Verdict → String
verdict_action (blocked reason state) = "human"
verdict_action (supervised handled) = done_text handled.action

abbrev pub verdict_reason : Verdict → Option String
verdict_reason (blocked reason state) = some reason
verdict_reason (supervised handled) = handled.reason

abbrev pub verdict_model : Verdict → Option Model
verdict_model (blocked reason state) = none
verdict_model (supervised handled) = some handled.model

abbrev verdict_would_action : Verdict → Option String
verdict_would_action (blocked reason state) = none
verdict_would_action (supervised handled) = elim (handled.would_action) [
  | none ↦ none
  | some action ↦ some (action_text action)
]

abbrev model_text : Option Model → (Model → Option String) → Json
model_text none field = Json.null
model_text (some model) field = json_text (field model)

abbrev model_confidence : (Number → String) → Option Model → Json
model_confidence show none = Json.null
model_confidence show (some model) = elim (model.decision.confidence) [
  | none ↦ Json.null
  | some confidence ↦ Json.number (show confidence)
]

-- `if (result.ownershipState) payload.ownershipState = result.ownershipState`
abbrev state_fields : Verdict → Fields
state_fields (blocked reason (some state)) =
    Fields.field "ownershipState" (Json.text (state_text state)) Fields.end
state_fields _ = Fields.end

unfoldable pub decision_payload : (Number → String) → Verdict → Json
decision_payload show verdict =
    let model = verdict_model verdict in
    Json.object (
      Fields.field "action" (Json.text (verdict_action verdict)) (
        Fields.field "wouldAction" (json_text (verdict_would_action verdict)) (
          Fields.field "reason" (json_text (verdict_reason verdict)) (
            Fields.field "intent" (model_text model (λ m. m.decision.intent)) (
              Fields.field "confidence" (model_confidence show model) (
                Fields.field "provider" (model_text model (λ m. m.provider)) (
                  Fields.field "model" (model_text model (λ m. m.model))
                    (state_fields verdict))))))))

-- The input of `deriveDomainEvent`.
unfoldable pub decision_input : (Number → String) → DomainEvent → Verdict → EventInput
decision_input show inbound_event verdict =
    let root = shown_field (or_field inbound_event.idempotency_key inbound_event.event_id) in
    record {
      event_type = string "decision.completed";
      tenant_id = undefined;
      conversation_id = undefined;
      message_id = undefined;
      correlation_id = undefined;
      causation_id = undefined;
      idempotency_key = string (String.◌++◌ root ":decision.completed");
      actor = some (record { type = string "ai"; id = string "supervisor" });
      payload = some (decision_payload show verdict);
    }

unfoldable pub create_decision_domain_event : Backends → DomainEvent → Verdict → Result DomainEvent
create_decision_domain_event backends inbound_event verdict =
    derive_domain_event backends.is_date (some inbound_event)
      (decision_input backends.show_number inbound_event verdict) backends.fresh backends.clock

abbrev pub is_ai_active : State → Bool
is_ai_active ai_active = true
is_ai_active _ = false

-- The block by ownership, if there is one.
abbrev pub block_of : State → Option Verdict
block_of state = if is_ai_active state then none else some (ownership_block_result state)

abbrev pub owned_conversation : Message → DomainEvent → String
owned_conversation message inbound_event = shown_field (
    or_field inbound_event.conversation_id
      (string (String.◌++◌ message.channel (String.◌++◌ ":" message.customer_id))))

abbrev pub block_by_owner : OwnershipBackend → Tenant → String → Task (Option Verdict)
block_by_owner store tenant conversation_id =
    then_run (call (ownership_read tenant.id conversation_id) (store.get tenant.id conversation_id))
      (λ ownership. quiet (ok (block_of ownership.state)))

abbrev pub block_by_control : Option ConversationBackend → Tenant → Message → Task (Option Verdict)
block_by_control none tenant message = quiet (ok none)
block_by_control (some conversations) tenant message = quiet (
    ok (
      if conversations.is_human_controlled tenant.id message.customer_id
      then some (blocked "human_takeover" none)
      else none))

-- Whether the message is kept from the agent.
abbrev pub find_block :
    Option OwnershipBackend → Backends → Tenant → Message → DomainEvent → Task (Option Verdict)
find_block none backends tenant message inbound_event =
    block_by_control backends.conversations tenant message
find_block (some store) backends tenant message inbound_event =
    block_by_owner store tenant (owned_conversation message inbound_event)

-- The orchestrator's calls as deeds.
abbrev pub lifted : Run Handled → Task Verdict
lifted (calls, throws e) = (map orchestrated calls, throws e)
lifted (calls, ok handled) = (map orchestrated calls, ok (supervised handled))

abbrev pub verdict_from : Option Verdict → Backends → Tenant → Message → Task Verdict
verdict_from (some verdict) backends tenant message = quiet (ok verdict)
verdict_from none backends tenant message =
    lifted (handle (backends.supervisor tenant) message tenant none)

-- Whether the orchestrator has not audited it.
abbrev pub is_block_reason : String → Bool
is_block_reason reason = (reason == "human_takeover") || starts_with reason "ownership_"

abbrev pub audits_block : Verdict → Bool
audits_block verdict =
    (verdict_action verdict == "human") && is_block_reason (text_of (verdict_reason verdict))

abbrev pub audit_block : Backends → Tenant → Message → Verdict → DomainEvent → Task (Unit {0})
audit_block backends tenant message verdict event =
    let reason = text_of (verdict_reason verdict) in
    if audits_block verdict
    then call (block_audited tenant message reason event)
        (backends.audit_block tenant message reason event)
    else quiet (ok tt)

-- From the decision event on.
unfoldable pub keep_decision : Backends → Tenant → Message → Verdict → DomainEvent → Task Verdict
keep_decision backends tenant message verdict event =
    then_run (audit_block backends tenant message verdict event) (λ _.
      then_run
        (with_conversations backends (decision_recorded message verdict event)
          (λ c. c.record_decision message verdict event))
        (λ _. then_run (broadcast backends event) (λ _. quiet (ok verdict))))

unfoldable pub settle_decision : Backends → Tenant → Message → DomainEvent → Verdict → Task Verdict
settle_decision backends tenant message inbound_event verdict =
    then_run (quiet (create_decision_domain_event backends inbound_event verdict)) (λ attempted.
      then_run (append_event backends attempted) (keep_decision backends tenant message verdict))

abbrev pub is_tenant : Tenant → Message → DomainEvent → Bool
is_tenant tenant message inbound_event =
    (message.tenant_id == tenant.id) && is_among inbound_event.tenant_id (tenant.id ∷ [])

unfoldable pub check_inbound : Backends → Tenant → Message → Option DomainEvent → Result DomainEvent
check_inbound backends tenant message inbound_event = do
  require (not (is_empty message.id) && not (is_empty tenant.id))
      "inbound_decision_identity_required"
  event ← assert_domain_event backends.is_date inbound_event
  require (is_tenant tenant message event) "inbound_decision_tenant_mismatch"
  ok event

unfoldable pub handle_inbound_decision :
    Backends → Tenant → Message → Option DomainEvent → Task Verdict
handle_inbound_decision backends tenant message inbound_event =
    then_run (quiet (check_inbound backends tenant message inbound_event)) (λ event.
      then_run (find_block backends.ownership backends tenant message event) (λ block.
        then_run (verdict_from block backends tenant message)
          (settle_decision backends tenant message event)))

-- The checks of `processInboundJob`.
unfoldable pub check_job : Backends → Message → Option DomainEvent → Result DomainEvent
check_job backends message inbound_event = do
  require (not (is_empty message.id) && not (is_empty message.tenant_id))
      "durable_job_message_invalid"
  event ← assert_domain_event backends.is_date inbound_event
  require (is_among event.tenant_id (message.tenant_id ∷ [])) "durable_job_tenant_mismatch"
  ok event

abbrev pub handle_for : Option Tenant → Backends → Message → DomainEvent → Task Verdict
handle_for none backends message event = quiet (throws "durable_job_tenant_not_found")
handle_for (some tenant) backends message event =
    handle_inbound_decision backends tenant message (some event)

-- `createProcessInboundJobHandler`; `find_by_id` is the tenant store's.
unfoldable pub process_inbound_job :
    Backends → (String → Option Tenant) → Message → Option DomainEvent → Task Verdict
process_inbound_job backends find_by_id message inbound_event =
    then_run (quiet (check_job backends message inbound_event))
      (handle_for (find_by_id message.tenant_id) backends message)
