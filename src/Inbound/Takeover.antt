-- ===== src/Inbound/Takeover.antt =====
-- src/app.js, `forceHumanOwnership` and `processLinkedDeviceOutbound`: a text that was sent from the
-- phone is an echo of one of ours, or a person takes the conversation over.
use Prim.Native.String
use whatsapp_ai_supervisor.Common.{
  Bool, Option, Result, String, [], eqb, false, if◌then◌else◌, is_empty, is_text, none, not, ok,
  some, text_of, throws, true, ℕ, ◌&&◌, ◌==◌, ◌>>=◌, ◌||◌, ◌∷◌,
}
use whatsapp_ai_supervisor.Common.Traces.{call, continue_run, quiet, then_run}
use whatsapp_ai_supervisor.Common.Numbers.{Number, of_natural}
use whatsapp_ai_supervisor.Common.Json.{Fields, Json}
use whatsapp_ai_supervisor.Messages.{Tenant}
use whatsapp_ai_supervisor.DomainEvent.{
  DomainEvent, EventInput, create_domain_event, derive_domain_event, shown_field, string, undefined,
}
use whatsapp_ai_supervisor.Ownership.{Ownership, State, human_active, same_state, state_text}
use whatsapp_ai_supervisor.OwnershipStore.{TransitionInput}
use whatsapp_ai_supervisor.Attribution.{Attribution}
use whatsapp_ai_supervisor.Inbound.{
  AttributionBackend, Backends, Observation, OwnershipBackend, Task, append_event, attribution_read,
  broadcast, claim_released, claim_taken, control_set, echo_consumed, json_text, manual_recorded,
  message_conversation, ownership_changed, ownership_read, with_conversations,
}
use whatsapp_ai_supervisor.Inbound.Receive.{joined}

abbrev pub device_actor : Observation → String
device_actor observation = joined "linked-device" observation.session_id

unfoldable pub outbound_input : Observation → Tenant → String → EventInput
outbound_input observation tenant conversation_id = record {
  event_type = string "human.outbound_observed";
  tenant_id = string tenant.id;
  conversation_id = string conversation_id;
  message_id = string observation.id;
  correlation_id = undefined;
  causation_id = undefined;
  idempotency_key = string (
      joined tenant.id
        (joined observation.session_id (joined observation.id "human.outbound_observed")));
  actor = some (record { type = string "operator"; id = string (device_actor observation) });
  payload = some (
      Json.object (
        Fields.field "channel" (Json.text observation.channel) (
          Fields.field "transport" (Json.text observation.transport) (
            Fields.field "sessionId" (Json.text observation.session_id) (
              Fields.field "customerId" (Json.text observation.customer_id) (
                Fields.field "customerName" (json_text observation.customer_name) (
                  Fields.field "text" (Json.text (text_of observation.text)) (
                    Fields.field "platformMessageId" (Json.text observation.platform_message_id)
                      Fields.end))))))));
}

unfoldable pub create_human_outbound_event : Backends → Observation → Tenant → Result DomainEvent
create_human_outbound_event backends observation tenant =
    message_conversation observation.channel observation.customer_id >>= (λ conversation_id.
      create_domain_event backends.is_date (outbound_input observation tenant conversation_id)
        backends.fresh backends.clock)

-- `transitionInput()`, at the version that was read.
unfoldable pub takeover_input : Observation → Tenant → String → Ownership → TransitionInput
takeover_input observation tenant conversation_id current = record {
  tenant_id = some tenant.id;
  conversation_id = some conversation_id;
  command = some "manual_takeover";
  transition_id =
      some (joined (device_actor observation) (joined observation.platform_message_id "takeover"));
  actor = some (joined "operator" (device_actor observation));
  reason_code = some "manual_outbound_observed";
  expected_version = some (of_natural current.version);
}

pub record Forced : Type 0 where
  pub previous : Ownership
  pub current : Ownership
  pub changed : Bool

abbrev pub forced : Ownership → Ownership → Forced
forced previous next = record {
  previous = previous;
  current = next;
  changed = not (same_state next.state previous.state) || not (eqb next.version previous.version);
}

abbrev pub is_human_active : State → Bool
is_human_active human_active = true
is_human_active _ = false

-- After a conflict: the conversation is read again, and taken over unless a person has it.
abbrev pub force_again : OwnershipBackend → Observation → Tenant → String → Ownership → Task Forced
force_again store observation tenant conversation_id current =
    let input = takeover_input observation tenant conversation_id current in
    if is_human_active current.state
    then quiet (ok (record { previous = current; current = current; changed = false }))
    else then_run (call (ownership_changed input) (store.transition_again input))
        (λ next. quiet (ok (forced current next)))

abbrev pub is_conflict : String → Bool
is_conflict message = message == "ownership_version_conflict"

-- The `try` and its `catch`, by what the transition answers.
abbrev pub after_transition :
    OwnershipBackend → Observation → Tenant → String → Ownership → Result Ownership → Task Forced
after_transition store observation tenant conversation_id current (ok next) =
    quiet (ok (forced current next))
after_transition store observation tenant conversation_id current (throws message) =
    if is_conflict message
    then (then_run
        (call (ownership_read tenant.id conversation_id)
          (store.get_again tenant.id conversation_id))
        (force_again store observation tenant conversation_id))
    else quiet (throws message)

unfoldable pub force_with : OwnershipBackend → Observation → Tenant → String → Task Forced
force_with store observation tenant conversation_id =
    then_run (call (ownership_read tenant.id conversation_id) (store.get tenant.id conversation_id))
      (λ current.
        let input = takeover_input observation tenant conversation_id current in
        then_run (call (ownership_changed input) (ok tt)) (λ _.
          after_transition store observation tenant conversation_id current
            (store.transition input)))

abbrev pub force_by : Option OwnershipBackend → Observation → Tenant → Task Forced
force_by none observation tenant = quiet (throws "ownership_store_required")
force_by (some store) observation tenant =
    then_run (quiet (message_conversation observation.channel observation.customer_id))
      (force_with store observation tenant)

unfoldable pub force_human_ownership : Backends → Observation → Tenant → Task Forced
force_human_ownership backends observation tenant = force_by backends.ownership observation tenant

-- The status and the body of the answer.
pub data Outcome : Type 0 where
  echo : (origin : Option String) → Outcome
  echo_pending duplicate_outbound : Outcome
  observed : (state : State) (version : ℕ) → Outcome

-- The input of the event of a change of owner.
unfoldable pub ownership_changed_input :
    (Number → String) → Observation → DomainEvent → Forced → EventInput
ownership_changed_input show observation human_event ownership = record {
  event_type = string "conversation.ownership_changed";
  tenant_id = undefined;
  conversation_id = undefined;
  message_id = undefined;
  correlation_id = undefined;
  causation_id = undefined;
  idempotency_key = string (joined (shown_field human_event.idempotency_key) "ownership_changed");
  actor = some (record { type = string "operator"; id = string (device_actor observation) });
  payload = some (
      Json.object (
        Fields.field "previousState" (Json.text (state_text ownership.previous.state)) (
          Fields.field "state" (Json.text (state_text ownership.current.state)) (
            Fields.field "version" (Json.number (show (of_natural ownership.current.version)))
              (Fields.field "reasonCode" (json_text ownership.current.reason_code) Fields.end)))));
}

abbrev pub announce_change : Bool → Backends → Observation → DomainEvent → Forced → Task (Unit {0})
announce_change false backends observation human_event ownership = quiet (ok tt)
announce_change true backends observation human_event ownership =
    then_run
      (quiet (
        derive_domain_event backends.is_date (some human_event)
          (ownership_changed_input backends.show_number observation human_event ownership)
          backends.fresh_later backends.clock))
      (λ attempted. then_run (append_event backends attempted) (broadcast backends))

-- What follows the change of owner in the `try`.
unfoldable pub keep_takeover : Backends → Observation → Tenant → DomainEvent → Forced → Task Outcome
keep_takeover backends observation tenant human_event ownership =
    then_run
      (with_conversations backends (manual_recorded tenant observation human_event)
        (λ c. c.record_manual_outbound observation human_event))
      (λ _.
        then_run
          (with_conversations backends (control_set tenant observation human_event)
            (λ c. c.set_control observation human_event))
          (λ _. then_run (broadcast backends human_event) (λ _.
            then_run (announce_change ownership.changed backends observation human_event ownership)
              (λ _. quiet (ok (observed ownership.current.state ownership.current.version))))))

-- The body of the `try`.
unfoldable pub take_over : Backends → Observation → Tenant → Task Outcome
take_over backends observation tenant =
    then_run (quiet (create_human_outbound_event backends observation tenant)) (λ attempted.
      then_run (append_event backends attempted) (λ human_event.
        then_run (force_human_ownership backends observation tenant)
          (keep_takeover backends observation tenant human_event)))

-- `await claims.release(key); throw error`
abbrev pub release_and_throw : Backends → String → Task Outcome → Task Outcome
release_and_throw backends key (deeds, ok outcome) = (deeds, ok outcome)
release_and_throw backends key (deeds, throws message) =
    continue_run deeds
      (then_run (call (claim_released key) (backends.release key)) (λ _. quiet (throws message)))

unfoldable pub outbound_key : Observation → Tenant → String
outbound_key observation tenant =
    joined tenant.id
      (joined "human-outbound" (joined observation.session_id observation.platform_message_id))

abbrev pub take_over_if : Bool → Backends → Observation → Tenant → Task Outcome
take_over_if false backends observation tenant = quiet (ok duplicate_outbound)
take_over_if true backends observation tenant =
    release_and_throw backends (outbound_key observation tenant)
      (take_over backends observation tenant)

-- The worker says that the text is ours, and its attribution is not kept yet.
abbrev pub is_pending : Observation → Bool
is_pending observation =
    is_text observation.origin_hint "worker_api"
    && not (is_empty (text_of observation.api_send_operation_id))

unfoldable pub process_unattributed : Backends → Observation → Tenant → Task Outcome
process_unattributed backends observation tenant =
    let key = outbound_key observation tenant in
    if is_pending observation
    then quiet (ok echo_pending)
    else then_run (call (claim_taken key) (backends.claim key))
        (λ claimed. take_over_if claimed backends observation tenant)

-- An error of `consumeEcho` is dropped. The attribution of the text, and none where there is none or the store throws.
abbrev pub found_attribution : Result (Option Attribution) → Option Attribution
found_attribution (ok found) = found
found_attribution (throws message) = none

abbrev pub process_attributed : Option Attribution → Backends → Observation → Tenant → Task Outcome
process_attributed none backends observation tenant =
    process_unattributed backends observation tenant
process_attributed (some attribution) backends observation tenant = (
  echo_consumed tenant observation ∷ [],
  ok (echo (some (String.◌++◌ (text_of attribution.origin) "_echo"))),
)

abbrev pub process_with : Option AttributionBackend → Backends → Observation → Tenant → Task Outcome
process_with none backends observation tenant = process_unattributed backends observation tenant
process_with (some store) backends observation tenant =
    continue_run (attribution_read tenant observation ∷ [])
      (process_attributed (found_attribution (store.find observation)) backends observation tenant)

unfoldable pub process_linked_device_outbound : Backends → Observation → Tenant → Task Outcome
process_linked_device_outbound backends observation tenant =
    process_with backends.attributions backends observation tenant
