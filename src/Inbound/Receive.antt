-- ===== src/Inbound/Receive.antt =====
-- src/app.js, `processMessage`: a message is claimed, kept, and queued or decided on.
use Prim.Native.String
use whatsapp_ai_supervisor.Common.{
  Bool, List, Option, Result, String, [], false, none, ok, some, text_of, true, ℕ, ◌>>=◌, ◌∷◌,
}
use whatsapp_ai_supervisor.Common.Traces.{call, or_run, quiet, then_run}
use whatsapp_ai_supervisor.Common.Json.{Fields, Json}
use whatsapp_ai_supervisor.Messages.{Message, Tenant}
use whatsapp_ai_supervisor.DomainEvent.{
  DomainEvent, EventInput, create_domain_event, or_field, shown_field, string, undefined,
}
use whatsapp_ai_supervisor.Inbound.{
  Backends, Enqueued, Task, append_event, broadcast, claim_released, claim_taken, inbound_recorded,
  job_enqueued, json_text, message_conversation, with_conversations,
}
use whatsapp_ai_supervisor.Inbound.Decision.{handle_inbound_decision}

abbrev pub joined : String → String → String
joined a b = String.◌++◌ a (String.◌++◌ ":" b)

unfoldable pub inbound_input : Message → Tenant → String → String → EventInput
inbound_input message tenant connector_id conversation_id = record {
  event_type = string "message.received";
  tenant_id = string tenant.id;
  conversation_id = string conversation_id;
  message_id = string message.id;
  correlation_id = undefined;
  causation_id = undefined;
  idempotency_key = string (joined tenant.id message.id);
  actor = some (record { type = string "connector"; id = string connector_id });
  payload = some (
      Json.object (
        Fields.field "channel" (Json.text message.channel) (
          Fields.field "customerId" (Json.text message.customer_id) (
            Fields.field "customerName" (json_text message.customer_name)
              (Fields.field "text" (Json.text (text_of message.text)) Fields.end)))));
}

unfoldable pub create_inbound_domain_event :
    Backends → Message → Tenant → String → Result DomainEvent
create_inbound_domain_event backends message tenant connector_id =
    message_conversation message.channel message.customer_id >>= (λ conversation_id.
      create_domain_event backends.is_date
        (inbound_input message tenant connector_id conversation_id) backends.fresh backends.clock)

-- What `processMessage` returns; a failure is the id of its message.
pub record Report : Type 0 where
  pub processed : ℕ
  pub queued : ℕ
  pub duplicates : ℕ
  pub failures : List String

abbrev pub duplicate_report : Report
duplicate_report = record { processed = 0; queued = 0; duplicates = 1; failures = [] }

abbrev pub processed_report : ℕ → Report
processed_report queued = record { processed = 1; queued = queued; duplicates = 0; failures = [] }

abbrev pub failed_report : String → Report
failed_report id = record { processed = 0; queued = 0; duplicates = 0; failures = id ∷ [] }

-- What `jobQueue.enqueue` gets.
unfoldable pub enqueued_for : Tenant → Message → DomainEvent → Enqueued
enqueued_for tenant message event =
    let root =
      shown_field (or_field event.idempotency_key (string (joined tenant.id message.id))) in
    record {
      tenant_id = tenant.id;
      type = "process_inbound";
      payload = record { message = message; inbound_event = event };
      idempotency_key = String.◌++◌ root ":process_inbound";
      max_attempts = 5;
    }

abbrev pub dispatch :
    Option (Enqueued → Result (Unit {0})) → Backends → Tenant → Message → DomainEvent → Task Report
dispatch (some enqueue) backends tenant message event =
    let job = enqueued_for tenant message event in
    then_run (call (job_enqueued job) (enqueue job)) (λ _. quiet (ok (processed_report 1)))
dispatch none backends tenant message event =
    then_run (handle_inbound_decision backends tenant message (some event))
      (λ _. quiet (ok (processed_report 0)))

-- The body of the `try`.
unfoldable pub process_claimed : Backends → Tenant → Message → DomainEvent → Task Report
process_claimed backends tenant message attempted =
    then_run (append_event backends attempted) (λ event.
      then_run
        (with_conversations backends (inbound_recorded message event)
          (λ c. c.record_inbound message event))
        (λ _.
          then_run (broadcast backends event)
            (λ _. dispatch backends.enqueue backends tenant message event)))

unfoldable pub release_claim : Backends → String → String → Task Report
release_claim backends key message_id =
    then_run (call (claim_released key) (backends.release key))
      (λ _. quiet (ok (failed_report message_id)))

-- What follows the claim: the event is made outside of the `try`.
unfoldable pub process_new : Backends → Message → Tenant → String → Task Report
process_new backends message tenant connector_id =
    let normalized = record message { tenant_id = tenant.id } in
    then_run (quiet (create_inbound_domain_event backends normalized tenant connector_id))
      (λ attempted.
        or_run (process_claimed backends tenant normalized attempted)
          (release_claim backends (joined tenant.id message.id) message.id))

abbrev pub process_if : Bool → Backends → Message → Tenant → String → Task Report
process_if false backends message tenant connector_id = quiet (ok duplicate_report)
process_if true backends message tenant connector_id =
    process_new backends message tenant connector_id

unfoldable pub process_message : Backends → Message → Tenant → String → Task Report
process_message backends message tenant connector_id =
    let key = joined tenant.id message.id in
    then_run (call (claim_taken key) (backends.claim key))
      (λ claimed. process_if claimed backends message tenant connector_id)
