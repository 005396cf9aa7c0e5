-- ===== src/Inbound.antt =====
-- src/jobs/inbound-decision-handler.js and the message handling of src/app.js: what both work with.
-- The stores and services are an argument, by what they answer on this run.
pub mod Decision
pub mod Gate
pub mod Receive
pub mod Claims
pub mod Settled
pub mod Takeover
pub mod Samples
mod Tests
use Prim.Native.String
use whatsapp_ai_supervisor.Common.{
  Bool, Option, Result, String, if◌then◌else◌, is_empty, none, not, ok, require, some, throws, trim,
  ℕ, ◌&&◌, ◌>>=◌, ◌>>◌,
}
use whatsapp_ai_supervisor.Common.Traces.{Trace, call, quiet}
use whatsapp_ai_supervisor.Common.Numbers.{Number}
use whatsapp_ai_supervisor.Common.Json.{Json}
use whatsapp_ai_supervisor.Messages.{Call, Handled, Message, Services, Tenant}
use whatsapp_ai_supervisor.DomainEvent.{DomainEvent}
use whatsapp_ai_supervisor.Ownership.{Ownership, State}
use whatsapp_ai_supervisor.OwnershipStore.{TransitionInput}
use whatsapp_ai_supervisor.Attribution.{Attribution}

-- The result of `handleInboundDecision`: kept from the agent, or the orchestrator's.
pub data Verdict : Type 0 where
  blocked : (reason : String) (ownership_state : Option State) → Verdict
  supervised : Handled → Verdict

-- A message that the person typed on the linked device.
pub record Observation : Type 0 where
  pub id : String
  pub platform_message_id : String
  pub channel : String
  pub transport : String
  pub session_id : String
  pub customer_id : String
  pub customer_name : Option String
  pub text : Option String
  pub origin_hint : Option String
  pub api_send_operation_id : Option String

-- What is put into the job queue.
pub record QueuedMessage : Type 0 where
  pub message : Message
  pub inbound_event : DomainEvent

pub record Enqueued : Type 0 where
  pub tenant_id : String
  pub type : String
  pub payload : QueuedMessage
  pub idempotency_key : String
  pub max_attempts : ℕ

-- What was done, in order.
pub data Deed : Type 0 where
  claim_taken claim_released : (key : String) → Deed
  event_appended event_broadcast : DomainEvent → Deed
  inbound_recorded : Message → DomainEvent → Deed
  job_enqueued : Enqueued → Deed
  orchestrated : Call → Deed
  block_audited : Tenant → Message → (reason : String) → DomainEvent → Deed
  decision_recorded : Message → Verdict → DomainEvent → Deed
  ownership_read : (tenant_id conversation_id : String) → Deed
  ownership_changed : TransitionInput → Deed
  manual_recorded : Tenant → Observation → DomainEvent → Deed
  control_set : Tenant → Observation → DomainEvent → Deed
  attribution_read echo_consumed : Tenant → Observation → Deed

pub record OwnershipBackend : Type 0 where
  pub get : String → String → Result Ownership
  pub get_again : String → String → Result Ownership
  pub transition : TransitionInput → Result Ownership
  pub transition_again : TransitionInput → Result Ownership

pub record ConversationBackend : Type 0 where
  pub is_human_controlled : String → String → Bool
  pub record_inbound : Message → DomainEvent → Result (Unit {0})
  pub record_decision : Message → Verdict → DomainEvent → Result (Unit {0})
  pub record_manual_outbound : Observation → DomainEvent → Result (Unit {0})
  pub set_control : Observation → DomainEvent → Result (Unit {0})

pub record AttributionBackend : Type 0 where
  pub find : Observation → Result (Option Attribution)

-- `fresh` is the id that the next event gets, `clock` what `now()` gives, `show_number` the JSON of a
-- number. `append` is `domainEventStore.append`, which may give nothing.
pub record Backends : Type 0 where
  pub fresh : String
  pub fresh_later : String
  pub clock : String
  pub is_date : String → Bool
  pub show_number : Number → String
  pub claim : String → Result Bool
  pub release : String → Result (Unit {0})
  pub append : Option (DomainEvent → Result (Option DomainEvent))
  pub broadcasts : Bool
  pub enqueue : Option (Enqueued → Result (Unit {0}))
  pub ownership : Option OwnershipBackend
  pub conversations : Option ConversationBackend
  pub attributions : Option AttributionBackend
  pub audit_block : Tenant → Message → String → DomainEvent → Result (Unit {0})
  pub supervisor : Tenant → Services

abbrev pub Task : Type 0 → Type 0
Task A = Trace Deed A

-- `await domainEventStore?.append(event) ?? event`
abbrev pub stored : Result (Option DomainEvent) → DomainEvent → Result DomainEvent
stored (throws e) event = throws e
stored (ok none) event = ok event
stored (ok (some kept)) event = ok kept

abbrev pub append_with :
    Option (DomainEvent → Result (Option DomainEvent)) → DomainEvent → Task DomainEvent
append_with none event = quiet (ok event)
append_with (some append) event = call (event_appended event) (stored (append event) event)

abbrev pub append_event : Backends → DomainEvent → Task DomainEvent
append_event backends event = append_with backends.append event

-- `sseBroadcaster?.broadcastDomainEvent?.(event)`
abbrev pub broadcast : Backends → DomainEvent → Task (Unit {0})
broadcast backends event =
    if backends.broadcasts then call (event_broadcast event) (ok tt) else quiet (ok tt)

-- `conversationStore?.method(…)`
abbrev pub with_store :
    Option ConversationBackend → Deed → (ConversationBackend → Result (Unit {0})) → Task (Unit {0})
with_store none deed method = quiet (ok tt)
with_store (some conversations) deed method = call deed (method conversations)

abbrev pub with_conversations :
    Backends → Deed → (ConversationBackend → Result (Unit {0})) → Task (Unit {0})
with_conversations backends deed method = with_store backends.conversations deed method

unfoldable pub message_conversation : String → String → Result String
message_conversation channel customer_id = do
  require (not (is_empty (trim channel)) && not (is_empty (trim customer_id)))
      "conversation_identity_required"
  ok (String.◌++◌ (trim channel) (String.◌++◌ ":" (trim customer_id)))

-- A JSON text, or null.
abbrev pub json_text : Option String → Json
json_text none = Json.null
json_text (some s) = Json.text s
