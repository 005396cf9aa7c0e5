-- ===== src/DomainEvent.antt =====
-- src/domain/domain-event.js: the events by which the parts of the program tell what happened. An
-- event of another program may have anything in a field, so a field is a `Field`.
pub mod Laws
mod Tests
use Prim.Native.String
use whatsapp_ai_supervisor.Common.{
  Bool, List, Option, Result, String, [], any, false, if◌then◌else◌, is_empty, is_some, none, ok,
  require, some, throws, trim, true, ◌==◌, ◌>>=◌, ◌>>◌, ◌∷◌,
}
use whatsapp_ai_supervisor.Common.Json.{Json}

-- A property of a JavaScript object. `strange` is a value that is neither missing, nor null, nor a
-- text, nor the number 1, by what `String` makes of it.
pub data Field : Type 0 where
  undefined nothing one : Field
  string strange : String → Field

pub record Actor : Type 0 where
  pub type : Field
  pub id : Field

pub record DomainEvent : Type 0 where
  pub event_id : Field
  pub event_type : Field
  pub schema_version : Field
  pub occurred_at : Field
  pub tenant_id : Field
  pub conversation_id : Field
  pub message_id : Field
  pub correlation_id : Field
  pub causation_id : Field
  pub idempotency_key : Field
  -- `none` is anything but an object
  pub actor : Option Actor
  -- `none` is no property of that name, `some none` one that is undefined
  pub payload : Option (Option Json)

-- What `createDomainEvent` takes.
pub record EventInput : Type 0 where
  pub event_type : Field
  pub tenant_id : Field
  pub conversation_id : Field
  pub message_id : Field
  pub correlation_id : Field
  pub causation_id : Field
  pub idempotency_key : Field
  pub actor : Option Actor
  pub payload : Option Json

abbrev pub actor_types : List String
actor_types = "customer" ∷ "ai" ∷ "operator" ∷ "connector" ∷ "scheduler" ∷ []

abbrev pub event_types : List String
event_types =
    "message.received" ∷ "message.normalized" ∷ "decision.requested" ∷ "decision.completed"
    ∷ "policy.evaluated" ∷ "reply.requested" ∷ "reply.sent" ∷ "reply.failed" ∷ "tool.requested"
    ∷ "tool.approved" ∷ "tool.started" ∷ "tool.completed" ∷ "tool.failed" ∷ "human.handoff_started"
    ∷ "human.handoff_ended" ∷ "human.outbound_observed" ∷ "human.handoff_requested"
    ∷ "human.handoff_released" ∷ "conversation.ownership_changed" ∷ "connector.state_changed"
    ∷ "browser.session_started" ∷ "browser.step_completed" ∷ "browser.session_failed" ∷ []

-- `set.has(field)`
abbrev pub is_among : Field → List String → Bool
is_among (string s) names = any (λ name. name == s) names
is_among _ names = false

-- `a ?? b`
abbrev pub or_field : Field → Field → Field
or_field undefined other = other
or_field nothing other = other
or_field field other = field

-- `String(value ?? '')`
abbrev pub shown_field : Field → String
shown_field undefined = ""
shown_field nothing = ""
shown_field one = "1"
shown_field (string s) = s
shown_field (strange s) = s

abbrev pub is_one : Field → Bool
is_one one = true
is_one _ = false

-- The text of a field that is one and is not blank.
abbrev pub written : Field → Option String
written (string s) = if is_empty (trim s) then none else some (trim s)
written _ = none

unfoldable pub required_string : Field → String → Result String
required_string value field = elim (written value) [
  | none ↦ throws (String.◌++◌ "domain_event_" (String.◌++◌ field "_required"))
  | some s ↦ ok s
]

unfoldable pub optional_string : Field → String → Result (Option String)
optional_string undefined field = ok none
optional_string nothing field = ok none
optional_string value field = do normalized ← required_string value field; ok (some normalized)

unfoldable pub assert_actor_id : Field → Result (Unit {0})
assert_actor_id undefined = ok tt
assert_actor_id value = do _ ← required_string value "actor_id"; ok tt

unfoldable pub assert_actor : Option Actor → Result (Unit {0})
assert_actor none = throws "domain_event_actor_required"
assert_actor (some actor) = do
  require (is_among actor.type actor_types)
      (String.◌++◌ "unsupported_domain_actor_type: " (shown_field actor.type))
  assert_actor_id actor.id

-- Whether `Date.parse` gives a finite number is an argument.
module _ (is_date : String → Bool) where
  abbrev pub dates : Field → Bool
  dates (string s) = is_date s
  dates _ = false

  unfoldable pub check_kind : DomainEvent → Result (Unit {0})
  check_kind event = do
    _ ← required_string event.event_id "eventId"
    require (is_among event.event_type event_types)
        (String.◌++◌ "unsupported_domain_event_type: " (shown_field event.event_type))
    require (is_one event.schema_version)
        (String.◌++◌ "unsupported_domain_event_schema_version: " (shown_field event.schema_version))
    _ ← required_string event.occurred_at "occurredAt"
    require (dates event.occurred_at) "domain_event_occurredAt_invalid"

  -- The rest of `assertDomainEvent`, from the tenant on.
  unfoldable pub check_origin : DomainEvent → Result (Unit {0})
  check_origin event = do
    _ ← required_string event.tenant_id "tenantId"
    _ ← required_string event.correlation_id "correlationId"
    _ ← optional_string event.conversation_id "conversationId"
    _ ← optional_string event.message_id "messageId"
    _ ← optional_string event.causation_id "causationId"
    _ ← optional_string event.idempotency_key "idempotencyKey"
    assert_actor event.actor
    require (is_some event.payload) "domain_event_payload_required"

  unfoldable pub check_domain_event : DomainEvent → Result (Unit {0})
  check_domain_event event = do check_kind event; check_origin event

  -- `none` is anything but an object.
  unfoldable pub assert_domain_event : Option DomainEvent → Result DomainEvent
  assert_domain_event none = throws "domain_event_required"
  assert_domain_event (some event) = do check_domain_event event; ok event

  abbrev pub new_event : EventInput → String → String → DomainEvent
  new_event input event_id now = record {
    event_id = string event_id;
    event_type = input.event_type;
    schema_version = one;
    occurred_at = string now;
    tenant_id = input.tenant_id;
    conversation_id = input.conversation_id;
    message_id = input.message_id;
    correlation_id = or_field input.correlation_id (string event_id);
    causation_id = input.causation_id;
    idempotency_key = input.idempotency_key;
    actor = input.actor;
    payload = some input.payload;
  }

  -- `id` is what `idFactory` gives and `now` what the clock does.
  unfoldable pub create_domain_event : EventInput → String → String → Result DomainEvent
  create_domain_event input id now = do
    event_id ← required_string (string id) "eventId"
    assert_domain_event (some (new_event input event_id now))

  -- What `deriveDomainEvent` takes from its input.
  abbrev pub derived_input : DomainEvent → EventInput → EventInput
  derived_input parent input = record {
    event_type = input.event_type;
    tenant_id = parent.tenant_id;
    conversation_id = or_field input.conversation_id parent.conversation_id;
    message_id = or_field input.message_id parent.message_id;
    correlation_id = parent.correlation_id;
    causation_id = parent.event_id;
    idempotency_key = input.idempotency_key;
    actor = input.actor;
    payload = input.payload;
  }

  unfoldable pub derive_domain_event :
      Option DomainEvent → EventInput → String → String → Result DomainEvent
  derive_domain_event parent input id now = do
    event ← assert_domain_event parent
    create_domain_event (derived_input event input) id now
