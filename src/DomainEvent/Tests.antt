-- ===== src/DomainEvent/Tests.antt =====
-- Runs of domain-event.js.
use whatsapp_ai_supervisor.Common.{
  Bool, String, any, is_space, none, ok, refl, some, throws, trim, true, ◌≡◌,
}
use whatsapp_ai_supervisor.DomainEvent.{
  DomainEvent, EventInput, assert_actor, assert_actor_id, assert_domain_event, check_domain_event,
  check_kind, check_origin, create_domain_event, derive_domain_event, derived_input, new_event,
  nothing, optional_string, required_string, string, undefined,
}
use whatsapp_ai_supervisor.DomainEvent.Laws.{DerivedFrom, derive_domain_event-DerivedFrom}

abbrev any_date : String → Bool
any_date s = true

abbrev inbound : EventInput
inbound = record {
  event_type = string "message.received";
  tenant_id = string "shop";
  conversation_id = string "whatsapp:1";
  message_id = string "m1";
  correlation_id = undefined;
  causation_id = undefined;
  idempotency_key = string "shop:m1";
  actor = some (record { type = string "connector"; id = string "cloud" });
  payload = none;
}

abbrev received : DomainEvent
received = new_event any_date inbound "e1" "2026-01-01"

abbrev decision : EventInput
decision = record inbound {
  event_type = string "decision.completed";
  conversation_id = nothing;
  message_id = undefined;
}

abbrev decided : DomainEvent
decided = new_event any_date (derived_input any_date received decision) "e2" "2026-01-02"

code : Unit {0}
unfolding required_string optional_string assert_actor_id assert_actor check_kind check_origin
    check_domain_event assert_domain_event create_domain_event derive_domain_event any trim is_space
code = tt

creates : create_domain_event any_date inbound " e1" "2026-01-01" ≡ ok received
unfolding code
creates = refl

derives : derive_domain_event any_date (some received) decision "e2" "2026-01-02" ≡ ok decided
unfolding code
derives = refl

refuses_type :
    create_domain_event any_date (record inbound { event_type = string "message.sent" }) "e1" "now"
    ≡ throws "unsupported_domain_event_type: message.sent"
unfolding code
refuses_type = refl

derive_domain_event-DerivedFrom_example : DerivedFrom any_date received decision decided
derive_domain_event-DerivedFrom_example =
    derive_domain_event-DerivedFrom any_date received decision "e2" "2026-01-02" decided derives
