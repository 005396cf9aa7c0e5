-- ===== src/DomainEvent/Laws.antt =====
-- src/domain/domain-event.js: what a created event is, and what it has from its parent.
use mathlib.Core.Path.{subst}
use whatsapp_ai_supervisor.Common.{
  >>=-ok_parts, Bool, String, ok, ok-injective, refl, some, sym, ◌≡◌,
}
use whatsapp_ai_supervisor.DomainEvent.{
  DomainEvent, EventInput, Field, assert_domain_event, check_domain_event, check_kind, check_origin,
  create_domain_event, derive_domain_event, derived_input, new_event, nothing, one, or_field,
  required_string, strange, string, undefined, written,
}

module _ (is_date : String → Bool) where
  pub assert_domain_event-ok :
      (event : DomainEvent) {after : DomainEvent}
      → assert_domain_event is_date (some event) ≡ ok after
      → (event ≡ after) × (check_domain_event is_date event ≡ ok tt)
  unfolding assert_domain_event
  assert_domain_event-ok event e =
      let (_, checked, same) = >>=-ok_parts (check_domain_event is_date event) (λ _. ok event) e in
      (ok-injective same, checked)

  -- What the child has from its parent, and what the input adds.
  pub record DerivedFrom (parent : DomainEvent) (input : EventInput) (child : DomainEvent)
      : Type 0 where
    pub same_tenant : child.tenant_id ≡ parent.tenant_id
    pub same_correlation : child.correlation_id ≡ parent.correlation_id
    pub caused : child.causation_id ≡ parent.event_id
    pub conversation : child.conversation_id ≡ or_field input.conversation_id parent.conversation_id
    pub message : child.message_id ≡ or_field input.message_id parent.message_id
    pub type : child.event_type ≡ input.event_type
    pub key : child.idempotency_key ≡ input.idempotency_key
    pub valid : check_domain_event is_date child ≡ ok tt

  pub create_domain_event-ok :
      (input : EventInput) (id now : String) {event : DomainEvent}
      → create_domain_event is_date input id now ≡ ok event
      → (event_id : String) × (required_string (string id) "eventId" ≡ ok event_id)
        × (new_event is_date input event_id now ≡ event)
        × (check_domain_event is_date event ≡ ok tt)
  unfolding create_domain_event
  create_domain_event-ok input id now {event} e =
      let (event_id, named, rest) =
        >>=-ok_parts (required_string (string id) "eventId")
          (λ event_id. assert_domain_event is_date (some (new_event is_date input event_id now)))
          e in
      let (same, checked) = assert_domain_event-ok (new_event is_date input event_id now) rest in
      (event_id, named, same, subst (λ x. check_domain_event is_date x ≡ ok tt) same checked)

  pub or_field-required :
      (value : Field) (name : String) (other : Field) {s : String}
      → required_string value name ≡ ok s
      → or_field value other ≡ value
  unfolding required_string
  or_field-required undefined name other e = cc
  or_field-required nothing name other e = cc
  or_field-required one name other e = cc
  or_field-required (string s) name other e = refl
  or_field-required (strange s) name other e = cc

  pub check_origin-correlation :
      (event : DomainEvent) (other : Field) {x : Unit {0}}
      → check_origin is_date event ≡ ok x
      → or_field event.correlation_id other ≡ event.correlation_id
  unfolding check_origin
  check_origin-correlation event other e =
      let (_, _, rest) = >>=-ok_parts (required_string event.tenant_id "tenantId") _ e in
      let (_, written, _) =
        >>=-ok_parts (required_string event.correlation_id "correlationId") _ rest in
      or_field-required event.correlation_id "correlationId" other written

  pub check_domain_event-correlation :
      (event : DomainEvent) (other : Field)
      → check_domain_event is_date event ≡ ok tt
      → or_field event.correlation_id other ≡ event.correlation_id
  unfolding check_domain_event
  check_domain_event-correlation event other e =
      let (_, _, rest) =
        >>=-ok_parts (check_kind is_date event) (λ _. check_origin is_date event) e in
      check_origin-correlation event other rest

  -- An event derived from a parent belongs to the tenant and the correlation of the parent, names it
  -- as its cause, keeps its conversation and message unless the input gives others, and is itself
  -- an event that is accepted.
  pub derive_domain_event-DerivedFrom :
      (parent : DomainEvent) (input : EventInput) (id now : String) (child : DomainEvent)
      → derive_domain_event is_date (some parent) input id now ≡ ok child
      → DerivedFrom parent input child
  unfolding derive_domain_event
  derive_domain_event-DerivedFrom parent input id now child e =
      let (event, accepted, created) =
        >>=-ok_parts (assert_domain_event is_date (some parent))
          (λ event. create_domain_event is_date (derived_input is_date event input) id now) e in
      let (same, checked) = assert_domain_event-ok parent accepted in
      let (event_id, _, made, valid) =
        create_domain_event-ok (derived_input is_date event input) id now created in
      let made_here : new_event is_date (derived_input is_date parent input) event_id now ≡ child =
        subst (λ x. new_event is_date (derived_input is_date x input) event_id now ≡ child)
          (sym same) made in
      subst (DerivedFrom parent input) made_here (record {
        same_tenant = refl;
        same_correlation = check_domain_event-correlation parent (string event_id) checked;
        caused = refl;
        conversation = refl;
        message = refl;
        type = refl;
        key = refl;
        valid = subst (λ x. check_domain_event is_date x ≡ ok tt) (sym made_here) valid;
      })
