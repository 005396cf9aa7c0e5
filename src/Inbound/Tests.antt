-- ===== src/Inbound/Tests.antt =====
-- Runs of inbound-decision-handler.js and of the message handling of app.js.
use whatsapp_ai_supervisor.DomainEvent
use whatsapp_ai_supervisor.Common.{
  [], any, filter, find, is_empty, is_space, length, none, ok, refl, some, throws, trim, true, ◌∷◌,
  ◌≡◌,
}
use whatsapp_ai_supervisor.Common.Numbers.{eight_tenths, of_natural, one, same_number, units}
use whatsapp_ai_supervisor.Messages.{Message, Services, Tenant}
use whatsapp_ai_supervisor.DomainEvent.{
  DomainEvent, assert_actor, assert_actor_id, assert_domain_event, check_domain_event, check_kind,
  check_origin, create_domain_event, derive_domain_event, new_event, string, undefined,
}
use whatsapp_ai_supervisor.Ownership.{ai_active, human_active}
use whatsapp_ai_supervisor.Permission.{
  apply_model_ceiling, assert_autonomy_action, evaluate_permission, evaluate_v1, v1_matched,
}
use whatsapp_ai_supervisor.Orchestrator.{
  available_capabilities, build_conversation_context, enriched, finish, handle, handle_decision,
  perform, record_agent_attribution, resolve_execution_mode, send_reply,
}
use whatsapp_ai_supervisor.Inbound.{Backends, Observation, claim_taken, message_conversation}
use whatsapp_ai_supervisor.Inbound.Samples.{contended, no_services, owned, shop, stores}
use whatsapp_ai_supervisor.Inbound.Decision.{
  check_inbound, create_decision_domain_event, decision_input, decision_payload,
  handle_inbound_decision, keep_decision, settle_decision,
}
use whatsapp_ai_supervisor.Inbound.Receive.{
  create_inbound_domain_event, enqueued_for, failed_report, inbound_input, joined, process_claimed,
  process_message, process_new, processed_report, release_claim,
}
use whatsapp_ai_supervisor.Inbound.Settled.{
  Settled, process_message-Settled, process_message-unidentified,
}
use whatsapp_ai_supervisor.Inbound.Takeover.{
  create_human_outbound_event, force_human_ownership, force_with, keep_takeover, observed,
  outbound_input, outbound_key, ownership_changed_input, process_linked_device_outbound,
  process_unattributed, take_over, takeover_input,
}

abbrev question : Message
question = record {
  id = "m1";
  tenant_id = "shop";
  channel = "whatsapp";
  customer_id = "201";
  customer_name = none;
  text = some "Open?";
  context = none;
}

abbrev typed : Observation
typed = record {
  id = "p1";
  platform_message_id = "p1";
  channel = "whatsapp";
  transport = "linked-device";
  session_id = "s1";
  customer_id = "201";
  customer_name = none;
  text = some "We open at nine.";
  origin_hint = none;
  api_send_operation_id = none;
}

code : Unit {0}
unfolding message_conversation decision_payload decision_input create_decision_domain_event
    keep_decision settle_decision check_inbound handle_inbound_decision inbound_input
    create_inbound_domain_event enqueued_for process_claimed release_claim process_new
    process_message outbound_input create_human_outbound_event takeover_input force_with
    force_human_ownership ownership_changed_input keep_takeover take_over outbound_key
    process_unattributed process_linked_device_outbound DomainEvent.required_string
    DomainEvent.optional_string assert_actor_id assert_actor check_kind check_origin
    check_domain_event assert_domain_event create_domain_event derive_domain_event any trim is_space
    enriched build_conversation_context handle handle_decision resolve_execution_mode
    available_capabilities filter of_natural units same_number evaluate_permission evaluate_v1
    v1_matched apply_model_ceiling assert_autonomy_action perform send_reply
    record_agent_attribution finish find one eight_tenths
code = tt

-- The conversation is a person's: the agent is not asked.
blocks : (process_message stores question shop "cloud").1 ≡ ok (processed_report 0)
unfolding code
blocks = refl

-- With the agent as owner the model is asked; it fails, and the claim is given back.
abbrev agents : Backends
agents = record stores { ownership = some (record contended { get = λ t c. ok (owned ai_active) }) }

gives_back : (process_message agents question shop "cloud").1 ≡ ok (failed_report "m1")
unfolding code
gives_back = refl

takes_over : (process_linked_device_outbound stores typed shop).1 ≡ ok (observed human_active 3)
unfolding code
takes_over = refl

-- The agent has the conversation, the model answers, and the policy lets it reply by default.
abbrev greeter : Tenant
greeter = record shop { policy = record shop.policy { default_action = some "reply" } }

abbrev answering : Services
answering = record no_services {
  decide = λ m r. ok (record {
    decision = record { intent = some "hours"; confidence = some one; requested_action = none };
    reply = some "At nine.";
    thinking = none;
    proactive_offer = none;
    model = none;
    provider = none;
  });
  send_text = λ to body id. ok (record {
    transport = none;
    platform_message_id = none;
    session_id = none;
    message_id = some "p1";
  });
}

abbrev replying : Backends
replying = record agents { supervisor = λ t. answering }

abbrev asked_event : DomainEvent
asked_event =
    new_event (λ s. true)
      (record {
        event_type = string "message.received";
        tenant_id = string "shop";
        conversation_id = string "whatsapp:201";
        message_id = string "m1";
        correlation_id = undefined;
        causation_id = undefined;
        idempotency_key = string "shop:m1";
        actor = some (record { type = string "connector"; id = string "cloud" });
        payload = none;
      })
      "e1" "2026-01-01"

-- The owner is read, the model asked, the text sent, the audit entry appended and the decision told.
replying_deeds : length (handle_inbound_decision replying greeter question (some asked_event)).0 ≡ 5
unfolding code
replying_deeds = refl

process_message-Settled_example :
    Settled
      (joined "shop" "m1")
      "m1"
      (ok true)
      (process_message agents question shop "cloud").0
      (failed_report "m1")
process_message-Settled_example =
    process_message-Settled agents question shop "cloud" (failed_report "m1") gives_back

blank : is_empty (trim " ") ≡ true
unfolding code
blank = refl

process_message-unidentified_example :
    process_message agents (record question { customer_id = " " }) shop "cloud"
    ≡ (claim_taken (joined "shop" "m1") ∷ [], throws "conversation_identity_required")
process_message-unidentified_example =
    process_message-unidentified agents (record question { customer_id = " " }) shop "cloud" refl
      blank
