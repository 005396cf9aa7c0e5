-- ===== src/Orchestrator/Tests.antt =====
-- Runs of orchestrator.js.
use whatsapp_ai_supervisor.Common.{
  All, [], false, filter, find, is_space, length, none, ok, refl, some, trim, true, ◌∷◌, ◌≡◌,
}
use whatsapp_ai_supervisor.Common.Numbers.{above, eight_tenths, nan, one, same_number, units}
use whatsapp_ai_supervisor.Permission.{
  Action, Permission, RawRule, apply_model_ceiling, assert_autonomy_action, evaluate_permission,
  evaluate_v1, v1_matched,
}
use whatsapp_ai_supervisor.Attribution.{
  assert_echo, assert_outbound_attribution, create_outbound_attribution, optional_string,
  required_string, valid_timestamp,
}
use whatsapp_ai_supervisor.Messages.{Handled, Message, Model, Services, Tenant, did}
use whatsapp_ai_supervisor.Orchestrator.{
  attribution_for, available_capabilities, build_conversation_context, conversation_context,
  enriched, finish, handle, handle_decision, perform, plain_result, record_agent_attribution,
  resolve_execution_mode, run_action, send_reply,
}
use whatsapp_ai_supervisor.Orchestrator.Permitted.{Justified, handle-Justified}
use whatsapp_ai_supervisor.Orchestrator.Withheld.{Quiet, handle-Quiet}
use whatsapp_ai_supervisor.Orchestrator.Audit.{IsAudited, handle-Audited}

abbrev hours : RawRule
hours = record {
  id = some "hours";
  intent = some "hours";
  intents = none;
  effect = none;
  action = some "reply";
  reason_code = none;
  channels = none;
  min_confidence = none;
  priority = none;
  capability = none;
}

abbrev shop : Tenant
shop = record {
  id = "shop";
  shadow_mode = false;
  policy = record {
    version = nan;
    id = none;
    min_confidence = some (above 0);
    rules = some (hours ∷ []);
    default_action = none;
    default_effect = none;
  };
  route = none;
  routes = none;
  business_context = none;
}

abbrev question : Message
question = record {
  id = "m1";
  tenant_id = "shop";
  channel = "whatsapp";
  customer_id = "201";
  customer_name = none;
  text = some "When do you open?";
  context = none;
}

abbrev answer : Model
answer = record {
  decision = record { intent = some "hours"; confidence = some one; requested_action = none };
  reply = some "At nine.";
  thinking = none;
  proactive_offer = none;
  model = none;
  provider = none;
}

abbrev services : Services
services = record {
  decide = λ m r. ok answer;
  send_text = λ to body id. ok (record {
    transport = some "linked-device";
    platform_message_id = some "p1";
    session_id = some "s1";
    message_id = some "p1";
  });
  execute = none;
  read_events = none;
  record_attribution = some (λ a. ok tt);
  append_audit = λ e. ok tt;
  clock = "2026-01-01T00:00:00.000Z";
  shorten = λ s. s;
  locale_after = λ a b. false;
  parse = λ s. some 5;
  to_iso = λ n. some "2026-01-02T00:00:00.000Z";
}

code : Unit {0}
unfolding required_string optional_string valid_timestamp assert_echo assert_outbound_attribution
    create_outbound_attribution available_capabilities resolve_execution_mode conversation_context
    build_conversation_context attribution_for record_agent_attribution send_reply run_action
    perform enriched finish handle_decision handle evaluate_permission evaluate_v1 v1_matched
    apply_model_ceiling assert_autonomy_action find filter trim is_space same_number one
    eight_tenths units
code = tt

abbrev granted : Permission
granted = record {
  action = Action.reply;
  reason = "matched_rule";
  matched_rule_id = some "hours";
  effect = none;
  reason_code = none;
  requires_approval = false;
  intended_action = none;
  policy_version = none;
  policy_id = none;
}

abbrev replied_result : Handled
replied_result = record (plain_result (did Action.reply) answer granted) {
  outbound = some (record {
    transport = some "linked-device";
    platform_message_id = some "p1";
    session_id = some "s1";
    message_id = some "p1";
  });
  attributed = some true;
}

replies : (handle services question shop none).1 ≡ ok replied_result
unfolding code
replies = refl

calls : length (handle services question shop none).0 ≡ 4
unfolding code
calls = refl

withholds :
    length (handle services question (record shop { shadow_mode = true }) (some "live")).0 ≡ 2
unfolding code
withholds = refl

handle-Justified_example :
    All
      (Justified services shop (enriched services shop question) none)
      (handle services question shop none).0
handle-Justified_example = handle-Justified services question shop none

handle-Quiet_example :
    All Quiet (handle services question (record shop { shadow_mode = true }) (some "live")).0
handle-Quiet_example =
    handle-Quiet services question (record shop { shadow_mode = true }) (some "live") refl

handle-Audited_example :
    IsAudited shop question replied_result (handle services question shop none).0
handle-Audited_example = handle-Audited services question shop none replied_result replies
