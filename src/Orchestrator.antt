-- ===== src/Orchestrator.antt =====
-- src/core/orchestrator.js: one inbound message from the model's decision to the audit entry. What
-- the services answer is an argument; a run is what they were asked, in order, and its result.
pub mod Context
pub mod Withheld
pub mod Permitted
pub mod Audit
mod Tests
unfoldable pub use Context.*
use Prim.Native.String
use whatsapp_ai_supervisor.Messages.{
  AuditEntry, Call, ContextEntry, Done, Handled, Message, Mode, Model, Outbound, RouteConfig,
  Services, Tenant, action_executed, attribution_recorded, audit_appended, did, live, model_asked,
  text_sent, withheld,
}
use whatsapp_ai_supervisor.Common.{
  Bool, List, Option, Result, String, [], false, find, if◌then◌else◌, is_empty, is_ok, is_some,
  is_text, none, not, ok, or_else, some, text_of, throws, trim, ◌&&◌, ◌*◌, ◌==◌, ◌∷◌,
}
use whatsapp_ai_supervisor.Common.Traces.{then_run}
use whatsapp_ai_supervisor.Common.Json.{Json}
use whatsapp_ai_supervisor.Permission.{Action, Permission, RawRule, act, evaluate_permission, human}
use whatsapp_ai_supervisor.Attribution.{Attribution, create_outbound_attribution}

-- Whether the text that was sent is one to attribute.
abbrev has_text : Option String → Bool
has_text value = not (is_empty (text_of value))

abbrev pub is_attributable : Services → Outbound → Bool
is_attributable services outbound =
    is_text outbound.transport "linked-device"
    && has_text outbound.platform_message_id
    && has_text outbound.session_id
    && is_some services.record_attribution

abbrev pub conversation_of : Message → String
conversation_of message = String.◌++◌ message.channel (String.◌++◌ ":" message.customer_id)

unfoldable pub attribution_for : Services → Tenant → Message → Outbound → Result Attribution
attribution_for services tenant message outbound =
    create_outbound_attribution services.parse services.to_iso
      (record {
        tenant_id = some tenant.id;
        session_id = outbound.session_id;
        conversation_id = some (conversation_of message);
        customer_id = some message.customer_id;
        platform_message_id = outbound.platform_message_id;
        origin = some "agent";
        source_message_id = some message.id;
      })
      services.clock (24 * 60 * 60 * 1000)

-- `store.record(attribution)` under the `try`: whether it went through.
abbrev pub recorded :
    Option (Attribution → Result (Unit {0})) → Result Attribution → List Call × Bool
recorded none attribution = ([], false)
recorded (some store) (throws e) = ([], false)
recorded (some store) (ok attribution) =
    (attribution_recorded attribution ∷ [], is_ok (store attribution))

unfoldable pub record_agent_attribution :
    Services → Tenant → Message → Outbound → List Call × Option Bool
record_agent_attribution services tenant message outbound =
    if is_attributable services outbound
    then (let (calls, done) =
          recorded services.record_attribution (attribution_for services tenant message outbound) in
        (calls, some done))
    else ([], none)

abbrev pub plain_result : Done → Model → Permission → Handled
plain_result action model permission = record {
  action = action;
  would_action = none;
  reason = none;
  outbound = none;
  attributed = none;
  action_result = none;
  action_error = none;
  model = model;
  permission = permission;
}

abbrev pub human_result : String → Option String → Model → Permission → Handled
human_result reason action_error model permission =
    record (plain_result (did human) model permission) {
      reason = some reason;
      action_error = action_error;
    }

abbrev pub replied : List Call × Option Bool → Outbound → Model → Permission → Run Handled
replied (calls, attributed) outbound model permission = (
  calls,
  ok (record (plain_result (did Action.reply) model permission) {
    outbound = some outbound;
    attributed = attributed;
  }),
)

unfoldable pub send_reply : Services → Tenant → Message → Model → Permission → Run Handled
send_reply services tenant message model permission =
    let body = text_of model.reply in
    if is_empty (trim body)
    then ([], ok (human_result "empty_reply" none model permission))
    else then_run
        (
          text_sent message.customer_id body message.id ∷ [],
          services.send_text message.customer_id body message.id,
        )
        (λ outbound.
          replied (record_agent_attribution services tenant message outbound) outbound model
            permission)

-- `matchedRuleId` is null where no rule matched, and undefined, as the id of a rule without one, where a
-- rule of a version 1 policy matched that has no id. A rule's id is a text or not there.
abbrev pub rule_of : Tenant → Permission → Option RawRule
rule_of tenant permission =
    let rules = or_else tenant.policy.rules [] in
    elim (permission.matched_rule_id) [
      | none ↦
          if permission.reason == "matched_rule"
          then find (λ candidate. not (is_some candidate.id)) rules
          else none
      | some id ↦ find (λ candidate. is_text candidate.id id) rules
    ]

abbrev pub acted : Services → Model → Permission → Result Json → Handled
acted services model permission (ok value) = record (plain_result (did act) model permission) {
  action_result = some value;
}
acted services model permission (throws e) =
    human_result "action_failed" (some (services.shorten e)) model permission

abbrev pub run_with :
    Option (Tenant → Message → Option RawRule → Result Json)
    → Services
    → Tenant
    → Message
    → Model
    → Permission
    → Run Handled
run_with none services tenant message model permission =
    ([], ok (human_result "action_gateway_unavailable" none model permission))
run_with (some execute) services tenant message model permission = (
  action_executed tenant message (rule_of tenant permission) ∷ [],
  ok (acted services model permission (execute tenant message (rule_of tenant permission))),
)

unfoldable pub run_action : Services → Tenant → Message → Model → Permission → Run Handled
run_action services tenant message model permission =
    run_with services.execute services tenant message model permission

-- The branches of a live run, by the action that is permitted; `message` has its context.
abbrev pub perform_action : Services → Tenant → Message → Model → Permission → Action → Run Handled
perform_action services tenant message model permission Action.reply =
    send_reply services tenant message model permission
perform_action services tenant message model permission act =
    run_action services tenant message model permission
perform_action services tenant message model permission action =
    ([], ok (plain_result (did action) model permission))

unfoldable pub perform : Services → Mode → Tenant → Message → Model → Permission → Run Handled
perform services live tenant message model permission =
    perform_action services tenant message model permission permission.action
perform services mode tenant message model permission = (
  [],
  ok (record (plain_result (withheld mode) model permission) {
    would_action = some permission.action;
  }),
)

abbrev pub audit_entry : Tenant → Message → Handled → AuditEntry
audit_entry tenant message handled = record {
  tenant_id = tenant.id;
  message_id = message.id;
  customer_id = message.customer_id;
  channel = message.channel;
  model = handled.model;
  permission = handled.permission;
  action = handled.action;
  would_action = handled.would_action;
  reason = handled.reason;
}

abbrev pub context_or : List ContextEntry → List ContextEntry → List ContextEntry
context_or [] built = built
context_or entries built = entries

unfoldable pub enriched : Services → Tenant → Message → Message
enriched services tenant message = record message {
  context = some (
      context_or (or_else message.context [])
        (build_conversation_context services tenant.id message.customer_id));
}

abbrev pub route_config : Tenant → RouteConfig
route_config tenant = record {
  route = or_else tenant.route "standard";
  routes = tenant.routes;
  business_context = tenant.business_context;
  available_capabilities = available_capabilities tenant.policy;
}

unfoldable pub finish : Services → Tenant → Message → Handled → Run Handled
finish services tenant message handled =
    then_run
      (
        audit_appended (audit_entry tenant message handled) ∷ [],
        services.append_audit (audit_entry tenant message handled),
      )
      (λ _. ([], ok handled))

-- `handle` from the model's answer on.
unfoldable pub handle_decision : Services → Mode → Tenant → Message → Model → Run Handled
handle_decision services mode tenant message model =
    then_run
      (
        [],
        evaluate_permission services.locale_after tenant.policy model.decision
            (some message.channel),
      )
      (λ permission.
        then_run (perform services mode tenant message model permission)
          (finish services tenant message))

unfoldable pub handle : Services → Message → Tenant → Option String → Run Handled
handle services message tenant requested_mode =
    then_run ([], resolve_execution_mode tenant requested_mode)
      (λ mode.
        let asked = enriched services tenant message in
        then_run
          (
            model_asked asked (route_config tenant) ∷ [],
            services.decide asked (route_config tenant),
          )
          (handle_decision services mode tenant asked))
