-- ===== src/Moderator/Tests.antt =====
-- Runs of src/ai/moderator-engine.js.
use whatsapp_ai_supervisor.Common.{
  All, [], false, filter, find, is_space, last, length, none, ok, refl, some, trim, true, ◌∷◌, ◌≡◌,
  ◌≤◌,
}
use whatsapp_ai_supervisor.Common.Numbers.{eight_tenths, one, same_number, units}
use whatsapp_ai_supervisor.Messages.{Services, Tenant}
use whatsapp_ai_supervisor.Conversations.{ControlMode, inbound}
use whatsapp_ai_supervisor.Conversations.Threads.{Thread, ThreadMessage}
use whatsapp_ai_supervisor.Permission.{
  apply_model_ceiling, assert_autonomy_action, evaluate_permission, evaluate_v1, v1_matched,
}
use whatsapp_ai_supervisor.Inbound.Samples.{no_services, shop}
use whatsapp_ai_supervisor.Orchestrator.{
  available_capabilities, build_conversation_context, conversation_context, enriched, finish,
  handle, handle_decision, perform, record_agent_attribution, resolve_execution_mode, send_reply,
}
use whatsapp_ai_supervisor.Moderator.{
  Options, Pass, follow_up, has_replied, moderate_tenant, moderate_thread, moderate_threads,
  recent_context, resolve_inbound,
}
use whatsapp_ai_supervisor.Moderator.Withheld.{IsDry, IsModerated, moderate_tenant-IsModerated}
use whatsapp_ai_supervisor.Moderator.Bounded.{counted, moderate_tenant-counts}

code : Unit {0}
unfolding last evaluate_permission evaluate_v1 v1_matched apply_model_ceiling assert_autonomy_action
    available_capabilities resolve_execution_mode conversation_context build_conversation_context
    perform send_reply record_agent_attribution enriched finish handle_decision handle filter find
    trim is_space same_number one eight_tenths units has_replied recent_context resolve_inbound
    follow_up moderate_thread moderate_threads moderate_tenant
code = tt

abbrev question : ThreadMessage
question = record {
  id = "m1";
  direction = inbound;
  text = some "When do you open?";
  at = "2026-01-01";
  action = none;
  intent = none;
  confidence = none;
  thinking = none;
  proactive_offer = none;
  model_name = none;
  provider = none;
}

abbrev waiting : Thread
waiting = record {
  tenant_id = "shop";
  customer_id = "201";
  customer_name = "Ada";
  control = ControlMode.ai;
  last_activity_at = "2026-01-01";
  last_action = none;
  last_intent = none;
  last_confidence = none;
  messages = question ∷ [];
}

abbrev held : Thread
held = record waiting { customer_id = "202"; control = ControlMode.human }

abbrev greeter : Tenant
greeter = record shop { policy = record shop.policy { default_action = some "reply" } }

abbrev services : Services
services = record no_services {
  decide = λ m r. ok (record {
    decision = record { intent = some "hours"; confidence = some one; requested_action = none };
    reply = some "At nine.";
    thinking = none;
    proactive_offer = none;
    model = none;
    provider = none;
  });
  send_text = λ to body id. ok (record {
    transport = none;
    platform_message_id = none;
    session_id = none;
    message_id = some "p1";
  });
}

abbrev live_options : Options
live_options = record { dry_run = false; force_all = false; proactive_limit = 10 }

abbrev pass : Pass
pass =
    moderate_tenant (λ t. services) (λ t. "x") (λ m h. ok tt) live_options greeter
      (waiting ∷ held ∷ [])

moderate_greeter : (pass.1.replies_sent ≡ 1) × (pass.1.skipped ≡ 1) × (length pass.0 ≡ 4)
unfolding code
moderate_greeter = (refl, refl, refl)

moderate_tenant-IsModerated_example :
    All (IsModerated (λ t. services) (λ t. "x") live_options greeter) pass.0
    × (false ≡ true → All (IsDry (λ t. services) (λ t. "x") live_options greeter) pass.0)
moderate_tenant-IsModerated_example =
    moderate_tenant-IsModerated (λ t. services) (λ t. "x") (λ m h. ok tt) live_options greeter
      (waiting ∷ held ∷ [])

moderate_tenant-counts_example :
    (pass.1.total_threads ≡ 2)
    × (pass.1.scanned_threads ≡ 2)
    × (pass.1.followups_sent ≤ 10)
    × (counted pass.1 ≤ 2)
    × (length pass.1.results ≤ 2)
moderate_tenant-counts_example =
    moderate_tenant-counts (λ t. services) (λ t. "x") (λ m h. ok tt) live_options greeter
      (waiting ∷ held ∷ [])
