-- ===== src/Orchestrator/Withheld.antt =====
-- src/core/orchestrator.js, `resolveExecutionMode` and `handle`: shadow and simulation.
use whatsapp_ai_supervisor.Common.{All, All-map, Option, String, arith, ok, true, ◌≡◌, ◌≢◌}
use whatsapp_ai_supervisor.Messages.{
  Call, Message, Services, Tenant, action_executed, attribution_recorded, audit_appended, live,
  model_asked, text_sent,
}
use whatsapp_ai_supervisor.Orchestrator.{enriched, handle, resolve_execution_mode}
use whatsapp_ai_supervisor.Orchestrator.Permitted.{Justified, handle-Justified}

-- No text is sent, attributed or acted on.
abbrev pub Quiet : Call → Type 0
Quiet (text_sent _ _ _) = ⊥
Quiet (attribution_recorded _) = ⊥
Quiet (action_executed _ _ _) = ⊥
Quiet _ = Unit

pub Justified-Quiet :
    (services : Services) (tenant : Tenant) (asked : Message) (requested : Option String)
    → resolve_execution_mode tenant requested ≢ ok live
    → (call : Call) → Justified services tenant asked requested call
    → Quiet call
Justified-Quiet services tenant asked requested h (model_asked _ _) j = tt
Justified-Quiet services tenant asked requested h (text_sent _ _ _) (_, _, _, grant, _) =
    h grant.is_live
Justified-Quiet services tenant asked requested h (attribution_recorded _) grant = h grant.is_live
Justified-Quiet services tenant asked requested h (action_executed _ _ _) (_, _, grant, _) =
    h grant.is_live
Justified-Quiet services tenant asked requested h (audit_appended _) j = tt

pub shadow_mode-withheld :
    (tenant : Tenant) (requested : Option String)
    → tenant.shadow_mode ≡ true
    → resolve_execution_mode tenant requested ≢ ok live
unfolding resolve_execution_mode
shadow_mode-withheld tenant requested h e = ground arith

-- For a tenant in shadow mode no run sends, attributes or executes anything, whatever mode is asked
-- for and whatever the services answer.
pub handle-Quiet :
    (services : Services) (message : Message) (tenant : Tenant) (requested : Option String)
    → tenant.shadow_mode ≡ true
    → All Quiet (handle services message tenant requested).0
handle-Quiet services message tenant requested h =
    All-map
      (Justified-Quiet services tenant (enriched services tenant message) requested
        (shadow_mode-withheld tenant requested h))
      (handle services message tenant requested).0
      (handle-Justified services message tenant requested)
