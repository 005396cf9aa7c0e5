-- ===== src/Moderator/Simulated.antt =====
-- src/core/orchestrator.js: a simulated run, as a dry pass of src/ai/moderator-engine.js asks for it.
use mathlib.Core.Path.{subst}
use whatsapp_ai_supervisor.Common.{
  OnOk, OnOk-ok, [], arith, false, ok, ok-injective, refl, some, true, ◌∷◌, ◌≡◌, ◌≢◌,
}
use whatsapp_ai_supervisor.Common.Traces.{then_run-ok_parts}
use whatsapp_ai_supervisor.Messages.{
  Handled, Message, Model, Services, Tenant, audit_appended, live, model_asked, simulation,
}
use whatsapp_ai_supervisor.Permission.{Permission, evaluate_permission}
use whatsapp_ai_supervisor.Orchestrator.{
  audit_entry, enriched, finish, handle, handle_decision, perform, resolve_execution_mode,
  route_config,
}
use whatsapp_ai_supervisor.Moderator.{did_reply, mode_of}

pub simulation_is_not_live :
    (tenant : Tenant) → resolve_execution_mode tenant (some (mode_of true)) ≢ ok live
unfolding resolve_execution_mode
simulation_is_not_live tenant e = ground (arith, e)

perform-simulated :
    (services : Services) (tenant : Tenant) (asked : Message) (model : Model)
    (permission : Permission)
    → OnOk
        (λ result. did_reply result.action ≡ false)
        (perform services simulation tenant asked model permission).1
unfolding perform
perform-simulated services tenant asked model permission = refl

-- A simulated run never comes to a reply.
pub handle-simulated :
    (services : Services) (asked : Message) (tenant : Tenant) {result : Handled}
    → (handle services asked tenant (some (mode_of true))).1 ≡ ok result
    → did_reply result.action ≡ false
unfolding handle handle_decision finish resolve_execution_mode
handle-simulated services asked tenant {result} e =
    let (model, _, e₁, _) =
      then_run-ok_parts
        (
          model_asked (enriched services tenant asked) (route_config tenant) ∷ [],
          services.decide (enriched services tenant asked) (route_config tenant),
        )
        (handle_decision services simulation tenant (enriched services tenant asked)) e in
    let (permission, _, e₂, _) =
      then_run-ok_parts
        (
          [],
          evaluate_permission services.locale_after tenant.policy model.decision
              (some (enriched services tenant asked).channel),
        )
        _ e₁ in
    let (handled, performed, e₃, _) =
      then_run-ok_parts
        (perform services simulation tenant (enriched services tenant asked) model permission)
        (finish services tenant (enriched services tenant asked)) e₂ in
    let (_, _, e₄, _) =
      then_run-ok_parts
        (
          audit_appended (audit_entry tenant (enriched services tenant asked) handled) ∷ [],
          services.append_audit (audit_entry tenant (enriched services tenant asked) handled),
        )
        (λ _. ([], ok handled)) e₃ in
    let same : handled ≡ result = ok-injective e₄ in
    subst (λ (r : Handled). did_reply r.action ≡ false) same
      (OnOk-ok (λ (r : Handled). did_reply r.action ≡ false)
        (perform services simulation tenant (enriched services tenant asked) model permission).1
        (perform-simulated services tenant (enriched services tenant asked) model permission)
        performed)
