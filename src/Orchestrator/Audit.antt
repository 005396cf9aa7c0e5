-- ===== src/Orchestrator/Audit.antt =====
-- src/core/orchestrator.js, `handle`: the audit entry.
use mathlib.Core.List.{append_assoc}
use whatsapp_ai_supervisor.Common.{
  All, All-append, Bool, List, Option, Result, String, [], ap, if-holds, is_empty, none, ok,
  ok-injective, refl, some, sym, text_of, throws, trim, ◌++◌, ◌∙◌, ◌∷◌, ◌≡◌,
}
use whatsapp_ai_supervisor.Permission.{
  Action, Permission, RawRule, act, draft, evaluate_permission, human, ignore,
}
use whatsapp_ai_supervisor.Attribution.{Attribution}
use whatsapp_ai_supervisor.Common.Json.{Json}
use whatsapp_ai_supervisor.Messages.{
  AuditEntry, Call, Handled, Message, Mode, Model, Outbound, Services, Tenant, audit_appended, live,
  model_asked, shadow, simulation, text_sent,
}
use whatsapp_ai_supervisor.Orchestrator.{
  Run, attribution_for, audit_entry, enriched, finish, handle, handle_decision, is_attributable,
  perform, perform_action, record_agent_attribution, recorded, replied, resolve_execution_mode,
  route_config, run_action, run_with, send_reply,
}
use whatsapp_ai_supervisor.Common.Traces.{quiet, then_run, then_run-All}

-- A call that is no audit entry.
abbrev pub Unaudited : Call → Type 0
Unaudited (audit_appended _) = ⊥
Unaudited _ = Unit

module _ (services : Services) (tenant : Tenant) (asked : Message) where
  pub record_agent_attribution-Unaudited :
      (outbound : Outbound)
      → All Unaudited (record_agent_attribution services tenant asked outbound).0
  unfolding record_agent_attribution
  record_agent_attribution-Unaudited outbound =
      if-holds (λ (pair : List Call × Option Bool). All Unaudited pair.0)
        (is_attributable services outbound)
        (λ _.
          recorded_All services.record_attribution (attribution_for services tenant asked outbound))
        (λ _. tt)
    where
      recorded_All :
          (store : Option (Attribution → Result (Unit {0}))) (made : Result Attribution)
          → All Unaudited (recorded store made).0
      recorded_All none made = tt
      recorded_All (some store) (throws e) = tt
      recorded_All (some store) (ok attribution) = (tt, tt)

  pub perform-Unaudited :
      (mode : Mode) (model : Model) (permission : Permission)
      → All Unaudited (perform services mode tenant asked model permission).0
  unfolding perform send_reply run_action
  perform-Unaudited live model permission = by_action permission.action
    where
      by_gateway :
          (gateway : Option (Tenant → Message → Option RawRule → Result Json))
          → All Unaudited (run_with gateway services tenant asked model permission).0
      by_gateway none = tt
      by_gateway (some execute) = (tt, tt)

      by_action :
          (action : Action)
          → All Unaudited (perform_action services tenant asked model permission action).0
      by_action ignore = tt
      by_action draft = tt
      by_action human = tt
      by_action act = by_gateway services.execute
      by_action Action.reply =
          if-holds (λ (run : Run Handled). All Unaudited run.0)
            (is_empty (trim (text_of model.reply))) (λ _. tt)
            (λ _.
              then_run-All Unaudited
                (
                  text_sent asked.customer_id (text_of model.reply) asked.id ∷ [],
                  services.send_text asked.customer_id (text_of model.reply) asked.id,
                )
                (λ outbound.
                  replied (record_agent_attribution services tenant asked outbound) outbound model
                    permission)
                (tt, tt) (λ outbound _. record_agent_attribution-Unaudited outbound))
  perform-Unaudited shadow model permission = tt
  perform-Unaudited simulation model permission = tt

-- The audit entry of a result comes last, after calls of which none is one.
abbrev pub Audited : Tenant → Message → Handled → List Call → Type 0
Audited tenant message handled calls =
    (earlier : List Call) × (calls
      ≡ earlier ++ audit_appended (audit_entry tenant message handled) ∷ [])
    × All Unaudited earlier

module _ (tenant : Tenant) (asked : Message) where
  abbrev pub Sealed : Run Handled → Type 0
  Sealed run = (handled : Handled) → run.1 ≡ ok handled → Audited tenant asked handled run.0

  pub then_run-Sealed :
      {A : Type 0} (run : Run A) (rest : A → Run Handled)
      → All Unaudited run.0
      → ((a : A) → Sealed (rest a))
      → Sealed (then_run run rest)
  then_run-Sealed (calls, throws m) rest h k handled e = cc
  then_run-Sealed (calls, ok a) rest h k handled e =
      let (earlier, same, quiet) = k a handled e in
      (
        calls ++ earlier,
        ap (λ later. calls ++ later) same
            ∙ sym (
                append_assoc calls earlier
                  (audit_appended (audit_entry tenant asked handled) ∷ [])),
        All-append Unaudited calls earlier h quiet,
      )

  pub finish-Sealed :
      (services : Services) (result : Handled) → Sealed (finish services tenant asked result)
  unfolding finish
  finish-Sealed services result =
      by_answer (services.append_audit (audit_entry tenant asked result))
    where
      by_answer :
          (answer : Result (Unit {0}))
          → Sealed (
              then_run
                (audit_appended (audit_entry tenant asked result) ∷ [], answer)
                (λ _. ([], ok result)))
      by_answer (throws m) handled e = cc
      by_answer (ok _) handled e =
          let same : result ≡ handled = ok-injective e in
          ([], ap (λ r. audit_appended (audit_entry tenant asked r) ∷ []) same, tt)

-- What an audit entry tells of a message and its result.
pub record IsEntryOf (tenant : Tenant) (message : Message) (handled : Handled) (entry : AuditEntry)
    : Type 0 where
  pub tenant_id : entry.tenant_id ≡ tenant.id
  pub message_id : entry.message_id ≡ message.id
  pub customer_id : entry.customer_id ≡ message.customer_id
  pub channel : entry.channel ≡ message.channel
  pub model : entry.model ≡ handled.model
  pub permission : entry.permission ≡ handled.permission
  pub action : entry.action ≡ handled.action
  pub would_action : entry.would_action ≡ handled.would_action
  pub reason : entry.reason ≡ handled.reason

-- Such an entry comes last, after calls of which none is one.
abbrev pub IsAudited : Tenant → Message → Handled → List Call → Type 0
IsAudited tenant message handled calls =
    (entry : AuditEntry) × IsEntryOf tenant message handled entry
    × (earlier : List Call) × (calls ≡ earlier ++ audit_appended entry ∷ [])
    × All Unaudited earlier

sealed :
    (services : Services) (message : Message) (tenant : Tenant) (requested : Option String)
    (handled : Handled)
    → (handle services message tenant requested).1 ≡ ok handled
    → Audited tenant message handled (handle services message tenant requested).0
unfolding handle handle_decision enriched
sealed services message tenant requested handled e =
    let asked = enriched services tenant message in
    then_run-Sealed tenant asked ([], resolve_execution_mode tenant requested) _ tt
      (λ mode.
        then_run-Sealed tenant asked
          (
            model_asked asked (route_config tenant) ∷ [],
            services.decide asked (route_config tenant),
          )
          (handle_decision services mode tenant asked) (tt, tt)
          (λ model.
            then_run-Sealed tenant asked
              (
                [],
                evaluate_permission services.locale_after tenant.policy model.decision
                    (some asked.channel),
              )
              _ tt
              (λ permission.
                then_run-Sealed tenant asked (perform services mode tenant asked model permission)
                  (finish services tenant asked)
                  (perform-Unaudited services tenant asked mode model permission)
                  (finish-Sealed tenant asked services))))
      handled e

-- A run that returns a result has appended exactly one audit entry, as its last call, with the
-- identity of the message, the model's answer, the permission and the action of that result.
pub handle-Audited :
    (services : Services) (message : Message) (tenant : Tenant) (requested : Option String)
    (handled : Handled)
    → (handle services message tenant requested).1 ≡ ok handled
    → IsAudited tenant message handled (handle services message tenant requested).0
handle-Audited services message tenant requested handled e =
    let (earlier, same, quiet) = sealed services message tenant requested handled e in
    (
      audit_entry tenant message handled,
      record {
        tenant_id = refl;
        message_id = refl;
        customer_id = refl;
        channel = refl;
        model = refl;
        permission = refl;
        action = refl;
        would_action = refl;
        reason = refl;
      },
      earlier,
      same,
      quiet,
    )
