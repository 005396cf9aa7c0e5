-- ===== src/Orchestrator/Permitted.antt =====
-- src/core/orchestrator.js, `handle`: when the customer or the outside world hears of a message.
use whatsapp_ai_supervisor.Common.{
  All, Bool, Bool-cases, List, Option, Result, String, [], ap, arith, eq_iff, eq_refl, false, find,
  if-holds, inl, inr, is_empty, is_some, is_text, none, not, ok, or_else, refl, some, some-text_of,
  text_of, throws, trim, true, ◌==◌, ◌∷◌, ◌≡◌, ◌≢◌, ◌⊎◌,
}
use whatsapp_ai_supervisor.Permission.{
  Action, Permission, RawRule, act, draft, evaluate_permission, human, ignore,
}
use whatsapp_ai_supervisor.Messages.{
  Call, Handled, Message, Mode, Model, Outbound, Services, Tenant, action_executed,
  attribution_recorded, audit_appended, live, model_asked, shadow, simulation, text_sent,
}
use whatsapp_ai_supervisor.Orchestrator.{
  Run, attribution_for, audit_entry, enriched, finish, handle, handle_decision, is_attributable,
  perform, perform_action, record_agent_attribution, recorded, replied, resolve_execution_mode,
  route_config, rule_of, run_action, run_with, send_reply,
}
use whatsapp_ai_supervisor.Common.Traces.{then_run-All}
use whatsapp_ai_supervisor.Attribution.{Attribution}
use whatsapp_ai_supervisor.Common.Json.{Json}

-- The first rule of a list with the id, if any has it.
abbrev pub IsFirstNamed : Option String → List RawRule → Option RawRule → Type 0
IsFirstNamed id [] found = found ≡ none
IsFirstNamed id (rule ∷ rules) found =
    ((rule.id ≡ id) × (found ≡ some rule)) ⊎ ((rule.id ≢ id) × IsFirstNamed id rules found)

-- The rule that an action is executed for: the first one of the policy with the id of the rule that
-- matched, where that has one or the policy is of version 1, and none where none matched.
abbrev pub IsRuleOf : Tenant → Permission → Option RawRule → Type 0
IsRuleOf tenant permission found =
    ((permission.matched_rule_id ≡ none) × (permission.reason ≢ "matched_rule") × (found ≡ none))
    ⊎ ((permission.matched_rule_id ≢ none ⊎ permission.reason ≡ "matched_rule")
        × IsFirstNamed permission.matched_rule_id (or_else tenant.policy.rules []) found)

find-IsFirstNamed :
    (id : Option String) (test : RawRule → Bool) (rules : List RawRule)
    → ((rule : RawRule)
        → ((test rule ≡ true) × (rule.id ≡ id)) ⊎ ((test rule ≡ false) × (rule.id ≢ id)))
    → IsFirstNamed id rules (find test rules)
unfolding find
find-IsFirstNamed id test [] h = refl
find-IsFirstNamed id test (rule ∷ rules) h = elim (h rule) [
  | inl (hit, same) ↦ inl (same, rw hit refl)
  | inr (miss, other) ↦ inr (other, rw miss (find-IsFirstNamed id test rules h))
]

is_text-cases :
    (value : Option String) (id : String)
    → ((is_text value id ≡ true) × (value ≡ some id))
      ⊎ ((is_text value id ≡ false) × (value ≢ some id))
is_text-cases none id = inr (refl, λ e. cc)
is_text-cases (some s) id = elim (Bool-cases (s == id)) [
  | inl same ↦ inl (same, ap some ((eq_iff s id).0 same))
  | inr other ↦ inr (other, λ e. ground (arith, other, e, eq_refl id))
]

no_id-cases :
    (value : Option String)
    → ((not (is_some value) ≡ true) × (value ≡ none))
      ⊎ ((not (is_some value) ≡ false) × (value ≢ none))
no_id-cases none = inl (refl, refl)
no_id-cases (some s) = inr (refl, λ e. cc)

rule_of-IsRuleOf :
    (tenant : Tenant) (permission : Permission)
    → IsRuleOf tenant permission (rule_of tenant permission)
rule_of-IsRuleOf tenant permission = by_id permission.matched_rule_id refl
  where
    by_id :
        (id : Option String)
        → permission.matched_rule_id ≡ id
        → IsRuleOf tenant permission (rule_of tenant permission)
    by_id (some id) e = rw e (
        inr (
          inl (λ same. cc),
          find-IsFirstNamed (some id) (λ candidate. is_text candidate.id id)
              (or_else tenant.policy.rules []) (λ rule. is_text-cases rule.id id),
        ))
    by_id none e = elim (Bool-cases (permission.reason == "matched_rule")) [
      | inl matched ↦
          rw (e, matched)
            (inr (
              inr ((eq_iff permission.reason "matched_rule").0 matched),
              find-IsFirstNamed none (λ candidate. not (is_some candidate.id))
                  (or_else tenant.policy.rules []) (λ rule. no_id-cases rule.id),
            ))
      | inr other ↦
          rw (e, other)
            (inl (
              refl,
              (λ same. let hit = (eq_iff permission.reason "matched_rule").1 same in cc),
              refl,
            ))
    ]

module _ (services : Services) (tenant : Tenant) (asked : Message) where
  -- The run is live and the policy grants this action on the model's answer to the message.
  pub record Granted (requested : Option String) (granted : Action) : Type 0 where
    pub model : Model
    pub permission : Permission
    pub is_live : resolve_execution_mode tenant requested ≡ ok live
    pub answered : services.decide asked (route_config tenant) ≡ ok model
    pub evaluated :
        evaluate_permission services.locale_after tenant.policy model.decision (some asked.channel)
        ≡ ok permission
    pub action : permission.action ≡ granted

  -- What a call needs: a text or an attribution a granted reply, an action a granted act.
  abbrev pub Justified : Option String → Call → Type 0
  Justified requested (text_sent to body reply_to_id) =
      (to ≡ asked.customer_id)
      × (reply_to_id ≡ asked.id)
      × (is_empty (trim body) ≡ false)
      × (grant : Granted requested Action.reply) × (grant.model.reply ≡ some body)
  Justified requested (attribution_recorded attribution) = Granted requested Action.reply
  Justified requested (action_executed whom what rule) =
      (whom ≡ tenant)
      × (what ≡ asked)
      × (grant : Granted requested act) × IsRuleOf tenant grant.permission rule
  Justified requested _ = Unit

  pub record_agent_attribution-Justified :
      (requested : Option String) (outbound : Outbound)
      → Granted requested Action.reply
      → All (Justified requested) (record_agent_attribution services tenant asked outbound).0
  unfolding record_agent_attribution
  record_agent_attribution-Justified requested outbound grant =
      if-holds (λ (pair : List Call × Option Bool). All (Justified requested) pair.0)
        (is_attributable services outbound)
        (λ _.
          recorded-All services.record_attribution (attribution_for services tenant asked outbound))
        (λ _. tt)
    where
      recorded-All :
          (store : Option (Attribution → Result (Unit {0}))) (made : Result Attribution)
          → All (Justified requested) (recorded store made).0
      recorded-All none made = tt
      recorded-All (some store) (throws e) = tt
      recorded-All (some store) (ok attribution) = (grant, tt)

  pub send_reply-Justified :
      (requested : Option String) (grant : Granted requested Action.reply)
      → All (Justified requested) (send_reply services tenant asked grant.model grant.permission).0
  unfolding send_reply
  send_reply-Justified requested grant =
      if-holds (λ (run : Run Handled). All (Justified requested) run.0)
        (is_empty (trim (text_of grant.model.reply))) (λ _. tt)
        (λ written.
          then_run-All (Justified requested)
            (
              text_sent asked.customer_id (text_of grant.model.reply) asked.id ∷ [],
              services.send_text asked.customer_id (text_of grant.model.reply) asked.id,
            )
            (λ outbound.
              replied (record_agent_attribution services tenant asked outbound) outbound grant.model
                grant.permission)
            ((refl, refl, written, grant, some-text_of grant.model.reply written), tt)
            (λ outbound _. record_agent_attribution-Justified requested outbound grant))

  pub run_action-Justified :
      (requested : Option String) (grant : Granted requested act)
      → All (Justified requested) (run_action services tenant asked grant.model grant.permission).0
  unfolding run_action
  run_action-Justified requested grant = executed-All services.execute
    where
      executed-All :
          (gateway : Option (Tenant → Message → Option RawRule → Result Json))
          → All
              (Justified requested)
              (run_with gateway services tenant asked grant.model grant.permission).0
      executed-All none = tt
      executed-All (some execute) =
          ((refl, refl, grant, rule_of-IsRuleOf tenant grant.permission), tt)

  pub perform-Justified :
      (requested : Option String) (mode : Mode) (model : Model) (permission : Permission)
      → resolve_execution_mode tenant requested ≡ ok mode
      → services.decide asked (route_config tenant) ≡ ok model
      → evaluate_permission services.locale_after tenant.policy model.decision (some asked.channel)
        ≡ ok permission
      → All (Justified requested) (perform services mode tenant asked model permission).0
  unfolding perform
  perform-Justified requested live model permission e₁ e₂ e₃ = granted_All permission.action refl
    where
      grant_of : {action : Action} → permission.action ≡ action → Granted requested action
      grant_of same = record {
        model = model;
        permission = permission;
        is_live = e₁;
        answered = e₂;
        evaluated = e₃;
        action = same;
      }

      granted_All :
          (action : Action)
          → permission.action ≡ action
          → All
              (Justified requested)
              (perform_action services tenant asked model permission action).0
      granted_All ignore same = tt
      granted_All draft same = tt
      granted_All human same = tt
      granted_All Action.reply same = send_reply-Justified requested (grant_of same)
      granted_All act same = run_action-Justified requested (grant_of same)
  perform-Justified requested shadow model permission e₁ e₂ e₃ = tt
  perform-Justified requested simulation model permission e₁ e₂ e₃ = tt

-- Whatever the services answer, a text goes only to the customer of the message, as a reply to it,
-- not blank and as the model wrote it, and only in a live run where the policy grants a reply on
-- the model's answer; an outbound text is attributed only then; and an action is executed only in a
-- live run where the policy grants an act, on the message, for the first rule of the policy with
-- the id that the policy's answer names (with none, if a version 1 rule without an id matched), and for
-- no rule where none matched.
pub handle-Justified :
    (services : Services) (message : Message) (tenant : Tenant) (requested : Option String)
    → All
        (Justified services tenant (enriched services tenant message) requested)
        (handle services message tenant requested).0
unfolding handle handle_decision finish
handle-Justified services message tenant requested =
    let asked = enriched services tenant message in
    let P = Justified services tenant asked requested in
    then_run-All P ([], resolve_execution_mode tenant requested) _ tt
      (λ mode e₁.
        then_run-All P
          (
            model_asked asked (route_config tenant) ∷ [],
            services.decide asked (route_config tenant),
          )
          (handle_decision services mode tenant asked) (tt, tt)
          (λ model e₂.
            then_run-All P
              (
                [],
                evaluate_permission services.locale_after tenant.policy model.decision
                    (some asked.channel),
              )
              _ tt
              (λ permission e₃.
                then_run-All P (perform services mode tenant asked model permission)
                  (finish services tenant asked)
                  (perform-Justified services tenant asked requested mode model permission e₁ e₂ e₃)
                  (λ handled _.
                    then_run-All P
                      (
                        audit_appended (audit_entry tenant asked handled) ∷ [],
                        services.append_audit (audit_entry tenant asked handled),
                      )
                      (λ _. ([], ok handled)) (tt, tt) (λ _ _. tt)))))
