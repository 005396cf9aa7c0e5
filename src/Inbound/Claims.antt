-- ===== src/Inbound/Claims.antt =====
-- src/app.js, `processMessage`: what becomes of the claim of a message.
use mathlib.Core.Path.{subst}
use whatsapp_ai_supervisor.Common.{
  All, All-map, List, Option, Result, [], map, none, ok, ok-injective, some, sym, ℕ, ◌∷◌, ◌≡◌,
}
use whatsapp_ai_supervisor.Common.Traces.{call, quiet, then_run-All, then_run-ok_parts}
use whatsapp_ai_supervisor.Messages.{Call, Message, Tenant}
use whatsapp_ai_supervisor.DomainEvent.{DomainEvent}
use whatsapp_ai_supervisor.Orchestrator.{handle}
use whatsapp_ai_supervisor.Inbound.{
  Backends, Deed, Enqueued, Verdict, append_event, attribution_read, block_audited, broadcast,
  claim_released, claim_taken, control_set, decision_recorded, echo_consumed, event_appended,
  event_broadcast, inbound_recorded, job_enqueued, manual_recorded, orchestrated, ownership_changed,
  ownership_read, with_conversations,
}
use whatsapp_ai_supervisor.Inbound.Decision.{
  check_inbound, find_block, handle_inbound_decision, settle_decision, verdict_from,
}
use whatsapp_ai_supervisor.Inbound.Gate.{
  Plain, append_event-Plain, broadcast-Plain, find_block-Plain, lifted-calls, settle_decision-Plain,
  with_conversations-Plain,
}
use whatsapp_ai_supervisor.Inbound.Receive.{
  Report, dispatch, enqueued_for, process_claimed, processed_report,
}

-- A deed that gives no claim back.
abbrev pub Unreleased : Deed → Type 0
Unreleased (claim_released _) = ⊥
Unreleased _ = Unit

pub Plain-Unreleased : (deed : Deed) → Plain deed → Unreleased deed
Plain-Unreleased (claim_released _) h = absurd h
Plain-Unreleased (claim_taken _) h = tt
Plain-Unreleased (event_appended _) h = tt
Plain-Unreleased (event_broadcast _) h = tt
Plain-Unreleased (inbound_recorded _ _) h = tt
Plain-Unreleased (job_enqueued _) h = tt
Plain-Unreleased (orchestrated _) h = tt
Plain-Unreleased (block_audited _ _ _ _) h = tt
Plain-Unreleased (decision_recorded _ _ _) h = tt
Plain-Unreleased (ownership_read _ _) h = tt
Plain-Unreleased (ownership_changed _) h = tt
Plain-Unreleased (manual_recorded _ _ _) h = tt
Plain-Unreleased (control_set _ _ _) h = tt
Plain-Unreleased (attribution_read _ _) h = tt
Plain-Unreleased (echo_consumed _ _) h = tt

pub All-orchestrated-Unreleased : (calls : List Call) → All Unreleased (map orchestrated calls)
All-orchestrated-Unreleased [] = tt
All-orchestrated-Unreleased (c ∷ calls) = (tt, All-orchestrated-Unreleased calls)

module _ (backends : Backends) (tenant : Tenant) (message : Message) where
  pub verdict_from-Unreleased :
      (block : Option Verdict) → All Unreleased (verdict_from block backends tenant message).0
  verdict_from-Unreleased (some verdict) = tt
  verdict_from-Unreleased none =
      let run = handle (backends.supervisor tenant) message tenant none in
      subst (All Unreleased) (sym (lifted-calls run)) (All-orchestrated-Unreleased run.0)

  pub handle_inbound_decision-Unreleased :
      (inbound_event : Option DomainEvent)
      → All Unreleased (handle_inbound_decision backends tenant message inbound_event).0
  unfolding handle_inbound_decision
  handle_inbound_decision-Unreleased inbound_event =
      then_run-All Unreleased (quiet (check_inbound backends tenant message inbound_event)) _ tt
        (λ event _.
          then_run-All Unreleased (find_block backends.ownership backends tenant message event) _
            (All-map Plain-Unreleased _
              (find_block-Plain backends tenant message backends.ownership event))
            (λ block _.
              then_run-All Unreleased (verdict_from block backends tenant message)
                (settle_decision backends tenant message event) (verdict_from-Unreleased block)
                (λ verdict _.
                  All-map Plain-Unreleased _
                    (settle_decision-Plain backends tenant message event verdict))))

  pub dispatch-Unreleased :
      (enqueue : Option (Enqueued → Result (Unit {0}))) (event : DomainEvent)
      → All Unreleased (dispatch enqueue backends tenant message event).0
  dispatch-Unreleased (some enqueue) event =
      let job = enqueued_for tenant message event in
      then_run-All Unreleased (call (job_enqueued job) (enqueue job))
        (λ _. quiet (ok (processed_report 1))) (tt, tt) (λ _ _. tt)
  dispatch-Unreleased none event =
      then_run-All Unreleased (handle_inbound_decision backends tenant message (some event))
        (λ _. quiet (ok (processed_report 0))) (handle_inbound_decision-Unreleased (some event))
        (λ _ _. tt)

  pub process_claimed-Unreleased :
      (attempted : DomainEvent)
      → All Unreleased (process_claimed backends tenant message attempted).0
  unfolding process_claimed
  process_claimed-Unreleased attempted =
      then_run-All Unreleased (append_event backends attempted) _
        (All-map Plain-Unreleased _ (append_event-Plain backends tenant message attempted))
        (λ event _.
          then_run-All Unreleased
            (with_conversations backends (inbound_recorded message event)
              (λ c. c.record_inbound message event))
            _
            (All-map Plain-Unreleased _ (
              with_conversations-Plain backends tenant message (inbound_recorded message event)
                (λ c. c.record_inbound message event) tt))
            (λ _ _.
              then_run-All Unreleased (broadcast backends event) _
                (All-map Plain-Unreleased _ (broadcast-Plain backends tenant message event))
                (λ _ _. dispatch-Unreleased backends.enqueue event)))

  -- A message that was processed.
  abbrev pub IsProcessed : Report → Type 0
  IsProcessed report = (queued : ℕ) × (report ≡ processed_report queued)

  pub dispatch-IsProcessed :
      (enqueue : Option (Enqueued → Result (Unit {0}))) (event : DomainEvent) {report : Report}
      → (dispatch enqueue backends tenant message event).1 ≡ ok report
      → IsProcessed report
  dispatch-IsProcessed (some enqueue) event e =
      let job = enqueued_for tenant message event in
      let (_, _, done, _) =
        then_run-ok_parts (call (job_enqueued job) (enqueue job))
          (λ _. quiet (ok (processed_report 1))) e in
      (1, sym (ok-injective done))
  dispatch-IsProcessed none event e =
      let (_, _, done, _) =
        then_run-ok_parts (handle_inbound_decision backends tenant message (some event))
          (λ _. quiet (ok (processed_report 0))) e in
      (0, sym (ok-injective done))

  pub process_claimed-IsProcessed :
      (attempted : DomainEvent) {report : Report}
      → (process_claimed backends tenant message attempted).1 ≡ ok report
      → IsProcessed report
  unfolding process_claimed
  process_claimed-IsProcessed attempted e =
      let (event, _, e₁, _) = then_run-ok_parts (append_event backends attempted) _ e in
      let (_, _, e₂, _) =
        then_run-ok_parts
          (with_conversations backends (inbound_recorded message event)
            (λ c. c.record_inbound message event))
          _ e₁ in
      let (_, _, e₃, _) = then_run-ok_parts (broadcast backends event) _ e₂ in
      dispatch-IsProcessed backends.enqueue event e₃
