-- ===== src/Inbound/Gate.antt =====
-- src/jobs/inbound-decision-handler.js: when the agent gets to decide on a message.
use mathlib.Core.Path.{subst}
use whatsapp_ai_supervisor.Common.{
  All, List, Option, Result, [], arith, false, if-holds, map, none, ok, ok-injective, refl, some,
  sym, throws, ◌∷◌, ◌≡◌,
}
use whatsapp_ai_supervisor.Common.Traces.{call, quiet, then_run-All, then_run-ok_parts}
use whatsapp_ai_supervisor.Messages.{Call, Handled, Message, Tenant}
use whatsapp_ai_supervisor.DomainEvent.{DomainEvent}
use whatsapp_ai_supervisor.Ownership.{
  Ownership, State, ai_active, ai_paused, human_active, human_requested, waiting_approval,
}
use whatsapp_ai_supervisor.Orchestrator.{Run, enriched, handle}
use whatsapp_ai_supervisor.Inbound.{
  Backends, ConversationBackend, Deed, OwnershipBackend, Task, Verdict, append_event, append_with,
  attribution_read, block_audited, broadcast, claim_released, claim_taken, control_set,
  decision_recorded, echo_consumed, event_appended, event_broadcast, inbound_recorded, job_enqueued,
  manual_recorded, orchestrated, ownership_changed, ownership_read, with_conversations, with_store,
}
use whatsapp_ai_supervisor.Inbound.Decision.{
  audit_block, audits_block, block_by_control, block_of, check_inbound,
  create_decision_domain_event, find_block, keep_decision, lifted, owned_conversation,
  settle_decision, verdict_from,
}
use whatsapp_ai_supervisor.Orchestrator.Permitted.{Justified, handle-Justified}

-- A deed that is neither the orchestrator's nor about a claim.
abbrev pub Plain : Deed → Type 0
Plain (orchestrated _) = ⊥
Plain (claim_taken _) = ⊥
Plain (claim_released _) = ⊥
Plain _ = Unit

-- No person has taken the conversation over, by the conversation store.
abbrev pub Uncontrolled : Option ConversationBackend → Tenant → Message → Type 0
Uncontrolled none tenant message = Unit
Uncontrolled (some conversations) tenant message =
    conversations.is_human_controlled tenant.id message.customer_id ≡ false

-- The conversation is the agent's: by the ownership store, or by the conversation store if there is
-- no ownership store.
abbrev pub OpenToAgent :
    Option OwnershipBackend → Backends → Tenant → Message → DomainEvent → Type 0
OpenToAgent none backends tenant message event = Uncontrolled backends.conversations tenant message
OpenToAgent (some store) backends tenant message event =
    (owner : Ownership) × (store.get tenant.id (owned_conversation message event) ≡ ok owner)
    × (owner.state ≡ ai_active)

module _ (backends : Backends) (tenant : Tenant) (message : Message) where
  pub broadcast-Plain : (event : DomainEvent) → All Plain (broadcast backends event).0
  broadcast-Plain event =
      if-holds (λ (t : Task (Unit {0})). All Plain t.0) backends.broadcasts (λ _. (tt, tt))
        (λ _. tt)

  pub append_event-Plain : (event : DomainEvent) → All Plain (append_event backends event).0
  append_event-Plain event =
      elim (backends.append) as (λ append. All Plain (append_with append event).0) [
        | none ↦ tt
        | some append ↦ (tt, tt)
      ]

  pub with_conversations-Plain :
      (deed : Deed) (method : ConversationBackend → Result (Unit {0}))
      → Plain deed
      → All Plain (with_conversations backends deed method).0
  with_conversations-Plain deed method h =
      elim (backends.conversations) as (λ c. All Plain (with_store c deed method).0) [
        | none ↦ tt
        | some conversations ↦ (h, tt)
      ]

  pub audit_block-Plain :
      (verdict : Verdict) (event : DomainEvent)
      → All Plain (audit_block backends tenant message verdict event).0
  audit_block-Plain verdict event =
      if-holds (λ (t : Task (Unit {0})). All Plain t.0) (audits_block verdict) (λ _. (tt, tt))
        (λ _. tt)

  pub keep_decision-Plain :
      (verdict : Verdict) (event : DomainEvent)
      → All Plain (keep_decision backends tenant message verdict event).0
  unfolding keep_decision
  keep_decision-Plain verdict event =
      then_run-All Plain (audit_block backends tenant message verdict event) _
        (audit_block-Plain verdict event)
        (λ _ _.
          then_run-All Plain
            (with_conversations backends (decision_recorded message verdict event)
              (λ c. c.record_decision message verdict event))
            _
            (with_conversations-Plain (decision_recorded message verdict event)
              (λ c. c.record_decision message verdict event) tt)
            (λ _ _.
              then_run-All Plain (broadcast backends event) (λ _. quiet (ok verdict))
                (broadcast-Plain event) (λ _ _. tt)))

  pub settle_decision-Plain :
      (event : DomainEvent) (verdict : Verdict)
      → All Plain (settle_decision backends tenant message event verdict).0
  unfolding settle_decision
  settle_decision-Plain event verdict =
      then_run-All Plain (quiet (create_decision_domain_event backends event verdict)) _ tt
        (λ attempted _.
          then_run-All Plain (append_event backends attempted)
            (keep_decision backends tenant message verdict) (append_event-Plain attempted)
            (λ kept _. keep_decision-Plain verdict kept))

  pub find_block-Plain :
      (store : Option OwnershipBackend) (event : DomainEvent)
      → All Plain (find_block store backends tenant message event).0
  find_block-Plain none event = by_control backends.conversations
    where
      by_control :
          (c : Option ConversationBackend) → All Plain (block_by_control c tenant message).0
      by_control none = tt
      by_control (some conversations) = tt
  find_block-Plain (some store) event =
      then_run-All Plain
        (call (ownership_read tenant.id (owned_conversation message event))
          (store.get tenant.id (owned_conversation message event)))
        (λ ownership. quiet (ok (block_of ownership.state))) (tt, tt) (λ _ _. tt)

  -- A message that nothing blocks is the agent's.
  pub find_block-OpenToAgent :
      (store : Option OwnershipBackend) (event : DomainEvent)
      → (find_block store backends tenant message event).1 ≡ ok none
      → OpenToAgent store backends tenant message event
  find_block-OpenToAgent none event e = by_control backends.conversations e
    where
      by_control :
          (c : Option ConversationBackend)
          → (block_by_control c tenant message).1 ≡ ok none
          → Uncontrolled c tenant message
      by_control none e = tt
      by_control (some conversations) e = ground arith
  find_block-OpenToAgent (some store) event e =
      let (owner, read, passed, _) =
        then_run-ok_parts
          (call (ownership_read tenant.id (owned_conversation message event))
            (store.get tenant.id (owned_conversation message event)))
          (λ ownership. quiet (ok (block_of ownership.state))) e in
      (owner, read, block_of-none owner.state (ok-injective passed))
    where
      block_of-none : (state : State) → block_of state ≡ none → state ≡ ai_active
      block_of-none ai_active e = refl
      block_of-none waiting_approval e = cc
      block_of-none human_requested e = cc
      block_of-none human_active e = cc
      block_of-none ai_paused e = cc

-- What lets the orchestrator make a call: the message and its event were accepted, the conversation
-- is the agent's, and the call is one that the policy justifies.
abbrev pub Sanctioned : Backends → Tenant → Message → Option DomainEvent → Deed → Type 0
Sanctioned backends tenant message inbound_event (orchestrated c) =
    (event : DomainEvent) × (check_inbound backends tenant message inbound_event ≡ ok event)
    × OpenToAgent backends.ownership backends tenant message event
    × Justified (backends.supervisor tenant) tenant
        (enriched (backends.supervisor tenant) tenant message) none c
Sanctioned backends tenant message inbound_event _ = Unit

pub Plain-Sanctioned :
    (backends : Backends) (tenant : Tenant) (message : Message) (inbound_event : Option DomainEvent)
    (deed : Deed)
    → Plain deed
    → Sanctioned backends tenant message inbound_event deed
Plain-Sanctioned backends tenant message inbound_event (orchestrated c) h = absurd h
Plain-Sanctioned backends tenant message inbound_event (claim_taken _) h = absurd h
Plain-Sanctioned backends tenant message inbound_event (claim_released _) h = absurd h
Plain-Sanctioned backends tenant message inbound_event (event_appended _) h = tt
Plain-Sanctioned backends tenant message inbound_event (event_broadcast _) h = tt
Plain-Sanctioned backends tenant message inbound_event (inbound_recorded _ _) h = tt
Plain-Sanctioned backends tenant message inbound_event (job_enqueued _) h = tt
Plain-Sanctioned backends tenant message inbound_event (block_audited _ _ _ _) h = tt
Plain-Sanctioned backends tenant message inbound_event (decision_recorded _ _ _) h = tt
Plain-Sanctioned backends tenant message inbound_event (ownership_read _ _) h = tt
Plain-Sanctioned backends tenant message inbound_event (ownership_changed _) h = tt
Plain-Sanctioned backends tenant message inbound_event (manual_recorded _ _ _) h = tt
Plain-Sanctioned backends tenant message inbound_event (control_set _ _ _) h = tt
Plain-Sanctioned backends tenant message inbound_event (attribution_read _ _) h = tt
Plain-Sanctioned backends tenant message inbound_event (echo_consumed _ _) h = tt

pub All-orchestrated :
    (P : Deed → Type 0) (Q : Call → Type 0) (calls : List Call)
    → ((c : Call) → Q c → P (orchestrated c))
    → All Q calls
    → All P (map orchestrated calls)
All-orchestrated P Q [] f h = tt
All-orchestrated P Q (c ∷ calls) f (h, hs) = (f c h, All-orchestrated P Q calls f hs)

pub lifted-calls : (run : Run Handled) → (lifted run).0 ≡ map orchestrated run.0
lifted-calls (calls, throws e) = refl
lifted-calls (calls, ok handled) = refl

pub verdict_from-Sanctioned :
    (backends : Backends) (tenant : Tenant) (message : Message) (inbound_event : Option DomainEvent)
    (event : DomainEvent) (block : Option Verdict)
    → check_inbound backends tenant message inbound_event ≡ ok event
    → (find_block backends.ownership backends tenant message event).1 ≡ ok block
    → All
        (Sanctioned backends tenant message inbound_event)
        (verdict_from block backends tenant message).0
verdict_from-Sanctioned backends tenant message inbound_event event (some verdict) e₁ e₂ = tt
verdict_from-Sanctioned backends tenant message inbound_event event none e₁ e₂ =
    let services = backends.supervisor tenant in
    let open_to = find_block-OpenToAgent backends tenant message backends.ownership event e₂ in
    subst (All (Sanctioned backends tenant message inbound_event))
      (sym (lifted-calls (handle services message tenant none)))
      (All-orchestrated (Sanctioned backends tenant message inbound_event)
        (Justified services tenant (enriched services tenant message) none)
        (handle services message tenant none).0 (λ c j. (event, e₁, open_to, j))
        (handle-Justified services message tenant none))
