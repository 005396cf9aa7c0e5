-- ===== src/Moderator/Withheld.antt =====
-- src/ai/moderator-engine.js: which threads a pass touches, and what it does about them.
use Prim.Native.String
use whatsapp_ai_supervisor.Moderator.Simulated.{handle-simulated, simulation_is_not_live}
use whatsapp_ai_supervisor.Common.{
  All, All-append, All-map, Bool-cases, List, Option, Result, String, [], arith, false, if-holds,
  if◌then◌else◌, inl, inr, is_empty, last, ltb, map, none, not, ok, refl, some, suc, text_of,
  throws, trim, true, ◌&&◌, ◌∷◌, ◌≡◌, ◌⊎◌,
}
use whatsapp_ai_supervisor.Common.Traces.{call}
use whatsapp_ai_supervisor.Messages.{Call, Handled, Message, Services, Tenant}
use whatsapp_ai_supervisor.Conversations.Threads.{Thread, ThreadMessage}
use whatsapp_ai_supervisor.Orchestrator.{enriched, handle}
use whatsapp_ai_supervisor.Orchestrator.Permitted.{Justified, handle-Justified}
use whatsapp_ai_supervisor.Orchestrator.Withheld.{Justified-Quiet, Quiet}
use whatsapp_ai_supervisor.Moderator.{
  Deed, Options, Pass, Report, after_followup, after_followup_recording, after_inbound,
  after_recording, by_last, decision_recorded, did_reply, follow_up, has_replied, inbound_message,
  is_human, is_inbound, mode_of, moderate_tenant, moderate_thread, moderate_threads, orchestrate,
  orchestrated, proactive_message, proactive_text, recent_context, resolve_inbound,
}

module _ (services_for : Thread → Services) (fresh : Thread → String) (options : Options)
    (tenant : Tenant) where
  -- A message to the orchestrator for the customer of a thread, by the last entry of the thread: that
  -- text, if it came in, and otherwise the question of a follow-up on it.
  abbrev pub IsMade : Thread → Message → Type 0
  IsMade thread asked =
      (entry : ThreadMessage) × (last thread.messages ≡ some entry)
      × (asked.tenant_id ≡ tenant.id)
      × (asked.customer_id ≡ thread.customer_id)
      × (asked.context ≡ some (recent_context thread.messages))
      × (((is_inbound entry.direction ≡ true)
            × (asked.text ≡ some (text_of entry.text))
            × (asked.id ≡ (if is_empty entry.id then fresh thread else entry.id)))
          ⊎ ((is_inbound entry.direction ≡ false)
              × (asked.text ≡ some (proactive_text (text_of entry.text)))
              × (asked.id ≡ String.◌++◌ "proactive_" (fresh thread))))

  -- No person has the thread, or the pass was told to take every thread.
  abbrev pub IsOpen : Thread → Type 0
  IsOpen thread = (options.force_all ≡ true) ⊎ (is_human thread.control ≡ false)

  -- What was done, was done about an open thread, to its customer: a call that the policy justifies
  -- on the message that the moderator made, or the record of a text of the model, in no dry run.
  abbrev pub IsModerated : Deed → Type 0
  IsModerated (orchestrated thread call) =
      IsOpen thread
      × (asked : Message) × IsMade thread asked
      × Justified (services_for thread) tenant (enriched (services_for thread) tenant asked)
          (some (mode_of options.dry_run)) call
  IsModerated (decision_recorded thread asked result) =
      IsOpen thread
      × IsMade thread asked
      × (options.dry_run ≡ false)
      × ((handle (services_for thread) asked tenant (some (mode_of options.dry_run))).1 ≡ ok result)
      × (did_reply result.action ≡ true)
      × (is_empty (trim (text_of result.model.reply)) ≡ false)

  -- Nothing is sent, attributed, executed or recorded.
  abbrev pub IsDry : Deed → Type 0
  IsDry (orchestrated thread call) = Quiet call
  IsDry (decision_recorded _ _ _) = ⊥

  IsModerated-IsDry : options.dry_run ≡ true → (deed : Deed) → IsModerated deed → IsDry deed
  IsModerated-IsDry dry (orchestrated thread call) (_, asked, _, justified) =
      Justified-Quiet (services_for thread) tenant (enriched (services_for thread) tenant asked)
        (some (mode_of options.dry_run)) (rw dry (simulation_is_not_live tenant)) call justified
  IsModerated-IsDry dry (decision_recorded thread asked result) (_, _, wet, _, _, _) = cc

  orchestrated-IsModerated :
      (thread : Thread) (asked : Message)
      → IsOpen thread
      → IsMade thread asked
      → (calls : List Call)
      → All
          (Justified
            (services_for thread)
            tenant
            (enriched (services_for thread) tenant asked)
            (some (mode_of options.dry_run)))
          calls
      → All IsModerated (map (orchestrated thread) calls)
  orchestrated-IsModerated thread asked opened same [] h = tt
  orchestrated-IsModerated thread asked opened same (made ∷ calls) (h, hs) =
      ((opened, asked, same, h), orchestrated-IsModerated thread asked opened same calls hs)

  module _ (record_decision : Message → Handled → Result (Unit {0})) where
    orchestrate-IsModerated :
        (after : Message → Result Handled → Pass) (thread : Thread) (asked : Message)
        → IsOpen thread
        → IsMade thread asked
        → ((outcome : Result Handled)
            → (handle (services_for thread) asked tenant (some (mode_of options.dry_run))).1
              ≡ outcome
            → All IsModerated (after asked outcome).0)
        → All IsModerated
            (orchestrate services_for fresh record_decision options tenant after thread asked).0
    orchestrate-IsModerated after thread asked opened same h =
        let run = handle (services_for thread) asked tenant (some (mode_of options.dry_run)) in
        All-append IsModerated (map (orchestrated thread) run.0) (after asked run.1).0
          (orchestrated-IsModerated thread asked opened same run.0
            (handle-Justified (services_for thread) asked tenant (some (mode_of options.dry_run))))
          (h run.1 refl)

    after_inbound-IsModerated :
        (report : Report) (thread : Thread) (asked : Message)
        → IsOpen thread
        → IsMade thread asked
        → (outcome : Result Handled)
        → (handle (services_for thread) asked tenant (some (mode_of options.dry_run))).1 ≡ outcome
        → All IsModerated
            (after_inbound services_for fresh record_decision options tenant report thread asked
              outcome).0
    unfolding has_replied
    after_inbound-IsModerated report thread asked opened same (throws told) e = tt
    after_inbound-IsModerated report thread asked opened same (ok result) e =
        if-holds (λ (pass : Pass). All IsModerated pass.0)
          (not options.dry_run && has_replied result)
          (λ h.
            recorded (ground (arith, h)) (ground (arith, h)) (ground (arith, h))
              (record_decision asked result))
          (λ _. tt)
      where
        recorded :
            options.dry_run ≡ false
            → did_reply result.action ≡ true
            → is_empty (trim (text_of result.model.reply)) ≡ false
            → (outcome : Result (Unit {0}))
            → All IsModerated
                (after_recording services_for fresh record_decision options tenant report thread
                  asked result outcome).0
        recorded wet replies full (throws told) = ((opened, same, wet, e, replies, full), tt)
        recorded wet replies full (ok _) = ((opened, same, wet, e, replies, full), tt)

    after_followup-IsModerated :
        (report : Report) (thread : Thread) (asked : Message)
        → IsOpen thread
        → IsMade thread asked
        → (outcome : Result Handled)
        → (handle (services_for thread) asked tenant (some (mode_of options.dry_run))).1 ≡ outcome
        → All IsModerated
            (after_followup services_for fresh record_decision options tenant report thread asked
              outcome).0
    unfolding has_replied
    after_followup-IsModerated report thread asked opened same (throws told) e = tt
    after_followup-IsModerated report thread asked opened same (ok result) e =
        if-holds (λ (pass : Pass). All IsModerated pass.0) (has_replied result)
          (λ h. elim (Bool-cases options.dry_run) [
            | inl dry ↦ absurd (
                contradiction (ground (arith, h))
                  (handle-simulated (services_for thread) asked tenant (rw dry at e)))
            | inr wet ↦
                recorded wet (ground (arith, h)) (ground (arith, h)) (record_decision asked result)
          ])
          (λ _. tt)
      where
        contradiction : did_reply result.action ≡ true → did_reply result.action ≡ false → ⊥
        contradiction is_reply no_reply = cc

        recorded :
            options.dry_run ≡ false
            → did_reply result.action ≡ true
            → is_empty (trim (text_of result.model.reply)) ≡ false
            → (outcome : Result (Unit {0}))
            → All IsModerated
                (after_followup_recording services_for fresh record_decision options tenant report
                  thread asked result outcome).0
        recorded wet replies full (throws told) = ((opened, same, wet, e, replies, full), tt)
        recorded wet replies full (ok _) = ((opened, same, wet, e, replies, full), tt)

    by_last-IsModerated :
        (report : Report) (thread : Thread)
        → IsOpen thread
        → (found : Option ThreadMessage) → last thread.messages ≡ found
        → All IsModerated
            (by_last services_for fresh record_decision options tenant report thread found).0
    unfolding resolve_inbound follow_up
    by_last-IsModerated report thread opened none e = tt
    by_last-IsModerated report thread opened (some entry) e =
        if-holds (λ (pass : Pass). All IsModerated pass.0) (is_inbound entry.direction)
          (λ h.
            orchestrate-IsModerated
              (after_inbound services_for fresh record_decision options tenant report thread) thread
              (inbound_message tenant.id fresh thread entry) opened (made_in h)
              (after_inbound-IsModerated report thread
                (inbound_message tenant.id fresh thread entry) opened (made_in h)))
          (λ h.
            if-holds (λ (pass : Pass). All IsModerated pass.0)
              (ltb report.followups_sent options.proactive_limit)
              (λ _.
                orchestrate-IsModerated
                  (after_followup services_for fresh record_decision options tenant report thread)
                  thread (proactive_message tenant.id fresh thread entry) opened (made_out h)
                  (after_followup-IsModerated report thread
                    (proactive_message tenant.id fresh thread entry) opened (made_out h)))
              (λ _. tt))
      where
        made_in :
            is_inbound entry.direction ≡ true
            → IsMade thread (inbound_message tenant.id fresh thread entry)
        made_in h = (entry, e, refl, refl, refl, inl (h, refl, refl))

        made_out :
            is_inbound entry.direction ≡ false
            → IsMade thread (proactive_message tenant.id fresh thread entry)
        made_out h = (entry, e, refl, refl, refl, inr (h, refl, refl))

    moderate_thread-IsModerated :
        (report : Report) (thread : Thread)
        → All IsModerated
            (moderate_thread services_for fresh record_decision options tenant report thread).0
    unfolding moderate_thread
    moderate_thread-IsModerated report thread =
        if-holds (λ (pass : Pass). All IsModerated pass.0)
          (is_human thread.control && not options.force_all) (λ _. tt)
          (λ h. by_last-IsModerated report thread (open_by h) (last thread.messages) refl)
      where
        open_by : (is_human thread.control && not options.force_all) ≡ false → IsOpen thread
        open_by h = elim (Bool-cases options.force_all) [
          | inl forced ↦ inl forced
          | inr gentle ↦ inr (ground (arith, h, gentle))
        ]

    moderate_threads-IsModerated :
        (report : Report) (threads : List Thread)
        → All IsModerated
            (moderate_threads services_for fresh record_decision options tenant report threads).0
    unfolding moderate_threads
    moderate_threads-IsModerated report [] = tt
    moderate_threads-IsModerated report (thread ∷ threads) =
        let pass =
          moderate_thread services_for fresh record_decision options tenant
            (record report { scanned_threads = suc report.scanned_threads }) thread in
        All-append IsModerated pass.0 _ (moderate_thread-IsModerated _ thread)
          (moderate_threads-IsModerated pass.1 threads)

-- Whatever the model, the stores and the sender answer, a pass of the moderator touches a thread that a
-- person has only if it was told to take every thread; it sends a text, attributes one or executes an
-- action only where the policy justifies that on the message it made for the customer of the thread by
-- the thread's last entry; it records only a reply, not blank, that the orchestrator came to on that
-- message, and none in a dry run; and a dry run sends, attributes and executes nothing.
pub moderate_tenant-IsModerated :
    (services_for : Thread → Services) (fresh : Thread → String)
    (record_decision : Message → Handled → Result (Unit {0})) (options : Options) (tenant : Tenant)
    (threads : List Thread)
    → (let deeds = (moderate_tenant services_for fresh record_decision options tenant threads).0 in
        All (IsModerated services_for fresh options tenant) deeds
        × (options.dry_run ≡ true → All (IsDry services_for fresh options tenant) deeds))
unfolding moderate_tenant
moderate_tenant-IsModerated services_for fresh record_decision options tenant threads =
    let moderated =
      moderate_threads-IsModerated services_for fresh options tenant record_decision _ threads in
    (
      moderated,
      λ dry. All-map (IsModerated-IsDry services_for fresh options tenant dry) _ moderated,
    )
