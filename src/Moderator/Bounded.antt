-- ===== src/Moderator/Bounded.antt =====
-- src/ai/moderator-engine.js: what the counts of a pass's report add up to.
use whatsapp_ai_supervisor.Common.{
  Bool, List, Option, Result, String, [], ap, arith, false, if-holds, if◌then◌else◌, last, length,
  length-append, ltb, none, not, ok, refl, some, suc, throws, true, ℕ, ◌&&◌, ◌++◌, ◌+◌, ◌<◌, ◌∙◌,
  ◌∷◌, ◌≡◌, ◌≤◌,
}
use whatsapp_ai_supervisor.Messages.{Handled, Message, Services, Tenant}
use whatsapp_ai_supervisor.Conversations.Threads.{Thread, ThreadMessage}
use whatsapp_ai_supervisor.Moderator.{
  Finding, Options, Pass, Report, add_row, after_followup, after_followup_recording, after_inbound,
  after_recording, by_last, did_handoff, failed, follow_up, has_replied, human_control,
  inbound_message, inbound_resolution, is_human, is_inbound, moderate_tenant, moderate_thread,
  moderate_threads, no_report, proactive_evaluation, proactive_followup, proactive_message,
  resolve_inbound,
}

abbrev pub counted : Report → ℕ
counted report =
    report.replies_sent + report.followups_sent + report.human_handoffs + report.skipped

-- A report after `rounds` more threads: each is counted at most once and has at most one row.
record IsAhead (limit rounds : ℕ) (before after : Report) : Type 0 where
  same_total : after.total_threads ≡ before.total_threads
  same_scanned : after.scanned_threads ≡ before.scanned_threads
  followups : before.followups_sent ≤ limit → after.followups_sent ≤ limit
  counts : counted after ≤ counted before + rounds
  rows : length after.results ≤ length before.results + rounds

length-snoc : {A : Type 0} (xs : List A) (x : A) → length (xs ++ x ∷ []) ≡ suc (length xs)
length-snoc xs x = omega (arith, length-append xs (x ∷ []))

stays : (limit : ℕ) (report : Report) → IsAhead limit 1 report report
stays limit report = record {
  same_total = refl;
  same_scanned = refl;
  followups = λ h. h;
  counts = omega arith;
  rows = omega arith;
}

-- The report with one more row.
adds_row :
    (limit : ℕ) (before after : Report) (thread : Thread) (finding : Finding)
    → after.results ≡ before.results
    → after.total_threads ≡ before.total_threads
    → after.scanned_threads ≡ before.scanned_threads
    → (before.followups_sent ≤ limit → after.followups_sent ≤ limit)
    → counted after ≤ counted before + 1
    → IsAhead limit 1 before (add_row after thread finding)
adds_row limit before after thread finding same total scanned followups counts = record {
  same_total = total;
  same_scanned = scanned;
  followups = followups;
  counts = counts;
  rows = omega (
    arith,
    length-snoc after.results (record { thread = thread; finding = finding }),
    ap length same,
  );
}

handoff_row :
    (limit : ℕ) (report : Report) (b : Bool) (thread : Thread) (finding : Finding)
    → IsAhead limit 1 report (
        add_row
          (if b then record report { human_handoffs = suc report.human_handoffs } else report)
          thread
          finding)
handoff_row limit report true thread finding =
    adds_row limit report _ thread finding refl refl refl (λ h. h) (omega arith)
handoff_row limit report false thread finding =
    adds_row limit report report thread finding refl refl refl (λ h. h) (omega arith)

module _ (services_for : Thread → Services) (fresh : Thread → String)
    (record_decision : Message → Handled → Result (Unit {0})) (options : Options)
    (tenant : Tenant) where
  after_inbound-IsAhead :
      (report : Report) (thread : Thread) (asked : Message) (outcome : Result Handled)
      → IsAhead options.proactive_limit 1 report
          (after_inbound services_for fresh record_decision options tenant report thread asked
            outcome).1
  after_inbound-IsAhead report thread asked (throws told) =
      adds_row options.proactive_limit report report thread (failed told) refl refl refl (λ h. h)
        (omega arith)
  after_inbound-IsAhead report thread asked (ok result) =
      if-holds (λ (pass : Pass). IsAhead options.proactive_limit 1 report pass.1)
        (not options.dry_run && has_replied result) (λ _. recorded (record_decision asked result))
        (λ _.
          handoff_row options.proactive_limit report (did_handoff result.action) thread
            (inbound_resolution result))
    where
      recorded :
          (outcome : Result (Unit {0}))
          → IsAhead options.proactive_limit 1 report
              (after_recording services_for fresh record_decision options tenant report thread asked
                result outcome).1
      recorded (throws told) =
          adds_row options.proactive_limit report report thread (failed told) refl refl refl
            (λ h. h) (omega arith)
      recorded (ok _) =
          adds_row options.proactive_limit report _ thread (inbound_resolution result) refl refl
            refl (λ h. h) (omega arith)

  after_followup-IsAhead :
      (report : Report) (thread : Thread) (asked : Message) (outcome : Result Handled)
      → report.followups_sent < options.proactive_limit
      → IsAhead options.proactive_limit 1 report
          (after_followup services_for fresh record_decision options tenant report thread asked
            outcome).1
  after_followup-IsAhead report thread asked (throws told) below =
      stays options.proactive_limit report
  after_followup-IsAhead report thread asked (ok result) below =
      if-holds (λ (pass : Pass). IsAhead options.proactive_limit 1 report pass.1)
        (has_replied result) (λ _. recorded (record_decision asked result))
        (λ _.
          handoff_row options.proactive_limit report (did_handoff result.action) thread
            (proactive_evaluation result))
    where
      recorded :
          (outcome : Result (Unit {0}))
          → IsAhead options.proactive_limit 1 report
              (after_followup_recording services_for fresh record_decision options tenant report
                thread asked result outcome).1
      recorded (throws told) = stays options.proactive_limit report
      recorded (ok _) =
          adds_row options.proactive_limit report _ thread (proactive_followup result) refl refl
            refl (λ _. omega (arith, below)) (omega arith)

  by_last-IsAhead :
      (report : Report) (thread : Thread) (found : Option ThreadMessage)
      → IsAhead options.proactive_limit 1 report
          (by_last services_for fresh record_decision options tenant report thread found).1
  unfolding resolve_inbound follow_up
  by_last-IsAhead report thread none = record {
    same_total = refl;
    same_scanned = refl;
    followups = λ h. h;
    counts = omega arith;
    rows = omega arith;
  }
  by_last-IsAhead report thread (some entry) =
      if-holds (λ (pass : Pass). IsAhead options.proactive_limit 1 report pass.1)
        (is_inbound entry.direction)
        (λ _. after_inbound-IsAhead report thread (inbound_message tenant.id fresh thread entry) _)
        (λ _.
          if-holds (λ (pass : Pass). IsAhead options.proactive_limit 1 report pass.1)
            (ltb report.followups_sent options.proactive_limit)
            (λ below.
              after_followup-IsAhead report thread (proactive_message tenant.id fresh thread entry)
                _ (ground (arith, below)))
            (λ _. stays options.proactive_limit report))

  moderate_thread-IsAhead :
      (report : Report) (thread : Thread)
      → IsAhead options.proactive_limit 1 report
          (moderate_thread services_for fresh record_decision options tenant report thread).1
  unfolding moderate_thread
  moderate_thread-IsAhead report thread =
      if-holds (λ (pass : Pass). IsAhead options.proactive_limit 1 report pass.1)
        (is_human thread.control && not options.force_all)
        (λ _.
          adds_row options.proactive_limit report _ thread human_control refl refl refl (λ h. h)
            (omega arith))
        (λ _. by_last-IsAhead report thread (last thread.messages))

  moderate_threads-counts :
      (report : Report) (threads : List Thread)
      → report.followups_sent ≤ options.proactive_limit
      → (let after =
            (moderate_threads services_for fresh record_decision options tenant report threads).1 in
          (after.total_threads ≡ report.total_threads)
          × (after.scanned_threads ≡ report.scanned_threads + length threads)
          × (after.followups_sent ≤ options.proactive_limit)
          × (counted after ≤ counted report + length threads)
          × (length after.results ≤ length report.results + length threads))
  unfolding moderate_threads
  moderate_threads-counts report [] h = (refl, omega arith, h, omega arith, omega arith)
  moderate_threads-counts report (thread ∷ threads) h =
      let begun = record report { scanned_threads = suc report.scanned_threads } in
      let ahead = moderate_thread-IsAhead begun thread in
      let next =
        (moderate_thread services_for fresh record_decision options tenant begun thread).1 in
      let (total, scanned, followups, counts, rows) =
        moderate_threads-counts next threads (ahead.followups h) in
      (
        total ∙ ahead.same_total,
        omega (arith, scanned, ahead.same_scanned),
        followups,
        omega (arith, counts, ahead.counts),
        omega (arith, rows, ahead.rows),
      )

-- A pass over the threads of a tenant scans each of them, counts no more follow-ups than the limit and
-- each thread at most once as a reply, a follow-up, a handoff or a skip, and reports each in at most one
-- row.
pub moderate_tenant-counts :
    (services_for : Thread → Services) (fresh : Thread → String)
    (record_decision : Message → Handled → Result (Unit {0})) (options : Options) (tenant : Tenant)
    (threads : List Thread)
    → (let report = (moderate_tenant services_for fresh record_decision options tenant threads).1 in
        (report.total_threads ≡ length threads)
        × (report.scanned_threads ≡ length threads)
        × (report.followups_sent ≤ options.proactive_limit)
        × (counted report ≤ length threads)
        × (length report.results ≤ length threads))
unfolding moderate_tenant
moderate_tenant-counts services_for fresh record_decision options tenant threads =
    let (total, scanned, followups, counts, rows) =
      moderate_threads-counts services_for fresh record_decision options tenant
        (no_report tenant.id (length threads)) threads (omega arith) in
    (total, omega (arith, scanned), followups, omega (arith, counts), omega (arith, rows))
