-- ===== src/Moderator.antt =====
-- src/ai/moderator-engine.js: the pass over the threads of a tenant that answers what is unanswered and
-- follows up what is not. An orchestrator is that of src/core/orchestrator.js on the services that it has
-- for a thread; a random id of a thread is an argument.
pub mod Simulated
pub mod Plan
pub mod Withheld
pub mod Bounded
mod Tests
unfoldable pub use Plan.*
use Prim.Native.String
use whatsapp_ai_supervisor.Common.{
  Bool, List, Option, Result, String, [], if◌then◌else◌, is_empty, last, length, ltb, map, none,
  not, ok, some, suc, text_of, throws, ℕ, ◌&&◌, ◌++◌, ◌+◌, ◌∷◌,
}
use whatsapp_ai_supervisor.Messages.{Handled, Message, Services, Tenant}
use whatsapp_ai_supervisor.Conversations.{is_human, record_decision}
use whatsapp_ai_supervisor.Conversations.Threads.{Thread, ThreadMessage}
use whatsapp_ai_supervisor.Orchestrator.{handle}

module _ (services_for : Thread → Services) (fresh : Thread → String)
    (record_decision : Message → Handled → Result (Unit {0})) (options : Options)
    (tenant : Tenant) where
  -- `catch (error)` of an inbound message, and its end.
  abbrev pub after_recording : Report → Thread → Message → Handled → Result (Unit {0}) → Pass
  after_recording report thread asked result (throws told) =
      (decision_recorded thread asked result ∷ [], add_row report thread (failed told))
  after_recording report thread asked result (ok _) = (
    decision_recorded thread asked result ∷ [],
    add_row (record report { replies_sent = suc report.replies_sent }) thread
        (inbound_resolution result),
  )

  abbrev pub after_inbound : Report → Thread → Message → Result Handled → Pass
  after_inbound report thread asked (throws told) = ([], add_row report thread (failed told))
  after_inbound report thread asked (ok result) =
      if not options.dry_run && has_replied result
      then after_recording report thread asked result (record_decision asked result)
      else (
        [],
        add_row
            (if did_handoff result.action
              then record report { human_handoffs = suc report.human_handoffs }
              else report)
            thread (inbound_resolution result),
      )

  -- An error of a follow-up is logged and leaves no row.
  abbrev pub after_followup_recording :
      Report → Thread → Message → Handled → Result (Unit {0}) → Pass
  after_followup_recording report thread asked result (throws told) =
      (decision_recorded thread asked result ∷ [], report)
  after_followup_recording report thread asked result (ok _) = (
    decision_recorded thread asked result ∷ [],
    add_row (record report { followups_sent = suc report.followups_sent }) thread
        (proactive_followup result),
  )

  abbrev pub after_followup : Report → Thread → Message → Result Handled → Pass
  after_followup report thread asked (throws told) = ([], report)
  after_followup report thread asked (ok result) =
      if has_replied result
      then after_followup_recording report thread asked result (record_decision asked result)
      else (
        [],
        add_row
            (if did_handoff result.action
              then record report { human_handoffs = suc report.human_handoffs }
              else report)
            thread (proactive_evaluation result),
      )

  abbrev pub orchestrate : (Message → Result Handled → Pass) → Thread → Message → Pass
  orchestrate after thread asked =
      let run = handle (services_for thread) asked tenant (some (mode_of options.dry_run)) in
      let (deeds, report) = after asked run.1 in (map (orchestrated thread) run.0 ++ deeds, report)

  unfoldable pub resolve_inbound : Report → Thread → ThreadMessage → Pass
  resolve_inbound report thread last_message =
      orchestrate (after_inbound report thread) thread
        (inbound_message tenant.id fresh thread last_message)

  unfoldable pub follow_up : Report → Thread → ThreadMessage → Pass
  follow_up report thread last_message =
      orchestrate (after_followup report thread) thread
        (proactive_message tenant.id fresh thread last_message)

  abbrev pub by_last : Report → Thread → Option ThreadMessage → Pass
  by_last report thread none = ([], record report { skipped = suc report.skipped })
  by_last report thread (some last_message) =
      if is_inbound last_message.direction
      then resolve_inbound report thread last_message
      else if ltb report.followups_sent options.proactive_limit
      then follow_up report thread last_message
      else ([], report)

  -- The body of the loop, after the thread was counted.
  unfoldable pub moderate_thread : Report → Thread → Pass
  moderate_thread report thread =
      if is_human thread.control && not options.force_all
      then ([], add_row (record report { skipped = suc report.skipped }) thread human_control)
      else by_last report thread (last thread.messages)

  unfoldable pub moderate_threads : Report → List Thread → Pass
  moderate_threads report [] = ([], report)
  moderate_threads report (thread ∷ threads) =
      let (deeds, next) =
        moderate_thread (record report { scanned_threads = suc report.scanned_threads }) thread in
      let (later, done) = moderate_threads next threads in (deeds ++ later, done)

  unfoldable pub moderate_tenant : List Thread → Pass
  moderate_tenant threads = moderate_threads (no_report tenant.id (length threads)) threads

pub record Totals : Type 0 where
  pub dry_run : Bool
  pub tenants_processed : ℕ
  pub total_threads : ℕ
  pub total_replies_sent : ℕ
  pub total_followups_sent : ℕ
  pub total_human_handoffs : ℕ
  pub summaries : List Report

abbrev pub add_report : Report → Totals → Totals
add_report report totals = record totals {
  tenants_processed = suc totals.tenants_processed;
  total_threads = report.total_threads + totals.total_threads;
  total_replies_sent = report.replies_sent + totals.total_replies_sent;
  total_followups_sent = report.followups_sent + totals.total_followups_sent;
  total_human_handoffs = report.human_handoffs + totals.total_human_handoffs;
  summaries = report ∷ totals.summaries;
}

-- `[tenant].filter(Boolean)`
abbrev pub found_tenants : Option Tenant → List Tenant
found_tenants none = []
found_tenants (some tenant) = tenant ∷ []

module _ (services_for : Tenant → Thread → Services) (fresh : Thread → String)
    (record_decision : Message → Handled → Result (Unit {0})) (options : Options)
    (threads_of : Tenant → List Thread) where
  unfoldable pub moderate_tenants : List Tenant → List Deed × Totals
  moderate_tenants [] = (
    [],
    record {
      dry_run = options.dry_run;
      tenants_processed = 0;
      total_threads = 0;
      total_replies_sent = 0;
      total_followups_sent = 0;
      total_human_handoffs = 0;
      summaries = [];
    },
  )
  moderate_tenants (tenant ∷ tenants) =
      let (deeds, report) =
        moderate_tenant (services_for tenant) fresh record_decision options tenant
          (threads_of tenant) in
      let (later, totals) = moderate_tenants tenants in (deeds ++ later, add_report report totals)

  unfoldable pub moderate_all :
      (find_by_id : String → Option Tenant) → List Tenant → Option String → List Deed × Totals
  moderate_all find_by_id tenants tenant_id =
      if is_empty (text_of tenant_id)
      then moderate_tenants tenants
      else moderate_tenants (found_tenants (find_by_id (text_of tenant_id)))
