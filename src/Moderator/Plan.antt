-- ===== src/Moderator/Plan.antt =====
-- src/ai/moderator-engine.js: the report of a pass, and the messages that it hands to the orchestrator.
use Prim.Native.String
use whatsapp_ai_supervisor.Common.{
  Bool, List, String, [], drop, false, if◌then◌else◌, is_empty, length, map, none, not, some,
  text_of, trim, true, ℕ, ◌&&◌, ◌++◌, ◌-◌, ◌∷◌,
}
use whatsapp_ai_supervisor.Messages.{Call, ContextEntry, Done, Handled, Message, did}
use whatsapp_ai_supervisor.Permission.{human, reply}
use whatsapp_ai_supervisor.Conversations.{ControlMode, Direction, inbound}
use whatsapp_ai_supervisor.Conversations.Threads.{Thread, ThreadMessage}

pub record Options : Type 0 where
  pub dry_run : Bool
  pub force_all : Bool
  pub proactive_limit : ℕ

-- What a row of the report tells of a thread; a row of a run carries the whole result.
pub data Finding : Type 0 where
  human_control : Finding
  inbound_resolution proactive_followup proactive_evaluation : Handled → Finding
  failed : (told : String) → Finding

pub record Row : Type 0 where
  pub thread : Thread
  pub finding : Finding

pub record Report : Type 0 where
  pub tenant_id : String
  pub total_threads : ℕ
  pub scanned_threads : ℕ
  pub replies_sent : ℕ
  pub followups_sent : ℕ
  pub human_handoffs : ℕ
  pub skipped : ℕ
  pub results : List Row

abbrev pub no_report : String → ℕ → Report
no_report tenant_id total = record {
  tenant_id = tenant_id;
  total_threads = total;
  scanned_threads = 0;
  replies_sent = 0;
  followups_sent = 0;
  human_handoffs = 0;
  skipped = 0;
  results = [];
}

-- What was done about a thread.
pub data Deed : Type 0 where
  orchestrated : Thread → Call → Deed
  decision_recorded : Thread → Message → Handled → Deed

-- A pass, with what it did before.
abbrev pub Pass : Type 0
Pass = List Deed × Report

abbrev pub is_human : ControlMode → Bool
is_human ControlMode.human = true
is_human ControlMode.ai = false

abbrev pub is_inbound : Direction → Bool
is_inbound inbound = true
is_inbound _ = false

abbrev pub did_reply : Done → Bool
did_reply (did reply) = true
did_reply _ = false

abbrev pub did_handoff : Done → Bool
did_handoff (did human) = true
did_handoff _ = false

-- `result.action === 'reply' && result.model?.reply?.trim()`
unfoldable pub has_replied : Handled → Bool
has_replied result = did_reply result.action && not (is_empty (trim (text_of result.model.reply)))

abbrev pub context_entry : ThreadMessage → ContextEntry
context_entry entry = record {
  direction = if is_inbound entry.direction then "user" else "assistant";
  text = entry.text;
  at = some entry.at;
  intent = none;
}

-- `messages.slice(-6).map(…)`
unfoldable pub recent_context : List ThreadMessage → List ContextEntry
recent_context messages = map context_entry (drop (length messages - 6) messages)

abbrev pub message_about : String → Thread → String → String → Message
message_about tenant_id thread id text = record {
  id = id;
  tenant_id = tenant_id;
  channel = "whatsapp";
  customer_id = thread.customer_id;
  customer_name = some thread.customer_name;
  text = some text;
  context = some (recent_context thread.messages);
}

abbrev pub inbound_message : String → (Thread → String) → Thread → ThreadMessage → Message
inbound_message tenant_id fresh thread entry =
    message_about tenant_id thread (if is_empty entry.id then fresh thread else entry.id)
      (text_of entry.text)

unfoldable pub proactive_text : String → String
proactive_text last_text =
    String.◌++◌
      "[SYSTEM_MODERATOR_PROACTIVE_EVALUATION]: The customer previously talked to us. Last message was: \""
      (String.◌++◌ last_text
        "\". Evaluate if a proactive check-in, gentle follow-up, or helpful assistance is beneficial. If so, draft a natural, warm follow-up in customer's language. If no follow-up is needed, set requestedAction to \"ignore\".")

abbrev pub proactive_message : String → (Thread → String) → Thread → ThreadMessage → Message
proactive_message tenant_id fresh thread entry =
    message_about tenant_id thread (String.◌++◌ "proactive_" (fresh thread))
      (proactive_text (text_of entry.text))

abbrev pub mode_of : Bool → String
mode_of true = "simulation"
mode_of false = "live"

abbrev pub add_row : Report → Thread → Finding → Report
add_row report thread finding = record report {
  results = report.results ++ record { thread = thread; finding = finding } ∷ [];
}
