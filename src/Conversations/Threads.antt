-- ===== src/Conversations/Threads.antt =====
-- src/core/file-conversation-store.js, `list` and `listRecentEvents`: the threads of a tenant.
use mathlib.Core.List.{reverse}
use whatsapp_ai_supervisor.Common.{
  Bool, List, Option, String, [], arith, drop, eq_iff, eqb, filter, if◌then◌else◌, is_empty, last,
  length, map, none, or_else, refl, some, take, text_of, ℕ, ◌++◌, ◌-◌, ◌==◌, ◌∷◌, ◌≡◌,
}
use whatsapp_ai_supervisor.Common.Numbers.{Number}
use whatsapp_ai_supervisor.Common.Json.{Json}
use whatsapp_ai_supervisor.Common.Maps.{Map, get, get-put, put}
use whatsapp_ai_supervisor.Common.Sorting.{sort_by}
use whatsapp_ai_supervisor.Conversations.{
  ControlMode, Direction, Files, Kind, Line, ai, read_events,
}

pub record ThreadMessage : Type 0 where
  pub id : String
  pub direction : Direction
  pub text : Option String
  pub at : String
  pub action : Option String
  pub intent : Option String
  pub confidence : Option Number
  pub thinking : Option String
  pub proactive_offer : Option Json
  pub model_name : Option String
  pub provider : Option String

pub record Thread : Type 0 where
  pub tenant_id : String
  pub customer_id : String
  pub customer_name : String
  pub control : ControlMode
  pub last_activity_at : String
  pub last_action : Option String
  pub last_intent : Option String
  pub last_confidence : Option Number
  pub messages : List ThreadMessage

-- `value || other`
abbrev pub or_text : Option String → String → String
or_text value other = if is_empty (text_of value) then other else text_of value

-- `if (value) last = value`
abbrev pub replace_text : Option String → Option String → Option String
replace_text value old = if is_empty (text_of value) then old else value

abbrev pub replace_some : Option Number → Option Number → Option Number
replace_some none old = old
replace_some value old = value

abbrev pub start_thread : String → Line → Thread
start_thread tenant_id line = record {
  tenant_id = tenant_id;
  customer_id = line.customer_id;
  customer_name = or_text line.customer_name line.customer_id;
  control = ai;
  last_activity_at = line.at;
  last_action = none;
  last_intent = none;
  last_confidence = none;
  messages = [];
}

abbrev pub thread_message : Line → ThreadMessage
thread_message line = record {
  id = line.id;
  direction = line.direction;
  text = line.text;
  at = line.at;
  action = line.action;
  intent = line.intent;
  confidence = line.confidence;
  thinking = line.thinking;
  proactive_offer = line.proactive_offer;
  model_name = line.model_name;
  provider = line.provider;
}

-- The name and the time, which each line may renew.
abbrev pub touch : Line → Thread → Thread
touch line thread = record thread {
  customer_name = or_text line.customer_name thread.customer_name;
  last_activity_at = or_text (some line.at) thread.last_activity_at;
}

abbrev pub note_decision : Line → Thread → Thread
note_decision line thread = record thread {
  last_action = replace_text line.action thread.last_action;
  last_intent = replace_text line.intent thread.last_intent;
  last_confidence = replace_some line.confidence thread.last_confidence;
}

-- The body of the loop, by the type of the line.
abbrev pub absorb_by : Kind → Line → Thread → Thread
absorb_by Kind.control line thread = record thread { control = or_else line.mode thread.control }
absorb_by Kind.decision line thread = note_decision line thread
absorb_by Kind.message line thread = record (note_decision line thread) {
  messages = thread.messages ++ thread_message line ∷ [];
}

unfoldable pub absorb : Line → Thread → Thread
absorb line thread = absorb_by line.type line (touch line thread)

unfoldable pub add_line : String → Map Thread → Line → Map Thread
add_line tenant_id threads line =
    put threads line.customer_id
      (absorb line (or_else (get threads line.customer_id) (start_thread tenant_id line)))

unfoldable pub add_lines : String → Map Thread → List Line → Map Thread
add_lines tenant_id threads [] = threads
add_lines tenant_id threads (line ∷ lines) =
    add_lines tenant_id (add_line tenant_id threads line) lines

pub record Listed : Type 0 where
  pub thread : Thread
  pub preview : String
  pub message_count : ℕ

-- `messages.at(-1)?.text ?? ''`
abbrev pub preview_of : Option ThreadMessage → String
preview_of none = ""
preview_of (some m) = text_of m.text

abbrev pub listed : String × Thread → Listed
listed entry = record {
  thread = entry.1;
  preview = preview_of (last entry.1.messages);
  message_count = length entry.1.messages;
}

-- `b.localeCompare(a) > 0` is up to the engine's locale data: whether `a` comes after `b` in the
-- list of the threads.
module _ (earlier : String → String → Bool) where
  abbrev pub comes_later : String × Thread → String × Thread → Bool
  comes_later a b = earlier a.1.last_activity_at b.1.last_activity_at

  unfoldable pub list : Files → String → ℕ → List Listed
  list files tenant_id limit =
      map listed
        (take limit (sort_by comes_later (add_lines tenant_id [] (read_events files tenant_id))))

-- `slice(-limit)`, where a limit of 0 takes all, then `reverse`.
unfoldable pub list_recent_events : Files → String → ℕ → List Line
list_recent_events files tenant_id limit =
    let lines = read_events files tenant_id in
    reverse (if eqb limit 0 then lines else drop (length lines - limit) lines)

-- The thread of one customer from that customer's lines alone.
abbrev pub replay : String → Option Thread → List Line → Option Thread
replay tenant_id thread [] = thread
replay tenant_id thread (line ∷ lines) =
    replay tenant_id (some (absorb line (or_else thread (start_thread tenant_id line)))) lines

abbrev pub is_of : String → Line → Bool
is_of customer_id line = line.customer_id == customer_id

pub get-add_line :
    (tenant_id customer_id : String) (threads : Map Thread) (line : Line)
    → get (add_line tenant_id threads line) customer_id ≡ (
        if line.customer_id == customer_id
        then some (absorb line (or_else (get threads customer_id) (start_thread tenant_id line)))
        else get threads customer_id)
unfolding add_line
get-add_line tenant_id customer_id threads line = ground (
  arith,
  get-put threads line.customer_id customer_id
      (absorb line (or_else (get threads line.customer_id) (start_thread tenant_id line))),
  eq_iff line.customer_id customer_id,
)

-- The thread of a customer in the list is what the lines of that customer alone make of it, in their
-- order, whatever other customers' lines stand between them.
pub get-add_lines :
    (tenant_id customer_id : String) (threads : Map Thread) (lines : List Line)
    → get (add_lines tenant_id threads lines) customer_id
      ≡ replay tenant_id (get threads customer_id) (filter (is_of customer_id) lines)
unfolding add_lines filter
get-add_lines tenant_id customer_id threads [] = refl
get-add_lines tenant_id customer_id threads (line ∷ lines) =
    let later = get-add_lines tenant_id customer_id (add_line tenant_id threads line) lines in
    ground (arith, later, get-add_line tenant_id customer_id threads line)
