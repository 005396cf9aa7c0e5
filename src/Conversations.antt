-- ===== src/Conversations.antt =====
-- src/core/file-conversation-store.js: the history of the conversations, one file of JSON lines to a
-- tenant. The file system is a function from a file's name to its lines, which are those that this
-- store has written; times and random ids are arguments.
pub mod Lines
pub mod Control
pub mod Threads
pub mod Manual
mod Tests
unfoldable pub use Lines.*
use Prim.Native.String
use whatsapp_ai_supervisor.Common.{
  Bool, List, Option, Result, String, [], false, find, if◌then◌else◌, is_empty, none, not, ok,
  or_else, some, text_of, throws, true, ◌&&◌, ◌==◌, ◌>>=◌, ◌>>◌, ◌∷◌,
}
use whatsapp_ai_supervisor.Messages.{Message, Model}
use whatsapp_ai_supervisor.DomainEvent.{DomainEvent, written}

abbrev pub inbound_line : Message → Option DomainEvent → String → Line
inbound_line incoming domain_event at = record {
  id = incoming.id;
  tenant_id = incoming.tenant_id;
  customer_id = incoming.customer_id;
  customer_name = incoming.customer_name;
  type = Kind.message;
  direction = inbound;
  text = some (text_of incoming.text);
  at = at;
  action = none;
  intent = none;
  confidence = none;
  thinking = none;
  proactive_offer = none;
  model_name = none;
  provider = none;
  mode = none;
  lineage = lineage_fields domain_event;
}

unfoldable pub record_inbound :
    Files → Message → Option DomainEvent → String → Result (Files × Line)
record_inbound files incoming domain_event at =
    append_event files (inbound_line incoming domain_event at)

-- What `recordDecision` takes of a result; `reply_id` is the id of the message that went out.
pub record Decision : Type 0 where
  pub action : String
  pub model : Option Model
  pub reply_id : Option String

-- `model?.field`
abbrev of_model : {A : Type 0} → Option Model → (Model → Option A) → Option A
of_model none field = none
of_model (some model) field = field model

abbrev pub decision_line : Message → Decision → Option DomainEvent → String → String → Line
decision_line incoming result domain_event fresh at =
    record (inbound_line incoming domain_event at) {
      id = fresh;
      type = Kind.decision;
      direction = system;
      text = some (text_of (of_model result.model (λ m. m.reply)));
      action = some result.action;
      intent = of_model result.model (λ m. m.decision.intent);
      confidence = of_model result.model (λ m. m.decision.confidence);
      thinking = of_model result.model (λ m. m.thinking);
      proactive_offer = of_model result.model (λ m. m.proactive_offer);
      model_name = of_model result.model (λ m. m.model);
      provider = of_model result.model (λ m. m.provider);
    }

abbrev pub reply_line : Message → Decision → String → String → Line
reply_line incoming result fresh at = record (decision_line incoming result none fresh at) {
  id = or_else result.reply_id fresh;
  type = Kind.message;
  direction = assistant;
}

abbrev is_reply : Decision → Bool
is_reply result =
    result.action == "reply" && not (is_empty (text_of (of_model result.model (λ m. m.reply))))

abbrev append_reply : Bool → Line → Line → Files → Result (Files × Line)
append_reply false decided reply files = ok (files, decided)
append_reply true decided reply files = do
  written ← append_event files reply
  ok (written.0, decided)

unfoldable pub record_decision :
    Files
    → Message
    → Decision
    → Option DomainEvent
    → String
    → String
    → String
    → Result (Files × Line)
record_decision files incoming result domain_event fresh fresh_reply at = do
  written ← append_event files (decision_line incoming result domain_event fresh at)
  append_reply (is_reply result) written.1 (reply_line incoming result fresh_reply at) written.0

pub record ManualOutbound : Type 0 where
  pub tenant_id : String
  pub customer_id : String
  pub customer_name : Option String
  pub text : Option String
  pub message_id : Option String
  pub at : String

abbrev blank_line : String → String → String → Line
blank_line tenant_id customer_id at = record {
  id = "";
  tenant_id = tenant_id;
  customer_id = customer_id;
  customer_name = none;
  type = Kind.message;
  direction = system;
  text = some "";
  at = at;
  action = none;
  intent = none;
  confidence = none;
  thinking = none;
  proactive_offer = none;
  model_name = none;
  provider = none;
  mode = none;
  lineage = none;
}

abbrev pub manual_line : ManualOutbound → String → Line
manual_line input fresh = record (blank_line input.tenant_id input.customer_id input.at) {
  id = or_else input.message_id fresh;
  customer_name = input.customer_name;
  direction = operator;
  text = input.text;
  action = some "human";
}

abbrev pub is_operator : Direction → Bool
is_operator operator = true
is_operator _ = false

abbrev pub is_manual : String → Line → Bool
is_manual message_id line = line.id == message_id && is_operator line.direction

-- The line of an earlier call with the same message id.
abbrev pub recorded_manual : Files → ManualOutbound → Option Line
recorded_manual files input =
    if is_empty (text_of input.message_id)
    then none
    else find (is_manual (text_of input.message_id)) (read_events files input.tenant_id)

abbrev pub keep_or_append : Files → Line → Option Line → Result (Files × Line)
keep_or_append files line none = append_event files line
keep_or_append files line (some existing) = ok (files, existing)

unfoldable pub record_manual_outbound : Files → ManualOutbound → String → Result (Files × Line)
record_manual_outbound files input fresh =
    keep_or_append files (manual_line input fresh) (recorded_manual files input)

abbrev pub control_mode : String → Option ControlMode
control_mode mode = if mode == "ai" then some ai else if mode == "human" then some human else none

abbrev pub control_line : String → String → ControlMode → String → String → Line
control_line tenant_id customer_id mode fresh at = record (blank_line tenant_id customer_id at) {
  id = fresh;
  type = Kind.control;
  mode = some mode;
}

unfoldable pub set_control :
    Files → String → String → String → String → String → Result (Files × Line)
set_control files tenant_id customer_id mode fresh at = elim (control_mode mode) [
  | none ↦ throws "invalid_conversation_control_mode"
  | some mode ↦ append_event files (control_line tenant_id customer_id mode fresh at)
]

abbrev pub is_control : Kind → Bool
is_control Kind.control = true
is_control _ = false

-- The loop of `getControl`.
unfoldable pub last_mode : String → ControlMode → List Line → ControlMode
last_mode customer_id mode [] = mode
last_mode customer_id mode (line ∷ lines) =
    last_mode customer_id
      (if (line.customer_id == customer_id) && is_control line.type
        then or_else line.mode mode
        else mode)
      lines

unfoldable pub get_control : Files → String → String → ControlMode
get_control files tenant_id customer_id = last_mode customer_id ai (read_events files tenant_id)

abbrev pub is_human : ControlMode → Bool
is_human human = true
is_human ai = false

unfoldable pub is_human_controlled : Files → String → String → Bool
is_human_controlled files tenant_id customer_id = is_human (get_control files tenant_id customer_id)
