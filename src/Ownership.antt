-- ===== src/Ownership.antt =====
-- src/domain/conversation-ownership.js: who may answer a conversation.
-- A field of a record from outside is `none` for null or undefined, and otherwise the text that
-- `String` gives for it. A thrown `Error` is its message.
pub mod Normal
pub mod Laws
pub mod Safety
mod Tests
use Prim.Native.String
use whatsapp_ai_supervisor.Common.{
  Bool, Option, Result, String, if◌then◌else◌, is_empty, is_text, none, ok, require, some, text_of,
  throws, trim, ℕ, ◌+◌, ◌==◌, ◌>>=◌, ◌>>◌,
}
use whatsapp_ai_supervisor.Common.Numbers.{Number, as_natural, of_natural}

pub data State : Type 0 where
  ai_active waiting_approval human_requested human_active ai_paused : State

pub data Command : Type 0 where
  manual_takeover request_handoff wait_for_approval approval_resolved pause_agent : Command
  release_to_agent resume_agent : Command

abbrev pub state_text : State → String
state_text ai_active = "AI_ACTIVE"
state_text waiting_approval = "WAITING_APPROVAL"
state_text human_requested = "HUMAN_REQUESTED"
state_text human_active = "HUMAN_ACTIVE"
state_text ai_paused = "AI_PAUSED"

-- `STATES.has(text)`, with the state.
unfoldable pub find_state : String → Option State
find_state text =
    if text == "AI_ACTIVE"
    then some ai_active
    else if text == "WAITING_APPROVAL"
    then some waiting_approval
    else if text == "HUMAN_REQUESTED"
    then some human_requested
    else if text == "HUMAN_ACTIVE"
    then some human_active
    else if text == "AI_PAUSED"
    then some ai_paused
    else none

-- `COMMANDS.has(text)`, with the command.
unfoldable pub find_command : String → Option Command
find_command text =
    if text == "manual_takeover"
    then some manual_takeover
    else if text == "request_handoff"
    then some request_handoff
    else if text == "wait_for_approval"
    then some wait_for_approval
    else if text == "approval_resolved"
    then some approval_resolved
    else if text == "pause_agent"
    then some pause_agent
    else if text == "release_to_agent"
    then some release_to_agent
    else if text == "resume_agent"
    then some resume_agent
    else none

-- A record as a caller hands it over.
pub record RawOwnership : Type 0 where
  pub tenant_id : Option String
  pub conversation_id : Option String
  pub state : Option String
  pub version : Number
  pub changed_at : Option String
  pub changed_by : Option String
  pub reason_code : Option String
  pub transition_id : Option String

-- A record that `normalizeRecord` returns.
pub record Ownership : Type 0 where
  pub tenant_id : String
  pub conversation_id : String
  pub state : State
  pub version : ℕ
  pub changed_at : String
  pub changed_by : String
  pub reason_code : Option String
  pub transition_id : Option String

-- The same object, read again.
abbrev pub raw_of : Ownership → RawOwnership
raw_of r = record {
  tenant_id = some r.tenant_id;
  conversation_id = some r.conversation_id;
  state = some (state_text r.state);
  version = of_natural r.version;
  changed_at = some r.changed_at;
  changed_by = some r.changed_by;
  reason_code = r.reason_code;
  transition_id = r.transition_id;
}

unfoldable pub required_string : Option String → String → Result String
required_string value field =
    let normalized = trim (text_of value) in
    if is_empty normalized
    then throws (String.◌++◌ "ownership_" (String.◌++◌ field "_required"))
    else ok normalized

-- `x == null ? null : requiredString(x, field)`
unfoldable pub nullable_string : Option String → String → Result (Option String)
nullable_string none field = ok none
nullable_string (some value) field = do ok (some (← required_string (some value) field))

abbrev found_or {ℓ} : {A : Type ℓ} → Option A → String → Result A
found_or none message = throws message
found_or (some a) message = ok a

-- The command that a text names, after trimming.
unfoldable pub command_of : Option String → Result Command
command_of command = do
  name ← required_string command "command"
  found_or (find_command name) (String.◌++◌ "unsupported_ownership_command: " name)

unfoldable pub next_state_for : State → Command → State
next_state_for state manual_takeover = human_active
next_state_for ai_active request_handoff = human_requested
next_state_for ai_active wait_for_approval = waiting_approval
next_state_for waiting_approval approval_resolved = ai_active
next_state_for human_active pause_agent = human_active
next_state_for state pause_agent = ai_paused
next_state_for human_active release_to_agent = ai_active
next_state_for ai_paused resume_agent = ai_active
next_state_for state _ = state

abbrev pub same_state : State → State → Bool
same_state a b = state_text a == state_text b

-- The options of `transitionOwnership`; `now` is the clock's next reading.
pub record Options : Type 0 where
  pub transition_id : Option String
  pub actor : Option String
  pub reason_code : Option String
  pub now : String

-- `Number.isFinite(Date.parse(text))`: which texts are dates is up to the JavaScript engine.
module _ (is_date : String → Bool) where
  unfoldable pub normalize_record : Option RawOwnership → Result Ownership
  normalize_record none = throws "conversation_ownership_required"
  normalize_record (some raw) = do
    tenant_id ← required_string raw.tenant_id "tenant_id"
    conversation_id ← required_string raw.conversation_id "conversation_id"
    state_name ← required_string raw.state "state"
    changed_at ← required_string raw.changed_at "changed_at"
    changed_by ← required_string raw.changed_by "changed_by"
    reason_code ← nullable_string raw.reason_code "reason_code"
    transition_id ← nullable_string raw.transition_id "transition_id"
    state ←
        found_or (find_state state_name) (String.◌++◌ "unsupported_ownership_state: " state_name)
    version ← found_or (as_natural raw.version) "ownership_version_invalid"
    require (is_date changed_at) "ownership_changed_at_invalid"
    ok (record {
      tenant_id = tenant_id;
      conversation_id = conversation_id;
      state = state;
      version = version;
      changed_at = changed_at;
      changed_by = changed_by;
      reason_code = reason_code;
      transition_id = transition_id;
    })

  unfoldable pub assert_conversation_ownership : Option RawOwnership → Result (Option RawOwnership)
  assert_conversation_ownership raw = do _ ← normalize_record raw; ok raw

  unfoldable pub create_initial_ownership :
      Option String → Option String → String → String → Result Ownership
  create_initial_ownership tenant_id conversation_id now actor = normalize_record (
      some (record {
        tenant_id = tenant_id;
        conversation_id = conversation_id;
        state = some "AI_ACTIVE";
        version = of_natural 0;
        changed_at = some now;
        changed_by = some actor;
        reason_code = some "default_ai_active";
        transition_id = none;
      }))

  -- The last part of `transitionOwnership`, from the test for a repeated transition on. Versions are
  -- taken below 2 ^ 53, up to which a double counts exactly.
  unfoldable pub advance :
      Ownership → Command → String → String → Option String → String → Result Ownership
  advance r command transition_id actor reason_code now =
      let next_state = next_state_for r.state command in
      if is_text r.transition_id transition_id
      then ok r
      else if same_state next_state r.state
      then ok r
      else normalize_record (
          some (record (raw_of r) {
            state = some (state_text next_state);
            version = of_natural (r.version + 1);
            changed_at = some now;
            changed_by = some actor;
            reason_code = reason_code;
            transition_id = some transition_id;
          }))

  unfoldable pub transition_ownership :
      Option RawOwnership → Option String → Options → Result Ownership
  transition_ownership current command options = do
    r ← normalize_record current
    c ← command_of command
    transition_id ← required_string options.transition_id "transition_id"
    actor ← required_string options.actor "actor"
    advance r c transition_id actor options.reason_code options.now
