-- ===== src/Conversations/Control.antt =====
-- src/core/file-conversation-store.js, `setControl` and `getControl`.
use mathlib.Core.Path.{subst}
use whatsapp_ai_supervisor.Common.{
  List, String, [], arith, if◌then◌else◌, is_empty, not, ok, ok-injective, or_else, refl,
  require-passed, some, ◌&&◌, ◌++◌, ◌==◌, ◌∷◌, ◌≡◌,
}
use whatsapp_ai_supervisor.Conversations.{
  ControlMode, Files, Line, ai, append_event, append_to, control_line, control_mode, file_for,
  get_control, is_control, last_mode, read_events, set_control,
}

-- What one more line does to the control of a conversation.
abbrev pub mode_after : String → ControlMode → Line → ControlMode
mode_after customer_id mode line =
    if (line.customer_id == customer_id) && is_control line.type
    then or_else line.mode mode
    else mode

pub last_mode-append :
    (customer_id : String) (mode : ControlMode) (lines : List Line) (line : Line)
    → last_mode customer_id mode (lines ++ line ∷ [])
      ≡ mode_after customer_id (last_mode customer_id mode lines) line
unfolding last_mode
last_mode-append customer_id mode [] line = refl
last_mode-append customer_id mode (first ∷ lines) line =
    last_mode-append customer_id (mode_after customer_id mode first) lines line

pub append_event-ok :
    (files : Files) (line : Line) {after : Files × Line}
    → append_event files line ≡ ok after
    → (append_to files (file_for line.tenant_id) line, line) ≡ after
unfolding append_event
append_event-ok files line e =
    let (_, rest) =
      require-passed (not (is_empty line.tenant_id)) "conversation_event_tenant_required" _ e in
    let (_, done) =
      require-passed (not (is_empty line.customer_id)) "conversation_event_customer_required"
        (ok (append_to files (file_for line.tenant_id) line, line)) rest in
    ok-injective done

-- The control of any conversation of any tenant after a line was appended.
pub append_event-get_control :
    (files : Files) (line : Line) (tenant_id customer_id : String) {after : Files × Line}
    → append_event files line ≡ ok after
    → get_control after.0 tenant_id customer_id ≡ (
        if file_for line.tenant_id == file_for tenant_id
        then mode_after customer_id (get_control files tenant_id customer_id) line
        else get_control files tenant_id customer_id)
unfolding get_control read_events
append_event-get_control files line tenant_id customer_id {after} e =
    let appended = append_event-ok files line e in
    subst
      (λ (pair : Files × Line). get_control pair.0 tenant_id customer_id ≡ (
        if file_for line.tenant_id == file_for tenant_id
        then mode_after customer_id (get_control files tenant_id customer_id) line
        else get_control files tenant_id customer_id))
      appended (ground (arith, last_mode-append customer_id ai (files (file_for tenant_id)) line))

-- `setControl` sets the mode of the conversation of one customer, in every tenant that shares the
-- file of the tenant, and leaves the mode of every other conversation.
pub set_control-get_control :
    (files : Files) (tenant_id customer_id mode_name fresh at : String) (mode : ControlMode)
    (after : Files × Line)
    → control_mode mode_name ≡ some mode
    → set_control files tenant_id customer_id mode_name fresh at ≡ ok after
    → (other_tenant other_customer : String)
    → get_control after.0 other_tenant other_customer ≡ (
        if (file_for tenant_id == file_for other_tenant) && (customer_id == other_customer)
        then mode
        else get_control files other_tenant other_customer)
unfolding set_control
set_control-get_control files tenant_id customer_id mode_name fresh at mode after named e
      other_tenant other_customer =
    let line = control_line tenant_id customer_id mode fresh at in
    let appended : append_event files line ≡ ok after = ground arith in
    ground (arith, append_event-get_control files line other_tenant other_customer appended)
