-- ===== src/OwnershipStore.antt =====
-- src/core/conversation-ownership-store.js and src/core/file-conversation-ownership-store.js: the
-- ledger of ownership transitions, one file of JSON lines to a tenant. The file system is a function
-- from a file's name to its parsed lines. A call that throws has written nothing: the one write of
-- `transition` is its last step.
pub mod Ledger
pub mod Reads
pub mod Isolation
pub mod Consistency
pub mod Laws
mod Tests
use Prim.Native.Char.{code, Char}
use Prim.Native.String
use whatsapp_ai_supervisor.Common.{
  Bool, List, Option, Result, String, [], any, eqb, filter, find, head?, if◌then◌else◌, is_empty,
  is_some, is_text, last, leb, map, none, not, ok, or_else, require, same_text, some, text_of, trim,
  true, ◌&&◌, ◌++◌, ◌==◌, ◌>>=◌, ◌>>◌, ◌||◌, ◌∷◌,
}
use whatsapp_ai_supervisor.Common.Numbers.{Number, as_natural, equal}
use whatsapp_ai_supervisor.Common.Maps.{Map, get, put}
use whatsapp_ai_supervisor.Ownership.{
  Ownership, RawOwnership, assert_conversation_ownership, create_initial_ownership, raw_of,
  transition_ownership,
}

pub record TransitionInput : Type 0 where
  pub tenant_id : Option String
  pub conversation_id : Option String
  pub command : Option String
  pub transition_id : Option String
  pub actor : Option String
  pub reason_code : Option String
  pub expected_version : Option Number

-- A line of the ledger.
pub record Entry : Type 0 where
  pub input : TransitionInput
  pub open input use {tenant_id, conversation_id, transition_id}
  pub recorded_at : String
  pub result : RawOwnership

abbrev pub Disk : Type 0
Disk = String → List Entry

unfoldable pub ownership_key : Option String → Option String → Result String
ownership_key tenant_id conversation_id = do
  let tenant = trim (text_of tenant_id)
  let conversation = trim (text_of conversation_id)
  require (not (is_empty tenant)) "ownership_tenant_id_required"
  require (not (is_empty conversation)) "ownership_conversation_id_required"
  ok (String.◌++◌ tenant (String.◌++◌ ":" conversation))

abbrev pub is_version : Option Number → Bool
is_version none = true
is_version (some version) = is_some (as_natural version)

unfoldable pub assert_ownership_transition_input : TransitionInput → Result (Unit {0})
assert_ownership_transition_input input = do
  _ ← ownership_key input.tenant_id input.conversation_id
  require (not (is_empty (trim (text_of input.command)))) "ownership_command_required"
  require (not (is_empty (trim (text_of input.transition_id)))) "ownership_transition_id_required"
  require (not (is_empty (trim (text_of input.actor)))) "ownership_actor_required"
  require (is_version input.expected_version) "ownership_expected_version_invalid"

-- A character that `/[^a-z0-9._-]/gi` leaves alone.
unfoldable pub is_safe : Char → Bool
is_safe c =
    let n = code c in
    leb b'a' n && leb n b'z'
    || leb b'A' n && leb n b'Z'
    || leb b'0' n && leb n b'9'
    || eqb n b'.'
    || eqb n b'_'
    || eqb n b'-'

unfoldable pub safe_text : String → String
unfolding is_safe
safe_text String.[] = String.[]
safe_text (String.◌∷◌ c s) =
    String.◌++◌ (if is_safe c then String.◌∷◌ c String.[] else "_") (safe_text s)

unfoldable pub legacy_file_for : String → String
unfolding safe_text
legacy_file_for tenant_id = String.◌++◌ (safe_text tenant_id) ".ndjson"

-- `file` with a line more.
abbrev pub append_line : Disk → String → Entry → Disk
append_line disk file entry = λ f. if f == file then disk f ++ entry ∷ [] else disk f

-- `ids.map((id, index) => latest.get(id) ?? defaults[index])`
unfoldable pub answers : Map RawOwnership → List String → List Ownership → List RawOwnership
answers latest (id ∷ ids) (default ∷ defaults) =
    or_else (get latest id) (raw_of default) ∷ answers latest ids defaults
answers latest _ _ = []

abbrev pub expects : Option Number → Number → Bool
expects none version = true
expects (some expected) version = equal expected version

-- Node's `base64url` encoding of a text is a parameter.
module _ (base64url : String → String) where
  unfoldable pub file_for : String → String
  file_for tenant_id = String.◌++◌ "tenant-" (String.◌++◌ (base64url tenant_id) ".ndjson")

  unfoldable pub read_ledger : Disk → String → List Entry
  read_ledger disk tenant =
      filter (λ entry. is_text entry.tenant_id tenant)
        (disk (legacy_file_for tenant) ++ disk (file_for tenant))

  -- The lines of a conversation.
  unfoldable pub conversation_entries : Disk → TransitionInput → List Entry
  conversation_entries disk input =
      filter (λ entry. text_of entry.conversation_id == text_of input.conversation_id)
        (read_ledger disk (text_of input.tenant_id))

-- Which texts are dates is up to the engine.
module _ (is_date : String → Bool) where
  unfoldable pub default_ownership_for :
      Option String → Option String → String → String → Result Ownership
  default_ownership_for tenant_id conversation_id now actor = do
    _ ← ownership_key tenant_id conversation_id
    create_initial_ownership is_date tenant_id conversation_id now actor

  -- One round of the loop of `getMany`.
  unfoldable pub collect_entry :
      String → List String → Entry → Map RawOwnership → Result (Map RawOwnership)
  collect_entry tenant ids entry latest =
      let conversation = text_of entry.conversation_id in
      let record_ = entry.result in
      let own = is_text record_.tenant_id tenant && is_text record_.conversation_id conversation in
      if any (λ id. id == conversation) ids
      then (do
        _ ← assert_conversation_ownership is_date (some record_)
        ok (if own then put latest conversation record_ else latest))
      else ok latest

  unfoldable pub collect :
      String → List String → List Entry → Map RawOwnership → Result (Map RawOwnership)
  collect tenant ids [] latest = ok latest
  collect tenant ids (entry ∷ entries) latest =
      collect_entry tenant ids entry latest >>= collect tenant ids entries

  unfoldable pub defaults_for : String → List String → String → Result (List Ownership)
  defaults_for tenant [] now = ok []
  defaults_for tenant (id ∷ ids) now = do
    first ← default_ownership_for (some tenant) (some id) now "supervisor"
    rest ← defaults_for tenant ids now
    ok (first ∷ rest)

  unfoldable pub current_record : TransitionInput → String → Option Entry → Result RawOwnership
  current_record input now (some entry) = ok entry.result
  current_record input now none = do
    initial ← default_ownership_for input.tenant_id input.conversation_id now "supervisor"
    ok (raw_of initial)

module _ (is_date : String → Bool) (base64url : String → String) where
  unfoldable pub get_many : Disk → String → List String → String → Result (List RawOwnership)
  get_many disk tenant conversation_ids now = do
    let ids = map trim conversation_ids
    defaults ← defaults_for is_date tenant ids now
    latest ← collect is_date tenant ids (read_ledger base64url disk tenant) []
    ok (answers latest ids defaults)

  unfoldable pub get_ownership : Disk → String → String → String → Result (Option RawOwnership)
  get_ownership disk tenant conversation_id now = do
    records ← get_many disk tenant (conversation_id ∷ []) now
    ok (head? records)

  -- The rest of `transition`, for a transition id that the conversation does not have yet.
  unfoldable pub write_transition :
      Disk → TransitionInput → String → List Entry → Result (Disk × RawOwnership)
  write_transition disk input now entries = do
    current ← current_record is_date input now (last entries)
    _ ← assert_conversation_ownership is_date (some current)
    require (expects input.expected_version current.version) "ownership_version_conflict"
    next ← transition_ownership is_date (some current) input.command (record {
      transition_id = input.transition_id;
      actor = input.actor;
      reason_code = input.reason_code;
      now = now;
    })
    ok (
      append_line disk (file_for base64url (text_of input.tenant_id))
          (record { input = input; recorded_at = now; result = raw_of next }),
      raw_of next,
    )

  -- `duplicate`, or what `write_transition` does.
  unfoldable pub repeat_or_write :
      Disk → TransitionInput → String → List Entry → Option Entry → Result (Disk × RawOwnership)
  repeat_or_write disk input now entries (some duplicate) = do
    _ ← assert_conversation_ownership is_date (some duplicate.result)
    ok (disk, duplicate.result)
  repeat_or_write disk input now entries none = write_transition disk input now entries

  unfoldable pub transition : Disk → TransitionInput → String → Result (Disk × RawOwnership)
  transition disk input now = do
    assert_ownership_transition_input input
    let entries = conversation_entries base64url disk input
    repeat_or_write disk input now entries
        (find (λ entry. same_text entry.transition_id input.transition_id) entries)
