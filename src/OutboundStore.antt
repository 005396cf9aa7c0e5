-- ===== src/OutboundStore.antt =====
-- src/core/file-outbound-attribution-store.js: which texts the program itself sent, one file of JSON
-- lines to a tenant. The file system is a function from a file's name to its lines, which are those
-- that this store has written. No step of the work that a lock protects waits, so a call is one step.
pub mod Table
pub mod Lines
pub mod Lookup
pub mod Writes
pub mod Steps
pub mod Refinement
mod Tests
use Prim.Native.String
use whatsapp_ai_supervisor.Common.{
  Bool, List, Option, Result, String, [], false, filter, if◌then◌else◌, is_empty, is_some, none,
  not, ok, require, some, trim, ℕ, ◌&&◌, ◌++◌, ◌==◌, ◌>>=◌, ◌>>◌, ◌∷◌,
}
use whatsapp_ai_supervisor.Attribution.{Attribution, assert_outbound_attribution}
use whatsapp_ai_supervisor.OwnershipStore.{legacy_file_for}

pub data Body : Type 0 where
  sent : Attribution → Body
  echo : (observed_at : String) → Body

pub record Entry : Type 0 where
  pub tenant_id : String
  pub session_id : String
  pub platform_message_id : String
  pub body : Body

abbrev pub Files : Type 0
Files = String → List Entry

-- `String(value ?? '').trim()` of a text that is there.
unfoldable pub required : String → String → Result String
required value name = do
  require (not (is_empty (trim value))) (String.◌++◌ "outbound_" (String.◌++◌ name "_required"))
  ok (trim value)

abbrev pub sent_in : Body → Option Attribution
sent_in (sent attribution) = some attribution
sent_in (echo at) = none

abbrev pub echo_in : Body → Option String
echo_in (sent attribution) = none
echo_in (echo at) = some at

abbrev pub sent_of : Entry → Option Attribution
sent_of entry = sent_in entry.body

abbrev pub echo_of : Entry → Option String
echo_of entry = echo_in entry.body

abbrev pub first_of {ℓ} : {A : Type ℓ} → Option A → Option A → Option A
first_of none later = later
first_of (some a) later = some a

-- `entries.find((entry) => entry.kind === ...)`, read as what that kind of entry carries.
unfoldable pub first {ℓ} : {A : Type ℓ} → (Entry → Option A) → List Entry → Option A
first kind [] = none
first kind (entry ∷ entries) = first_of (kind entry) (first kind entries)

abbrev pub with_echo : Attribution → Option String → Attribution
with_echo value none = value
with_echo value (some at) = record value { echo_observed_at = some at }

abbrev pub has_echo : Option String → Bool
has_echo none = false
has_echo (some at) = not (is_empty at)

unfoldable pub matches : String → String → String → Entry → Bool
matches tenant session message_id entry =
    entry.tenant_id == tenant
    && entry.session_id == session
    && entry.platform_message_id == message_id

-- Node's `base64url` encoding of a text is an argument, and what `Date` does is one below.
module _ (base64url : String → String) where
  unfoldable pub file_for : String → String
  file_for tenant_id = String.◌++◌ "tenant-" (String.◌++◌ (base64url tenant_id) ".ndjson")

  unfoldable pub read_ledger : Files → String → List Entry
  read_ledger files tenant =
      filter (λ entry. entry.tenant_id == tenant)
        (files (legacy_file_for tenant) ++ files (file_for tenant))

  unfoldable pub append : Files → Entry → Files
  append files entry =
      λ file. if file == file_for entry.tenant_id then files file ++ entry ∷ [] else files file

  unfoldable pub entries_of : Files → String → String → String → List Entry
  entries_of files tenant session message_id =
      filter (matches tenant session message_id) (read_ledger files tenant)

  module _ (parse : String → Option ℕ) (to_iso : ℕ → Option String) where
    abbrev pub shown : String → Option Attribution → Option String → Result (Option Attribution)
    shown tenant none at = ok none
    shown tenant (some value) at =
        if value.tenant_id == tenant
        then (assert_outbound_attribution parse to_iso (with_echo value at)
            >>= (λ checked. ok (some checked)))
        else ok none

    unfoldable pub find_unlocked : Files → String → String → String → Result (Option Attribution)
    find_unlocked files tenant_id session_id platform_message_id = do
      tenant ← required tenant_id "tenant_id"
      session ← required session_id "session_id"
      message_id ← required platform_message_id "platform_message_id"
      let entries = entries_of files tenant session message_id
      shown tenant (first sent_of entries) (first echo_of entries)

    abbrev pub keep_or_append :
        Files → Attribution → Entry → Option Attribution → Files × Attribution
    keep_or_append files attribution entry (some existing) = (files, existing)
    keep_or_append files attribution entry none = (append files entry, attribution)

    -- A call that throws has written nothing: the one write is its last step.
    unfoldable pub record_attribution : Files → Attribution → Result (Files × Attribution)
    record_attribution files attribution = do
      _ ← assert_outbound_attribution parse to_iso attribution
      tenant ← required attribution.tenant_id "tenant_id"
      session ← required attribution.session_id "session_id"
      message_id ← required attribution.platform_message_id "platform_message_id"
      existing ← find_unlocked files tenant session message_id
      let entry : Entry = record {
        tenant_id = tenant;
        session_id = session;
        platform_message_id = message_id;
        body = sent attribution;
      }
      ok (keep_or_append files attribution entry existing)

    unfoldable pub observe : Files → Attribution → String → Result (Files × Option Attribution)
    observe files current now = do
      require (is_some (parse now)) "outbound_echo_observed_at_invalid"
      let entry : Entry = record {
        tenant_id = current.tenant_id;
        session_id = current.session_id;
        platform_message_id = current.platform_message_id;
        body = echo now;
      }
      ok (append files entry, some (with_echo current (some now)))

    abbrev pub observe_once :
        Files → Option Attribution → String → Result (Files × Option Attribution)
    observe_once files none now = ok (files, none)
    observe_once files (some current) now =
        if has_echo current.echo_observed_at
        then ok (files, some current)
        else observe files current now

    unfoldable pub consume_echo :
        Files → String → String → String → String → Result (Files × Option Attribution)
    consume_echo files tenant_id session_id platform_message_id now = do
      tenant ← required tenant_id "tenant_id"
      session ← required session_id "session_id"
      message_id ← required platform_message_id "platform_message_id"
      current ← find_unlocked files tenant session message_id
      observe_once files current now
