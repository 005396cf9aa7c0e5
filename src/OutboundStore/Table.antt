-- ===== src/OutboundStore/Table.antt =====
-- What src/core/file-outbound-attribution-store.js is for: a table of the texts sent, in which the
-- first record of a text stays and its echo is noted once.
use whatsapp_ai_supervisor.Common.{
  Bool, List, Option, Result, String, [], if◌then◌else◌, none, ok, some, ℕ, ◌&&◌, ◌==◌, ◌>>=◌, ◌∷◌,
}
use whatsapp_ai_supervisor.Attribution.{Attribution}
use whatsapp_ai_supervisor.OutboundStore.{
  Files, consume_echo, find_unlocked, has_echo, record_attribution, with_echo,
}

abbrev pub Table : Type 0
Table = String → String → String → Option Attribution

pub data Operation : Type 0 where
  records : Attribution → Operation
  consumes : (tenant session message_id now : String) → Operation
  looks_up : (tenant session message_id : String) → Operation

abbrev pub empty : Table
empty = λ tenant session message_id. none

abbrev pub same_key : (tenant session message_id tenant₂ session₂ message_id₂ : String) → Bool
same_key tenant session message_id tenant₂ session₂ message_id₂ =
    tenant == tenant₂ && session == session₂ && message_id == message_id₂

unfoldable pub set_at : Table → Attribution → Table
set_at table value = λ tenant session message_id.
    if same_key value.tenant_id value.session_id value.platform_message_id tenant session message_id
    then some value
    else table tenant session message_id

abbrev pub keep_first : Table → Attribution → Option Attribution → Table × Option Attribution
keep_first table value (some existing) = (table, some existing)
keep_first table value none = (set_at table value, some value)

abbrev pub mark_once : Table → String → Option Attribution → Table × Option Attribution
mark_once table now none = (table, none)
mark_once table now (some value) =
    if has_echo value.echo_observed_at
    then (table, some value)
    else (set_at table (with_echo value (some now)), some (with_echo value (some now)))

abbrev pub perform : Table → Operation → Table × Option Attribution
perform table (records value) =
    keep_first table value (table value.tenant_id value.session_id value.platform_message_id)
perform table (consumes tenant session message_id now) =
    mark_once table now (table tenant session message_id)
perform table (looks_up tenant session message_id) = (table, table tenant session message_id)

abbrev pub perform_all : Table → List Operation → Table × List (Option Attribution)
perform_all table [] = (table, [])
perform_all table (operation ∷ operations) =
    let done = perform table operation in
    let rest = perform_all done.0 operations in (rest.0, done.1 ∷ rest.1)

-- The same operations on the files.
module _ (base64url : String → String) (parse : String → Option ℕ)
    (to_iso : ℕ → Option String) where
  abbrev pub apply : Files → Operation → Result (Files × Option Attribution)
  apply files (records value) =
      record_attribution base64url parse to_iso files value >>= (λ done. ok (done.0, some done.1))
  apply files (consumes tenant session message_id now) =
      consume_echo base64url parse to_iso files tenant session message_id now
  apply files (looks_up tenant session message_id) =
      find_unlocked base64url parse to_iso files tenant session message_id
      >>= (λ found. ok (files, found))

  abbrev pub apply_all : Files → List Operation → Result (Files × List (Option Attribution))
  apply_all files [] = ok (files, [])
  apply_all files (operation ∷ operations) =
      apply files operation
      >>= (λ done. apply_all done.0 operations >>= (λ rest. ok (rest.0, done.1 ∷ rest.1)))
