-- ===== src/OwnershipStore/Isolation.antt =====
-- src/core/file-conversation-ownership-store.js: tenants do not see one another, and of two requests
-- for one version the second is refused.
use mathlib.Core.Path.{subst}
use whatsapp_ai_supervisor.Common.{
  Bool, List, String, ap, false, filter, find, is_text, last, last-concat, none, ok, some, text_of,
  throws, ◌==◌, ◌∙◌, ◌≡◌, ◌≢◌,
}
use whatsapp_ai_supervisor.Common.Numbers.{Number, equal}
use whatsapp_ai_supervisor.Ownership.{Ownership, RawOwnership, assert_conversation_ownership}
use whatsapp_ai_supervisor.OwnershipStore.{
  Disk, Entry, TransitionInput, append_line, assert_ownership_transition_input,
  conversation_entries, current_record, file_for, get_many, legacy_file_for, read_ledger,
  repeat_or_write, transition, write_transition,
}
use whatsapp_ai_supervisor.OwnershipStore.Ledger.{
  IsValid, IsValidEntry, read_ledger-append_line_other,
}
use whatsapp_ai_supervisor.OwnershipStore.Laws.{
  duplicate, entry_of, same_transition, transition-Transitioned, written,
}
use whatsapp_ai_supervisor.OwnershipStore.Reads.{written-IsValidEntry}
use whatsapp_ai_supervisor.OwnershipStore.Consistency.{conversation_entries-written}

module _ (is_date : String → Bool) (base64url : String → String) where
  -- A transition of one tenant changes nothing that is read for another, even where the encoding of
  -- tenant ids makes the two share a file.
  pub transition-get_many_other :
      (disk : Disk) (input : TransitionInput) (now later other : String) (ids : List String)
      {after : Disk × RawOwnership}
      → transition is_date base64url disk input now ≡ ok after
      → is_text input.tenant_id other ≡ false
      → get_many is_date base64url after.0 other ids later
        ≡ get_many is_date base64url disk other ids later
  unfolding get_many
  transition-get_many_other disk input now later other ids e h =
      elim (transition-Transitioned is_date base64url disk input now e) [
        | duplicate entry found same ↦ rw (ap (λ x. x.0) same)
        | written current next fresh ecur ev en same ↦ rw (
          ap (λ x. x.0) same,
          read_ledger-append_line_other base64url disk
              (file_for base64url (text_of input.tenant_id)) other (entry_of input now next) h,
        )
      ]

  entries-again :
      (disk : Disk) (input again : TransitionInput)
      → again.tenant_id ≡ input.tenant_id
      → again.conversation_id ≡ input.conversation_id
      → conversation_entries base64url disk again ≡ conversation_entries base64url disk input
  unfolding conversation_entries
  entries-again disk input again at ac = λ i.
      filter (λ entry. text_of entry.conversation_id == text_of (ac i))
        (read_ledger base64url disk (text_of (at i)))

  last-again :
      (disk : Disk) (input again : TransitionInput) (now tenant : String) (next : Ownership)
      → input.tenant_id ≡ some tenant
      → legacy_file_for tenant ≢ file_for base64url tenant
      → again.tenant_id ≡ input.tenant_id
      → again.conversation_id ≡ input.conversation_id
      → last (
          conversation_entries base64url
            (append_line disk
              (file_for base64url (text_of input.tenant_id))
              (entry_of input now next))
            again)
        ≡ some (entry_of input now next)
  last-again disk input again now tenant next et files at ac =
      ap last (
        entries-again _ input again at ac
        ∙ conversation_entries-written is_date base64url disk input now tenant next et files)
      ∙ last-concat (conversation_entries base64url disk input) (entry_of input now next)

  -- A request that does not expect the version of the last line.
  refused :
      (disk : Disk) (again : TransitionInput) (later : String) (version : Number) (entry : Entry)
      → assert_ownership_transition_input again ≡ ok tt
      → find (same_transition again) (conversation_entries base64url disk again) ≡ none
      → last (conversation_entries base64url disk again) ≡ some entry
      → IsValidEntry is_date entry
      → again.expected_version ≡ some version
      → equal version entry.result.version ≡ false
      → transition is_date base64url disk again later ≡ throws "ownership_version_conflict"
  unfolding transition repeat_or_write write_transition current_record assert_conversation_ownership
  refused disk again later version entry valid new found h av ne =
      rw (valid, new, found, h.normalized, av, ne)

  -- No update is lost: once a transition with a new id has returned a record of another version, a
  -- valid request for the same conversation that still expects the old version, under another new
  -- id, throws a version conflict.
  pub transition-conflict :
      (disk : Disk) (input again : TransitionInput) (now later tenant : String) (version : Number)
      {after : Disk × RawOwnership}
      → IsValid is_date disk
      → input.tenant_id ≡ some tenant
      → legacy_file_for tenant ≢ file_for base64url tenant
      → find (same_transition input) (conversation_entries base64url disk input) ≡ none
      → transition is_date base64url disk input now ≡ ok after
      → again.tenant_id ≡ input.tenant_id
      → again.conversation_id ≡ input.conversation_id
      → again.expected_version ≡ some version
      → equal version after.1.version ≡ false
      → assert_ownership_transition_input again ≡ ok tt
      → find (same_transition again) (conversation_entries base64url after.0 again) ≡ none
      → transition is_date base64url after.0 again later ≡ throws "ownership_version_conflict"
  transition-conflict disk input again now later tenant version {after} h et files fresh e at ac av
        ne valid new =
      elim (transition-Transitioned is_date base64url disk input now e) [
        | duplicate entry found same ↦ cc
        | written current next _ ecur ev en same ↦
            refused after.0 again later version (entry_of input now next) valid new
              (rw (ap (λ x. x.0) same) (last-again disk input again now tenant next et files at ac))
              (written-IsValidEntry is_date base64url disk input now h ecur en) av
              (subst (λ x. equal version x.version ≡ false) (ap (λ x. x.1) same) ne)
      ]
