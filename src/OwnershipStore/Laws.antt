-- ===== src/OwnershipStore/Laws.antt =====
-- src/core/file-conversation-ownership-store.js, `transition`.
use whatsapp_ai_supervisor.Common.{
  >>=-ok_parts, Bool, Option-cases, String, find, inl, inr, last, none, ok, ok-injective, require,
  require-ok, same_text, some, sym, text_of, true, ◌≡◌,
}
use whatsapp_ai_supervisor.Ownership.{
  Options, Ownership, RawOwnership, assert_conversation_ownership, raw_of, transition_ownership,
}
use whatsapp_ai_supervisor.OwnershipStore.{
  Disk, Entry, TransitionInput, append_line, assert_ownership_transition_input,
  conversation_entries, current_record, expects, file_for, repeat_or_write, transition,
  write_transition,
}

abbrev pub same_transition : TransitionInput → Entry → Bool
same_transition input entry = same_text entry.transition_id input.transition_id

abbrev pub options_of : TransitionInput → String → Options
options_of input now = record {
  transition_id = input.transition_id;
  actor = input.actor;
  reason_code = input.reason_code;
  now = now;
}

abbrev pub entry_of : TransitionInput → String → Ownership → Entry
entry_of input now next = record { input = input; recorded_at = now; result = raw_of next }

module _ (is_date : String → Bool) (base64url : String → String) where
  -- How a transition can succeed.
  pub data Transitioned (disk : Disk) (input : TransitionInput) (now : String)
      (after : Disk × RawOwnership) : Type 0 where
    duplicate :
        (entry : Entry)
        → find (same_transition input) (conversation_entries base64url disk input) ≡ some entry
        → after ≡ (disk, entry.result)
        → Transitioned disk input now after
    written :
        (current : RawOwnership) (next : Ownership)
        → find (same_transition input) (conversation_entries base64url disk input) ≡ none
        → current_record is_date input now (last (conversation_entries base64url disk input))
          ≡ ok current
        → expects input.expected_version current.version ≡ true
        → transition_ownership is_date (some current) input.command (options_of input now) ≡ ok next
        → after ≡ (
          append_line disk (file_for base64url (text_of input.tenant_id)) (entry_of input now next),
          raw_of next,
        )
        → Transitioned disk input now after

  write_transition-Transitioned :
      (disk : Disk) (input : TransitionInput) (now : String) {after : Disk × RawOwnership}
      → find (same_transition input) (conversation_entries base64url disk input) ≡ none
      → write_transition is_date base64url disk input now
          (conversation_entries base64url disk input)
        ≡ ok after
      → Transitioned disk input now after
  unfolding write_transition
  write_transition-Transitioned disk input now fresh e =
      let (current, ec, e1) =
        >>=-ok_parts
          (current_record is_date input now (last (conversation_entries base64url disk input))) _
          e in
      let (_, _, e2) = >>=-ok_parts (assert_conversation_ownership is_date (some current)) _ e1 in
      let (_, ev, e3) =
        >>=-ok_parts
          (require (expects input.expected_version current.version) "ownership_version_conflict") _
          e2 in
      let (next, en, e4) =
        >>=-ok_parts
          (transition_ownership is_date (some current) input.command (options_of input now)) _ e3 in
      written current next fresh ec
        (require-ok (expects input.expected_version current.version) "ownership_version_conflict"
          ev)
        en (sym (ok-injective e4))

  pub transition-Transitioned :
      (disk : Disk) (input : TransitionInput) (now : String) {after : Disk × RawOwnership}
      → transition is_date base64url disk input now ≡ ok after
      → Transitioned disk input now after
  unfolding transition repeat_or_write
  transition-Transitioned disk input now e =
      let (_, _, e1) = >>=-ok_parts (assert_ownership_transition_input input) _ e in
      elim (Option-cases
        (find (same_transition input) (conversation_entries base64url disk input))) [
          | inl fresh ↦
              write_transition-Transitioned disk input now fresh (rw (fresh, repeat_or_write) at e1)
          | inr (entry, found) ↦
              let e2 = rw (found, repeat_or_write) at e1 in
              let (_, _, e3) =
                >>=-ok_parts (assert_conversation_ownership is_date (some entry.result)) _ e2 in
              duplicate entry found (sym (ok-injective e3))
        ]
