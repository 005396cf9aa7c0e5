-- ===== src/OwnershipStore/Consistency.antt =====
-- src/core/file-conversation-ownership-store.js: a transition is read back, is applied once, loses
-- no update, and touches no other conversation.
use mathlib.Core.Path.{subst}
use whatsapp_ai_supervisor.Common.{
  All, All-find, Bool, Bool-cases, List, Option, String, [], any, ap, eq_refl, filter,
  filter-append, find, find-append_none, if◌then◌else◌, inl, inr, is_text, none, ok, ok-injective,
  refl, same_text, some, sym, text_of, trim, true, ◌&&◌, ◌++◌, ◌==◌, ◌>>=◌, ◌∙◌, ◌∷◌, ◌≡◌, ◌≢◌,
}
use whatsapp_ai_supervisor.Common.Maps.{Map, get-put, put}
use whatsapp_ai_supervisor.Ownership.{
  Ownership, RawOwnership, assert_conversation_ownership, normalize_record, raw_of,
}
use whatsapp_ai_supervisor.Ownership.Normal.{IsTrimmed, normalize_record_of_IsNormal}
use whatsapp_ai_supervisor.OwnershipStore.{
  Disk, Entry, TransitionInput, answers, append_line, assert_ownership_transition_input, collect,
  collect_entry, conversation_entries, default_ownership_for, defaults_for, file_for, get_many,
  get_ownership, legacy_file_for, read_ledger, repeat_or_write, transition,
}
use whatsapp_ai_supervisor.OwnershipStore.Ledger.{
  IsValid, IsValidEntry, read_ledger-All, read_ledger-append_line,
}
use whatsapp_ai_supervisor.OwnershipStore.Laws.{
  duplicate, entry_of, options_of, same_transition, transition-Transitioned, written,
}
use whatsapp_ai_supervisor.OwnershipStore.Reads.{
  IsOwn, conversation_entries-IsOwn, written-IsValidEntry,
}
use whatsapp_ai_supervisor.Ownership.Laws.{transition_ownership-IsNormal}

module _ (is_date : String → Bool) where
  collect_entry-valid :
      (tenant : String) (ids : List String) (entry : Entry) (latest : Map RawOwnership)
      → IsValidEntry is_date entry
      → (m : Map RawOwnership) × (collect_entry is_date tenant ids entry latest ≡ ok m)
  unfolding collect_entry assert_conversation_ownership
  collect_entry-valid tenant ids entry latest h =
      elim (Bool-cases (any (λ id. id == text_of entry.conversation_id) ids)) [
        | inl wanted ↦ (
          if is_text entry.result.tenant_id tenant
                && is_text entry.result.conversation_id (text_of entry.conversation_id)
              then put latest (text_of entry.conversation_id) entry.result
              else latest,
          rw (wanted, h.normalized),
        )
        | inr other ↦ (latest, rw other)
      ]

  collect-concat :
      (tenant : String) (ids : List String) (entries : List Entry) (entry : Entry)
      (latest : Map RawOwnership)
      → All (IsValidEntry is_date) entries
      → (m : Map RawOwnership) × (collect is_date tenant ids (entries ++ entry ∷ []) latest
          ≡ (collect_entry is_date tenant ids entry m >>= λ x. ok x))
  unfolding collect
  collect-concat tenant ids [] entry latest h = (latest, refl)
  collect-concat tenant ids (e ∷ entries) entry latest (h, hs) =
      let (m, em) = collect_entry-valid tenant ids e latest h in
      let (n, en) = collect-concat tenant ids entries entry m hs in (n, rw em en)

  -- The line of a transition, read as the last one of its ledger.
  collect_entry-own :
      (tenant conversation : String) (entry : Entry) (latest : Map RawOwnership)
      → text_of entry.conversation_id ≡ conversation
      → is_text entry.result.tenant_id tenant ≡ true
      → is_text entry.result.conversation_id conversation ≡ true
      → IsValidEntry is_date entry
      → collect_entry is_date tenant (conversation ∷ []) entry latest
        ≡ ok (put latest conversation entry.result)
  unfolding collect_entry assert_conversation_ownership any
  collect_entry-own tenant conversation entry latest c t r h =
      rw (c, eq_refl conversation, h.normalized, t, r)

module _ (is_date : String → Bool) (base64url : String → String) where
  -- A ledger whose last line is the conversation's own is read as that line's record.
  get_ownership-own :
      (disk : Disk) (later tenant conversation : String) (entries : List Entry) (entry : Entry)
      {default : Ownership}
      → IsTrimmed conversation
      → default_ownership_for is_date (some tenant) (some conversation) later "supervisor"
        ≡ ok default
      → read_ledger base64url disk tenant ≡ entries ++ entry ∷ []
      → All (IsValidEntry is_date) entries
      → text_of entry.conversation_id ≡ conversation
      → is_text entry.result.tenant_id tenant ≡ true
      → is_text entry.result.conversation_id conversation ≡ true
      → IsValidEntry is_date entry
      → get_ownership is_date base64url disk tenant conversation later ≡ ok (some entry.result)
  unfolding get_ownership get_many defaults_for answers
  get_ownership-own disk later tenant conversation entries entry ct ed el hs c t r h =
      let (m, em) = collect-concat is_date tenant (conversation ∷ []) entries entry [] hs in
      rw (
        ct.0,
        ed,
        el,
        em,
        collect_entry-own is_date tenant conversation entry m c t r h,
        answers,
        ct.0,
        get-put m conversation conversation entry.result,
        eq_refl conversation,
      )

  -- The record of a line carries the names of the line.
  written-names :
      (input : TransitionInput) (now tenant conversation : String) {next : Ownership}
      → input.tenant_id ≡ some tenant
      → input.conversation_id ≡ some conversation
      → IsTrimmed tenant
      → IsTrimmed conversation
      → IsValidEntry is_date (entry_of input now next)
      → normalize_record is_date (some (raw_of next)) ≡ ok next
      → (next.tenant_id ≡ tenant) × (next.conversation_id ≡ conversation)
  written-names input now tenant conversation et ec tr ct valid mine =
      let same = ok-injective (sym valid.normalized ∙ mine) in
      (
        sym (ap (λ x. x.tenant_id) same) ∙ valid.tenant ∙ ap (λ o. trim (text_of o)) et ∙ tr.0,
        sym (ap (λ x. x.conversation_id) same)
            ∙ valid.conversation
            ∙ ap (λ o. trim (text_of o)) ec
            ∙ ct.0,
      )

  -- After a transition with a new id has succeeded on valid files, for a tenant and a conversation whose
  -- ids are trimmed and whose ledger has not the same name in the old format, the record that it returned is the one that is read for the conversation, at any
  -- later time.
  pub transition-get :
      (disk : Disk) (input : TransitionInput) (now later tenant conversation : String)
      {after : Disk × RawOwnership} {default : Ownership}
      → IsValid is_date disk
      → input.tenant_id ≡ some tenant
      → input.conversation_id ≡ some conversation
      → IsTrimmed tenant
      → IsTrimmed conversation
      → legacy_file_for tenant ≢ file_for base64url tenant
      → default_ownership_for is_date (some tenant) (some conversation) later "supervisor"
        ≡ ok default
      → find (same_transition input) (conversation_entries base64url disk input) ≡ none
      → transition is_date base64url disk input now ≡ ok after
      → get_ownership is_date base64url after.0 tenant conversation later ≡ ok (some after.1)
  transition-get disk input now later tenant conversation {after} {default} h et ec tr ct files ed
        fresh e =
      elim (transition-Transitioned is_date base64url disk input now e) [
        | duplicate entry found same ↦ cc
        | written current next _ ecur ev en same ↦
            let valid = written-IsValidEntry is_date base64url disk input now h ecur en in
            let named = written-names input now tenant conversation et ec tr ct valid (
              normalize_record_of_IsNormal is_date next (
                transition_ownership-IsNormal is_date (some current) input.command
                  (options_of input now) en)) in
            subst
              (λ x. get_ownership is_date base64url x.0 tenant conversation later ≡ ok (some x.1))
              (sym same)
              (get_ownership-own _ later tenant conversation (read_ledger base64url disk tenant)
                (entry_of input now next) ct ed
                (rw (ap text_of et) (
                  read_ledger-append_line base64url disk tenant (entry_of input now next) files
                    (rw et (eq_refl tenant))))
                (read_ledger-All base64url (IsValidEntry is_date) disk tenant h) (ap text_of ec)
                (rw named.0 (eq_refl tenant)) (rw named.1 (eq_refl conversation)) valid)
      ]

  repeated :
      (disk : Disk) (again : TransitionInput) (later : String) (entry : Entry)
      → find (same_transition again) (conversation_entries base64url disk again) ≡ some entry
      → IsValidEntry is_date entry
      → assert_ownership_transition_input again ≡ ok tt
      → transition is_date base64url disk again later ≡ ok (disk, entry.result)
  unfolding transition repeat_or_write assert_conversation_ownership
  repeated disk again later entry found h valid = rw (valid, found, h.normalized)

  -- The lookup of an input depends on its three names.
  found-again :
      (disk : Disk) (input again : TransitionInput)
      → again.tenant_id ≡ input.tenant_id
      → again.conversation_id ≡ input.conversation_id
      → again.transition_id ≡ input.transition_id
      → find (same_transition again) (conversation_entries base64url disk again)
        ≡ find (same_transition input) (conversation_entries base64url disk input)
  unfolding conversation_entries
  found-again disk input again at ac ai = λ i.
      find (λ entry. same_text entry.transition_id (ai i))
        (filter (λ entry. text_of entry.conversation_id == text_of (ac i))
          (read_ledger base64url disk (text_of (at i))))

  same_text_refl : (o : Option String) → same_text o o ≡ true
  same_text_refl none = refl
  same_text_refl (some s) = eq_refl s

  found-last :
      (input : TransitionInput) (now : String) (next : Ownership) (entries : List Entry)
      → find (same_transition input) entries ≡ none
      → find (same_transition input) (entries ++ entry_of input now next ∷ [])
        ≡ some (entry_of input now next)
  unfolding find
  found-last input now next entries fresh =
      find-append_none (same_transition input) entries (entry_of input now next ∷ []) fresh
      ∙ rw (same_text_refl input.transition_id)

  pub conversation_entries-written :
      (disk : Disk) (input : TransitionInput) (now tenant : String) (next : Ownership)
      → input.tenant_id ≡ some tenant
      → legacy_file_for tenant ≢ file_for base64url tenant
      → conversation_entries base64url
          (append_line disk
            (file_for base64url (text_of input.tenant_id))
            (entry_of input now next))
          input
        ≡ conversation_entries base64url disk input ++ entry_of input now next ∷ []
  unfolding conversation_entries filter
  conversation_entries-written disk input now tenant next et files = rw (
    ap text_of et,
    read_ledger-append_line base64url disk tenant (entry_of input now next) files
        (rw et (eq_refl tenant)),
    filter-append (λ entry. text_of entry.conversation_id == text_of input.conversation_id)
        (read_ledger base64url disk tenant) (entry_of input now next ∷ []),
    eq_refl (text_of input.conversation_id),
  )

  -- The second call for a transition id does nothing: whatever it asks for, if it is a valid request
  -- for the same conversation, it returns the record of the first call and the files stay as the
  -- first call left them.
  pub transition-repeated :
      (disk : Disk) (input again : TransitionInput) (now later tenant : String)
      {after : Disk × RawOwnership}
      → IsValid is_date disk
      → input.tenant_id ≡ some tenant
      → legacy_file_for tenant ≢ file_for base64url tenant
      → transition is_date base64url disk input now ≡ ok after
      → again.tenant_id ≡ input.tenant_id
      → again.conversation_id ≡ input.conversation_id
      → again.transition_id ≡ input.transition_id
      → assert_ownership_transition_input again ≡ ok tt
      → transition is_date base64url after.0 again later ≡ ok after
  transition-repeated disk input again now later tenant {after} h et files e at ac ai valid =
      elim (transition-Transitioned is_date base64url disk input now e) [
        | duplicate entry found same ↦
            subst (λ x. transition is_date base64url x.0 again later ≡ ok x) (sym same)
              (repeated disk again later entry (found-again disk input again at ac ai ∙ found)
                (All-find (IsOwn is_date input) _ _
                  (conversation_entries-IsOwn is_date base64url disk input h) found).valid
                valid)
        | written current next fresh ecur ev en same ↦
            subst (λ x. transition is_date base64url x.0 again later ≡ ok x) (sym same)
              (repeated _ again later (entry_of input now next)
                (found-again _ input again at ac ai
                  ∙ ap (find (same_transition input))
                      (conversation_entries-written disk input now tenant next et files)
                  ∙ found-last input now next (conversation_entries base64url disk input) fresh)
                (written-IsValidEntry is_date base64url disk input now h ecur en) valid)
      ]
