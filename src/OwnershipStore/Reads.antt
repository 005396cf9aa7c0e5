-- ===== src/OwnershipStore/Reads.antt =====
-- src/core/file-conversation-ownership-store.js: what is read after a transition.
use mathlib.Core.Path.{subst}
use whatsapp_ai_supervisor.Common.{
  >>=-ok_parts, All, All-append, All-filter, All-last, All-map₂, Bool, OnOk-ok, Option,
  Option-cases, String, ap, eq_iff, filter, filter-All, inl, inr, is_text, last, none, ok,
  ok-injective, some, sym, text_of, trim, true, ◌++◌, ◌==◌, ◌∙◌, ◌≡◌,
}
use whatsapp_ai_supervisor.Ownership.{
  Ownership, RawOwnership, create_initial_ownership, normalize_record, transition_ownership,
}
use whatsapp_ai_supervisor.OwnershipStore.{
  Disk, Entry, TransitionInput, conversation_entries, current_record, default_ownership_for,
  file_for, legacy_file_for, ownership_key, read_ledger, transition,
}
use whatsapp_ai_supervisor.OwnershipStore.Ledger.{IsValid, IsValidEntry, append_line-IsValid}
use whatsapp_ai_supervisor.OwnershipStore.Laws.{
  duplicate, entry_of, options_of, transition-Transitioned, written,
}
use whatsapp_ai_supervisor.Ownership.Normal.{
  IsNormal, normalize_record-IsNormal, normalize_record-names, normalize_record_of_IsNormal,
}
use whatsapp_ai_supervisor.Ownership.Laws.{
  Advances-names, transition_ownership-Advances, transition_ownership-IsNormal,
}

-- A line of the conversation that an input names.
pub record IsOwn (is_date : String → Bool) (input : TransitionInput) (entry : Entry) : Type 0 where
  pub valid : IsValidEntry is_date entry
  pub tenant : text_of entry.tenant_id ≡ text_of input.tenant_id
  pub conversation : text_of entry.conversation_id ≡ text_of input.conversation_id

text_of-is_text : (o : Option String) (s : String) → is_text o s ≡ true → text_of o ≡ s
text_of-is_text none s h = cc
text_of-is_text (some a) s h = (eq_iff a s).0 h

module _ (is_date : String → Bool) (base64url : String → String) where
  read_ledger-own :
      (disk : Disk) (tenant : String)
      → IsValid is_date disk
      → All
          (λ e. IsValidEntry is_date e × (text_of e.tenant_id ≡ tenant))
          (read_ledger base64url disk tenant)
  unfolding read_ledger
  read_ledger-own disk tenant h =
      let lines = disk (legacy_file_for tenant) ++ disk (file_for base64url tenant) in
      All-map₂ (λ e valid same. (valid, text_of-is_text e.tenant_id tenant same))
        (filter (λ e. is_text e.tenant_id tenant) lines)
        (All-filter (IsValidEntry is_date) _ lines (All-append _ _ _ (h _) (h _)))
        (filter-All _ lines)

  pub conversation_entries-IsOwn :
      (disk : Disk) (input : TransitionInput)
      → IsValid is_date disk
      → All (IsOwn is_date input) (conversation_entries base64url disk input)
  unfolding conversation_entries
  conversation_entries-IsOwn disk input h =
      All-map₂
        (λ e own same. record { valid = own.0; tenant = own.1; conversation = (eq_iff _ _).0 same })
        (filter (λ e. text_of e.conversation_id == text_of input.conversation_id)
          (read_ledger base64url disk (text_of input.tenant_id)))
        (All-filter (λ e. IsValidEntry is_date e × (text_of e.tenant_id ≡ text_of input.tenant_id))
          _ _ (read_ledger-own disk (text_of input.tenant_id) h))
        (filter-All _ (read_ledger base64url disk (text_of input.tenant_id)))

  default-valid :
      (input : TransitionInput) (now : String) {r : Ownership}
      → default_ownership_for is_date input.tenant_id input.conversation_id now "supervisor" ≡ ok r
      → IsNormal is_date r
        × (r.tenant_id ≡ trim (text_of input.tenant_id))
        × (r.conversation_id ≡ trim (text_of input.conversation_id))
  unfolding default_ownership_for create_initial_ownership
  default-valid input now {r} e =
      let (_, _, e1) = >>=-ok_parts (ownership_key input.tenant_id input.conversation_id) _ e in
      let (tenant, conversation) = normalize_record-names is_date _ e1 in
      (OnOk-ok (IsNormal is_date) _ (normalize_record-IsNormal is_date _) e1, tenant, conversation)

  current_record-valid :
      (disk : Disk) (input : TransitionInput) (now : String) {current : RawOwnership}
      → IsValid is_date disk
      → current_record is_date input now (last (conversation_entries base64url disk input))
        ≡ ok current
      → (r : Ownership) × (normalize_record is_date (some current) ≡ ok r)
        × (r.tenant_id ≡ trim (text_of input.tenant_id))
        × (r.conversation_id ≡ trim (text_of input.conversation_id))
  unfolding current_record
  current_record-valid disk input now {current} h e =
      elim (Option-cases (last (conversation_entries base64url disk input))) [
        | inl empty ↦
            let (initial, ei, e1) =
              >>=-ok_parts
                (default_ownership_for is_date input.tenant_id input.conversation_id now
                  "supervisor")
                _ (rw (empty, current_record) at e) in
            let (normal, tenant, conversation) = default-valid input now ei in
            (
              initial,
              rw (← ok-injective e1) (normalize_record_of_IsNormal is_date initial normal),
              tenant,
              conversation,
            )
        | inr (entry, found) ↦
            let own =
              All-last (IsOwn is_date input) _ (conversation_entries-IsOwn disk input h) found in
            let same : entry.result ≡ current = ok-injective (rw (found, current_record) at e) in
            (
              own.valid.normal,
              subst (λ x. normalize_record is_date (some x) ≡ ok own.valid.normal) same
                  own.valid.normalized,
              own.valid.tenant ∙ ap trim own.tenant,
              own.valid.conversation ∙ ap trim own.conversation,
            )
      ]

  pub written-IsValidEntry :
      (disk : Disk) (input : TransitionInput) (now : String) {current : RawOwnership}
      {next : Ownership}
      → IsValid is_date disk
      → current_record is_date input now (last (conversation_entries base64url disk input))
        ≡ ok current
      → transition_ownership is_date (some current) input.command (options_of input now) ≡ ok next
      → IsValidEntry is_date (entry_of input now next)
  written-IsValidEntry disk input now {current} {next} h ec en =
      let (r, er, tenant, conversation) = current_record-valid disk input now h ec in
      let (q, c, id, actor, eq, _, _, _, steps) =
        transition_ownership-Advances is_date (some current) input.command (options_of input now)
          en in
      let same : q ≡ r = ok-injective (sym eq ∙ er) in
      let (t, v) = Advances-names steps in
      record {
        normal = next;
        normalized = normalize_record_of_IsNormal is_date next (
            transition_ownership-IsNormal is_date (some current) input.command
              (options_of input now) en);
        tenant = t ∙ ap (λ x. x.tenant_id) same ∙ tenant;
        conversation = v ∙ ap (λ x. x.conversation_id) same ∙ conversation;
      }

  -- A transition that succeeds on valid files leaves them valid: each line it adds holds a normal
  -- record of the line's tenant and conversation.
  pub transition-IsValid :
      (disk : Disk) (input : TransitionInput) (now : String) {after : Disk × RawOwnership}
      → IsValid is_date disk
      → transition is_date base64url disk input now ≡ ok after
      → IsValid is_date after.0
  transition-IsValid disk input now {after} h e =
      elim (transition-Transitioned is_date base64url disk input now e) [
        | duplicate entry found same ↦ subst (λ x. IsValid is_date x.0) (sym same) h
        | written current next fresh ec ev en same ↦
            subst (λ x. IsValid is_date x.0) (sym same)
              (append_line-IsValid is_date disk _ (entry_of input now next) h
                (written-IsValidEntry disk input now h ec en))
      ]
