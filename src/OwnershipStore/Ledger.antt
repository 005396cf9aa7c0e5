-- ===== src/OwnershipStore/Ledger.antt =====
-- src/core/file-conversation-ownership-store.js: what a write does to the ledgers.
use mathlib.Core.List.{append_assoc, append-nil}
use whatsapp_ai_supervisor.Common.{
  All, All-append, All-filter, Bool, Bool-cases, String, [], arith, eq_iff, eq_refl, false, filter,
  filter-append, inl, inr, is_text, ok, some, text_of, trim, true, ◌++◌, ◌==◌, ◌∷◌, ◌≡◌, ◌≢◌,
}
use whatsapp_ai_supervisor.Ownership.{Ownership, normalize_record}
use whatsapp_ai_supervisor.OwnershipStore.{
  Disk, Entry, append_line, file_for, legacy_file_for, read_ledger,
}

-- A line's record is one that `normalizeRecord` accepts, of the line's tenant and conversation.
pub record IsValidEntry (is_date : String → Bool) (entry : Entry) : Type 0 where
  pub normal : Ownership
  pub normalized : normalize_record is_date (some entry.result) ≡ ok normal
  pub tenant : normal.tenant_id ≡ trim (text_of entry.tenant_id)
  pub conversation : normal.conversation_id ≡ trim (text_of entry.conversation_id)

abbrev pub IsValid : (String → Bool) → Disk → Type 0
IsValid is_date disk = (file : String) → All (IsValidEntry is_date) (disk file)

pub append_line-IsValid :
    (is_date : String → Bool) (disk : Disk) (file : String) (entry : Entry)
    → IsValid is_date disk
    → IsValidEntry is_date entry
    → IsValid is_date (append_line disk file entry)
append_line-IsValid is_date disk file entry h k f = elim (Bool-cases (f == file)) [
  | inl same ↦ rw same (All-append _ (disk f) (entry ∷ []) (h f) (k, tt))
  | inr other ↦ rw other (h f)
]

filter-append_line_other :
    (p : Entry → Bool) (disk : Disk) (file f : String) (entry : Entry)
    → p entry ≡ false
    → filter p (append_line disk file entry f) ≡ filter p (disk f)
filter-append_line_other p disk file f entry h = elim (Bool-cases (f == file)) [
  | inl same ↦
      rw (same, filter-append p (disk f) (entry ∷ [])) (unfold filter in rw h (append-nil _))
  | inr other ↦ rw other
]

module _ (base64url : String → String) where
  pub read_ledger-append_line_other :
      (disk : Disk) (file tenant : String) (entry : Entry)
      → is_text entry.tenant_id tenant ≡ false
      → read_ledger base64url (append_line disk file entry) tenant
        ≡ read_ledger base64url disk tenant
  unfolding read_ledger
  read_ledger-append_line_other disk file tenant entry h = rw (
    filter-append (λ e. is_text e.tenant_id tenant)
        (append_line disk file entry (legacy_file_for tenant))
        (append_line disk file entry (file_for base64url tenant)),
    filter-append (λ e. is_text e.tenant_id tenant) (disk (legacy_file_for tenant))
        (disk (file_for base64url tenant)),
    filter-append_line_other (λ e. is_text e.tenant_id tenant) disk file (legacy_file_for tenant)
        entry h,
    filter-append_line_other (λ e. is_text e.tenant_id tenant) disk file (file_for base64url tenant)
        entry h,
  )

  -- A tenant's ledger after a write to its own file, which is not its legacy file: the line is last.
  pub read_ledger-append_line :
      (disk : Disk) (tenant : String) (entry : Entry)
      → legacy_file_for tenant ≢ file_for base64url tenant
      → is_text entry.tenant_id tenant ≡ true
      → read_ledger base64url (append_line disk (file_for base64url tenant) entry) tenant
        ≡ read_ledger base64url disk tenant ++ entry ∷ []
  unfolding read_ledger filter
  read_ledger-append_line disk tenant entry h k =
      let other : (legacy_file_for tenant == file_for base64url tenant) ≡ false =
        ground (arith, eq_iff (legacy_file_for tenant) (file_for base64url tenant)) in
      rw (
        other,
        eq_refl (file_for base64url tenant),
        ← append_assoc (disk (legacy_file_for tenant)) (disk (file_for base64url tenant))
            (entry ∷ []),
        filter-append (λ e. is_text e.tenant_id tenant)
            (disk (legacy_file_for tenant) ++ disk (file_for base64url tenant)) (entry ∷ []),
        k,
      )

  pub read_ledger-All :
      (P : Entry → Type 0) (disk : Disk) (tenant : String)
      → ((file : String) → All P (disk file))
      → All P (read_ledger base64url disk tenant)
  unfolding read_ledger
  read_ledger-All P disk tenant h = All-filter P _ _ (All-append P _ _ (h _) (h _))
