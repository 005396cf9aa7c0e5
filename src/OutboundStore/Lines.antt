-- ===== src/OutboundStore/Lines.antt =====
-- src/core/file-outbound-attribution-store.js: what a line more changes in the lines of a text.
use mathlib.Core.Path.{subst}
use whatsapp_ai_supervisor.Common.{
  All, Bool-cases, List, OnSome, Option, Option-cases, String, [], ap, arith, eq_iff, eq_refl,
  false, filter, filter-append, if◌then◌else◌, inl, inr, none, refl, some, sym, true, ◌++◌, ◌==◌,
  ◌∙◌, ◌∷◌, ◌≡◌, ◌⊎◌,
}
use whatsapp_ai_supervisor.OutboundStore.{
  Entry, Files, append, entries_of, file_for, first, first_of, matches, read_ledger,
}
use whatsapp_ai_supervisor.OwnershipStore.{legacy_file_for}

first_of-none {ℓ} : {A : Type ℓ} (a : Option A) → first_of a none ≡ a
first_of-none none = refl
first_of-none (some x) = refl

matches-same :
    (tenant session message_id : String) (entry : Entry)
    → matches tenant session message_id entry ≡ true
    → ◌≡◌ {A = String × String × String}
        (entry.tenant_id, entry.session_id, entry.platform_message_id)
        (tenant, session, message_id)
unfolding matches
matches-same tenant session message_id entry h = ground (
  arith,
  eq_iff entry.tenant_id tenant,
  eq_iff entry.session_id session,
  eq_iff entry.platform_message_id message_id,
)

-- A line that matches is about the same text.
pub matches-at {ℓ} :
    {A : Type ℓ} (f : String → String → String → A) (tenant session message_id : String)
    (entry : Entry)
    → matches tenant session message_id entry ≡ true
    → f entry.tenant_id entry.session_id entry.platform_message_id ≡ f tenant session message_id
matches-at f tenant session message_id entry h =
    ap (λ (key : String × String × String). f key.0 key.1 key.2)
      (matches-same tenant session message_id entry h)

module _ {ℓ} {A : Type ℓ} (kind : Entry → Option A) where
  first-append :
      (xs ys : List Entry) → first kind (xs ++ ys) ≡ first_of (first kind xs) (first kind ys)
  unfolding first
  first-append [] ys = refl
  first-append (x ∷ xs) ys = ground (arith, first-append xs ys)

  pub first-All {κ} :
      (P : A → Type κ) (xs : List Entry) {a : A}
      → All (λ x. OnSome P (kind x)) xs
      → first kind xs ≡ some a
      → P a
  unfolding first
  first-All P [] h e = cc
  first-All P (x ∷ xs) {a} (h, hs) e = elim (Option-cases (kind x)) [
    | inl none_here ↦ first-All P xs hs (ground arith)
    | inr (b, here) ↦ let same : b ≡ a = ground arith in subst P same (subst (OnSome P) here h)
  ]

  module _ (base64url : String → String) where
    -- The first of a kind among the lines of a text in a file.
    abbrev first_in : String → String → String → List Entry → Option A
    first_in tenant session message_id entries = first kind (
        filter (matches tenant session message_id)
          (filter (λ entry. entry.tenant_id == tenant) entries))

    first_in-append :
        (tenant session message_id : String) (xs ys : List Entry)
        → first_in tenant session message_id (xs ++ ys)
          ≡ first_of (first_in tenant session message_id xs) (first_in tenant session message_id ys)
    first_in-append tenant session message_id xs ys = rw (
      filter-append (λ entry. entry.tenant_id == tenant) xs ys,
      filter-append (matches tenant session message_id)
          (filter (λ entry. entry.tenant_id == tenant) xs)
          (filter (λ entry. entry.tenant_id == tenant) ys),
      first-append
          (filter (matches tenant session message_id)
            (filter (λ entry. entry.tenant_id == tenant) xs))
          (filter (matches tenant session message_id)
            (filter (λ entry. entry.tenant_id == tenant) ys)),
    )

    first_in-one :
        (tenant session message_id : String) (entry : Entry)
        → first_in tenant session message_id (entry ∷ [])
          ≡ (if matches tenant session message_id entry then kind entry else none)
    unfolding first filter matches
    first_in-one tenant session message_id entry = ground arith

    abbrev own : String → String → String → Entry → Option A
    own tenant session message_id entry =
        if matches tenant session message_id entry then kind entry else none

    first_in-file :
        (files : Files) (entry : Entry) (file tenant session message_id : String)
        → first_in tenant session message_id (append base64url files entry file)
          ≡ first_of (first_in tenant session message_id (files file)) (
              if file == file_for base64url entry.tenant_id
              then own tenant session message_id entry
              else none)
    unfolding append
    first_in-file files entry file tenant session message_id =
        elim (Bool-cases (file == file_for base64url entry.tenant_id)) [
          | inl same ↦ rw (
            same,
            first_in-append tenant session message_id (files file) (entry ∷ []),
            first_in-one tenant session message_id entry,
          )
          | inr other ↦ rw (other, first_of-none (first_in tenant session message_id (files file)))
        ]

    -- The lines of a text are in the file of its tenant.
    own-file :
        (entry : Entry) (tenant session message_id : String)
        → (file_for base64url tenant == file_for base64url entry.tenant_id) ≡ false
        → own tenant session message_id entry ≡ none
    unfolding matches
    own-file entry tenant session message_id h =
        ground (arith, eq_iff entry.tenant_id tenant, eq_refl (file_for base64url tenant))

    abbrev pub first_for : Files → String → String → String → Option A
    first_for files tenant session message_id =
        first kind (entries_of base64url files tenant session message_id)

    first_for-append :
        (files : Files) (entry : Entry) (tenant session message_id : String)
        → (first_for files tenant session message_id ≡ none)
          ⊎ (own tenant session message_id entry ≡ none)
        → first_for (append base64url files entry) tenant session message_id
          ≡ first_of
              (first_for files tenant session message_id)
              (own tenant session message_id entry)
    unfolding entries_of read_ledger
    first_for-append files entry tenant session message_id h =
        let legacy = legacy_file_for tenant in
        let current = file_for base64url tenant in
        ground (
          arith,
          h,
          own-file entry tenant session message_id,
          first_in-file files entry legacy tenant session message_id,
          first_in-file files entry current tenant session message_id,
          first_in-append tenant session message_id (files legacy) (files current),
          first_in-append tenant session message_id (append base64url files entry legacy)
              (append base64url files entry current),
        )

    -- A line is not read for other texts, and for its own text it comes after those that were there.
    pub first_for-append_fresh :
        (files : Files) (entry : Entry) (tenant session message_id : String)
        → first_for files entry.tenant_id entry.session_id entry.platform_message_id ≡ none
        → first_for (append base64url files entry) tenant session message_id
          ≡ first_of
              (first_for files tenant session message_id)
              (if matches tenant session message_id entry then kind entry else none)
    first_for-append_fresh files entry tenant session message_id h =
        first_for-append files entry tenant session message_id
          (elim (Bool-cases (matches tenant session message_id entry)) [
            | inl same ↦
                inl (sym (matches-at (first_for files) tenant session message_id entry same) ∙ h)
            | inr other ↦ inr (rw other refl)
          ])

    -- A line of another kind changes nothing.
    pub first_for-append_kept :
        (files : Files) (entry : Entry) (tenant session message_id : String)
        → kind entry ≡ none
        → first_for (append base64url files entry) tenant session message_id
          ≡ first_for files tenant session message_id
    first_for-append_kept files entry tenant session message_id h = ground (
      arith,
      h,
      first_of-none (first_for files tenant session message_id),
      first_for-append files entry tenant session message_id,
    )
