-- ===== src/OutboundStore/Lookup.antt =====
-- src/core/file-outbound-attribution-store.js: what `findUnlocked` answers on files that the store
-- has written.
use whatsapp_ai_supervisor.Common.{
  All, All-append, All-filter, All-map, All-map₂, Bool, OnSome, Option, String, arith, eq_iff,
  false, filter, filter-All, is_empty, is_some, none, ok, on_some, refl, some, trim, true, ℕ, ◌++◌,
  ◌==◌, ◌≡◌,
}
use whatsapp_ai_supervisor.Attribution.{
  Attribution, assert_echo, assert_outbound_attribution, required_string, valid_timestamp,
}
use whatsapp_ai_supervisor.OutboundStore.{
  Body, Entry, Files, echo, echo_in, echo_of, entries_of, file_for, find_unlocked, matches,
  read_ledger, required, sent, sent_in, sent_of, shown, with_echo,
}
use whatsapp_ai_supervisor.OwnershipStore.{legacy_file_for}
use whatsapp_ai_supervisor.OutboundStore.Lines.{first-All, first_for}
use whatsapp_ai_supervisor.OutboundStore.Table.{Table}

-- A text that `trim` leaves as it is, and that is not empty.
abbrev pub IsKey : String → Type 0
IsKey value = (trim value ≡ value) × (is_empty value ≡ false)

pub required-IsKey : (value name : String) → IsKey value → required value name ≡ ok value
unfolding required
required-IsKey value name (same, full) = rw (same, full)

-- The value found, if there is one, with the instant of the echo.
abbrev pub echoed : Option Attribution → Option String → Option Attribution
echoed none at = none
echoed (some value) at = some (with_echo value at)

module _ (base64url : String → String) (parse : String → Option ℕ)
    (to_iso : ℕ → Option String) where
  -- An attribution that passes its check and names its text in trimmed form.
  abbrev pub IsWhole : Attribution → Type 0
  IsWhole value =
      IsKey value.tenant_id
      × IsKey value.session_id
      × IsKey value.platform_message_id
      × (assert_outbound_attribution parse to_iso value ≡ ok value)

  -- An instant as `toISOString` writes it.
  abbrev pub IsInstant : String → Type 0
  IsInstant at = IsKey at × (is_some (parse at) ≡ true)

  abbrev IsSoundBody : Entry → Body → Type 0
  IsSoundBody entry (sent value) =
      IsWhole value
      × (value.tenant_id ≡ entry.tenant_id)
      × (value.session_id ≡ entry.session_id)
      × (value.platform_message_id ≡ entry.platform_message_id)
  IsSoundBody entry (echo at) = IsInstant at

  abbrev pub IsSoundEntry : Entry → Type 0
  IsSoundEntry entry = IsSoundBody entry entry.body

  abbrev pub sent_for : Files → String → String → String → Option Attribution
  sent_for = first_for sent_of base64url

  abbrev pub echo_for : Files → String → String → String → Option String
  echo_for = first_for echo_of base64url

  -- Each line is sound, and a text whose echo is there is itself there.
  abbrev pub IsSound : Files → Type 0
  IsSound files =
      ((file : String) → All IsSoundEntry (files file))
      × ((tenant session message_id : String)
          → sent_for files tenant session message_id ≡ none
          → echo_for files tenant session message_id ≡ none)

  assert_echo-IsInstant : (at : String) → IsInstant at → assert_echo parse to_iso (some at) ≡ ok tt
  unfolding assert_echo valid_timestamp required_string
  assert_echo-IsInstant at ((same, full), instant) = rw (same, full, instant)

  -- An attribution that passes its check passes it with the instant of its echo.
  with_echo-passes :
      (value : Attribution) (at : String)
      → assert_outbound_attribution parse to_iso value ≡ ok value
      → IsInstant at
      → assert_outbound_attribution parse to_iso (with_echo value (some at))
        ≡ ok (with_echo value (some at))
  unfolding assert_outbound_attribution
  with_echo-passes value at e instant = ground (arith, assert_echo-IsInstant at instant)

  entries_of-IsSoundEntry :
      (files : Files) (tenant session message_id : String)
      → IsSound files
      → All IsSoundEntry (entries_of base64url files tenant session message_id)
  unfolding entries_of read_ledger
  entries_of-IsSoundEntry files tenant session message_id (sound, _) =
      let legacy = files (legacy_file_for tenant) in
      let current = files (file_for base64url tenant) in
      let same_tenant : Entry → Bool = λ entry. entry.tenant_id == tenant in
      All-filter IsSoundEntry (matches tenant session message_id)
        (filter same_tenant (legacy ++ current))
        (All-filter IsSoundEntry same_tenant (legacy ++ current) (
          All-append IsSoundEntry legacy current (sound (legacy_file_for tenant))
            (sound (file_for base64url tenant))))

  -- What is found for a text is an attribution of that text.
  abbrev pub IsOf : String → String → String → Attribution → Type 0
  IsOf tenant session message_id value =
      IsWhole value
      × (value.tenant_id ≡ tenant)
      × (value.session_id ≡ session)
      × (value.platform_message_id ≡ message_id)

  sound_body-IsOf :
      (tenant session message_id : String) (entry : Entry) (body : Body)
      → matches tenant session message_id entry ≡ true
      → IsSoundBody entry body
      → OnSome (IsOf tenant session message_id) (sent_in body)
  unfolding matches
  sound_body-IsOf tenant session message_id entry (sent value) h (whole, et, es, em) = (
    whole,
    ground (arith, eq_iff entry.tenant_id tenant),
    ground (arith, eq_iff entry.session_id session),
    ground (arith, eq_iff entry.platform_message_id message_id),
  )
  sound_body-IsOf tenant session message_id entry (echo at) h sound = tt

  pub sent_for-IsOf :
      (files : Files) (tenant session message_id : String) {value : Attribution}
      → IsSound files
      → sent_for files tenant session message_id ≡ some value
      → IsOf tenant session message_id value
  unfolding entries_of
  sent_for-IsOf files tenant session message_id sound e =
      first-All sent_of (IsOf tenant session message_id)
        (entries_of base64url files tenant session message_id)
        (All-map₂
          (λ entry matching body.
            sound_body-IsOf tenant session message_id entry entry.body matching body)
          (entries_of base64url files tenant session message_id)
          (filter-All (matches tenant session message_id) (read_ledger base64url files tenant))
          (entries_of-IsSoundEntry files tenant session message_id sound))
        e

  sound_body-IsInstant :
      (entry : Entry) (body : Body) → IsSoundBody entry body → OnSome IsInstant (echo_in body)
  sound_body-IsInstant entry (sent value) sound = tt
  sound_body-IsInstant entry (echo at) sound = sound

  pub echo_for-IsInstant :
      (files : Files) (tenant session message_id : String) {at : String}
      → IsSound files
      → echo_for files tenant session message_id ≡ some at
      → IsInstant at
  echo_for-IsInstant files tenant session message_id sound e =
      first-All echo_of IsInstant (entries_of base64url files tenant session message_id)
        (All-map (λ entry body. sound_body-IsInstant entry entry.body body)
          (entries_of base64url files tenant session message_id)
          (entries_of-IsSoundEntry files tenant session message_id sound))
        e

  abbrev pub table_of : Files → Table
  table_of files = λ tenant session message_id.
      echoed (sent_for files tenant session message_id) (echo_for files tenant session message_id)

  shown-echoed :
      (tenant session message_id : String) (value : Option Attribution) (at : Option String)
      → OnSome (IsOf tenant session message_id) value
      → OnSome IsInstant at
      → shown base64url parse to_iso tenant value at ≡ ok (echoed value at)
  shown-echoed tenant session message_id none at h k = refl
  shown-echoed tenant session message_id (some value) none h k =
      ground (arith, h, eq_iff value.tenant_id tenant)
  shown-echoed tenant session message_id (some value) (some at) h k =
      ground (arith, h, eq_iff value.tenant_id tenant, with_echo-passes value at)

  pub find_unlocked-table_of :
      (files : Files) (tenant session message_id : String)
      → IsSound files
      → IsKey tenant
      → IsKey session
      → IsKey message_id
      → find_unlocked base64url parse to_iso files tenant session message_id
        ≡ ok (table_of files tenant session message_id)
  unfolding find_unlocked
  find_unlocked-table_of files tenant session message_id sound kt ks km = rw (
    required-IsKey tenant "tenant_id" kt,
    required-IsKey session "session_id" ks,
    required-IsKey message_id "platform_message_id" km,
    shown-echoed tenant session message_id (sent_for files tenant session message_id)
        (echo_for files tenant session message_id)
        (on_some _ (λ value. sent_for-IsOf files tenant session message_id sound))
        (on_some _ (λ at. echo_for-IsInstant files tenant session message_id sound)),
  )
