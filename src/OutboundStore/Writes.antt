-- ===== src/OutboundStore/Writes.antt =====
-- src/core/file-outbound-attribution-store.js: what the lines that the store writes do to its table.
use whatsapp_ai_supervisor.Common.{
  All, All-append, Option, String, [], arith, if-holds, none, refl, some, ℕ, ◌==◌, ◌∙◌, ◌∷◌, ◌≡◌,
}
use whatsapp_ai_supervisor.Attribution.{Attribution}
use whatsapp_ai_supervisor.OutboundStore.{
  Body, Entry, Files, append, echo, echo_of, file_for, matches, sent, sent_of, with_echo,
}
use whatsapp_ai_supervisor.OutboundStore.Lines.{
  first_for-append_fresh, first_for-append_kept, matches-at,
}
use whatsapp_ai_supervisor.OutboundStore.Lookup.{
  IsInstant, IsSound, IsSoundEntry, IsWhole, echo_for, sent_for, table_of,
}
use whatsapp_ai_supervisor.OutboundStore.Table.{Table, set_at}

-- The line about an attribution's text.
abbrev pub line_of : Attribution → Body → Entry
line_of value body = record {
  tenant_id = value.tenant_id;
  session_id = value.session_id;
  platform_message_id = value.platform_message_id;
  body = body;
}

abbrev pub IsSame : Table → Table → Type 0
IsSame table table₂ =
    (tenant session message_id : String)
    → table tenant session message_id ≡ table₂ tenant session message_id

pub set_at-IsSame :
    (table table₂ : Table) (value : Attribution)
    → IsSame table table₂
    → IsSame (set_at table value) (set_at table₂ value)
unfolding set_at
set_at-IsSame table table₂ value same t s m = ground (arith, same t s m)

module _ (base64url : String → String) (parse : String → Option ℕ)
    (to_iso : ℕ → Option String) where
  abbrev pub Represents : Files → Table → Type 0
  Represents files table =
      IsSound base64url parse to_iso files × IsSame (table_of base64url parse to_iso files) table

  append-All :
      (files : Files) (entry : Entry)
      → ((file : String) → All (IsSoundEntry base64url parse to_iso) (files file))
      → IsSoundEntry base64url parse to_iso entry
      → (file : String)
      → All (IsSoundEntry base64url parse to_iso) (append base64url files entry file)
  unfolding append
  append-All files entry sound one file =
      if-holds (All (IsSoundEntry base64url parse to_iso))
        (file == file_for base64url entry.tenant_id)
        (λ _.
          All-append (IsSoundEntry base64url parse to_iso) (files file) (entry ∷ []) (sound file)
            (one, tt))
        (λ _. sound file)

  -- The first record of a text.
  pub sent-Represents :
      (files : Files) (value : Attribution)
      → IsSound base64url parse to_iso files
      → IsWhole base64url parse to_iso value
      → sent_for base64url parse to_iso files value.tenant_id value.session_id
          value.platform_message_id
        ≡ none
      → Represents
          (append base64url files (line_of value (sent value)))
          (set_at (table_of base64url parse to_iso files) value)
  unfolding set_at matches
  sent-Represents files value (sound, ordered) whole fresh =
      let entry = line_of value (sent value) in
      let all = append-All files entry sound (whole, refl, refl, refl) in
      let still_ordered : (t s m : String)
          → sent_for base64url parse to_iso (append base64url files entry) t s m ≡ none
          → echo_for base64url parse to_iso (append base64url files entry) t s m ≡ none =
        λ t s m e. ground (
          arith,
          e,
          ordered t s m,
          first_for-append_fresh sent_of base64url files entry t s m fresh,
          first_for-append_kept echo_of base64url files entry t s m refl,
        ) in
      (
        (all, still_ordered),
        (λ t s m. ground (
          arith,
          ordered t s m,
          first_for-append_fresh sent_of base64url files entry t s m fresh,
          first_for-append_kept echo_of base64url files entry t s m refl,
          matches-at (sent_for base64url parse to_iso files) t s m entry,
        )),
      )

  -- The first echo of a text that was recorded.
  pub echo-Represents :
      (files : Files) (value : Attribution) (now : String)
      → IsSound base64url parse to_iso files
      → IsInstant base64url parse to_iso now
      → sent_for base64url parse to_iso files value.tenant_id value.session_id
          value.platform_message_id
        ≡ some value
      → echo_for base64url parse to_iso files value.tenant_id value.session_id
          value.platform_message_id
        ≡ none
      → Represents
          (append base64url files (line_of value (echo now)))
          (set_at (table_of base64url parse to_iso files) (with_echo value (some now)))
  unfolding set_at matches
  echo-Represents files value now (sound, ordered) instant here fresh =
      let entry = line_of value (echo now) in
      let all = append-All files entry sound instant in
      let still_ordered : (t s m : String)
          → sent_for base64url parse to_iso (append base64url files entry) t s m ≡ none
          → echo_for base64url parse to_iso (append base64url files entry) t s m ≡ none =
        λ t s m e. ground (
          arith,
          e,
          ordered t s m,
          first_for-append_kept sent_of base64url files entry t s m refl,
          first_for-append_fresh echo_of base64url files entry t s m fresh,
          matches-at (sent_for base64url parse to_iso files) t s m entry,
        ) in
      (
        (all, still_ordered),
        (λ t s m. ground (
          arith,
          ordered t s m,
          first_for-append_kept sent_of base64url files entry t s m refl,
          first_for-append_fresh echo_of base64url files entry t s m fresh,
          matches-at (sent_for base64url parse to_iso files) t s m entry,
          matches-at (echo_for base64url parse to_iso files) t s m entry,
        )),
      )

  pub Represents-IsSame :
      (files : Files) (table table₂ : Table)
      → Represents files table
      → IsSame table table₂
      → Represents files table₂
  Represents-IsSame files table table₂ (sound, same) h = (sound, λ t s m. same t s m ∙ h t s m)
