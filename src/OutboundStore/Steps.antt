-- ===== src/OutboundStore/Steps.antt =====
-- src/core/file-outbound-attribution-store.js: each call does to the files what it does to the table.
use whatsapp_ai_supervisor.Common.{
  Bool-cases, OnSome, Option, String, arith, false, inl, inr, none, ok, on_some, refl, some, ℕ, ◌∙◌,
  ◌≡◌,
}
use whatsapp_ai_supervisor.Attribution.{Attribution}
use whatsapp_ai_supervisor.OutboundStore.{
  Files, append, consume_echo, echo, has_echo, keep_or_append, observe, observe_once,
  record_attribution, sent, with_echo,
}
use whatsapp_ai_supervisor.OutboundStore.Lookup.{
  IsInstant, IsKey, IsSound, IsWhole, echo_for, echo_for-IsInstant, echoed, find_unlocked-table_of,
  required-IsKey, sent_for, sent_for-IsOf, table_of,
}
use whatsapp_ai_supervisor.OutboundStore.Table.{
  Operation, Table, apply, consumes, keep_first, looks_up, mark_once, perform, records, set_at,
}
use whatsapp_ai_supervisor.OutboundStore.Writes.{
  Represents, Represents-IsSame, echo-Represents, line_of, sent-Represents, set_at-IsSame,
}

module _ (base64url : String → String) (parse : String → Option ℕ)
    (to_iso : ℕ → Option String) where
  -- A call of `record` on a text, by what the table has of it.
  keep_first-Represents :
      (files : Files) (table : Table) (value : Attribution) (existing : Option Attribution)
      → Represents base64url parse to_iso files table
      → IsWhole base64url parse to_iso value
      → table value.tenant_id value.session_id value.platform_message_id ≡ existing
      → (let done =
            keep_or_append base64url parse to_iso files value
              (line_of value (sent value))
              existing in
          let spec = keep_first table value existing in
          (some done.1 ≡ spec.1) × Represents base64url parse to_iso done.0 spec.0)
  keep_first-Represents files table value (some existing) rep whole e = (refl, rep)
  keep_first-Represents files table value none (sound, same) whole e = (
    refl,
    Represents-IsSame base64url parse to_iso (append base64url files (line_of value (sent value)))
        (set_at (table_of base64url parse to_iso files) value) (set_at table value)
        (sent-Represents base64url parse to_iso files value sound whole
          (ground (arith, e, same value.tenant_id value.session_id value.platform_message_id)))
        (set_at-IsSame (table_of base64url parse to_iso files) table value same),
  )

  record_attribution-table_of :
      (files : Files) (value : Attribution)
      → IsSound base64url parse to_iso files
      → IsWhole base64url parse to_iso value
      → record_attribution base64url parse to_iso files value
        ≡ ok (
            keep_or_append base64url parse to_iso files value (line_of value (sent value)) (
              table_of base64url parse to_iso files value.tenant_id value.session_id
                value.platform_message_id))
  unfolding record_attribution
  record_attribution-table_of files value sound (kt, ks, km, passes) = rw (
    passes,
    required-IsKey value.tenant_id "tenant_id" kt,
    required-IsKey value.session_id "session_id" ks,
    required-IsKey value.platform_message_id "platform_message_id" km,
    find_unlocked-table_of base64url parse to_iso files value.tenant_id value.session_id
        value.platform_message_id sound kt ks km,
  )

  consume_echo-table_of :
      (files : Files) (tenant session message_id now : String)
      → IsSound base64url parse to_iso files
      → IsKey tenant
      → IsKey session
      → IsKey message_id
      → consume_echo base64url parse to_iso files tenant session message_id now
        ≡ observe_once base64url parse to_iso files
            (table_of base64url parse to_iso files tenant session message_id)
            now
  unfolding consume_echo
  consume_echo-table_of files tenant session message_id now sound kt ks km = rw (
    required-IsKey tenant "tenant_id" kt,
    required-IsKey session "session_id" ks,
    required-IsKey message_id "platform_message_id" km,
    find_unlocked-table_of base64url parse to_iso files tenant session message_id sound kt ks km,
  )

  -- An echo that is not noted in what is shown is on no line.
  unmarked-fresh :
      (value : Option Attribution) (at : Option String) {current : Attribution}
      → OnSome (IsInstant base64url parse to_iso) at
      → echoed value at ≡ some current
      → has_echo current.echo_observed_at ≡ false
      → (value ≡ some current) × (at ≡ none)
  unmarked-fresh none at h e unmarked = cc
  unmarked-fresh (some value) none h e unmarked = (e, refl)
  unmarked-fresh (some value) (some at) h e unmarked = ground (arith, h, e, unmarked)

  observe-Represents :
      (files : Files) (table : Table) (tenant session message_id now : String)
      (current : Attribution)
      → Represents base64url parse to_iso files table
      → IsInstant base64url parse to_iso now
      → table tenant session message_id ≡ some current
      → has_echo current.echo_observed_at ≡ false
      → Represents base64url parse to_iso
          (append base64url files (line_of current (echo now)))
          (set_at table (with_echo current (some now)))
  observe-Represents files table tenant session message_id now current (sound, same) instant e
        unmarked =
      let (here, fresh) =
        unmarked-fresh (sent_for base64url parse to_iso files tenant session message_id)
          (echo_for base64url parse to_iso files tenant session message_id)
          (on_some _
            (λ at. echo_for-IsInstant base64url parse to_iso files tenant session message_id sound))
          (same tenant session message_id ∙ e) unmarked in
      let (_, et, es, em) =
        sent_for-IsOf base64url parse to_iso files tenant session message_id sound here in
      Represents-IsSame base64url parse to_iso (append base64url files (line_of current (echo now)))
        (set_at (table_of base64url parse to_iso files) (with_echo current (some now)))
        (set_at table (with_echo current (some now)))
        (echo-Represents base64url parse to_iso files current now sound instant
          ((λ i. sent_for base64url parse to_iso files (et i) (es i) (em i)) ∙ here)
          ((λ i. echo_for base64url parse to_iso files (et i) (es i) (em i)) ∙ fresh))
        (set_at-IsSame (table_of base64url parse to_iso files) table (with_echo current (some now))
          same)

  observe-IsInstant :
      (files : Files) (current : Attribution) (now : String)
      → IsInstant base64url parse to_iso now
      → observe base64url parse to_iso files current now
        ≡ ok (
          append base64url files (line_of current (echo now)),
          some (with_echo current (some now)),
        )
  unfolding observe
  observe-IsInstant files current now (_, instant) = rw instant

  -- A call of `consumeEcho` on a text, by what the table has of it.
  mark_once-Represents :
      (files : Files) (table : Table) (tenant session message_id now : String)
      (current : Option Attribution)
      → Represents base64url parse to_iso files table
      → IsInstant base64url parse to_iso now
      → table tenant session message_id ≡ current
      → (after : Files) × (observe_once base64url parse to_iso files current now
          ≡ ok (after, (mark_once table now current).1))
        × Represents base64url parse to_iso after (mark_once table now current).0
  mark_once-Represents files table tenant session message_id now none rep instant e =
      (files, refl, rep)
  mark_once-Represents files table tenant session message_id now (some current) rep instant e =
      elim (Bool-cases (has_echo current.echo_observed_at)) [
        | inl marked ↦ (files, rw marked refl, rw marked rep)
        | inr unmarked ↦ (
          append base64url files (line_of current (echo now)),
          rw (unmarked, observe-IsInstant files current now instant) refl,
          rw unmarked (
              observe-Represents files table tenant session message_id now current rep instant e
                unmarked),
        )
      ]

  -- A call about a text that is named in trimmed form, at an instant.
  abbrev pub IsPermitted : Operation → Type 0
  IsPermitted (records value) = IsWhole base64url parse to_iso value
  IsPermitted (consumes tenant session message_id now) =
      IsKey tenant × IsKey session × IsKey message_id × IsInstant base64url parse to_iso now
  IsPermitted (looks_up tenant session message_id) = IsKey tenant × IsKey session × IsKey message_id

  pub apply-Represents :
      (files : Files) (table : Table) (operation : Operation)
      → Represents base64url parse to_iso files table
      → IsPermitted operation
      → (after : Files) × (apply base64url parse to_iso files operation
          ≡ ok (after, (perform table operation).1))
        × Represents base64url parse to_iso after (perform table operation).0
  apply-Represents files table (records value) (sound, same) whole =
      let existing = table value.tenant_id value.session_id value.platform_message_id in
      let (answer, rep) =
        keep_first-Represents files table value existing (sound, same) whole refl in
      (
        (keep_or_append base64url parse to_iso files value (line_of value (sent value)) existing).0,
        rw
            (
              record_attribution-table_of files value sound whole,
              same value.tenant_id value.session_id value.platform_message_id,
              answer,
            )
            refl,
        rep,
      )
  apply-Represents files table (consumes tenant session message_id now) (sound, same)
        (kt, ks, km, instant) =
      rw
        (
          consume_echo-table_of files tenant session message_id now sound kt ks km,
          same tenant session message_id,
        )
        (mark_once-Represents files table tenant session message_id now
          (table tenant session message_id) (sound, same) instant refl)
  apply-Represents files table (looks_up tenant session message_id) (sound, same) (kt, ks, km) = (
    files,
    rw
        (
          find_unlocked-table_of base64url parse to_iso files tenant session message_id sound kt ks
              km,
          same tenant session message_id,
        )
        refl,
    (sound, same),
  )
