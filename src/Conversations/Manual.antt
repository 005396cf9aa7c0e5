-- ===== src/Conversations/Manual.antt =====
-- src/core/file-conversation-store.js, `recordManualOutbound`.
use mathlib.Core.Path.{subst}
use whatsapp_ai_supervisor.Common.{
  Option, Option-cases, String, [], arith, eq_refl, false, find, find-append_none, inl, inr,
  is_empty, none, ok, some, true, ◌∙◌, ◌∷◌, ◌≡◌,
}
use whatsapp_ai_supervisor.Conversations.{
  Files, Line, ManualOutbound, append_event, file_for, is_manual, manual_line, read_events,
  record_manual_outbound, recorded_manual,
}
use whatsapp_ai_supervisor.Conversations.Control.{append_event-ok}

pub manual_line-is_manual :
    (input : ManualOutbound) (fresh message_id : String)
    → input.message_id ≡ some message_id
    → is_manual message_id (manual_line input fresh) ≡ true
manual_line-is_manual input fresh message_id e = ground (arith, eq_refl message_id)

pub find-append_event :
    (files : Files) (input : ManualOutbound) (fresh message_id : String) {after : Files × Line}
    → input.message_id ≡ some message_id
    → find (is_manual message_id) (read_events files input.tenant_id) ≡ none
    → append_event files (manual_line input fresh) ≡ ok after
    → find (is_manual message_id) (read_events after.0 input.tenant_id) ≡ some after.1
unfolding read_events find
find-append_event files input fresh message_id {after} e absent h =
    subst
      (λ (pair : Files × Line).
        find (is_manual message_id) (read_events pair.0 input.tenant_id) ≡ some pair.1)
      (append_event-ok files (manual_line input fresh) h)
      (ground (
        arith,
        eq_refl (file_for input.tenant_id),
        find-append_none (is_manual message_id) (files (file_for input.tenant_id))
            (manual_line input fresh ∷ []),
        manual_line-is_manual input fresh message_id e,
      ))

pub recorded_manual-find :
    (files : Files) (input : ManualOutbound) (message_id : String)
    → input.message_id ≡ some message_id
    → is_empty message_id ≡ false
    → recorded_manual files input ≡ find (is_manual message_id) (read_events files input.tenant_id)
recorded_manual-find files input message_id e written = ground arith

pub record_manual_outbound-found :
    (files : Files) (input : ManualOutbound) (fresh : String) {line : Line}
    → recorded_manual files input ≡ some line
    → record_manual_outbound files input fresh ≡ ok (files, line)
unfolding record_manual_outbound
record_manual_outbound-found files input fresh e = ground arith

-- After a manual text with a message id went through, its line is found.
pub find-record_manual_outbound :
    (files : Files) (input : ManualOutbound) (fresh message_id : String) {after : Files × Line}
    → input.message_id ≡ some message_id
    → is_empty message_id ≡ false
    → record_manual_outbound files input fresh ≡ ok after
    → find (is_manual message_id) (read_events after.0 input.tenant_id) ≡ some after.1
unfolding record_manual_outbound
find-record_manual_outbound files input fresh message_id {after} named written e =
    let recorded = recorded_manual-find files input message_id named written in
    elim (Option-cases (find (is_manual message_id) (read_events files input.tenant_id))) [
      | inl absent ↦
          find-append_event files input fresh message_id {after = after} named absent (ground arith)
      | inr (old, present) ↦
          let same : (files, old) ≡ after = ground arith in
          subst
            (λ (pair : Files × Line).
              find (is_manual message_id) (read_events pair.0 input.tenant_id) ≡ some pair.1)
            same present
    ]

-- A manual text with the message id of an earlier one, whatever its text, customer and time, returns
-- the line of the earlier one and writes nothing.
pub record_manual_outbound-repeated :
    (files after : Files) (line : Line) (input : ManualOutbound) (fresh message_id : String)
    → input.message_id ≡ some message_id
    → is_empty message_id ≡ false
    → record_manual_outbound files input fresh ≡ ok (after, line)
    → (customer_id at later_fresh : String) (customer_name body : Option String)
    → record_manual_outbound after
        (record input {
          customer_id = customer_id;
          customer_name = customer_name;
          text = body;
          at = at;
        })
        later_fresh
      ≡ ok (after, line)
record_manual_outbound-repeated files after line input fresh message_id named written e customer_id
      at later_fresh customer_name body =
    let again = record input {
      customer_id = customer_id;
      customer_name = customer_name;
      text = body;
      at = at;
    } in
    record_manual_outbound-found after again later_fresh (
      recorded_manual-find after again message_id named written
      ∙ find-record_manual_outbound files input fresh message_id {after = (after, line)} named
          written e)
