-- ===== src/Channels/Operations.antt =====
-- workers/whatsapp-web/src/session-manager.js: what `optionalOperationId` lets through.
use whatsapp_ai_supervisor.Common.{
  Option, String, arith, false, is_empty, ltb, none, ok, some, trim, trim_idem, ◌≡◌,
}
use whatsapp_ai_supervisor.Worker.Send.{check_operation_id, optional_operation_id, utf16_length}

-- An operation id as `sendText` takes it.
pub record IsOperation (operation_id : String) : Type 0 where
  pub trimmed : trim operation_id ≡ operation_id
  pub full : is_empty operation_id ≡ false
  pub short : ltb 200 (utf16_length operation_id) ≡ false

pub check_operation_id-IsOperation :
    (value : String) {operation_id : String}
    → check_operation_id value ≡ ok (some operation_id)
    → IsOperation operation_id
unfolding check_operation_id
check_operation_id-IsOperation value {operation_id} e =
    let same : trim value ≡ operation_id = ground (arith, e) in
    record {
      trimmed = rw (← same) (trim_idem value);
      full = ground (arith, e, same);
      short = ground (arith, e, same);
    }

pub optional_operation_id-IsOperation :
    (value : Option String) {operation_id : String}
    → optional_operation_id value ≡ ok (some operation_id)
    → IsOperation operation_id
optional_operation_id-IsOperation none e = cc
optional_operation_id-IsOperation (some value) {operation_id} e =
    check_operation_id-IsOperation value (ground (arith, e))
