-- ===== src/OwnershipStore/Tests.antt =====
-- Runs of file-conversation-ownership-store.js.
use whatsapp_ai_supervisor.Common.{
  Bool, String, [], any, arith, eq_iff, false, filter, find, is_space, last, none, ok, refl, some,
  throws, trim, true, ◌∷◌, ◌≡◌, ◌≢◌,
}
use whatsapp_ai_supervisor.Common.Numbers.{as_natural, equal, of_natural, units}
use whatsapp_ai_supervisor.Ownership.{
  Ownership, RawOwnership, advance, ai_active, assert_conversation_ownership, command_of,
  create_initial_ownership, find_command, find_state, human_active, next_state_for,
  normalize_record, nullable_string, raw_of, required_string, transition_ownership,
}
use whatsapp_ai_supervisor.Ownership.Normal.{IsTrimmed}
use whatsapp_ai_supervisor.OwnershipStore.{
  Disk, TransitionInput, append_line, assert_ownership_transition_input, conversation_entries,
  current_record, default_ownership_for, file_for, get_many, get_ownership, legacy_file_for,
  ownership_key, read_ledger, repeat_or_write, transition, write_transition,
}
use whatsapp_ai_supervisor.OwnershipStore.Ledger.{IsValid}
use whatsapp_ai_supervisor.OwnershipStore.Laws.{entry_of, same_transition}
use whatsapp_ai_supervisor.OwnershipStore.Reads.{transition-IsValid}
use whatsapp_ai_supervisor.OwnershipStore.Consistency.{transition-get, transition-repeated}
use whatsapp_ai_supervisor.OwnershipStore.Isolation.{transition-conflict, transition-get_many_other}

abbrev any_date : String → Bool
any_date s = true

abbrev plain : String → String
plain s = s

abbrev empty_disk : Disk
empty_disk = λ f. []

abbrev takeover : TransitionInput
takeover = record {
  tenant_id = some "shop";
  conversation_id = some "whatsapp:1";
  command = some "manual_takeover";
  transition_id = some "t1";
  actor = some "bob";
  reason_code = none;
  expected_version = some (of_natural 0);
}

abbrev handoff : TransitionInput
handoff = record takeover { command = some "pause_agent"; transition_id = some "t2" }

abbrev taken : Ownership
taken = record {
  tenant_id = "shop";
  conversation_id = "whatsapp:1";
  state = human_active;
  version = 1;
  changed_at = "2026-01-02";
  changed_by = "bob";
  reason_code = none;
  transition_id = some "t1";
}

abbrev first : Disk × RawOwnership
first = (
  append_line empty_disk (file_for plain "shop") (entry_of takeover "2026-01-02" taken),
  raw_of taken,
)

-- What a run computes with.
code : Unit {0}
unfolding transition repeat_or_write write_transition current_record conversation_entries
    read_ledger file_for legacy_file_for filter find last default_ownership_for ownership_key
    assert_ownership_transition_input assert_conversation_ownership create_initial_ownership
    transition_ownership normalize_record required_string nullable_string trim is_space find_state
    find_command command_of advance next_state_for as_natural of_natural units any
code = tt

takes : transition any_date plain empty_disk takeover "2026-01-02" ≡ ok first
unfolding code
takes = refl

fresh : find (same_transition takeover) (conversation_entries plain empty_disk takeover) ≡ none
unfolding code
fresh = refl

separate : legacy_file_for "shop" ≢ file_for plain "shop"
unfolding code
separate = ground (arith, eq_iff (legacy_file_for "shop") (file_for plain "shop"))

shop-IsTrimmed : IsTrimmed "shop"
unfolding code
shop-IsTrimmed = (refl, refl)

conversation-IsTrimmed : IsTrimmed "whatsapp:1"
unfolding code
conversation-IsTrimmed = (refl, refl)

abbrev initial : Ownership
initial = record {
  tenant_id = "shop";
  conversation_id = "whatsapp:1";
  state = ai_active;
  version = 0;
  changed_at = "2026-02-01";
  changed_by = "supervisor";
  reason_code = some "default_ai_active";
  transition_id = none;
}

default_read :
    default_ownership_for any_date (some "shop") (some "whatsapp:1") "2026-02-01" "supervisor"
    ≡ ok initial
unfolding code
default_read = refl

takeover-valid : assert_ownership_transition_input takeover ≡ ok tt
unfolding code
takeover-valid = refl

handoff-valid : assert_ownership_transition_input handoff ≡ ok tt
unfolding code
handoff-valid = refl

handoff_fresh : find (same_transition handoff) (conversation_entries plain first.0 handoff) ≡ none
unfolding code
handoff_fresh = refl

version_moved : equal (of_natural 0) first.1.version ≡ false
unfolding code
version_moved = refl

transition-IsValid_example : IsValid any_date first.0
transition-IsValid_example =
    transition-IsValid any_date plain empty_disk takeover "2026-01-02" (λ f. tt) takes

transition-get_example :
    get_ownership any_date plain first.0 "shop" "whatsapp:1" "2026-02-01" ≡ ok (some (raw_of taken))
transition-get_example =
    transition-get any_date plain empty_disk takeover "2026-01-02" "2026-02-01" "shop" "whatsapp:1"
      (λ f. tt) refl refl shop-IsTrimmed conversation-IsTrimmed separate default_read fresh takes

transition-repeated_example :
    transition any_date plain first.0 (record takeover { actor = some "eve" }) "2026-03-01"
    ≡ ok first
transition-repeated_example =
    transition-repeated any_date plain empty_disk takeover (record takeover { actor = some "eve" })
      "2026-01-02" "2026-03-01" "shop" (λ f. tt) refl separate takes refl refl refl
      (unfold code in refl)

transition-get_many_other_example :
    get_many any_date plain first.0 "cafe" ("whatsapp:1" ∷ []) "2026-02-01"
    ≡ get_many any_date plain empty_disk "cafe" ("whatsapp:1" ∷ []) "2026-02-01"
transition-get_many_other_example =
    transition-get_many_other any_date plain empty_disk takeover "2026-01-02" "2026-02-01" "cafe"
      ("whatsapp:1" ∷ []) takes refl

transition-conflict_example :
    transition any_date plain first.0 handoff "2026-02-01" ≡ throws "ownership_version_conflict"
transition-conflict_example =
    transition-conflict any_date plain empty_disk takeover handoff "2026-01-02" "2026-02-01" "shop"
      (of_natural 0) (λ f. tt) refl separate fresh takes refl refl refl version_moved handoff-valid
      handoff_fresh
