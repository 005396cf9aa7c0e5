-- ===== src/OutboundStore/Tests.antt =====
-- Runs of src/core/file-outbound-attribution-store.js.
use whatsapp_ai_supervisor.Common.{
  All, List, Option, Result, String, [], filter, is_space, none, ok, refl, some, throws, trim, ℕ,
  ◌∷◌, ◌≡◌,
}
use whatsapp_ai_supervisor.Attribution.{
  Attribution, assert_echo, assert_outbound_attribution, optional_string, required_string,
  valid_timestamp,
}
use whatsapp_ai_supervisor.OutboundStore.{
  Files, append, consume_echo, entries_of, file_for, find_unlocked, first, matches, observe,
  read_ledger, record_attribution, required,
}
use whatsapp_ai_supervisor.OwnershipStore.{is_safe, legacy_file_for, safe_text}
use whatsapp_ai_supervisor.OutboundStore.Table.{
  Operation, apply_all, consumes, empty, looks_up, perform_all, records, set_at,
}
use whatsapp_ai_supervisor.OutboundStore.Steps.{IsPermitted}
use whatsapp_ai_supervisor.OutboundStore.Refinement.{apply_all-Refines}

abbrev plain : String → String
plain s = s

abbrev parse : String → Option ℕ
parse s = some 5

abbrev to_iso : ℕ → Option String
to_iso n = none

abbrev reply_sent : Attribution
reply_sent = record {
  tenant_id = "shop";
  session_id = "s1";
  conversation_id = "c1";
  customer_id = "u1";
  platform_message_id = "p1";
  origin = some "agent";
  source_message_id = none;
  created_at = "2026-01-01T00:00:00.000Z";
  expires_at = "2026-01-02T00:00:00.000Z";
  echo_observed_at = none;
}

abbrev echoed_reply : Attribution
echoed_reply = record reply_sent { echo_observed_at = some "2026-01-01T00:00:05.000Z" }

abbrev calls : List Operation
calls =
    records reply_sent
    ∷ consumes "shop" "s1" "p1" "2026-01-01T00:00:05.000Z"
    ∷ consumes "shop" "s1" "p1" "2026-01-01T00:00:09.000Z"
    ∷ records (record reply_sent { origin = some "operator_api" })
    ∷ looks_up "other" "s1" "p1"
    ∷ []

abbrev answers : List (Option Attribution)
answers = some reply_sent ∷ some echoed_reply ∷ some echoed_reply ∷ some echoed_reply ∷ none ∷ []

code : Unit {0}
unfolding assert_outbound_attribution assert_echo required_string optional_string valid_timestamp
    trim is_space set_at required record_attribution consume_echo find_unlocked entries_of
    read_ledger append observe first matches filter file_for legacy_file_for safe_text is_safe
code = tt

reply_calls-IsPermitted : All (IsPermitted plain parse to_iso) calls
unfolding code
reply_calls-IsPermitted = (
  ((refl, refl), (refl, refl), (refl, refl), refl),
  (
    ((refl, refl), (refl, refl), (refl, refl), ((refl, refl), refl)),
    (
      ((refl, refl), (refl, refl), (refl, refl), ((refl, refl), refl)),
      (
        ((refl, refl), (refl, refl), (refl, refl), refl),
        (((refl, refl), (refl, refl), (refl, refl)), tt),
      ),
    ),
  ),
)

abbrev answers_of : Result (Files × List (Option Attribution)) → List (Option Attribution)
answers_of (ok done) = done.1
answers_of (throws e) = []

apply_all_answers : (perform_all empty calls).1 ≡ answers
unfolding code
apply_all_answers = refl

-- Two records of one text, the first of which stays, and an echo that is seen twice.
apply_all-Refines_example :
    (after : Files) × (apply_all plain parse to_iso (λ file. []) calls
      ≡ ok (after, (perform_all empty calls).1))
apply_all-Refines_example = apply_all-Refines plain parse to_iso calls reply_calls-IsPermitted

-- An attribution whose tenant id has a space around it is kept where it is not found again.
record_attribution_untrimmed :
    answers_of (
      apply_all plain parse to_iso
        (λ file. [])
        (records (record reply_sent { tenant_id = " shop" }) ∷ looks_up "shop" "s1" "p1" ∷ []))
    ≡ some (record reply_sent { tenant_id = " shop" }) ∷ none ∷ []
unfolding code
record_attribution_untrimmed = refl
