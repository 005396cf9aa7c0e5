-- ===== src/Inbound/Settled.antt =====
-- src/app.js, `processMessage`: a message is processed, a duplicate, or given back.
use mathlib.Core.Path.{subst}
use whatsapp_ai_supervisor.Common.{
  All, Bool, List, Result, String, [], ap, arith, false, inl, inr, is_empty, ok, ok-injective, refl,
  sym, throws, trim, true, ℕ, ◌++◌, ◌∙◌, ◌∷◌, ◌≡◌,
}
use whatsapp_ai_supervisor.Common.Traces.{call, or_run-ok_cases, quiet, then_run, then_run-ok_parts}
use whatsapp_ai_supervisor.Messages.{Message, Tenant}
use whatsapp_ai_supervisor.Inbound.{
  Backends, Deed, claim_released, claim_taken, message_conversation,
}
use whatsapp_ai_supervisor.Inbound.Receive.{
  Report, create_inbound_domain_event, duplicate_report, failed_report, joined, process_claimed,
  process_if, process_message, process_new, processed_report, release_claim,
}
use whatsapp_ai_supervisor.Inbound.Claims.{
  Unreleased, process_claimed-IsProcessed, process_claimed-Unreleased,
}

-- What a report says of the deeds and of the store's answer, for the claim with this key.
pub data Settled (key message_id : String) (claimed : Result Bool) (deeds : List Deed)
    (report : Report) : Type 0 where
  duplicate :
      claimed ≡ ok false
      → report ≡ duplicate_report
      → deeds ≡ claim_taken key ∷ []
      → Settled key message_id claimed deeds report
  processed :
      (queued : ℕ)
      → claimed ≡ ok true
      → report ≡ processed_report queued
      → All Unreleased deeds
      → Settled key message_id claimed deeds report
  given_back :
      (earlier : List Deed)
      → claimed ≡ ok true
      → report ≡ failed_report message_id
      → deeds ≡ claim_taken key ∷ earlier ++ claim_released key ∷ []
      → All Unreleased earlier
      → Settled key message_id claimed deeds report

pub release_claim-ok :
    (backends : Backends) (key message_id : String) {report : Report}
    → (release_claim backends key message_id).1 ≡ ok report
    → (report ≡ failed_report message_id)
      × ((release_claim backends key message_id).0 ≡ claim_released key ∷ [])
unfolding release_claim
release_claim-ok backends key message_id e =
    let (_, _, done, calls) =
      then_run-ok_parts (call (claim_released key) (backends.release key))
        (λ _. quiet (ok (failed_report message_id))) e in
    (sym (ok-injective done), calls)

module _ (backends : Backends) (message : Message) (tenant : Tenant) (connector_id : String) where
  pub process_new-Settled :
      {report : Report}
      → (process_new backends message tenant connector_id).1 ≡ ok report
      → Settled
          (joined tenant.id message.id)
          message.id
          (ok true)
          (claim_taken (joined tenant.id message.id)
            ∷ (process_new backends message tenant connector_id).0)
          report
  unfolding process_new
  process_new-Settled e =
      let key = joined tenant.id message.id in
      let normalized = record message { tenant_id = tenant.id } in
      let (attempted, _, e₁, calls) =
        then_run-ok_parts
          (quiet (create_inbound_domain_event backends normalized tenant connector_id)) _ e in
      let body = process_claimed backends tenant normalized attempted in
      elim (or_run-ok_cases body (release_claim backends key message.id) e₁) [
        | inl (done, same) ↦
            let (queued, is) =
              process_claimed-IsProcessed backends tenant normalized attempted done in
            processed queued refl is (
              tt,
              subst (All Unreleased) (sym (calls ∙ same))
                  (process_claimed-Unreleased backends tenant normalized attempted),
            )
        | inr (done, same) ↦
            let (is, released) = release_claim-ok backends key message.id done in
            given_back body.0 refl is
              (ap (λ (d : List Deed). claim_taken key ∷ d)
                (calls ∙ (same ∙ ap (λ d. body.0 ++ d) released)))
              (process_claimed-Unreleased backends tenant normalized attempted)
      ]

  -- A message whose run returns is of one of three kinds: its claim was refused, it is reported as a
  -- duplicate and nothing else is done; or its claim was granted, and it is reported as processed and
  -- keeps its claim, or is reported as failed and has, as the last deed, given its claim back.
  pub process_message-Settled :
      (report : Report)
      → (process_message backends message tenant connector_id).1 ≡ ok report
      → Settled
          (joined tenant.id message.id)
          message.id
          (backends.claim (joined tenant.id message.id))
          (process_message backends message tenant connector_id).0
          report
  unfolding process_message
  process_message-Settled report e = by_claim (backends.claim (joined tenant.id message.id)) e
    where
      by_claim :
          (answer : Result Bool)
          → (then_run
              (call (claim_taken (joined tenant.id message.id)) answer)
              (λ claimed. process_if claimed backends message tenant connector_id)).1
            ≡ ok report
          → Settled
              (joined tenant.id message.id)
              message.id
              answer
              (then_run
                (call (claim_taken (joined tenant.id message.id)) answer)
                (λ claimed. process_if claimed backends message tenant connector_id)).0
              report
      by_claim (throws m) e = cc
      by_claim (ok false) e = duplicate refl (sym (ok-injective e)) refl
      by_claim (ok true) e = process_new-Settled e

  -- A claimed message with no customer makes the run throw before anything else is done, and its
  -- claim is not given back.
  pub process_message-unidentified :
      backends.claim (joined tenant.id message.id) ≡ ok true
      → is_empty (trim message.customer_id) ≡ true
      → process_message backends message tenant connector_id
        ≡ (claim_taken (joined tenant.id message.id) ∷ [], throws "conversation_identity_required")
  unfolding process_message process_new create_inbound_domain_event message_conversation
  process_message-unidentified claimed blank = ground arith
