-- ===== src/Ingress/Accounted.antt =====
-- src/app.js: the webhook's answer accounts for each message once.
use mathlib.Core.List.{append_assoc, append-nil}
use mathlib.Core.Path.{subst}
use whatsapp_ai_supervisor.Common.{
  Bool, Bool-cases, List, Option, Result, String, [], ap, arith, inl, inr, is_empty, length,
  length-append, none, not, ok, ok-injective, refl, some, sym, text_of, ℕ, ◌&&◌, ◌++◌, ◌+◌, ◌∙◌,
  ◌∷◌, ◌≡◌, ◌≢◌, ◌⊎◌,
}
use whatsapp_ai_supervisor.Common.Traces.{continue_run, then_run, then_run-ok_parts}
use whatsapp_ai_supervisor.Messages.{Message, Tenant}
use whatsapp_ai_supervisor.Inbound.{Backends, Deed}
use whatsapp_ai_supervisor.Inbound.Receive.{Report}
use whatsapp_ai_supervisor.Inbound.Settled.{
  Settled, duplicate, given_back, process_message-Settled, processed,
}
use whatsapp_ai_supervisor.Channels.Cloud.{
  Arrival, CloudPayload, normalize_whatsapp_webhook, validate_meta_signature,
}
use whatsapp_ai_supervisor.Ingress.{
  Totals, add_report, counted, counted_totals, invalid_webhook_signature, no_totals,
  process_arrival, process_arrivals, receive_webhook,
}

abbrev pub outcomes : ℕ → ℕ → List String → ℕ
outcomes done repeated failed = done + repeated + length failed

Settled-one :
    {key id : String} {claimed : Result Bool} {deeds : List Deed} {report : Report}
    → Settled key id claimed deeds report
    → outcomes report.processed report.duplicates report.failures ≡ 1
Settled-one (duplicate _ same _) = rw same refl
Settled-one (processed queued _ same _) = rw same refl
Settled-one (given_back earlier _ same _ _) = rw same refl

-- What a message adds to the failures: nothing, which only a message to a number of a tenant may, or its
-- id.
abbrev pub IsTold : (Option String → Option Tenant) → List Arrival → List String → Type 0
IsTold find_tenant [] failures = failures ≡ []
IsTold find_tenant (arrival ∷ arrivals) failures =
    ((find_tenant arrival.phone_number_id ≢ none) × IsTold find_tenant arrivals failures)
    ⊎ ((later : List String) × (failures ≡ arrival.message.id ∷ later)
        × IsTold find_tenant arrivals later)

Settled-failures :
    {key id : String} {claimed : Result Bool} {deeds : List Deed} {report : Report}
    → Settled key id claimed deeds report
    → (report.failures ≡ []) ⊎ (report.failures ≡ id ∷ [])
Settled-failures (duplicate _ same _) = inl (ap (λ (r : Report). r.failures) same)
Settled-failures (processed queued _ same _) = inl (ap (λ (r : Report). r.failures) same)
Settled-failures (given_back earlier _ same _ _) = inr (ap (λ (r : Report). r.failures) same)

module _ (backends_for : Message → Backends) where
  process_arrival-failures :
      (tenant : Option Tenant) (message : Message) {report : Report}
      → (process_arrival backends_for tenant message).1 ≡ ok report
      → ((tenant ≢ none) × (report.failures ≡ [])) ⊎ (report.failures ≡ message.id ∷ [])
  process_arrival-failures none message e =
      inr (sym (ap (λ (r : Report). r.failures) (ok-injective e)))
  process_arrival-failures (some tenant) message {report} e =
      elim (Settled-failures
        (process_message-Settled (backends_for message) message tenant "whatsapp-cloud" report e)) [
          | inl quiet_report ↦ inl ((λ wrong. cc), quiet_report)
          | inr told ↦ inr told
        ]

  process_arrivals-IsTold :
      (find_tenant : Option String → Option Tenant) (totals : Totals) (arrivals : List Arrival)
      {after : Totals}
      → (process_arrivals backends_for find_tenant totals arrivals).1 ≡ ok after
      → (told : List String) × (after.failures ≡ totals.failures ++ told)
        × IsTold find_tenant arrivals told
  unfolding process_arrivals
  process_arrivals-IsTold find_tenant totals [] e = (
    [],
    ap (λ (t : Totals). t.failures) (sym (ok-injective e)) ∙ sym (append-nil totals.failures),
    refl,
  )
  process_arrivals-IsTold find_tenant totals (arrival ∷ arrivals) {after} e =
      let (report, one, rest, _) =
        then_run-ok_parts
          (process_arrival backends_for (find_tenant arrival.phone_number_id) arrival.message) _
          e in
      let (told, same, later) =
        process_arrivals-IsTold find_tenant (add_report totals report) arrivals rest in
      elim (process_arrival-failures (find_tenant arrival.phone_number_id) arrival.message one) [
        | inl (known, nothing) ↦ (
          told,
          same
              ∙ ap (λ f. (totals.failures ++ f) ++ told) nothing
              ∙ ap (λ f. f ++ told) (append-nil totals.failures),
          inl (known, later),
        )
        | inr one_more ↦ (
          arrival.message.id ∷ told,
          same
              ∙ ap (λ f. (totals.failures ++ f) ++ told) one_more
              ∙ append_assoc totals.failures (arrival.message.id ∷ []) told,
          inr (told, refl, later),
        )
      ]

  process_arrival-one :
      (tenant : Option Tenant) (message : Message) {report : Report}
      → (process_arrival backends_for tenant message).1 ≡ ok report
      → outcomes report.processed report.duplicates report.failures ≡ 1
  process_arrival-one none message e = rw (← ok-injective e) refl
  process_arrival-one (some tenant) message {report} e =
      Settled-one
        (process_message-Settled (backends_for message) message tenant "whatsapp-cloud" report e)

  process_arrivals-outcomes :
      (find_tenant : Option String → Option Tenant) (totals : Totals) (arrivals : List Arrival)
      {after : Totals}
      → (process_arrivals backends_for find_tenant totals arrivals).1 ≡ ok after
      → outcomes after.processed after.duplicates after.failures
        ≡ outcomes totals.processed totals.duplicates totals.failures + length arrivals
  unfolding process_arrivals
  process_arrivals-outcomes find_tenant totals [] e = rw (← ok-injective e) (omega arith)
  process_arrivals-outcomes find_tenant totals (arrival ∷ arrivals) e =
      let (report, one, rest, _) =
        then_run-ok_parts
          (process_arrival backends_for (find_tenant arrival.phone_number_id) arrival.message) _
          e in
      omega (
        arith,
        process_arrival-one (find_tenant arrival.phone_number_id) arrival.message one,
        process_arrivals-outcomes find_tenant (add_report totals report) arrivals rest,
        length-append totals.failures report.failures,
      )

  -- A webhook that is answered with counts was answered for each of its text messages exactly once: as
  -- processed, as a duplicate, or as a failure. The failures are ids of such messages in their order, and
  -- each message to a number that no tenant has is among them.
  pub receive_webhook-outcomes :
      (hmac : String → String → String) (find_tenant : Option String → Option Tenant)
      (app_secret : Option String) (raw : String) (signature : Option String)
      (payload : CloudPayload) (count : ℕ) (totals : Totals)
      → (receive_webhook backends_for hmac find_tenant app_secret raw signature (ok payload)).1
        ≡ ok (counted count totals)
      → (count ≡ length (normalize_whatsapp_webhook payload))
        × (outcomes totals.processed totals.duplicates totals.failures ≡ count)
        × IsTold find_tenant (normalize_whatsapp_webhook payload) totals.failures
  unfolding receive_webhook
  receive_webhook-outcomes hmac find_tenant app_secret raw signature payload count totals e =
      elim (Bool-cases (
        not (is_empty (text_of app_secret))
        && not (validate_meta_signature hmac raw signature app_secret))) [
          | inl refused ↦ absurd (refused_is_not_counted (rw refused at e))
          | inr passed ↦ counts (normalize_whatsapp_webhook payload) (rw passed at e)
        ]
    where
      refused_is_not_counted : ok invalid_webhook_signature ≡ ok (counted count totals) → ⊥
      refused_is_not_counted same = cc

      counts :
          (arrivals : List Arrival)
          → (continue_run [] (
              then_run
                (process_arrivals backends_for find_tenant no_totals arrivals)
                (counted_totals backends_for (length arrivals)))).1
            ≡ ok (counted count totals)
          → (count ≡ length arrivals)
            × (outcomes totals.processed totals.duplicates totals.failures ≡ count)
            × IsTold find_tenant arrivals totals.failures
      counts arrivals same =
          let (after, ran, done, _) =
            then_run-ok_parts (process_arrivals backends_for find_tenant no_totals arrivals) _
              same in
          let (same_count, same_totals) : (count ≡ length arrivals) × (totals ≡ after) = (cc, cc) in
          let (told, failed, listed) = process_arrivals-IsTold find_tenant no_totals arrivals ran in
          (
            same_count,
            omega (
              arith,
              same_count,
              ap (λ (t : Totals). outcomes t.processed t.duplicates t.failures) same_totals,
              process_arrivals-outcomes find_tenant no_totals arrivals ran,
            ),
            subst (IsTold find_tenant arrivals)
                (sym (ap (λ (t : Totals). t.failures) same_totals ∙ failed)) listed,
          )
