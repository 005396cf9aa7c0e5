-- ===== src/Ingress/Tests.antt =====
-- Runs of the two doors of src/app.js.
use whatsapp_ai_supervisor.Common.{
  Bool, Option, String, [], false, if◌then◌else◌, is_empty, is_space, is_text, length, none, ok,
  refl, some, trim, true, ◌==◌, ◌∷◌, ◌≡◌, ◌⊎◌,
}
use whatsapp_ai_supervisor.Messages.{Message, Tenant}
use whatsapp_ai_supervisor.Inbound.{Backends}
use whatsapp_ai_supervisor.Inbound.Samples.{shop, stores}
use whatsapp_ai_supervisor.Inbound.Receive.{process_message}
use whatsapp_ai_supervisor.Channels.{
  WirePayload, canonical_whatsapp_id, is_ignored, linked_device_message_parts, message_parts,
  normalize_linked_device_inbound, normalize_linked_device_outbound_observation, same_folded,
  strip_domain, wire_peer,
}
use whatsapp_ai_supervisor.Channels.Cloud.{
  CloudMessage, CloudPayload, count_hex, normalize_whatsapp_webhook, validate_meta_signature,
  verify_webhook_challenge,
}
use whatsapp_ai_supervisor.Ingress.{
  Totals, bearer_matches, invalid_webhook_signature, process_arrivals, receive_for,
  receive_linked_device, receive_webhook, status_of_error,
}
use whatsapp_ai_supervisor.Ingress.Guarded.{IsSigned, IsTrusted, receive-IsTrusted}
use whatsapp_ai_supervisor.Ingress.Accounted.{IsTold, outcomes, receive_webhook-outcomes}

abbrev written : String → CloudMessage
written id = record { id = id; from = "201"; type = some "text"; text_body = some "Open?" }

abbrev webhook : CloudPayload
webhook = record {
  object = some "whatsapp_business_account";
  entries =
      (record {
        phone_number_id = some "111";
        contacts = record { wa_id = "201"; profile_name = some "Sara" } ∷ [];
        messages = written "m1" ∷ record (written "m2") { type = some "image" } ∷ [];
      }
        ∷ record { phone_number_id = some "999"; contacts = []; messages = written "m3" ∷ [] }
        ∷ [])
      ∷ [];
}

-- Only the first number is a tenant's, and each of its messages was claimed before.
abbrev by_number : Option String → Option Tenant
by_number number = if is_text number "111" then some shop else none

abbrev claimed_before : Message → Backends
claimed_before message = record stores { claim = λ key. ok false }

abbrev no_hmac : String → String → String
no_hmac secret raw = ""

code : Unit {0}
unfolding normalize_whatsapp_webhook process_arrivals process_message receive_webhook trim is_space
    receive_linked_device bearer_matches count_hex validate_meta_signature same_folded
    verify_webhook_challenge status_of_error receive_for normalize_linked_device_inbound
    normalize_linked_device_outbound_observation linked_device_message_parts message_parts
    is_ignored wire_peer canonical_whatsapp_id strip_domain
code = tt

abbrev webhook_totals : Totals
webhook_totals = record { processed = 0; queued = 0; duplicates = 1; failures = "m3" ∷ [] }

-- One duplicate, one message of another kind, and one to a number of nobody.
receive_webhook-outcomes_example :
    (2 ≡ length (normalize_whatsapp_webhook webhook))
    × (outcomes webhook_totals.processed webhook_totals.duplicates webhook_totals.failures ≡ 2)
    × IsTold by_number (normalize_whatsapp_webhook webhook) ("m3" ∷ [])
unfolding code
receive_webhook-outcomes_example =
    receive_webhook-outcomes claimed_before no_hmac by_number none "" none webhook 2 webhook_totals
      refl

abbrev by_session : String → Option (Tenant × Bool)
by_session session_id = if session_id == "s1" then some (shop, false) else none

abbrev posted : WirePayload
posted = record {
  session_id = some " s1 ";
  message = some (record {
    id = some "m4";
    from = some "201@c.us";
    to = some "201@c.us";
    type = some "chat";
    text = some "Open?";
    customer_name = none;
    timestamp = none;
    from_me = false;
    is_group = false;
    origin_hint = none;
    api_send_operation_id = none;
  });
}

-- An HMAC that signs each body alike.
abbrev digest : String
digest = "0123456789abcdef0123456789abcdef0123456789abcdef0123456789abcdef"

abbrev one_hmac : String → String → String
one_hmac secret raw = digest

abbrev signature : Option String
signature = some "sha256=0123456789abcdef0123456789abcdef0123456789abcdef0123456789abcdef"

-- Both doors come to the claim of a message.
both_work :
    (length
        (receive_linked_device claimed_before stores by_session
          (some "t")
          (some "Bearer t")
          (ok posted)).0
      ≡ 1)
    × (length
          (receive_webhook claimed_before one_hmac by_number
            (some "k")
            "{}"
            signature
            (ok webhook)).0
        ≡ 1)
unfolding code
both_work = (refl, refl)

receive-IsTrusted_example :
    (((receive_linked_device claimed_before stores by_session
          (some "t")
          (some "Bearer t")
          (ok posted)).0
        ≡ [])
      ⊎ IsTrusted by_session (some "t") (some "Bearer t") (ok posted))
    × (((receive_webhook claimed_before one_hmac by_number (some "k") "{}" signature (ok webhook)).0
          ≡ [])
        ⊎ ((is_empty "k" ≡ true) ⊎ IsSigned one_hmac "k" "{}" signature))
receive-IsTrusted_example =
    receive-IsTrusted claimed_before one_hmac by_number (some "k") "{}" signature (ok webhook)
      stores by_session (some "t") (some "Bearer t") (ok posted)

receive_short_signature :
    (receive_webhook claimed_before no_hmac by_number
      (some "k")
      "{}"
      (some "sha256=00")
      (ok webhook))
    ≡ ([], ok invalid_webhook_signature)
unfolding code
receive_short_signature = refl

status_of_bad_payload : status_of_error false "invalid_linked_device_payload" ≡ 400
unfolding code
status_of_bad_payload = refl

challenge_unconfigured :
    verify_webhook_challenge
      (record { mode = some "subscribe"; verify_token = none; challenge = some "1" })
      none
    ≡ none
unfolding code
challenge_unconfigured = refl
