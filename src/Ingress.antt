-- ===== src/Ingress.antt =====
-- src/app.js: the two doors for messages, the webhook of the Cloud API and the post of the worker. What a
-- request answers is a value, a run has the deeds of src/app.js in order, and a message has its own
-- answers of the stores.
pub mod Guarded
pub mod Accounted
mod Tests
use text.Mathlib.Text.{starts_with}
use Prim.Native.String
use whatsapp_ai_supervisor.Common.{
  Bool, List, Option, Result, String, [], if◌then◌else◌, is_empty, length, none, not, ok, some,
  text_of, trim, ℕ, ◌&&◌, ◌++◌, ◌+◌, ◌==◌, ◌∷◌,
}
use whatsapp_ai_supervisor.Common.Traces.{quiet, then_run}
use whatsapp_ai_supervisor.Messages.{Message, Tenant}
use whatsapp_ai_supervisor.Inbound.{Backends, Observation, Task}
use whatsapp_ai_supervisor.Inbound.Receive.{Report, failed_report, process_message}
use whatsapp_ai_supervisor.Inbound.Takeover.{Outcome, process_linked_device_outbound}
use whatsapp_ai_supervisor.Channels.{
  WirePayload, normalize_linked_device_inbound, normalize_linked_device_outbound_observation,
}
use whatsapp_ai_supervisor.Channels.Cloud.{
  Arrival, CloudPayload, normalize_whatsapp_webhook, validate_meta_signature,
}

-- What the body of the webhook's answer counts; a failure is the id of its message.
pub record Totals : Type 0 where
  pub processed : ℕ
  pub queued : ℕ
  pub duplicates : ℕ
  pub failures : List String

abbrev pub no_totals : Totals
no_totals = record { processed = 0; queued = 0; duplicates = 0; failures = [] }

abbrev pub add_report : Totals → Report → Totals
add_report totals report = record {
  processed = totals.processed + report.processed;
  queued = totals.queued + report.queued;
  duplicates = totals.duplicates + report.duplicates;
  failures = totals.failures ++ report.failures;
}

pub data WebhookAnswer : Type 0 where
  invalid_webhook_signature : WebhookAnswer
  counted : (received : ℕ) → Totals → WebhookAnswer

pub data DeviceAnswer : Type 0 where
  not_found unauthorized session_id_required session_not_found ignored : DeviceAnswer
  observed_outbound : Outcome → DeviceAnswer
  received : Report → DeviceAnswer

unfoldable pub bearer_matches : String → Option String → Bool
bearer_matches expected_token authorization =
    not (is_empty expected_token) && text_of authorization == String.◌++◌ "Bearer " expected_token

module _ (backends_for : Message → Backends) where
  abbrev pub process_arrival : Option Tenant → Message → Task Report
  process_arrival none message = quiet (ok (failed_report message.id))
  process_arrival (some tenant) message =
      process_message (backends_for message) message tenant "whatsapp-cloud"

  -- The loop over the messages, in their order.
  unfoldable pub process_arrivals :
      (Option String → Option Tenant) → Totals → List Arrival → Task Totals
  process_arrivals find_tenant totals [] = quiet (ok totals)
  process_arrivals find_tenant totals (arrival ∷ arrivals) =
      then_run (process_arrival (find_tenant arrival.phone_number_id) arrival.message)
        (λ report. process_arrivals find_tenant (add_report totals report) arrivals)

  abbrev pub counted_totals : ℕ → Totals → Task WebhookAnswer
  counted_totals count totals = quiet (ok (counted count totals))

  -- A body that is not JSON is `throws`.
  unfoldable pub receive_webhook :
      (String → String → String)
      → (Option String → Option Tenant)
      → Option String
      → (raw : String) → (signature : Option String) → Result CloudPayload
      → Task WebhookAnswer
  receive_webhook hmac find_tenant app_secret raw signature body =
      if not (is_empty (text_of app_secret))
        && not (validate_meta_signature hmac raw signature app_secret)
      then quiet (ok invalid_webhook_signature)
      else then_run (quiet body) (λ payload.
        let arrivals = normalize_whatsapp_webhook payload in
        then_run (process_arrivals find_tenant no_totals arrivals)
          (counted_totals (length arrivals)))

  abbrev pub receive_inbound : Tenant → Option Message → Task DeviceAnswer
  receive_inbound tenant none = quiet (ok ignored)
  receive_inbound tenant (some message) =
      then_run (process_message (backends_for message) message tenant "whatsapp-linked-device")
        (λ report. quiet (ok (received report)))

  abbrev pub receive_observed :
      Backends → Bool → WirePayload → Tenant → Option Observation → Task DeviceAnswer
  receive_observed backends allow_groups payload tenant (some observation) =
      then_run (process_linked_device_outbound backends observation tenant)
        (λ outcome. quiet (ok (observed_outbound outcome)))
  receive_observed backends allow_groups payload tenant none =
      then_run (quiet (normalize_linked_device_inbound allow_groups payload))
        (receive_inbound tenant)

  -- A tenant with the choice of groups that its `whatsapp` has.
  unfoldable pub receive_for : Backends → WirePayload → Option (Tenant × Bool) → Task DeviceAnswer
  receive_for backends payload none = quiet (ok session_not_found)
  receive_for backends payload (some (tenant, allow_groups)) =
      then_run (quiet (normalize_linked_device_outbound_observation allow_groups payload))
        (receive_observed backends allow_groups payload tenant)

  abbrev pub receive_session :
      Backends → (String → Option (Tenant × Bool)) → WirePayload → Task DeviceAnswer
  receive_session backends find_tenant payload =
      let session_id = trim (text_of payload.session_id) in
      if is_empty session_id
      then quiet (ok session_id_required)
      else receive_for backends payload (find_tenant session_id)

  unfoldable pub receive_linked_device :
      Backends
      → (String → Option (Tenant × Bool))
      → (token : Option String) → (authorization : Option String) → Result WirePayload
      → Task DeviceAnswer
  receive_linked_device backends find_tenant token authorization body =
      if is_empty (text_of token)
      then quiet (ok not_found)
      else if not (bearer_matches (text_of token) authorization)
      then quiet (ok unauthorized)
      else then_run (quiet body) (receive_session backends find_tenant)

-- The status of an error that reaches the end of the request; a syntax error is told by its class.
unfoldable pub status_of_error : (is_syntax_error : Bool) → String → ℕ
status_of_error is_syntax_error told =
    if is_syntax_error
    then 400
    else if told == "request_body_too_large"
    then 413
    else if starts_with told "invalid_linked_device"
    then 400
    else 500
