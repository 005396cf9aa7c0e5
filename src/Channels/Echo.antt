-- ===== src/Channels/Echo.antt =====
-- src/channels/whatsapp-linked-device.js and src/app.js: a text that the supervisor sent by the worker is
-- not taken for a person's when the phone shows it.
use whatsapp_ai_supervisor.Channels.Operations.{IsOperation, optional_operation_id-IsOperation}
use whatsapp_ai_supervisor.Common.Traces.{continue_run}
use whatsapp_ai_supervisor.Common.{
  >>=-ok_parts, All, Bool, Option, Result, String, [], ap, arith, false, is_empty, leb, none, not,
  ok, refl, require-passed, some, sym, text_of, trim, true, ℕ, ◌+◌, ◌<◌, ◌||◌, ◌∙◌, ◌∷◌, ◌≡◌, ◌≤◌,
}
use whatsapp_ai_supervisor.Messages.{Tenant}
use whatsapp_ai_supervisor.Attribution.{Attribution}
use whatsapp_ai_supervisor.Worker.Send.{
  Accepted, SendRequest, Sender, accept_send, end_send, is_sendable, optional_operation_id,
}
use whatsapp_ai_supervisor.Inbound.{
  AttributionBackend, Backends, Deed, Observation, attribution_read, echo_consumed,
}
use whatsapp_ai_supervisor.Inbound.Takeover.{
  Outcome, echo, echo_pending, found_attribution, is_pending, process_attributed,
  process_linked_device_outbound, process_unattributed, process_with,
}
use whatsapp_ai_supervisor.Common.Maps.{Map, get}
use whatsapp_ai_supervisor.Worker.{ApiOrigin, Payload}
use whatsapp_ai_supervisor.Worker.Relay.{
  ActiveSend, RawMessage, RecentSend, api_origin_for, handle_inbound, is_outbound, is_relayed,
  message_id_of, peer_of, prune_recent, relayed_message, relayed_text, worker_api,
}
use whatsapp_ai_supervisor.Worker.Relay.Recent.{get-prune_recent_twice}
use whatsapp_ai_supervisor.Channels.{
  full_or_none, normalize_linked_device_outbound_observation, normalized_operation_id, strip_domain,
  wire_of,
}
use whatsapp_ai_supervisor.Channels.Relayed.{
  IsReadable, handle_inbound-IsReadable, linked_device_message_parts-readable,
}
use whatsapp_ai_supervisor.Common.Numbers.{Number}
use whatsapp_ai_supervisor.Worker.Session.{Definition}

handle_inbound-outbound :
    (session_id : String) (definition : Definition) (seconds : Number) (recent : Map RecentSend)
    (active : Option ActiveSend) (completed : Option String) (msg : RawMessage) {payload : Payload}
    {origin : ApiOrigin}
    → is_outbound msg ≡ true
    → api_origin_for recent active (message_id_of msg) (peer_of msg) (relayed_text msg) completed
      ≡ some origin
    → handle_inbound session_id definition seconds recent active completed msg ≡ some payload
    → (payload.message.from_me ≡ true) × (payload.message.api_origin ≡ some origin)
unfolding handle_inbound
handle_inbound-outbound session_id definition seconds recent active completed msg {payload} out laid
      e =
    let relayed : is_relayed definition msg ≡ true = ground (arith, e) in
    let made : some (record {
      session_id = session_id;
      message = relayed_message seconds recent active completed msg;
    })
        ≡ some payload =
      rw relayed at e in
    let same : relayed_message seconds recent active completed msg ≡ payload.message = cc in
    (ap (λ m. m.from_me) (sym same) ∙ out, ap (λ m. m.api_origin) (sym same) ∙ rw (out, laid) refl)

-- A deed that neither claims nor changes anything but the note of an echo.
abbrev pub IsNoting : Deed → Type 0
IsNoting (attribution_read tenant observation) = Unit
IsNoting (echo_consumed tenant observation) = Unit
IsNoting _ = ⊥

-- The answer to a text that is the program's own.
abbrev pub IsEcho : Result Outcome → Type 0
IsEcho (ok echo_pending) = Unit
IsEcho (ok (echo origin)) = Unit
IsEcho _ = ⊥

process_unattributed-pending :
    (backends : Backends) (observation : Observation) (tenant : Tenant)
    → is_pending observation ≡ true
    → process_unattributed backends observation tenant ≡ ([], ok echo_pending)
unfolding process_unattributed
process_unattributed-pending backends observation tenant h = rw h

process_with-IsEcho :
    (store : Option AttributionBackend) (backends : Backends) (observation : Observation)
    (tenant : Tenant)
    → is_pending observation ≡ true
    → (let run = process_with store backends observation tenant in
        IsEcho run.1 × All IsNoting run.0)
process_with-IsEcho none backends observation tenant h =
    rw (process_unattributed-pending backends observation tenant h) (tt, tt)
process_with-IsEcho (some store) backends observation tenant h =
    attributed (found_attribution (store.find observation))
  where
    attributed :
        (found : Option Attribution)
        → (let run =
              continue_run
                (attribution_read tenant observation ∷ [])
                (process_attributed found backends observation tenant) in
            IsEcho run.1 × All IsNoting run.0)
    attributed none = rw (process_unattributed-pending backends observation tenant h) (tt, (tt, tt))
    attributed (some attribution) = (tt, (tt, (tt, tt)))

normalized_operation_id-IsOperation :
    (operation_id : String)
    → IsOperation operation_id
    → normalized_operation_id operation_id ≡ ok operation_id
unfolding normalized_operation_id
normalized_operation_id-IsOperation operation_id h = rw (h.trimmed, h.full, h.short)

-- What the supervisor makes of a text that the worker lays to an operation.
abbrev echo_observation : Payload → String → Observation
echo_observation payload operation_id = record {
  id = payload.message.id;
  platform_message_id = payload.message.id;
  channel = "whatsapp";
  transport = "linked-device";
  session_id = trim payload.session_id;
  customer_id = strip_domain payload.message.from;
  customer_name = full_or_none (trim (text_of payload.message.customer_name));
  text = some payload.message.text;
  origin_hint = some "worker_api";
  api_send_operation_id = some operation_id;
}

observed-echo :
    (allow_groups : Bool) (payload : Payload) (operation_id : String)
    → IsReadable allow_groups payload
    → IsOperation operation_id
    → payload.message.from_me ≡ true
    → payload.message.api_origin ≡ some (worker_api operation_id)
    → normalize_linked_device_outbound_observation allow_groups (wire_of payload)
      ≡ ok (some (echo_observation payload operation_id))
unfolding normalize_linked_device_outbound_observation
observed-echo allow_groups payload operation_id readable operation own origin = rw (
  linked_device_message_parts-readable readable,
  own,
  origin,
  operation.full,
  normalized_operation_id-IsOperation operation_id operation,
)

module _ (max_send_queue min_send_interval_ms ttl_ms max_recent : ℕ) where
  accept_send-IsOperation :
      (sender : Option Sender) (request : SendRequest) {after : Sender} {send : Accepted}
      {operation_id : String}
      → accept_send max_send_queue min_send_interval_ms ttl_ms max_recent sender request
        ≡ ok (after, send)
      → send.operation_id ≡ some operation_id
      → IsOperation operation_id
  unfolding accept_send
  accept_send-IsOperation none request e eo = cc
  accept_send-IsOperation (some sender) request {send} {operation_id} e eo =
      let (_, e₁) = require-passed (is_sendable sender.status) _ _ e in
      let (_, e₂) =
        require-passed (not (is_empty request.to || is_empty (trim (text_of request.text)))) _ _
          e₁ in
      let (operation, read, e₃) = >>=-ok_parts (optional_operation_id request.operation_id) _ e₂ in
      let (_, e₄) = require-passed (not (leb max_send_queue sender.pending_sends)) _ _ e₃ in
      let same : operation ≡ some operation_id = ground (arith, e₄, eo) in
      optional_operation_id-IsOperation request.operation_id (rw (← same) read)

  end_send-origin :
      (sender : Sender) (send : Accepted) (operation_id id peer text : String) (ended later : ℕ)
      (completed : Option String) (active : Option ActiveSend)
      → 1 ≤ max_recent
      → send.operation_id ≡ some operation_id
      → is_empty id ≡ false
      → get sender.recent id ≡ none
      → ended < ended + ttl_ms
      → later < ended + ttl_ms
      → (let after =
            (end_send max_send_queue min_send_interval_ms ttl_ms max_recent sender send ended
              (ok (some id))).0 in
          api_origin_for (prune_recent max_recent later after.recent) active id peer text completed
          ≡ some (worker_api operation_id))
  unfolding end_send api_origin_for
  end_send-origin sender send operation_id id peer text ended later completed active h es full fresh
        positive still =
      rw (
        es,
        full,
        get-prune_recent_twice max_recent ended later sender.recent id
            (record { operation_id = operation_id; expires_at = ended + ttl_ms }) h positive still
            fresh,
      )

  -- A text that the API sent under an operation id, from its acceptance by the worker to the supervisor:
  -- when the phone shows it before its time is up, and before another send is kept, what the worker
  -- spools is read by the supervisor as a text of that operation, and whatever the stores answer the
  -- supervisor answers that it is an echo, without claiming it or touching the owner, the control or
  -- the history of the conversation. The phone shows the text as one that went out: one to the session's
  -- own number, which the worker takes for a message that came in, is left out. And the message id is new to the worker and not empty; the
  -- session's id is not blank, the peer is trimmed and not a bare domain; and the supervisor has the
  -- session's choice of groups.
  pub sent-IsEcho :
      (request : SendRequest) (accepting accepted sender : Sender) (send : Accepted)
      (operation_id session_id : String) (ended later : ℕ) (definition : Definition)
      (seconds : Number) (active : Option ActiveSend) (completed : Option String) (msg : RawMessage)
      (payload : Payload)
      → 1 ≤ max_recent
      → accept_send max_send_queue min_send_interval_ms ttl_ms max_recent (some accepting) request
        ≡ ok (accepted, send)
      → send.operation_id ≡ some operation_id
      → is_empty (message_id_of msg) ≡ false
      → get sender.recent (message_id_of msg) ≡ none
      → ended < ended + ttl_ms
      → later < ended + ttl_ms
      → (let after =
            (end_send max_send_queue min_send_interval_ms ttl_ms max_recent sender send ended
              (ok (some (message_id_of msg)))).0 in
          handle_inbound session_id definition seconds
            (prune_recent max_recent later after.recent)
            active
            completed
            msg
          ≡ some payload)
      → is_outbound msg ≡ true
      → is_empty (trim session_id) ≡ false
      → trim (peer_of msg) ≡ peer_of msg
      → is_empty (strip_domain (peer_of msg)) ≡ false
      → (backends : Backends) (tenant : Tenant)
      → (observation : Observation) × (normalize_linked_device_outbound_observation
            definition.allow_groups
            (wire_of payload)
          ≡ ok (some observation))
        × (observation.api_send_operation_id ≡ some operation_id)
        × (let run = process_linked_device_outbound backends observation tenant in
            IsEcho run.1 × All IsNoting run.0)
  unfolding process_linked_device_outbound
  sent-IsEcho request accepting accepted sender send operation_id session_id ended later definition
        seconds active completed msg payload h ea eo full fresh positive still e out session trimmed
        known backends tenant =
      let operation = accept_send-IsOperation (some accepting) request ea eo in
      let origin =
        end_send-origin sender send operation_id (message_id_of msg) (peer_of msg)
          (relayed_text msg) ended later completed active h eo full fresh positive still in
      let readable =
        handle_inbound-IsReadable session_id definition seconds _ active completed msg e session
          trimmed known in
      let (own, laid) =
        handle_inbound-outbound session_id definition seconds _ active completed msg out origin e in
      (
        echo_observation payload operation_id,
        observed-echo definition.allow_groups payload operation_id readable operation own laid,
        refl,
        process_with-IsEcho backends.attributions backends (echo_observation payload operation_id)
            tenant (ground (arith, operation.full)),
      )
