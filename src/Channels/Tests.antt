-- ===== src/Channels/Tests.antt =====
-- Runs of src/channels, and of the worker with the supervisor.
use whatsapp_ai_supervisor.Common.{
  All, [], arith, ends_with, false, filter, includes, is_space, none, ok, refl, some, throws, trim,
  true, ◌≡◌,
}
use whatsapp_ai_supervisor.Common.Numbers.{above}
use whatsapp_ai_supervisor.Common.Maps.{get, put}
use whatsapp_ai_supervisor.Messages.{Message}
use whatsapp_ai_supervisor.Worker.{Payload}
use whatsapp_ai_supervisor.Worker.Session.{Definition, ready}
use whatsapp_ai_supervisor.Worker.Relay.{
  RawMessage, api_origin_for, drop_oldest, handle_inbound, is_group, is_group_address, is_relayed,
  is_self_chat, message_id_of, peer_of, prune_recent, worker_api,
}
use whatsapp_ai_supervisor.Worker.Send.{
  Accepted, SendRequest, Sender, accept_send, check_operation_id, end_send, target_of, utf16_length,
}
use whatsapp_ai_supervisor.Inbound.{Observation}
use whatsapp_ai_supervisor.Inbound.Samples.{shop, stores}
use whatsapp_ai_supervisor.Inbound.Takeover.{process_linked_device_outbound}
use whatsapp_ai_supervisor.Channels.{
  canonical_whatsapp_id, is_ignored, linked_device_message_parts, message_parts,
  normalize_linked_device_inbound, normalize_linked_device_outbound_observation,
  normalized_operation_id, same_folded, strip_domain, wire_of, wire_peer,
}
use whatsapp_ai_supervisor.Channels.Relayed.{handle_inbound-read}
use whatsapp_ai_supervisor.Channels.Echo.{IsEcho, IsNoting, sent-IsEcho}

code : Unit {0}
unfolding trim is_space includes ends_with get put filter drop_oldest prune_recent api_origin_for
    message_id_of is_group_address is_self_chat peer_of is_group is_relayed handle_inbound
    utf16_length check_operation_id target_of accept_send end_send same_folded strip_domain
    canonical_whatsapp_id wire_peer is_ignored message_parts linked_device_message_parts
    normalized_operation_id normalize_linked_device_inbound
    normalize_linked_device_outbound_observation
code = tt

abbrev no_groups : Definition
no_groups = record { session_id = some "s1"; allow_groups = false }

-- A message of a customer, whose domain is written in capitals.
abbrev asked : RawMessage
asked = record {
  id = some "m1";
  from = some "201@C.us";
  to = some "100@c.us";
  from_me = false;
  type = some "chat";
  body = some " Open? ";
  text = none;
  timestamp = none;
  contact = none;
}

abbrev asked_payload : Payload
asked_payload = record {
  session_id = "s1";
  message = record {
    id = "m1";
    from = "201@C.us";
    to = "201@C.us";
    customer_name = none;
    text = "Open?";
    timestamp = above 0;
    type = "chat";
    from_me = false;
    is_group = false;
    api_origin = none;
  };
}

abbrev read : Message
read = record {
  id = "m1";
  tenant_id = "";
  channel = "whatsapp";
  customer_id = "201";
  customer_name = none;
  text = some "Open?";
  context = none;
}

handle_inbound-read_example :
    normalize_linked_device_inbound false (wire_of asked_payload) ≡ ok (some read)
unfolding code
handle_inbound-read_example =
    handle_inbound-read "s1" no_groups (above 0) [] none none asked refl refl refl refl

-- A peer that is nothing but a domain is refused each time that the worker posts it.
normalize_bare_domain :
    normalize_linked_device_inbound false (
      wire_of (record asked_payload {
        message = record asked_payload.message { from = "@c.us"; to = "@c.us" };
      }))
    ≡ throws "invalid_linked_device_message"
unfolding code
normalize_bare_domain = refl

abbrev idle : Sender
idle = record {
  status = ready;
  pending_sends = 0;
  last_sent_at = 0;
  active_api_send = none;
  recent = [];
}

abbrev answer : SendRequest
answer = record { to = "201"; text = some "At nine."; operation_id = some "op-1" }

abbrev queued : Accepted
queued = record { to = "201"; text = "At nine."; operation_id = some "op-1" }

abbrev shown_by_phone : RawMessage
shown_by_phone = record asked {
  from = some "100@c.us";
  to = some "201@c.us";
  from_me = true;
  body = some "At nine.";
}

abbrev echo_payload : Payload
echo_payload = record {
  session_id = "s1";
  message = record {
    id = "m1";
    from = "201@c.us";
    to = "201@c.us";
    customer_name = none;
    text = "At nine.";
    timestamp = above 0;
    type = "chat";
    from_me = true;
    is_group = false;
    api_origin = some (worker_api "op-1");
  };
}

-- The text is sent at 1250 and shown by the phone ten seconds later.
sent-IsEcho_example :
    (observation : Observation) × (normalize_linked_device_outbound_observation false
        (wire_of echo_payload)
      ≡ ok (some observation))
    × (observation.api_send_operation_id ≡ some "op-1")
    × (let run = process_linked_device_outbound stores observation shop in
        IsEcho run.1 × All IsNoting run.0)
unfolding code
sent-IsEcho_example =
    sent-IsEcho 100 350 60000 1000 answer idle (record idle { pending_sends = 1 }) idle queued
      "op-1" "s1" 1250 11250 no_groups (above 0) none none shown_by_phone echo_payload (omega arith)
      refl refl refl refl (omega arith) (omega arith) refl refl refl refl refl stores shop
