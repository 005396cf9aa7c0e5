-- ===== src/Channels/Relayed.antt =====
-- src/channels/whatsapp-linked-device.js: what the worker hands on, the supervisor reads.
use whatsapp_ai_supervisor.Common.{
  Bool, Option, String, arith, false, if◌then◌else◌, is_empty, none, ok, refl, some, sym, text_of,
  trim, true, ◌==◌, ◌≡◌,
}
use whatsapp_ai_supervisor.Worker.{Payload}
use whatsapp_ai_supervisor.Channels.{
  Parts, broadcast_address, canonical_whatsapp_id, finite_or_zero, full_or_none, is_ignored,
  linked_device_message_parts, message_parts, normalize_linked_device_inbound, strip_domain,
  wire_message, wire_of, wire_peer,
}
use whatsapp_ai_supervisor.Common.Maps.{Map}
use whatsapp_ai_supervisor.Common.Numbers.{Number}
use whatsapp_ai_supervisor.Worker.Session.{Definition}
use whatsapp_ai_supervisor.Worker.Relay.{
  ActiveSend, RawMessage, RecentSend, handle_inbound, peer_of,
}
use whatsapp_ai_supervisor.Worker.Relay.Laws.{handle_inbound-IsRelayable}

-- A message that the worker can hand on, of a peer that has an id of its own.
pub record IsReadable (allow_groups : Bool) (payload : Payload) : Type 0 where
  pub session : is_empty (trim payload.session_id) ≡ false
  pub trimmed_peer : trim payload.message.from ≡ payload.message.from
  pub known_peer : is_empty (strip_domain payload.message.from) ≡ false
  pub full_text : is_empty payload.message.text ≡ false
  pub full_id : is_empty payload.message.id ≡ false
  pub full_peer : is_empty payload.message.from ≡ false
  pub trimmed_text : trim payload.message.text ≡ payload.message.text
  pub trimmed_id : trim payload.message.id ≡ payload.message.id
  pub one_peer : payload.message.to ≡ payload.message.from
  pub no_broadcast : (payload.message.from == broadcast_address) ≡ false
  pub chat : payload.message.type ≡ "chat"
  pub group : payload.message.is_group ≡ true → allow_groups ≡ true

-- What the supervisor reads of it.
abbrev pub read_parts : Payload → Parts
read_parts payload = record {
  session_id = trim payload.session_id;
  message = wire_message payload.message;
  id = payload.message.id;
  customer_id = strip_domain payload.message.from;
  customer_name = full_or_none (trim (text_of payload.message.customer_name));
  text = payload.message.text;
  timestamp = finite_or_zero (some payload.message.timestamp);
}

module _ {allow_groups : Bool} {payload : Payload} (h : IsReadable allow_groups payload) where
  wire_peer-from : wire_peer (wire_message payload.message) ≡ payload.message.from
  unfolding wire_peer
  wire_peer-from = rw (h.one_peer, h.trimmed_peer, h.full_peer) (ground arith)

  is_ignored-readable : is_ignored allow_groups (wire_message payload.message) ≡ false
  unfolding is_ignored
  is_ignored-readable =
      rw (wire_peer-from, h.one_peer, h.trimmed_peer, h.no_broadcast, h.chat)
        (ground (arith, h.group))

  message_parts-readable :
      message_parts (trim payload.session_id) (wire_message payload.message)
      ≡ ok (read_parts payload)
  unfolding message_parts canonical_whatsapp_id
  message_parts-readable = rw (
    wire_peer-from, h.trimmed_peer, h.trimmed_id, h.trimmed_text, h.full_id, h.full_text,
    h.known_peer,
  )

  pub linked_device_message_parts-readable :
      linked_device_message_parts allow_groups (wire_of payload) ≡ ok (some (read_parts payload))
  unfolding linked_device_message_parts
  linked_device_message_parts-readable = rw (h.session, is_ignored-readable, message_parts-readable)

-- A payload that the worker spools can be read, where the session's id and the peer are proper ones.
pub handle_inbound-IsReadable :
    (session_id : String) (definition : Definition) (seconds : Number) (recent : Map RecentSend)
    (active : Option ActiveSend) (completed : Option String) (msg : RawMessage) {payload : Payload}
    → handle_inbound session_id definition seconds recent active completed msg ≡ some payload
    → is_empty (trim session_id) ≡ false
    → trim (peer_of msg) ≡ peer_of msg
    → is_empty (strip_domain (peer_of msg)) ≡ false
    → IsReadable definition.allow_groups payload
unfolding handle_inbound
handle_inbound-IsReadable session_id definition seconds recent active completed msg {payload} e
      session trimmed known =
    let r =
      handle_inbound-IsRelayable session_id definition seconds recent active completed msg e in
    let same_session : session_id ≡ payload.session_id = ground (arith, e) in
    let same_peer : peer_of msg ≡ payload.message.from = ground (arith, e) in
    record {
      session = rw (← same_session) session;
      trimmed_peer = rw (← same_peer) trimmed;
      known_peer = rw (← same_peer) known;
      full_text = r.full_text;
      full_id = r.full_id;
      full_peer = r.full_peer;
      trimmed_text = r.trimmed_text;
      trimmed_id = r.trimmed_id;
      one_peer = sym r.one_peer;
      no_broadcast = r.no_broadcast;
      chat = ground (arith, e);
      group = r.groups_allowed;
    }

-- Nothing that the worker hands on is refused or passed over by the supervisor: a message that came in
-- is read with the id, the text and the peer that the worker wrote, less the peer's domain, and only
-- one that went out from the phone is not taken for a message of a customer. The session's id is not
-- blank, the peer is trimmed and not a bare domain, and both sides have the session's choice of groups.
pub handle_inbound-read :
    (session_id : String) (definition : Definition) (seconds : Number) (recent : Map RecentSend)
    (active : Option ActiveSend) (completed : Option String) (msg : RawMessage) {payload : Payload}
    → handle_inbound session_id definition seconds recent active completed msg ≡ some payload
    → is_empty (trim session_id) ≡ false
    → trim (peer_of msg) ≡ peer_of msg
    → is_empty (strip_domain (peer_of msg)) ≡ false
    → normalize_linked_device_inbound definition.allow_groups (wire_of payload)
      ≡ ok (
          if payload.message.from_me
          then none
          else some (record {
            id = payload.message.id;
            tenant_id = "";
            channel = "whatsapp";
            customer_id = strip_domain payload.message.from;
            customer_name = full_or_none (trim (text_of payload.message.customer_name));
            text = some payload.message.text;
            context = none;
          }))
unfolding normalize_linked_device_inbound
handle_inbound-read session_id definition seconds recent active completed msg e session trimmed
      known =
    rw
      (linked_device_message_parts-readable (
        handle_inbound-IsReadable session_id definition seconds recent active completed msg e
          session trimmed known))
      refl
