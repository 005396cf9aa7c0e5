-- ===== src/Worker/Relay/Laws.antt =====
-- workers/whatsapp-web/src/session-manager.js: what the worker hands on, and which messages it passes
-- over as handled.
use mathlib.Core.Path.{subst}
use whatsapp_ai_supervisor.Common.{
  Option, String, arith, false, if-holds, is_empty, none, refl, some, text_of, trim, trim_idem,
  true, ◌==◌, ◌||◌, ◌≡◌,
}
use whatsapp_ai_supervisor.Common.Maps.{Map}
use whatsapp_ai_supervisor.Common.Numbers.{Number}
use whatsapp_ai_supervisor.Worker.{Payload, WorkerMessage}
use whatsapp_ai_supervisor.Worker.Session.{Definition}
use whatsapp_ai_supervisor.Worker.Relay.{
  ActiveSend, RawMessage, RecentSend, handle_inbound, is_group, is_group_address, is_relayed,
  message_id_of, peer_of, relayed_message, relayed_text, text_in,
}

-- What the supervisor may take for granted of a message that the worker hands on.
pub record IsRelayable (definition : Definition) (msg : RawMessage) (message : WorkerMessage)
    : Type 0 where
  pub full_text : is_empty message.text ≡ false
  pub full_id : is_empty message.id ≡ false
  pub full_peer : is_empty message.from ≡ false
  pub trimmed_text : trim message.text ≡ message.text
  pub trimmed_id : trim message.id ≡ message.id
  pub one_peer : message.from ≡ message.to
  pub no_broadcast : (message.from == "status@broadcast") ≡ false
  pub groups_allowed : message.is_group ≡ true → definition.allow_groups ≡ true
  pub groups_told : is_group_address message.from ≡ true → message.is_group ≡ true
  pub own_phone : message.from_me ≡ true → msg.from_me ≡ true
  pub own_origin : message.from_me ≡ false → message.api_origin ≡ none

relayed_text-trimmed : (body text : Option String) → trim (text_in body text) ≡ text_in body text
unfolding trim
relayed_text-trimmed (some body) text = trim_idem body
relayed_text-trimmed none (some text) = trim_idem text
relayed_text-trimmed none none = refl

message_id_of-trimmed : (msg : RawMessage) → trim (message_id_of msg) ≡ message_id_of msg
unfolding message_id_of
message_id_of-trimmed msg = trim_idem (text_of msg.id)

-- What the early returns leave.
is_relayed-facts :
    (definition : Definition) (msg : RawMessage)
    → is_relayed definition msg ≡ true
    → (is_empty (relayed_text msg) ≡ false)
      × (is_empty (message_id_of msg) ≡ false)
      × (is_empty (peer_of msg) ≡ false)
      × ((text_of msg.from == "status@broadcast" || text_of msg.to == "status@broadcast") ≡ false)
      × (is_group msg ≡ true → definition.allow_groups ≡ true)
unfolding is_relayed
is_relayed-facts definition msg h = (
  ground (arith, h),
  ground (arith, h),
  ground (arith, h),
  ground (arith, h),
  λ g. ground (arith, h, g),
)

peer_of-broadcast :
    (msg : RawMessage)
    → (text_of msg.from == "status@broadcast" || text_of msg.to == "status@broadcast") ≡ false
    → (peer_of msg == "status@broadcast") ≡ false
unfolding peer_of
peer_of-broadcast msg h =
    if-holds (λ peer. (peer == "status@broadcast") ≡ false) msg.from_me (λ _. ground (arith, h))
      (λ _. ground (arith, h))

is_group-peer_of : (msg : RawMessage) → is_group_address (peer_of msg) ≡ true → is_group msg ≡ true
unfolding is_group
is_group-peer_of msg h = ground (arith, h)

relayed_message-IsRelayable :
    (definition : Definition) (seconds : Number) (recent : Map RecentSend)
    (active : Option ActiveSend) (completed : Option String) (msg : RawMessage)
    → is_relayed definition msg ≡ true
    → IsRelayable definition msg (relayed_message seconds recent active completed msg)
relayed_message-IsRelayable definition seconds recent active completed msg h =
    let (full_text, full_id, full_peer, no_broadcast, groups) = is_relayed-facts definition msg h in
    record {
      full_text = full_text;
      full_id = full_id;
      full_peer = full_peer;
      trimmed_text = relayed_text-trimmed msg.body msg.text;
      trimmed_id = message_id_of-trimmed msg;
      one_peer = refl;
      no_broadcast = peer_of-broadcast msg no_broadcast;
      groups_allowed = groups;
      groups_told = is_group-peer_of msg;
      own_phone = λ own. ground (arith, own);
      own_origin = λ other. rw other refl;
    }

-- What `handleInbound` spools has a text and an id, trimmed, and one peer, who is not the status
-- broadcast; it is of a group only where the session allows groups, and then says so; it counts as
-- the phone's own only if the client says that it is; and the API is named as its origin only then.
pub handle_inbound-IsRelayable :
    (session_id : String) (definition : Definition) (seconds : Number) (recent : Map RecentSend)
    (active : Option ActiveSend) (completed : Option String) (msg : RawMessage) {payload : Payload}
    → handle_inbound session_id definition seconds recent active completed msg ≡ some payload
    → IsRelayable definition msg payload.message
unfolding handle_inbound
handle_inbound-IsRelayable session_id definition seconds recent active completed msg {payload} e =
    let relayed : is_relayed definition msg ≡ true = ground (arith, e) in
    let same : relayed_message seconds recent active completed msg ≡ payload.message =
      ground (arith, e) in
    subst (IsRelayable definition msg) same
      (relayed_message-IsRelayable definition seconds recent active completed msg relayed)
