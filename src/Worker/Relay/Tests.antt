-- ===== src/Worker/Relay/Tests.antt =====
-- Runs of `handleInbound` in workers/whatsapp-web/src/session-manager.js.
use whatsapp_ai_supervisor.Common.{
  [], any, ends_with, false, includes, is_space, none, refl, some, throws, trim, true, ◌∷◌, ◌≡◌,
}
use whatsapp_ai_supervisor.Common.Numbers.{above}
use whatsapp_ai_supervisor.Common.Maps.{get}
use whatsapp_ai_supervisor.Worker.{WorkerMessage}
use whatsapp_ai_supervisor.Worker.Session.{Definition}
use whatsapp_ai_supervisor.Worker.Relay.{
  ActiveSend, RawMessage, api_origin_for, handle_inbound, is_group, is_group_address, is_outbound,
  is_relayed, is_self_chat, message_id_of, peer_of, remember, worker_api,
}

abbrev no_groups : Definition
no_groups = record { session_id = some "s1"; allow_groups = false }

abbrev typed : RawMessage
typed = record {
  id = some "m1";
  from = some "100@c.us";
  to = some "201@c.us";
  from_me = true;
  type = some "chat";
  body = some " Hello ";
  text = none;
  timestamp = none;
  contact = some (throws "no contact");
}

abbrev asked_by_api : ActiveSend
asked_by_api = record { operation_id = "op-1"; peer = "201@c.us"; text = "Hello" }

abbrev relayed : WorkerMessage
relayed = record {
  id = "m1";
  from = "201@c.us";
  to = "201@c.us";
  customer_name = none;
  text = "Hello";
  timestamp = above 0;
  type = "chat";
  from_me = true;
  is_group = false;
  api_origin = some (worker_api "op-1");
}

code : Unit {0}
unfolding trim is_space includes ends_with any message_id_of is_group_address remember get
    api_origin_for is_self_chat peer_of is_group is_relayed handle_inbound
code = tt

-- A message of a group, where the session takes none.
handle_inbound_group :
    handle_inbound "s1" no_groups
      (above 0)
      []
      none
      none
      (record typed { from = some "55@g.us"; from_me = false })
    ≡ none
unfolding code
handle_inbound_group = refl

-- A phone's text to itself counts as one that came in.
is_self_chat_own : is_outbound (record typed { to = some "100@c.us" }) ≡ false
unfolding code
is_self_chat_own = refl

remember_again : remember ("m1" ∷ "m2" ∷ []) "m1" ≡ none
unfolding code
remember_again = refl
