-- ===== src/Worker/Relay.antt =====
-- workers/whatsapp-web/src/session-manager.js: what a message event of a client becomes, and how the
-- worker knows a text that it sent itself for the API.
pub mod Laws
pub mod Recent
mod Tests
use Prim.Native.String
use whatsapp_ai_supervisor.Common.{
  Bool, List, Option, Result, String, [], any, drop, ends_with, filter, if◌then◌else◌, includes,
  is_empty, is_text, leb, length, ltb, none, not, ok, some, text_of, throws, trim, true, ℕ, ◌&&◌,
  ◌++◌, ◌==◌, ◌||◌, ◌∷◌,
}
use whatsapp_ai_supervisor.Common.Maps.{Map, get}
use whatsapp_ai_supervisor.Common.Numbers.{Number}
use whatsapp_ai_supervisor.Worker.{ApiOrigin, Payload, WorkerMessage}
use whatsapp_ai_supervisor.Worker.Session.{Definition}

-- What `getContact` answers.
pub record Contact : Type 0 where
  pub pushname : Option String
  pub name : Option String

-- A message event; `body` and `text` are there where the client gives a text, and `contact` where it
-- has a method `getContact`.
pub record RawMessage : Type 0 where
  pub id : Option String
  pub from : Option String
  pub to : Option String
  pub from_me : Bool
  pub type : Option String
  pub body : Option String
  pub text : Option String
  pub timestamp : Option Number
  pub contact : Option (Result Contact)

pub record RecentSend : Type 0 where
  pub operation_id : String
  pub expires_at : ℕ

-- The send of the API that is under way.
pub record ActiveSend : Type 0 where
  pub operation_id : String
  pub peer : String
  pub text : String

unfoldable pub message_id_of : RawMessage → String
message_id_of msg = trim (text_of msg.id)

unfoldable pub is_group_address : String → Bool
is_group_address value = ends_with value "@g.us"

-- The ids of a client that were handled, oldest first; `none` for a message that was handled before.
unfoldable pub remember : List String → String → Option (List String)
remember ids id =
    if is_empty id
    then some ids
    else if any (λ other. other == id) ids
    then none
    else some
        (if ltb 5000 (length (ids ++ id ∷ [])) then drop 1 (ids ++ id ∷ []) else ids ++ id ∷ [])

unfoldable pub drop_oldest : ℕ → Map RecentSend → Map RecentSend
drop_oldest max_recent [] = []
drop_oldest max_recent (entry ∷ entries) =
    let rest = drop_oldest max_recent entries in
    if ltb max_recent (length (entry ∷ entries)) then rest else entry ∷ entries

abbrev pub is_current : ℕ → String × RecentSend → Bool
is_current now entry = not (leb entry.1.expires_at now)

unfoldable pub prune_recent : ℕ → ℕ → Map RecentSend → Map RecentSend
prune_recent max_recent now recent = drop_oldest max_recent (filter (is_current now) recent)

abbrev pub worker_api : String → ApiOrigin
worker_api operation_id = record {
  origin_hint = "worker_api";
  api_send_operation_id = operation_id;
}

abbrev pub is_send_of : String → String → ActiveSend → Bool
is_send_of peer text active = active.peer == peer && active.text == text

-- `completed` is the message id that the wait for the send under way has given, if it has.
abbrev pub active_origin :
    Option ActiveSend → String → String → String → Option String → Option ApiOrigin
active_origin none id peer text completed = none
active_origin (some active) id peer text completed =
    if is_send_of peer text active && is_text completed id
    then some (worker_api active.operation_id)
    else none

abbrev pub origin_of :
    Option RecentSend
    → Option ActiveSend
    → String
    → String
    → String
    → Option String
    → Option ApiOrigin
origin_of (some recent) active id peer text completed = some (worker_api recent.operation_id)
origin_of none active id peer text completed = active_origin active id peer text completed

-- `recent` is what pruning has left.
unfoldable pub api_origin_for :
    Map RecentSend → Option ActiveSend → String → String → String → Option String → Option ApiOrigin
api_origin_for recent active id peer text completed =
    origin_of (get recent id) active id peer text completed

unfoldable pub is_self_chat : RawMessage → Bool
is_self_chat msg =
    let from = text_of msg.from in
    let to = text_of msg.to in
    msg.from_me
    && (from == to
        || not (is_empty to) && includes from to
        || not (is_empty from) && includes to from)

unfoldable pub peer_of : RawMessage → String
peer_of msg = if msg.from_me then text_of msg.to else text_of msg.from

unfoldable pub is_group : RawMessage → Bool
is_group msg =
    is_group_address (peer_of msg)
    || is_group_address (text_of msg.from)
    || is_group_address (text_of msg.to)

abbrev pub is_text_type : Option String → Bool
is_text_type none = true
is_text_type (some type) =
    is_empty type || type == "chat" || type == "text" || type == "conversation"

abbrev pub text_in : Option String → Option String → String
text_in (some body) text = trim body
text_in none (some text) = trim text
text_in none none = ""

abbrev pub relayed_text : RawMessage → String
relayed_text msg = text_in msg.body msg.text

-- The early returns of `handleInbound`, in its order.
unfoldable pub is_relayed : Definition → RawMessage → Bool
is_relayed definition msg =
    not (text_of msg.from == "status@broadcast" || text_of msg.to == "status@broadcast")
    && is_text_type msg.type
    && (not (is_group msg) || definition.allow_groups)
    && not (msg.from_me && not (is_self_chat msg) && is_empty (peer_of msg))
    && not (is_empty (message_id_of msg) || is_empty (peer_of msg) || is_empty (relayed_text msg))

abbrev pub name_of : Option (Result Contact) → Option String
name_of none = none
name_of (some (throws e)) = none
name_of (some (ok contact)) = or_else_some contact.pushname contact.name
  where
    or_else_some : Option String → Option String → Option String
    or_else_some none later = later
    or_else_some (some s) later = some s

abbrev pub number_or : Option Number → Number → Number
number_or none default = default
number_or (some n) default = n

-- Whether a text is the phone's own, to someone else.
abbrev pub is_outbound : RawMessage → Bool
is_outbound msg = msg.from_me && not (is_self_chat msg)

abbrev pub relayed_origin :
    Map RecentSend → Option ActiveSend → Option String → RawMessage → Option ApiOrigin
relayed_origin recent active completed msg =
    if is_outbound msg
    then api_origin_for recent active (message_id_of msg) (peer_of msg) (relayed_text msg) completed
    else none

abbrev pub relayed_message :
    Number → Map RecentSend → Option ActiveSend → Option String → RawMessage → WorkerMessage
relayed_message seconds recent active completed msg = record {
  id = message_id_of msg;
  from = peer_of msg;
  to = peer_of msg;
  customer_name = name_of msg.contact;
  text = relayed_text msg;
  timestamp = number_or msg.timestamp seconds;
  type = "chat";
  from_me = is_outbound msg;
  is_group = is_group msg;
  api_origin = relayed_origin recent active completed msg;
}

-- `seconds` is the time now; a payload, or none where nothing is spooled.
unfoldable pub handle_inbound :
    String
    → Definition
    → Number
    → Map RecentSend
    → Option ActiveSend
    → Option String
    → RawMessage
    → Option Payload
handle_inbound session_id definition seconds recent active completed msg =
    if is_relayed definition msg
    then some (record {
      session_id = session_id;
      message = relayed_message seconds recent active completed msg;
    })
    else none
