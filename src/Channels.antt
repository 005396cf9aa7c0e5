-- ===== src/Channels.antt =====
-- src/channels/whatsapp-linked-device.js: what the worker posts, as a message of a customer or as a text
-- that went out from the phone. A payload is its JSON: a field that is not there, or is not of the type
-- that the code asks for, is `none`.
pub mod Operations
pub mod Relayed
pub mod Echo
pub mod Cloud
mod Tests
use Prim.Native.Char.{code}
use Prim.Native.String
use whatsapp_ai_supervisor.Common.{
  Bool, Option, Result, String, [], eqb, false, if◌then◌else◌, is_empty, is_text, leb, ltb, none,
  not, ok, require, some, text_of, throws, trim, true, ℕ, ◌&&◌, ◌+◌, ◌==◌, ◌>>=◌, ◌>>◌, ◌||◌, ◌∷◌,
}
use whatsapp_ai_supervisor.Common.Numbers.{Number, above, is_finite}
use whatsapp_ai_supervisor.Messages.{Message}
use whatsapp_ai_supervisor.Worker.Send.{utf16_length}
use whatsapp_ai_supervisor.Inbound.{Observation}
use whatsapp_ai_supervisor.Worker.{ApiOrigin, Payload, WorkerMessage}

pub record WireMessage : Type 0 where
  pub id : Option String
  pub from : Option String
  pub to : Option String
  pub type : Option String
  pub text : Option String
  pub customer_name : Option String
  pub timestamp : Option Number
  pub from_me : Bool
  pub is_group : Bool
  pub origin_hint : Option String
  pub api_send_operation_id : Option String

pub record WirePayload : Type 0 where
  pub session_id : Option String
  pub message : Option WireMessage

-- The JSON of what the worker posts.
abbrev pub wire_origin : Option ApiOrigin → Option String
wire_origin none = none
wire_origin (some origin) = some origin.origin_hint

abbrev pub wire_operation : Option ApiOrigin → Option String
wire_operation none = none
wire_operation (some origin) = some origin.api_send_operation_id

abbrev pub wire_message : WorkerMessage → WireMessage
wire_message message = record {
  id = some message.id;
  from = some message.from;
  to = some message.to;
  type = some message.type;
  text = some message.text;
  customer_name = message.customer_name;
  timestamp = some message.timestamp;
  from_me = message.from_me;
  is_group = message.is_group;
  origin_hint = wire_origin message.api_origin;
  api_send_operation_id = wire_operation message.api_origin;
}

abbrev pub wire_of : Payload → WirePayload
wire_of payload = record {
  session_id = some payload.session_id;
  message = some (wire_message payload.message);
}

-- What both kinds of message are made of.
pub record Parts : Type 0 where
  pub session_id : String
  pub message : WireMessage
  pub id : String
  pub customer_id : String
  pub customer_name : Option String
  pub text : String
  pub timestamp : Number

-- A letter of ASCII as `/i` compares it.
abbrev pub fold : ℕ → ℕ
fold n = if leb b'A' n && leb n b'Z' then n + 32 else n

unfoldable pub same_folded : String → String → Bool
same_folded String.[] String.[] = true
same_folded String.[] (String.◌∷◌ d t) = false
same_folded (String.◌∷◌ c s) String.[] = false
same_folded (String.◌∷◌ c s) (String.◌∷◌ d t) =
    eqb (fold (code c)) (fold (code d)) && same_folded s t

-- `value.replace(/@(c|lid)\.us$/i, '')`
unfoldable pub strip_domain : String → String
strip_domain String.[] = String.[]
strip_domain (String.◌∷◌ c s) =
    let rest = strip_domain s in
    if same_folded (String.◌∷◌ c s) "@c.us" || same_folded (String.◌∷◌ c s) "@lid.us"
    then ""
    else String.◌∷◌ c rest

unfoldable pub canonical_whatsapp_id : String → String
canonical_whatsapp_id value = strip_domain (trim value)

abbrev pub broadcast_address : String
broadcast_address = "status@broadcast"

unfoldable pub wire_peer : WireMessage → String
wire_peer message =
    let from = trim (text_of message.from) in
    let to = trim (text_of message.to) in
    if message.from_me then (if is_empty to then from else to) else from

-- The messages that are passed over without an error.
unfoldable pub is_ignored : Bool → WireMessage → Bool
is_ignored allow_groups message =
    trim (text_of message.from) == broadcast_address
    || trim (text_of message.to) == broadcast_address
    || wire_peer message == broadcast_address
    || not (is_text message.type "chat")
    || message.is_group && not allow_groups

abbrev pub full_or_none : String → Option String
full_or_none name = if is_empty name then none else some name

abbrev pub finite_or_zero : Option Number → Number
finite_or_zero none = above 0
finite_or_zero (some n) = if is_finite n then n else above 0

unfoldable pub message_parts : String → WireMessage → Result Parts
message_parts session_id message = do
  let id = trim (text_of message.id)
  let customer_id = canonical_whatsapp_id (wire_peer message)
  let text = trim (text_of message.text)
  require (not (is_empty id || is_empty customer_id || is_empty text))
      "invalid_linked_device_message"
  ok (record {
    session_id = session_id;
    message = message;
    id = id;
    customer_id = customer_id;
    customer_name = full_or_none (trim (text_of message.customer_name));
    text = text;
    timestamp = finite_or_zero message.timestamp;
  })

abbrev pub parts_unless : Bool → Result Parts → Result (Option Parts)
parts_unless true parts = ok none
parts_unless false parts = parts >>= (λ made. ok (some made))

abbrev pub parts_of : Bool → String → Option WireMessage → Result (Option Parts)
parts_of allow_groups session_id none = throws "invalid_linked_device_payload"
parts_of allow_groups session_id (some message) =
    parts_unless (is_ignored allow_groups message) (message_parts session_id message)

unfoldable pub linked_device_message_parts : Bool → WirePayload → Result (Option Parts)
linked_device_message_parts allow_groups payload = do
  let session_id = trim (text_of payload.session_id)
  require (not (is_empty session_id)) "invalid_linked_device_payload"
  parts_of allow_groups session_id payload.message

unfoldable pub normalized_operation_id : String → Result String
normalized_operation_id value = do
  let operation_id = trim value
  require (not (is_empty operation_id || ltb 200 (utf16_length operation_id)))
      "linked_device_operation_id_invalid"
  ok operation_id

-- The tenant of a message is put in by `processMessage`.
abbrev pub inbound_of : Parts → Message
inbound_of parts = record {
  id = parts.id;
  tenant_id = "";
  channel = "whatsapp";
  customer_id = parts.customer_id;
  customer_name = parts.customer_name;
  text = some parts.text;
  context = none;
}

abbrev pub inbound_parts : Option Parts → Option Message
inbound_parts none = none
inbound_parts (some parts) = if parts.message.from_me then none else some (inbound_of parts)

unfoldable pub normalize_linked_device_inbound : Bool → WirePayload → Result (Option Message)
normalize_linked_device_inbound allow_groups payload = do
  parts ← linked_device_message_parts allow_groups payload
  ok (inbound_parts parts)

abbrev pub origin_hint_of : Option String → Option String
origin_hint_of hint = if is_text hint "worker_api" then some "worker_api" else none

abbrev pub optional_operation : Option String → Result (Option String)
optional_operation none = ok none
optional_operation (some value) =
    if is_empty value
    then ok none
    else normalized_operation_id value >>= (λ operation_id. ok (some operation_id))

abbrev pub operation_of : Option String → Option String → Result (Option String)
operation_of none value = ok none
operation_of (some hint) value = optional_operation value

abbrev pub observation_of : Parts → Result Observation
observation_of parts = do
  let hint = origin_hint_of parts.message.origin_hint
  operation_id ← operation_of hint parts.message.api_send_operation_id
  ok (record {
    id = parts.id;
    platform_message_id = parts.id;
    channel = "whatsapp";
    transport = "linked-device";
    session_id = parts.session_id;
    customer_id = parts.customer_id;
    customer_name = parts.customer_name;
    text = some parts.text;
    origin_hint = hint;
    api_send_operation_id = operation_id;
  })

abbrev pub outbound_parts : Option Parts → Result (Option Observation)
outbound_parts none = ok none
outbound_parts (some parts) =
    if parts.message.from_me
    then observation_of parts >>= (λ observation. ok (some observation))
    else ok none

unfoldable pub normalize_linked_device_outbound_observation :
    Bool → WirePayload → Result (Option Observation)
normalize_linked_device_outbound_observation allow_groups payload = do
  parts ← linked_device_message_parts allow_groups payload
  outbound_parts parts
