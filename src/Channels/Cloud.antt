-- ===== src/Channels/Cloud.antt =====
-- src/channels/whatsapp-cloud.js: the webhook of the WhatsApp Cloud API, its signature and its
-- subscription. The ids of messages and senders are texts, as the API gives them.
use text.Mathlib.Text.{starts_with}
use Prim.Native.Char.{Char, code}
use Prim.Native.String
use whatsapp_ai_supervisor.Common.{
  Bool, List, Option, String, [], eqb, false, if◌then◌else◌, is_empty, is_text, leb, none, not,
  some, suc, text_of, ℕ, ◌&&◌, ◌++◌, ◌||◌, ◌∷◌,
}
use whatsapp_ai_supervisor.Common.Maps.{Map, get, put}
use whatsapp_ai_supervisor.Messages.{Message}
use whatsapp_ai_supervisor.Channels.{same_folded}

pub record CloudMessage : Type 0 where
  pub id : String
  pub from : String
  pub type : Option String
  pub text_body : Option String

pub record CloudContact : Type 0 where
  pub wa_id : String
  pub profile_name : Option String

pub record Change : Type 0 where
  pub phone_number_id : Option String
  pub contacts : List CloudContact
  pub messages : List CloudMessage

pub record CloudPayload : Type 0 where
  pub object : Option String
  pub entries : List (List Change)

-- A message with the number that it came to.
pub record Arrival : Type 0 where
  pub phone_number_id : Option String
  pub message : Message

abbrev pub contacts_by_id : Map CloudContact → List CloudContact → Map CloudContact
contacts_by_id found [] = found
contacts_by_id found (contact ∷ contacts) =
    contacts_by_id (put found contact.wa_id contact) contacts

abbrev pub profile_name_of : Option CloudContact → Option String
profile_name_of none = none
profile_name_of (some contact) = contact.profile_name

abbrev pub arrival_of : Option String → Map CloudContact → CloudMessage → String → Arrival
arrival_of phone_number_id contacts message body = record {
  phone_number_id = phone_number_id;
  message = record {
    id = message.id;
    tenant_id = "";
    channel = "whatsapp";
    customer_id = message.from;
    customer_name = profile_name_of (get contacts message.from);
    text = some body;
    context = none;
  };
}

abbrev pub arrivals_of_message :
    Option String → Map CloudContact → CloudMessage → Option String → List Arrival
arrivals_of_message phone_number_id contacts message none = []
arrivals_of_message phone_number_id contacts message (some body) =
    if is_text message.type "text"
    then arrival_of phone_number_id contacts message body ∷ []
    else []

abbrev pub arrivals_of_messages :
    Option String → Map CloudContact → List CloudMessage → List Arrival
arrivals_of_messages phone_number_id contacts [] = []
arrivals_of_messages phone_number_id contacts (message ∷ messages) =
    arrivals_of_message phone_number_id contacts message message.text_body
    ++ arrivals_of_messages phone_number_id contacts messages

abbrev pub arrivals_of_changes : List Change → List Arrival
arrivals_of_changes [] = []
arrivals_of_changes (change ∷ changes) =
    arrivals_of_messages change.phone_number_id (contacts_by_id [] change.contacts) change.messages
    ++ arrivals_of_changes changes

abbrev pub arrivals_of_entries : List (List Change) → List Arrival
arrivals_of_entries [] = []
arrivals_of_entries (changes ∷ entries) = arrivals_of_changes changes ++ arrivals_of_entries entries

unfoldable pub normalize_whatsapp_webhook : CloudPayload → List Arrival
normalize_whatsapp_webhook payload =
    if is_text payload.object "whatsapp_business_account"
    then arrivals_of_entries payload.entries
    else []

-- The query of the subscription; null is `none`.
pub record ChallengeQuery : Type 0 where
  pub mode : Option String
  pub verify_token : Option String
  pub challenge : Option String

-- A token that is not configured is null, which no query has.
abbrev pub is_token : Option String → Option String → Bool
is_token given none = false
is_token given (some token) = is_text given token

unfoldable pub verify_webhook_challenge : ChallengeQuery → Option String → Option String
verify_webhook_challenge query verify_token =
    if not (is_text query.mode "subscribe")
    then none
    else if not (is_token query.verify_token verify_token)
    then none
    else query.challenge

abbrev pub is_hex_digit : Char → Bool
is_hex_digit c =
    let n = code c in
    leb b'0' n && leb n b'9' || leb b'a' n && leb n b'f' || leb b'A' n && leb n b'F'

unfoldable pub count_hex : String → Option ℕ
count_hex String.[] = some 0
count_hex (String.◌∷◌ c s) = let rest = count_hex s in if is_hex_digit c then more rest else none
  where
    more : Option ℕ → Option ℕ
    more none = none
    more (some n) = some (suc n)

abbrev pub is_digest_length : Option ℕ → Bool
is_digest_length none = false
is_digest_length (some n) = eqb n 64

-- `hmac` is the HMAC-SHA-256 of a body under a secret, in hexadecimal.
module _ (hmac : String → String → String) where
  abbrev pub matches_digest : String → String → String → Bool
  matches_digest secret raw received =
      is_digest_length (count_hex received) && same_folded received (hmac secret raw)

  unfoldable pub validate_meta_signature : String → Option String → Option String → Bool
  validate_meta_signature raw none app_secret = false
  validate_meta_signature raw (some header) app_secret =
      let secret = text_of app_secret in
      not (is_empty secret)
      && starts_with header "sha256="
      && matches_digest secret raw (String.slice header 7 (String.len header))
