-- ===== src/Attribution.antt =====
-- src/domain/outbound-attribution.js: the note that a text was sent by the agent or an operator and
-- not by the person at the phone. An instant counts the milliseconds from the first that `Date` holds.
use Prim.Native.String
use whatsapp_ai_supervisor.Common.{
  Bool, Option, Result, String, is_empty, is_some, is_text, ltb, none, not, ok, require, some,
  text_of, throws, trim, ℕ, ◌+◌, ◌>>=◌, ◌>>◌, ◌||◌,
}

pub record Attribution : Type 0 where
  pub tenant_id : String
  pub session_id : String
  pub conversation_id : String
  pub customer_id : String
  pub platform_message_id : String
  pub origin : Option String
  pub source_message_id : Option String
  pub created_at : String
  pub expires_at : String
  pub echo_observed_at : Option String

pub record AttributionInput : Type 0 where
  pub tenant_id : Option String
  pub session_id : Option String
  pub conversation_id : Option String
  pub customer_id : Option String
  pub platform_message_id : Option String
  pub origin : Option String
  pub source_message_id : Option String

abbrev invalid : String → String → String
invalid field suffix = String.◌++◌ "outbound_" (String.◌++◌ field suffix)

unfoldable pub required_string : Option String → String → Result String
required_string value field = do
  require (not (is_empty (trim (text_of value)))) (invalid field "_required")
  ok (trim (text_of value))

unfoldable pub optional_string : Option String → String → Result (Option String)
optional_string none field = ok none
optional_string (some value) field = do
  normalized ← required_string (some value) field
  ok (some normalized)

abbrev is_origin : Option String → Bool
is_origin value = is_text value "agent" || is_text value "operator_api"

abbrev found_or : {A : Type 0} → Option A → String → Result A
found_or none message = throws message
found_or (some a) message = ok a

-- What `Date.parse` and `toISOString` do is an argument: an instant, if the text has one, and the
-- text of an instant, if it is in the range of `Date`.
module _ (parse : String → Option ℕ) (to_iso : ℕ → Option String) where
  unfoldable pub valid_timestamp : Option String → String → Result String
  valid_timestamp value field = do
    normalized ← required_string value field
    require (is_some (parse normalized)) (invalid field "_invalid")
    ok normalized

  unfoldable pub assert_echo : Option String → Result (Unit {0})
  assert_echo none = ok tt
  assert_echo (some value) = do _ ← valid_timestamp (some value) "echo_observed_at"; ok tt

  unfoldable pub assert_outbound_attribution : Attribution → Result Attribution
  assert_outbound_attribution attribution = do
    _ ← required_string (some attribution.tenant_id) "tenant_id"
    _ ← required_string (some attribution.session_id) "session_id"
    _ ← required_string (some attribution.conversation_id) "conversation_id"
    _ ← required_string (some attribution.customer_id) "customer_id"
    _ ← required_string (some attribution.platform_message_id) "platform_message_id"
    require (is_origin attribution.origin)
        (String.◌++◌ "unsupported_outbound_origin: " (text_of attribution.origin))
    _ ← valid_timestamp (some attribution.created_at) "created_at"
    _ ← valid_timestamp (some attribution.expires_at) "expires_at"
    assert_echo attribution.echo_observed_at
    _ ← optional_string attribution.source_message_id "source_message_id"
    ok attribution

  unfoldable pub create_outbound_attribution : AttributionInput → String → ℕ → Result Attribution
  create_outbound_attribution input now ttl_ms = do
    created ← found_or (parse now) "outbound_created_at_invalid"
    require (ltb 0 ttl_ms) "outbound_ttl_invalid"
    tenant_id ← required_string input.tenant_id "tenant_id"
    session_id ← required_string input.session_id "session_id"
    conversation_id ← required_string input.conversation_id "conversation_id"
    customer_id ← required_string input.customer_id "customer_id"
    platform_message_id ← required_string input.platform_message_id "platform_message_id"
    source_message_id ← optional_string input.source_message_id "source_message_id"
    expires_at ← found_or (to_iso (created + ttl_ms)) "Invalid time value"
    assert_outbound_attribution (record {
      tenant_id = tenant_id;
      session_id = session_id;
      conversation_id = conversation_id;
      customer_id = customer_id;
      platform_message_id = platform_message_id;
      origin = input.origin;
      source_message_id = source_message_id;
      created_at = now;
      expires_at = expires_at;
      echo_observed_at = none;
    })
