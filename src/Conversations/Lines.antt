-- ===== src/Conversations/Lines.antt =====
-- src/core/file-conversation-store.js: the lines of a file, and how one is appended and read.
use Prim.Native.String
use whatsapp_ai_supervisor.Common.{
  List, Option, Result, String, [], if◌then◌else◌, is_empty, none, not, ok, require, some, ◌++◌,
  ◌==◌, ◌>>◌, ◌∷◌,
}
use whatsapp_ai_supervisor.Common.Numbers.{Number}
use whatsapp_ai_supervisor.Common.Json.{Json}
use whatsapp_ai_supervisor.DomainEvent.{DomainEvent, Field, nothing, or_field}
use whatsapp_ai_supervisor.OwnershipStore.{safe_text}

pub data Kind : Type 0 where
  message decision control : Kind

pub data Direction : Type 0 where
  inbound system assistant operator : Direction

pub data ControlMode : Type 0 where
  ai human : ControlMode

-- What `lineageFields` takes from a domain event.
pub record Lineage : Type 0 where
  pub domain_event_id : Field
  pub domain_event_type : Field
  pub domain_schema_version : Field
  pub conversation_id : Field
  pub correlation_id : Field
  pub causation_id : Field
  pub idempotency_key : Field

-- A line of the file.
pub record Line : Type 0 where
  pub id : String
  pub tenant_id : String
  pub customer_id : String
  pub customer_name : Option String
  pub type : Kind
  pub direction : Direction
  pub text : Option String
  pub at : String
  pub action : Option String
  pub intent : Option String
  pub confidence : Option Number
  pub thinking : Option String
  pub proactive_offer : Option Json
  pub model_name : Option String
  pub provider : Option String
  pub mode : Option ControlMode
  pub lineage : Option Lineage

abbrev pub Files : Type 0
Files = String → List Line

unfoldable pub file_for : String → String
file_for tenant_id = String.◌++◌ (safe_text tenant_id) ".ndjson"

-- `value ?? null`
abbrev or_null : Field → Field
or_null field = or_field field nothing

unfoldable pub lineage_fields : Option DomainEvent → Option Lineage
lineage_fields none = none
lineage_fields (some event) = some (record {
  domain_event_id = event.event_id;
  domain_event_type = event.event_type;
  domain_schema_version = event.schema_version;
  conversation_id = or_null event.conversation_id;
  correlation_id = event.correlation_id;
  causation_id = or_null event.causation_id;
  idempotency_key = or_null event.idempotency_key;
})

abbrev pub append_to : Files → String → Line → Files
append_to files file line other = if file == other then files other ++ line ∷ [] else files other

unfoldable pub append_event : Files → Line → Result (Files × Line)
append_event files line = do
  require (not (is_empty line.tenant_id)) "conversation_event_tenant_required"
  require (not (is_empty line.customer_id)) "conversation_event_customer_required"
  ok (append_to files (file_for line.tenant_id) line, line)

unfoldable pub read_events : Files → String → List Line
read_events files tenant_id = files (file_for tenant_id)
