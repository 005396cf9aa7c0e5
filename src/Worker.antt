-- ===== src/Worker.antt =====
-- workers/whatsapp-web/src: the process that holds the WhatsApp sessions, and what it hands to the
-- supervisor.
pub mod Spool
pub mod Session
pub mod Relay
pub mod Send
mod Tests
use whatsapp_ai_supervisor.Common.{Bool, Option, String}
use whatsapp_ai_supervisor.Common.Numbers.{Number}

-- The call of the API that sent a text.
pub record ApiOrigin : Type 0 where
  pub origin_hint : String
  pub api_send_operation_id : String

pub record WorkerMessage : Type 0 where
  pub id : String
  pub from : String
  pub to : String
  pub customer_name : Option String
  pub text : String
  pub timestamp : Number
  pub type : String
  pub from_me : Bool
  pub is_group : Bool
  pub api_origin : Option ApiOrigin

pub record Payload : Type 0 where
  pub session_id : String
  pub message : WorkerMessage
