-- ===== src/Worker/Send.antt =====
-- workers/whatsapp-web/src/session-manager.js, `sendText`: a send is accepted into the queue, waits
-- for those before it, and is under way until the client answers. What changes the session between
-- these steps stands between the functions for them.
pub mod Recognized
mod Tests
use Prim.Native.Char.{code}
use Prim.Native.String
use whatsapp_ai_supervisor.Common.{
  Bool, Option, Result, String, [], false, if◌then◌else◌, includes, is_empty, leb, ltb, none, not,
  ok, require, some, suc, text_of, throws, trim, true, ℕ, ◌+◌, ◌-◌, ◌==◌, ◌>>=◌, ◌>>◌, ◌||◌, ◌∷◌,
}
use whatsapp_ai_supervisor.Common.Maps.{Map, put}
use whatsapp_ai_supervisor.Worker.Session.{
  ClientStatus, auth_failed, disconnected, error, pairing, ready, starting,
}
use whatsapp_ai_supervisor.Worker.Relay.{ActiveSend, RecentSend, prune_recent}

-- What a session keeps of its sends. No code sets the status `authenticated`, which the tests of the
-- code allow too.
pub record Sender : Type 0 where
  pub status : ClientStatus
  pub pending_sends : ℕ
  pub last_sent_at : ℕ
  pub active_api_send : Option ActiveSend
  pub recent : Map RecentSend

pub record SendRequest : Type 0 where
  pub to : String
  pub text : Option String
  pub operation_id : Option String

-- A send in the queue.
pub record Accepted : Type 0 where
  pub to : String
  pub text : String
  pub operation_id : Option String

pub record Sent : Type 0 where
  pub id : Option String
  pub operation_id : Option String

-- `s.length`, in UTF-16 units.
unfoldable pub utf16_length : String → ℕ
utf16_length String.[] = 0
utf16_length (String.◌∷◌ c s) = (if ltb (code c) 65536 then 1 else 2) + utf16_length s

unfoldable pub check_operation_id : String → Result (Option String)
check_operation_id value = do
  let operation_id = trim value
  require (not (is_empty operation_id || ltb 200 (utf16_length operation_id)))
      "invalid_send_payload"
  ok (some operation_id)

abbrev pub optional_operation_id : Option String → Result (Option String)
optional_operation_id none = ok none
optional_operation_id (some value) = if is_empty value then ok none else check_operation_id value

abbrev pub is_sendable : ClientStatus → Bool
is_sendable ready = true
is_sendable starting = false
is_sendable pairing = false
is_sendable auth_failed = false
is_sendable disconnected = false
is_sendable error = false

unfoldable pub target_of : String → String
target_of to = if includes to "@" then to else String.◌++◌ to "@c.us"

-- `messageId && normalizedOperation`, for what is kept of a send that went through.
abbrev pub keep_recent : ℕ → ℕ → ℕ → Map RecentSend → Option String → Option String → Map RecentSend
keep_recent max_recent ttl_ms now recent (some id) (some operation_id) =
    if is_empty id
    then recent
    else prune_recent max_recent now
        (put recent id (record { operation_id = operation_id; expires_at = now + ttl_ms }))
keep_recent max_recent ttl_ms now recent (some id) none = recent
keep_recent max_recent ttl_ms now recent none operation_id = recent

-- The send under way is cleared by the send whose operation it is.
abbrev pub clear_active : Option ActiveSend → Option String → Option ActiveSend
clear_active (some active) (some operation_id) =
    if active.operation_id == operation_id then none else some active
clear_active (some active) none = some active
clear_active none operation_id = none

abbrev pub active_for : Option String → String → String → Option ActiveSend → Option ActiveSend
active_for none target text before = before
active_for (some operation_id) target text before =
    some (record { operation_id = operation_id; peer = target; text = text })

unfoldable pub settle_send : Sender → Sender
settle_send sender = record sender { pending_sends = sender.pending_sends - 1 }

module _ (max_send_queue min_send_interval_ms ttl_ms max_recent : ℕ) where
  unfoldable pub accept_send : Option Sender → SendRequest → Result (Sender × Accepted)
  accept_send none request = throws "session_not_found"
  accept_send (some sender) request = do
    require (is_sendable sender.status) "session_not_ready"
    require (not (is_empty request.to || is_empty (trim (text_of request.text))))
        "invalid_send_payload"
    operation_id ← optional_operation_id request.operation_id
    require (not (leb max_send_queue sender.pending_sends)) "send_queue_full"
    ok (
      record sender { pending_sends = suc sender.pending_sends },
      record { to = request.to; text = text_of request.text; operation_id = operation_id },
    )

  -- How long to sleep before the send: `Math.max(0, minSendIntervalMs - (now - lastSentAt))`.
  unfoldable pub wait_ms : Sender → ℕ → ℕ
  wait_ms sender now =
      if ltb 0 sender.last_sent_at then min_send_interval_ms + sender.last_sent_at - now else 0

  -- The turn of a send has come; after the wait, the client is asked.
  unfoldable pub begin_send : Sender → Accepted → ℕ → Result (Sender × ℕ)
  begin_send sender send now = do
    require (is_sendable sender.status) "session_not_ready"
    ok (
      record sender {
        active_api_send =
            active_for send.operation_id (target_of send.to) (trim send.text)
              sender.active_api_send;
      },
      wait_ms sender now,
    )

  -- The client has answered, with the id of the message, if it gives one.
  unfoldable pub end_send : Sender → Accepted → ℕ → Result (Option String) → Sender × Result Sent
  end_send sender send now (ok id) = (
    record sender {
      last_sent_at = now;
      recent = keep_recent max_recent ttl_ms now sender.recent id send.operation_id;
      active_api_send = clear_active sender.active_api_send send.operation_id;
    },
    ok (record { id = id; operation_id = send.operation_id }),
  )
  end_send sender send now (throws told) = (
    record sender { active_api_send = clear_active sender.active_api_send send.operation_id },
    throws told,
  )
