-- ===== src/Worker/Send/Tests.antt =====
-- Runs of `sendText` in workers/whatsapp-web/src/session-manager.js.
use whatsapp_ai_supervisor.Common.{
  [], filter, includes, is_space, none, ok, refl, some, throws, trim, ◌∷◌, ◌≡◌,
}
use whatsapp_ai_supervisor.Common.Maps.{get, put}
use whatsapp_ai_supervisor.Worker.Session.{ready}
use whatsapp_ai_supervisor.Worker.Relay.{api_origin_for, drop_oldest, prune_recent}
use whatsapp_ai_supervisor.Worker.Send.{
  Accepted, SendRequest, Sender, accept_send, begin_send, check_operation_id, end_send, settle_send,
  target_of, utf16_length, wait_ms,
}

abbrev idle : Sender
idle = record {
  status = ready;
  pending_sends = 0;
  last_sent_at = 900;
  active_api_send = none;
  recent = ("m0", record { operation_id = "op-0"; expires_at = 5000 }) ∷ [];
}

abbrev question : SendRequest
question = record { to = "201"; text = some " Hello "; operation_id = some "op-1 " }

abbrev queued : Accepted
queued = record { to = "201"; text = " Hello "; operation_id = some "op-1" }

abbrev sending : Sender
sending = record idle {
  active_api_send = some (record { operation_id = "op-1"; peer = "201@c.us"; text = "Hello" });
}

code : Unit {0}
unfolding trim is_space includes get put filter drop_oldest prune_recent api_origin_for utf16_length
    check_operation_id target_of accept_send wait_ms begin_send end_send settle_send
code = tt

accept_send_queued :
    accept_send 100 350 60000 1000 (some idle) question
    ≡ ok (record idle { pending_sends = 1 }, queued)
unfolding code
accept_send_queued = refl

accept_send_full :
    accept_send 1 350 60000 1000 (some (record idle { pending_sends = 1 })) question
    ≡ throws "send_queue_full"
unfolding code
accept_send_full = refl

begin_send_waits : begin_send 100 350 60000 1000 idle queued 1000 ≡ ok (sending, 250)
unfolding code
begin_send_waits = refl

settle_send_back : (settle_send (record idle { pending_sends = 1 })).pending_sends ≡ 0
unfolding code
settle_send_back = refl
