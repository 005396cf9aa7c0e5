-- ===== src/Worker/Send/Recognized.antt =====
-- workers/whatsapp-web/src/session-manager.js: the worker knows the echo of a text that it sent.
use whatsapp_ai_supervisor.Common.{
  String, arith, eq_refl, false, is_empty, none, ok, refl, some, trim, ℕ, ◌+◌, ◌<◌, ◌≡◌, ◌≤◌,
}
use whatsapp_ai_supervisor.Common.Maps.{get}
use whatsapp_ai_supervisor.Worker.Relay.{api_origin_for, prune_recent, worker_api}
use whatsapp_ai_supervisor.Worker.Relay.Recent.{get-prune_recent_twice}
use whatsapp_ai_supervisor.Worker.Send.{Accepted, Sender, begin_send, end_send, target_of}

module _ (max_send_queue min_send_interval_ms ttl_ms max_recent : ℕ) where
  -- The echo of a text that the API sent under an operation id is laid to that operation, whether it
  -- comes while the send is under way and the wait for it gives the message's id, or later, before
  -- its time is up and before another send is kept: where the constructor's bounds hold, the id is
  -- not empty and the worker has not seen it before.
  pub send-recognized :
      (before asking sender : Sender) (send : Accepted) (operation_id id : String)
      (now wait ended later : ℕ)
      → 1 ≤ max_recent
      → send.operation_id ≡ some operation_id
      → is_empty id ≡ false
      → get sender.recent id ≡ none
      → begin_send max_send_queue min_send_interval_ms ttl_ms max_recent before send now
        ≡ ok (asking, wait)
      → ended < ended + ttl_ms
      → later < ended + ttl_ms
      → (let after =
            (end_send max_send_queue min_send_interval_ms ttl_ms max_recent sender send ended
              (ok (some id))).0 in
          let peer = target_of send.to in
          let text = trim send.text in
          (api_origin_for sender.recent asking.active_api_send id peer text (some id)
            ≡ some (worker_api operation_id))
          × (api_origin_for
                (prune_recent max_recent later after.recent)
                after.active_api_send
                id
                peer
                text
                none
              ≡ some (worker_api operation_id)))
  unfolding begin_send end_send api_origin_for
  send-recognized before asking sender send operation_id id now wait ended later h es full fresh eb
        positive still =
      (
        ground (
          arith,
          es,
          eb,
          fresh,
          eq_refl (target_of send.to),
          eq_refl (trim send.text),
          eq_refl id,
        ),
        rw
            (
              es,
              full,
              get-prune_recent_twice max_recent ended later sender.recent id
                  (record { operation_id = operation_id; expires_at = ended + ttl_ms }) h positive
                  still fresh,
            )
            refl,
      )
