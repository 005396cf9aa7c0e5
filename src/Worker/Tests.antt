-- ===== src/Worker/Tests.antt =====
-- Runs of workers/whatsapp-web/src.
use whatsapp_ai_supervisor.Common.{
  Bool, Result, String, [], any, ends_with, false, filter, is_space, length, none, ok, refl, some,
  throws, trim, true, ℕ, ◌+◌, ◌==◌, ◌>>=◌, ◌∷◌, ◌≡◌,
}
use whatsapp_ai_supervisor.Common.Maps.{Map, get, put, remove}
use whatsapp_ai_supervisor.Common.Sorting.{insert_sorted, sort_by}
use whatsapp_ai_supervisor.Common.Numbers.{above}
use whatsapp_ai_supervisor.Worker.{Payload, WorkerMessage}
use whatsapp_ai_supervisor.Worker.Spool.{
  Stored, corrupt, deliver, deliver_all, enqueue, file_of, flush_once, intact, key_for,
  list_pending,
}
use whatsapp_ai_supervisor.Worker.Spool.Delivery.{flush_once-Delivered, left_of}
use whatsapp_ai_supervisor.Worker.Session.{
  ClientEvent, Definition, Manager, all_id_chars, becomes_ready, begin_restart, client_event,
  code_shown, disconnects, end_restart, is_id_char, new_session, reconnect_delay, safe_session_id,
  schedule_reconnect, start_session, write_cell,
}
use whatsapp_ai_supervisor.Worker.Session.Steady.{IsPaced, next, no_sessions, start, starts, tells}
use whatsapp_ai_supervisor.Worker.Session.Delays.{Reachable-IsPaced}

abbrev greeting : WorkerMessage
greeting = record {
  id = "m1";
  from = "201@c.us";
  to = "201@c.us";
  customer_name = none;
  text = "Hello";
  timestamp = above 0;
  type = "chat";
  from_me = false;
  is_group = false;
  api_origin = none;
}

abbrev greeting_payload : Payload
greeting_payload = record { session_id = "s1"; message = greeting }

abbrev refused_payload : Payload
refused_payload = record { session_id = "s2"; message = greeting }

abbrev accepts_s1 : Payload → Bool
accepts_s1 payload = payload.session_id == "s1"

abbrev plain : String → String
plain s = s

abbrev spooled : Map Stored
spooled =
    ("s2:m1.json", intact refused_payload)
    ∷ ("s1:m1.json", intact greeting_payload)
    ∷ ("x.json", corrupt)
    ∷ []

code : Unit {0}
unfolding trim is_space get put remove filter any ends_with insert_sorted sort_by list_pending
    file_of key_for enqueue deliver deliver_all flush_once safe_session_id is_id_char all_id_chars
    start_session reconnect_delay schedule_reconnect client_event begin_restart end_restart
code = tt

flush_once_left :
    (flush_once accepts_s1 (λ path. true) spooled).files
    ≡ ("s2:m1.json", intact refused_payload) ∷ ("x.json", corrupt) ∷ []
unfolding code
flush_once_left = refl

-- One message is taken, one is refused and one file cannot be read.
flush_once-Delivered_example :
    (let after = flush_once accepts_s1 (λ path. true) spooled in
      (get after.files "s1:m1.json"
        ≡ left_of accepts_s1 (λ path. true) "s1:m1.json" (get spooled "s1:m1.json"))
      × (after.delivered + after.retained ≡ length (list_pending spooled)))
unfolding ends_with
flush_once-Delivered_example =
    flush_once-Delivered accepts_s1 (λ path. true) spooled "s1:m1.json" refl

abbrev shop_phone : Definition
shop_phone = record { session_id = some "shop-1"; allow_groups = false }

abbrev one_session : Manager
one_session = record no_sessions {
  cells = write_cell no_sessions.cells 0 (new_session "shop-1" shop_phone);
  next_cell = 1;
  sessions = ("shop-1", 0) ∷ [];
}

abbrev after_event : Manager → ClientEvent → Manager
after_event manager event = client_event true 5000 plain manager 0 event

-- A session is started, shows its code, is ready and disconnects.
Reachable-IsPaced_example : IsPaced true 5000 plain (
    after_event
      (after_event (after_event one_session (code_shown "1234")) becomes_ready)
      (disconnects none))
unfolding code
Reachable-IsPaced_example = Reachable-IsPaced true 5000 plain (
    next
      (next (next (next start (starts shop_phone refl)) (tells 0 (code_shown "1234")))
        (tells 0 becomes_ready))
      (tells 0 (disconnects none)))

-- A session that is ready again before its restart is due, and disconnects, is restarted twice.
client_event_two_timers :
    (after_event
      (after_event (after_event one_session (disconnects none)) becomes_ready)
      (disconnects none)).timers
    ≡ record { cell = 0; delay_ms = 5000 } ∷ record { cell = 0; delay_ms = 5000 } ∷ []
unfolding code
client_event_two_timers = refl

abbrev sessions_of : Result Manager → Map ℕ
sessions_of (ok manager) = manager.sessions
sessions_of (throws e) = []

-- The second restart drops the session that the first has started, whose client stays in use.
end_restart_twice :
    sessions_of (
      start_session one_session (record { session_id = some "shop-2"; allow_groups = true })
      >>= (λ two.
          end_restart true 5000 plain
            (begin_restart true 5000 plain two (record { cell = 0; delay_ms = 5000 }) [])
            0
            [])
      >>= (λ again.
          end_restart true 5000 plain
            (begin_restart true 5000 plain again (record { cell = 0; delay_ms = 5000 }) [])
            0
            []))
    ≡ ("shop-2", 1) ∷ ("shop-1", 3) ∷ []
unfolding code
end_restart_twice = refl
