-- ===== src/Worker/Session.antt =====
-- workers/whatsapp-web/src/session-manager.js: the state of each session, what the events of its client
-- make of it, and the restarts. A session object is a cell of a store, since a restart that is due
-- still holds the object of its session after another has taken its place.
pub mod Steady
pub mod Delays
use Prim.Native.Char.{Char, code}
use Prim.Native.String
use whatsapp_ai_supervisor.Common.{
  Bool, List, Option, Result, String, [], eqb, false, if◌then◌else◌, is_empty, leb, min, none, not,
  ok, require, some, suc, text_of, trim, true, ℕ, ◌&&◌, ◌*◌, ◌-◌, ◌>>=◌, ◌>>◌, ◌^◌, ◌||◌, ◌∷◌,
}
use whatsapp_ai_supervisor.Common.Maps.{Map, get, put, remove}

pub data ClientStatus : Type 0 where
  starting pairing ready auth_failed disconnected error : ClientStatus

pub record Definition : Type 0 where
  pub session_id : Option String
  pub allow_groups : Bool

-- `is_destroyed` says whether the worker has called `destroy` on the client of the session.
pub record Session : Type 0 where
  pub session_id : String
  pub definition : Definition
  pub status : ClientStatus
  pub qr : Option String
  pub pairing_code : Option String
  pub last_error : Option String
  pub reconnect_attempt : ℕ
  pub restart_scheduled : Bool
  pub is_destroyed : Bool

pub record PublicState : Type 0 where
  pub session_id : String
  pub status : ClientStatus
  pub qr : Option String
  pub pairing_code : Option String
  pub last_error : Option String
  pub reconnect_attempt : ℕ

-- A restart that waits for its timer.
pub record Timer : Type 0 where
  pub cell : ℕ
  pub delay_ms : ℕ

-- `restarting` has the cells whose timer has fired and whose client is being destroyed.
pub record Manager : Type 0 where
  pub cells : ℕ → Session
  pub next_cell : ℕ
  pub sessions : Map ℕ
  pub timers : List Timer
  pub restarting : List ℕ

pub data ClientEvent : Type 0 where
  qr_shown : (qr : String) → ClientEvent
  code_shown : (code : String) → ClientEvent
  authenticated : ClientEvent
  becomes_ready : ClientEvent
  auth_failure : (told : Option String) → ClientEvent
  disconnects : (reason : Option String) → ClientEvent

unfoldable pub public_state : Session → PublicState
public_state session = record {
  session_id = session.session_id;
  status = session.status;
  qr = session.qr;
  pairing_code = session.pairing_code;
  last_error = session.last_error;
  reconnect_attempt = session.reconnect_attempt;
}

-- A character that `/^[-_a-z0-9]+$/i` takes.
unfoldable pub is_id_char : Char → Bool
is_id_char c =
    let n = code c in
    leb b'a' n && leb n b'z'
    || leb b'A' n && leb n b'Z'
    || leb b'0' n && leb n b'9'
    || eqb n b'_'
    || eqb n b'-'

unfoldable pub all_id_chars : String → Bool
all_id_chars String.[] = true
all_id_chars (String.◌∷◌ c s) = is_id_char c && all_id_chars s

unfoldable pub safe_session_id : Option String → Result String
safe_session_id value = do
  let session_id = trim (text_of value)
  require (not (is_empty session_id) && all_id_chars session_id)
      (String.◌++◌ "invalid_session_id: " session_id)
  ok session_id

unfoldable pub get_session : Manager → String → Option PublicState
get_session manager session_id = shown_of (get manager.sessions session_id)
  where
    shown_of : Option ℕ → Option PublicState
    shown_of none = none
    shown_of (some cell) = some (public_state (manager.cells cell))

abbrev pub new_session : String → Definition → Session
new_session session_id definition = record {
  session_id = session_id;
  definition = definition;
  status = starting;
  qr = none;
  pairing_code = none;
  last_error = none;
  reconnect_attempt = 0;
  restart_scheduled = false;
  is_destroyed = false;
}

abbrev pub write_cell : (ℕ → Session) → ℕ → Session → ℕ → Session
write_cell cells cell session = λ other. if eqb cell other then session else cells other

abbrev pub write : Manager → ℕ → Session → Manager
write manager cell session = record manager { cells = write_cell manager.cells cell session }

abbrev pub add_session : Manager → Definition → String → Option ℕ → Manager
add_session manager definition session_id (some cell) = manager
add_session manager definition session_id none = record manager {
  cells = write_cell manager.cells manager.next_cell (new_session session_id definition);
  next_cell = suc manager.next_cell;
  sessions = put manager.sessions session_id manager.next_cell;
}

-- `startSession` up to `client.initialize`; what its failure does is `initialize_failed`.
unfoldable pub start_session : Manager → Definition → Result Manager
start_session manager definition = do
  session_id ← safe_session_id definition.session_id
  ok (add_session manager definition session_id (get manager.sessions session_id))

abbrev pub text_or : Option String → String → String
text_or none default = default
text_or (some s) default = s

-- The events but for the restart that `disconnected` asks for. `shorten` is `slice(0, 300)`.
abbrev pub hear : (String → String) → Session → ClientEvent → Session
hear shorten session (qr_shown qr) = record session {
  status = pairing;
  qr = some qr;
  pairing_code = none;
}
hear shorten session (code_shown code) = record session {
  status = pairing;
  pairing_code = some code;
  qr = none;
}
hear shorten session authenticated = record session { last_error = none }
hear shorten session becomes_ready = record session {
  status = ready;
  qr = none;
  pairing_code = none;
  last_error = none;
  reconnect_attempt = 0;
  restart_scheduled = false;
}
hear shorten session (auth_failure told) = record session {
  status = auth_failed;
  last_error = some (shorten (text_or told "authentication failure"));
}
hear shorten session (disconnects reason) = record session {
  status = disconnected;
  last_error = some (shorten (text_or reason "disconnected"));
}

unfoldable pub reconnect_delay : ℕ → ℕ → ℕ
reconnect_delay reconnect_base_ms attempt = min (reconnect_base_ms * 2 ^ (attempt - 1)) 60000

module _ (reconnect : Bool) (reconnect_base_ms : ℕ) (shorten : String → String) where
  unfoldable pub schedule_reconnect : Manager → ℕ → Manager
  schedule_reconnect manager cell =
      let session = manager.cells cell in
      if not reconnect || session.restart_scheduled then manager else record manager {
        cells = write_cell manager.cells cell (record session {
          restart_scheduled = true;
          reconnect_attempt = suc session.reconnect_attempt;
        });
        timers =
            record {
              cell = cell;
              delay_ms = reconnect_delay reconnect_base_ms (suc session.reconnect_attempt);
            }
            ∷ manager.timers;
      }

  unfoldable pub client_event : Manager → ℕ → ClientEvent → Manager
  client_event manager cell (disconnects reason) =
      schedule_reconnect
        (write manager cell (hear shorten (manager.cells cell) (disconnects reason))) cell
  client_event manager cell event = write manager cell (hear shorten (manager.cells cell) event)

  unfoldable pub initialize_failed : Manager → ℕ → String → Manager
  initialize_failed manager cell told =
      schedule_reconnect
        (write manager cell
          (record (manager.cells cell) { status = error; last_error = some (shorten told) }))
        cell

  -- A failure to hand a message on, or to flush the spool.
  unfoldable pub note_failure : Manager → ℕ → String → Manager
  note_failure manager cell told =
      write manager cell (record (manager.cells cell) { last_error = some (shorten told) })

  -- The timer of a restart, up to `destroy`.
  unfoldable pub begin_restart : Manager → Timer → List Timer → Manager
  begin_restart manager timer timers = record manager {
    cells =
        write_cell manager.cells timer.cell
          (record (manager.cells timer.cell) { restart_scheduled = false; is_destroyed = true });
    timers = timers;
    restarting = timer.cell ∷ manager.restarting;
  }

  -- The rest of it: a session that cannot be started again is gone.
  unfoldable pub end_restart : Manager → ℕ → List ℕ → Result Manager
  end_restart manager cell restarting =
      let session = manager.cells cell in
      start_session
        (record manager {
          sessions = remove manager.sessions session.session_id;
          restarting = restarting;
        })
        session.definition
