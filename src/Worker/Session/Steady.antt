-- ===== src/Worker/Session/Steady.antt =====
-- workers/whatsapp-web/src/session-manager.js: what holds of every session that can come about.
use whatsapp_ai_supervisor.Common.{
  All, Bool, List, String, [], arith, eqb, false, if-holds, is_some, min, none, not, ok, refl, true,
  ℕ, ◌&&◌, ◌||◌, ◌∷◌, ◌≡◌, ◌≤◌,
}
use whatsapp_ai_supervisor.Worker.Session.{
  ClientEvent, ClientStatus, Definition, Manager, Session, Timer, auth_failed, auth_failure,
  authenticated, becomes_ready, begin_restart, client_event, code_shown, disconnected, disconnects,
  end_restart, error, hear, initialize_failed, new_session, note_failure, pairing, qr_shown, ready,
  start_session, starting, write_cell,
}

abbrev is_ready : ClientStatus → Bool
is_ready ready = true
is_ready starting = false
is_ready pairing = false
is_ready auth_failed = false
is_ready disconnected = false
is_ready error = false

-- A session has one way to pair, and none when it is ready.
abbrev pub pairs_one_way : Session → Bool
pairs_one_way session =
    not (is_some session.qr && is_some session.pairing_code)
    && (not (is_ready session.status) || not (is_some session.qr || is_some session.pairing_code))

abbrev pub IsSteady : Session → Type 0
IsSteady session = pairs_one_way session ≡ true

pub write_cell-IsSteady :
    (cells : ℕ → Session) (cell : ℕ) (session : Session)
    → ((other : ℕ) → IsSteady (cells other))
    → IsSteady session
    → (other : ℕ) → IsSteady (write_cell cells cell session other)
write_cell-IsSteady cells cell session sound steady other =
    if-holds IsSteady (eqb cell other) (λ _. steady) (λ _. sound other)

pub hear-IsSteady :
    (shorten : String → String) (session : Session) (event : ClientEvent)
    → IsSteady session
    → IsSteady (hear shorten session event)
hear-IsSteady shorten session (qr_shown qr) k = refl
hear-IsSteady shorten session (code_shown code) k = refl
hear-IsSteady shorten session authenticated k = k
hear-IsSteady shorten session becomes_ready k = refl
hear-IsSteady shorten session (auth_failure told) k = ground (arith, k)
hear-IsSteady shorten session (disconnects reason) k = ground (arith, k)

-- No cell was written; each is one that nothing refers to.
abbrev unused : Session
unused = record (new_session "" (record { session_id = none; allow_groups = false })) {
  is_destroyed = true;
}

abbrev pub no_sessions : Manager
no_sessions = record {
  cells = λ cell. unused;
  next_cell = 0;
  sessions = [];
  timers = [];
  restarting = [];
}

pub data IsTaken {A : Type 0} : A → List A → List A → Type 0 where
  here : {x : A} {xs : List A} → IsTaken x (x ∷ xs) xs
  there : {x y : A} {xs ys : List A} → IsTaken x xs ys → IsTaken x (y ∷ xs) (y ∷ ys)

module _ (reconnect : Bool) (reconnect_base_ms : ℕ) (shorten : String → String) where
  -- What can happen to the sessions, in any order; a client may tell more after it was destroyed.
  pub data Step : Manager → Manager → Type 0 where
    starts :
        {manager after : Manager} (definition : Definition)
        → start_session manager definition ≡ ok after
        → Step manager after
    fails_to_start :
        {manager : Manager} (cell : ℕ) (told : String)
        → Step manager (initialize_failed reconnect reconnect_base_ms shorten manager cell told)
    tells :
        {manager : Manager} (cell : ℕ) (event : ClientEvent)
        → Step manager (client_event reconnect reconnect_base_ms shorten manager cell event)
    notes :
        {manager : Manager} (cell : ℕ) (told : String)
        → Step manager (note_failure reconnect reconnect_base_ms shorten manager cell told)
    fires :
        {manager : Manager} (timer : Timer) (timers : List Timer)
        → IsTaken timer manager.timers timers
        → Step manager (begin_restart reconnect reconnect_base_ms shorten manager timer timers)
    restarts :
        {manager after : Manager} (cell : ℕ) (restarting : List ℕ)
        → IsTaken cell manager.restarting restarting
        → end_restart reconnect reconnect_base_ms shorten manager cell restarting ≡ ok after
        → Step manager after

  pub data Reachable : Manager → Type 0 where
    start : Reachable no_sessions
    next : {before after : Manager} → Reachable before → Step before after → Reachable after

  -- A timer waits for the base delay or a minute, whichever is less, at least, and a minute at most.
  abbrev pub IsCapped : Timer → Type 0
  IsCapped timer = (min reconnect_base_ms 60000 ≤ timer.delay_ms) × (timer.delay_ms ≤ 60000)

  abbrev pub IsPaced : Manager → Type 0
  IsPaced manager = ((cell : ℕ) → IsSteady (manager.cells cell)) × All IsCapped manager.timers
