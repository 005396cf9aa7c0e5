-- ===== src/Worker/Session/Delays.antt =====
-- workers/whatsapp-web/src/session-manager.js: the delays of the restarts.
use mathlib.Core.Path.{subst}
use whatsapp_ai_supervisor.Common.{
  >>=-ok_parts, All, Bool, List, Option, String, arith, if-holds, le_scaled, min, none, not, ok,
  ok-injective, power_positive, refl, some, suc, true, ℕ, ◌-◌, ◌^◌, ◌||◌, ◌≡◌, ◌≤◌,
}
use whatsapp_ai_supervisor.Worker.Session.{
  ClientEvent, Definition, Manager, Session, add_session, auth_failure, authenticated,
  becomes_ready, begin_restart, client_event, code_shown, disconnects, end_restart, hear,
  initialize_failed, new_session, note_failure, qr_shown, reconnect_delay, safe_session_id,
  schedule_reconnect, start_session, write,
}
use whatsapp_ai_supervisor.Worker.Session.Steady.{
  IsCapped, IsPaced, IsSteady, IsTaken, Reachable, Step, fails_to_start, fires, hear-IsSteady, here,
  next, notes, restarts, start, starts, tells, there, write_cell-IsSteady,
}
use whatsapp_ai_supervisor.Common.Maps.{get}

reconnect_delay-bounds :
    (base attempt : ℕ)
    → (min base 60000 ≤ reconnect_delay base attempt) × (reconnect_delay base attempt ≤ 60000)
unfolding reconnect_delay
reconnect_delay-bounds base attempt =
    let scaled = le_scaled base (2 ^ (attempt - 1)) (power_positive (attempt - 1)) in
    (omega (arith, scaled), omega arith)

IsTaken-All :
    {A : Type 0} (P : A → Type 0) {x : A} {xs ys : List A} → IsTaken x xs ys → All P xs → All P ys
IsTaken-All P here (h, hs) = hs
IsTaken-All P (there taken) (h, hs) = (h, IsTaken-All P taken hs)

module _ (reconnect : Bool) (reconnect_base_ms : ℕ) (shorten : String → String) where
  abbrev Sound : Manager → Type 0
  Sound = IsPaced reconnect reconnect_base_ms shorten

  write-IsPaced :
      (manager : Manager) (cell : ℕ) (session : Session)
      → Sound manager
      → IsSteady session
      → Sound (write manager cell session)
  write-IsPaced manager cell session (sound, first) steady =
      (write_cell-IsSteady manager.cells cell session sound steady, first)

  schedule_reconnect-IsPaced :
      (manager : Manager) (cell : ℕ)
      → Sound manager
      → Sound (schedule_reconnect reconnect reconnect_base_ms shorten manager cell)
  unfolding schedule_reconnect
  schedule_reconnect-IsPaced manager cell (sound, capped) =
      let session = manager.cells cell in
      if-holds Sound (not reconnect || session.restart_scheduled) (λ _. (sound, capped))
        (λ _. (
          write_cell-IsSteady manager.cells cell
              (record session {
                restart_scheduled = true;
                reconnect_attempt = suc session.reconnect_attempt;
              })
              sound (sound cell),
          (reconnect_delay-bounds reconnect_base_ms (suc session.reconnect_attempt), capped),
        ))

  client_event-IsPaced :
      (manager : Manager) (cell : ℕ) (event : ClientEvent)
      → Sound manager
      → Sound (client_event reconnect reconnect_base_ms shorten manager cell event)
  unfolding client_event
  client_event-IsPaced manager cell event sound =
      let heard =
        λ (e : ClientEvent). hear-IsSteady shorten (manager.cells cell) e (sound.0 cell) in
      let kept = λ (e : ClientEvent).
        write-IsPaced manager cell (hear shorten (manager.cells cell) e) sound (heard e) in
      elim event as (λ e. Sound (client_event reconnect reconnect_base_ms shorten manager cell e)) [
        | qr_shown qr ↦ kept (qr_shown qr)
        | code_shown code ↦ kept (code_shown code)
        | authenticated ↦ kept authenticated
        | becomes_ready ↦ kept becomes_ready
        | auth_failure told ↦ kept (auth_failure told)
        | disconnects reason ↦
            schedule_reconnect-IsPaced
              (write manager cell (hear shorten (manager.cells cell) (disconnects reason))) cell
              (kept (disconnects reason))
      ]

  start_session-IsPaced :
      (manager : Manager) (definition : Definition) {after : Manager}
      → Sound manager
      → start_session manager definition ≡ ok after
      → Sound after
  unfolding start_session
  start_session-IsPaced manager definition {after} sound e =
      let (id, _, started) = >>=-ok_parts (safe_session_id definition.session_id) _ e in
      subst Sound (ok-injective started) (added id (get manager.sessions id))
    where
      added : (id : String) (cell : Option ℕ) → Sound (add_session manager definition id cell)
      added id (some cell) = sound
      added id none = (
        write_cell-IsSteady manager.cells manager.next_cell (new_session id definition) sound.0
            refl,
        sound.1,
      )

  Step-IsPaced :
      {before after : Manager}
      → Sound before
      → Step reconnect reconnect_base_ms shorten before after
      → Sound after
  unfolding initialize_failed note_failure begin_restart end_restart
  Step-IsPaced {before} sound (starts definition e) =
      start_session-IsPaced before definition sound e
  Step-IsPaced {before} sound (fails_to_start cell told) =
      schedule_reconnect-IsPaced _ cell
        (write-IsPaced before cell _ sound (ground (arith, sound.0 cell)))
  Step-IsPaced {before} sound (tells cell event) = client_event-IsPaced before cell event sound
  Step-IsPaced {before} sound (notes cell told) = write-IsPaced before cell _ sound (sound.0 cell)
  Step-IsPaced {before} sound (fires timer timers taken) = (
    write_cell-IsSteady before.cells timer.cell _ sound.0 (sound.0 timer.cell),
    IsTaken-All (IsCapped reconnect reconnect_base_ms shorten) taken sound.1,
  )
  Step-IsPaced {before} sound (restarts cell restarting taken e) = start_session-IsPaced _ _ sound e

  -- However the sessions start, fail, pair, disconnect and are started again, and whatever a client
  -- tells, also after it was destroyed, every restart that waits was given a delay of a minute at most,
  -- and of the base at least where that is less than a minute; and no session shows a QR code and a
  -- pairing code at once, or either when it is ready.
  pub Reachable-IsPaced :
      {manager : Manager} → Reachable reconnect reconnect_base_ms shorten manager → Sound manager
  Reachable-IsPaced start = ((λ cell. refl), tt)
  Reachable-IsPaced (next reached step) = Step-IsPaced (Reachable-IsPaced reached) step
