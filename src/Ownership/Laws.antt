-- ===== src/Ownership/Laws.antt =====
-- src/domain/conversation-ownership.js, `transitionOwnership`.
use mathlib.Core.Option.{some-injective}
use whatsapp_ai_supervisor.Common.{
  >>=-ok_parts, Bool, Bool-cases, OnOk, OnOk-bind, OnOk-map, OnOk-ok, Option, String, ap, arith,
  eq_iff, eq_refl, false, inl, inr, is_text, none, ok, refl, some, sym, true, ◌+◌, ◌∙◌, ◌≡◌, ◌≢◌,
}
use whatsapp_ai_supervisor.Ownership.{
  Command, Options, Ownership, RawOwnership, State, advance, command_of, find_state, next_state_for,
  normalize_record, raw_of, required_string, same_state, state_text, transition_ownership,
}
use whatsapp_ai_supervisor.Ownership.Normal.{
  IsNormal, IsTrimmed, find_state-state_text, normalize_record-IsNormal, normalize_record-Reads,
  nullable_string_of_IsTrimmed, required_string-IsTrimmed, required_string-state_text,
  required_string_of_IsTrimmed,
}
use whatsapp_ai_supervisor.Common.Numbers.{as_natural-of_natural, of_natural}

-- What a transition makes of a record: nothing, for a repeated one or one that does not apply, or
-- the next state under the next version.
pub data Advances (r : Ownership) (command : Command) (id : String) (s : Ownership) : Type 0 where
  repeated : r.transition_id ≡ some id → s ≡ r → Advances r command id s
  kept :
      r.transition_id ≢ some id
      → next_state_for r.state command ≡ r.state
      → s ≡ r
      → Advances r command id s
  moved :
      r.transition_id ≢ some id
      → next_state_for r.state command ≢ r.state
      → s.state ≡ next_state_for r.state command
      → s.version ≡ r.version + 1
      → s.transition_id ≡ some id
      → s.tenant_id ≡ r.tenant_id
      → s.conversation_id ≡ r.conversation_id
      → Advances r command id s

pub Advances-names :
    {r s : Ownership} {command : Command} {id : String}
    → Advances r command id s
    → (s.tenant_id ≡ r.tenant_id) × (s.conversation_id ≡ r.conversation_id)
Advances-names (repeated _ e) = (ap (λ x. x.tenant_id) e, ap (λ x. x.conversation_id) e)
Advances-names (kept _ _ e) = (ap (λ x. x.tenant_id) e, ap (λ x. x.conversation_id) e)
Advances-names (moved _ _ _ _ _ t c) = (t, c)

pub eq_of_same_state : (a b : State) → same_state a b ≡ true → a ≡ b
eq_of_same_state a b h =
    let texts : state_text a ≡ state_text b = (eq_iff _ _).0 h in
    some-injective _ _
      (sym (find_state-state_text a) ∙ ap find_state texts ∙ find_state-state_text b)

pub same_state_refl : (a : State) → same_state a a ≡ true
same_state_refl a = eq_refl _

pub ne_of_not_same : {a b : State} → same_state a b ≡ false → a ≢ b
ne_of_not_same {a} {b} h e = let same : same_state a b ≡ true = rw e (same_state_refl b) in cc

pub eq_of_is_text : (o : Option String) (s : String) → is_text o s ≡ true → o ≡ some s
eq_of_is_text none s h = cc
eq_of_is_text (some a) s h = ap some ((eq_iff a s).0 h)

pub ne_of_not_text : (o : Option String) (s : String) → is_text o s ≡ false → o ≢ some s
ne_of_not_text o s h e = let hit : is_text o s ≡ true = rw e (eq_refl s) in cc

module _ (is_date : String → Bool) where
  -- The record that `advance` writes when the state changes.
  moved-Advances :
      (r : Ownership) (command : Command) (id actor : String) (reason : Option String)
      (now : String)
      → IsNormal is_date r
      → IsTrimmed id
      → r.transition_id ≢ some id
      → next_state_for r.state command ≢ r.state
      → OnOk (Advances r command id) (
          normalize_record is_date (
            some (record (raw_of r) {
              state = some (state_text (next_state_for r.state command));
              version = of_natural (r.version + 1);
              changed_at = some now;
              changed_by = some actor;
              reason_code = reason;
              transition_id = some id;
            })))
  moved-Advances r command id actor reason now h t fresh ne =
      OnOk-map (normalize_record is_date (some raw))
        (λ s reads.
          moved fresh ne
            (ground
              (arith, reads.state, required_string-state_text next, find_state-state_text next))
            (ground (arith, reads.version, as_natural-of_natural (r.version + 1)))
            (ground
              (arith, reads.transition, nullable_string_of_IsTrimmed (some id) "transition_id" t))
            (ground
              (arith, reads.tenant, required_string_of_IsTrimmed r.tenant_id "tenant_id" h.tenant))
            (ground (
              arith,
              reads.conversation,
              required_string_of_IsTrimmed r.conversation_id "conversation_id" h.conversation,
            )))
        (normalize_record-Reads is_date raw)
    where
      next : State
      next = next_state_for r.state command

      raw : RawOwnership
      raw = record (raw_of r) {
        state = some (state_text (next_state_for r.state command));
        version = of_natural (r.version + 1);
        changed_at = some now;
        changed_by = some actor;
        reason_code = reason;
        transition_id = some id;
      }

  pub advance-Advances :
      (r : Ownership) (command : Command) (id actor : String) (reason : Option String)
      (now : String)
      → IsNormal is_date r
      → IsTrimmed id
      → OnOk (Advances r command id) (advance is_date r command id actor reason now)
  unfolding advance
  advance-Advances r command id actor reason now h t =
      elim (Bool-cases (is_text r.transition_id id)) [
        | inl same ↦ rw same (repeated (eq_of_is_text r.transition_id id same) refl)
        | inr other ↦ elim (Bool-cases (same_state (next_state_for r.state command) r.state)) [
          | inl still ↦
              rw (other, still)
                (kept (ne_of_not_text r.transition_id id other) (eq_of_same_state _ _ still) refl)
          | inr changed ↦
              rw (other, changed)
                (moved-Advances r command id actor reason now h t
                  (ne_of_not_text r.transition_id id other) (λ e. ne_of_not_same changed e))
        ]
      ]

  -- A successful transition returns the normal form of the record that it was given, if the
  -- transition was already applied or the command does not apply in its state, and otherwise the
  -- record in the command's next state, with the version one up and the transition's id.
  pub transition_ownership-Advances :
      (current : Option RawOwnership) (command : Option String) (options : Options) {s : Ownership}
      → transition_ownership is_date current command options ≡ ok s
      → (r : Ownership) × (c : Command) × (id actor : String) × (normalize_record is_date current
          ≡ ok r)
        × (command_of command ≡ ok c)
        × (required_string options.transition_id "transition_id" ≡ ok id)
        × (required_string options.actor "actor" ≡ ok actor)
        × Advances r c id s
  unfolding transition_ownership command_of
  transition_ownership-Advances current command options e =
      let (r, er, e1) = >>=-ok_parts (normalize_record is_date current) _ e in
      let (c, ec, e2) = >>=-ok_parts (command_of command) _ e1 in
      let (id, ei, e3) =
        >>=-ok_parts (required_string options.transition_id "transition_id") _ e2 in
      let (actor, ea, e4) = >>=-ok_parts (required_string options.actor "actor") _ e3 in
      (
        r,
        c,
        id,
        actor,
        er,
        ec,
        ei,
        ea,
        OnOk-ok _ (advance is_date r c id actor options.reason_code options.now)
            (advance-Advances r c id actor options.reason_code options.now
              (OnOk-ok _ (normalize_record is_date current)
                (normalize_record-IsNormal is_date current) er)
              (OnOk-ok _ (required_string options.transition_id "transition_id")
                (required_string-IsTrimmed options.transition_id "transition_id") ei))
            e4,
      )

  pub advance-IsNormal :
      (r : Ownership) (command : Command) (id actor : String) (reason : Option String)
      (now : String)
      → IsNormal is_date r
      → OnOk (IsNormal is_date) (advance is_date r command id actor reason now)
  unfolding advance
  advance-IsNormal r command id actor reason now h =
      elim (Bool-cases (is_text r.transition_id id)) [
        | inl same ↦ rw same h
        | inr other ↦ elim (Bool-cases (same_state (next_state_for r.state command) r.state)) [
          | inl still ↦ rw (other, still) h
          | inr changed ↦ rw (other, changed) (normalize_record-IsNormal is_date _)
        ]
      ]

  -- Whatever record is handed over, the one that a successful transition returns is normal: its
  -- texts are trimmed and not empty, and its time is a date.
  pub transition_ownership-IsNormal :
      (current : Option RawOwnership) (command : Option String) (options : Options) {s : Ownership}
      → transition_ownership is_date current command options ≡ ok s
      → IsNormal is_date s
  unfolding transition_ownership
  transition_ownership-IsNormal current command options e =
      OnOk-ok _ (transition_ownership is_date current command options)
        (OnOk-bind _ (normalize_record is_date current) _ λ r er.
          OnOk-bind _ (command_of command) _ λ c _.
            OnOk-bind _ (required_string options.transition_id "transition_id") _ λ id _.
              OnOk-bind _ (required_string options.actor "actor") _ λ actor _.
                advance-IsNormal r c id actor options.reason_code options.now (
                  OnOk-ok _ (normalize_record is_date current)
                    (normalize_record-IsNormal is_date current) er))
        e
