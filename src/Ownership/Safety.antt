-- ===== src/Ownership/Safety.antt =====
-- src/domain/conversation-ownership.js: repeated transitions, and who gets a conversation back.
use mathlib.Core.Path.{subst}
use whatsapp_ai_supervisor.Ownership.Normal.{normalize_record-state, normalize_record_of_IsNormal}
use whatsapp_ai_supervisor.Ownership.Laws.{
  Advances, kept, moved, repeated, same_state_refl, transition_ownership-Advances,
  transition_ownership-IsNormal,
}
use whatsapp_ai_supervisor.Common.{
  All, Bool, List, Option, Result-cases, String, [], ap, arith, eq_refl, inl, inr, is_text, ok,
  ok-injective, refl, some, sym, throws, true, ◌∙◌, ◌∷◌, ◌≡◌, ◌≢◌, ◌⊎◌,
}
use whatsapp_ai_supervisor.Ownership.{
  Command, Options, Ownership, RawOwnership, State, advance, ai_active, approval_resolved,
  command_of, human_active, next_state_for, normalize_record, raw_of, release_to_agent,
  resume_agent, same_state, transition_ownership,
}

abbrev pub IsResumption : Command → Type 0
IsResumption approval_resolved = Unit
IsResumption release_to_agent = Unit
IsResumption resume_agent = Unit
IsResumption _ = ⊥

next_state_for-human_active :
    (c : Command) → c ≢ release_to_agent → next_state_for human_active c ≡ human_active
unfolding next_state_for
next_state_for-human_active release_to_agent h = absurd (h refl)
next_state_for-human_active _ h = refl

next_state_for-eq-ai_active :
    (s : State) (c : Command)
    → s ≢ ai_active
    → next_state_for s c ≡ ai_active
    → IsResumption c × (s ≢ human_active ⊎ c ≡ release_to_agent)
unfolding next_state_for
next_state_for-eq-ai_active s c h e = ground arith

Advances-human_active :
    {r s : Ownership} {c : Command} {id : String}
    → r.state ≡ human_active
    → c ≢ release_to_agent
    → Advances r c id s
    → s.state ≡ human_active
Advances-human_active h k (repeated _ e) = rw e h
Advances-human_active h k (kept _ _ e) = rw e h
Advances-human_active {r} {c} h k (moved _ _ e _ _ _ _) =
    e ∙ ap (λ x. next_state_for x c) h ∙ next_state_for-human_active c k

Advances-ai_active :
    {r s : Ownership} {c : Command} {id : String}
    → r.state ≢ ai_active
    → Advances r c id s
    → s.state ≡ ai_active
    → IsResumption c × (r.state ≢ human_active ⊎ c ≡ release_to_agent)
Advances-ai_active ne (repeated _ e) a = absurd (ne (sym (ap (λ x. x.state) e) ∙ a))
Advances-ai_active ne (kept _ _ e) a = absurd (ne (sym (ap (λ x. x.state) e) ∙ a))
Advances-ai_active {r} {c} ne (moved _ _ e _ _ _ _) a =
    next_state_for-eq-ai_active r.state c ne (sym e ∙ a)

module _ (is_date : String → Bool) where
  advance_repeated :
      (s : Ownership) (c : Command) (id actor : String) (reason : Option String) (now : String)
      → s.transition_id ≡ some id
      → advance is_date s c id actor reason now ≡ ok s
  unfolding advance
  advance_repeated s c id actor reason now e =
      let same : is_text s.transition_id id ≡ true = rw e (eq_refl id) in rw same

  advance_kept :
      (s : Ownership) (c : Command) (id actor : String) (reason : Option String) (now : String)
      → next_state_for s.state c ≡ s.state
      → advance is_date s c id actor reason now ≡ ok s
  unfolding advance
  advance_kept s c id actor reason now e =
      let still : same_state (next_state_for s.state c) s.state ≡ true =
        rw e (same_state_refl s.state) in
      ground (arith, still)

  -- `advance` again from its result.
  advance-Advances_again :
      (r s : Ownership) (c : Command) (id actor : String) (reason : Option String) (now : String)
      → Advances r c id s
      → advance is_date s c id actor reason now ≡ ok s
  advance-Advances_again r s c id actor reason now (repeated t e) =
      advance_repeated s c id actor reason now (rw e t)
  advance-Advances_again r s c id actor reason now (kept _ t e) =
      advance_kept s c id actor reason now (rw e t)
  advance-Advances_again r s c id actor reason now (moved _ _ _ _ t _ _) =
      advance_repeated s c id actor reason now t

  -- A transition that succeeded can be sent again, with the same id, command and actor, at any
  -- later time and with any reason: it succeeds and returns the record that the first call
  -- returned.
  pub transition_ownership-replay :
      (current : Option RawOwnership) (command : Option String) (options : Options) (later : String)
      (reason : Option String) {s : Ownership}
      → transition_ownership is_date current command options ≡ ok s
      → transition_ownership is_date
          (some (raw_of s))
          command
          (record options { now = later; reason_code = reason })
        ≡ ok s
  transition_ownership-replay current command options later reason {s} e =
      let (r, c, id, actor, er, ec, ei, ea, steps) =
        transition_ownership-Advances is_date current command options e in
      unfold transition_ownership in
      rw
        (
          normalize_record_of_IsNormal is_date s
              (transition_ownership-IsNormal is_date current command options e),
          ec,
          ei,
          ea,
        )
        (advance-Advances_again r s c id actor reason later steps)

  -- The record after a request: one that throws leaves it as it was.
  abbrev pub answer : Ownership → Option String → Options → Ownership
  answer r command options = elim (transition_ownership is_date (some (raw_of r)) command options) [
    | ok s ↦ s
    | throws e ↦ r
  ]

  abbrev pub requests : Ownership → List (Option String × Options) → Ownership
  requests r [] = r
  requests r ((command, options) ∷ rest) = requests (answer r command options) rest

  transition_ownership-human_active :
      (r : Ownership) (command : Option String) (options : Options) {s : Ownership}
      → r.state ≡ human_active
      → command_of command ≢ ok release_to_agent
      → transition_ownership is_date (some (raw_of r)) command options ≡ ok s
      → s.state ≡ human_active
  transition_ownership-human_active r command options h k e =
      let (q, c, id, actor, er, ec, ei, ea, steps) =
        transition_ownership-Advances is_date (some (raw_of r)) command options e in
      Advances-human_active (normalize_record-state is_date r er ∙ h) (λ same. k (ec ∙ ap ok same))
        steps

  answer-human_active :
      (r : Ownership) (command : Option String) (options : Options)
      → r.state ≡ human_active
      → command_of command ≢ ok release_to_agent
      → (answer r command options).state ≡ human_active
  answer-human_active r command options h k =
      elim (Result-cases (transition_ownership is_date (some (raw_of r)) command options)) [
        | inl (s, e) ↦ rw (e, answer) (transition_ownership-human_active r command options h k e)
        | inr (m, e) ↦ rw (e, answer) h
      ]

  -- Once a person has a conversation, it stays with a person through any sequence of requests of
  -- which none is `release_to_agent`, those that throw included.
  pub requests-human_active :
      (r : Ownership) (rest : List (Option String × Options))
      → r.state ≡ human_active
      → All (λ q. command_of q.0 ≢ ok release_to_agent) rest
      → (requests r rest).state ≡ human_active
  requests-human_active r [] h k = h
  requests-human_active r ((command, options) ∷ rest) h (k, ks) =
      requests-human_active (answer r command options) rest
        (answer-human_active r command options h k) ks

  -- A successful transition that gives the conversation to the agent, from another state, is an
  -- approval, a release or a resumption; and from a person it is a release.
  pub transition_ownership-ai_active :
      (current : Option RawOwnership) (command : Option String) (options : Options)
      {r s : Ownership}
      → normalize_record is_date current ≡ ok r
      → r.state ≢ ai_active
      → transition_ownership is_date current command options ≡ ok s
      → s.state ≡ ai_active
      → (c : Command) × (command_of command ≡ ok c)
        × IsResumption c
        × (r.state ≢ human_active ⊎ c ≡ release_to_agent)
  transition_ownership-ai_active current command options {r} {s} er ne e a =
      let (q, c, id, actor, eq, ec, ei, ea, steps) =
        transition_ownership-Advances is_date current command options e in
      let same : q ≡ r = ok-injective (sym eq ∙ er) in
      let (resumes, from) =
        Advances-ai_active {r = r} ne (subst (λ x. Advances x c id s) same steps) a in
      (c, ec, resumes, from)
