-- ===== src/Ownership/Tests.antt =====
-- Runs of conversation-ownership.js.
use whatsapp_ai_supervisor.Common.Numbers.{as_natural, of_natural, units}
use whatsapp_ai_supervisor.Common.{
  Bool, String, [], is_space, none, ok, refl, some, trim, true, ◌∷◌, ◌≡◌, ◌≢◌, ◌⊎◌,
}
use whatsapp_ai_supervisor.Ownership.{
  Command, Options, Ownership, RawOwnership, advance, ai_active, command_of, find_command,
  find_state, human_active, next_state_for, normalize_record, nullable_string, raw_of,
  release_to_agent, required_string, transition_ownership,
}
use whatsapp_ai_supervisor.Ownership.Normal.{IsNormal, normalize_record_of_IsNormal}
use whatsapp_ai_supervisor.Ownership.Laws.{
  Advances, transition_ownership-Advances, transition_ownership-IsNormal,
}
use whatsapp_ai_supervisor.Ownership.Safety.{
  IsResumption, requests, requests-human_active, transition_ownership-ai_active,
}

abbrev any_date : String → Bool
any_date s = true

abbrev fresh : RawOwnership
fresh = record {
  tenant_id = some " shop ";
  conversation_id = some "whatsapp:1";
  state = some "AI_ACTIVE";
  version = of_natural 4;
  changed_at = some "2026-01-01";
  changed_by = some "system";
  reason_code = none;
  transition_id = none;
}

abbrev taken : Ownership
taken = record {
  tenant_id = "shop";
  conversation_id = "whatsapp:1";
  state = human_active;
  version = 5;
  changed_at = "2026-01-02";
  changed_by = "bob";
  reason_code = none;
  transition_id = some "t1";
}

abbrev returned : Ownership
returned = record taken {
  state = ai_active;
  version = 6;
  changed_at = "2026-01-03";
  transition_id = some "t2";
}

abbrev by_bob : String → String → Options
by_bob id now = record {
  transition_id = some id;
  actor = some "bob ";
  reason_code = none;
  now = now;
}

-- What a run computes with.
code : Unit {0}
unfolding transition_ownership normalize_record required_string nullable_string trim is_space
    find_state find_command command_of advance next_state_for as_natural of_natural units
code = tt

takeover :
    transition_ownership any_date (some fresh) (some "manual_takeover") (by_bob "t1" "2026-01-02")
    ≡ ok taken
unfolding code
takeover = refl

handback :
    transition_ownership any_date
      (some (raw_of taken))
      (some "release_to_agent")
      (by_bob "t2" "2026-01-03")
    ≡ ok returned
unfolding code
handback = refl

taken-IsNormal : IsNormal any_date taken
taken-IsNormal =
    transition_ownership-IsNormal any_date (some fresh) (some "manual_takeover")
      (by_bob "t1" "2026-01-02") takeover

taken_by_text : command_of (some "request_handoff") ≢ ok release_to_agent
unfolding code
taken_by_text e = cc

transition_ownership-Advances_example :
    (r : Ownership) × (c : Command) × (id actor : String) × (normalize_record any_date (some fresh)
      ≡ ok r)
    × (command_of (some "manual_takeover") ≡ ok c)
    × (required_string (some "t1") "transition_id" ≡ ok id)
    × (required_string (some "bob ") "actor" ≡ ok actor)
    × Advances r c id taken
transition_ownership-Advances_example =
    transition_ownership-Advances any_date (some fresh) (some "manual_takeover")
      (by_bob "t1" "2026-01-02") takeover

requests-human_active_example :
    (requests any_date taken ((some "request_handoff", by_bob "t3" "2026-01-04") ∷ [])).state
    ≡ human_active
requests-human_active_example =
    requests-human_active any_date taken ((some "request_handoff", by_bob "t3" "2026-01-04") ∷ [])
      refl (taken_by_text, tt)

transition_ownership-ai_active_example :
    (c : Command) × (command_of (some "release_to_agent") ≡ ok c)
    × IsResumption c
    × (taken.state ≢ human_active ⊎ c ≡ release_to_agent)
transition_ownership-ai_active_example =
    transition_ownership-ai_active any_date (some (raw_of taken)) (some "release_to_agent")
      (by_bob "t2" "2026-01-03") (normalize_record_of_IsNormal any_date taken taken-IsNormal)
      (λ e. cc) handback refl
