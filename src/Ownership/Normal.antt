-- ===== src/Ownership/Normal.antt =====
-- src/domain/conversation-ownership.js, `normalizeRecord`: what a normal record is.
use whatsapp_ai_supervisor.Common.{
  Bool, OnOk, OnOk-ok, Option, String, arith, false, is_empty, is_space, none, ok, refl, some,
  text_of, trim, trim_idem, true, ◌≡◌,
}
use whatsapp_ai_supervisor.Common.Numbers.{as_natural, as_natural-of_natural}
use whatsapp_ai_supervisor.Ownership.{
  Ownership, RawOwnership, State, ai_active, ai_paused, find_state, human_active, human_requested,
  normalize_record, nullable_string, raw_of, required_string, state_text, waiting_approval,
}

-- A text that trimming leaves alone, and that is not empty.
abbrev pub IsTrimmed : String → Type 0
IsTrimmed s = (trim s ≡ s) × (is_empty s ≡ false)

abbrev pub IsTrimmedOption : Option String → Type 0
IsTrimmedOption none = Unit {0}
IsTrimmedOption (some s) = IsTrimmed s

pub record IsNormal (is_date : String → Bool) (r : Ownership) : Type 0 where
  pub tenant : IsTrimmed r.tenant_id
  pub conversation : IsTrimmed r.conversation_id
  pub at : IsTrimmed r.changed_at
  pub by : IsTrimmed r.changed_by
  pub reason : IsTrimmedOption r.reason_code
  pub transition : IsTrimmedOption r.transition_id
  pub dated : is_date r.changed_at ≡ true

pub required_string-IsTrimmed :
    (value : Option String) (field : String) → OnOk IsTrimmed (required_string value field)
unfolding required_string
required_string-IsTrimmed value field = ground (arith, trim_idem (text_of value))

pub required_string-trim :
    (value : Option String) (field : String) {s : String}
    → required_string value field ≡ ok s
    → s ≡ trim (text_of value)
unfolding required_string
required_string-trim value field e = ground arith

pub required_string_of_IsTrimmed :
    (s field : String) → IsTrimmed s → required_string (some s) field ≡ ok s
unfolding required_string
required_string_of_IsTrimmed s field (t, e) = rw (t, e)

pub nullable_string-IsTrimmed :
    (value : Option String) (field : String) → OnOk IsTrimmedOption (nullable_string value field)
unfolding nullable_string
nullable_string-IsTrimmed none field = tt
nullable_string-IsTrimmed (some value) field =
    ground (arith, required_string-IsTrimmed (some value) field)

pub nullable_string_of_IsTrimmed :
    (s : Option String) (field : String) → IsTrimmedOption s → nullable_string s field ≡ ok s
unfolding nullable_string
nullable_string_of_IsTrimmed none field h = refl
nullable_string_of_IsTrimmed (some s) field h = rw (required_string_of_IsTrimmed s field h)

pub find_state-state_text : (s : State) → find_state (state_text s) ≡ some s
unfolding find_state
find_state-state_text ai_active = refl
find_state-state_text waiting_approval = refl
find_state-state_text human_requested = refl
find_state-state_text human_active = refl
find_state-state_text ai_paused = refl

pub required_string-state_text :
    (s : State) → required_string (some (state_text s)) "state" ≡ ok (state_text s)
unfolding required_string trim is_space
required_string-state_text ai_active = refl
required_string-state_text waiting_approval = refl
required_string-state_text human_requested = refl
required_string-state_text human_active = refl
required_string-state_text ai_paused = refl

module _ (is_date : String → Bool) where
  pub normalize_record-IsNormal :
      (raw : Option RawOwnership) → OnOk (IsNormal is_date) (normalize_record is_date raw)
  unfolding normalize_record
  normalize_record-IsNormal none = tt
  normalize_record-IsNormal (some raw) = ground (
    arith,
    required_string-IsTrimmed raw.tenant_id "tenant_id",
    required_string-IsTrimmed raw.conversation_id "conversation_id",
    required_string-IsTrimmed raw.changed_at "changed_at",
    required_string-IsTrimmed raw.changed_by "changed_by",
    nullable_string-IsTrimmed raw.reason_code "reason_code",
    nullable_string-IsTrimmed raw.transition_id "transition_id",
  )

  pub normalize_record_of_IsNormal :
      (r : Ownership) → IsNormal is_date r → normalize_record is_date (some (raw_of r)) ≡ ok r
  unfolding normalize_record
  normalize_record_of_IsNormal r h = rw (
    required_string_of_IsTrimmed r.tenant_id "tenant_id" h.tenant,
    required_string_of_IsTrimmed r.conversation_id "conversation_id" h.conversation,
    required_string-state_text r.state,
    required_string_of_IsTrimmed r.changed_at "changed_at" h.at,
    required_string_of_IsTrimmed r.changed_by "changed_by" h.by,
    nullable_string_of_IsTrimmed r.reason_code "reason_code" h.reason,
    nullable_string_of_IsTrimmed r.transition_id "transition_id" h.transition,
    find_state-state_text r.state,
    as_natural-of_natural r.version,
    h.dated,
  )

  -- Where the fields of a normal record come from.
  pub record Reads (raw : RawOwnership) (s : Ownership) : Type 0 where
    pub tenant : required_string raw.tenant_id "tenant_id" ≡ ok s.tenant_id
    pub conversation : required_string raw.conversation_id "conversation_id" ≡ ok s.conversation_id
    pub at : required_string raw.changed_at "changed_at" ≡ ok s.changed_at
    pub by : required_string raw.changed_by "changed_by" ≡ ok s.changed_by
    pub reason : nullable_string raw.reason_code "reason_code" ≡ ok s.reason_code
    pub transition : nullable_string raw.transition_id "transition_id" ≡ ok s.transition_id
    pub version : as_natural raw.version ≡ some s.version
    pub state : OnOk (λ name. find_state name ≡ some s.state) (required_string raw.state "state")
    pub dated : is_date s.changed_at ≡ true

  pub normalize_record-Reads :
      (raw : RawOwnership) → OnOk (Reads raw) (normalize_record is_date (some raw))
  unfolding normalize_record
  normalize_record-Reads raw = ground arith

  pub normalize_record-state :
      (r : Ownership) {q : Ownership}
      → normalize_record is_date (some (raw_of r)) ≡ ok q
      → q.state ≡ r.state
  normalize_record-state r {q} e =
      let reads =
        OnOk-ok (Reads (raw_of r)) (normalize_record is_date (some (raw_of r)))
          (normalize_record-Reads (raw_of r)) e in
      ground (arith, reads.state, required_string-state_text r.state, find_state-state_text r.state)

  -- The names that a normal record takes from the record that it was read from.
  pub normalize_record-names :
      (raw : RawOwnership) {s : Ownership}
      → normalize_record is_date (some raw) ≡ ok s
      → (s.tenant_id ≡ trim (text_of raw.tenant_id))
        × (s.conversation_id ≡ trim (text_of raw.conversation_id))
  normalize_record-names raw e =
      let reads =
        OnOk-ok (Reads raw) (normalize_record is_date (some raw)) (normalize_record-Reads raw) e in
      (
        required_string-trim raw.tenant_id "tenant_id" reads.tenant,
        required_string-trim raw.conversation_id "conversation_id" reads.conversation,
      )
