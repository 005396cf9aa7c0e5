-- ===== src/Permission/Ceiling.antt =====
-- src/domain/permission-engine.js, `applyModelCeiling`: the model may lower the authority that the
-- policy gives, and never raises it.
use native.Mathlib.Nat.{le_refl}
use whatsapp_ai_supervisor.Common.{
  Bool-cases, OnOk, OnOk-bind, Option, String, arith, false, inl, inr, is_empty, ok, or_else,
  text_of, ℕ, ◌≡◌, ◌≤◌,
}
use whatsapp_ai_supervisor.Permission.{
  Action, apply_model_ceiling, assert_autonomy_action, authority_rank, ceiling,
}

-- How much an action does on its own; `ignore` and `human` do nothing.
abbrev pub authority : Action → ℕ
authority a = or_else (authority_rank a) 0

-- `a` is within what the policy allows and what the model asked for.
pub record IsWithin (granted : Action) (requested : Option String) (a : Action) : Type 0 where
  pub policy : authority a ≤ authority granted
  pub model :
      is_empty (text_of requested) ≡ false
      → (r : Action) × (assert_autonomy_action requested ≡ ok r) × (authority a ≤ authority r)

ceiling-le :
    (granted requested : Action)
    → (authority (ceiling granted requested).0 ≤ authority granted)
      × (authority (ceiling granted requested).0 ≤ authority requested)
ceiling-le granted requested = (ground arith, ground arith)

pub apply_model_ceiling-IsWithin :
    (granted : Action) (requested : Option String)
    → OnOk (λ x. IsWithin granted requested x.0) (apply_model_ceiling granted requested)
unfolding apply_model_ceiling
apply_model_ceiling-IsWithin granted requested = elim (Bool-cases (is_empty (text_of requested))) [
  | inl blank ↦ rw blank (record { policy = le_refl _; model = λ e. ground (arith, blank) })
  | inr asked ↦ rw asked (
      OnOk-bind _ (assert_autonomy_action requested) _ λ r e. record {
        policy = (ceiling-le granted r).0;
        model = λ _. (r, e, (ceiling-le granted r).1);
      })
]
