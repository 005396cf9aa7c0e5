-- ===== src/Common/Traces.antt =====
-- Code that calls services: the calls that were made, in order, and what came of it.
use mathlib.Core.Logic.{◌⊎◌, inl, inr}
use mathlib.Core.List.{List, [], ◌∷◌, ◌++◌}
use mathlib.Core.Path.{◌≡◌, refl}
use whatsapp_ai_supervisor.Common.Lists.{All, All-append}
use whatsapp_ai_supervisor.Common.Results.{OnOk, Result, ok, throws}

abbrev pub Trace : Type 0 → Type 0 → Type 0
Trace C A = List C × Result A

-- `await first`, then the rest; what was called before a throw has been called.
abbrev pub continue_run : {C B : Type 0} → List C → Trace C B → Trace C B
continue_run calls (later, result) = (calls ++ later, result)

abbrev pub then_run : {C A B : Type 0} → Trace C A → (A → Trace C B) → Trace C B
then_run (calls, throws e) rest = (calls, throws e)
then_run (calls, ok a) rest = continue_run calls (rest a)

-- One call, with its answer; and a step that calls nothing.
abbrev pub call : {C A : Type 0} → C → Result A → Trace C A
call c answer = (c ∷ [], answer)

abbrev pub quiet : {C A : Type 0} → Result A → Trace C A
quiet answer = ([], answer)

-- `try { first } catch { rest }`
abbrev pub or_run : {C A : Type 0} → Trace C A → Trace C A → Trace C A
or_run (calls, throws e) rest = continue_run calls rest
or_run (calls, ok a) rest = (calls, ok a)

module _ {C A B : Type 0} (P : C → Type 0) where
  pub then_run-All :
      (run : Trace C A) (rest : A → Trace C B)
      → All P run.0
      → ((a : A) → run.1 ≡ ok a → All P (rest a).0)
      → All P (then_run run rest).0
  then_run-All (calls, throws e) rest h k = h
  then_run-All (calls, ok a) rest h k = All-append P calls (rest a).0 h (k a refl)

module _ {C A B : Type 0} where
  -- A run that returned returned from both of its parts.
  pub then_run-ok_parts :
      (run : Trace C A) (rest : A → Trace C B) {b : B}
      → (then_run run rest).1 ≡ ok b
      → (a : A) × (run.1 ≡ ok a)
        × ((rest a).1 ≡ ok b)
        × ((then_run run rest).0 ≡ run.0 ++ (rest a).0)
  then_run-ok_parts (calls, throws m) rest e = cc
  then_run-ok_parts (calls, ok a) rest e = (a, refl, e, refl)

module _ {C A : Type 0} where
  -- A `try` that returned did so by its body or by its handler.
  pub or_run-ok_cases :
      (first rest : Trace C A) {a : A}
      → (or_run first rest).1 ≡ ok a
      → ((first.1 ≡ ok a) × ((or_run first rest).0 ≡ first.0))
        ⊎ ((rest.1 ≡ ok a) × ((or_run first rest).0 ≡ first.0 ++ rest.0))
  or_run-ok_cases (calls, throws m) rest e = inr (e, refl)
  or_run-ok_cases (calls, ok a) rest e = inl (e, refl)

-- What holds of the result, if there is one.
pub then_run-OnOk :
    {C A B : Type 0} (P : B → Type 0) (run : Trace C A) (rest : A → Trace C B)
    → ((a : A) → run.1 ≡ ok a → OnOk P (rest a).1)
    → OnOk P (then_run run rest).1
then_run-OnOk P (calls, throws e) rest h = tt
then_run-OnOk P (calls, ok a) rest h = h a refl
