-- ===== src/Gateway/Slots.antt =====
-- src/ai/model-gateway.js, `acquire` and `releaseHandle`: how many decisions run at once. A caller
-- is a number; the closures that were given out and not called yet are the list of their callers.
use whatsapp_ai_supervisor.Common.{
  Bool, List, [], any, arith, eqb, false, if-holds, if◌then◌else◌, inl, inr, length, ltb, refl,
  true, ℕ, ◌++◌, ◌+◌, ◌-◌, ◌∷◌, ◌≡◌, ◌≤◌, ◌⊎◌,
}

pub record Slots : Type 0 where
  pub active : ℕ
  pub waiters : List ℕ
  pub holders : List ℕ

abbrev pub no_slots : Slots
no_slots = record { active = 0; waiters = []; holders = [] }

-- `indexOf` and `splice`: the first occurrence goes.
unfoldable pub remove_first : ℕ → List ℕ → List ℕ
remove_first caller [] = []
remove_first caller (x ∷ xs) =
    let rest = remove_first caller xs in if eqb x caller then xs else x ∷ rest

unfoldable pub acquire : ℕ → Bool → ℕ → Slots → Slots
acquire max_concurrent aborted caller slots =
    if aborted
    then slots
    else if ltb slots.active max_concurrent
    then record slots { active = slots.active + 1; holders = caller ∷ slots.holders }
    else record slots { waiters = slots.waiters ++ caller ∷ [] }

-- `onAbort` of a waiter.
unfoldable pub abandon : ℕ → Slots → Slots
abandon caller slots = record slots { waiters = remove_first caller slots.waiters }

-- `waiter?.resolve()` after the shift.
unfoldable pub wake : Slots → Slots
wake slots = elim (slots.waiters) [
  | [] ↦ slots
  | caller ∷ rest ↦ record {
    active = slots.active + 1;
    waiters = rest;
    holders = caller ∷ slots.holders;
  }
]

abbrev pub holds : ℕ → List ℕ → Bool
holds caller callers = any (eqb caller) callers

-- The closure of a caller; a second call of it returns at once.
unfoldable pub release : ℕ → Slots → Slots
release caller slots =
    if holds caller slots.holders
    then wake
        (record slots { active = slots.active - 1; holders = remove_first caller slots.holders })
    else slots

-- What can happen to the slots, in any order.
pub data Step (max_concurrent : ℕ) : Slots → Slots → Type 0 where
  acquires :
      (aborted : Bool) (caller : ℕ) (slots : Slots)
      → Step max_concurrent slots (acquire max_concurrent aborted caller slots)
  abandons : (caller : ℕ) (slots : Slots) → Step max_concurrent slots (abandon caller slots)
  releases : (caller : ℕ) (slots : Slots) → Step max_concurrent slots (release caller slots)

pub data Reachable (max_concurrent : ℕ) : Slots → Type 0 where
  start : Reachable max_concurrent no_slots
  next :
      {before after : Slots}
      → Reachable max_concurrent before
      → Step max_concurrent before after
      → Reachable max_concurrent after

-- The count is that of the closures given out, it is within the limit, and callers wait only when
-- it has reached the limit.
pub record IsSound (max_concurrent : ℕ) (slots : Slots) : Type 0 where
  pub counted : slots.active ≡ length slots.holders
  pub bounded : slots.active ≤ max_concurrent
  pub full : (slots.waiters ≡ []) ⊎ (slots.active ≡ max_concurrent)

pub length-remove_first :
    (caller : ℕ) (callers : List ℕ)
    → holds caller callers ≡ true
    → length (remove_first caller callers) + 1 ≡ length callers
unfolding remove_first any
length-remove_first caller [] h = ground arith
length-remove_first caller (x ∷ xs) h = ground (arith, length-remove_first caller xs)

pub acquire-IsSound :
    (max_concurrent : ℕ) (aborted : Bool) (caller : ℕ) (slots : Slots)
    → IsSound max_concurrent slots
    → IsSound max_concurrent (acquire max_concurrent aborted caller slots)
unfolding acquire
acquire-IsSound max_concurrent true caller slots h = h
acquire-IsSound max_concurrent false caller slots h =
    if-holds (IsSound max_concurrent) (ltb slots.active max_concurrent)
      (λ free. record {
        counted = ground (arith, h.counted);
        bounded = ground arith;
        full = elim (h.full) [ inl idle ↦ inl idle | inr busy ↦ absurd (ground arith) ];
      })
      (λ none_free. record {
        counted = h.counted;
        bounded = h.bounded;
        full = inr (ground (arith, h.bounded));
      })

pub abandon-IsSound :
    (max_concurrent caller : ℕ) (slots : Slots)
    → IsSound max_concurrent slots
    → IsSound max_concurrent (abandon caller slots)
unfolding abandon remove_first
abandon-IsSound max_concurrent caller slots h = record {
  counted = h.counted;
  bounded = h.bounded;
  full = elim (h.full) [ inl idle ↦ inl (ground arith) | inr busy ↦ inr busy ];
}

pub wake-IsSound :
    (max_concurrent active : ℕ) (waiters holders : List ℕ)
    → active ≡ length holders
    → active + 1 ≤ max_concurrent
    → (waiters ≡ []) ⊎ (active + 1 ≡ max_concurrent)
    → IsSound max_concurrent
        (wake (record { active = active; waiters = waiters; holders = holders }))
unfolding wake
wake-IsSound max_concurrent active [] holders e h full = record {
  counted = e;
  bounded = omega arith;
  full = inl refl;
}
wake-IsSound max_concurrent active (caller ∷ rest) holders e h full = record {
  counted = omega arith;
  bounded = h;
  full = elim full [ inl idle ↦ cc | inr busy ↦ inr busy ];
}

pub release-IsSound :
    (max_concurrent caller : ℕ) (slots : Slots)
    → IsSound max_concurrent slots
    → IsSound max_concurrent (release caller slots)
unfolding release
release-IsSound max_concurrent caller slots h =
    if-holds (IsSound max_concurrent) (holds caller slots.holders)
      (λ held.
        let one_less = length-remove_first caller slots.holders held in
        let counted = h.counted in
        let bounded = h.bounded in
        wake-IsSound max_concurrent (slots.active - 1) slots.waiters
          (remove_first caller slots.holders) (omega arith) (omega arith)
          (elim (h.full) [ inl idle ↦ inl idle | inr busy ↦ inr (omega arith) ]))
      (λ _. h)

pub Step-IsSound :
    (max_concurrent : ℕ) {before after : Slots}
    → IsSound max_concurrent before
    → Step max_concurrent before after
    → IsSound max_concurrent after
Step-IsSound max_concurrent h (acquires aborted caller slots) =
    acquire-IsSound max_concurrent aborted caller slots h
Step-IsSound max_concurrent h (abandons caller slots) =
    abandon-IsSound max_concurrent caller slots h
Step-IsSound max_concurrent h (releases caller slots) =
    release-IsSound max_concurrent caller slots h

-- However callers acquire, give up waiting and release, in any order and however often, the count of
-- active decisions is that of the closures given out and not called, it never passes the limit, and
-- callers wait only while it has reached the limit.
pub Reachable-IsSound :
    (max_concurrent : ℕ) (slots : Slots)
    → Reachable max_concurrent slots
    → IsSound max_concurrent slots
Reachable-IsSound max_concurrent _ start = record {
  counted = refl;
  bounded = omega arith;
  full = inl refl;
}
Reachable-IsSound max_concurrent _ (next {before} reached step) =
    Step-IsSound max_concurrent (Reachable-IsSound max_concurrent before reached) step
