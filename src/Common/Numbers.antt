-- ===== src/Common/Numbers.antt =====
-- What `Number(x)` can be. Every finite double is an integer multiple of 2 ^ -1074, so `finite n`
-- stands for n * 2 ^ -1074 and comparisons are exact; the two zeros, which no comparison tells
-- apart, are one value.
use mathlib.Core.Bool.{Bool, true, false, not}
use mathlib.Core.Option.{Option, none, some}
use native.Mathlib.Omega.{arith}
use mathlib.Core.Path.{◌≡◌}
use Prim.Native.Nat.{ℕ, ◌*◌, ◌^◌, ◌/◌, ◌%◌}
use whatsapp_ai_supervisor.Common.Tests.{eqb, if◌then◌else◌, ltb}

pub data Number : Type 0 where
  nan plus_infinity minus_infinity : Number
  -- a value that is not below zero, and one that is: minus (n + 1) units
  above : ℕ → Number
  below : ℕ → Number

-- `Number.isFinite(x)`
abbrev pub is_finite : Number → Bool
is_finite (above _) = true
is_finite (below _) = true
is_finite _ = false

-- `a < b`
abbrev pub less : Number → Number → Bool
less nan b = false
less a nan = false
less (above m) (above n) = ltb m n
less (above m) (below n) = false
less (below m) (above n) = true
less (below m) (below n) = ltb n m
less minus_infinity minus_infinity = false
less minus_infinity b = true
less a plus_infinity = not (elim a [ plus_infinity ↦ true | _ ↦ false ])
less a b = false

-- 1, and the double nearest to 0.8
unfoldable pub one : Number
one = above (2 ^ 1074)

unfoldable pub eight_tenths : Number
eight_tenths = above (7205759403792794 * 2 ^ 1021)

-- The units in 1.
unfoldable pub units : ℕ
units = 2 ^ 1074

-- `Number.isInteger(x) && x >= 0`, with the integer.
unfoldable pub as_natural : Number → Option ℕ
as_natural (above n) = if eqb (n % units) 0 then some (n / units) else none
as_natural _ = none

unfoldable pub of_natural : ℕ → Number
of_natural n = above (n * units)

pub as_natural-of_natural : (n : ℕ) → as_natural (of_natural n) ≡ some n
unfolding as_natural of_natural units
as_natural-of_natural n = ground arith

-- `x === n`
unfoldable pub same_number : Number → ℕ → Bool
same_number (above m) n = eqb m (n * units)
same_number _ n = false

-- `a === b`
abbrev pub equal : Number → Number → Bool
equal (above m) (above n) = eqb m n
equal (below m) (below n) = eqb m n
equal plus_infinity plus_infinity = true
equal minus_infinity minus_infinity = true
equal a b = false
