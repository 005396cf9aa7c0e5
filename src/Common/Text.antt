-- ===== src/Common/Text.antt =====
-- `String.prototype.trim` over code points.
use text.Mathlib.TextLemmas.{cons-append, nil-append}
use text.Mathlib.TextPositions.{eq_refl}
use text.Mathlib.Text.{◌==◌, starts_with}
use native.Mathlib.Omega.{arith}
use mathlib.Core.Option.{Option, none, some}
use mathlib.Core.Bool.{Bool, true, false, ◌&&◌, ◌||◌}
use mathlib.Core.Path.{◌≡◌, refl}
use Prim.Native.String.{String, [], ◌∷◌, ◌++◌}
use Prim.Native.Char.{Char, code}
use whatsapp_ai_supervisor.Common.Tests.{eqb, if◌then◌else◌, leb}

-- White space and line terminators of ECMAScript.
unfoldable pub is_space : Char → Bool
is_space c =
    let n = code c in
    leb 9 n && leb n 13
    || eqb n 32
    || eqb n 160
    || eqb n 5760
    || leb 8192 n && leb n 8202
    || eqb n 8232
    || eqb n 8233
    || eqb n 8239
    || eqb n 8287
    || eqb n 12288
    || eqb n 65279

-- `String(value ?? '').trim()`, where `none` is null or undefined and `some` the text of a value.
abbrev pub text_of : Option String → String
text_of none = []
text_of (some s) = s

-- `a === b` for a text that may be null.
abbrev pub is_text : Option String → String → Bool
is_text none b = false
is_text (some a) b = a == b

-- `a === b`, where either may be undefined.
abbrev pub same_text : Option String → Option String → Bool
same_text none none = true
same_text none (some b) = false
same_text (some a) none = false
same_text (some a) (some b) = a == b

abbrev pub is_empty : String → Bool
is_empty [] = true
is_empty (c ∷ s) = false

unfoldable pub trim_start : String → String
unfolding is_space
trim_start [] = []
trim_start (c ∷ s) = if is_space c then trim_start s else c ∷ s

unfoldable pub trim_end : String → String
unfolding is_space
trim_end [] = []
trim_end (c ∷ s) = let rest = trim_end s in if is_space c && is_empty rest then [] else c ∷ rest

unfoldable pub trim : String → String
unfolding trim_start trim_end
trim s = trim_end (trim_start s)

trim_end_idem : (s : String) → trim_end (trim_end s) ≡ trim_end s
unfolding trim_end
trim_end_idem [] = refl
trim_end_idem (c ∷ s) = ground (arith, trim_end_idem s)

-- A text that begins with no space keeps its beginning when its end is cut.
trim_start-trim_end : (s : String) → trim_start (trim_end (trim_start s)) ≡ trim_end (trim_start s)
unfolding trim_start trim_end
trim_start-trim_end [] = refl
trim_start-trim_end (c ∷ s) = ground (arith, trim_start-trim_end s)

pub trim_idem : (s : String) → trim (trim s) ≡ trim s
unfolding trim
trim_idem s = rw (trim_start-trim_end s) (trim_end_idem (trim_start s))

trim_both_ends : trim "  two words " ≡ "two words"
unfolding trim is_space
trim_both_ends = refl

pub some-text_of :
    (value : Option String) → is_empty (trim (text_of value)) ≡ false → value ≡ some (text_of value)
unfolding trim
some-text_of none e = cc
some-text_of (some s) e = refl

-- `s.endsWith(suffix)`
unfoldable pub ends_with : String → String → Bool
ends_with [] suffix = [] == suffix
ends_with (c ∷ s) suffix = (c ∷ s) == suffix || ends_with s suffix

ends_with_refl : (s : String) → ends_with s s ≡ true
unfolding ends_with
ends_with_refl [] = refl
ends_with_refl (c ∷ s) = ground (arith, eq_refl (c ∷ s))

pub ends_with-append : (s suffix : String) → ends_with (s ++ suffix) suffix ≡ true
unfolding ends_with
ends_with-append [] suffix = rw (nil-append suffix) (ends_with_refl suffix)
ends_with-append (c ∷ s) suffix =
    rw (cons-append c s suffix) (ground (arith, ends_with-append s suffix))

-- `s.includes(part)`
unfoldable pub includes : String → String → Bool
includes [] part = is_empty part
includes (c ∷ s) part = starts_with (c ∷ s) part || includes s part
