-- ===== src/Common/Maps.antt =====
-- A JavaScript Map with text keys, in insertion order.
use text.Mathlib.TextEquality.{eq_iff}
use text.Mathlib.Text.{◌==◌}
use native.Mathlib.Omega.{arith}
use mathlib.Core.List.{List, [], ◌∷◌}
use mathlib.Core.Option.{Option, none, some}
use mathlib.Core.Path.{◌≡◌, refl}
use Prim.Native.String.{String}
use whatsapp_ai_supervisor.Common.Tests.{if◌then◌else◌}

abbrev pub Map {ℓ} : Type ℓ → Type ℓ
Map V = List (String × V)

module _ {ℓ} {V : Type ℓ} where
  -- `map.get(key)`
  unfoldable pub get : Map V → String → Option V
  get [] key = none
  get (entry ∷ entries) key = if entry.0 == key then some entry.1 else get entries key

  -- `map.set(key, value)`: a key that is there keeps its place.
  unfoldable pub put : Map V → String → V → Map V
  put [] key value = (key, value) ∷ []
  put (entry ∷ entries) key value =
      let later = put entries key value in
      if entry.0 == key then (key, value) ∷ entries else entry ∷ later

  -- `map.delete(key)`
  unfoldable pub remove : Map V → String → Map V
  remove [] key = []
  remove (entry ∷ entries) key =
      let later = remove entries key in if entry.0 == key then later else entry ∷ later

  pub get-put :
      (entries : Map V) (key other : String) (value : V)
      → get (put entries key value) other ≡ (if key == other then some value else get entries other)
  unfolding get put
  get-put [] key other value = refl
  get-put (entry ∷ entries) key other value = ground (
    arith,
    eq_iff key other,
    eq_iff entry.0 key,
    eq_iff entry.0 other,
    get-put entries key other value,
  )

  pub get-remove :
      (entries : Map V) (key other : String)
      → get (remove entries key) other ≡ (if key == other then none else get entries other)
  unfolding get remove
  get-remove [] key other = ground arith
  get-remove (entry ∷ entries) key other = ground (
    arith,
    eq_iff key other,
    eq_iff entry.0 key,
    eq_iff entry.0 other,
    get-remove entries key other,
  )
