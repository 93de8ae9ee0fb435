-- ===== src/Base/Dict.antt =====
-- Go's `map[string]V` that the program only reads and writes by key: a list of bindings, of which
-- the first for a key counts.
use Prim.Native.String.{String}
use mathlib.Core.Path.{◌≡◌, refl}
use mathlib.Core.Option.{Option, none, some}
use mathlib.Core.List.{List, [], ◌∷◌}
use native.Mathlib.Omega.{arith}
use text.Mathlib.Text.{◌==◌}
use text.Mathlib.TextEquality.{eq_iff}
use feeds_server.Base.Tests.{if◌then◌else◌}

abbrev pub Dict {ℓ} : Type ℓ → Type ℓ
Dict V = List (String × V)

module _ {ℓ} {V : Type ℓ} where
  -- `v, ok := m[key]`
  unfoldable pub lookup : String → Dict V → Option V
  lookup key [] = none
  lookup key (binding ∷ rest) =
      let later = lookup key rest in if binding.0 == key then some binding.1 else later

  -- `delete(m, key)`
  unfoldable pub remove : String → Dict V → Dict V
  remove key [] = []
  remove key (binding ∷ rest) =
      let later = remove key rest in if binding.0 == key then later else binding ∷ later

  -- `m[key] = value`
  unfoldable pub insert : String → V → Dict V → Dict V
  unfolding remove
  insert key value m = (key, value) ∷ remove key m

  pub lookup-remove :
      (key other : String) (m : Dict V)
      → lookup other (remove key m) ≡ (if key == other then none else lookup other m)
  unfolding lookup remove
  lookup-remove key other [] = ground arith
  lookup-remove key other (binding ∷ rest) = ground (
    arith,
    lookup-remove key other rest,
    eq_iff binding.0 key,
    eq_iff binding.0 other,
    eq_iff key other,
  )

  pub lookup-insert :
      (key other : String) (value : V) (m : Dict V)
      → lookup other (insert key value m) ≡ (if key == other then some value else lookup other m)
  unfolding lookup insert
  lookup-insert key other value m = ground (arith, lookup-remove key other m)

  pub lookup-nil : (key : String) → lookup key [] ≡ none
  unfolding lookup
  lookup-nil key = refl
