-- ===== src/Base/Assoc.antt =====
-- Go maps as association lists: a missing key reads as `none`.
use mathlib.Core.Path.{◌≡◌, refl}
use mathlib.Core.List.{List, [], ◌∷◌}
use mathlib.Core.Option.{Option, none, some}
use native.Mathlib.Omega.{arith}
use porte.Base.Tests.{if◌then◌else◌}
use porte.Base.Text.{Eq, ◌==◌, beq_iff}

module _ {ℓ κ} {K : Type ℓ} {V : Type κ} ⦃e : Eq K⦄ where
  -- `m[key] = value`: the entry is replaced in its place, or added at the end.
  unfoldable pub insert : List (K × V) → K → V → List (K × V)
  insert [] key value = (key, value) ∷ []
  insert ((at, old) ∷ rest) key value =
      if at == key then (at, value) ∷ rest else (at, old) ∷ insert rest key value

  -- `value, ok := m[key]`
  unfoldable pub lookup : List (K × V) → K → Option V
  lookup [] key = none
  lookup ((at, value) ∷ rest) key = if at == key then some value else lookup rest key

  pub lookup-insert :
      (m : List (K × V)) (key other : K) (value : V)
      → lookup (insert m key value) other ≡ (if key == other then some value else lookup m other)
  unfolding insert lookup
  lookup-insert [] key other value = refl
  lookup-insert ((at, old) ∷ rest) key other value = ground (
    arith,
    lookup-insert rest key other value,
    beq_iff at key,
    beq_iff at other,
    beq_iff key other,
  )
