-- ===== src/Prelude/Maps.antt =====
-- Go's `map` as an association list: the order of the entries stands for the order in which a
-- `range` loop happens to visit them.
use mathlib.Core.Path.{◌≡◌, refl}
use mathlib.Core.Option.{Option, none, some}
use mathlib.Core.List.{List, [], ◌∷◌}
use native.Mathlib.Omega.{arith}
use guble.Prelude.Tests.{Comparable, ◌≟◌, if◌then◌else◌}

abbrev pub Dict {ℓ κ} : Type ℓ → Type κ → Type (ℓ ⊔ κ)
Dict K V = List (K × V)

module _ {κ ν} {K : Type κ} {V : Type ν} ⦃c : Comparable K⦄ where
  -- v, ok := m[key]
  unfoldable pub find : Dict K V → K → Option V
  find [] key = none
  find ((k, v) ∷ rest) key = let further = find rest key in if k ≟ key then some v else further

  -- m[key] = new
  unfoldable pub put : Dict K V → K → V → Dict K V
  put [] key new = (key, new) ∷ []
  put ((k, v) ∷ rest) key new =
      let further = put rest key new in if k ≟ key then (k, new) ∷ rest else (k, v) ∷ further

  -- delete(m, key)
  unfoldable pub remove : Dict K V → K → Dict K V
  remove [] key = []
  remove ((k, v) ∷ rest) key =
      let further = remove rest key in if k ≟ key then further else (k, v) ∷ further

  pub find-put :
      (m : Dict K V) (key : K) (new : V) (other : K)
      → find (put m key new) other ≡ (if key ≟ other then some new else find m other)
  unfolding find put
  find-put [] key new other = refl
  find-put ((k, v) ∷ rest) key new other = ground (
    arith,
    find-put rest key new other,
    c.same_iff k key,
    c.same_iff key other,
    c.same_iff k other,
  )

  pub find-remove :
      (m : Dict K V) (key other : K)
      → find (remove m key) other ≡ (if key ≟ other then none else find m other)
  unfolding find remove
  find-remove [] key other = ground arith
  find-remove ((k, v) ∷ rest) key other = ground (
    arith,
    find-remove rest key other,
    c.same_iff k key,
    c.same_iff key other,
    c.same_iff k other,
  )
