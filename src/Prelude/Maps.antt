-- ===== src/Prelude/Maps.antt =====
-- `std::map` over pointers: entries in the order of their keys.
use Prim.Native.Nat.{ℕ}
use mathlib.Core.Path.{◌≡◌, refl}
use mathlib.Core.Logic.{inl, inr}
use mathlib.Core.Option.{Option, none, some}
use mathlib.Core.List.{List, [], ◌∷◌}
use native.Mathlib.Omega.{arith}
use atrox.Prelude.Tests.{◌==◌, ltb, if◌then◌else◌, Option-cases, ==→≡}

module _ {ℓ} {V : Type ℓ} where
  -- `map.find(k)`.
  abbrev pub lookup : List (ℕ × V) → ℕ → Option V
  lookup [] k = none
  lookup ((j, v) ∷ m) k = if k == j then some v else lookup m k

  abbrev pub insert_sorted : List (ℕ × V) → ℕ → V → List (ℕ × V)
  insert_sorted [] k v = (k, v) ∷ []
  insert_sorted ((j, w) ∷ m) k v =
      if ltb k j then (k, v) ∷ (j, w) ∷ m else (j, w) ∷ insert_sorted m k v

  -- `map.emplace(k, v)`: an entry that is there stays.
  unfoldable pub emplace : List (ℕ × V) → ℕ → V → List (ℕ × V)
  emplace m k v = elim (lookup m k) [ none ↦ insert_sorted m k v | some _ ↦ m ]

  -- `map[k] = v` for an entry that is there.
  abbrev pub replace : List (ℕ × V) → ℕ → V → List (ℕ × V)
  replace [] k v = []
  replace ((j, w) ∷ m) k v = if k == j then (j, v) ∷ m else (j, w) ∷ replace m k v

  -- `map[k] = v`.
  unfoldable pub assign : List (ℕ × V) → ℕ → V → List (ℕ × V)
  assign m k v = elim (lookup m k) [ none ↦ insert_sorted m k v | some _ ↦ replace m k v ]

  lookup-insert_sorted :
      (m : List (ℕ × V)) (k : ℕ) (v : V) (j : ℕ)
      → lookup m k ≡ none
      → lookup (insert_sorted m k v) j ≡ (if j == k then some v else lookup m j)
  lookup-insert_sorted [] k v j h = refl
  lookup-insert_sorted ((i, w) ∷ m) k v j h = ground (arith, lookup-insert_sorted m k v j)

  lookup-replace :
      (m : List (ℕ × V)) (k : ℕ) (v w : V) (j : ℕ)
      → lookup m k ≡ some w
      → lookup (replace m k v) j ≡ (if j == k then some v else lookup m j)
  lookup-replace [] k v w j h = cc
  lookup-replace ((i, u) ∷ m) k v w j h = ground (arith, lookup-replace m k v w j)

  pub lookup-emplace :
      (m : List (ℕ × V)) (k : ℕ) (v : V) (j : ℕ)
      → lookup (emplace m k v) j
        ≡ elim (lookup m j) [ some w ↦ some w | none ↦ if j == k then some v else none ]
  unfolding emplace
  lookup-emplace m k v j = elim (Option-cases (lookup m k)) [
    | inl e ↦ ground (arith, lookup-insert_sorted m k v j, ==→≡ j k)
    | inr (w, e) ↦ ground (arith, ==→≡ j k)
  ]

  pub lookup-assign :
      (m : List (ℕ × V)) (k : ℕ) (v : V) (j : ℕ)
      → lookup (assign m k v) j ≡ (if j == k then some v else lookup m j)
  unfolding assign
  lookup-assign m k v j = elim (Option-cases (lookup m k)) [
    | inl e ↦ rw (e, assign) (lookup-insert_sorted m k v j e)
    | inr (w, e) ↦ rw (e, assign) (lookup-replace m k v w j e)
  ]
