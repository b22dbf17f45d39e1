-- ===== src/Bounds/Enclosing.antt =====
-- `isOuterLoopOf` decides which loops enclose which.
use atrox.Prelude.{
  ℕ, ◌⊎◌, zero, suc, ◌≤◌, ◌<◌, ◌≡◌, ◌≢◌, ◌↔◌, refl, ap, Bool, true, false, ◌==◌, ==→≡, ==→≢, ok,
  arith, Bool-cases, inl, inr,
}
use atrox.Bounds.Nests.{LoopNest, search_outer, is_outer_loop_of, climb, outermost}

module _ (nest : LoopNest) where
  open nest use {parent, depth}

  -- A loop properly encloses another.
  pub data Encloses (p : ℕ) : ℕ → Type 0 where
    direct : {q : ℕ} → parent q ≢ 0 → p ≡ parent q → Encloses p q
    further : {q : ℕ} → parent q ≢ 0 → Encloses p (parent q) → Encloses p q

  -- A loop that encloses another is less deep.
  pub Encloses-depth : {p q : ℕ} → Encloses p q → depth p < depth q
  Encloses-depth (direct {q} n e) =
      let d = nest.depth_parent q n in let a = ap depth e in omega arith
  Encloses-depth (further {q} n e) =
      let d = nest.depth_parent q n in let h = Encloses-depth e in omega arith

  outermost_free : (p q : ℕ) → (parent q == 0) ≡ true → Encloses p q → ⊥
  outermost_free p q y (direct n e) = n (==→≡ (parent q) 0 y)
  outermost_free p q y (further n e) = n (==→≡ (parent q) 0 y)

  inner : (p q : ℕ) → (p == parent q) ≡ false → Encloses p q → Encloses p (parent q)
  inner p q m (direct n e) = absurd (==→≢ p (parent q) m e)
  inner p q m (further n e) = e

  search-Encloses :
      (fuel p q : ℕ)
      → depth q ≤ fuel
      → (b : Bool) × (search_outer nest fuel p q ≡ ok b) × ((b ≡ true) ↔ Encloses p q)
  unfolding search_outer
  search-Encloses zero p q h = elim (Bool-cases (parent q == 0)) [
    | inl y ↦
        (false, rw (search_outer, y) refl, ((λ e. cc), (λ e. absurd (outermost_free p q y e))))
    | inr n ↦ let d = nest.depth_parent q (==→≢ (parent q) 0 n) in absurd (omega arith)
  ]
  search-Encloses (suc fuel) p q h = elim (Bool-cases (parent q == 0)) [
    | inl y ↦
        (false, rw (search_outer, y) refl, ((λ e. cc), (λ e. absurd (outermost_free p q y e))))
    | inr n ↦
        let d = nest.depth_parent q (==→≢ (parent q) 0 n) in
        elim (Bool-cases (p == parent q)) [
          | inl y ↦ (
            true,
            rw (search_outer, n, y) refl,
            ((λ e. direct (==→≢ (parent q) 0 n) (==→≡ p (parent q) y)), (λ e. refl)),
          )
          | inr m ↦
              let (b, e, iff) = search-Encloses fuel p (parent q) (omega arith) in
              (
                b,
                rw (search_outer, n, m) e,
                ((λ t. further (==→≢ (parent q) 0 n) (iff.0 t)), (λ t. iff.1 (inner p q m t))),
              )
        ]
  ]

  -- A loop encloses another exactly if `isOuterLoopOf` says so; its loop ends.
  pub is_outer_loop_of_iff :
      (p q : ℕ) → (b : Bool) × (is_outer_loop_of nest p q ≡ ok b) × ((b ≡ true) ↔ Encloses p q)
  unfolding is_outer_loop_of
  is_outer_loop_of_iff p q = search-Encloses (depth q) p q (omega arith)

  climb-Encloses :
      (fuel l : ℕ)
      → depth l ≤ fuel
      → (t : ℕ) × (climb nest fuel l ≡ ok t) × (parent t ≡ 0) × ((t ≡ l) ⊎ Encloses t l)
  unfolding climb
  climb-Encloses zero l h = elim (Bool-cases (parent l == 0)) [
    | inl y ↦ (l, rw (climb, y) refl, ==→≡ (parent l) 0 y, inl refl)
    | inr n ↦ let d = nest.depth_parent l (==→≢ (parent l) 0 n) in absurd (omega arith)
  ]
  climb-Encloses (suc fuel) l h = elim (Bool-cases (parent l == 0)) [
    | inl y ↦ (l, rw (climb, y) refl, ==→≡ (parent l) 0 y, inl refl)
    | inr n ↦
        let up = ==→≢ (parent l) 0 n in
        let d = nest.depth_parent l up in
        let (t, e, top, way) = climb-Encloses fuel (parent l) (omega arith) in
        (
          t,
          rw (climb, n) e,
          top,
          inr (elim way [ inl same ↦ direct up same | inr far ↦ further up far ]),
        )
  ]

  -- The walk to the outermost loop ends at a loop without parent that is the loop itself or encloses it.
  pub outermost_lem :
      (l : ℕ) → (t : ℕ) × (outermost nest l ≡ ok t) × (parent t ≡ 0) × ((t ≡ l) ⊎ Encloses t l)
  unfolding outermost
  outermost_lem l = climb-Encloses (depth l) l (omega arith)
