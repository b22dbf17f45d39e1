-- ===== src/Extractor/Accesses.antt =====
-- The loop of `cloneCodeRegion` that flattens the array accesses of the clones, which an option turns on. A clone has the
-- number of its original in the value map, which follows a clone that is replaced, so the state is what the clone of
-- each element pointer is now.
pub mod Flat
pub mod Tests
use atrox.Prelude.{
  ℕ, zero, suc, ◌*◌, ◌+◌, ◌%◌, ◌≡◌, ◌≢◌, refl, ap, sym, ◌∙◌, Bool, true, false, if◌then◌else◌, ◌&&◌,
  not, lookup, assign, lookup-assign, List, [], ◌∷◌, map, length, contains, any, Option, some, none,
  ◌==◌, ==→≡, ==_refl, Bool-cases, Option-cases, inl, inr, Result, Error, ok, err, ◌>>=◌, bind-ok,
  Result-cases, All, arith,
}
use atrox.Arrays.Types.{IrType, other, pointer, array}
use atrox.Arrays.Shapes.{arrays, IsScalar}
use atrox.Arrays.Flatten.{u64_mod, Expr, Gep, Flattened, flatten_indices}
use atrox.Arrays.Dots.{gep_offset}
use atrox.Arrays.Offsets.{eval, flatten_offset}
use atrox.Extractor.Regions.{Ir}

-- The element pointer that takes the place of a clone.
unfoldable pub pointee_of : IrType → Option IrType
pointee_of (pointer t) = some t
pointee_of (other k) = none
pointee_of (array n t) = none

unfoldable pub as_gep : Flattened → Gep
unfolding pointee_of
as_gep f = record { pointee = pointee_of f.cast; first = f.index; rest = [] }

unfoldable pub replace_gep : (ℕ → Gep) → ℕ → Option Flattened → ℕ → Gep
unfolding as_gep
replace_gep geps v none = geps
replace_gep geps v (some f) = λ w. if w == v then as_gep f else geps w

-- `CloneBasicBlock` enters each instruction of a block in the value map.
unfoldable pub enter_insts : List (ℕ × ℕ) → List ℕ → List (ℕ × ℕ)
enter_insts vmap [] = vmap
enter_insts vmap (i ∷ is') = enter_insts (assign vmap i i) is'

module _ (ir : Ir) where
  -- The loop that clones the blocks.
  unfoldable pub value_map : List (ℕ × ℕ) → List ℕ → List (ℕ × ℕ)
  unfolding enter_insts
  value_map vmap [] = vmap
  value_map vmap (b ∷ bs) = value_map (enter_insts vmap (ir.instructions b)) bs

  lookup-enter_insts :
      (vmap : List (ℕ × ℕ)) (is' : List ℕ) (v : ℕ)
      → lookup (enter_insts vmap is') v ≡ (if contains is' v then some v else lookup vmap v)
  unfolding enter_insts
  lookup-enter_insts vmap [] v = refl
  lookup-enter_insts vmap (i ∷ is') v =
      ground (arith, lookup-enter_insts (assign vmap i i) is' v, lookup-assign vmap i i v, ==→≡ v i)

  -- The value map has the instructions of the blocks.
  pub lookup-value_map :
      (vmap : List (ℕ × ℕ)) (bs : List ℕ) (v : ℕ)
      → lookup (value_map vmap bs) v
        ≡ (if any (λ b. contains (ir.instructions b) v) bs then some v else lookup vmap v)
  unfolding value_map
  lookup-value_map vmap [] v = refl
  lookup-value_map vmap (b ∷ bs) v = ground (
    arith,
    lookup-value_map (enter_insts vmap (ir.instructions b)) bs v,
    lookup-enter_insts vmap (ir.instructions b) v,
  )

module _ (ir : Ir) (blocks : List ℕ) where
  -- One access, by its pointer operand. `operator[]` gives the null pointer for what has no entry.
  unfoldable pub flatten_access : Option ℕ → (ℕ → Gep) → Result (ℕ → Gep)
  unfolding value_map flatten_indices replace_gep
  flatten_access none geps = ok geps
  flatten_access (some v) geps =
      if ir.is_gep v
      then elim (lookup (value_map ir [] blocks) v) as (λ x. Result (ℕ → Gep)) [
        | none ↦ err Error.undefined
        | some w ↦ flatten_indices (some (geps w)) >>= λ r. ok (replace_gep geps w r)
      ]
      else ok geps

  unfoldable pub flatten_accesses : List (Option ℕ) → (ℕ → Gep) → Result (ℕ → Gep)
  unfolding flatten_access
  flatten_accesses [] geps = ok geps
  flatten_accesses (a ∷ as') geps = flatten_access a geps >>= λ g. flatten_accesses as' g

  -- An access through an element pointer that no block of the region has.
  unfoldable pub is_outside : Option ℕ → Bool
  is_outside none = false
  is_outside (some v) = ir.is_gep v && not (any (λ b. contains (ir.instructions b) v) blocks)

  pub inside_entry :
      (v : ℕ)
      → ir.is_gep v ≡ true
      → is_outside (some v) ≡ false
      → lookup (value_map ir [] blocks) v ≡ some v
  unfolding is_outside
  inside_entry v gep inside = ground (arith, lookup-value_map ir [] blocks v)

  outside_err :
      (a : Option ℕ) (geps : ℕ → Gep)
      → is_outside a ≡ true
      → flatten_access a geps ≡ err Error.undefined
  unfolding flatten_access is_outside
  outside_err none geps h = cc
  outside_err (some v) geps h =
      let gep : ir.is_gep v ≡ true = ground arith in
      let missing : lookup (value_map ir [] blocks) v ≡ none =
        ground (arith, lookup-value_map ir [] blocks v) in
      rw (gep, missing, flatten_access) refl

  -- Where the pointer of some access is an element pointer that stands outside of the region, such as one that was
  -- hoisted out of the loop, the option makes the extraction go wrong: it has no clone.
  pub flatten_accesses_err :
      (as' : List (Option ℕ)) (geps : ℕ → Gep)
      → any is_outside as' ≡ true
      → (e : Error) × (flatten_accesses as' geps ≡ err e)
  unfolding flatten_accesses
  flatten_accesses_err [] geps h = cc
  flatten_accesses_err (a ∷ as') geps h = elim (Result-cases (flatten_access a geps)) [
    | inl (e, x) ↦ (e, rw x refl)
    | inr (g, x) ↦
        let later : any is_outside as' ≡ true = elim (Bool-cases (is_outside a)) [
          | inl out ↦ absurd (cc (x, outside_err a geps out))
          | inr off ↦ ground (arith, h, off)
        ] in
        let (e, y) = flatten_accesses_err as' g later in (e, rw x y)
  ]
