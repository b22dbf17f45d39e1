-- ===== src/Bounds/Nests.antt =====
-- The loops of a function as a forest, `isOuterLoopOf`, the walk to the outermost loop, `GetInductionVariable`
-- and `GetBackedgeCondition`. The null loop, value and block are 0.
use atrox.Prelude.{
  ℕ, zero, suc, ◌≡◌, ◌≢◌, Bool, true, false, not, ◌&&◌, ◌||◌, if◌then◌else◌, List, [], ◌∷◌, ◌==◌,
  Result, Error, ok, err,
}

-- What `llvm::LoopInfo` says of the loops. The depth of a loop is that of its parent and one.
pub record LoopNest : Type 0 where
  pub parent : ℕ → ℕ
  pub sub_loops : ℕ → List ℕ
  pub header : ℕ → ℕ
  pub loop_for : ℕ → ℕ
  pub depth : ℕ → ℕ
  pub contains_block : ℕ → ℕ → Bool
  pub preorder : List ℕ
  pub reverse_sibling_preorder : List ℕ
  pub depth_parent : (l : ℕ) → parent l ≢ 0 → depth l ≡ suc (depth (parent l))

-- The terminator of a block, with the condition of a conditional branch.
pub data Terminator : Type 0 where
  unconditional other : Terminator
  conditional : ℕ → Terminator

-- What the code reads of the loops' blocks and values, and of scalar evolution for a phi node.
pub record Phis : Type 0 where
  pub canonical : ℕ → ℕ
  pub latch : ℕ → ℕ
  pub predecessor : ℕ → ℕ
  pub header_phis : ℕ → List ℕ
  pub is_scalar : ℕ → Bool
  pub is_affine : ℕ → Bool
  pub has_constant_step : ℕ → Bool

-- The loop over the phi nodes of the header.
unfoldable pub first_induction : Phis → List ℕ → ℕ
first_induction p [] = 0
first_induction p (phi ∷ phis) =
    let rest = first_induction p phis in
    if not (p.is_scalar phi)
    then 0
    else if p.is_affine phi && p.has_constant_step phi
    then phi
    else rest

unfoldable pub get_induction_variable : Phis → ℕ → ℕ
unfolding first_induction
get_induction_variable p l =
    if not (p.canonical l == 0)
    then p.canonical l
    else if p.latch l == 0 || p.predecessor l == 0
    then 0
    else first_induction p (p.header_phis l)

module _ (nest : LoopNest) where
  open nest use {parent, depth}

  -- The loop of `isOuterLoopOf`, on fuel.
  unfoldable pub search_outer : ℕ → ℕ → ℕ → Result Bool
  search_outer zero possible query = if parent query == 0 then ok false else err Error.out_of_fuel
  search_outer (suc fuel) possible query = elim (parent query == 0) [
    | true ↦ ok false
    | false ↦ elim (possible == parent query) [
      | true ↦ ok true
      | false ↦ search_outer fuel possible (parent query)
    ]
  ]

  unfoldable pub is_outer_loop_of : ℕ → ℕ → Result Bool
  unfolding search_outer
  is_outer_loop_of possible query = search_outer (depth query) possible query

  -- The loop that finds the outermost loop, on fuel.
  unfoldable pub climb : ℕ → ℕ → Result ℕ
  climb zero l = if parent l == 0 then ok l else err Error.out_of_fuel
  climb (suc fuel) l = elim (parent l == 0) [ true ↦ ok l | false ↦ climb fuel (parent l) ]

  unfoldable pub outermost : ℕ → Result ℕ
  unfolding climb
  outermost l = climb (depth l) l
