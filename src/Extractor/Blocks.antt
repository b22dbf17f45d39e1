-- ===== src/Extractor/Blocks.antt =====
-- `isBlockValidForExtraction` and `buildExtractionBlockSet`: which blocks are extracted.
pub mod Reaches
pub mod Visits
pub mod Sets
pub mod Tests
use atrox.Prelude.{
  ℕ, zero, suc, ◌+◌, Bool, true, false, not, ◌&&◌, ◌||◌, if◌then◌else◌, List, [], ◌∷◌, ◌++◌,
  reverse, length, ◌==◌, contains, Option, some, none, any, Result, Error, ok, err, ◌>>=◌, ◌>>◌,
  guard,
}

-- The instructions that the code tells apart: with the unwind destination, the handlers, or the blocks of the
-- matching return instructions.
pub data Kind : Type 0 where
  plain alloca vastart_call : Kind
  invoke cleanup_return : Option ℕ → Kind
  catch_switch : Option ℕ → List ℕ → Kind
  catch_pad cleanup_pad : List ℕ → Kind

-- What the code reads of LLVM. The operands are those that are users; the parent is that of an instruction.
-- `users` lists all there are.
pub record BlockCode : Type 0 where
  pub has_address_taken : ℕ → Bool
  pub is_eh_pad : ℕ → Bool
  pub is_reachable : ℕ → Bool
  pub instructions : ℕ → List ℕ
  pub kind : ℕ → Kind
  pub is_block_address : ℕ → Bool
  pub parent : ℕ → Option ℕ
  pub operands : ℕ → List ℕ
  pub users : List ℕ

module _ (code : BlockCode) where
  open code use {
    has_address_taken, is_eh_pad, is_reachable, instructions, kind, is_block_address, parent,
    operands, users,
  }

  -- An instruction of another block.
  unfoldable pub is_foreign : ℕ → ℕ → Bool
  is_foreign bb v = elim (parent v) [ none ↦ false | some b ↦ not (b == bb) ]

  -- The loop over `ToVisit`, whose back is the head of the list, on fuel.
  unfoldable pub visit_users : ℕ → ℕ → List ℕ → List ℕ → Result Bool
  unfolding is_foreign
  visit_users bb fuel visited [] = ok true
  visit_users bb zero visited (v ∷ vs) = err Error.out_of_fuel
  visit_users bb (suc fuel) visited (v ∷ vs) = elim (contains visited v) [
    | true ↦ visit_users bb fuel visited vs
    | false ↦ elim (is_block_address v) [
      | true ↦ ok false
      | false ↦ elim (is_foreign bb v) [
        | true ↦ visit_users bb fuel (v ∷ visited) vs
        | false ↦ visit_users bb fuel (v ∷ visited) (reverse (operands v) ++ vs)
      ]
    ]
  ]

  -- Enough fuel: every user's operands are pushed once at most.
  unfoldable pub all_operands : List ℕ → ℕ
  all_operands [] = 0
  all_operands (u ∷ us) = length (operands u) + all_operands us

  -- The tests of an instruction, for a set of blocks.
  unfoldable pub is_kind_valid : List ℕ → Bool → Bool → Kind → Bool
  is_kind_valid result allow_var_args allow_alloca plain = true
  is_kind_valid result allow_var_args allow_alloca alloca = allow_alloca
  is_kind_valid result allow_var_args allow_alloca vastart_call = allow_var_args
  is_kind_valid result allow_var_args allow_alloca (invoke none) = true
  is_kind_valid result allow_var_args allow_alloca (invoke (some b)) = contains result b
  is_kind_valid result allow_var_args allow_alloca (cleanup_return none) = true
  is_kind_valid result allow_var_args allow_alloca (cleanup_return (some b)) = contains result b
  is_kind_valid result allow_var_args allow_alloca (catch_switch none hs) =
      not (any (λ h. not (contains result h)) hs)
  is_kind_valid result allow_var_args allow_alloca (catch_switch (some b) hs) =
      contains result b && not (any (λ h. not (contains result h)) hs)
  is_kind_valid result allow_var_args allow_alloca (catch_pad bs) =
      not (any (λ b. not (contains result b)) bs)
  is_kind_valid result allow_var_args allow_alloca (cleanup_pad bs) =
      not (any (λ b. not (contains result b)) bs)

  unfoldable pub is_block_valid : List ℕ → Bool → Bool → ℕ → Result Bool
  unfolding visit_users all_operands is_kind_valid
  is_block_valid result allow_var_args allow_alloca bb =
      if has_address_taken bb
      then ok false
      else (visit_users bb (length (instructions bb) + all_operands users) []
            (reverse (instructions bb))
          >>= λ clean. ok (
              clean
              && not (
                  any (λ i. not (is_kind_valid result allow_var_args allow_alloca (kind i)))
                    (instructions bb))))

  -- The first loop; `has_tree` is whether there is a dominator tree.
  unfoldable pub insert_blocks : Bool → List ℕ → List ℕ → Result (List ℕ)
  insert_blocks has_tree result [] = ok result
  insert_blocks has_tree result (b ∷ bs) =
      let rest = insert_blocks has_tree result bs in
      let added = insert_blocks has_tree (result ++ b ∷ []) bs in
      if has_tree && not (is_reachable b)
      then rest
      else if contains result b
      then err Error.unreachable
      else added

  -- The second loop, from a block on; the first block is told apart. The loop over the predecessors changes nothing.
  unfoldable pub check_blocks : List ℕ → Bool → Bool → Bool → List ℕ → Result Bool
  unfolding is_block_valid
  check_blocks result allow_var_args allow_alloca is_front [] = ok true
  check_blocks result allow_var_args allow_alloca is_front (b ∷ bs) =
      is_block_valid result allow_var_args allow_alloca b >>= λ valid.
      if not valid || (is_front && is_eh_pad b)
      then ok false
      else check_blocks result allow_var_args allow_alloca false bs

  unfoldable pub build_extraction_block_set : Bool → Bool → Bool → List ℕ → Result (List ℕ)
  unfolding insert_blocks check_blocks
  build_extraction_block_set has_tree allow_var_args allow_alloca [] = err Error.assertion
  build_extraction_block_set has_tree allow_var_args allow_alloca (b ∷ bs) =
      insert_blocks has_tree [] (b ∷ bs) >>= λ result.
      check_blocks result allow_var_args allow_alloca true result >>= λ valid.
      ok (if valid then result else [])
