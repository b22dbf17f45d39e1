-- ===== src/Bounds/Conditions.antt =====
-- `GetBackedgeCondition`, `isValueUsedInLoopNestConditions` and `isValueUsedOnlyInLoopNestConditions`. A vector
-- that grows while it is walked is undefined behaviour.
use atrox.Prelude.{
  ℕ, Bool, true, false, not, ◌&&◌, if◌then◌else◌, List, [], ◌∷◌, ◌++◌, ◌==◌, any, contains, insert,
  Result, Error, ok, err, ◌>>=◌,
}
use atrox.Bounds.Nests.{LoopNest, Terminator}

-- What the code reads of values and blocks.
pub record Code : Type 0 where
  pub exiting_block : ℕ → ℕ
  pub terminator : ℕ → Terminator
  pub is_instruction : ℕ → Bool
  pub operands : ℕ → List ℕ
  pub users : ℕ → List ℕ
  pub parent : ℕ → ℕ

abbrev pub is_empty : List ℕ → Bool
is_empty [] = true
is_empty (x ∷ xs) = false

module _ (nest : LoopNest) (code : Code) where
  open nest use {sub_loops}
  open code use {exiting_block, terminator, is_instruction, operands, users, parent}

  unfoldable pub get_backedge_condition : ℕ → Result ℕ
  get_backedge_condition l =
      if exiting_block l == 0 then err Error.assertion else elim (terminator (exiting_block l)) [
        | Terminator.conditional c ↦ ok c
        | Terminator.unconditional ↦ err Error.assertion
        | Terminator.other ↦ ok 0
      ]

  -- The loops that are asked: the inner ones and the loop itself. The loop that adds to the vector what it walks is
  -- defined only where it adds nothing.
  unfoldable pub nest_loops : ℕ → Result (List ℕ)
  nest_loops l =
      if any (λ e. not (is_empty (sub_loops e))) (sub_loops l)
      then err Error.undefined
      else ok (sub_loops l ++ l ∷ [])

  -- A loop's condition uses a value; a null condition, or one that is no instruction, does not.
  unfoldable pub is_used_by : ℕ → ℕ → Bool
  is_used_by v c = not (c == 0) && (is_instruction c && contains (operands c) v)

  -- The loop over the loops, with the set `Conditions`.
  unfoldable pub collect_conditions : ℕ → List ℕ → List ℕ → Result (List ℕ)
  unfolding get_backedge_condition is_used_by
  collect_conditions v conditions [] = ok conditions
  collect_conditions v conditions (e ∷ es) = get_backedge_condition e >>= λ c.
      collect_conditions v (if is_used_by v c then insert conditions c else conditions) es

  -- The same with a null `Conditions`: it returns at the first use.
  unfoldable pub is_used_in : ℕ → List ℕ → Result Bool
  unfolding get_backedge_condition is_used_by
  is_used_in v [] = ok false
  is_used_in v (e ∷ es) = get_backedge_condition e >>= λ c. elim (is_used_by v c) [
    | true ↦ ok true
    | false ↦ is_used_in v es
  ]

  unfoldable pub is_value_used_in_loop_nest_conditions : ℕ → ℕ → Result Bool
  unfolding nest_loops is_used_in
  is_value_used_in_loop_nest_conditions v l = nest_loops l >>= is_used_in v

  -- The loop over the users of a value.
  unfoldable pub has_other_user : List ℕ → List ℕ → List ℕ → Bool
  has_other_user conditions interesting [] = false
  has_other_user conditions interesting (u ∷ us) =
      if is_instruction u && (contains interesting (parent u) && not (contains conditions u))
      then true
      else has_other_user conditions interesting us

  unfoldable pub is_value_used_only_in_loop_nest_conditions : ℕ → ℕ → List ℕ → Result Bool
  unfolding nest_loops collect_conditions has_other_user
  is_value_used_only_in_loop_nest_conditions v l interesting = nest_loops l >>= λ loops.
      collect_conditions v [] loops >>= λ conditions. ok (
        if not (is_empty conditions)
        then not (has_other_user conditions interesting (users v))
        else false)
