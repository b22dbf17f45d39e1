-- ===== src/Bounds/Spaces.antt =====
-- `LoopBoundsAnalyzer`: its state, `analyze`, `evaluate` and the queries. Scalar evolution is a parameter; the null
-- expression is 0.
use atrox.Prelude.{
  ℕ, Bool, true, false, not, ◌&&◌, ◌||◌, if◌then◌else◌, List, [], ◌∷◌, ◌==◌, leb, Option, some,
  none, select, lookup, emplace, assign, Result, Error, ok, ◌>>=◌, ◌>>◌, guard,
}
use atrox.Bounds.Nests.{LoopNest, Phis, get_induction_variable, is_outer_loop_of, outermost}

pub record LoopIterationSpaceInfo : Type 0 where
  pub induction_variable : ℕ
  pub start : ℕ
  pub end : ℕ
  pub trip_count : ℕ

abbrev pub no_info : LoopIterationSpaceInfo
no_info = record { induction_variable = 0; start = 0; end = 0; trip_count = 0 }

abbrev pub Spaces : Type 0
Spaces = List (ℕ × LoopIterationSpaceInfo)

-- `TopL` and `LoopBoundsMap`; the loop info and scalar evolution are the parameters.
pub record Analyzer : Type 0 where
  pub top_loop : ℕ
  pub spaces : Spaces

abbrev pub new_analyzer : Analyzer
new_analyzer = record { top_loop = 0; spaces = [] }

-- `llvm::ScalarEvolution`.
pub record ScalarEvolution : Type 0 where
  pub scev : ℕ → ℕ
  pub is_add_rec : ℕ → Bool
  pub start_of : ℕ → ℕ
  pub evaluate_at : ℕ → ℕ → ℕ
  pub at_scope : ℕ → ℕ → ℕ
  pub max_trip_count : ℕ → ℕ

-- `LoopBoundsMap[l]`: the entry, which is made if it is not there.
abbrev pub space_at : Spaces → ℕ → LoopIterationSpaceInfo
space_at spaces l = elim (lookup spaces l) [ none ↦ no_info | some i ↦ i ]

module _ (nest : LoopNest) where
  open nest use {header, contains_block}

  -- The loops of the nest of `top`, in some order.
  unfoldable pub loops_in : ℕ → List ℕ → List ℕ
  loops_in top loops = select (λ e. contains_block top (header e)) loops

module _ (phis : Phis) (se : ScalarEvolution) where
  open se use {scev, is_add_rec, start_of, max_trip_count}

  -- One round of the loop of `analyze`. Both bounds are the start of the recurrence.
  unfoldable pub add_space : Spaces → ℕ → Spaces
  unfolding get_induction_variable
  add_space spaces e =
      let found = emplace spaces e no_info in
      let ind = get_induction_variable phis e in
      if ind == 0
      then found
      else if not (is_add_rec (scev ind))
      then found
      else assign found e (record {
        induction_variable = ind;
        start = start_of (scev ind);
        end = start_of (scev ind);
        trip_count = max_trip_count e;
      })

  unfoldable pub add_spaces : Spaces → List ℕ → Spaces
  unfolding add_space
  add_spaces spaces [] = spaces
  add_spaces spaces (e ∷ es) = add_spaces (add_space spaces e) es

module _ (nest : LoopNest) (phis : Phis) (se : ScalarEvolution) where
  open nest use {header, loop_for, preorder}

  -- The nest is analyzed anew unless its outermost loop is that of the last one.
  unfoldable pub analyze_top : ℕ → Analyzer → Analyzer
  unfolding loops_in add_spaces
  analyze_top top a =
      if top == a.top_loop
      then a
      else record { top_loop = top; spaces = add_spaces phis se [] (loops_in nest top preorder) }

  unfoldable pub analyze : ℕ → Analyzer → Result Analyzer
  unfolding analyze_top outermost
  analyze l a =
      guard (not (l == 0)) Error.assertion
      >> (guard (loop_for (header l) == l) Error.assertion
          >> (outermost nest l >>= λ top. ok (analyze_top top a)))

module _ (nest : LoopNest) (se : ScalarEvolution) where
  open nest use {depth, reverse_sibling_preorder}
  open se use {is_add_rec, evaluate_at, at_scope}

  -- A bound at an iteration, if it is a recurrence.
  unfoldable pub evaluated : ℕ → ℕ → ℕ
  evaluated bound k = if not (bound == 0) && is_add_rec bound then evaluate_at bound k else bound

  -- The outer loop of a round.
  unfoldable pub evaluate_outer : ℕ → ℕ → LoopIterationSpaceInfo → LoopIterationSpaceInfo
  unfolding evaluated
  evaluate_outer start value i = record i {
    start = evaluated i.start start;
    end = evaluated i.end value;
  }

  -- An inner loop of a round. Scalar evolution is asked for the null expression where a loop has no start.
  unfoldable pub evaluate_start : ℕ → ℕ → LoopIterationSpaceInfo → LoopIterationSpaceInfo
  evaluate_start start l i =
      let scoped = at_scope i.start l in
      let inner = if scoped == 0 then i.start else scoped in
      record i {
        start = if not (inner == 0) && is_add_rec inner then evaluate_at inner start else i.start;
      }

  unfoldable pub evaluate_end : ℕ → ℕ → LoopIterationSpaceInfo → LoopIterationSpaceInfo
  evaluate_end value l i =
      let scoped = at_scope i.end l in
      record i {
        end = if not (scoped == 0) && is_add_rec scoped then evaluate_at scoped value else i.end;
      }

  unfoldable pub evaluate_inner :
      ℕ → ℕ → Bool → ℕ → LoopIterationSpaceInfo → Result LoopIterationSpaceInfo
  unfolding evaluate_start evaluate_end
  evaluate_inner start value with_end l i =
      guard (not (i.start == 0)) Error.undefined
      >> (if with_end
          then (guard (not (i.end == 0)) Error.undefined
              >> ok (evaluate_end value l (evaluate_start start l i)))
          else ok (evaluate_start start l i))

  -- The loop over the loops behind the outer one, up to the first that is not deeper.
  unfoldable pub evaluate_inners : ℕ → ℕ → Bool → ℕ → Spaces → List ℕ → Result Spaces
  unfolding evaluate_inner
  evaluate_inners start value with_end outer spaces [] = ok spaces
  evaluate_inners start value with_end outer spaces (l ∷ ls) = elim (leb (depth l) (depth outer)) [
    | true ↦ ok spaces
    | false ↦ evaluate_inner start value with_end l (space_at spaces l) >>= λ i.
        evaluate_inners start value with_end outer (assign spaces l i) ls
  ]

  -- The loop over the loops of the nest, up to the target.
  unfoldable pub evaluate_loops : ℕ → ℕ → ℕ → Bool → Spaces → List ℕ → Result Spaces
  unfolding evaluate_outer evaluate_inners
  evaluate_loops start end target is_max spaces [] = ok spaces
  evaluate_loops start end target is_max spaces (l ∷ ls) =
      let value = if target == l || is_max then end else start in
      let with_end = not (target == l) || is_max in
      evaluate_inners start value with_end l
        (assign spaces l (evaluate_outer start value (space_at spaces l))) ls
      >>= λ spaces'. elim (target == l) [
        | true ↦ ok spaces'
        | false ↦ evaluate_loops start end target is_max spaces' ls
      ]

  unfoldable pub evaluate : ℕ → ℕ → ℕ → Bool → Analyzer → Result Analyzer
  unfolding evaluate_loops loops_in
  evaluate start end target is_max a =
      if a.top_loop == 0
      then ok a
      else (evaluate_loops start end target is_max a.spaces
            (loops_in nest a.top_loop reverse_sibling_preorder)
          >>= λ spaces'. ok (record { top_loop = a.top_loop; spaces = spaces' }))

-- The first loop of the map with an induction variable.
unfoldable pub loop_of_variable : Spaces → ℕ → Option (ℕ × LoopIterationSpaceInfo)
loop_of_variable [] v = none
loop_of_variable (e ∷ es) v = if e.1.induction_variable == v then some e else loop_of_variable es v

-- The two overloads of `getInfo`: of a loop, and of an induction variable.
unfoldable pub get_info : Analyzer → ℕ → Option LoopIterationSpaceInfo
get_info a l = lookup a.spaces l

unfoldable pub get_info_of_variable : Analyzer → ℕ → Option LoopIterationSpaceInfo
unfolding loop_of_variable
get_info_of_variable a v = elim (loop_of_variable a.spaces v) [ none ↦ none | some e ↦ some e.1 ]

module _ (nest : LoopNest) where
  unfoldable pub is_value_outer_loop_induction_variable : Analyzer → ℕ → ℕ → Result Bool
  unfolding loop_of_variable is_outer_loop_of
  is_value_outer_loop_induction_variable a v l = elim (loop_of_variable a.spaces v) [
    | none ↦ ok false
    | some e ↦ is_outer_loop_of nest e.0 l
  ]

  unfoldable pub is_value_inner_loop_induction_variable : Analyzer → ℕ → ℕ → Result Bool
  unfolding loop_of_variable is_outer_loop_of
  is_value_inner_loop_induction_variable a v l = elim (loop_of_variable a.spaces v) [
    | none ↦ ok false
    | some e ↦ is_outer_loop_of nest l e.0
  ]
