-- ===== src/Extractor/Stack/Tests.antt =====
-- The slots, for the outer loop, of the inputs 42, the induction variable of the inner loop, 51, which the condition of
-- the outer loop alone uses, and 7; and for the inner loop.
use atrox.Prelude.{
  ◌⊎◌, Error, err, List, ℕ, ◌≡◌, refl, ap, ◌∙◌, Bool, true, false, List, [], ◌∷◌, ◌==◌, none, some,
  ok, assign, Bool-cases, inl, inr, arith,
}
use atrox.Examples.{at}
use atrox.Args.Order.{IsDistinct}
use atrox.Bounds.Conditions.{
  Code, is_used_by, get_backedge_condition, is_value_used_only_in_loop_nest_conditions,
}
use atrox.Bounds.Spaces.{
  Analyzer, evaluate, get_info_of_variable, is_value_outer_loop_induction_variable,
  is_value_inner_loop_induction_variable,
}
use atrox.Bounds.Uses.{value_uses_lem}
use atrox.Bounds.Tests.{nest_example, se_example, analyzed_example, code_example, condition_example}
use atrox.Extractor.Stack.{Slots, Constants, no_slots, outer_init, find_stack_allocatable}
use atrox.Extractor.Stack.Chosen.{Answers, stack_slots_lem}

abbrev constants_example : Constants
constants_example = record { is_constant = λ e. true; value_of = λ e. e; constant_int = λ v k. k }

abbrev blocks_example : List ℕ
blocks_example = 11 ∷ []

-- The condition of the outer loop uses 51 alone.
abbrev narrow_code : Code
narrow_code = record code_example { operands = at ((2, 51 ∷ []) ∷ []); users = λ v. 2 ∷ [] }

slots_run :
    find_stack_allocatable nest_example narrow_code se_example constants_example
      (some analyzed_example)
      1
      blocks_example
      (42 ∷ 51 ∷ 7 ∷ [])
      no_slots
    ≡ ok (record { stack_allocas = 42 ∷ 51 ∷ []; stack_alloca_inits = none ∷ some 5 ∷ [] })
unfolding find_stack_allocatable assign is_value_used_only_in_loop_nest_conditions
    is_value_outer_loop_induction_variable is_value_inner_loop_induction_variable
slots_run = refl

-- The condition of the inner loop uses 51 alone.
abbrev inner_code : Code
inner_code = record code_example { operands = at ((3, 51 ∷ []) ∷ []); users = λ v. 3 ∷ [] }

-- For the loop 2, whose outer loop has the induction variable 41.
abbrev inner_evaluated : Analyzer
inner_evaluated = record {
  top_loop = 1;
  spaces =
      (1, record { induction_variable = 41; start = 242; end = 247; trip_count = 7 })
      ∷ (2, record { induction_variable = 42; start = 244; end = 254; trip_count = 7 })
      ∷ [];
}

inner_run : evaluate nest_example se_example 0 5 2 true analyzed_example ≡ ok inner_evaluated
unfolding evaluate assign
inner_run = refl

abbrev only_conditions : ℕ → Bool
only_conditions v = v == 51

narrow_known : (l : ℕ) → get_backedge_condition nest_example inner_code l ≡ ok (condition_example l)
unfolding get_backedge_condition
narrow_known l = ground arith

conditions_answer :
    (v : ℕ)
    → is_value_used_only_in_loop_nest_conditions nest_example inner_code v 2 blocks_example
      ≡ ok (only_conditions v)
unfolding is_used_by
conditions_answer v =
    (value_uses_lem nest_example inner_code condition_example narrow_known v 2 blocks_example
      refl).1
    ∙ ap ok (ground arith)

outer_answer :
    (v : ℕ)
    → is_value_outer_loop_induction_variable nest_example analyzed_example v 2 ≡ ok (41 == v)
unfolding is_value_outer_loop_induction_variable
outer_answer v = elim (Bool-cases (41 == v)) [
  | inl y ↦ rw (is_value_outer_loop_induction_variable, y) refl
  | inr n ↦ elim (Bool-cases (42 == v)) [
    | inl y ↦ rw (is_value_outer_loop_induction_variable, n, y) refl
    | inr m ↦ rw (is_value_outer_loop_induction_variable, n, m) refl
  ]
]

inner_answer :
    (v : ℕ) → is_value_inner_loop_induction_variable nest_example analyzed_example v 2 ≡ ok false
unfolding is_value_inner_loop_induction_variable
inner_answer v = elim (Bool-cases (41 == v)) [
  | inl y ↦ rw (is_value_inner_loop_induction_variable, y) refl
  | inr n ↦ elim (Bool-cases (42 == v)) [
    | inl y ↦ rw (is_value_inner_loop_induction_variable, n, y) refl
    | inr m ↦ rw (is_value_inner_loop_induction_variable, n, m) refl
  ]
]

abbrev answers_example :
    Answers nest_example inner_code se_example constants_example analyzed_example inner_evaluated 2
      blocks_example
answers_example = record {
  in_conditions = only_conditions;
  is_outer = λ v. 41 == v;
  is_inner = λ v. false;
  conditions_lem = conditions_answer;
  outer_lem = outer_answer;
  inner_lem = inner_answer;
}

inputs-IsDistinct : IsDistinct (41 ∷ 51 ∷ 7 ∷ [])
inputs-IsDistinct = (refl, (refl, (refl, tt)))

-- The slots are for 41, with the start that the evaluation gives it, and 51.
stack_slots_lem_example :
    ((true ≡ true)
      × (t : Slots) × (find_stack_allocatable nest_example inner_code se_example constants_example
            (some analyzed_example)
            2
            blocks_example
            (41 ∷ 51 ∷ 7 ∷ [])
            no_slots
          ≡ ok t)
      × (t.stack_allocas ≡ 41 ∷ 51 ∷ [])
      × (t.stack_alloca_inits ≡ some 242 ∷ some 5 ∷ []))
    ⊎ ((true ≡ false)
        × (e : Error) × (find_stack_allocatable nest_example inner_code se_example constants_example
              (some analyzed_example)
              2
              blocks_example
              (41 ∷ 51 ∷ 7 ∷ [])
              no_slots
            ≡ err e))
unfolding get_info_of_variable outer_init
stack_slots_lem_example =
    stack_slots_lem nest_example inner_code se_example constants_example analyzed_example
      inner_evaluated 2 blocks_example answers_example (41 ∷ 51 ∷ 7 ∷ []) inner_run
      inputs-IsDistinct
