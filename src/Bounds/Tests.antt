-- ===== src/Bounds/Tests.antt =====
-- A nest of two loops: 1 with header 11 and induction variable 41, and in it 2 with header 12 and 42. The condition of a
-- loop is the number behind it.
use atrox.Prelude.{
  ℕ, suc, ◌+◌, ◌<◌, ◌≡◌, ◌≢◌, ◌↔◌, refl, Bool, true, false, ◌&&◌, if◌then◌else◌, List, [], ◌∷◌,
  ◌==◌, contains, lookup, some, assign, emplace, Error, ok, err, Bool-cases, inl, inr, arith,
}
use atrox.Examples.{at}
use atrox.Bounds.Nests.{LoopNest, Terminator, Phis, is_outer_loop_of, outermost}
use atrox.Bounds.Conditions.{
  Code, is_used_by, get_backedge_condition, is_value_used_in_loop_nest_conditions,
  is_value_used_only_in_loop_nest_conditions,
}
use atrox.Bounds.Spaces.{
  Analyzer, ScalarEvolution, new_analyzer, no_info, loops_in, analyze, evaluate,
}
use atrox.Bounds.Enclosing.{Encloses, is_outer_loop_of_iff}
use atrox.Bounds.Analyzed.{IsAnalyzed, analyze-IsAnalyzed}
use atrox.Bounds.Evaluated.{IsBounded, SameFields, evaluate_kept}
use atrox.Bounds.Rounds.{evaluate_lem}
use atrox.Args.Order.{IsDistinct}
use atrox.Bounds.NullStart.{evaluate_undefined}
use atrox.Bounds.Uses.{value_uses_lem, value_uses_undefined}

abbrev parent_of : ℕ → ℕ
parent_of l = if l == 2 then 1 else 0

abbrev depth_of : ℕ → ℕ
depth_of l = if l == 2 then 2 else 1

pub depth_parent_of : (l : ℕ) → parent_of l ≢ 0 → depth_of l ≡ suc (depth_of (parent_of l))
depth_parent_of l h = elim (Bool-cases (l == 2)) [
  | inl y ↦ rw y refl
  | inr n ↦ absurd (h (rw n refl))
]

abbrev pub nest_example : LoopNest
nest_example = record {
  parent = parent_of;
  sub_loops = at ((1, 2 ∷ []) ∷ []);
  header = λ l. 10 + l;
  loop_for = λ b. if b == 11 then 1 else if b == 12 then 2 else 0;
  depth = depth_of;
  contains_block = λ l b. if l == 1 then true else l == 2 && b == 12;
  preorder = 1 ∷ 2 ∷ [];
  reverse_sibling_preorder = 1 ∷ 2 ∷ [];
  depth_parent = depth_parent_of;
}

abbrev phis_example : Phis
phis_example = record {
  canonical = λ l. 40 + l;
  latch = λ l. 0;
  predecessor = λ l. 0;
  header_phis = λ l. [];
  is_scalar = λ v. true;
  is_affine = λ v. true;
  has_constant_step = λ v. true;
}

abbrev pub se_example : ScalarEvolution
se_example = record {
  scev = λ v. 100 + v;
  is_add_rec = λ e. true;
  start_of = λ e. 100 + e;
  evaluate_at = λ e k. suc (e + k);
  at_scope = λ e l. e;
  max_trip_count = λ l. 7;
}

abbrev pub analyzed_example : Analyzer
analyzed_example = record {
  top_loop = 1;
  spaces =
      (1, record { induction_variable = 41; start = 241; end = 241; trip_count = 7 })
      ∷ (2, record { induction_variable = 42; start = 242; end = 242; trip_count = 7 })
      ∷ [];
}

analyze_run : analyze nest_example phis_example se_example 2 new_analyzer ≡ ok analyzed_example
unfolding analyze assign emplace
analyze_run = refl

is_outer_loop_of_iff_example :
    (b : Bool) × (is_outer_loop_of nest_example 1 2 ≡ ok b)
    × ((b ≡ true) ↔ Encloses nest_example 1 2)
is_outer_loop_of_iff_example = is_outer_loop_of_iff nest_example 1 2

two_nonzero : ◌≢◌ {A = ℕ} 2 0
two_nonzero h = omega arith

new_IsAnalyzed : IsAnalyzed nest_example phis_example se_example new_analyzer
new_IsAnalyzed n = absurd (n refl)

analyze-IsAnalyzed_example :
    (b : Analyzer) × (analyze nest_example phis_example se_example 2 new_analyzer ≡ ok b)
    × IsAnalyzed nest_example phis_example se_example b
    × (outermost nest_example 2 ≡ ok b.top_loop)
    × (b.top_loop ≢ 0)
analyze-IsAnalyzed_example =
    analyze-IsAnalyzed nest_example phis_example se_example 2 new_analyzer two_nonzero refl
      new_IsAnalyzed

abbrev loops_example : List ℕ
loops_example =
    loops_in nest_example analyzed_example.top_loop nest_example.reverse_sibling_preorder

never_null : (e k : ℕ) → se_example.evaluate_at e k ≢ 0
never_null e k h = omega arith

all-IsBounded : (x : ℕ) → contains loops_example x ≡ true → IsBounded analyzed_example.spaces x
unfolding loops_in
all-IsBounded x h = elim (Bool-cases (x == 1)) [
  | inl y ↦ (
    record { induction_variable = 41; start = 241; end = 241; trip_count = 7 },
    rw y refl,
    ((λ e. omega arith), (λ e. omega arith)),
  )
  | inr n ↦ elim (Bool-cases (x == 2)) [
    | inl y ↦ (
      record { induction_variable = 42; start = 242; end = 242; trip_count = 7 },
      rw (n, y) refl,
      ((λ e. omega arith), (λ e. omega arith)),
    )
    | inr m ↦ absurd (ground arith)
  ]
]

evaluate_kept_example :
    (b : Analyzer) × (evaluate nest_example se_example 0 5 2 true analyzed_example ≡ ok b)
    × (b.top_loop ≡ 1)
    × SameFields analyzed_example.spaces b.spaces
    × ((x : ℕ) → contains loops_example x ≡ true → IsBounded b.spaces x)
evaluate_kept_example =
    evaluate_kept nest_example se_example never_null 0 5 2 true analyzed_example all-IsBounded

nest-IsDistinct : IsDistinct loops_example
unfolding loops_in
nest-IsDistinct = (refl, (refl, tt))

top_set : analyzed_example.top_loop ≢ 0
top_set h = omega arith

-- The inner loop, as the target, without the maximum: it starts at 243 at the first iteration of the outer loop, and at 244
-- at its own, and ends at its own last.
evaluate_lem_example :
    (b : Analyzer) × (evaluate nest_example se_example 0 5 2 false analyzed_example ≡ ok b)
    × (b.top_loop ≡ 1)
    × (lookup b.spaces 2
        ≡ some (record { induction_variable = 42; start = 244; end = 249; trip_count = 7 }))
unfolding loops_in
evaluate_lem_example =
    evaluate_lem nest_example se_example 0 5 2 false analyzed_example 2 never_null top_set
      nest-IsDistinct all-IsBounded

-- An inner loop without an induction variable.
abbrev unbounded : Analyzer
unbounded = record {
  top_loop = 1;
  spaces =
      (1, record { induction_variable = 41; start = 241; end = 241; trip_count = 7 })
      ∷ (2, no_info)
      ∷ [];
}

one_nonzero : ◌≢◌ {A = ℕ} 1 0
one_nonzero h = omega arith

two_not_one : ◌≢◌ {A = ℕ} 2 1
two_not_one h = omega arith

two_loops : loops_in nest_example 1 (1 ∷ 2 ∷ []) ≡ 1 ∷ 2 ∷ []
unfolding loops_in
two_loops = refl

deeper : depth_of 1 < depth_of 2
deeper = omega arith

evaluate_undefined_example :
    evaluate nest_example se_example 0 5 2 true unbounded ≡ err Error.undefined
evaluate_undefined_example =
    evaluate_undefined nest_example se_example 0 5 2 true unbounded 1 2 [] one_nonzero two_loops
      deeper refl two_not_one

-- The condition of loop 1 is 2 and uses 50; that of loop 2 is 3.
abbrev pub code_example : Code
code_example = record {
  exiting_block = λ l. suc l;
  terminator = λ b. Terminator.conditional b;
  is_instruction = λ v. true;
  operands = at ((2, 50 ∷ []) ∷ []);
  users = at ((50, 2 ∷ 60 ∷ []) ∷ []);
  parent = λ v. 11;
}

abbrev pub condition_example : ℕ → ℕ
condition_example l = suc l

pub conditions_known :
    (l : ℕ) → get_backedge_condition nest_example code_example l ≡ ok (condition_example l)
unfolding get_backedge_condition
conditions_known l = ground arith

value_uses_lem_example :
    (is_value_used_in_loop_nest_conditions nest_example code_example 50 1 ≡ ok true)
    × (is_value_used_only_in_loop_nest_conditions nest_example code_example 50 1 (11 ∷ [])
        ≡ ok false)
unfolding is_used_by
value_uses_lem_example =
    value_uses_lem nest_example code_example condition_example conditions_known 50 1 (11 ∷ []) refl

-- A third loop in loop 2.
abbrev deep_nest : LoopNest
deep_nest = record nest_example { sub_loops = at ((1, 2 ∷ []) ∷ (2, 3 ∷ []) ∷ []) }

value_uses_undefined_example :
    is_value_used_only_in_loop_nest_conditions deep_nest code_example 50 1 (11 ∷ [])
    ≡ err Error.undefined
value_uses_undefined_example = value_uses_undefined deep_nest code_example 50 1 (11 ∷ []) refl
