-- ===== src/Extractor/Stack.antt =====
-- `findStackAllocatable`: the inputs that get a stack slot in the clone, with what their slots are set to. `none` is no
-- value. It asks the loop bounds, and a copy of them that is evaluated.
pub mod Chosen
pub mod Tests
use atrox.Prelude.{
  ℕ, ◌≡◌, Bool, true, false, not, ◌&&◌, if◌then◌else◌, List, [], ◌∷◌, ◌++◌, Option, some, none,
  ◌==◌, insert, Result, Error, ok, err, ◌>>=◌, ◌>>◌, guard,
}
use atrox.Bounds.Nests.{LoopNest}
use atrox.Bounds.Conditions.{Code, is_value_used_only_in_loop_nest_conditions}
use atrox.Bounds.Spaces.{
  LoopIterationSpaceInfo, Analyzer, ScalarEvolution, evaluate, get_info_of_variable,
  is_value_outer_loop_induction_variable, is_value_inner_loop_induction_variable,
}

-- `StackAllocas` and `StackAllocaInits`.
pub record Slots : Type 0 where
  pub stack_allocas : List ℕ
  pub stack_alloca_inits : List (Option ℕ)

abbrev pub no_slots : Slots
no_slots = record { stack_allocas = []; stack_alloca_inits = [] }

-- What the code reads of constants: the constant that an expression is, with its value, and the constant of the
-- type of a value.
pub record Constants : Type 0 where
  pub is_constant : ℕ → Bool
  pub value_of : ℕ → ℕ
  pub constant_int : ℕ → ℕ → ℕ

unfoldable pub push_slot : Slots → Option ℕ → ℕ → Slots
push_slot s init v = record {
  stack_allocas = insert s.stack_allocas v;
  stack_alloca_inits = s.stack_alloca_inits ++ init ∷ [];
}

-- The information of an induction variable; a missing one is read.
unfoldable pub info_of : Analyzer → ℕ → Result LoopIterationSpaceInfo
unfolding get_info_of_variable
info_of evaluated v = elim (get_info_of_variable evaluated v) [
  | none ↦ err Error.assertion
  | some i ↦ ok i
]

module _ (nest : LoopNest) (code : Code) (se : ScalarEvolution) (constants : Constants) where
  open constants use {is_constant, value_of, constant_int}

  -- The start value of an outer induction variable, or 354 where it is not constant.
  unfoldable pub outer_init : LoopIterationSpaceInfo → ℕ
  outer_init i =
      if not (i.start == 0) && is_constant i.start
      then constant_int i.induction_variable (value_of i.start)
      else constant_int i.induction_variable 354

  -- The three tests of an input with their answers.
  unfoldable pub push_inner : Analyzer → Bool → ℕ → Slots → Result Slots
  unfolding info_of push_slot
  push_inner evaluated false v s = ok s
  push_inner evaluated true v s = info_of evaluated v >>= λ i.
      guard (not (i.start == 0) && is_constant i.start) Error.assertion >> ok (push_slot s none v)

  unfoldable pub push_outer : Analyzer → Bool → ℕ → Slots → Result Slots
  unfolding info_of push_slot outer_init
  push_outer evaluated false v s = ok s
  push_outer evaluated true v s =
      info_of evaluated v >>= λ i. ok (push_slot s (some (outer_init i)) v)

  unfoldable pub push_condition : Bool → ℕ → Slots → Slots
  unfolding push_slot
  push_condition false v s = s
  push_condition true v s = push_slot s (some (constant_int v 5)) v

  unfoldable pub push_kinds : Analyzer → Bool → Bool → Bool → ℕ → Slots → Result Slots
  unfolding push_inner push_outer push_condition
  push_kinds evaluated is_condition is_outer is_inner v s =
      guard (not (is_condition && is_outer)) Error.assertion
      >> (guard (not (is_condition && is_inner)) Error.assertion
          >> (push_inner evaluated is_inner v s >>= λ t.
              push_outer evaluated is_outer v t >>= λ u. ok (push_condition is_condition v u)))

  -- The loop over the inputs.
  unfoldable pub push_slots : Analyzer → Analyzer → ℕ → List ℕ → List ℕ → Slots → Result Slots
  unfolding push_kinds
  push_slots lba evaluated l blocks [] s = ok s
  push_slots lba evaluated l blocks (v ∷ vs) s =
      is_value_used_only_in_loop_nest_conditions nest code v l blocks >>= λ is_condition.
      is_value_outer_loop_induction_variable nest lba v l >>= λ is_outer.
      is_value_inner_loop_induction_variable nest lba v l >>= λ is_inner.
      push_kinds evaluated is_condition is_outer is_inner v s >>= λ t.
      push_slots lba evaluated l blocks vs t

  unfoldable pub find_stack_allocatable :
      Option Analyzer → ℕ → List ℕ → List ℕ → Slots → Result Slots
  unfolding push_slots evaluate
  find_stack_allocatable none l blocks inputs s = ok s
  find_stack_allocatable (some lba) l blocks inputs s =
      evaluate nest se 0 5 l true lba >>= λ evaluated. push_slots lba evaluated l blocks inputs s
