-- ===== src/Extractor/Prepared/Slots.antt =====
-- `findStackAllocatable` gives every slot an initial value or a null one.
use mathlib.Core.Path.{subst}
use atrox.Prelude.{
  bind-ok, ℕ, ◌≤◌, ◌≡◌, Bool, true, false, not, ◌&&◌, List, [], ◌∷◌, ◌==◌, length, length-append,
  Option, some, none, Result, Error, ok, ◌>>=◌, ◌>>◌, guard, arith,
}
use atrox.Bounds.Nests.{LoopNest}
use atrox.Bounds.Conditions.{Code, is_value_used_only_in_loop_nest_conditions}
use atrox.Bounds.Spaces.{
  Analyzer, ScalarEvolution, LoopIterationSpaceInfo, evaluate,
  is_value_outer_loop_induction_variable, is_value_inner_loop_induction_variable,
}
use atrox.Extractor.Stack.{
  Slots, Constants, push_slot, info_of, outer_init, push_inner, push_outer, push_condition,
  push_kinds, push_slots, find_stack_allocatable,
}

-- There is an initial value for every slot.
abbrev pub IsInitialised : Slots → Type 0
IsInitialised s = length s.stack_allocas ≤ length s.stack_alloca_inits

push_slot-IsInitialised :
    (s : Slots) (o : Option ℕ) (v : ℕ) → IsInitialised s → IsInitialised (push_slot s o v)
unfolding push_slot
push_slot-IsInitialised s o v h =
    let a = length-append s.stack_alloca_inits (o ∷ []) in
    let b = length-append s.stack_allocas (v ∷ []) in ground arith

guard-ok {ℓ} :
    {B : Type ℓ} (b : Bool) (e : Error) (x : Result B) (r : B) → (guard b e >> x) ≡ ok r → x ≡ ok r
guard-ok true e x r h = h
guard-ok false e x r h = absurd cc

module _ (nest : LoopNest) (code : Code) (se : ScalarEvolution) (constants : Constants) where
  push_inner-IsInitialised :
      (evaluated : Analyzer) (b : Bool) (v : ℕ) (s t : Slots)
      → push_inner nest code se constants evaluated b v s ≡ ok t
      → IsInitialised s
      → IsInitialised t
  unfolding push_inner
  push_inner-IsInitialised evaluated false v s t e h =
      let e' : s ≡ t = cc in subst IsInitialised e' h
  push_inner-IsInitialised evaluated true v s t e h =
      let (i, _, e') =
        bind-ok (info_of evaluated v)
          (λ i.
            guard (not (i.start == 0) && constants.is_constant i.start) Error.assertion
            >> ok (push_slot s none v))
          t e in
      let e'' : push_slot s none v ≡ t =
        (let g =
            guard-ok (not (i.start == 0) && constants.is_constant i.start) Error.assertion
              (ok (push_slot s none v)) t e' in
          cc) in
      subst IsInitialised e'' (push_slot-IsInitialised s none v h)

  push_outer-IsInitialised :
      (evaluated : Analyzer) (b : Bool) (v : ℕ) (s t : Slots)
      → push_outer nest code se constants evaluated b v s ≡ ok t
      → IsInitialised s
      → IsInitialised t
  unfolding push_outer
  push_outer-IsInitialised evaluated false v s t e h =
      let e' : s ≡ t = cc in subst IsInitialised e' h
  push_outer-IsInitialised evaluated true v s t e h =
      let init : LoopIterationSpaceInfo → Option ℕ =
        λ i. some (outer_init nest code se constants i) in
      let (i, _, e') = bind-ok (info_of evaluated v) (λ i. ok (push_slot s (init i) v)) t e in
      let e'' : push_slot s (init i) v ≡ t = cc in
      subst IsInitialised e'' (push_slot-IsInitialised s (init i) v h)

  push_condition-IsInitialised :
      (b : Bool) (v : ℕ) (s : Slots)
      → IsInitialised s
      → IsInitialised (push_condition nest code se constants b v s)
  unfolding push_condition
  push_condition-IsInitialised false v s h = h
  push_condition-IsInitialised true v s h =
      push_slot-IsInitialised s (some (constants.constant_int v 5)) v h

  push_kinds-IsInitialised :
      (evaluated : Analyzer) (c o i : Bool) (v : ℕ) (s r : Slots)
      → push_kinds nest code se constants evaluated c o i v s ≡ ok r
      → IsInitialised s
      → IsInitialised r
  unfolding push_kinds
  push_kinds-IsInitialised evaluated c o i v s r e h =
      let last : Slots → Result Slots = λ u. ok (push_condition nest code se constants c v u) in
      let rest : Slots → Result Slots =
        λ t. push_outer nest code se constants evaluated o v t >>= last in
      let run = push_inner nest code se constants evaluated i v s >>= rest in
      let e' = guard-ok (not (c && i)) Error.assertion run r (
        guard-ok (not (c && o)) Error.assertion (guard (not (c && i)) Error.assertion >> run) r
          e) in
      let (t, a, e2) = bind-ok (push_inner nest code se constants evaluated i v s) rest r e' in
      let (u, b, e3) = bind-ok (push_outer nest code se constants evaluated o v t) last r e2 in
      let e4 : push_condition nest code se constants c v u ≡ r = cc in
      subst IsInitialised e4 (
        push_condition-IsInitialised c v u (
          push_outer-IsInitialised evaluated o v t u b
            (push_inner-IsInitialised evaluated i v s t a h)))

  push_slots-IsInitialised :
      (lba evaluated : Analyzer) (l : ℕ) (blocks vs : List ℕ) (s r : Slots)
      → push_slots nest code se constants lba evaluated l blocks vs s ≡ ok r
      → IsInitialised s
      → IsInitialised r
  unfolding push_slots
  push_slots-IsInitialised lba evaluated l blocks [] s r e h =
      let e' : s ≡ r = cc in subst IsInitialised e' h
  push_slots-IsInitialised lba evaluated l blocks (v ∷ vs) s r e h =
      let kinds : Bool → Bool → Bool → Result Slots =
        λ c o i. push_kinds nest code se constants evaluated c o i v s in
      let rest : Slots → Result Slots =
        λ t. push_slots nest code se constants lba evaluated l blocks vs t in
      let (c, _, e1) =
        bind-ok (is_value_used_only_in_loop_nest_conditions nest code v l blocks)
          (λ c. is_value_outer_loop_induction_variable nest lba v l >>= λ o.
            is_value_inner_loop_induction_variable nest lba v l >>= λ i. kinds c o i >>= rest)
          r e in
      let (o, _, e2) =
        bind-ok (is_value_outer_loop_induction_variable nest lba v l)
          (λ o. is_value_inner_loop_induction_variable nest lba v l >>= λ i. kinds c o i >>= rest) r
          e1 in
      let (i, _, e3) =
        bind-ok (is_value_inner_loop_induction_variable nest lba v l) (λ i. kinds c o i >>= rest) r
          e2 in
      let (t, k, e4) = bind-ok (kinds c o i) rest r e3 in
      push_slots-IsInitialised lba evaluated l blocks vs t r e4
        (push_kinds-IsInitialised evaluated c o i v s t k h)

  -- Where `findStackAllocatable` returns, there is an initial value for every slot if there was before.
  pub find_stack_allocatable-IsInitialised :
      (lba : Option Analyzer) (l : ℕ) (blocks inputs : List ℕ) (s r : Slots)
      → find_stack_allocatable nest code se constants lba l blocks inputs s ≡ ok r
      → IsInitialised s
      → IsInitialised r
  unfolding find_stack_allocatable
  find_stack_allocatable-IsInitialised none l blocks inputs s r e h =
      let e' : s ≡ r = cc in subst IsInitialised e' h
  find_stack_allocatable-IsInitialised (some lba) l blocks inputs s r e h =
      let (evaluated, _, e') =
        bind-ok (evaluate nest se 0 5 l true lba)
          (λ x. push_slots nest code se constants lba x l blocks inputs s) r e in
      push_slots-IsInitialised lba evaluated l blocks inputs s r e' h
