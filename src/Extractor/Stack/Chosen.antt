-- ===== src/Extractor/Stack/Chosen.antt =====
-- Which inputs get a stack slot, and that each slot has its own initial value.
use mathlib.Core.Path.{subst}
use mathlib.Core.List.{append_assoc, append-nil}
use atrox.Prelude.{
  ℕ, ◌≡◌, refl, sym, ap, ◌∙◌, Bool, true, false, not, ◌&&◌, ◌||◌, if◌then◌else◌, List, [], ◌∷◌,
  ◌++◌, map, select, Option, some, none, ◌==◌, ok, Bool-cases, Option-cases, any, ◌⊎◌, Result,
  Error, err, ◌>>=◌, inl, inr, arith,
}
use atrox.Args.Order.{IsDistinct, IsDistinct-middle}
use atrox.Bounds.Nests.{LoopNest}
use atrox.Bounds.Conditions.{Code, is_value_used_only_in_loop_nest_conditions}
use atrox.Bounds.Spaces.{
  Analyzer, ScalarEvolution, evaluate, get_info_of_variable, is_value_outer_loop_induction_variable,
  is_value_inner_loop_induction_variable,
}
use atrox.Bounds.Variables.{outer_inner_exclusive}
use atrox.Extractor.Stack.{
  Slots, no_slots, Constants, push_slot, info_of, outer_init, push_inner, push_outer,
  push_condition, push_kinds, push_slots, find_stack_allocatable,
}

module _ (nest : LoopNest) (code : Code) (se : ScalarEvolution) (constants : Constants)
    (lba evaluated : Analyzer) (l : ℕ) (blocks : List ℕ) where
  open constants use {is_constant, constant_int}

  -- What the queries answer for each value.
  pub record Answers : Type 0 where
    pub in_conditions : ℕ → Bool
    pub is_outer : ℕ → Bool
    pub is_inner : ℕ → Bool
    pub conditions_lem :
        (v : ℕ)
        → is_value_used_only_in_loop_nest_conditions nest code v l blocks ≡ ok (in_conditions v)
    pub outer_lem : (v : ℕ) → is_value_outer_loop_induction_variable nest lba v l ≡ ok (is_outer v)
    pub inner_lem : (v : ℕ) → is_value_inner_loop_induction_variable nest lba v l ≡ ok (is_inner v)

  module _ (a : Answers) where
    open a use {in_conditions, is_outer, is_inner, conditions_lem, outer_lem, inner_lem}

    abbrev pub is_chosen : ℕ → Bool
    is_chosen v = is_inner v || (is_outer v || in_conditions v)

    -- An induction variable is not used in the conditions and has information, that of an inner loop with a constant
    -- start.
    abbrev pub passes : ℕ → Bool
    passes v =
        if is_inner v
        then (not (in_conditions v) && elim (get_info_of_variable evaluated v) [
          | none ↦ false
          | some i ↦ not (i.start == 0) && is_constant i.start
        ])
        else if is_outer v
        then (not (in_conditions v)
            && elim (get_info_of_variable evaluated v) [ none ↦ false | some i ↦ true ])
        else true

    -- An inner induction variable is not set, an outer one gets its start, and a value of the conditions gets 5.
    abbrev pub init_of : ℕ → Option ℕ
    init_of v =
        if is_inner v
        then none
        else if is_outer v
        then elim (get_info_of_variable evaluated v) [
          | none ↦ none
          | some i ↦ some (outer_init nest code se constants i)
        ]
        else some (constant_int v 5)

    not_both : (v : ℕ) → is_inner v ≡ true → is_outer v ≡ false
    not_both v i = elim (Bool-cases (is_outer v)) [
      | inl o ↦
          absurd
            (outer_inner_exclusive nest lba v l (outer_lem v ∙ ap ok o) (inner_lem v ∙ ap ok i))
      | inr n ↦ n
    ]

    abbrev kinds : ℕ → Slots → Result Slots
    kinds v s =
        push_kinds nest code se constants evaluated (in_conditions v) (is_outer v) (is_inner v) v s

    push_kinds_lem :
        (v : ℕ) (s : Slots)
        → passes v ≡ true
        → kinds v s ≡ ok (if is_chosen v then push_slot s (init_of v) v else s)
    unfolding push_kinds push_inner push_outer push_condition info_of
    push_kinds_lem v s p = elim (Bool-cases (is_inner v)) [
      | inl i ↦
          let o = not_both v i in
          let c : in_conditions v ≡ false = ground (arith, p, i) in
          elim (Option-cases (get_info_of_variable evaluated v)) [
            | inl k ↦ absurd (ground (arith, p, i, k))
            | inr (q, k) ↦
                let st : (not (q.start == 0) && is_constant q.start) ≡ true =
                  ground (arith, p, i, k) in
                rw (i, o, c, push_kinds, push_inner, info_of, k, st) refl
          ]
      | inr n ↦ elim (Bool-cases (is_outer v)) [
        | inl o ↦
            let c : in_conditions v ≡ false = ground (arith, p, n, o) in
            elim (Option-cases (get_info_of_variable evaluated v)) [
              | inl k ↦ absurd (ground (arith, p, n, o, k))
              | inr (q, k) ↦ rw (n, o, c, push_kinds, push_outer, info_of, k) refl
            ]
        | inr m ↦ elim (Bool-cases (in_conditions v)) [
          | inl c ↦ rw (n, m, c) refl
          | inr c ↦ rw (n, m, c) refl
        ]
      ]
    ]

    push_kinds_err : (v : ℕ) (s : Slots) → passes v ≡ false → (e : Error) × (kinds v s ≡ err e)
    unfolding push_kinds push_inner push_outer push_condition info_of
    push_kinds_err v s p = elim (Bool-cases (in_conditions v)) [
      | inl c ↦ elim (Bool-cases (is_outer v)) [
        | inl o ↦ (Error.assertion, rw (c, o) refl)
        | inr m ↦ elim (Bool-cases (is_inner v)) [
          | inl i ↦ (Error.assertion, rw (c, m, i) refl)
          | inr n ↦ absurd (ground (arith, p, m, n))
        ]
      ]
      | inr c ↦ elim (Bool-cases (is_inner v)) [
        | inl i ↦ elim (Option-cases (get_info_of_variable evaluated v)) [
          | inl k ↦ (Error.assertion, rw (c, i, push_kinds, push_inner, info_of, k) refl)
          | inr (q, k) ↦
              let st : (not (q.start == 0) && is_constant q.start) ≡ false =
                ground (arith, p, i, k, c) in
              (Error.assertion, rw (c, i, push_kinds, push_inner, info_of, k, st) refl)
        ]
        | inr n ↦ elim (Bool-cases (is_outer v)) [
          | inl o ↦ elim (Option-cases (get_info_of_variable evaluated v)) [
            | inl k ↦ (Error.assertion, rw (c, n, o, push_kinds, push_outer, info_of, k) refl)
            | inr (q, k) ↦ absurd (ground (arith, p, n, o, k, c))
          ]
          | inr m ↦ absurd (ground (arith, p, m, n))
        ]
      ]
    ]

    -- One round of the loop over the inputs.
    push_slots-step :
        (v : ℕ) (vs : List ℕ) (s : Slots)
        → push_slots nest code se constants lba evaluated l blocks (v ∷ vs) s
          ≡ (kinds v s >>= λ t. push_slots nest code se constants lba evaluated l blocks vs t)
    unfolding push_slots
    push_slots-step v vs s = rw (push_slots, conditions_lem v, outer_lem v, inner_lem v) refl

    abbrev pub all_pass : List ℕ → Bool
    all_pass vs = not (any (λ v. not (passes v)) vs)

    push_slots_lem :
        (vs : List ℕ) (s : Slots)
        → IsDistinct (s.stack_allocas ++ vs)
        → all_pass vs ≡ true
        → (t : Slots) × (push_slots nest code se constants lba evaluated l blocks vs s ≡ ok t)
          × (t.stack_allocas ≡ s.stack_allocas ++ select is_chosen vs)
          × (t.stack_alloca_inits ≡ s.stack_alloca_inits ++ map init_of (select is_chosen vs))
    unfolding push_slots push_slot
    push_slots_lem [] s d p =
        (s, refl, sym (append-nil s.stack_allocas), sym (append-nil s.stack_alloca_inits))
    push_slots_lem (v ∷ vs) s d p =
        let (n, m, e) = IsDistinct-middle s.stack_allocas v vs d in
        let first : push_slots nest code se constants lba evaluated l blocks (v ∷ vs) s
            ≡ push_slots nest code se constants lba evaluated l blocks vs
                (if is_chosen v then push_slot s (init_of v) v else s) =
          push_slots-step v vs s ∙ rw (push_kinds_lem v s (ground (arith, p))) refl in
        let later : all_pass vs ≡ true = ground (arith, p) in
        elim (Bool-cases (is_chosen v)) [
          | inl y ↦
              let fresh : (push_slot s (init_of v) v).stack_allocas ≡ s.stack_allocas ++ v ∷ [] =
                rw n refl in
              let (t, run, as', is') =
                push_slots_lem vs (push_slot s (init_of v) v)
                  (subst IsDistinct
                    (sym (append_assoc s.stack_allocas (v ∷ []) vs) ∙ ap (λ q. q ++ vs) (sym fresh))
                    d)
                  later in
              (
                t,
                first
                    ∙ ap
                        (λ b.
                          push_slots nest code se constants lba evaluated l blocks vs
                            (if b then push_slot s (init_of v) v else s))
                        y
                    ∙ run,
                as'
                    ∙ ap (λ q. q ++ select is_chosen vs) fresh
                    ∙ append_assoc s.stack_allocas (v ∷ []) (select is_chosen vs)
                    ∙ rw y refl,
                is'
                    ∙ append_assoc s.stack_alloca_inits (init_of v ∷ [])
                        (map init_of (select is_chosen vs))
                    ∙ rw y refl,
              )
          | inr y ↦
              let (t, run, as', is') = push_slots_lem vs s e later in
              (
                t,
                first
                    ∙ ap
                        (λ b.
                          push_slots nest code se constants lba evaluated l blocks vs
                            (if b then push_slot s (init_of v) v else s))
                        y
                    ∙ run,
                as' ∙ rw y refl,
                is' ∙ rw y refl,
              )
        ]

    push_slots_err :
        (vs : List ℕ) (s : Slots)
        → all_pass vs ≡ false
        → (e : Error) × (push_slots nest code se constants lba evaluated l blocks vs s ≡ err e)
    unfolding push_slots
    push_slots_err [] s p = absurd cc
    push_slots_err (v ∷ vs) s p = elim (Bool-cases (passes v)) [
      | inr n ↦ let (e, k) = push_kinds_err v s n in (e, push_slots-step v vs s ∙ rw k refl)
      | inl y ↦
          let t = if is_chosen v then push_slot s (init_of v) v else s in
          let (e, k) = push_slots_err vs t (ground (arith, p, y)) in
          (e, push_slots-step v vs s ∙ rw (push_kinds_lem v s y) k)
    ]

    -- For inputs that hold no value twice, where the queries about each value return and the evaluation of the bounds does:
    -- if each input passes, so that it is of one kind, has information if it is an induction variable, and has a constant
    -- start if it is an inner one, the search returns, the stack slots are for the inputs that
    -- are induction variables of another loop of the nest or used in its conditions alone, in order, and
    -- the initial value at each place is that of the slot's own value; and if some input does not pass, the search fails.
    pub stack_slots_lem :
        (inputs : List ℕ)
        → evaluate nest se 0 5 l true lba ≡ ok evaluated
        → IsDistinct inputs
        → ((all_pass inputs ≡ true)
            × (t : Slots) × (find_stack_allocatable nest code se constants
                  (some lba)
                  l
                  blocks
                  inputs
                  no_slots
                ≡ ok t)
            × (t.stack_allocas ≡ select is_chosen inputs)
            × (t.stack_alloca_inits ≡ map init_of (select is_chosen inputs)))
          ⊎ ((all_pass inputs ≡ false)
              × (e : Error) × (find_stack_allocatable nest code se constants
                    (some lba)
                    l
                    blocks
                    inputs
                    no_slots
                  ≡ err e))
    unfolding find_stack_allocatable
    stack_slots_lem inputs run d = elim (Bool-cases (all_pass inputs)) [
      | inl p ↦
          let (t, e, as', is') = push_slots_lem inputs no_slots d p in
          inl (p, t, rw (find_stack_allocatable, run) e, as', is')
      | inr n ↦
          let (e, k) = push_slots_err inputs no_slots n in
          inr (n, e, rw (find_stack_allocatable, run) k)
    ]
