-- ===== src/Extractor/Clone/Aggregated.antt =====
-- What happens to a bidirectional input where the arguments are aggregated.
use mathlib.Core.Path.{subst}
use atrox.Prelude.{
  ℕ, suc, ◌+◌, ◌<◌, ◌≤◌, ◌≡◌, refl, sym, Bool, true, false, List, [], ◌∷◌, ◌==◌, ==→≡, ltb, length,
  get_elem?, contains, ◌⊎◌, Error, ok, err, Bool-cases, Option-cases, inl, inr, arith,
}
use atrox.Args.Directions.{is_bidirectional}
use atrox.Extractor.Regions.{Ir}
use atrox.Extractor.Prepare.{Prepared, get_pure_inputs}
use atrox.Extractor.Clone.{
  Rewritten, params, param_types, arg_count, input_args, index_at, output_at, out_argument,
  use_argument, bidirectional_args, clone_blocks, clone_with, clone_function,
}

module _ (is_pointer : ℕ → Bool) (count : ℕ) (p : Prepared) where
  output_at-cases :
      (i : ℕ)
      → (output_at count p i ≡ err Error.undefined)
        ⊎ ((q : ℕ × ℕ) × (output_at count p i ≡ ok q) × (length (get_pure_inputs p) + i < count))
  unfolding output_at
  output_at-cases i = elim (Option-cases (get_elem? p.outputs i)) [
    | inl n ↦ inl (rw (output_at, n) refl)
    | inr (w, e) ↦ elim (Bool-cases (ltb (length (get_pure_inputs p) + i) count)) [
      | inl y ↦ inr ((w, length (get_pure_inputs p) + i), rw (output_at, e, y) refl, ground arith)
      | inr n ↦ inl (rw (output_at, e, n) refl)
    ]
  ]

  bidirectional_args-undefined :
      (v : ℕ) (vs : List ℕ) (s : Rewritten)
      → contains vs v ≡ true
      → is_bidirectional v p.output_to_input ≡ true
      → count ≤ length (get_pure_inputs p) + index_at p.input_to_output v
      → bidirectional_args is_pointer count p vs s ≡ err Error.undefined
  unfolding bidirectional_args out_argument
  bidirectional_args-undefined v [] s c b le = absurd cc
  bidirectional_args-undefined v (x ∷ vs) s c b le =
      elim (Bool-cases (is_bidirectional x p.output_to_input)) [
        | inl y ↦ elim (output_at-cases (index_at p.input_to_output x)) [
          | inl e ↦ rw (y, e) refl
          | inr (q, e, lt) ↦
              let other : (v == x) ≡ false = elim (Bool-cases (v == x)) [
                | inl z ↦
                    let lt' =
                      subst (λ u. length (get_pure_inputs p) + index_at p.input_to_output u < count)
                        (sym (==→≡ v x z)) lt in
                    absurd (omega arith)
                | inr n ↦ n
              ] in
              rw (y, e)
                (bidirectional_args-undefined v vs (use_argument is_pointer count p x s q)
                  (ground arith) b le)
        ]
        | inr n ↦
            let other : (v == x) ≡ false = elim (Bool-cases (v == x)) [
              | inl z ↦
                  let n' =
                    subst (λ u. is_bidirectional u p.output_to_input ≡ false) (sym (==→≡ v x z))
                      n in
                  absurd cc
              | inr k ↦ k
            ] in
            rw n (bidirectional_args-undefined v vs s (ground arith) b le)
      ]

arg_count-le :
    (is_pointer : ℕ → Bool) (used outputs : List ℕ)
    → arg_count (params is_pointer true used outputs) ≤ 1
unfolding arg_count params param_types
arg_count-le is_pointer [] [] = omega arith
arg_count-le is_pointer [] (w ∷ ws) =
    let some' : ltb 0 (0 + suc (length ws)) ≡ true = ground arith in rw some' (omega arith)
arg_count-le is_pointer (v ∷ vs) ws =
    let some' : ltb 0 (suc (length vs) + length ws) ≡ true = ground arith in rw some' (omega arith)

-- With aggregated arguments the function has one, the struct: a bidirectional input whose argument would not be the
-- first makes the code read behind the arguments.
pub aggregate_undefined :
    (ir : Ir) (is_pointer : ℕ → Bool) (blocks : List ℕ) (p : Prepared) (v : ℕ)
    → contains p.inputs v ≡ true
    → is_bidirectional v p.output_to_input ≡ true
    → 1 ≤ length (get_pure_inputs p) + index_at p.input_to_output v
    → clone_function ir is_pointer true blocks p ≡ err Error.undefined
unfolding clone_function clone_with
aggregate_undefined ir is_pointer blocks p v c b le =
    let used = get_pure_inputs p in
    let start : Rewritten = record { root = []; region = clone_blocks ir blocks } in
    let count = arg_count (params is_pointer true used p.outputs) in
    let small = arg_count-le is_pointer used p.outputs in
    rw
      (bidirectional_args-undefined is_pointer count p v p.inputs (input_args true 0 used start) c b
        (omega arith))
      refl
