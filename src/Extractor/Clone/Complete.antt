-- ===== src/Extractor/Clone/Complete.antt =====
-- After `prepare`, the clone of a region is made, and it stands on its own.
use atrox.Prelude.{
  ℕ, zero, suc, ◌+◌, ◌<◌, ◌≡◌, refl, ap, ◌∙◌, Bool, true, false, ◌&&◌, List, [], ◌∷◌, ==_refl, ltb,
  length, length-append, length-map, map, get_elem?, contains, contains-select, All, Option, some,
  Result, ok, ◌>>=◌, Bool-cases, inl, inr, arith,
}
use atrox.Args.Directions.{is_bidirectional}
use atrox.Extractor.Regions.{Ir, defined_in_region, defined_in_caller}
use atrox.Extractor.Prepare.{Prepared, prepare, is_input_only, get_pure_inputs}
use atrox.Bounds.Nests.{LoopNest}
use atrox.Bounds.Conditions.{Code}
use atrox.Bounds.Spaces.{Analyzer, ScalarEvolution}
use atrox.Extractor.Stack.{Slots, Constants}
use atrox.Extractor.Prepared.Slots.{IsInitialised}
use atrox.Extractor.Clone.{
  cloned, Rewritten, ExitStore, clone_blocks, params, param_types, arg_count, arg_names,
  output_type, type_of, input_args, index_at, output_at, out_argument, slot_args, exit_stores,
  CloneFunction, clone_with, clone_function, remap_operand, remap_function, clone_code_region,
}
use atrox.Extractor.Clone.Operands.{AllFine, input_args-AllFine}
use atrox.Extractor.Clone.Rewrites.{
  get_elem?-lt, HasArgument, IsStored, bidirectional_args-AllFine, exit_stores-IsStored,
  slot_args-AllFine,
}
use atrox.Extractor.Clone.Remapped.{clone_blocks-start, IsFree, remap_region-AllFine}
use atrox.Extractor.Clone.Scoped.{IsIr, IsPrepared, prepare-IsPrepared, is_operand}

get_elem?-contains : (xs : List ℕ) (i w : ℕ) → get_elem? xs i ≡ some w → contains xs w ≡ true
get_elem?-contains [] i w h = absurd cc
get_elem?-contains (x ∷ xs) zero w h = let e : x ≡ w = cc in ground (arith, ==_refl w)
get_elem?-contains (x ∷ xs) (suc i) w h = ground (arith, get_elem?-contains xs i w h)

-- A store of the exit block, after remapping: of the clone of an output that the region defines, to an argument.
abbrev pub IsScopedStore : Ir → List ℕ → List ℕ → ℕ → ExitStore → Type 0
IsScopedStore ir blocks outputs count s =
    (s.pointer < count)
    × (w : ℕ) × (s.value ≡ cloned w)
    × (defined_in_region ir blocks w ≡ true)
    × (contains outputs w ≡ true)

module _ (ir : Ir) (is_pointer : ℕ → Bool) (blocks : List ℕ) (p : Prepared)
    (prepared : IsPrepared ir is_pointer blocks p) where
  -- One argument for each pure input and each output.
  abbrev pub expected_args : ℕ
  expected_args = length (get_pure_inputs p) + length p.outputs

  arg_count-params :
      arg_count (params is_pointer false (get_pure_inputs p) p.outputs) ≡ expected_args
  unfolding arg_count params param_types
  arg_count-params =
      let m = length-map type_of (get_pure_inputs p) in
      let n = length-map (output_type is_pointer false) p.outputs in
      omega (
        arith,
        length-append (map type_of (get_pure_inputs p))
            (map (output_type is_pointer false) p.outputs),
      )

  inputs-HasArgument :
      (v : ℕ) → contains p.inputs v ≡ true → HasArgument ir is_pointer blocks expected_args p v
  unfolding out_argument output_at index_at
  inputs-HasArgument v c b =
      let (i, e, lt) = prepared.mapped v c b in
      let (w, g) = get_elem?-lt p.outputs i lt in
      let n = length (get_pure_inputs p) + i in
      let at_i : index_at p.input_to_output v ≡ i = rw (index_at, e) refl in
      let fits : ltb n expected_args ≡ true = ground arith in
      (
        w,
        n,
        ap (output_at expected_args p) at_i ∙ rw (output_at, g, fits) refl,
        omega arith,
        get_elem?-contains p.outputs i w g,
      )

  remap_stores :
      (ss : List ExitStore)
      → All (IsStored ir is_pointer blocks expected_args p) ss
      → All
          (IsScopedStore ir blocks p.outputs expected_args)
          (map (λ s. record { value = remap_operand ir blocks s.value; pointer = s.pointer }) ss)
  unfolding remap_operand
  remap_stores [] h = tt
  remap_stores (s ∷ ss) ((lt, w, e, c, n), h) =
      let d = prepared.stored w c n in
      ((lt, w, rw (e, remap_operand, d) refl, d, c), remap_stores ss h)

  All-HasArgument :
      (vs : List ℕ)
      → ((v : ℕ) → contains vs v ≡ true → contains p.inputs v ≡ true)
      → All (HasArgument ir is_pointer blocks expected_args p) vs
  All-HasArgument [] f = tt
  All-HasArgument (v ∷ vs) f = (
    inputs-HasArgument v (f v (ground (arith, ==_refl v))),
    All-HasArgument vs (λ w c. f w (ground arith)),
  )

  -- What is left of the region's own operands after the three loops.
  abbrev IsLeft : ℕ → Type 0
  IsLeft w =
      (is_operand ir is_pointer blocks w ≡ true)
      × (contains (get_pure_inputs p) w ≡ false)
      × ((contains p.inputs w && is_bidirectional w p.output_to_input) ≡ false)
      × (contains p.slots.stack_allocas w ≡ false)

  IsLeft-caller : (w : ℕ) → IsLeft w → defined_in_caller ir blocks w ≡ false
  unfolding get_pure_inputs is_input_only
  IsLeft-caller w (o, u, b, a) = elim (Bool-cases (defined_in_caller ir blocks w)) [
    | inl y ↦
        let c = prepared.covered w o y in
        let n : is_bidirectional w p.output_to_input ≡ false = ground arith in
        let pure : is_input_only p w ≡ true = rw (is_input_only, n, a) refl in
        let sel = contains-select (is_input_only p) p.inputs w in absurd (ground arith)
    | inr n ↦ n
  ]

  -- The clone of the region is made; it has one argument for each pure input and each output, every operand of
  -- a cloned instruction is an argument, loaded from an argument or a slot, the clone of an instruction of the region or
  -- defined in neither part of the caller, and the stores of the exit block store clones.
  pub clone_code_region-IsScoped :
      (c : CloneFunction) × (clone_code_region ir is_pointer false blocks p ≡ ok c)
      × (arg_count c.params ≡ expected_args)
      × AllFine ir blocks expected_args (length p.slots.stack_allocas) (IsFree ir blocks) c.region
      × All (IsScopedStore ir blocks p.outputs expected_args) c.exit
  unfolding clone_code_region clone_function clone_with remap_function
  clone_code_region-IsScoped =
      let used = get_pure_inputs p in
      let count = expected_args in
      let slots = length p.slots.stack_allocas in
      let Start : ℕ → Type 0 = λ w. is_operand ir is_pointer blocks w ≡ true in
      let Rest : ℕ → Type 0 = λ w. Start w × (contains used w ≡ false) in
      let Slot : ℕ → Type 0 =
        λ w. Rest w × ((contains p.inputs w && is_bidirectional w p.output_to_input) ≡ false) in
      let start : Rewritten = record { root = []; region = clone_blocks ir blocks } in
      let first = input_args false 0 used start in
      let a0 = clone_blocks-start ir blocks count slots Start blocks (λ w c. c) in
      let a1 =
        input_args-AllFine ir blocks count slots Start Rest 0 used start (omega arith)
          (λ w o c. (o, c)) a0 in
      let arguments = All-HasArgument p.inputs (λ v c. c) in
      let (s, e, a2) =
        bidirectional_args-AllFine ir is_pointer blocks count p slots Rest Slot p.inputs first
          arguments (λ w o c. (o, c)) a1 in
      let (t, e', a3) =
        slot_args-AllFine ir blocks count p.slots Slot IsLeft 0 p.slots.stack_allocas s
          prepared.initialised (omega arith) (λ w ((o, u), b) c. (o, u, b, c)) a2 in
      let (stores, e'', k) = exit_stores-IsStored ir is_pointer blocks count p p.inputs arguments in
      let made : Rewritten → List ExitStore → CloneFunction = λ t stores. record {
        params = params is_pointer false used p.outputs;
        names = arg_names used p.outputs;
        root = t.root;
        region = t.region;
        exit = stores;
      } in
      let k3 : Rewritten → List ExitStore → Result CloneFunction = λ t stores. ok (made t stores) in
      let k2 : Rewritten → Result CloneFunction =
        λ t. exit_stores is_pointer count p p.inputs >>= k3 t in
      let k1 : Rewritten → Result CloneFunction =
        λ s. slot_args p.slots 0 p.slots.stack_allocas s >>= k2 in
      let run : clone_function ir is_pointer false blocks p ≡ ok (made t stores) =
        ap (clone_with ir is_pointer false blocks p) arg_count-params
        ∙ ap (λ q. q >>= k1) e
        ∙ ap (λ q. q >>= k2) e'
        ∙ ap (λ q. q >>= k3 t) e'' in
      (
        remap_function ir blocks (made t stores),
        ap (λ q. q >>= λ f. ok (remap_function ir blocks f)) run,
        arg_count-params,
        remap_region-AllFine ir blocks count slots IsLeft (λ w k. (IsLeft-caller w k, k.0)) t.region
            a3,
        remap_stores stores k,
      )

-- Where `prepare` returned, with slots that all had an initial value, the clone of the region is made: it has one
-- argument for each pure input and each output, every operand of a cloned instruction is an argument, loaded from
-- an argument or a slot that is there, the clone of an instruction of the region, or a value that is defined in no block of
-- the caller, and what the exit block stores are such clones, to arguments. The arguments are not aggregated.
pub prepared_clone_lem :
    (ir : Ir) (is_pointer : ℕ → Bool) (blocks : List ℕ) (nest : LoopNest) (code : Code)
    (se : ScalarEvolution) (constants : Constants)
    → IsIr ir is_pointer blocks
    → (is_iterator : Option (ℕ → Bool)) (lba : Option Analyzer) (l : ℕ) (slots : Slots)
      (p : Prepared)
    → prepare ir nest code se constants is_iterator lba l blocks slots ≡ ok p
    → IsInitialised slots
    → (c : CloneFunction) × (clone_code_region ir is_pointer false blocks p ≡ ok c)
      × (arg_count c.params ≡ length (get_pure_inputs p) + length p.outputs)
      × AllFine ir blocks
          (length (get_pure_inputs p) + length p.outputs)
          (length p.slots.stack_allocas)
          (IsFree ir blocks)
          c.region
      × All
          (IsScopedStore ir blocks p.outputs (length (get_pure_inputs p) + length p.outputs))
          c.exit
prepared_clone_lem ir is_pointer blocks nest code se constants laws is_iterator lba l slots p e
      init =
    clone_code_region-IsScoped ir is_pointer blocks p (
      prepare-IsPrepared ir is_pointer blocks nest code se constants laws is_iterator lba l slots p
        e init)
