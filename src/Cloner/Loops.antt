-- ===== src/Cloner/Loops.antt =====
-- `LoopBodyCloner::cloneLoop` and `cloneLoops`. What the code extractor makes of the blocks is a parameter, with
-- what it reads of the loop bounds; so are the answers of alias analysis on the blocks.
use Prim.Native.String.{String}
use atrox.Prelude.{
  ℕ, suc, Bool, true, false, not, ◌&&◌, if◌then◌else◌, List, [], ◌∷◌, ◌++◌, Option, some, none,
  ◌==◌, length, replicate, select, contains, Result, Error, ok, err, ◌>>=◌, ◌>>◌, guard,
}
use atrox.Llvm.{LoopInfo}
use atrox.Recognition.{IteratorInfo, IteratorRecognitionInfo}
use atrox.Args.Directions.{
  ArgDirection, Queries, generate_arg_direction, generate_arg_iterator_variance,
}
use atrox.Cloner.Calls.{Inst, detect, has_calls}

pub record ArgSpec : Type 0 where
  pub name : String
  pub direction : ArgDirection
  pub iterator_dependent : Bool

-- A report: the function if one was made.
pub record FunctionArgSpec : Type 0 where
  pub func : Option ℕ
  pub loop : ℕ
  pub args : List ArgSpec

-- What an extraction gives: `getPureInputs`, `getOutputs`, the run of `cloneCodeRegion`, which comes last, with the
-- function that it returns, and the names of its arguments.
pub record Extraction : Type 0 where
  pub pure_inputs : List ℕ
  pub outputs : List ℕ
  pub function : Result (Option ℕ)
  pub arg_names : List String

-- The options, and what the code reads of LLVM and of the IteratorRecognition library. `is_set` is the
-- conversion of an `IteratorInfo` to `bool`, and `blank` a default one.
pub record Context : Type 0 where
  pub li : LoopInfo
  pub skip_calls : Bool
  pub store_success : Bool
  pub store_fail : Bool
  pub blank : IteratorInfo
  pub is_set : IteratorInfo → Bool
  pub is_instruction : ℕ → Bool
  pub is_pointer : ℕ → Bool
  pub instructions : List ℕ → List Inst
  pub queries : List ℕ → Queries
  pub selector : ℕ → Result (List ℕ)
  pub extract : List ℕ → ℕ → IteratorInfo → Result Extraction
  pub disposition : ℕ → ℕ → ℕ

-- `std::count_if`.
unfoldable pub count_if : (ℕ → Bool) → List ℕ → ℕ
count_if p [] = 0
count_if p (x ∷ xs) = let n = count_if p xs in if p x then suc n else n

-- The loop that fills `specs`, as long as the three lists last.
unfoldable pub make_specs : List String → List ArgDirection → List Bool → List ArgSpec
make_specs (n ∷ ns) (d ∷ ds) (v ∷ vs) =
    record { name = n; direction = d; iterator_dependent = v } ∷ make_specs ns ds vs
make_specs (n ∷ ns) (d ∷ ds) [] = []
make_specs (n ∷ ns) [] vs = []
make_specs [] ds vs = []

module _ (c : Context) where
  open c use {
    li, skip_calls, store_success, store_fail, blank, is_set, is_instruction, is_pointer,
    instructions, queries, selector, extract, disposition,
  }

  -- An `ErrorOr` without a value is read.
  unfoldable pub info_of : Option IteratorRecognitionInfo → ℕ → Result IteratorInfo
  info_of none l = ok blank
  info_of (some infos) l = elim (infos l) [ none ↦ err Error.assertion | some info ↦ ok info ]

  -- The blocks in reverse post order.
  unfoldable pub reorder_blocks : List ℕ → ℕ → List ℕ
  reorder_blocks initial l = select (contains initial) (li.rpo l)

  unfoldable pub has_one_iterator : IteratorInfo → List ℕ → Bool
  unfolding count_if
  has_one_iterator info values = count_if (λ v. is_instruction v && info.is_iterator v) values == 1

  unfoldable pub variances : Bool → ℕ → Extraction → List ArgDirection → List Bool
  variances false l e dirs = replicate (length dirs) false
  variances true l e dirs =
      generate_arg_iterator_variance (disposition l) e.pure_inputs e.outputs []

  -- With the function that was made.
  unfoldable pub store_function :
      Bool
      → List ℕ
      → ℕ
      → Extraction
      → ℕ
      → List FunctionArgSpec
      → Result (Bool × List FunctionArgSpec)
  unfolding variances make_specs
  store_function has_idt blocks l e f info =
      generate_arg_direction is_pointer e.pure_inputs e.outputs [] (some (queries blocks))
      >>= λ dirs.
          let report : FunctionArgSpec = record {
            func = some f;
            loop = l;
            args = make_specs e.arg_names dirs (variances has_idt l e dirs);
          } in
          (if store_success
            then (guard (length e.arg_names == length dirs) Error.assertion
                >> ok (true, info ++ report ∷ []))
            else ok (true, info))

  unfoldable pub store_extraction :
      Bool → List ℕ → ℕ → Extraction → List FunctionArgSpec → Result (Bool × List FunctionArgSpec)
  unfolding store_function
  store_extraction has_idt blocks l e info = e.function >>= λ made. elim made [
    | none ↦ ok (false, info)
    | some f ↦ store_function has_idt blocks l e f info
  ]

  -- From the iterator information on.
  unfoldable pub clone_blocks :
      Option IteratorRecognitionInfo
      → Bool
      → List ℕ
      → ℕ
      → List FunctionArgSpec
      → Result (Bool × List FunctionArgSpec)
  unfolding info_of has_one_iterator store_extraction
  clone_blocks itr has_idt blocks l info = info_of itr l >>= λ iterator_info.
      extract blocks l iterator_info >>= λ e.
      (if is_set iterator_info && not (has_one_iterator iterator_info e.pure_inputs)
        then ok (false, info)
        else store_extraction has_idt blocks l e info)

  -- The result is whether the function changed, and `StoreInfo`.
  unfoldable pub clone_loop :
      Option IteratorRecognitionInfo
      → Bool
      → ℕ
      → List FunctionArgSpec
      → Result (Bool × List FunctionArgSpec)
  unfolding reorder_blocks clone_blocks
  clone_loop itr has_idt l info = selector l >>= λ selected. elim selected [
    | [] ↦ ok (false, info)
    | b ∷ bs ↦
        let blocks = reorder_blocks (b ∷ bs) l in
        if skip_calls && has_calls (detect true [] (instructions blocks))
        then ok (false, info)
        else clone_blocks itr has_idt blocks l info
  ]

  -- The report of a loop that failed.
  unfoldable pub store_failure : ℕ → Bool × List FunctionArgSpec → List FunctionArgSpec
  store_failure l (true, info) = info
  store_failure l (false, info) =
      if store_fail then info ++ record { func = none; loop = l; args = [] } ∷ [] else info

  -- The loop over the loops.
  unfoldable pub clone_each :
      Option IteratorRecognitionInfo
      → List ℕ
      → Bool × List FunctionArgSpec
      → Result (Bool × List FunctionArgSpec)
  unfolding clone_loop store_failure
  clone_each itr [] s = ok s
  clone_each itr (l ∷ ls) s = clone_loop itr true l s.1 >>= λ t.
      clone_each itr ls (if t.0 then true else s.0, store_failure l t)

  -- There is a disposition tracker: the optional pointer is read, and is not null.
  unfoldable pub clone_loops :
      Option IteratorRecognitionInfo
      → List ℕ
      → List FunctionArgSpec
      → Result (Bool × List FunctionArgSpec)
  unfolding clone_each
  clone_loops none loops info = err Error.assertion
  clone_loops (some infos) loops info = clone_each (some infos) loops (false, info)
