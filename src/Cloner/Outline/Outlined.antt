-- ===== src/Cloner/Outline/Outlined.antt =====
-- What the cloner reports of a loop that the code extractor outlines.
use Prim.Native.String.{String}
use atrox.Prelude.{
  ℕ, ◌+◌, ◌≡◌, refl, sym, ap, ◌∙◌, Bool, true, false, not, ◌&&◌, List, [], ◌∷◌, ◌++◌, suc, map, any,
  length, length-append, length-map, some, ◌==◌, ==_refl, ok, arith,
}
use atrox.Recognition.{IteratorInfo, IteratorRecognitionInfo}
use atrox.Args.Order.{IsDistinct}
use atrox.Args.Directions.{
  ArgDirection, generate_arg_direction-length, generate_arg_iterator_variance_lem,
}
use atrox.Extractor.Stack.{no_slots}
use atrox.Extractor.Prepare.{Prepared, prepare, get_pure_inputs}
use atrox.Extractor.Move.{clones}
use atrox.Extractor.Clone.{arg_count, arg_names, name_of, out_name_of}
use atrox.Extractor.Clone.Scoped.{IsIr}
use atrox.Extractor.Run.{Extracted, clone_region}
use atrox.Extractor.Run.Closed.{is_single_entry}
use atrox.Extractor.Run.Whole.{needs_no_split, clone_region_lem}
use atrox.Extractor.Erased.{AreUnused}
use atrox.Cloner.Loops.{
  FunctionArgSpec, Extraction, Context, info_of, has_one_iterator, make_specs, variances,
  store_function, store_extraction, clone_blocks,
}
use atrox.Cloner.Outline.{Site, region_of, names_of, made_of, extract_from, connected}

length-make_specs :
    (ns : List String) (ds : List ArgDirection) (vs : List Bool)
    → length ds ≡ length ns
    → length vs ≡ length ns
    → length (make_specs ns ds vs) ≡ length ns
unfolding make_specs
length-make_specs [] [] vs h k = refl
length-make_specs [] (d ∷ ds) vs h k = absurd (omega arith)
length-make_specs (n ∷ ns) [] vs h k = absurd (omega arith)
length-make_specs (n ∷ ns) (d ∷ ds) [] h k = absurd (omega arith)
length-make_specs (n ∷ ns) (d ∷ ds) (v ∷ vs) h k =
    ap suc (length-make_specs ns ds vs (omega arith) (omega arith))

module _ (s : Site) (separate : s.machine.aggregate ≡ false) where
  open s use {machine, function_code, nest, condition_code, se, constants, lba}

  pub length-names_of :
      (p : Prepared)
      → length (names_of s machine.aggregate p) ≡ length (get_pure_inputs p) + length p.outputs
  unfolding names_of arg_names
  length-names_of p =
      let used = get_pure_inputs p in
      let m = length-map name_of used in
      let n = length-map out_name_of p.outputs in
      ap (λ b. length (names_of s b p)) separate
      ∙ length-map s.text (arg_names used p.outputs)
      ∙ omega (arith, length-append (map name_of used) (map out_name_of p.outputs))

  module _ (c : Context) where
    length-variances :
        (l : ℕ) (e : Extraction) (dirs : List ArgDirection)
        → length (variances c true l e dirs) ≡ length e.pure_inputs + length e.outputs
    unfolding variances
    length-variances l e dirs =
        ap length (generate_arg_iterator_variance_lem (c.disposition l) e.pure_inputs e.outputs)
        ∙ length-map (λ v. c.disposition l v == 2) (e.pure_inputs ++ e.outputs)
        ∙ length-append e.pure_inputs e.outputs

    -- A function that is made is reported, with as many specifications as there are names.
    stored :
        (blocks : List ℕ) (l : ℕ) (e : Extraction) (f : ℕ) (info : List FunctionArgSpec)
        → c.store_success ≡ true
        → ((v : ℕ) → (b : Bool) × ((c.queries blocks).read v ≡ ok b))
        → ((v : ℕ) → (b : Bool) × ((c.queries blocks).write v ≡ ok b))
        → length e.arg_names ≡ length e.pure_inputs + length e.outputs
        → (r : FunctionArgSpec) × (store_function c true blocks l e f info
            ≡ ok (true, info ++ r ∷ []))
          × (r.func ≡ some f)
          × (r.loop ≡ l)
          × (length r.args ≡ length e.pure_inputs + length e.outputs)
    unfolding store_function
    stored blocks l e f info success reads writes n =
        let (dirs, d, m) =
          generate_arg_direction-length c.is_pointer e.pure_inputs e.outputs (c.queries blocks)
            reads writes in
        let same : ((length e.arg_names == length dirs) ≡ true) =
          rw (n ∙ sym m) (==_refl (length dirs)) in
        (
          record {
            func = some f;
            loop = l;
            args = make_specs e.arg_names dirs (variances c true l e dirs);
          },
          rw (store_function, d, success, same) refl,
          refl,
          refl,
          length-make_specs e.arg_names dirs (variances c true l e dirs) (m ∙ sym n)
                (length-variances l e dirs ∙ sym n)
              ∙ n,
        )

  -- What is extracted from a region.
  abbrev pub extraction : List ℕ → List ℕ → Prepared → Extraction
  extraction blocks region p = record {
    pure_inputs = get_pure_inputs p;
    outputs = p.outputs;
    function = made_of s blocks region p;
    arg_names = names_of s machine.aggregate p;
  }

  pub extracted :
      (c : Context) (i : IteratorInfo) (blocks : List ℕ) (l : ℕ) (region : List ℕ) (p : Prepared)
      → region_of s blocks ≡ ok region
      → prepare
          (machine.ir_of function_code)
          nest
          condition_code
          se
          constants
          (some (λ v. c.is_instruction v && i.is_iterator v))
          (some (lba l))
          l
          region
          no_slots
        ≡ ok p
      → extract_from s c.is_instruction blocks l i ≡ ok (extraction blocks region p)
  unfolding extract_from
  extracted c i blocks l region p e prepared = simp (e, prepared)

  pub made_lem :
      (blocks region : List ℕ) (p : Prepared) (e : Extracted)
      → clone_region machine s.old function_code s.tree region (s.accesses blocks) p ≡ ok (some e)
      → made_of s blocks region p ≡ ok (some (s.pointer_to e))
  unfolding made_of
  made_lem blocks region p e ran = simp ran

  reported :
      (c : Context) (infos : IteratorRecognitionInfo) (i : IteratorInfo) (blocks : List ℕ) (l : ℕ)
      (region : List ℕ) (p : Prepared) (f : ℕ) (info : List FunctionArgSpec) (r : FunctionArgSpec)
      → infos l ≡ some i
      → extract_from s c.is_instruction blocks l i ≡ ok (extraction blocks region p)
      → made_of s blocks region p ≡ ok (some f)
      → (c.is_set i && not (has_one_iterator c i (get_pure_inputs p))) ≡ false
      → store_function (connected s c) true blocks l (extraction blocks region p) f info
        ≡ ok (true, info ++ r ∷ [])
      → clone_blocks (connected s c) (some infos) true blocks l info ≡ ok (true, info ++ r ∷ [])
  unfolding clone_blocks info_of store_extraction has_one_iterator
  reported c infos i blocks l region p f info r known ex made one stores =
      simp (known, ex, one, made, stores)

  -- For a loop with iterator information and blocks that the extractor accepts, as a region whose header needs no split and
  -- in which no block returns, that only its header is entered through, where `prepare` returns and the check of the
  -- iterators passes, the clones of the blocks are new and apart, and no ignored intrinsic is used by the region or is an
  -- output: without the options of aggregated and flattened arguments and of variable arguments, a function
  -- is made, and one report is added. It is of the loop and the function, and has a specification for each argument of the
  -- function, given that the queries of the accesses return.
  pub outlined_report :
      (c : Context) (infos : IteratorRecognitionInfo) (i : IteratorInfo) (blocks : List ℕ) (l h : ℕ)
      (rest : List ℕ) (p : Prepared) (info : List FunctionArgSpec)
      → machine.flatten_array_accesses ≡ false
      → machine.allow_var_args ≡ false
      → infos l ≡ some i
      → region_of s blocks ≡ ok (h ∷ rest)
      → prepare
          (machine.ir_of function_code)
          nest
          condition_code
          se
          constants
          (some (λ v. c.is_instruction v && i.is_iterator v))
          (some (lba l))
          l
          (h ∷ rest)
          no_slots
        ≡ ok p
      → needs_no_split function_code (h ∷ rest) h ≡ true
      → any function_code.returns (h ∷ rest) ≡ false
      → IsDistinct (function_code.blocks ++ clones machine.clone_of (h ∷ rest))
      → is_single_entry function_code (h ∷ rest) h ≡ true
      → IsIr (machine.ir_of function_code) machine.is_pointer (h ∷ rest)
      → AreUnused machine.visited (machine.ir_of function_code) (h ∷ rest) p.outputs
      → (c.is_set i && not (has_one_iterator c i (get_pure_inputs p))) ≡ false
      → c.store_success ≡ true
      → ((v : ℕ) → (b : Bool) × ((c.queries blocks).read v ≡ ok b))
      → ((v : ℕ) → (b : Bool) × ((c.queries blocks).write v ≡ ok b))
      → (e : Extracted) × (r : FunctionArgSpec) × (clone_blocks
            (connected s c)
            (some infos)
            true
            blocks
            l
            info
          ≡ ok (true, info ++ r ∷ []))
        × (clone_region machine s.old function_code s.tree (h ∷ rest) (s.accesses blocks) p
            ≡ ok (some e))
        × (r.func ≡ some (s.pointer_to e))
        × (r.loop ≡ l)
        × (length r.args ≡ arg_count e.clone.params)
  outlined_report c infos i blocks l h rest p info unflattened fixed known region prepared stays
        no_return distinct single laws unused one success reads writes =
      let (e, ran, args, _, _, _, _, _, _, _) =
        clone_region_lem machine separate unflattened s.old function_code s.tree h rest
          (s.accesses blocks) nest condition_code se constants
          (some (λ v. c.is_instruction v && i.is_iterator v)) (some (lba l)) l no_slots p fixed
          stays no_return distinct single laws unused prepared (omega arith) in
      let (r, stores, func, loop, count) =
        stored (connected s c) blocks l (extraction blocks (h ∷ rest) p) (s.pointer_to e) info
          success reads writes (length-names_of p) in
      (
        e,
        r,
        reported c infos i blocks l (h ∷ rest) p (s.pointer_to e) info r known
            (extracted c i blocks l (h ∷ rest) p region prepared)
            (made_lem blocks (h ∷ rest) p e ran) one stores,
        ran,
        func,
        loop,
        count ∙ sym args,
      )
