-- ===== src/Cloner/Outline/Tests.antt =====
-- The function of Extractor/Run/Tests, whose block 12 is outlined: 7 is the iterator.
use Prim.Native.String.{String}
use mathlib.Core.Path.{subst}
use atrox.Prelude.{
  ℕ, ◌+◌, sym, ==→≡, Option, List, Bool, map, any, contains, arith, ◌≡◌, refl, true, false, [], ◌∷◌,
  length, none, some, ok, ◌==◌, assign, not, ◌&&◌,
}
use atrox.Recognition.{IteratorInfo}
use atrox.Args.Directions.{is_bidirectional}
use atrox.Bounds.Tests.{nest_example, se_example, code_example, analyzed_example}
use atrox.Bounds.Conditions.{is_value_used_only_in_loop_nest_conditions}
use atrox.Bounds.Spaces.{
  is_value_outer_loop_induction_variable, is_value_inner_loop_induction_variable,
}
use atrox.Extractor.Blocks.Tests.{block_code}
use atrox.Extractor.Stack.{no_slots}
use atrox.Extractor.Prepare.{Prepared, prepare, get_pure_inputs}
use atrox.Extractor.Move.{clones}
use atrox.Extractor.Clone.{ArgName, name_of, out_name_of, arg_count}
use atrox.Extractor.Clone.Tests.{clone_ir, constants_example, clone_laws}
use atrox.Extractor.Run.{Extracted, clone_region}
use atrox.Extractor.Run.Tests.{
  machine, old_function, function_code, blocks-IsDistinct, unused_example,
}
use atrox.Cloner.Loops.{
  FunctionArgSpec, Extraction, Context, reorder_blocks, has_one_iterator, clone_blocks, clone_loops,
}
use atrox.Cloner.Reports.{IsTotal, succeeded, clone_loops_lem}
use atrox.Extractor.Run.Whole.{clone_region_lem}
use atrox.Cloner.Tests.{context_example}
use atrox.Cloner.Outline.{Site, region_of, connected}
use atrox.Cloner.Outline.Outlined.{
  outlined_report, extraction, extracted, made_lem, length-names_of,
}

abbrev text_example : ArgName → String
text_example (name_of v) = "in"
text_example (out_name_of v) = "result.out"

abbrev site : Site
site = record {
  machine = machine false;
  block_code = block_code;
  function_code = function_code;
  tree = none;
  old = old_function;
  nest = nest_example;
  condition_code = code_example;
  se = se_example;
  constants = constants_example;
  lba = λ l. analyzed_example;
  accesses = λ bs. [];
  text = text_example;
  pointer_to = λ e. 50;
}

abbrev seven : IteratorInfo
seven = record {
  is_iterator = λ v. v == 7;
  payload_only_blocks = λ l. [];
  has_payload_only_blocks = λ l. false;
}

abbrev prepared_site : Prepared
prepared_site = record {
  inputs = 7 ∷ 5 ∷ [];
  outputs = 20 ∷ [];
  input_to_output = (5, 0) ∷ [];
  output_to_input = (20, 5) ∷ [];
  slots = no_slots;
}

region_run : region_of site (12 ∷ []) ≡ ok (12 ∷ [])
unfolding region_of
region_run = refl

site_run :
    prepare clone_ir nest_example code_example se_example constants_example
      (some (λ v. v == 7))
      (some analyzed_example)
      1
      (12 ∷ [])
      no_slots
    ≡ ok prepared_site
unfolding prepare assign is_value_used_only_in_loop_nest_conditions
    is_value_outer_loop_induction_variable is_value_inner_loop_induction_variable
site_run = refl

one_iterator :
    (true && not (has_one_iterator context_example seven (get_pure_inputs prepared_site))) ≡ false
unfolding has_one_iterator get_pure_inputs is_bidirectional
one_iterator = refl

outlined_report_example :
    (e : Extracted) × (r : FunctionArgSpec) × (clone_blocks
        (connected site context_example)
        (some (λ l. some seven))
        true
        (12 ∷ [])
        1
        []
      ≡ ok (true, r ∷ []))
    × (clone_region (machine false) old_function function_code none (12 ∷ []) [] prepared_site
        ≡ ok (some e))
    × (r.func ≡ some 50)
    × (r.loop ≡ 1)
    × (length r.args ≡ arg_count e.clone.params)
unfolding clones
outlined_report_example =
    outlined_report site refl context_example (λ l. some seven) seven (12 ∷ []) 1 12 []
      prepared_site [] refl refl refl region_run site_run refl refl blocks-IsDistinct refl
      clone_laws unused_example one_iterator refl (λ v. (true, refl)) (λ v. (false, refl))

-- The cloner with this extractor, where the block 12 is selected.
abbrev site_context : Context
site_context = record (connected site context_example) { selector = λ l. ok (12 ∷ []) }

made_run :
    (e : Extracted) × (clone_region
        (machine false)
        old_function
        function_code
        none
        (12 ∷ [])
        []
        prepared_site
      ≡ ok (some e))
unfolding clones
made_run =
    let (e, ran, _, _, _, _, _, _, _, _) =
      clone_region_lem (machine false) refl refl old_function function_code none 12 [] []
        nest_example code_example se_example constants_example (some (λ v. v == 7))
        (some analyzed_example) 1 no_slots prepared_site refl refl refl blocks-IsDistinct refl
        clone_laws unused_example site_run (omega arith) in
    (e, ran)

-- What is extracted of the blocks that a loop has.
abbrev Extracts : ℕ → List ℕ → IteratorInfo → Type 0
Extracts l bs i =
    (e : Extraction) × (site_context.extract (reorder_blocks site_context bs l) l i ≡ ok e)
    × ((made : Option ℕ) × (e.function ≡ ok made))
    × (length e.arg_names ≡ length e.pure_inputs + length e.outputs)

site_extracted : Extracts 1 (12 ∷ []) seven
unfolding reorder_blocks
site_extracted =
    let (made, ran) = made_run in
    (
      extraction site refl (12 ∷ []) (12 ∷ []) prepared_site,
      extracted site refl context_example seven (12 ∷ []) 1 (12 ∷ []) prepared_site region_run
          site_run,
      (some 50, made_lem site refl (12 ∷ []) (12 ∷ []) prepared_site made ran),
      length-names_of site refl prepared_site,
    )

site-Extracts :
    (l b : ℕ) (rest : List ℕ) (i : IteratorInfo)
    → contains (1 ∷ []) l ≡ true
    → site_context.selector l ≡ ok (b ∷ rest)
    → some seven ≡ some i
    → Extracts l (b ∷ rest) i
site-Extracts l b rest i m s k =
    let at : 1 ≡ l = sym (==→≡ l 1 (ground (arith, m))) in
    let bs : 12 ∷ [] ≡ b ∷ rest = cc in
    let info : seven ≡ i = cc in
    subst (λ q. Extracts q (b ∷ rest) i) at
      (subst (λ q. Extracts 1 q i) bs (subst (Extracts 1 (12 ∷ [])) info site_extracted))

site-IsTotal : IsTotal site_context (λ l. some seven) (1 ∷ [])
site-IsTotal = record {
  selects = λ l m. (12 ∷ [], refl);
  known = λ l m. (seven, refl);
  extracts = site-Extracts;
  reads = λ l b rest v m s. (true, refl);
  writes = λ l b rest v m s. (false, refl);
}

clone_loops_lem_example :
    (t : Bool × List FunctionArgSpec) × (clone_loops site_context
        (some (λ l. some seven))
        (1 ∷ [])
        []
      ≡ ok t)
    × (map FunctionArgSpec.loop t.1 ≡ 1 ∷ [])
    × (t.0 ≡ any succeeded t.1)
clone_loops_lem_example =
    clone_loops_lem site_context (λ l. some seven) (1 ∷ []) site-IsTotal refl refl
