-- ===== src/Cloner/Tests.antt =====
-- The selection of a loop with an inner loop, and a context with an extractor that finds the inputs 20 and 21 and no output.
use atrox.Prelude.{
  ◌==◌, ◌||◌, if◌then◌else◌, contains, ℕ, assign, emplace, ap, ◌∙◌, arith, Option, ◌≡◌, refl, true,
  false, List, [], ◌∷◌, some, none, ok,
}
use atrox.Examples.{cfg_example, order_example, li_example, infos_example, info_example}
use atrox.Recognition.{IteratorInfo, IteratorRecognitionInfo}
use atrox.Llvm.{LoopInfo}
use atrox.Examples.{loop_blocks}
use atrox.Cloner.Pass.{
  Target, iterator_recognition_based, weighted_iterator_recognition_based, select_blocks,
}
use atrox.Payload.Trees.{select_payload_trees}
use atrox.Payload.Weights.{calculate_payload_weight}
use atrox.Selection.Weighted.{calculate}
use atrox.Selection.Iterator
use atrox.Cloner.Selection.{LoopLaws, IsSelection, select_blocks-IsSelection}
use atrox.Args.Directions.{Queries}
use atrox.Cloner.Loops.{FunctionArgSpec, Extraction, Context, reorder_blocks}

abbrev pub queries_example : Queries
queries_example = record { read = λ v. ok true; write = λ v. ok false }

abbrev pub extraction_example : Extraction
extraction_example = record {
  pure_inputs = 20 ∷ 21 ∷ [];
  outputs = [];
  function = ok (some 50);
  arg_names = "i" ∷ "p" ∷ [];
}

abbrev pub context_example : Context
context_example = record {
  li = li_example;
  skip_calls = true;
  store_success = true;
  store_fail = true;
  blank = info_example;
  is_set = λ i. true;
  is_instruction = λ v. true;
  is_pointer = λ v. true;
  instructions = λ bs. [];
  queries = λ bs. queries_example;
  selector = λ l. ok (12 ∷ 13 ∷ []);
  extract = λ bs l i. ok extraction_example;
  disposition = λ l v. 2;
}

abbrev plain_context : Context
plain_context = record {
  li = li_example;
  skip_calls = false;
  store_success = true;
  store_fail = true;
  blank = info_example;
  is_set = λ i. true;
  is_instruction = λ v. true;
  is_pointer = λ v. true;
  instructions = λ bs. [];
  queries = λ bs. queries_example;
  selector = λ l. ok (12 ∷ 13 ∷ []);
  extract = λ bs l i. ok extraction_example;
  disposition = λ l v. 2;
}

abbrev no_infos : IteratorRecognitionInfo
no_infos l = none

abbrev report_of : Option ℕ → FunctionArgSpec
report_of f = record { func = f; loop = 1; args = [] }

abbrev reports_example : List FunctionArgSpec
reports_example = report_of (some 50) ∷ report_of none ∷ report_of (some 51) ∷ []

-- The function with the loop 1, for the selectors.
abbrev target_example : Target
target_example = record {
  function = record { name = "f"; is_declaration = false };
  context = context_example;
  cfg = cfg_example;
  order = order_example;
  infos = infos_example;
  visits = λ b. [];
  loops = 1 ∷ [];
}

payload_in_loop :
    (info : IteratorInfo) (x : ℕ)
    → infos_example 1 ≡ some info
    → contains (info.payload_only_blocks 1) x ≡ true
    → contains (li_example.blocks 1) x ≡ true
payload_in_loop info x e c =
    let same : info_example ≡ info = cc in
    let c' = ap (λ q. contains (q.payload_only_blocks 1) x) same ∙ c in ground arith

-- The loop 1 with the inner loop 2 of 12 and 13.
abbrev nested_li : LoopInfo
nested_li = record {
  loop_for = λ b. if contains (12 ∷ 13 ∷ []) b then 2 else 1;
  is_loop_header = λ b. b == 10 || b == 12;
  block_depth = λ b. if contains (12 ∷ 13 ∷ []) b then 2 else 1;
  header = λ l. if l == 2 then 12 else 10;
  latch = λ l. if l == 2 then 13 else 14;
  latches = λ l. if l == 2 then 13 ∷ [] else 14 ∷ [];
  blocks = λ l. if l == 2 then 12 ∷ 13 ∷ [] else loop_blocks;
  depth = λ l. if l == 2 then 2 else 1;
  rpo = λ l. if l == 2 then 12 ∷ 13 ∷ [] else loop_blocks;
}

-- The inner loop is payload as a whole, and so is 16.
abbrev nested_info : IteratorInfo
nested_info = record {
  is_iterator = λ i. false;
  payload_only_blocks = λ l. 16 ∷ [];
  has_payload_only_blocks = λ l. l == 2;
}

abbrev nested_target : Target
nested_target = record target_example {
  context = record context_example { li = nested_li };
  infos = λ l. some nested_info;
}

nested_payload :
    (info : IteratorInfo) (x : ℕ)
    → some nested_info ≡ some info
    → contains (info.payload_only_blocks 1) x ≡ true
    → contains (nested_li.blocks 1) x ≡ true
nested_payload info x e c =
    let same : nested_info ≡ info = cc in
    let c' = ap (λ q. contains (q.payload_only_blocks 1) x) same ∙ c in ground arith

loop_laws : LoopLaws nested_target 1
loop_laws = record {
  latch_of = λ h. refl;
  traversed = λ m x. refl;
  own = λ x h. ground (arith, h);
  within = λ m x y b c. ground (arith, b, c);
  header_of = λ h is. ground (arith, is);
  has_header = refl;
  shared = λ m b c. ground (arith, b, c);
  simplified = λ h. refl;
  payload = nested_payload;
}

select_run : select_blocks weighted_iterator_recognition_based target_example 1 ≡ ok (12 ∷ 13 ∷ [])
unfolding select_blocks calculate select_payload_trees assign calculate_payload_weight emplace
select_run = refl

nested_run : select_blocks iterator_recognition_based nested_target 1 ≡ ok (12 ∷ 13 ∷ 16 ∷ [])
unfolding select_blocks Iterator.calculate
nested_run = refl

select_blocks-IsSelection_example :
    IsSelection nested_target 1 (12 ∷ 13 ∷ 16 ∷ [])
    × IsSelection nested_target 1 (reorder_blocks nested_target.context (12 ∷ 13 ∷ 16 ∷ []) 1)
select_blocks-IsSelection_example =
    select_blocks-IsSelection nested_target 1 loop_laws iterator_recognition_based
      (12 ∷ 13 ∷ 16 ∷ []) nested_run
