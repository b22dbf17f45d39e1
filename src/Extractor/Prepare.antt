-- ===== src/Extractor/Prepare.antt =====
-- `CodeExtractor::prepare` and `getPureInputs`.
use atrox.Prelude.{
  ℕ, Bool, not, ◌&&◌, List, [], Option, some, none, select, contains, Result, ok, ◌>>=◌,
}
use atrox.Args.Directions.{is_bidirectional}
use atrox.Args.Order.{reorder_inputs}
use atrox.Bounds.Nests.{LoopNest}
use atrox.Bounds.Conditions.{Code}
use atrox.Bounds.Spaces.{Analyzer, ScalarEvolution}
use atrox.Extractor.Regions.{
  Ir, Values, find_inputs_outputs, find_global_inputs_outputs, map_inputs_outputs,
}
use atrox.Extractor.Stack.{Slots, Constants, find_stack_allocatable}

-- What `prepare` sets.
pub record Prepared : Type 0 where
  pub inputs : List ℕ
  pub outputs : List ℕ
  pub input_to_output : List (ℕ × ℕ)
  pub output_to_input : List (ℕ × ℕ)
  pub slots : Slots

-- `isInputOnly`.
unfoldable pub is_input_only : Prepared → ℕ → Bool
unfolding is_bidirectional
is_input_only p v =
    not (is_bidirectional v p.output_to_input) && not (contains p.slots.stack_allocas v)

unfoldable pub get_pure_inputs : Prepared → List ℕ
unfolding is_input_only
get_pure_inputs p = select (is_input_only p) p.inputs

-- The inputs in the order that the iterator asks for, if there is iterator information.
unfoldable pub reorder_by : Option (ℕ → Bool) → List ℕ → Result (List ℕ)
unfolding reorder_inputs
reorder_by none inputs = ok inputs
reorder_by (some is_iterator) inputs = reorder_inputs is_iterator inputs >>= λ r. ok r.1

-- The two searches, from empty sets.
unfoldable pub find_values : Ir → List ℕ → Values
unfolding find_inputs_outputs find_global_inputs_outputs
find_values ir blocks =
    find_global_inputs_outputs ir blocks
      (find_inputs_outputs ir blocks (record { inputs = []; outputs = [] }))

module _ (ir : Ir) (nest : LoopNest) (code : Code) (se : ScalarEvolution)
    (constants : Constants) where
  -- The slots that are there stay: `prepare` does not clear them.
  unfoldable pub prepare :
      Option (ℕ → Bool) → Option Analyzer → ℕ → List ℕ → Slots → Result Prepared
  unfolding find_values map_inputs_outputs reorder_by find_stack_allocatable
  prepare is_iterator lba l blocks slots =
      let found = find_values ir blocks in
      let maps = map_inputs_outputs ir found ([], []) in
      reorder_by is_iterator found.inputs >>= λ inputs'.
      find_stack_allocatable nest code se constants lba l blocks inputs' slots >>= λ slots'.
      ok (record {
        inputs = inputs';
        outputs = found.outputs;
        input_to_output = maps.0;
        output_to_input = maps.1;
        slots = slots';
      })
