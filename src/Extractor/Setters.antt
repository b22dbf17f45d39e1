-- ===== src/Extractor/Setters.antt =====
-- `setInputs`, `setOutputs` and `setStackAllocas` of include/Atrox/Transforms/Utils/CodeExtractor.hpp, by which a client
-- replaces what `prepare` found. The argument is another set than the member.
use atrox.Prelude.{
  ℕ, ◌≡◌, ◌∙◌, not, ◌&&◌, List, [], contains, insert_all, contains-insert_all, contains-select,
  Option, some, none, arith,
}
use atrox.Args.Directions.{is_bidirectional}
use atrox.Extractor.Prepare.{Prepared, is_input_only, get_pure_inputs}

unfoldable pub set_inputs : List ℕ → Prepared → Prepared
set_inputs xs p = record p { inputs = insert_all [] xs }

unfoldable pub set_outputs : List ℕ → Prepared → Prepared
set_outputs xs p = record p { outputs = insert_all [] xs }

-- Without initial values those that are there stay.
unfoldable pub set_inits : Option (List (Option ℕ)) → List (Option ℕ) → List (Option ℕ)
set_inits none old = old
set_inits (some xs) old = xs

unfoldable pub set_stack_allocas : List ℕ → Option (List (Option ℕ)) → Prepared → Prepared
unfolding set_inits
set_stack_allocas xs inits p = record p {
  slots = record {
    stack_allocas = insert_all [] xs;
    stack_alloca_inits = set_inits inits p.slots.stack_alloca_inits;
  };
}

-- Behind the setters of the stack slots and of the inputs, the pure inputs are the new inputs that are no
-- new stack slots and that the maps between inputs and outputs, which stay, do not take for bidirectional.
pub pure_inputs_of_set :
    (xs ys : List ℕ) (inits : Option (List (Option ℕ))) (p : Prepared) (v : ℕ)
    → contains (get_pure_inputs (set_inputs xs (set_stack_allocas ys inits p))) v
      ≡ (contains xs v && not (contains ys v) && not (is_bidirectional v p.output_to_input))
unfolding set_inputs set_stack_allocas get_pure_inputs is_input_only
pure_inputs_of_set xs ys inits p v =
    contains-select (is_input_only (set_inputs xs (set_stack_allocas ys inits p)))
      (insert_all [] xs) v
    ∙ ground (arith, contains-insert_all [] xs v, contains-insert_all [] ys v)
