-- ===== src/Args/Tests.antt =====
-- Runs of `ReorderInputs`, `GenerateArgDirection` and `GenerateArgIteratorVariance`.
use atrox.Prelude.{◌≡◌, refl, true, false, List, [], ◌∷◌, map, some, ok, err, Error, contains}
use atrox.Args.Directions.{
  ArgDirection, is_inbound, is_outbound, Queries, generate_arg_direction,
  generate_arg_direction_lem,
}
use atrox.Args.Order.{reorder_inputs, reorder_inputs_lem, reorder_undefined}

reorder_inputs_lem_example :
    reorder_inputs (contains (3 ∷ [])) (1 ∷ 2 ∷ 3 ∷ 4 ∷ []) ≡ ok (true, 3 ∷ 1 ∷ 2 ∷ 4 ∷ [])
reorder_inputs_lem_example =
    reorder_inputs_lem (contains (3 ∷ [])) (1 ∷ 2 ∷ []) 3 (4 ∷ [])
      (refl, (refl, (refl, (refl, tt)))) refl refl

reorder_undefined_example : reorder_inputs (contains (3 ∷ [])) (1 ∷ 2 ∷ []) ≡ err Error.undefined
reorder_undefined_example = reorder_undefined (contains (3 ∷ [])) 1 (2 ∷ []) refl

-- 1 is read, 2 is written, and 3 is both.
abbrev queries_example : Queries
queries_example = record {
  read = λ v. ok (contains (1 ∷ 3 ∷ []) v);
  write = λ v. ok (contains (2 ∷ 3 ∷ []) v);
}

generate_arg_direction_lem_example :
    (dirs : List ArgDirection) × (generate_arg_direction
        (λ v. true)
        (1 ∷ 2 ∷ 3 ∷ [])
        (3 ∷ [])
        []
        (some queries_example)
      ≡ ok dirs)
    × (map is_outbound dirs ≡ false ∷ true ∷ true ∷ true ∷ [])
    × (map is_inbound dirs ≡ true ∷ false ∷ true ∷ true ∷ [])
generate_arg_direction_lem_example =
    generate_arg_direction_lem (λ v. true) (contains (1 ∷ 3 ∷ [])) (contains (2 ∷ 3 ∷ []))
      (1 ∷ 2 ∷ 3 ∷ []) (3 ∷ []) queries_example (λ v. refl) (λ v. refl)
