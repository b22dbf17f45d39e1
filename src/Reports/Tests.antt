-- ===== src/Reports/Tests.antt =====
-- The report of a function 5 of the loop 1, with one argument.
use Prim.Native.String.{String}
use atrox.Prelude.{ℕ, ◌≡◌, true, [], ◌∷◌, some}
use atrox.Args.Directions.{ArgDirection}
use atrox.Cloner.Loops.{ArgSpec, FunctionArgSpec}
use atrox.Reports.Json.{Json, number, func_text, report_to_json}
use atrox.Reports.RoundTrip.{read_report, report_round_trip}

abbrev arg_example : ArgSpec
arg_example = record { name = "i"; direction = ArgDirection.both; iterator_dependent = true }

abbrev report_example : FunctionArgSpec
report_example = record { func = some 5; loop = 1; args = arg_example ∷ [] }

abbrev name_example : ℕ → String
name_example f = "body"

abbrev loop_json : ℕ → Json
loop_json l = number l

report_round_trip_example :
    read_report (report_to_json name_example loop_json report_example)
    ≡ some ("body", number 1, some (arg_example ∷ []))
unfolding func_text
report_round_trip_example = report_round_trip name_example loop_json report_example
