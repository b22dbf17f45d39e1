-- ===== src/Reports/RoundTrip.antt =====
-- A report can be read back from its JSON.
use Prim.Native.String.{String}
use package.text.Mathlib.Text.{◌==◌}
use atrox.Prelude.{
  ℕ, zero, suc, ◌≡◌, refl, ap, ◌∙◌, Bool, if◌then◌else◌, List, [], ◌∷◌, Option, some, none,
}
use atrox.Args.Directions.{ArgDirection, to_int}
use atrox.Cloner.Loops.{ArgSpec, FunctionArgSpec}
use atrox.Reports.Json.{
  Json, string, number, truth, array, object, Items, no_items, item, Members, no_members, member,
  spec_to_json, items_to_json, specs_to_json, func_text, loop_members, report_to_json,
}

-- The member with a key.
abbrev pub member_at : String → Members → Option Json
member_at k no_members = none
member_at k (member j v m) = if j == k then some v else member_at k m

-- The direction that a number stands for.
abbrev pub direction_of : ℕ → Option ArgDirection
direction_of (suc zero) = some ArgDirection.inbound
direction_of (suc (suc zero)) = some ArgDirection.outbound
direction_of (suc (suc (suc zero))) = some ArgDirection.both
direction_of n = none

direction_of-to_int : (d : ArgDirection) → direction_of (to_int d) ≡ some d
unfolding to_int
direction_of-to_int ArgDirection.inbound = refl
direction_of-to_int ArgDirection.outbound = refl
direction_of-to_int ArgDirection.both = refl

abbrev pub with_direction : String → Bool → Option ArgDirection → Option ArgSpec
with_direction n b none = none
with_direction n b (some d) = some (record { name = n; direction = d; iterator_dependent = b })

abbrev pub spec_of : Option Json → Option Json → Option Json → Option ArgSpec
spec_of (some (string n)) (some (number d)) (some (truth b)) = with_direction n b (direction_of d)
spec_of n d b = none

abbrev pub read_spec : Json → Option ArgSpec
read_spec (object m) =
    spec_of (member_at "name" m) (member_at "direction" m) (member_at "iterator dependent" m)
read_spec j = none

abbrev pub cons_spec : Option ArgSpec → Option (List ArgSpec) → Option (List ArgSpec)
cons_spec (some s) (some ss) = some (s ∷ ss)
cons_spec s ss = none

abbrev pub read_items : Items → Option (List ArgSpec)
read_items no_items = some []
read_items (item j is') = cons_spec (read_spec j) (read_items is')

-- The specifications that the member `args` of a report holds.
abbrev pub read_args : Json → Option (List ArgSpec)
read_args (object m) = elim (member_at "argspecs" m) [
  | some (array is') ↦ read_items is'
  | _ ↦ none
]
read_args j = none

read_spec_lem : (s : ArgSpec) → read_spec (spec_to_json s) ≡ some s
unfolding spec_to_json
read_spec_lem s = ap (with_direction s.name s.iterator_dependent) (direction_of-to_int s.direction)

read_items_lem : (ss : List ArgSpec) → read_items (items_to_json ss) ≡ some ss
unfolding items_to_json
read_items_lem [] = refl
read_items_lem (s ∷ ss) =
    ap (λ q. cons_spec q (read_items (items_to_json ss))) (read_spec_lem s)
    ∙ ap (cons_spec (some s)) (read_items_lem ss)

read_args_lem : (ss : List ArgSpec) → read_args (specs_to_json ss) ≡ some ss
unfolding specs_to_json
read_args_lem ss = read_items_lem ss

abbrev pub report_of :
    Option Json → Option Json → Option Json → Option (String × Json × Option (List ArgSpec))
report_of (some (string f)) (some l) (some a) = some (f, l, read_args a)
report_of f l a = none

-- The name, the loop and the argument specifications of a report, the last if it has some.
abbrev pub read_report : Json → Option (String × Json × Option (List ArgSpec))
read_report (object m) = report_of (member_at "func" m) (member_at "loop" m) (member_at "args" m)
read_report j = none

-- What a report has to tell.
abbrev pub contents :
    (ℕ → String) → (ℕ → Json) → FunctionArgSpec → String × Json × Option (List ArgSpec)
contents get_name loop_to_json r = elim r.loop [
  | zero ↦ (func_text get_name loop_to_json r.func, object no_members, none)
  | suc l ↦ (func_text get_name loop_to_json r.func, loop_to_json (suc l), some r.args)
]

report_cases :
    (get_name : ℕ → String) (loop_to_json : ℕ → Json) (f : Option ℕ) (l : ℕ) (ss : List ArgSpec)
    → read_report (report_to_json get_name loop_to_json (record { func = f; loop = l; args = ss }))
      ≡ some (contents get_name loop_to_json (record { func = f; loop = l; args = ss }))
unfolding report_to_json
report_cases get_name loop_to_json f zero ss = refl
report_cases get_name loop_to_json f (suc l) ss =
    ap (λ a. some (func_text get_name loop_to_json f, loop_to_json (suc l), a)) (read_args_lem ss)

-- The name of the function of a report, its loop and its argument specifications, in order and each with name, direction
-- and dependence on the iterator, are read back from its JSON; a report of no loop is written without either.
pub report_round_trip :
    (get_name : ℕ → String) (loop_to_json : ℕ → Json) (r : FunctionArgSpec)
    → read_report (report_to_json get_name loop_to_json r) ≡ some (contents get_name loop_to_json r)
unfolding report_to_json loop_members
report_round_trip get_name loop_to_json r = report_cases get_name loop_to_json r.func r.loop r.args
