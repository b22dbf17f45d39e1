-- ===== src/Reports/Json.antt =====
-- `toJSON` of argument specifications and of a report. What the IteratorRecognition library makes of a loop is a
-- parameter, and so is the name of a function. The null loop is 0.
use Prim.Native.String.{String}
use package.text.Mathlib.Text.{◌==◌}
use atrox.Prelude.{ℕ, zero, suc, Bool, if◌then◌else◌, List, [], ◌∷◌, Option, some, none}
use atrox.Args.Directions.{to_int}
use atrox.Cloner.Loops.{ArgSpec, FunctionArgSpec}

-- The `llvm::json` values that the code builds.
mutual
  pub data Json : Type 0 where
    string : String → Json
    number : ℕ → Json
    truth : Bool → Json
    array : Items → Json
    object : Members → Json

  pub data Items : Type 0 where
    no_items : Items
    item : Json → Items → Items

  pub data Members : Type 0 where
    no_members : Members
    member : String → Json → Members → Members

-- `root[key] = value`.
unfoldable pub set_member : String → Json → Members → Members
set_member k v no_members = member k v no_members
set_member k v (member j w m) = if j == k then member k v m else member j w (set_member k v m)

-- One argument specification.
unfoldable pub spec_to_json : ArgSpec → Json
unfolding set_member to_int
spec_to_json s = object (
    set_member "iterator dependent" (truth s.iterator_dependent) (
      set_member "direction" (number (to_int s.direction))
        (set_member "name" (string s.name) no_members)))

-- The loop over the specifications.
unfoldable pub items_to_json : List ArgSpec → Items
unfolding spec_to_json
items_to_json [] = no_items
items_to_json (s ∷ ss) = item (spec_to_json s) (items_to_json ss)

unfoldable pub specs_to_json : List ArgSpec → Json
unfolding set_member items_to_json
specs_to_json ss = object (set_member "argspecs" (array (items_to_json ss)) no_members)

module _ (get_name : ℕ → String) (loop_to_json : ℕ → Json) where
  -- The function's name, or the empty text.
  unfoldable pub func_text : Option ℕ → String
  func_text none = ""
  func_text (some f) = get_name f

  -- What a loop adds to the empty members.
  unfoldable pub loop_members : ℕ → List ArgSpec → Members → Members
  unfolding set_member specs_to_json
  loop_members zero args root = root
  loop_members (suc l) args root =
      set_member "args" (specs_to_json args) (set_member "loop" (loop_to_json (suc l)) root)

  unfoldable pub report_to_json : FunctionArgSpec → Json
  unfolding set_member func_text loop_members
  report_to_json r = object (
      loop_members r.loop r.args (
        set_member "args" (object no_members) (
          set_member "loop" (object no_members)
            (set_member "func" (string (func_text r.func)) no_members))))
