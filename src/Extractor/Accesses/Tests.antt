-- ===== src/Extractor/Accesses/Tests.antt =====
-- The element pointer 31 of the region 13, through a table of 3 rows of 5 numbers, which two accesses go through; and
-- 32, which stands in the block 11.
use atrox.Prelude.{
  ℕ, ◌≡◌, refl, true, false, if◌then◌else◌, [], ◌∷◌, some, none, ◌==◌, ◌⊎◌, any, Error, ok, err,
}
use atrox.Arrays.Types.{other}
use atrox.Arrays.Flatten.{value, Gep}
use atrox.Extractor.Regions.{Ir}
use atrox.Extractor.Accesses.{flatten_accesses, flatten_accesses_err, is_outside}
use atrox.Extractor.Accesses.Flat.{Shape, gep_of, IsFlat, goes_through, flatten_accesses_lem}

abbrev access_ir : Ir
access_ir = record {
  is_argument = λ v. false;
  parent = λ v. if v == 31 then some 13 else if v == 32 then some 11 else none;
  operands = λ v. [];
  users = λ v. [];
  instructions = λ b. if b == 13 then 31 ∷ [] else if b == 11 then 32 ∷ [] else [];
  is_gep = λ v. if v == 31 then true else v == 32;
  pointer_operand = λ v. 8;
  is_global = λ v. false;
  is_load = λ v. false;
  is_store = λ v. false;
  is_phi = λ v. false;
  incoming = λ v. [];
}

abbrev table : Shape
table = record {
  outer = 3;
  next = 5;
  sizes = [];
  elem_type = other 32;
  first = value 0;
  rest = value 1 ∷ value 2 ∷ [];
  scalar = tt;
  sized = refl;
}

abbrev env_example : ℕ → ℕ
env_example k = if k == 1 then 2 else 4

twice : any (is_outside access_ir (13 ∷ [])) (some 31 ∷ none ∷ some 31 ∷ []) ≡ false
unfolding is_outside
twice = refl

flatten_accesses_lem_example :
    (g : ℕ → Gep) × (flatten_accesses access_ir
        (13 ∷ [])
        (some 31 ∷ none ∷ some 31 ∷ [])
        (λ w. gep_of table)
      ≡ ok g)
    × ((any (goes_through access_ir 31) (some 31 ∷ none ∷ some 31 ∷ []) ≡ true)
          × IsFlat env_example table (g 31)
        ⊎ (any (goes_through access_ir 31) (some 31 ∷ none ∷ some 31 ∷ []) ≡ false)
          × (g 31 ≡ gep_of table))
flatten_accesses_lem_example =
    flatten_accesses_lem access_ir (13 ∷ []) env_example (λ v. table)
      (some 31 ∷ none ∷ some 31 ∷ []) 31 twice

hoisted : any (is_outside access_ir (13 ∷ [])) (some 31 ∷ some 32 ∷ []) ≡ true
unfolding is_outside
hoisted = refl

flatten_accesses_err_example :
    (e : Error) × (flatten_accesses access_ir (13 ∷ []) (some 31 ∷ some 32 ∷ []) (λ w. gep_of table)
      ≡ err e)
flatten_accesses_err_example =
    flatten_accesses_err access_ir (13 ∷ []) (some 31 ∷ some 32 ∷ []) (λ w. gep_of table) hoisted
