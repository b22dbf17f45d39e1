-- ===== src/Extractor/Blocks/Tests.antt =====
-- The blocks 12 and 13, with the instructions 20 and 21, of which 20 uses 21, and the dead block 14.
use atrox.Prelude.{
  ℕ, ◌≡◌, ◌↔◌, refl, Bool, true, false, not, if◌then◌else◌, [], ◌∷◌, All, ◌==◌, contains, none,
  some, ok, Bool-cases, inl, inr, arith,
}
use atrox.Examples.{at}
use atrox.Args.Order.{IsDistinct}
use atrox.Extractor.Blocks.{BlockCode, plain, build_extraction_block_set}
use atrox.Extractor.Blocks.Sets.{IsListed, IsValid, IsFrontFine, build_extraction_block_set_lem}

abbrev pub block_code : BlockCode
block_code = record {
  has_address_taken = λ b. false;
  is_eh_pad = λ b. b == 13;
  is_reachable = λ b. not (b == 14);
  instructions = at ((12, 20 ∷ []) ∷ (13, 21 ∷ []) ∷ []);
  kind = λ v. plain;
  is_block_address = λ v. v == 90;
  parent = λ v. if v == 20 then some 12 else if v == 21 then some 13 else none;
  operands = at ((20, 21 ∷ []) ∷ []);
  users = 20 ∷ 21 ∷ [];
}

instructions_listed :
    (b v : ℕ) → contains (block_code.instructions b) v ≡ true → contains block_code.users v ≡ true
instructions_listed b v c = elim (Bool-cases (b == 12)) [
  | inl y ↦ ground arith
  | inr n ↦ elim (Bool-cases (b == 13)) [ inl y ↦ ground arith | inr m ↦ absurd (ground arith) ]
]

operands_listed :
    (v w : ℕ)
    → contains block_code.users v ≡ true
    → contains (block_code.operands v) w ≡ true
    → contains block_code.users w ≡ true
operands_listed v w u c = elim (Bool-cases (v == 20)) [
  | inl y ↦ ground arith
  | inr n ↦ absurd (ground arith)
]

code-IsListed : IsListed block_code
code-IsListed = record { own = instructions_listed; closed = operands_listed }

blocks-IsDistinct : IsDistinct (12 ∷ 13 ∷ [])
blocks-IsDistinct = (refl, (refl, tt))

build_run :
    build_extraction_block_set block_code true false false (12 ∷ 14 ∷ 13 ∷ []) ≡ ok (12 ∷ 13 ∷ [])
unfolding build_extraction_block_set
build_run = refl

-- The landing pad must not come first.
pad_run : build_extraction_block_set block_code true false false (13 ∷ 12 ∷ []) ≡ ok []
unfolding build_extraction_block_set
pad_run = refl

build_extraction_block_set_lem_example :
    (valid : Bool) × (build_extraction_block_set block_code true false false (12 ∷ 14 ∷ 13 ∷ [])
      ≡ ok (if valid then 12 ∷ 13 ∷ [] else []))
    × ((valid ≡ true) ↔ (
        All (IsValid block_code (12 ∷ 13 ∷ []) false false) (12 ∷ 13 ∷ [])
        × IsFrontFine block_code true (12 ∷ 13 ∷ [])))
build_extraction_block_set_lem_example =
    build_extraction_block_set_lem block_code code-IsListed true false false 12 (14 ∷ 13 ∷ [])
      blocks-IsDistinct
