-- ===== src/Extractor/Erased.antt =====
-- The `InstructionEraser` that `cloneCodeRegion` runs over the new function. What its root and its exit hold is no
-- intrinsic, so the clones are what it collects.
use atrox.Prelude.{
  ℕ, ◌≡◌, refl, sym, ap, ◌∙◌, Bool, true, false, not, ◌||◌, if◌then◌else◌, List, [], ◌∷◌, map, any,
  All, select, contains, Result, Error, ok, ◌>>◌, guard, ◌==◌, ==→≡, ==_refl, Bool-cases, inl, inr,
}
use atrox.Cloner.Calls.{
  Visited, is_ignored_intrinsic, visit_to_remove, ignored, visit_to_remove_lem,
}
use atrox.Extractor.Regions.{Ir}
use atrox.Extractor.Clone.{
  Operand, original, argument, loaded_argument, loaded_field, loaded_slot, cloned, Instruction,
  ExitStore, CloneFunction,
}
use atrox.Extractor.Clone.Operands.{IsFine, AllFine}
use atrox.Extractor.Clone.Complete.{IsScopedStore}

unfoldable pub is_clone_of : ℕ → Operand → Bool
is_clone_of r (original w) = false
is_clone_of r (argument n) = false
is_clone_of r (loaded_argument n) = false
is_clone_of r (loaded_field n) = false
is_clone_of r (loaded_slot n) = false
is_clone_of r (cloned w) = w == r

-- Whether the new function uses the clone of an instruction.
unfoldable pub is_used : ℕ → CloneFunction → Bool
unfolding is_clone_of
is_used r f =
    any (λ i. any (is_clone_of r) i.operands) f.region || any (λ s. is_clone_of r s.value) f.exit

-- `eraseFromParent` of a clone, by what it is the clone of.
unfoldable pub erase_clone : ℕ → List Instruction → List Instruction
erase_clone r [] = []
erase_clone r (i ∷ is') = if r == i.origin then is' else i ∷ erase_clone r is'

-- `process`: LLVM asserts that no use of an erased value remains.
unfoldable pub erase_clones : List ℕ → CloneFunction → Result CloneFunction
unfolding is_used erase_clone
erase_clones [] f = ok f
erase_clones (r ∷ rs) f =
    let g : CloneFunction = record f { region = erase_clone r f.region } in
    guard (not (is_used r g)) Error.assertion >> erase_clones rs g

-- The visit, by what the visitor sees of each instruction, and `process`.
unfoldable pub erase_ignored : (ℕ → Visited) → CloneFunction → Result CloneFunction
unfolding visit_to_remove erase_clones
erase_ignored visited f =
    erase_clones
      (visit_to_remove []
        (map (λ i. record { id = i.origin; visited = visited i.origin }) f.region))
      f

module _ (visited : ℕ → Visited) where
  -- What the eraser is to leave.
  abbrev pub is_kept : Instruction → Bool
  is_kept i = not (is_ignored_intrinsic (visited i.origin))

  abbrev collected : List Instruction → List ℕ
  collected is' = ignored (map (λ i. record { id = i.origin; visited = visited i.origin }) is')

  abbrev AreIgnored : List ℕ → Type 0
  AreIgnored = All (λ r. is_ignored_intrinsic (visited r) ≡ true)

  collected-AreIgnored : (is' : List Instruction) → AreIgnored (collected is')
  collected-AreIgnored [] = tt
  collected-AreIgnored (i ∷ is') = elim (Bool-cases (is_ignored_intrinsic (visited i.origin))) [
    | inl y ↦ rw y (y, collected-AreIgnored is')
    | inr n ↦ rw n (collected-AreIgnored is')
  ]

  -- The erasures alone.
  abbrev erase_each : List ℕ → List Instruction → List Instruction
  erase_each [] is' = is'
  erase_each (r ∷ rs) is' = erase_each rs (erase_clone r is')

  erase_each-cons :
      (rs : List ℕ) (i : Instruction) (is' : List Instruction)
      → AreIgnored rs
      → is_ignored_intrinsic (visited i.origin) ≡ false
      → erase_each rs (i ∷ is') ≡ i ∷ erase_each rs is'
  unfolding erase_clone
  erase_each-cons [] i is' h n = refl
  erase_each-cons (r ∷ rs) i is' (a, h) n =
      let other : (r == i.origin) ≡ false = elim (Bool-cases (r == i.origin)) [
        | inl y ↦
            absurd (let e = ap (λ x. is_ignored_intrinsic (visited x)) (==→≡ r i.origin y) in cc)
        | inr o ↦ o
      ] in
      rw other (erase_each-cons rs i (erase_clone r is') h n)

  erase_each-own :
      (i : Instruction) (rs : List ℕ) (is' : List Instruction)
      → erase_each (i.origin ∷ rs) (i ∷ is') ≡ erase_each rs is'
  unfolding erase_clone
  erase_each-own i rs is' =
      let e : erase_clone i.origin (i ∷ is') ≡ is' = rw (erase_clone, ==_refl i.origin) refl in
      ap (erase_each rs) e

  erase_each_lem : (is' : List Instruction) → erase_each (collected is') is' ≡ select is_kept is'
  unfolding erase_clone
  erase_each_lem [] = refl
  erase_each_lem (i ∷ is') = elim (Bool-cases (is_ignored_intrinsic (visited i.origin))) [
    | inl y ↦ rw y (erase_each-own i (collected is') is' ∙ erase_each_lem is')
    | inr n ↦ rw n (
        erase_each-cons (collected is') i is' (collected-AreIgnored is') n
        ∙ ap (λ q. i ∷ q) (erase_each_lem is'))
  ]

All-erase_clone :
    (P : Instruction → Type 0) (r : ℕ) (is' : List Instruction)
    → All P is'
    → All P (erase_clone r is')
unfolding erase_clone
All-erase_clone P r [] h = tt
All-erase_clone P r (i ∷ is') (a, h) = elim (Bool-cases (r == i.origin)) [
  | inl y ↦ rw y h
  | inr n ↦ rw n (a, All-erase_clone P r is' h)
]

-- The instructions of the region use a value.
abbrev pub is_operand_of : Ir → List ℕ → ℕ → Bool
is_operand_of ir blocks v =
    any (λ b. any (λ i. contains (ir.operands i) v) (ir.instructions b)) blocks

module _ (ir : Ir) (blocks outputs : List ℕ) (count slots : ℕ) (R : ℕ → Type 0) (r : ℕ)
    (off : is_operand_of ir blocks r ≡ false) where
  operand_unused : (o : Operand) → IsFine ir blocks count slots R o → is_clone_of r o ≡ false
  unfolding is_clone_of
  operand_unused (original w) h = refl
  operand_unused (argument n) h = refl
  operand_unused (loaded_argument n) h = refl
  operand_unused (loaded_field n) h = refl
  operand_unused (loaded_slot n) h = refl
  operand_unused (cloned w) (d, o) = elim (Bool-cases (w == r)) [
    | inl y ↦ absurd (let e = ap (is_operand_of ir blocks) (==→≡ w r y) in cc)
    | inr n ↦ n
  ]

  operands_unused :
      (os : List Operand) → All (IsFine ir blocks count slots R) os → any (is_clone_of r) os ≡ false
  operands_unused [] h = refl
  operands_unused (o ∷ os) (a, h) = rw (operand_unused o a, operands_unused os h) refl

  region_unused :
      (is' : List Instruction)
      → AllFine ir blocks count slots R is'
      → any (λ i. any (is_clone_of r) i.operands) is' ≡ false
  region_unused [] h = refl
  region_unused (i ∷ is') (a, h) = rw (operands_unused i.operands a, region_unused is' h) refl

  exit_unused :
      (ss : List ExitStore)
      → contains outputs r ≡ false
      → All (IsScopedStore ir blocks outputs count) ss
      → any (λ s. is_clone_of r s.value) ss ≡ false
  unfolding is_clone_of
  exit_unused [] n h = refl
  exit_unused (s ∷ ss) n ((lt, w, e, d, c), h) =
      let other : (w == r) ≡ false = elim (Bool-cases (w == r)) [
        | inl y ↦ absurd (let e = ap (contains outputs) (==→≡ w r y) in cc)
        | inr o ↦ o
      ] in
      rw (e, is_clone_of, other) (exit_unused ss n h)

-- No instruction of the region uses an ignored intrinsic, and none is an output.
abbrev pub AreUnused : (ℕ → Visited) → Ir → List ℕ → List ℕ → Type 0
AreUnused visited ir blocks outputs =
    (v : ℕ)
    → is_ignored_intrinsic (visited v) ≡ true
    → (is_operand_of ir blocks v ≡ false) × (contains outputs v ≡ false)

module _ (visited : ℕ → Visited) (ir : Ir) (blocks outputs : List ℕ) (count slots : ℕ)
    (R : ℕ → Type 0) (unused : AreUnused visited ir blocks outputs) where
  erase_clones_lem :
      (rs : List ℕ) (f : CloneFunction)
      → AreIgnored visited rs
      → AllFine ir blocks count slots R f.region
      → All (IsScopedStore ir blocks outputs count) f.exit
      → (erase_clones rs f ≡ ok (record f { region = erase_each visited rs f.region }))
        × AllFine ir blocks count slots R (erase_each visited rs f.region)
  unfolding erase_clones is_used
  erase_clones_lem [] f a fine stores = (refl, fine)
  erase_clones_lem (r ∷ rs) f (a, as') fine stores =
      let (o, c) = unused r a in
      let g : CloneFunction = record f { region = erase_clone r f.region } in
      let fine' =
        All-erase_clone (λ i. All (IsFine ir blocks count slots R) i.operands) r f.region fine in
      let x = region_unused ir blocks outputs count slots R r o g.region fine' in
      let y = exit_unused ir blocks outputs count slots R r o f.exit c stores in
      let (e, h) = erase_clones_lem rs g as' fine' stores in (rw (x, y, erase_clones) e, h)

  -- Where no clone uses one, and no output is one, the eraser leaves the clones that are no ignored intrinsics, in order.
  pub erase_ignored_lem :
      (f : CloneFunction)
      → AllFine ir blocks count slots R f.region
      → All (IsScopedStore ir blocks outputs count) f.exit
      → (erase_ignored visited f ≡ ok (record f { region = select (is_kept visited) f.region }))
        × AllFine ir blocks count slots R (select (is_kept visited) f.region)
  unfolding erase_ignored
  erase_ignored_lem f fine stores =
      let (e, h) =
        erase_clones_lem (collected visited f.region) f (collected-AreIgnored visited f.region) fine
          stores in
      let same = erase_each_lem visited f.region in
      (
        ap (λ rs. erase_clones rs f)
              (visit_to_remove_lem []
                (map (λ i. record { id = i.origin; visited = visited i.origin }) f.region))
            ∙ e
            ∙ ap (λ q. ok (record f { region = q })) same,
        rw (sym same) h,
      )
