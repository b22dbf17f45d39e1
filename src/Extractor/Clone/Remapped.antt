-- ===== src/Extractor/Clone/Remapped.antt =====
-- The clones before their uses are rewritten, and what remapping makes of their operands.
use atrox.Prelude.{
  ℕ, ◌≡◌, true, false, List, [], ◌∷◌, ==_refl, any, map, contains, All, All-append, Bool-cases, inl,
  inr, arith,
}
use atrox.Extractor.Regions.{Ir, defined_in_region, defined_in_caller}
use atrox.Extractor.Clone.{
  Operand, original, argument, loaded_argument, loaded_field, loaded_slot, cloned, Instruction,
  clone_instruction, clone_blocks, remap_operand,
}
use atrox.Extractor.Clone.Operands.{IsFine, AllFine}

module _ (ir : Ir) (blocks : List ℕ) where
  open ir use {operands, instructions}

  operands-start :
      (count slots : ℕ) (R : ℕ → Type 0) (vs : List ℕ)
      → ((w : ℕ) → contains vs w ≡ true → R w)
      → All (IsFine ir blocks count slots R) (map original vs)
  operands-start count slots R [] f = tt
  operands-start count slots R (v ∷ vs) f =
      (f v (ground (arith, ==_refl v)), operands-start count slots R vs (λ w c. f w (ground arith)))

  instructions-start :
      (count slots : ℕ) (R : ℕ → Type 0) (is' : List ℕ)
      → ((w : ℕ) → any (λ i. contains (operands i) w) is' ≡ true → R w)
      → AllFine ir blocks count slots R (map (clone_instruction ir) is')
  unfolding clone_instruction
  instructions-start count slots R [] f = tt
  instructions-start count slots R (i ∷ is') f = (
    operands-start count slots R (operands i) (λ w c. f w (ground arith)),
    instructions-start count slots R is' (λ w c. f w (ground arith)),
  )

  pub clone_blocks-start :
      (count slots : ℕ) (R : ℕ → Type 0) (bs : List ℕ)
      → ((w : ℕ) → any (λ b. any (λ i. contains (operands i) w) (instructions b)) bs ≡ true → R w)
      → AllFine ir blocks count slots R (clone_blocks ir bs)
  unfolding clone_blocks
  clone_blocks-start count slots R [] f = tt
  clone_blocks-start count slots R (b ∷ bs) f =
      All-append (λ i. All (IsFine ir blocks count slots R) i.operands)
        (map (clone_instruction ir) (instructions b)) (clone_blocks ir bs)
        (instructions-start count slots R (instructions b) (λ w c. f w (ground arith)))
        (clone_blocks-start count slots R bs (λ w c. f w (ground arith)))

  -- A value that is defined neither in the region nor elsewhere in the caller: a constant or a global.
  abbrev pub IsFree : ℕ → Type 0
  IsFree w = (defined_in_caller ir blocks w ≡ false) × (defined_in_region ir blocks w ≡ false)

  module _ (count slots : ℕ) (R : ℕ → Type 0)
      (f : (w : ℕ)
        → R w
        → (defined_in_caller ir blocks w ≡ false)
          × (any (λ b. any (λ i. contains (operands i) w) (instructions b)) blocks ≡ true)) where
    remap_operand-IsFine :
        (o : Operand)
        → IsFine ir blocks count slots R o
        → IsFine ir blocks count slots IsFree (remap_operand ir blocks o)
    unfolding remap_operand
    remap_operand-IsFine (original w) h = elim (Bool-cases (defined_in_region ir blocks w)) [
      | inl y ↦ rw y (y, (f w h).1)
      | inr n ↦ rw n ((f w h).0, n)
    ]
    remap_operand-IsFine (argument n) h = h
    remap_operand-IsFine (loaded_argument n) h = h
    remap_operand-IsFine (loaded_field n) h = absurd h
    remap_operand-IsFine (loaded_slot n) h = h
    remap_operand-IsFine (cloned v) h = h

    remap_operands-IsFine :
        (os : List Operand)
        → All (IsFine ir blocks count slots R) os
        → All (IsFine ir blocks count slots IsFree) (map (remap_operand ir blocks) os)
    remap_operands-IsFine [] h = tt
    remap_operands-IsFine (o ∷ os) (a, h) = (remap_operand-IsFine o a, remap_operands-IsFine os h)

    pub remap_region-AllFine :
        (is' : List Instruction)
        → AllFine ir blocks count slots R is'
        → AllFine ir blocks count slots IsFree (
            map
              (λ i. record {
                origin = i.origin;
                operands = map (remap_operand ir blocks) i.operands;
              })
              is')
    remap_region-AllFine [] h = tt
    remap_region-AllFine (i ∷ is') (a, h) =
        (remap_operands-IsFine i.operands a, remap_region-AllFine is' h)
