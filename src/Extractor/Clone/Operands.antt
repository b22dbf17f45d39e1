-- ===== src/Extractor/Clone/Operands.antt =====
-- What the clones of a region's instructions use while their uses are rewritten, where the arguments are not
-- aggregated.
use atrox.Prelude.{
  ℕ, suc, ◌+◌, ◌<◌, ◌≤◌, ◌≡◌, refl, true, false, List, [], ◌∷◌, ◌==◌, any, length, map, contains,
  All, Bool-cases, inl, inr, arith,
}
use atrox.Extractor.Regions.{Ir, defined_in_region}
use atrox.Extractor.Clone.{
  Operand, original, argument, loaded_argument, loaded_field, loaded_slot, cloned, Instruction,
  Rewritten, replace_operand, replace_uses, input_args,
}

module _ (ir : Ir) (blocks : List ℕ) (count : ℕ) (slots : ℕ) where
  -- An operand that the new function has: an argument, what is loaded from one or from a slot, the clone of an instruction
  -- that the region uses, or a value of which `R` holds.
  abbrev pub IsFine : (ℕ → Type 0) → Operand → Type 0
  IsFine R (original v) = R v
  IsFine R (argument n) = n < count
  IsFine R (loaded_argument n) = n < count
  IsFine R (loaded_field n) = ⊥
  IsFine R (loaded_slot n) = n < slots
  IsFine R (cloned v) =
      (defined_in_region ir blocks v ≡ true)
      × (any (λ b. any (λ i. contains (ir.operands i) v) (ir.instructions b)) blocks ≡ true)

  abbrev pub AllFine : (ℕ → Type 0) → List Instruction → Type 0
  AllFine R is' = All (λ i. All (IsFine R) i.operands) is'

  module _ (R S : ℕ → Type 0) where
    IsFine-weaken : ((w : ℕ) → R w → S w) → (o : Operand) → IsFine R o → IsFine S o
    IsFine-weaken f (original v) h = f v h
    IsFine-weaken f (argument n) h = h
    IsFine-weaken f (loaded_argument n) h = h
    IsFine-weaken f (loaded_field n) h = absurd h
    IsFine-weaken f (loaded_slot n) h = h
    IsFine-weaken f (cloned v) h = h

    module _ (v : ℕ) (r : Operand) (fine : IsFine S r)
        (f : (w : ℕ) → R w → (w == v) ≡ false → S w) where
      replace_operand-IsFine : (o : Operand) → IsFine R o → IsFine S (replace_operand v r o)
      unfolding replace_operand
      replace_operand-IsFine (original w) h = elim (Bool-cases (w == v)) [
        | inl y ↦ rw y fine
        | inr n ↦ rw n (f w h n)
      ]
      replace_operand-IsFine (argument n) h = h
      replace_operand-IsFine (loaded_argument n) h = h
      replace_operand-IsFine (loaded_field n) h = absurd h
      replace_operand-IsFine (loaded_slot n) h = h
      replace_operand-IsFine (cloned w) h = h

      operands-IsFine :
          (os : List Operand) → All (IsFine R) os → All (IsFine S) (map (replace_operand v r) os)
      operands-IsFine [] h = tt
      operands-IsFine (o ∷ os) (a, h) = (replace_operand-IsFine o a, operands-IsFine os h)

      region-AllFine :
          (is' : List Instruction)
          → AllFine R is'
          → AllFine S (
              map
                (λ i. record { origin = i.origin; operands = map (replace_operand v r) i.operands })
                is')
      region-AllFine [] h = tt
      region-AllFine (i ∷ is') (a, h) = (operands-IsFine i.operands a, region-AllFine is' h)

      pub replace_uses-AllFine :
          (s : Rewritten) → AllFine R s.region → AllFine S (replace_uses v r s).region
      unfolding replace_uses
      replace_uses-AllFine s h = region-AllFine s.region h

    operands-weaken :
        ((w : ℕ) → R w → S w) → (os : List Operand) → All (IsFine R) os → All (IsFine S) os
    operands-weaken f [] h = tt
    operands-weaken f (o ∷ os) (a, h) = (IsFine-weaken f o a, operands-weaken f os h)

    pub AllFine-weaken :
        ((w : ℕ) → R w → S w) → (is' : List Instruction) → AllFine R is' → AllFine S is'
    AllFine-weaken f [] h = tt
    AllFine-weaken f (i ∷ is') (a, h) = (operands-weaken f i.operands a, AllFine-weaken f is' h)

  -- What holds of a value before a loop, and that it is another than the value of this round.
  abbrev pub Other : (ℕ → Type 0) → ℕ → ℕ → Type 0
  Other R v w = R w × ((w == v) ≡ false)

  pub input_args-AllFine :
      (R S : ℕ → Type 0) (n : ℕ) (vs : List ℕ) (s : Rewritten)
      → n + length vs ≤ count
      → ((w : ℕ) → R w → contains vs w ≡ false → S w)
      → AllFine R s.region
      → AllFine S (input_args false n vs s).region
  unfolding input_args
  input_args-AllFine R S n [] s le f h = AllFine-weaken R S (λ w r. f w r refl) s.region h
  input_args-AllFine R S n (v ∷ vs) s le f h =
      let lt : n < count = omega arith in
      input_args-AllFine (Other R v) S (suc n) vs (replace_uses v (argument n) s) (omega arith)
        (λ w (r, o) c. f w r (ground arith))
        (replace_uses-AllFine R (Other R v) v (argument n) lt (λ w r o. (r, o)) s h)
