-- ===== src/Extractor/Blocks/Reaches.antt =====
-- Which users the search for block addresses reaches, and how many operands it may still push.
use mathlib.Core.Path.{subst}
use mathlib.Core.List.{reverse-cons}
use atrox.Prelude.{
  ℕ, ◌+◌, ◌≤◌, ◌≡◌, refl, sym, ap, ◌∙◌, true, false, if◌then◌else◌, List, [], ◌∷◌, reverse, length,
  length-append, ◌==◌, ==→≡, ==_refl, contains, contains-append, Bool-cases, inl, inr, arith,
}
use atrox.Extractor.Blocks.{BlockCode, is_foreign}

pub contains-reverse : (xs : List ℕ) (v : ℕ) → contains (reverse xs) v ≡ contains xs v
contains-reverse [] v = refl
contains-reverse (x ∷ xs) v =
    ap (λ q. contains q v) (reverse-cons x xs)
    ∙ (ground (arith, contains-append (reverse xs) (x ∷ []) v, contains-reverse xs v))

pub length-reverse : (xs : List ℕ) → length (reverse xs) ≡ length xs
length-reverse [] = refl
length-reverse (x ∷ xs) =
    ap length (reverse-cons x xs)
    ∙ (omega (arith, length-append (reverse xs) (x ∷ []), length-reverse xs))

module _ (code : BlockCode) (bb : ℕ) where
  open code use {instructions, is_block_address, operands, users}

  -- The users that are reached from the instructions of the block, not through instructions of other blocks.
  pub data Reaches : ℕ → Type 0 where
    start : {v : ℕ} → contains (instructions bb) v ≡ true → Reaches v
    step :
        {v w : ℕ}
        → Reaches v
        → is_foreign code bb v ≡ false
        → contains (operands v) w ≡ true
        → Reaches w

  -- The operands that may still be pushed.
  abbrev pub pending : List ℕ → List ℕ → ℕ
  pending visited [] = 0
  pending visited (u ∷ us) =
      if contains visited u then pending visited us else length (operands u) + pending visited us

  pending-le : (visited us : List ℕ) (v : ℕ) → pending (v ∷ visited) us ≤ pending visited us
  pending-le visited [] v = omega arith
  pending-le visited (u ∷ us) v = ground (arith, pending-le visited us v)

  pub pending-visit :
      (visited us : List ℕ) (v : ℕ)
      → contains us v ≡ true
      → contains visited v ≡ false
      → pending (v ∷ visited) us + length (operands v) ≤ pending visited us
  pending-visit visited [] v c n = absurd cc
  pending-visit visited (u ∷ us) v c n = elim (Bool-cases (v == u)) [
    | inl y ↦
        let e = ==→≡ v u y in
        let n' : contains visited u ≡ false = subst (λ q. contains visited q ≡ false) e n in
        let le = pending-le visited us v in
        let len : length (operands v) ≡ length (operands u) = ap (λ q. length (operands q)) e in
        let y' : (u == v) ≡ true = subst (λ q. (u == q) ≡ true) (sym e) (==_refl u) in ground arith
    | inr k ↦ ground (arith, pending-visit visited us v, pending-le visited us v)
  ]
