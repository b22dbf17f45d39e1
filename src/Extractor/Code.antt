-- ===== src/Extractor/Code.antt =====
-- The blocks of a function, as far as `lib/Transforms/Utils/CodeExtractor.cpp` changes them in place: phi nodes, what
-- the other instructions use, where the terminators branch to, and
-- which of them return.
use atrox.Prelude.{ℕ, Bool, if◌then◌else◌, List, [], ◌∷◌, map, lookup, Option, some, none, ◌==◌}

-- A phi node, and its incoming values, each behind its block.
abbrev pub Phi : Type 0
Phi = ℕ × List (ℕ × ℕ)

-- An instruction that is no phi node, with its operands.
pub record Inst : Type 0 where
  pub id : ℕ
  pub operands : List ℕ

pub record Code : Type 0 where
  pub entry : ℕ
  pub blocks : List ℕ
  pub phis : ℕ → List Phi
  pub body : ℕ → List Inst
  pub succs : ℕ → List ℕ
  pub returns : ℕ → Bool

-- The value that a phi node has from a block.
abbrev pub value_from : List Phi → ℕ → ℕ → Option ℕ
value_from ps pn p = elim (lookup ps pn) [ none ↦ none | some inc ↦ lookup inc p ]

-- One number in place of another.
abbrev pub swap_for : ℕ → ℕ → ℕ → ℕ
swap_for a b x = if x == a then b else x

-- `replaceAllUsesWith`: in the incoming values of phi nodes and in the operands.
abbrev pub replace_value : ℕ → ℕ → List (ℕ × ℕ) → List (ℕ × ℕ)
replace_value a b [] = []
replace_value a b ((p, v) ∷ inc) = (p, swap_for a b v) ∷ replace_value a b inc

abbrev pub replace_in_phis : ℕ → ℕ → List Phi → List Phi
replace_in_phis a b [] = []
replace_in_phis a b ((pn, inc) ∷ ps) = (pn, replace_value a b inc) ∷ replace_in_phis a b ps

abbrev pub replace_in_body : ℕ → ℕ → List Inst → List Inst
replace_in_body a b = map (λ i. record { id = i.id; operands = map (swap_for a b) i.operands })

unfoldable pub replace_all_uses : ℕ → ℕ → Code → Code
replace_all_uses a b c = record c {
  phis = λ k. replace_in_phis a b (c.phis k);
  body = λ k. replace_in_body a b (c.body k);
}
