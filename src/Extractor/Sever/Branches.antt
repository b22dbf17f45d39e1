-- ===== src/Extractor/Sever/Branches.antt =====
-- Where the blocks branch to behind the redirection of the branches, and behind the loop over the phi nodes.
use atrox.Prelude.{
  ℕ, ◌≡◌, refl, ◌∙◌, Bool, true, false, ◌&&◌, if◌then◌else◌, List, [], ◌∷◌, map, contains, lookup,
  Option, some, none, ◌==◌, ==→≡, ok, arith, bind-ok,
}
use atrox.Extractor.Code.{Code, swap_for, replace_all_uses}
use atrox.Extractor.Sever.{PhiCreator, redirect, sever_phi, sever_phis, move_values}

abbrev pub is_some : Option ℕ → Bool
is_some none = false
is_some (some v) = true

swap_for_twice :
    (a b : ℕ) (xs : List ℕ) → map (swap_for a b) (map (swap_for a b) xs) ≡ map (swap_for a b) xs
swap_for_twice a b [] = refl
swap_for_twice a b (x ∷ xs) = ground (arith, swap_for_twice a b xs)

-- The blocks of the region that a phi node has values from branch to the new header instead of the old one.
pub redirect_lem :
    (region : List ℕ) (old new : ℕ) (inc : List (ℕ × ℕ)) (succs : ℕ → List ℕ) (k : ℕ)
    → redirect region old new inc succs k ≡ (
        if contains region k && is_some (lookup inc k)
        then map (swap_for old new) (succs k)
        else succs k)
unfolding redirect
redirect_lem region old new [] succs k = ground arith
redirect_lem region old new ((p, v) ∷ inc) succs k = ground (
  arith,
  redirect_lem region old new inc
      (if contains region p
        then (λ j. if j == p then map (swap_for old new) (succs j) else succs j)
        else succs)
      k,
  swap_for_twice old new (succs k),
  ==→≡ k p,
)

module _ (creator : PhiCreator) (region : List ℕ) (old new : ℕ) where
  open creator use {created}

  -- The loop over the phi nodes leaves the terminators as they are.
  pub sever_phis-succs :
      (pns : List ℕ) (c d : Code)
      → sever_phis creator region old new pns c ≡ ok d
      → d.succs ≡ c.succs
  unfolding sever_phis sever_phi move_values replace_all_uses
  sever_phis-succs [] c d h = ground arith
  sever_phis-succs (pn ∷ pns) c d h =
      let (e, one, rest) =
        bind-ok (sever_phi creator region old new pn c)
          (λ e. sever_phis creator region old new pns e) d h in
      sever_phis-succs pns e d rest ∙ ground (arith, one)
