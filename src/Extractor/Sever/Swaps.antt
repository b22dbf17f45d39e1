-- ===== src/Extractor/Sever/Swaps.antt =====
-- Created phi nodes in place of the old ones, one after the other.
use atrox.Prelude.{
  ℕ, ◌≡◌, refl, false, if◌then◌else◌, List, [], ◌∷◌, contains, Option, some, none, ==→≡, arith,
}
use atrox.Extractor.Sever.{PhiCreator}
use atrox.Extractor.Sever.Values.{swap_option}

module _ (creator : PhiCreator) where
  open creator use {created}

  -- One phi node after the other in place of the old ones.
  abbrev pub swap_all : List ℕ → Option ℕ → Option ℕ
  swap_all [] o = o
  swap_all (pn ∷ pns) o = swap_all pns (swap_option pn (created pn) o)

  pub swap_all-none : (pns : List ℕ) → swap_all pns none ≡ none
  swap_all-none [] = refl
  swap_all-none (pn ∷ pns) = swap_all-none pns

  pub swap_all-other :
      (pns : List ℕ) (v : ℕ) → contains pns v ≡ false → swap_all pns (some v) ≡ some v
  swap_all-other [] v h = refl
  swap_all-other (pn ∷ pns) v h = ground (arith, swap_all-other pns v)

  -- The phi nodes of the new header in place of those of the old one.
  pub swap_all_lem :
      (pns : List ℕ) (v : ℕ)
      → contains pns (created v) ≡ false
      → swap_all pns (some v) ≡ some (if contains pns v then created v else v)
  swap_all_lem [] v h = refl
  swap_all_lem (pn ∷ pns) v h =
      ground (arith, swap_all_lem pns v, swap_all-other pns (created v), ==→≡ v pn)
