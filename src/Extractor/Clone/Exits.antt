-- ===== src/Extractor/Clone/Exits.antt =====
-- Where the clones branch to, and where the phi nodes of the header have their values from.
use atrox.Prelude.{
  ℕ, ◌≡◌, refl, ap, true, if◌then◌else◌, List, [], ◌∷◌, map, contains, All, Bool-cases, inl, inr,
}
use atrox.Extractor.Clone.Targets.{
  clone_block, new_root, new_exit, divert, remap_target, clone_successors, in_new_function,
  header_incoming,
}

-- A clone branches to the clone of a block of the region where the original branched to the block, else to the new exit
-- block; a phi node of the header has its values from the clones of the blocks in the region, else from the new root.
pub clone_targets_lem :
    (blocks bs : List ℕ)
    → (clone_successors blocks bs
        ≡ map (λ b. if contains blocks b then clone_block b else new_exit) bs)
      × (header_incoming blocks bs
          ≡ map (λ b. if contains blocks b then clone_block b else new_root) bs)
      × All (λ t. in_new_function t ≡ true) (clone_successors blocks bs)
      × All (λ t. in_new_function t ≡ true) (header_incoming blocks bs)
unfolding clone_successors header_incoming divert remap_target in_new_function
clone_targets_lem blocks [] = (refl, refl, tt, tt)
clone_targets_lem blocks (b ∷ bs) =
    let (s, h, i, j) = clone_targets_lem blocks bs in
    elim (Bool-cases (contains blocks b)) [
      | inl y ↦ rw y (
        rw y (ap (λ q. clone_block b ∷ q) s),
        ap (λ q. clone_block b ∷ q) h,
        (rw y refl, i),
        (refl, j),
      )
      | inr n ↦ rw n (ap (λ q. new_exit ∷ q) s, ap (λ q. new_root ∷ q) h, (refl, i), (refl, j))
    ]
