-- ===== src/Extractor/Move.antt =====
-- Which blocks the two functions hold: `CloneBasicBlock` puts the clones into the old one, `cloneFunction` the root and
-- the exit into the new one, and `moveBlocksToFunction` takes the clones over, as `moveCodeToFunction` does.
use mathlib.Core.List.{append-nil, append_assoc}
use atrox.Prelude.{ℕ, ◌≡◌, sym, ap, ◌∙◌, List, [], ◌∷◌, ◌++◌, erase}
use atrox.Args.Order.{IsDistinct, IsDistinct-middle, erase_middle}

pub record Functions : Type 0 where
  pub old_blocks : List ℕ
  pub new_blocks : List ℕ

unfoldable pub move_blocks : List ℕ → Functions → Functions
move_blocks [] f = f
move_blocks (b ∷ bs) f =
    move_blocks bs
      (record { old_blocks = erase f.old_blocks b; new_blocks = f.new_blocks ++ b ∷ [] })

-- The loop that clones the blocks, by the clone of each.
unfoldable pub add_clones : (ℕ → ℕ) → List ℕ → Functions → Functions
add_clones clone_of [] f = f
add_clones clone_of (b ∷ bs) f =
    add_clones clone_of bs
      (record { old_blocks = f.old_blocks ++ clone_of b ∷ []; new_blocks = f.new_blocks })

-- `CloneBlocks`.
unfoldable pub clones : (ℕ → ℕ) → List ℕ → List ℕ
clones clone_of [] = []
clones clone_of (b ∷ bs) = clone_of b ∷ clones clone_of bs

unfoldable pub place_blocks : (ℕ → ℕ) → ℕ → ℕ → List ℕ → List ℕ → Functions
unfolding move_blocks add_clones clones
place_blocks clone_of root exit region old =
    let f = add_clones clone_of region (record { old_blocks = old; new_blocks = [] }) in
    move_blocks (clones clone_of region)
      (record { old_blocks = f.old_blocks; new_blocks = f.new_blocks ++ root ∷ exit ∷ [] })

add_clones_lem :
    (clone_of : ℕ → ℕ) (bs old new : List ℕ)
    → add_clones clone_of bs (record { old_blocks = old; new_blocks = new })
      ≡ record { old_blocks = old ++ clones clone_of bs; new_blocks = new }
unfolding add_clones clones
add_clones_lem clone_of [] old new =
    ap (λ xs. record { old_blocks = xs; new_blocks = new }) (sym (append-nil old))
add_clones_lem clone_of (b ∷ bs) old new =
    add_clones_lem clone_of bs (old ++ clone_of b ∷ []) new
    ∙ ap (λ xs. record { old_blocks = xs; new_blocks = new })
        (append_assoc old (clone_of b ∷ []) (clones clone_of bs))

move_blocks_lem :
    (old bs new : List ℕ)
    → IsDistinct (old ++ bs)
    → move_blocks bs (record { old_blocks = old ++ bs; new_blocks = new })
      ≡ record { old_blocks = old; new_blocks = new ++ bs }
unfolding move_blocks
move_blocks_lem old [] new d =
    λ i. record { old_blocks = append-nil old i; new_blocks = sym (append-nil new) i }
move_blocks_lem old (b ∷ bs) new d =
    let (n, m, rest) = IsDistinct-middle old b bs d in
    ap (λ xs. move_blocks bs (record { old_blocks = xs; new_blocks = new ++ b ∷ [] }))
      (erase_middle old b bs n m)
    ∙ move_blocks_lem old bs (new ++ b ∷ []) rest
    ∙ ap (λ xs. record { old_blocks = old; new_blocks = xs }) (append_assoc new (b ∷ []) bs)

-- Where no clone is a block of the old function or the clone of another block, the old function has its blocks as
-- before, and the new one its root, its exit and the clones in the order of the region.
pub place_blocks_lem :
    (clone_of : ℕ → ℕ) (root exit : ℕ) (region old : List ℕ)
    → IsDistinct (old ++ clones clone_of region)
    → place_blocks clone_of root exit region old
      ≡ record { old_blocks = old; new_blocks = root ∷ exit ∷ clones clone_of region }
unfolding place_blocks
place_blocks_lem clone_of root exit region old d =
    ap
      (λ (f : Functions).
        move_blocks (clones clone_of region)
          (record { old_blocks = f.old_blocks; new_blocks = f.new_blocks ++ root ∷ exit ∷ [] }))
      (add_clones_lem clone_of region old [])
    ∙ move_blocks_lem old (clones clone_of region) (root ∷ exit ∷ []) d
