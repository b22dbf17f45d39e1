-- ===== src/Separator/Split.antt =====
-- `SplitAtPartitionPoints`. `llvm::SplitBlock` is a parameter; the vectors of `Points`, which the code reverses in
-- place, are not read afterwards.
use atrox.Prelude.{
  ℕ, ◌≡◌, ◌≢◌, true, false, List, [], ◌∷◌, ◌++◌, map, reverse, contains, lookup, none, some,
  emplace, Result, Error, ok, err, ◌>>=◌,
}
use atrox.Separator.Points.{Mode, invert_mode, Inst, is_uncond_br, Point, Modes, Points}

-- The instructions of each block of the function; a block that is not there has none.
abbrev pub Layout : Type 0
Layout = List (ℕ × List Inst)

abbrev pub body : Layout → ℕ → List Inst
body f b = elim (lookup f b) [ none ↦ [] | some is' ↦ is' ]

-- A call of `llvm::SplitBlock(bb, inst)`: the new block, the function after the call, and the branch that ends
-- `bb`. The laws: from `inst` on the block moves to a new one, and an unconditional branch takes its place.
pub record BlockSplitter : Type 0 where
  pub new_block : Layout → ℕ → Inst → ℕ
  pub after : Layout → ℕ → Inst → Layout
  pub jump : Layout → ℕ → Inst → Inst
  pub new_block_fresh :
      (f : Layout) (b : ℕ) (i : Inst) → (new_block f b i ≢ b) × (body f (new_block f b i) ≡ [])
  pub jump_fresh :
      (f : Layout) (b : ℕ) (i : Inst)
      → (is_uncond_br (jump f b i) ≡ true)
        × (contains (map Inst.id (body f b)) (jump f b i).id ≡ false)
  pub moved :
      (f : Layout) (b : ℕ) (i : Inst) (pre post : List Inst)
      → body f b ≡ pre ++ i ∷ post
      → contains (map Inst.id pre) i.id ≡ false
      → (body (after f b i) (new_block f b i) ≡ i ∷ post)
        × (body (after f b i) b ≡ pre ++ jump f b i ∷ [])
  pub unmoved :
      (f : Layout) (b : ℕ) (i : Inst) (c : ℕ)
      → c ≢ b
      → c ≢ new_block f b i
      → body (after f b i) c ≡ body f c

module _ (splitter : BlockSplitter) where
  open splitter use {new_block, after}

  -- The inner loop, over the reversed points.
  unfoldable pub split_points : ℕ → List Point → Layout × Modes → Layout × Modes
  split_points b [] s = s
  split_points b ((i, k) ∷ qs) (f, modes) =
      split_points b qs (after f b i, emplace modes (new_block f b i) k)

  -- `lastMode` after the loop; it is not set where there is no point.
  abbrev pub last_mode : List Point → Result Mode
  last_mode [] = err Error.undefined
  last_mode ((i, k) ∷ []) = ok k
  last_mode (p ∷ q ∷ qs) = last_mode (q ∷ qs)

  unfoldable pub split_entry : ℕ × List Point → Layout × Modes → Result (Layout × Modes)
  unfolding split_points invert_mode
  split_entry (b, ps) s =
      let t = split_points b (reverse ps) s in
      last_mode (reverse ps) >>= λ m. ok (t.0, emplace t.1 b (invert_mode m))

  unfoldable pub split_at_partition_points : Points → Layout × Modes → Result (Layout × Modes)
  unfolding split_entry
  split_at_partition_points [] s = ok s
  split_at_partition_points (e ∷ points) s =
      split_entry e s >>= λ t. split_at_partition_points points t
