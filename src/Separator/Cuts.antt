-- ===== src/Separator/Cuts.antt =====
-- The points cut a block into pieces of one mode each, and the modes of the pieces alternate.
use atrox.Prelude.{
  ◌≡◌, refl, sym, ap, ◌∙◌, ◌⊎◌, inl, inr, true, false, map, contains, ==_refl, not, ◌&&◌, List, [],
  ◌∷◌, ◌++◌, arith, All, Bool-cases,
}
use atrox.Recognition.{IteratorInfo}
use atrox.Separator.Points.{
  Mode, invert_mode, mode_eq, Inst, Block, instructions, begin, is_uncond_br, Point, get_mode,
  same_phis, scan, has_same_phis, scan_block, block_points,
}

pub mode_eq→≡ : (m k : Mode) → mode_eq m k ≡ true → m ≡ k
mode_eq→≡ Mode.iterator Mode.iterator h = refl
mode_eq→≡ Mode.payload Mode.payload h = refl
mode_eq→≡ Mode.iterator Mode.payload h = cc
mode_eq→≡ Mode.payload Mode.iterator h = cc

pub mode_eq→invert : (m k : Mode) → mode_eq m k ≡ false → k ≡ invert_mode m
unfolding invert_mode
mode_eq→invert Mode.iterator Mode.iterator h = cc
mode_eq→invert Mode.payload Mode.payload h = cc
mode_eq→invert Mode.iterator Mode.payload h = refl
mode_eq→invert Mode.payload Mode.iterator h = refl

pub invert-invert : (m : Mode) → invert_mode (invert_mode m) ≡ m
unfolding invert_mode
invert-invert Mode.iterator = refl
invert-invert Mode.payload = refl

module _ (info : IteratorInfo) where
  -- An instruction fits a piece of a mode if it has that mode, or is an unconditional branch.
  abbrev pub Fits : Mode → Inst → Type 0
  Fits m i = (get_mode info i ≡ m) ⊎ (is_uncond_br i ≡ true)

  -- How points cut instructions that begin in a mode; the last index is the mode of the last piece.
  pub data Cuts : Mode → List Inst → List Point → Mode → Type 0 where
    end : {m : Mode} → Cuts m [] [] m
    keep :
        {m n : Mode} {i : Inst} {is' : List Inst} {ps : List Point}
        → Fits m i
        → Cuts m is' ps n
        → Cuts m (i ∷ is') ps n
    cut :
        {m k n : Mode} {i : Inst} {is' : List Inst} {ps : List Point}
        → k ≡ invert_mode m
        → get_mode info i ≡ k
        → Cuts k is' ps n
        → Cuts m (i ∷ is') ((i, k) ∷ ps) n

  scan-Cuts : (m : Mode) (is' : List Inst) → Cuts m is' (scan info m is').0 (scan info m is').1
  unfolding scan
  scan-Cuts m [] = end
  scan-Cuts m (i ∷ is') = elim (Bool-cases (mode_eq m (get_mode info i))) [
    | inl same ↦ rw same (keep (inl (sym (mode_eq→≡ m (get_mode info i) same))) (scan-Cuts m is'))
    | inr other ↦ elim (Bool-cases (is_uncond_br i)) [
      | inl br ↦ rw (other, br) (keep (inr br) (scan-Cuts m is'))
      | inr plain ↦
          rw (other, plain)
            (cut (mode_eq→invert m (get_mode info i) other) refl (scan-Cuts (get_mode info i) is'))
    ]
  ]

  -- Where the phi nodes of a block have one mode, its points cut all of the block, from the mode of its first
  -- instruction on, into pieces whose modes alternate and which hold instructions of their mode and
  -- unconditional branches only.
  pub block_points-Cuts :
      (b : Block)
      → has_same_phis info b ≡ true
      → Cuts (get_mode info (begin b)) (instructions b) (block_points info b) (scan_block info b).1
  unfolding block_points scan_block
  block_points-Cuts b same = rw same (scan-Cuts (get_mode info (begin b)) (instructions b))

  scan-same_phis :
      (m : Mode) (es is' : List Inst)
      → same_phis info m es ≡ true
      → scan info m (es ++ is') ≡ scan info m is'
  unfolding scan same_phis
  scan-same_phis m [] is' h = refl
  scan-same_phis m (e ∷ es) is' h =
      let same : mode_eq m (get_mode info e) ≡ true = ground arith in
      let rest : same_phis info m es ≡ true =
        ap (λ k. same_phis info k es) (mode_eq→≡ m (get_mode info e) same) ∙ ground arith in
      rw same (scan-same_phis m es is' rest)

  -- The instructions at which points stand.
  abbrev pub IsAmong : List Inst → Point → Type 0
  IsAmong is' p = contains (map Inst.id is') p.0.id ≡ true

  All-IsAmong_cons :
      (i : Inst) (is' : List Inst) (ps : List Point)
      → All (IsAmong is') ps
      → All (IsAmong (i ∷ is')) ps
  All-IsAmong_cons i is' [] h = tt
  All-IsAmong_cons i is' (p ∷ ps) (a, h) = (ground arith, All-IsAmong_cons i is' ps h)

  All-IsAmong_append :
      (pre is' : List Inst) (ps : List Point) → All (IsAmong is') ps → All (IsAmong (pre ++ is')) ps
  All-IsAmong_append [] is' ps h = h
  All-IsAmong_append (i ∷ pre) is' ps h =
      All-IsAmong_cons i (pre ++ is') ps (All-IsAmong_append pre is' ps h)

  scan-IsAmong : (m : Mode) (is' : List Inst) → All (IsAmong is') (scan info m is').0
  unfolding scan
  scan-IsAmong m [] = tt
  scan-IsAmong m (i ∷ is') =
      elim (Bool-cases (not (mode_eq m (get_mode info i)) && not (is_uncond_br i))) [
        | inl y ↦ rw y (
          ground (arith, ==_refl i.id),
          All-IsAmong_cons i is' _ (scan-IsAmong (get_mode info i) is'),
        )
        | inr n ↦ rw n (All-IsAmong_cons i is' _ (scan-IsAmong m is'))
      ]

  -- Every point of a block stands at an instruction behind its phi nodes, so that no split leaves a phi node
  -- anywhere but at the start of its block.
  pub points_behind_phis :
      (b : Block) → All (IsAmong (b.pads ++ b.first ∷ b.rest)) (block_points info b)
  unfolding block_points scan_block has_same_phis
  points_behind_phis b = elim (Bool-cases (has_same_phis info b)) [
    | inl same ↦ rw same (
        rw (scan-same_phis (get_mode info (begin b)) b.phis (b.pads ++ b.first ∷ b.rest) same)
          (scan-IsAmong (get_mode info (begin b)) (b.pads ++ b.first ∷ b.rest)))
    | inr mixed ↦ rw mixed (
        All-IsAmong_append b.pads (b.first ∷ b.rest)
          ((b.first, invert_mode (get_mode info b.first))
            ∷ (scan info (get_mode info b.first) (b.first ∷ b.rest)).0)
          (
            ground (arith, ==_refl b.first.id),
            scan-IsAmong (get_mode info b.first) (b.first ∷ b.rest),
          ))
  ]

  -- Where the phi nodes of a block are of both modes, the piece that begins at its first insertion point gets
  -- the mode that the instruction there has not, and the later points cut from the mode that it has.
  pub mixed_phis_points :
      (b : Block)
      → has_same_phis info b ≡ false
      → (ps : List Point) × (block_points info b
          ≡ (b.first, invert_mode (get_mode info b.first)) ∷ ps)
        × Cuts (get_mode info b.first) (b.first ∷ b.rest) ps (scan_block info b).1
  unfolding block_points scan_block
  mixed_phis_points b mixed = rw mixed (
    (scan info (get_mode info b.first) (b.first ∷ b.rest)).0,
    refl,
    scan-Cuts (get_mode info b.first) (b.first ∷ b.rest),
  )
