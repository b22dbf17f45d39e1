-- ===== src/Separator/Points.antt =====
-- Modes and change points: `InvertMode`, `GetMode` and `FindPartitionPoints`. `Points` is a map from a block
-- to its points; the order of the instructions of a block is that of LLVM.
use atrox.Prelude.{
  ℕ, Bool, true, false, not, ◌&&◌, if◌then◌else◌, List, [], ◌∷◌, ◌++◌, some, none, lookup, emplace,
  assign,
}
use atrox.Recognition.{IteratorInfo}

pub data Mode : Type 0 where
  iterator payload : Mode

unfoldable pub invert_mode : Mode → Mode
invert_mode Mode.payload = Mode.iterator
invert_mode Mode.iterator = Mode.payload

-- `m == n`.
abbrev pub mode_eq : Mode → Mode → Bool
mode_eq Mode.iterator Mode.iterator = true
mode_eq Mode.payload Mode.payload = true
mode_eq _ _ = false

-- What the code reads of an `llvm::Instruction`.
pub record Inst : Type 0 where
  pub id : ℕ
  pub is_branch : Bool
  pub is_unconditional : Bool

-- An `llvm::BasicBlock`: its phi nodes, the landing pad if there is one, and from the first insertion
-- point on; a block that is no `catchswitch` has an insertion point.
pub record Block : Type 0 where
  pub id : ℕ
  pub phis : List Inst
  pub pads : List Inst
  pub first : Inst
  pub rest : List Inst

abbrev pub instructions : Block → List Inst
instructions b = b.phis ++ (b.pads ++ b.first ∷ b.rest)

-- `*bb->begin()`.
abbrev pub head_or : Inst → List Inst → Inst
head_or d [] = d
head_or d (i ∷ is') = i

abbrev pub begin : Block → Inst
begin b = head_or b.first (instructions b)

abbrev pub is_uncond_br : Inst → Bool
is_uncond_br i = i.is_branch && i.is_unconditional

abbrev pub Point : Type 0
Point = Inst × Mode

-- `BlockModeMapTy` and `BlockModeChangePointMapTy`.
abbrev pub Modes : Type 0
Modes = List (ℕ × Mode)

abbrev pub Points : Type 0
Points = List (ℕ × List Point)

-- `Points.at(bb)`.
abbrev pub points_at : Points → ℕ → List Point
points_at points bb = elim (lookup points bb) [ none ↦ [] | some qs ↦ qs ]

-- `Points.at(bb).push_back(...)`, behind the test that makes the entry.
unfoldable pub push_points : Points → ℕ → List Point → Points
push_points points bb [] = points
push_points points bb (p ∷ ps) =
    push_points (assign points bb (points_at points bb ++ p ∷ [])) bb ps

abbrev pub is_nil {ℓ} : {A : Type ℓ} → List A → Bool
is_nil [] = true
is_nil (x ∷ xs) = false

module _ (info : IteratorInfo) where
  unfoldable pub get_mode : Inst → Mode
  get_mode i = if info.is_iterator i.id then Mode.iterator else Mode.payload

  -- The loop over the phi nodes, with `phisMode`.
  unfoldable pub same_phis : Mode → List Inst → Bool
  unfolding get_mode
  same_phis m [] = true
  same_phis m (e ∷ es) = if mode_eq m (get_mode e) then same_phis (get_mode e) es else false

  -- The loop over the instructions, with `lastSeenMode`: the points that it pushes, and the last mode.
  unfoldable pub scan : Mode → List Inst → List Point × Mode
  unfolding get_mode
  scan m [] = ([], m)
  scan m (i ∷ is') =
      let k = get_mode i in
      let turns = not (mode_eq m k) && not (is_uncond_br i) in
      let later = scan (if turns then k else m) is' in
      (if turns then (i, k) ∷ later.0 else later.0, later.1)

  unfoldable pub has_same_phis : Block → Bool
  unfolding same_phis
  has_same_phis b = same_phis (get_mode (begin b)) b.phis

  -- The points that the second loop pushes, with the last mode.
  unfoldable pub scan_block : Block → List Point × Mode
  unfolding scan has_same_phis
  scan_block b =
      if has_same_phis b
      then scan (get_mode (begin b)) (instructions b)
      else scan (get_mode b.first) (b.first ∷ b.rest)

  -- All points of a block. Behind phi nodes of both modes there is a point of its own.
  unfoldable pub block_points : Block → List Point
  unfolding scan_block invert_mode
  block_points b =
      if has_same_phis b
      then (scan_block b).0
      else (b.first, invert_mode (get_mode b.first)) ∷ (scan_block b).0

  unfoldable pub visit_block : Modes × Points → Block → Modes × Points
  unfolding block_points push_points
  visit_block (modes, points) b = (
    if is_nil (scan_block b).0 then emplace modes b.id (scan_block b).1 else modes,
    push_points points b.id (block_points b),
  )

  unfoldable pub visit_blocks : Modes × Points → List Block → Modes × Points
  unfolding visit_block
  visit_blocks s [] = s
  visit_blocks s (b ∷ bs) = visit_blocks (visit_block s b) bs

  -- The last component is the result: some point was found.
  unfoldable pub find_partition_points : Modes → Points → List Block → Modes × Points × Bool
  unfolding visit_blocks
  find_partition_points modes points blocks =
      let s = visit_blocks (modes, points) blocks in (s.0, s.1, not (is_nil s.1))
