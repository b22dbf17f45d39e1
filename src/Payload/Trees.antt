-- ===== src/Payload/Trees.antt =====
-- `SelectPayloadTrees` of lib/Analysis/PayloadTree.cpp. `rootGroups` is a `std::map` over pointers,
-- so a list in the order of its keys; `rootBlocks` is written and never read, and is left out.
-- The `while` loop takes fuel, one round more than there are payload blocks.
pub mod Loop
pub mod Groups
pub mod Roots
pub mod Correct
pub mod Forest
use atrox.Prelude.{
  ℕ, zero, suc, Bool, true, false, not, ◌&&◌, List, [], ◌∷◌, ltb, ◌==◌, if◌then◌else◌, length, any,
  select, contains, insert, erase, insert_all, Result, Error, ok, err, ◌>>=◌, ◌>>◌, guard,
}
use atrox.Llvm.{Cfg, LoopInfo, SetOrder}

-- A `BlockRootGroupMapTy` entry.
pub record Group : Type 0 where
  pub root : ℕ
  pub members : List ℕ

-- `rootGroups.emplace(e, {e})`: an entry that is there stays.
pub emplace_root : List Group → ℕ → List Group
emplace_root [] e = record { root = e; members = e ∷ [] } ∷ []
emplace_root (g ∷ gs) e =
    if ltb e g.root
    then record { root = e; members = e ∷ [] } ∷ g ∷ gs
    else if e == g.root
    then g ∷ gs
    else g ∷ emplace_root gs e

-- The successors of a block that join the worklist.
pub push_succs : List ℕ → List ℕ → List ℕ → List ℕ → List ℕ
push_succs payload bl worklist [] = worklist
push_succs payload bl worklist (s ∷ rest) =
    push_succs payload bl
      (if not (contains bl s) && contains payload s then insert worklist s else worklist) rest

pub record Growth : Type 0 where
  pub blacklisted : List ℕ
  pub members : List ℕ

-- The local set `payloadBlocks`.
abbrev pub payload_set : List ℕ → List ℕ
payload_set = insert_all []

module _ (li : LoopInfo) where
  open li use {loop_for, is_loop_header, block_depth, blocks, depth}

  pub iterator_blocks : ℕ → List ℕ → List ℕ
  iterator_blocks l payload = select (λ bb. not (contains payload bb)) (blocks l)

  -- The blocks of the inner loops that begin at iterator blocks.
  pub blacklist_inner : ℕ → List ℕ → List ℕ → List ℕ
  blacklist_inner l bl [] = bl
  blacklist_inner l bl (bb ∷ rest) =
      let is_inner = is_loop_header bb && ltb (depth l) (block_depth bb) in
      blacklist_inner l (if is_inner then insert_all bl (blocks (loop_for bb)) else bl) rest

module _ (cfg : Cfg) where
  open cfg use {preds}

  -- A root is an admissible block behind an iterator block.
  pub is_root : List ℕ → List ℕ → ℕ → Bool
  is_root iterators bl e = not (contains bl e) && any (contains iterators) (preds e)

  pub collect_roots : List ℕ → List ℕ → List Group → List ℕ → List Group
  unfolding is_root emplace_root
  collect_roots iterators bl gs [] = gs
  collect_roots iterators bl gs (e ∷ rest) =
      collect_roots iterators bl (if is_root iterators bl e then emplace_root gs e else gs) rest

module _ (cfg : Cfg) (order : SetOrder) (payload : List ℕ) where
  open cfg use {succs}
  open order use {walk}

  -- The `while` loop.
  pub grow : ℕ → List ℕ → Growth → Result Growth
  grow zero worklist s = elim (walk worklist) [ [] ↦ ok s | _ ∷ _ ↦ err Error.out_of_fuel ]
  grow (suc fuel) worklist s = elim (walk worklist) [
    | [] ↦ ok s
    | bb ∷ _ ↦
        let bl = insert s.blacklisted bb in
        grow fuel (push_succs payload bl (erase worklist bb) (succs bb))
          (record { blacklisted = bl; members = insert s.members bb })
  ]

  -- The loop over `rootGroups`; the blacklist is shared by the roots.
  pub grow_groups : List ℕ → List Group → Result (List Group)
  grow_groups bl [] = ok []
  grow_groups bl (g ∷ gs) = do
    s ← grow (suc (length payload)) (g.root ∷ []) (record { blacklisted = bl; members = g.members })
    rest ← grow_groups s.blacklisted gs
    ok (record { root = g.root; members = s.members } ∷ rest)

module _ (li : LoopInfo) (order : SetOrder) where
  open li use {header, latch}
  open order use {walk}

  pub blacklist : ℕ → List ℕ → List ℕ
  unfolding iterator_blocks blacklist_inner
  blacklist l payload =
      let iterators = iterator_blocks li l payload in
      blacklist_inner li l (insert (insert iterators (latch l)) (header l)) (walk iterators)

module _ (cfg : Cfg) (li : LoopInfo) (order : SetOrder) where
  open li use {loop_for, header}
  open order use {walk}

  -- The roots with their groups as they are before the `while` loops.
  pub root_groups : ℕ → List ℕ → List Group
  unfolding blacklist collect_roots
  root_groups l payload =
      collect_roots cfg (iterator_blocks li l payload) (blacklist li order l payload) []
        (walk payload)

  unfoldable pub select_payload_trees : ℕ → List ℕ → Result (List Group)
  unfolding blacklist root_groups grow_groups grow push_succs
  select_payload_trees l payload = do
    guard (loop_for (header l) == l) Error.assertion
    let blocks = payload_set payload
    grow_groups cfg order blocks (blacklist li order l blocks) (root_groups l blocks)
