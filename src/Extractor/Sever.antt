-- ===== src/Extractor/Sever.antt =====
-- `severSplitPHINodes`. `llvm::SplitBlock` at the first instruction that is no phi node and `PHINode::Create` are
-- parameters; what they do to the dominator tree is left out.
pub mod Values
pub mod Swaps
pub mod Flow
pub mod Branches
pub mod Merged
pub mod Missing
pub mod Tests
use atrox.Prelude.{
  ℕ, suc, ◌≡◌, ◌≢◌, Bool, true, false, not, ◌&&◌, ◌||◌, if◌then◌else◌, List, [], ◌∷◌, map, contains,
  insert, erase, lookup, replace, Option, some, none, ◌==◌, ltb, leb, Result, Error, ok, err, ◌>>=◌,
  ◌>>◌, guard,
}
use atrox.Extractor.Code.{Phi, Inst, Code, value_from, swap_for, replace_all_uses}

-- `SplitBlock(Header, Header->getFirstNonPHI(), DT)`: the phi nodes stay, all else moves to the new block, which
-- the old one branches to; the phi nodes that had values from the old block have them from the new one.
pub record HeaderSplitter : Type 0 where
  pub new_block : Code → ℕ → ℕ
  pub after : Code → ℕ → Code
  pub new_block_fresh : (c : Code) (h : ℕ) → contains (h ∷ c.blocks) (new_block c h) ≡ false
  pub phis_after :
      (c : Code) (h pn p : ℕ)
      → p ≢ new_block c h
      → value_from ((after c h).phis h) pn (swap_for h (new_block c h) p)
        ≡ value_from (c.phis h) pn p
  pub nodes_after :
      (c : Code) (h : ℕ) → map (λ e. e.0) ((after c h).phis h) ≡ map (λ e. e.0) (c.phis h)
  pub succs_after :
      (c : Code) (h k : ℕ)
      → (after c h).succs k ≡ (
          if k == new_block c h
          then c.succs h
          else if k == h
          then new_block c h ∷ []
          else c.succs k)

-- The phi nodes that the function creates, by the one that each stands for.
pub record PhiCreator : Type 0 where
  pub created : ℕ → ℕ
  pub created_apart : (a b : ℕ) → created a ≡ created b → a ≡ b

-- The state at the end: the code, the region and its header.
pub record Severed : Type 0 where
  pub code : Code
  pub region : List ℕ
  pub header : ℕ

-- The loop that counts the predecessors of a phi node inside the region, or outside of it.
unfoldable pub count_preds : Bool → List ℕ → List (ℕ × ℕ) → ℕ
count_preds inside region [] = 0
count_preds inside region ((p, v) ∷ inc) =
    let rest = count_preds inside region inc in
    if (if contains region p then inside else not inside) then suc rest else rest

-- `TI->replaceUsesOfWith(OldPred, NewBB)` for the predecessors in the region.
unfoldable pub redirect : List ℕ → ℕ → ℕ → List (ℕ × ℕ) → (ℕ → List ℕ) → ℕ → List ℕ
redirect region old new [] succs = succs
redirect region old new ((p, v) ∷ inc) succs = redirect region old new inc (
    if contains region p
    then (λ k. if k == p then map (swap_for old new) (succs k) else succs k)
    else succs)

-- The loop over the incoming values, which moves those from the region.
unfoldable pub moved_values : List ℕ → List (ℕ × ℕ) → List (ℕ × ℕ)
moved_values region [] = []
moved_values region ((p, v) ∷ inc) =
    if contains region p then (p, v) ∷ moved_values region inc else moved_values region inc

unfoldable pub kept_values : List ℕ → List (ℕ × ℕ) → List (ℕ × ℕ)
kept_values region [] = []
kept_values region ((p, v) ∷ inc) =
    if contains region p then kept_values region inc else (p, v) ∷ kept_values region inc

abbrev pub is_empty : List (ℕ × ℕ) → Bool
is_empty [] = true
is_empty (e ∷ es) = false

-- `PN` in the loop.
unfoldable pub incoming_of : List Phi → ℕ → List (ℕ × ℕ)
incoming_of ps pn = elim (lookup ps pn) [ none ↦ [] | some inc ↦ inc ]

module _ (creator : PhiCreator) (region : List ℕ) (old new : ℕ) where
  open creator use {created}

  -- One round over the phi nodes of the old header. Removing the last incoming value deletes the node, which the
  -- loop reads again.
  unfoldable pub move_values : ℕ → Code → Code
  unfolding moved_values kept_values incoming_of
  move_values pn d =
      let inc = incoming_of (d.phis old) pn in
      record d {
        phis = λ k.
            if k == new
            then (created pn, (old, pn) ∷ moved_values region inc) ∷ d.phis new
            else if k == old
            then replace (d.phis old) pn (kept_values region inc)
            else d.phis k;
      }

  unfoldable pub keeps_some : ℕ → Code → Bool
  unfolding moved_values kept_values incoming_of
  keeps_some pn d =
      let inc = incoming_of (d.phis old) pn in
      is_empty (moved_values region inc) || not (is_empty (kept_values region inc))

  unfoldable pub sever_phi : ℕ → Code → Result Code
  unfolding replace_all_uses move_values keeps_some
  sever_phi pn c =
      let d = replace_all_uses pn (created pn) c in
      guard (keeps_some pn d) Error.undefined >> ok (move_values pn d)

  unfoldable pub sever_phis : List ℕ → Code → Result Code
  unfolding sever_phi
  sever_phis [] c = ok c
  sever_phis (pn ∷ pns) c = sever_phi pn c >>= λ d. sever_phis pns d

  -- With the nodes of the old header: the redirection by the first of them, and the loop over all.
  unfoldable pub sever_nodes : List ℕ → Code → Result Code
  unfolding redirect incoming_of sever_phis
  sever_nodes [] c = err Error.assertion
  sever_nodes (pn ∷ pns) c =
      sever_phis (pn ∷ pns)
        (record c { succs = redirect region old new (incoming_of (c.phis old) pn) c.succs })

module _ (splitter : HeaderSplitter) (creator : PhiCreator) where
  -- Behind the checks: the split, and the changes to the phi nodes where a predecessor is in the region.
  unfoldable pub sever_header : ℕ → Code → List ℕ → ℕ → Result Severed
  unfolding sever_nodes
  sever_header from_region c region header =
      let new = splitter.new_block c header in
      let d = splitter.after c header in
      let region' = insert (erase region header) new in
      (if from_region == 0
        then ok d
        else sever_nodes creator region' header new (map (λ e. e.0) (d.phis header)) d)
      >>= λ e. ok (record { code = e; region = region'; header = new })

  unfoldable pub sever_split_phi_nodes : Code → List ℕ → ℕ → Result Severed
  unfolding count_preds sever_header
  sever_split_phi_nodes c region header =
      let same : Result Severed = ok (record { code = c; region = region; header = header }) in
      if header == c.entry then sever_header 0 c region header else elim (c.phis header) [
        | [] ↦ same
        | (pn, inc) ∷ _ ↦
            if leb (count_preds false region inc) 1
            then same
            else sever_header (count_preds true region inc) c region header
      ]
