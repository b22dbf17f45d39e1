-- ===== src/Separator/Tests.antt =====
-- A `SplitBlock` by the laws, and runs of the block separator with it.
use atrox.Prelude.{
  ℕ, inl, inr, suc, ◌+◌, ◌<◌, ◌≡◌, ◌≢◌, refl, ap, ◌∙◌, true, false, List, [], ◌∷◌, ◌++◌, map, some,
  none, ok, arith, contains, lookup, assign, lookup-assign, ◌==◌, ==_refl, ==→≡, if◌then◌else◌,
}
use atrox.Examples.{info_example, infos_example}
use atrox.Functions.{Function}
use atrox.Separator.Points.{
  Mode, invert_mode, Inst, Block, instructions, Point, Modes, has_same_phis, get_mode, scan_block,
  block_points,
}
use atrox.Separator.Cuts.{Cuts, end, keep, cut, block_points-Cuts, mixed_phis_points}
use atrox.Separator.Split.{Layout, body, BlockSplitter, split_entry}
use atrox.Separator.Labels.{IsLabelled, split_entry_labels}
use atrox.Llvm.{PreservedAnalyses}
use atrox.Separator.Run.{run, run_returns}

abbrev sum_keys : Layout → ℕ
sum_keys [] = 0
sum_keys (e ∷ f) = e.0 + sum_keys f

abbrev sum_ids : List Inst → ℕ
sum_ids [] = 0
sum_ids (i ∷ is') = i.id + sum_ids is'

-- The instructions before a given one, and from it on.
abbrev before : ℕ → List Inst → List Inst
before a [] = []
before a (i ∷ is') = if a == i.id then [] else i ∷ before a is'

abbrev from : ℕ → List Inst → List Inst
from a [] = []
from a (i ∷ is') = if a == i.id then i ∷ is' else from a is'

before_lem :
    (pre : List Inst) (i : Inst) (post : List Inst)
    → contains (map Inst.id pre) i.id ≡ false
    → before i.id (pre ++ i ∷ post) ≡ pre
before_lem [] i post n = ground (arith, ==_refl i.id)
before_lem (x ∷ pre) i post n = ground (arith, before_lem pre i post)

from_lem :
    (pre : List Inst) (i : Inst) (post : List Inst)
    → contains (map Inst.id pre) i.id ≡ false
    → from i.id (pre ++ i ∷ post) ≡ i ∷ post
from_lem [] i post n = ground (arith, ==_refl i.id)
from_lem (x ∷ pre) i post n = ground (arith, from_lem pre i post)

lookup_above : (f : Layout) (k : ℕ) → sum_keys f < k → lookup f k ≡ none
lookup_above [] k h = refl
lookup_above (e ∷ f) k h = ground (arith, lookup_above f k, ==→≡ k e.0)

contains_above : (is' : List Inst) (a : ℕ) → sum_ids is' < a → contains (map Inst.id is') a ≡ false
contains_above [] a h = refl
contains_above (i ∷ is') a h = ground (arith, contains_above is' a, ==→≡ a i.id)

abbrev new_block : Layout → ℕ → Inst → ℕ
new_block f b i = suc (b + sum_keys f)

abbrev jump : Layout → ℕ → Inst → Inst
jump f b i = record { id = suc (sum_ids (body f b)); is_branch = true; is_unconditional = true }

abbrev after : Layout → ℕ → Inst → Layout
after f b i =
    assign (assign f b (before i.id (body f b) ++ jump f b i ∷ [])) (new_block f b i)
      (from i.id (body f b))

body-assign :
    (f : Layout) (k : ℕ) (v : List Inst) (c : ℕ)
    → body (assign f k v) c ≡ (if c == k then v else body f c)
body-assign f k v c = ground (arith, lookup-assign f k v c)

new_block_fresh :
    (f : Layout) (b : ℕ) (i : Inst) → (new_block f b i ≢ b) × (body f (new_block f b i) ≡ [])
new_block_fresh f b i =
    (omega arith, rw (body, lookup_above f (suc (b + sum_keys f)) (omega arith)) refl)

moved :
    (f : Layout) (b : ℕ) (i : Inst) (pre post : List Inst)
    → body f b ≡ pre ++ i ∷ post
    → contains (map Inst.id pre) i.id ≡ false
    → (body (after f b i) (new_block f b i) ≡ i ∷ post)
      × (body (after f b i) b ≡ pre ++ jump f b i ∷ [])
moved f b i pre post e n =
    let one =
      body-assign (assign f b (before i.id (body f b) ++ jump f b i ∷ [])) (new_block f b i)
        (from i.id (body f b)) in
    let two = body-assign f b (before i.id (body f b) ++ jump f b i ∷ []) b in
    let other : ((b == new_block f b i) ≡ false) = ground (arith, ==→≡ b (new_block f b i)) in
    let x = ap (from i.id) e ∙ from_lem pre i post n in
    let y = ap (before i.id) e ∙ before_lem pre i post n in
    (
      one (new_block f b i) ∙ rw (==_refl (new_block f b i)) x,
      one b ∙ rw other (two ∙ rw (==_refl b) (ap (λ q. q ++ jump f b i ∷ []) y)),
    )

unmoved :
    (f : Layout) (b : ℕ) (i : Inst) (c : ℕ)
    → c ≢ b
    → c ≢ new_block f b i
    → body (after f b i) c ≡ body f c
unmoved f b i c n m =
    let other : ((c == b) ≡ false) = ground (arith, ==→≡ c b) in
    let another : ((c == new_block f b i) ≡ false) = ground (arith, ==→≡ c (new_block f b i)) in
    body-assign (assign f b (before i.id (body f b) ++ jump f b i ∷ [])) (new_block f b i)
      (from i.id (body f b)) c
    ∙ rw another (body-assign f b (before i.id (body f b) ++ jump f b i ∷ []) c ∙ rw other refl)

abbrev splitter_example : BlockSplitter
splitter_example = record {
  new_block = new_block;
  after = after;
  jump = jump;
  new_block_fresh = new_block_fresh;
  jump_fresh = λ f b i. (refl, contains_above (body f b) (suc (sum_ids (body f b))) (omega arith));
  moved = moved;
  unmoved = unmoved;
}

abbrev plain : ℕ → Inst
plain k = record { id = k; is_branch = false; is_unconditional = false }

abbrev branch : Inst
branch = record { id = 9; is_branch = true; is_unconditional = true }

abbrev block_example : Block
block_example = record {
  id = 12;
  phis = plain 2 ∷ [];
  pads = [];
  first = plain 5;
  rest = plain 4 ∷ branch ∷ [];
}

abbrev mixed_example : Block
mixed_example = record {
  id = 12;
  phis = plain 2 ∷ plain 5 ∷ [];
  pads = [];
  first = plain 6;
  rest = plain 4 ∷ branch ∷ [];
}

block_points_run :
    block_points info_example block_example
    ≡ (plain 5, Mode.payload) ∷ (plain 4, Mode.iterator) ∷ []
unfolding block_points
block_points_run = refl

same_phis_run : has_same_phis info_example block_example ≡ true
unfolding has_same_phis
same_phis_run = refl

block_points-Cuts_example :
    Cuts info_example
      (get_mode info_example (plain 2))
      (instructions block_example)
      (block_points info_example block_example)
      (scan_block info_example block_example).1
block_points-Cuts_example = block_points-Cuts info_example block_example same_phis_run

mixed_phis_run : has_same_phis info_example mixed_example ≡ false
unfolding has_same_phis
mixed_phis_run = refl

mixed_phis_points_example :
    (ps : List Point) × (block_points info_example mixed_example
      ≡ (plain 6, invert_mode (get_mode info_example (plain 6))) ∷ ps)
    × Cuts info_example
        (get_mode info_example (plain 6))
        (plain 6 ∷ plain 4 ∷ branch ∷ [])
        ps
        (scan_block info_example mixed_example).1
mixed_phis_points_example = mixed_phis_points info_example mixed_example mixed_phis_run

abbrev layout_example : Layout
layout_example = (12, plain 2 ∷ plain 5 ∷ plain 4 ∷ branch ∷ []) ∷ []

Cuts-run :
    Cuts info_example Mode.iterator
      (plain 2 ∷ plain 5 ∷ plain 4 ∷ branch ∷ [])
      ((plain 5, Mode.payload) ∷ (plain 4, Mode.iterator) ∷ [])
      Mode.iterator
unfolding get_mode invert_mode
Cuts-run = keep (inl refl) (cut refl refl (cut refl refl (keep (inr refl) end)))

split_entry_labels_example :
    (t : Layout × Modes) × (split_entry splitter_example
        (12, (plain 5, Mode.payload) ∷ (plain 4, Mode.iterator) ∷ [])
        (layout_example, [])
      ≡ ok t)
    × (lookup t.1 12 ≡ some Mode.iterator)
    × ((c : ℕ) (j : Mode)
        → lookup t.1 c ≡ some j
        → IsLabelled info_example splitter_example 12 layout_example [] t.0 c j)
split_entry_labels_example =
    split_entry_labels info_example splitter_example 12 layout_example [] Mode.iterator
      Mode.iterator (plain 5) Mode.payload ((plain 4, Mode.iterator) ∷ [])
      (refl, (refl, (refl, (refl, tt)))) Cuts-run (λ c j e. cc)

abbrev function_example : Function
function_example = record { name = "f"; is_declaration = false }

run_returns_example :
    (t : Layout × PreservedAnalyses) × (run splitter_example
        (λ f l. block_example ∷ [])
        infos_example
        none
        function_example
        (1 ∷ [])
        layout_example
      ≡ ok t)
    × (t.1 ≡ PreservedAnalyses.all → t.0 ≡ layout_example)
run_returns_example =
    run_returns splitter_example (λ f l. block_example ∷ []) infos_example none function_example
      (1 ∷ []) layout_example
