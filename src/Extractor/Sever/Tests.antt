-- ===== src/Extractor/Sever/Tests.antt =====
-- A loop of the blocks 3 and 4 that two blocks outside enter, with two phi nodes in its header. A new block has a
-- number above all others, and the phi node that is created for a node stands 1000 above it.
use atrox.Prelude.{
  ℕ, suc, ◌+◌, ◌≤◌, ◌≡◌, ◌≢◌, refl, ap, true, false, if◌then◌else◌, List, [], ◌∷◌, map, contains,
  lookup, All, leb, ◌<◌, Option, some, none, ok, ◌==◌, ==→≡, arith,
}
use atrox.Extractor.Code.{Phi, Code, value_from, swap_for}
use atrox.Args.Order.{IsDistinct}
use atrox.Extractor.Regions.{Ir, defined_in_caller, find_inputs_outputs}
use atrox.Extractor.Sever.{HeaderSplitter, PhiCreator, count_preds, sever_split_phi_nodes}
use atrox.Extractor.Sever.Merged.{nodes_of, severed_merges}
use atrox.Extractor.Sever.Missing.{severed_phi_missing}

abbrev pub total : List ℕ → ℕ
total [] = 0
total (x ∷ xs) = x + total xs

contains-le : (xs : List ℕ) (a : ℕ) → contains xs a ≡ true → a ≤ total xs
contains-le [] a h = cc
contains-le (x ∷ xs) a h = ground (arith, contains-le xs a)

pub above : (xs : List ℕ) → contains xs (suc (total xs)) ≡ false
above xs = ground (arith, contains-le xs (suc (total xs)))

abbrev rename : ℕ → ℕ → List (ℕ × ℕ) → List (ℕ × ℕ)
rename h new [] = []
rename h new ((q, v) ∷ inc) =
    if q == new then rename h new inc else (swap_for h new q, v) ∷ rename h new inc

lookup-rename :
    (h new : ℕ) (inc : List (ℕ × ℕ)) (p : ℕ)
    → p ≢ new
    → lookup (rename h new inc) (swap_for h new p) ≡ lookup inc p
lookup-rename h new [] p n = refl
lookup-rename h new ((q, v) ∷ inc) p n =
    ground (arith, lookup-rename h new inc p, ==→≡ p h, ==→≡ q h, ==→≡ q new, ==→≡ p new)

abbrev rename_all : ℕ → ℕ → List Phi → List Phi
rename_all h new [] = []
rename_all h new ((pn, inc) ∷ ps) = (pn, rename h new inc) ∷ rename_all h new ps

pub value_from-rename_all :
    (h new : ℕ) (ps : List Phi) (pn p : ℕ)
    → p ≢ new
    → value_from (rename_all h new ps) pn (swap_for h new p) ≡ value_from ps pn p
value_from-rename_all h new [] pn p n = refl
value_from-rename_all h new ((q, inc) ∷ ps) pn p n =
    ground (arith, value_from-rename_all h new ps pn p, lookup-rename h new inc p)

pub nodes-rename_all :
    (h new : ℕ) (ps : List Phi)
    → map (λ (e : Phi). e.0) (rename_all h new ps) ≡ map (λ (e : Phi). e.0) ps
nodes-rename_all h new [] = refl
nodes-rename_all h new ((q, inc) ∷ ps) = ap (λ xs. q ∷ xs) (nodes-rename_all h new ps)

abbrev new_block_example : Code → ℕ → ℕ
new_block_example c h = suc (total (h ∷ c.blocks))

abbrev pub splitter_example : HeaderSplitter
splitter_example = record {
  new_block = new_block_example;
  after = λ c h. record c {
    blocks = new_block_example c h ∷ c.blocks;
    phis = λ k. rename_all h (new_block_example c h) (c.phis k);
    body = λ k. if k == new_block_example c h then c.body h else if k == h then [] else c.body k;
    succs = λ k.
        if k == new_block_example c h
        then c.succs h
        else if k == h
        then new_block_example c h ∷ []
        else c.succs k;
    returns = λ k.
        if k == new_block_example c h then c.returns h else if k == h then false else c.returns k;
  };
  new_block_fresh = λ c h. above (h ∷ c.blocks);
  phis_after = λ c h pn p n. value_from-rename_all h (new_block_example c h) (c.phis h) pn p n;
  nodes_after = λ c h. nodes-rename_all h (new_block_example c h) (c.phis h);
  succs_after = λ c h k. refl;
}

pub created_apart : (a b : ℕ) → a + 1000 ≡ b + 1000 → a ≡ b
created_apart a b e = omega arith

abbrev pub creator_example : PhiCreator
creator_example = record { created = λ a. a + 1000; created_apart = created_apart }

abbrev pub code_example : Code
code_example = record {
  entry = 1;
  blocks = 1 ∷ 2 ∷ 3 ∷ 4 ∷ [];
  phis = λ k.
      if k == 3
      then (20, (1, 100) ∷ (2, 101) ∷ (4, 21) ∷ []) ∷ (21, (1, 102) ∷ (2, 103) ∷ (4, 30) ∷ []) ∷ []
      else [];
  body = λ k. if k == 4 then record { id = 30; operands = 20 ∷ 21 ∷ [] } ∷ [] else [];
  succs = λ k.
      if k == 1
      then 2 ∷ 3 ∷ []
      else if k == 3
      then 4 ∷ []
      else if k == 4
      then 3 ∷ 9 ∷ []
      else 3 ∷ [];
  returns = λ k. k == 9;
}

fresh_example : (v : ℕ) → contains (20 ∷ 21 ∷ []) (v + 1000) ≡ false
fresh_example v = ground arith

-- The value that the severed code has for a created phi node along the edge from the latch.
abbrev severed_value : Option (Option ℕ)
severed_value =
    elim (sever_split_phi_nodes splitter_example creator_example code_example (3 ∷ 4 ∷ []) 3) [
      | ok s ↦ some (value_from (s.code.phis s.header) 1020 4)
      | _ ↦ none
    ]

severed_run : severed_value ≡ some (some 1021)
unfolding sever_split_phi_nodes
severed_run = refl

has_example :
    All (λ n. value_from (code_example.phis 3) n 1 ≢ none) (nodes_of (code_example.phis 3))
has_example = (λ e. cc, (λ e. cc, tt))

nodes-IsDistinct : IsDistinct (nodes_of (code_example.phis 3))
nodes-IsDistinct = (refl, (refl, tt))

outside_example : 1 < count_preds false (3 ∷ 4 ∷ []) ((1, 100) ∷ (2, 101) ∷ (4, 21) ∷ [])
unfolding count_preds
outside_example = omega arith

inside_example : 0 < count_preds true (3 ∷ 4 ∷ []) ((1, 100) ∷ (2, 101) ∷ (4, 21) ∷ [])
unfolding count_preds
inside_example = omega arith

severed_merges_example :
    (d : Code) × (sever_split_phi_nodes splitter_example creator_example code_example (3 ∷ 4 ∷ []) 3
      ≡ ok (record { code = d; region = 4 ∷ 14 ∷ []; header = 14 }))
    × (contains (4 ∷ 14 ∷ []) 4 ≡ true)
    × (value_from (d.phis 3) 20 4 ≡ none)
    × (value_from (d.phis 14) 1020 4 ≡ some 1021)
    × (value_from (d.phis 14) 1020 3 ≡ some 20)
    × (d.succs 4 ≡ 14 ∷ 9 ∷ [])
    × (d.succs 3 ≡ 14 ∷ [])
severed_merges_example =
    severed_merges splitter_example creator_example code_example (3 ∷ 4 ∷ []) 3 20
      ((1, 100) ∷ (2, 101) ∷ (4, 21) ∷ []) ((21, (1, 102) ∷ (2, 103) ∷ (4, 30) ∷ []) ∷ []) 1 20 4
      refl refl outside_example inside_example nodes-IsDistinct fresh_example refl refl
      (λ e. omega arith) has_example refl (λ e. omega arith)

abbrev ir_example : Ir
ir_example = record {
  is_argument = λ v. leb 100 v;
  parent = λ v. if leb v 21 then some 3 else if v == 30 then some 4 else none;
  operands = λ v. if v == 30 then 20 ∷ 21 ∷ [] else [];
  users = λ v. [];
  instructions = λ k. if k == 3 then 20 ∷ 21 ∷ [] else 30 ∷ [];
  is_gep = λ v. false;
  pointer_operand = λ v. 0;
  is_global = λ v. false;
  is_load = λ v. false;
  is_store = λ v. false;
  is_phi = λ v. leb v 21;
  incoming = λ v. [];
}

severed_phi_missing_example :
    (d : Code) × (sever_split_phi_nodes splitter_example creator_example code_example (3 ∷ 4 ∷ []) 3
      ≡ ok (record { code = d; region = 4 ∷ 14 ∷ []; header = 14 }))
    × (value_from (d.phis 14) 1020 3 ≡ some 20)
    × (defined_in_caller ir_example (4 ∷ 14 ∷ []) 20 ≡ true)
    × (contains
          (find_inputs_outputs ir_example
            (3 ∷ 4 ∷ [])
            (record { inputs = []; outputs = [] })).inputs
          20
        ≡ false)
severed_phi_missing_example =
    severed_phi_missing splitter_example creator_example ir_example code_example (3 ∷ 4 ∷ []) 3 20
      ((1, 100) ∷ (2, 101) ∷ (4, 21) ∷ []) ((21, (1, 102) ∷ (2, 103) ∷ (4, 30) ∷ []) ∷ []) 1 20 refl
      refl outside_example inside_example nodes-IsDistinct fresh_example refl refl
      (λ e. omega arith) has_example refl refl refl
