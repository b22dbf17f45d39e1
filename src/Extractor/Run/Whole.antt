-- ===== src/Extractor/Run/Whole.antt =====
-- The run as a whole, where the region is as the cloner hands it over: its header needs no split, and no block returns.
use atrox.Prelude.{
  ℕ, ◌+◌, ◌≡◌, refl, ap, Bool, true, false, if◌then◌else◌, List, [], ◌∷◌, ◌++◌, map, any, All,
  length, select, Bool-cases, inl, inr, Option, some, ◌==◌, leb, ok, arith,
}
use atrox.Args.Order.{IsDistinct}
use atrox.Bounds.Nests.{LoopNest}
use atrox.Bounds.Conditions
use atrox.Bounds.Spaces.{Analyzer, ScalarEvolution}
use atrox.Extractor.Stack.{Slots, Constants}
use atrox.Extractor.Prepare.{Prepared, prepare, get_pure_inputs}
use atrox.Extractor.Prepared.Slots.{IsInitialised}
use atrox.Extractor.Code.{Phi, Code}
use atrox.Extractor.Sever.{HeaderSplitter, PhiCreator, count_preds, sever_split_phi_nodes}
use atrox.Extractor.Returns.{ReturnSplitter, DominatorTrees, split_return_blocks}
use atrox.Extractor.Move.{clones, place_blocks, place_blocks_lem}
use atrox.Extractor.Clone.{CloneFunction, arg_count, clone_code_region}
use atrox.Extractor.Clone.Targets.{Target, clone_successors, header_incoming}
use atrox.Extractor.Clone.Operands.{AllFine}
use atrox.Extractor.Clone.Remapped.{IsFree}
use atrox.Extractor.Clone.Scoped.{IsIr}
use atrox.Extractor.Clone.Complete.{IsScopedStore, prepared_clone_lem}
use atrox.Extractor.Run.Closed.{
  IsClosed, All-clone_successors, is_single_entry, All-header_incoming, others-IsClosed,
}
use atrox.Extractor.Run.{
  Machine, OldFunction, Extracted, flatten_if, clone_split, clone_severed, clone_region,
  other_values,
}
use atrox.Extractor.Attributes.{new_attributes}
use atrox.Extractor.Erased.{AreUnused, is_kept, erase_ignored, erase_ignored_lem}

-- The header is no entry, and its phi nodes have values from one block outside of the region at most.
abbrev pub needs_no_split : Code → List ℕ → ℕ → Bool
needs_no_split c region h =
    if h == c.entry
    then false
    else elim (c.phis h) [ [] ↦ true | (pn, inc) ∷ _ ↦ leb (count_preds false region inc) 1 ]

header_stays :
    (splitter : HeaderSplitter) (creator : PhiCreator) (c : Code) (region : List ℕ) (h : ℕ)
    → needs_no_split c region h ≡ true
    → sever_split_phi_nodes splitter creator c region h
      ≡ ok (record { code = c; region = region; header = h })
unfolding sever_split_phi_nodes
header_stays splitter creator c region h e = ground arith

returns_stay :
    (splitter : ReturnSplitter) (trees : DominatorTrees) (bs : List ℕ) (c : Code)
    (t : Option trees.Tree)
    → any c.returns bs ≡ false
    → split_return_blocks splitter trees bs (c, t) ≡ (c, t)
unfolding split_return_blocks
returns_stay splitter trees [] c t n = refl
returns_stay splitter trees (b ∷ bs) c t n =
    let off : c.returns b ≡ false = ground (arith, n) in
    rw (off, split_return_blocks) (returns_stay splitter trees bs c t (ground (arith, n)))

All-select {ℓ} : {A : Type ℓ} (p : A → Bool) (xs : List A) → All (λ x. p x ≡ true) (select p xs)
All-select p [] = tt
All-select p (x ∷ xs) = elim (Bool-cases (p x)) [
  | inl y ↦ rw y (y, All-select p xs)
  | inr n ↦ rw n (All-select p xs)
]

module _ (m : Machine) (aggregated : m.aggregate ≡ false)
    (unflattened : m.flatten_array_accesses ≡ false) where
  clone_split_lem :
      (old : OldFunction) (c : Code) (region : List ℕ) (h : ℕ) (accesses : List (Option ℕ))
      (p : Prepared) (f g : CloneFunction)
      → clone_code_region (m.ir_of c) m.is_pointer false region p ≡ ok f
      → erase_ignored m.visited f ≡ ok g
      → clone_split m old c region h accesses p
        ≡ ok (record {
          clone = g;
          geps = m.geps_of c;
          successors = map (λ b. (b, clone_successors region (c.succs b))) region;
          header_values_from =
              map (λ (e : Phi). header_incoming region (map (λ q. q.0) e.1)) (c.phis h);
          other_values_from = other_values m c region h;
          functions = place_blocks m.clone_of m.root m.exit region c.blocks;
          attributes = new_attributes old.attributes;
          personality = old.personality;
          code = c;
        })
  unfolding clone_split flatten_if
  clone_split_lem old c region h accesses p f g ran erased =
      simp (unflattened, aggregated, ran, erased)

  clone_severed_lem :
      (old : OldFunction) (c : Code) (t : Option m.trees.Tree) (region : List ℕ) (h : ℕ)
      (accesses : List (Option ℕ)) (p : Prepared)
      → any c.returns region ≡ false
      → clone_severed m old (record { code = c; region = region; header = h }) t accesses p
        ≡ clone_split m old c region h accesses p
  unfolding clone_severed
  clone_severed_lem old c t region h accesses p n =
      ap (λ s. clone_split m old s.0 region h accesses p)
        (returns_stay m.return_splitter m.trees region c t n)

  clone_region_runs :
      (old : OldFunction) (c : Code) (t : Option m.trees.Tree) (h : ℕ) (rest : List ℕ)
      (accesses : List (Option ℕ)) (p : Prepared) (e : Extracted)
      → m.allow_var_args ≡ false
      → needs_no_split c (h ∷ rest) h ≡ true
      → any c.returns (h ∷ rest) ≡ false
      → clone_split m old c (h ∷ rest) h accesses p ≡ ok e
      → clone_region m old c t (h ∷ rest) accesses p ≡ ok (some e)
  unfolding clone_region
  clone_region_runs old c t h rest accesses p e fixed stays no_return made = simp (
    fixed,
    header_stays m.splitter m.creator c (h ∷ rest) h stays,
    clone_severed_lem old c t (h ∷ rest) h accesses p no_return,
    made,
  )

  -- For a region whose header needs no split, with no block that returns, that only its header is entered through, where
  -- `prepare` gave the inputs and outputs, as for `Complete`, the clones of the blocks are new and apart, and no
  -- ignored intrinsic is used by the region or is an output: without the two options, and without variable
  -- arguments, the function is made. It has an argument for each pure input and each output, no ignored intrinsic,
  -- and nothing of it is left in the old function: what the clones use and what the exit stores is as for
  -- `Complete`, every clone branches to a clone or the exit, the phi nodes of the header have their values from clones
  -- or the root, those of the other blocks from clones,
  -- and the old function has its blocks as before, the new one its root, its exit and the clones.
  pub clone_region_lem :
      (old : OldFunction) (c : Code) (t : Option m.trees.Tree) (h : ℕ) (rest : List ℕ)
      (accesses : List (Option ℕ)) (nest : LoopNest) (code : Conditions.Code) (se : ScalarEvolution)
      (constants : Constants) (is_iterator : Option (ℕ → Bool)) (lba : Option Analyzer) (l : ℕ)
      (slots : Slots) (p : Prepared)
      → m.allow_var_args ≡ false
      → needs_no_split c (h ∷ rest) h ≡ true
      → any c.returns (h ∷ rest) ≡ false
      → IsDistinct (c.blocks ++ clones m.clone_of (h ∷ rest))
      → is_single_entry c (h ∷ rest) h ≡ true
      → IsIr (m.ir_of c) m.is_pointer (h ∷ rest)
      → AreUnused m.visited (m.ir_of c) (h ∷ rest) p.outputs
      → prepare (m.ir_of c) nest code se constants is_iterator lba l (h ∷ rest) slots ≡ ok p
      → IsInitialised slots
      → (e : Extracted) × (clone_region m old c t (h ∷ rest) accesses p ≡ ok (some e))
        × (arg_count e.clone.params ≡ length (get_pure_inputs p) + length p.outputs)
        × AllFine
            (m.ir_of c)
            (h ∷ rest)
            (length (get_pure_inputs p) + length p.outputs)
            (length p.slots.stack_allocas)
            (IsFree (m.ir_of c) (h ∷ rest))
            e.clone.region
        × All
            (IsScopedStore
              (m.ir_of c)
              (h ∷ rest)
              p.outputs
              (length (get_pure_inputs p) + length p.outputs))
            e.clone.exit
        × All (λ (q : ℕ × List Target). IsClosed q.1) e.successors
        × All (λ i. is_kept m.visited i ≡ true) e.clone.region
        × All IsClosed e.header_values_from
        × All (λ (q : ℕ × List (List Target)). All IsClosed q.1) e.other_values_from
        × (e.functions ≡ record {
          old_blocks = c.blocks;
          new_blocks = m.root ∷ m.exit ∷ clones m.clone_of (h ∷ rest);
        })
  unfolding other_values
  clone_region_lem old c t h rest accesses nest code se constants is_iterator lba l slots p fixed
        stays no_return distinct single laws unused prepared init =
      let region = h ∷ rest in
      let (f, ran, args, fine, stores) =
        prepared_clone_lem (m.ir_of c) m.is_pointer region nest code se constants laws is_iterator
          lba l slots p prepared init in
      let (erased, left) =
        erase_ignored_lem m.visited (m.ir_of c) region p.outputs
          (length (get_pure_inputs p) + length p.outputs) (length p.slots.stack_allocas)
          (IsFree (m.ir_of c) region) unused f fine stores in
      let g : CloneFunction = record f { region = select (is_kept m.visited) f.region } in
      let made = clone_split_lem old c region h accesses p f g ran erased in
      (
        record {
          clone = g;
          geps = m.geps_of c;
          successors = map (λ b. (b, clone_successors region (c.succs b))) region;
          header_values_from =
              map (λ (e : Phi). header_incoming region (map (λ q. q.0) e.1)) (c.phis h);
          other_values_from = other_values m c region h;
          functions = place_blocks m.clone_of m.root m.exit region c.blocks;
          attributes = new_attributes old.attributes;
          personality = old.personality;
          code = c;
        },
        clone_region_runs old c t h rest accesses p _ fixed stays no_return made,
        args,
        left,
        stores,
        All-clone_successors region c.succs region,
        All-select (is_kept m.visited) f.region,
        All-header_incoming region (c.phis h),
        others-IsClosed c region h region (ground (arith, single)),
        place_blocks_lem m.clone_of m.root m.exit region c.blocks distinct,
      )
