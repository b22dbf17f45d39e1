-- ===== src/Cloner/Selection.antt =====
-- What the cloner may rely on: each of the three selectors keeps to the inner blocks of a loop.
use mathlib.Core.Path.{subst}
use atrox.Prelude.{
  Result-cases, ℕ, ◌≡◌, ◌≢◌, refl, ap, sym, ◌∙◌, Bool, true, false, not, ◌||◌, List, [], All, ◌==◌,
  ==→≢, some, Error, ok, err, contains, contains-append, contains-select, contains-insert_all,
  insert_all, Option-cases, List-cases, inl, inr, arith,
}
use atrox.Recognition.{IteratorInfo}
use atrox.Payload.Trees.{Group, select_payload_trees}
use atrox.Payload.Trees.Forest.{HangsFrom, iterators, tree_members}
use atrox.Selection.Naive
use atrox.Selection.Iterator
use atrox.Selection.Iterator.Payload.{contains-candidates, iterator_selection}
use atrox.Selection.Weighted
use atrox.Selection.Weighted.Heaviest.{All-middle, weighted_selection, weighted_undefined}
use atrox.Cloner.Loops.{reorder_blocks}
use atrox.Cloner.Pass.{
  SelectionStrategy, naive, iterator_recognition_based, weighted_iterator_recognition_based, Target,
  select_blocks,
}

abbrev no_info : IteratorInfo
no_info = record {
  is_iterator = λ i. false;
  payload_only_blocks = λ i. [];
  has_payload_only_blocks = λ i. false;
}

module _ (t : Target) (l : ℕ) where
  -- The contract of a selector: blocks of the loop, and neither its header nor its latch.
  abbrev pub IsInner : ℕ → Type 0
  IsInner x =
      (contains (t.context.li.blocks l) x ≡ true)
      × (x ≢ t.context.li.header l)
      × (x ≢ t.context.li.latch l)

  abbrev pub IsSelection : List ℕ → Type 0
  IsSelection r = (x : ℕ) → contains r x ≡ true → IsInner x

  -- What the code relies on of LLVM's loops and of the IteratorRecognition library: a traversal meets the blocks of a
  -- loop, a block is in its innermost loop, which lies within each loop that has the block, a block that is a header
  -- is that of its innermost loop, a loop has its header, and loops that have each other's headers share them. The
  -- latch of the loop is in no inner loop, as in simplified form.
  pub record LoopLaws : Type 0 where
    pub latch_of :
        contains (t.context.li.blocks l) (t.context.li.latch l) ≡ true
        → contains (t.context.li.latches l) (t.context.li.latch l) ≡ true
    pub traversed : (m x : ℕ) → contains (t.context.li.rpo m) x ≡ contains (t.context.li.blocks m) x
    pub own :
        (x : ℕ)
        → contains (t.context.li.blocks l) x ≡ true
        → contains (t.context.li.blocks (t.context.li.loop_for x)) x ≡ true
    pub within :
        (m x y : ℕ)
        → contains (t.context.li.blocks m) x ≡ true
        → contains (t.context.li.blocks (t.context.li.loop_for x)) y ≡ true
        → contains (t.context.li.blocks m) y ≡ true
    pub header_of :
        (h : ℕ)
        → t.context.li.is_loop_header h ≡ true
        → t.context.li.header (t.context.li.loop_for h) ≡ h
    pub has_header : contains (t.context.li.blocks l) (t.context.li.header l) ≡ true
    pub shared :
        (m : ℕ)
        → contains (t.context.li.blocks m) (t.context.li.header l) ≡ true
        → contains (t.context.li.blocks l) (t.context.li.header m) ≡ true
        → t.context.li.header m ≡ t.context.li.header l
    pub simplified :
        contains (t.context.li.blocks l) (t.context.li.latch l) ≡ true
        → t.context.li.loop_for (t.context.li.latch l) ≡ l
    pub payload :
        (info : IteratorInfo) (x : ℕ)
        → t.infos l ≡ some info
        → contains (info.payload_only_blocks l) x ≡ true
        → contains (t.context.li.blocks l) x ≡ true

  -- What is known of a group of the payload trees.
  abbrev IsTree : List ℕ → Group → Type 0
  IsTree payload g =
      (contains g.members g.root ≡ true)
      × ((x : ℕ)
          → contains g.members x ≡ true
          → HangsFrom t.cfg t.context.li t.order l payload g.root x
            × (contains payload x ≡ true)
            × ((x ≢ t.context.li.header l)
                × (x ≢ t.context.li.latch l)
                × (contains (iterators t.cfg t.context.li t.order l payload) x ≡ false)))

  module _ (laws : LoopLaws) where
    -- A block that is no latch is not the latch.
    not_latch :
        (x : ℕ)
        → contains (t.context.li.blocks l) x ≡ true
        → contains (t.context.li.latches l) x ≡ false
        → x ≢ t.context.li.latch l
    not_latch x b n e =
        let in' = laws.latch_of (subst (λ q. contains (t.context.li.blocks l) q ≡ true) e b) in
        let out = subst (λ q. contains (t.context.li.latches l) q ≡ false) e n in cc

    naive-IsSelection : IsSelection (Naive.calculate t.context.li l [])
    unfolding Naive.calculate
    naive-IsSelection x c =
        let keep : ℕ → Bool =
          λ e. not (e == t.context.li.header l || contains (t.context.li.latches l) e) in
        let sel = contains-select keep (t.context.li.blocks l) x in
        let b : contains (t.context.li.blocks l) x ≡ true = ground arith in
        let n : contains (t.context.li.latches l) x ≡ false = ground arith in
        let h : (x == t.context.li.header l) ≡ false = ground arith in
        (b, ==→≢ x (t.context.li.header l) h, not_latch x b n)

    -- The loop of another header has neither the header nor the latch.
    without_header :
        (h : ℕ)
        → t.context.li.is_loop_header h ≡ true
        → contains (t.context.li.blocks l) h ≡ true
        → h ≢ t.context.li.header l
        → contains (t.context.li.blocks (t.context.li.loop_for h)) (t.context.li.header l) ≢ true
    without_header h is b off e =
        let own_header = laws.header_of h is in
        let in' : contains (t.context.li.blocks l) (t.context.li.header (t.context.li.loop_for h))
            ≡ true =
          ap (contains (t.context.li.blocks l)) own_header ∙ b in
        off (sym own_header ∙ laws.shared (t.context.li.loop_for h) e in')

    nested-IsInner :
        (h x : ℕ)
        → t.context.li.is_loop_header h ≡ true
        → contains (t.context.li.blocks l) h ≡ true
        → h ≢ t.context.li.header l
        → contains (t.context.li.blocks (t.context.li.loop_for h)) x ≡ true
        → IsInner x
    nested-IsInner h x is b off c =
        let m = t.context.li.loop_for h in
        let in' = laws.within l h x b c in
        let away = without_header h is b off in
        (
          in',
          λ e. away (subst (λ q. contains (t.context.li.blocks m) q ≡ true) e c),
          λ e.
              (let latch = subst (λ q. contains (t.context.li.blocks m) q ≡ true) e c in
                let simple =
                  laws.simplified (subst (λ q. contains (t.context.li.blocks l) q ≡ true) e in') in
                away (
                  laws.within m (t.context.li.latch l) (t.context.li.header l) latch (
                    ap (λ q. contains (t.context.li.blocks q) (t.context.li.header l)) simple
                    ∙ laws.has_header))),
        )

    traversed_candidate :
        (x : ℕ)
        → contains (Iterator.candidates t.context.li l) x ≡ true
        → contains (t.context.li.rpo l) x ≡ true
    traversed_candidate x c = let e = contains-candidates t.context.li no_info l x in ground arith

    candidate-IsInner : (x : ℕ) → contains (Iterator.candidates t.context.li l) x ≡ true → IsInner x
    candidate-IsInner x c =
        let e = contains-candidates t.context.li no_info l x in
        let in' = traversed_candidate x c in
        let n : contains (t.context.li.latches l) x ≡ false = ground arith in
        let h : (x == t.context.li.header l) ≡ false = ground arith in
        let b : contains (t.context.li.blocks l) x ≡ true = sym (laws.traversed l x) ∙ in' in
        (b, ==→≢ x (t.context.li.header l) h, not_latch x b n)

    iterator-IsSelection : IsSelection (Iterator.calculate t.context.li t.infos l [])
    unfolding Iterator.calculate
    iterator-IsSelection x c = elim (Option-cases (t.infos l)) [
      | inl n ↦ absurd (
          let e : Iterator.calculate t.context.li t.infos l [] ≡ [] =
            rw (Iterator.calculate, n) refl in
          let d = ap (λ q. contains q x) e in cc)
      | inr (info, e) ↦
          let s = iterator_selection t.context.li info l t.infos e (λ b m.
            laws.traversed (t.context.li.loop_for b) b
            ∙ laws.own b (sym (laws.traversed l b) ∙ traversed_candidate b m)) in
          let near : (y : ℕ)
              → contains s.seen y ≡ true
              → contains (Iterator.candidates t.context.li l) y ≡ true =
            λ y m. ap (λ q. contains q y) s.split ∙ contains-append s.seen s.left y ∙ rw m refl in
          elim (s.sound x c) [
            | inl old ↦ absurd cc
            | inr (inl (m, p)) ↦ candidate-IsInner x (near x m)
            | inr (inr (h, m, p, r)) ↦
                let (b, off, k) = candidate-IsInner h (near h m) in
                nested-IsInner h x (ground arith) b off
                  (sym (laws.traversed (t.context.li.loop_for h) x) ∙ r)
          ]
    ]

    trees_err :
        (info : IteratorInfo) (bad : Error) (r : List ℕ)
        → t.infos l ≡ some info
        → select_payload_trees t.cfg t.context.li t.order l (info.payload_only_blocks l) ≡ err bad
        → Weighted.calculate t.cfg t.context.li t.order t.infos t.visits l [] ≡ ok r
        → ⊥
    unfolding Weighted.calculate
    trees_err info bad r known e run =
        let fails : Weighted.calculate t.cfg t.context.li t.order t.infos t.visits l [] ≡ err bad =
          rw (known, Weighted.calculate) (rw e refl) in
        cc

    weighted-IsSelection :
        (r : List ℕ)
        → Weighted.calculate t.cfg t.context.li t.order t.infos t.visits l [] ≡ ok r
        → IsSelection r
    unfolding Weighted.calculate
    weighted-IsSelection r run x c = elim (Option-cases (t.infos l)) [
      | inl n ↦
          let e : Weighted.calculate t.cfg t.context.li t.order t.infos t.visits l [] ≡ ok [] =
            rw (Weighted.calculate, n) refl in
          let e' : [] ≡ r = cc in let d = ap (λ q. contains q x) e' in absurd cc
      | inr (info, known) ↦
          let payload = info.payload_only_blocks l in
          elim (Result-cases (select_payload_trees t.cfg t.context.li t.order l payload)) [
            | inl (bad, e) ↦ absurd (trees_err info bad r known e run)
            | inr (gs, e) ↦ elim (List-cases gs) [
              | inl z ↦
                  let u =
                    weighted_undefined t.cfg t.context.li t.order t.infos info t.visits l known []
                      (e ∙ ap ok z) in
                  absurd cc
              | inr (g, rest, z) ↦
                  let e' = e ∙ ap ok z in
                  let (f, w) =
                    weighted_selection t.cfg t.context.li t.order t.infos info t.visits l known g
                      rest [] e' in
                  let same : insert_all [] (t.order.walk f.best.members) ≡ r = cc in
                  let m = ap (λ q. contains q x) same ∙ c in
                  let i = contains-insert_all [] (t.order.walk f.best.members) x in
                  let k = t.order.contains-walk f.best.members x in
                  let inside : contains f.best.members x ≡ true = ground arith in
                  let all =
                    subst (All (IsTree payload)) f.split
                      (tree_members t.cfg t.context.li t.order l payload e') in
                  let (_, p, (h, n, _)) =
                    (All-middle (IsTree payload) f.before f.best f.after all).1 x inside in
                  (laws.payload info x known p, h, n)
            ]
          ]
    ]

    selected :
        (strategy : SelectionStrategy) (r : List ℕ)
        → select_blocks strategy t l ≡ ok r
        → IsSelection r
    unfolding select_blocks
    selected naive r run =
        let e : Naive.calculate t.context.li l [] ≡ r = cc in subst IsSelection e naive-IsSelection
    selected iterator_recognition_based r run =
        let e : Iterator.calculate t.context.li t.infos l [] ≡ r = cc in
        subst IsSelection e iterator-IsSelection
    selected weighted_iterator_recognition_based r run = weighted-IsSelection r run

    -- For a loop whose latch is in no inner loop, where a selector returns, it selects blocks of the loop only, and neither the loop's header nor its latch; the same
    -- holds of the blocks in the order in which the cloner extracts them.
    pub select_blocks-IsSelection :
        (strategy : SelectionStrategy) (r : List ℕ)
        → select_blocks strategy t l ≡ ok r
        → IsSelection r × IsSelection (reorder_blocks t.context r l)
    unfolding select_blocks reorder_blocks
    select_blocks-IsSelection strategy r run =
        let sound = selected strategy r run in
        (
          sound,
          λ x c.
              (let e = contains-select (contains r) (t.context.li.rpo l) x in
                sound x (ground arith)),
        )
