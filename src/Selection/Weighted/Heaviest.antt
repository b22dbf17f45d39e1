-- ===== src/Selection/Weighted/Heaviest.antt =====
-- The weighted selector takes the first of the groups with the greatest weight.
use mathlib.Core.Path.{subst}
use mathlib.Core.List.{map-append, append_assoc, append-nil}
use atrox.Prelude.{
  ℕ, ◌≤◌, ◌<◌, ◌≡◌, refl, sym, ap, ◌∙◌, List, [], ◌∷◌, ◌++◌, map, some, none, arith, ltb, ◌==◌,
  lookup, assign, ◌⊎◌, false, insert_all, All, Error, ok, err, inl, inr, Bool-cases, ==_refl,
}
use atrox.Llvm.{Cfg, LoopInfo, SetOrder}
use atrox.Recognition.{IteratorInfo, IteratorRecognitionInfo}
use atrox.Payload.Weights.{Visit, calculate_payload_weight}
use atrox.Payload.Trees.{Group, select_payload_trees}
use atrox.Payload.Trees.Groups.{roots, IsAscending}
use atrox.Payload.Trees.Forest.{tree_roots}
use atrox.Selection.Weighted.{
  group_weight, max_element, members_at, heaviest, tree_weights, calculate,
}

pub All-middle {ℓ} :
    {A : Type ℓ} (P : A → Type 0) (xs : List A) (y : A) (ys : List A) → All P (xs ++ y ∷ ys) → P y
All-middle P [] y ys h = h.0
All-middle P (x ∷ xs) y ys h = All-middle P xs y ys h.1

module _ (order : SetOrder) (weights : List (ℕ × ℕ)) where
  abbrev pub weight : Group → ℕ
  weight g = group_weight weights (order.walk g.members)

  abbrev entry : Group → ℕ × ℕ
  entry g = (g.root, weight g)

  abbrev keys : List (ℕ × ℕ) → List ℕ
  keys = map (λ (e : ℕ × ℕ). e.0)

  assign_last :
      (m : List (ℕ × ℕ)) (k v : ℕ) (ks : List ℕ)
      → IsAscending (keys m ++ k ∷ ks)
      → (lookup m k ≡ none) × (assign m k v ≡ m ++ (k, v) ∷ [])
  unfolding assign
  assign_last [] k v ks h = (refl, refl)
  assign_last (e ∷ m) k v ks (below, h) =
      let lt = All-middle (λ y. e.0 < y) (keys m) k ks below in
      let (fresh, rest) = assign_last m k v ks h in (ground arith, ground arith)

  tree_weights-eq-map :
      (sums : List (ℕ × ℕ)) (gs : List Group)
      → IsAscending (keys sums ++ roots gs)
      → tree_weights order weights sums gs ≡ sums ++ map entry gs
  unfolding tree_weights
  tree_weights-eq-map sums [] h = sym (append-nil sums)
  tree_weights-eq-map sums (g ∷ gs) h =
      let last = (assign_last sums g.root (weight g) (roots gs) h).1 in
      rw last (
        tree_weights-eq-map (sums ++ entry g ∷ []) gs (rw (map-append, append_assoc) h)
        ∙ append_assoc sums (entry g ∷ []) (map entry gs))

  -- The first group of the greatest weight.
  pub record First (gs : List Group) : Type 0 where
    pub before : List Group
    pub best : Group
    pub after : List Group
    pub split : gs ≡ before ++ best ∷ after
    pub lighter : All (λ g. weight g < weight best) before
    pub greatest : All (λ g. weight g ≤ weight best) after

  -- Whether the entry `e` is that of `b` or of a later group.
  abbrev Found : ℕ × ℕ → Group → List Group → Type 0
  Found e b gs =
      (e ≡ entry b) × All (λ g. weight g ≤ weight b) gs
      ⊎ ((f : First gs) × (e ≡ entry f.best) × (weight b < weight f.best))

  later : (g : Group) (gs : List Group) (f : First gs) → weight g < weight f.best → First (g ∷ gs)
  later g gs f lt = record {
    before = g ∷ f.before;
    best = f.best;
    after = f.after;
    split = ap (λ xs. g ∷ xs) f.split;
    lighter = (lt, f.lighter);
    greatest = f.greatest;
  }

  first : (g : Group) (gs : List Group) → All (λ h. weight h ≤ weight g) gs → First (g ∷ gs)
  first g gs all = record {
    before = [];
    best = g;
    after = gs;
    split = refl;
    lighter = tt;
    greatest = all;
  }

  max_element-Found :
      (b : Group) (gs : List Group) → Found (max_element (entry b) (map entry gs)) b gs
  unfolding max_element later first
  max_element-Found b [] = inl (refl, tt)
  max_element-Found b (g ∷ gs) = elim (Bool-cases (ltb (weight b) (weight g))) [
    | inl lt ↦
        rw (lt, max_element)
          (elim (max_element-Found g gs) [
            | inl (e, all) ↦ inr (first g gs all, e, ground arith)
            | inr (f, e, h) ↦ inr (later g gs f h, e, ground arith)
          ])
    | inr ge ↦
        rw (ge, max_element)
          (elim (max_element-Found b gs) [
            | inl (e, all) ↦ inl (e, (ground arith, all))
            | inr (f, e, h) ↦ inr (later g gs f (ground arith), e, h)
          ])
  ]

  members_at-root :
      (pre : List Group) (g : Group) (post : List Group)
      → IsAscending (roots (pre ++ g ∷ post))
      → members_at (pre ++ g ∷ post) g.root ≡ g.members
  unfolding members_at
  members_at-root [] g post h = rw (==_refl g.root, members_at) refl
  members_at-root (p ∷ pre) g post (below, h) =
      let lt =
        All-middle (λ y. p.root < y) (roots pre) g.root (roots post)
          (subst (All (λ y. p.root < y)) (map-append Group.root pre (g ∷ post)) below) in
      let other : (g.root == p.root) ≡ false = ground arith in
      rw (other, members_at) (members_at-root pre g post h)

  heaviest-First :
      (g : Group) (gs : List Group)
      → IsAscending (roots (g ∷ gs))
      → (f : First (g ∷ gs)) × (heaviest (g ∷ gs) (tree_weights order weights [] (g ∷ gs))
          ≡ ok f.best.members)
  unfolding heaviest later first
  heaviest-First g gs h = rw (tree_weights-eq-map [] (g ∷ gs) h) (elim (max_element-Found g gs) [
    | inl (e, all) ↦ (first g gs all, rw (e, heaviest) (ap ok (members_at-root [] g gs h)))
    | inr (f, e, lt) ↦
        let l = later g gs f lt in
        let found =
          members_at-root (g ∷ f.before) f.best f.after
            (subst (λ xs. IsAscending (roots xs)) l.split h) in
        (l, rw (e, heaviest) (ap ok (ap (λ xs. members_at xs f.best.root) l.split ∙ found)))
  ])

module _ (cfg : Cfg) (li : LoopInfo) (order : SetOrder) (info_for : IteratorRecognitionInfo)
    (info : IteratorInfo) (instructions : ℕ → List Visit) (l : ℕ)
    (known : info_for l ≡ some info) where
  abbrev pub payload_weights : List (ℕ × ℕ)
  payload_weights = calculate_payload_weight instructions (info.payload_only_blocks l) []

  -- When there are groups, the weighted selector appends the blocks of the first of the groups of the greatest
  -- weight: each earlier group is lighter, and no later one is heavier.
  pub weighted_selection :
      (g : Group) (gs : List Group) (blocks : List ℕ)
      → select_payload_trees cfg li order l (info.payload_only_blocks l) ≡ ok (g ∷ gs)
      → (f : First order payload_weights (g ∷ gs)) × (calculate cfg li order info_for instructions l
            blocks
          ≡ ok (blocks ++ insert_all [] (order.walk f.best.members)))
  unfolding calculate
  weighted_selection g gs blocks h =
      let asc = (tree_roots cfg li order l (info.payload_only_blocks l) h).0 in
      let (f, e) = heaviest-First order payload_weights g gs asc in
      (f, rw (known, calculate) (rw (h, e) refl))

  -- When no payload block is a root, the weighted selector reads through the end iterator that `max_element`
  -- returns for an empty map.
  pub weighted_undefined :
      (blocks : List ℕ)
      → select_payload_trees cfg li order l (info.payload_only_blocks l) ≡ ok []
      → calculate cfg li order info_for instructions l blocks ≡ err Error.undefined
  unfolding calculate heaviest tree_weights
  weighted_undefined blocks h = rw (known, calculate) (rw h refl)
