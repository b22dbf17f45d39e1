-- ===== src/Separator/Pass.antt =====
-- `BlockSeparatorPass::perform`. The blocks of a loop are those of the function as the splits before left it.
use Prim.Native.String.{String}
use mathlib.Core.List.{reverse-append}
use atrox.Prelude.{
  ℕ, ◌≡◌, ◌≢◌, refl, Bool, true, false, List, [], ◌∷◌, ◌++◌, reverse, Option, some, none, arith,
  All, lookup, emplace, assign, insert_sorted, replace, if◌then◌else◌, Result, ok, ◌>>=◌,
  Bool-cases, Option-cases, inl, inr, ap, ◌∙◌,
}
use atrox.Recognition.{IteratorInfo, IteratorRecognitionInfo}
use atrox.Functions.{Function, is_skipped}
use atrox.Separator.Points.{
  Mode, invert_mode, Block, Point, Modes, Points, points_at, push_points, is_nil, block_points,
  visit_block, visit_blocks, find_partition_points,
}
use atrox.Separator.Split.{
  Layout, BlockSplitter, split_points, last_mode, split_entry, split_at_partition_points,
}

module _ (splitter : BlockSplitter) (blocks_of : Layout → ℕ → List Block)
    (info_for : IteratorRecognitionInfo) where
  -- One loop: the function after it, and whether it changed.
  unfoldable pub separate_loop : ℕ → Layout → Result (Layout × Bool)
  unfolding find_partition_points split_at_partition_points
  separate_loop l f = elim (info_for l) [
    | none ↦ ok (f, false)
    | some info ↦
        let s = find_partition_points info [] [] (blocks_of f l) in
        let split = split_at_partition_points splitter s.1 (f, s.0) in
        if s.2 then (split >>= λ t. ok (t.0, true)) else ok (f, false)
  ]

  -- The loop over the loops in preorder.
  unfoldable pub separate_loops : List ℕ → Layout → Bool → Result (Layout × Bool)
  unfolding separate_loop
  separate_loops [] f changed = ok (f, changed)
  separate_loops (l ∷ ls) f changed =
      separate_loop l f >>= λ s. separate_loops ls s.0 (if s.1 then true else changed)

  unfoldable pub perform :
      Option (List String) → Function → List ℕ → Layout → Result (Layout × Bool)
  unfolding separate_loops is_skipped
  perform white_list function loops f =
      let run = separate_loops loops f false in
      if is_skipped white_list function then ok (f, false) else run

  -- No entry of the map of points is empty.
  abbrev IsFilled : Points → Type 0
  IsFilled = All (λ (e : ℕ × List Point). e.1 ≢ [])

  append-ne-nil : (ps : List Point) (p : Point) → ps ++ p ∷ [] ≢ []
  append-ne-nil [] p h = cc
  append-ne-nil (q ∷ ps) p h = cc

  insert_sorted-IsFilled :
      (m : Points) (k : ℕ) (v : List Point) → v ≢ [] → IsFilled m → IsFilled (insert_sorted m k v)
  insert_sorted-IsFilled [] k v n h = (n, tt)
  insert_sorted-IsFilled (e ∷ m) k v n (a, h) =
      ground (arith, insert_sorted-IsFilled m k v n h, n, a)

  replace-IsFilled :
      (m : Points) (k : ℕ) (v : List Point) → v ≢ [] → IsFilled m → IsFilled (replace m k v)
  replace-IsFilled [] k v n h = tt
  replace-IsFilled (e ∷ m) k v n (a, h) = ground (arith, replace-IsFilled m k v n h, n, a)

  assign-IsFilled :
      (m : Points) (k : ℕ) (v : List Point) → v ≢ [] → IsFilled m → IsFilled (assign m k v)
  unfolding assign
  assign-IsFilled m k v n h = elim (Option-cases (lookup m k)) [
    | inl e ↦ rw (e, assign) (insert_sorted-IsFilled m k v n h)
    | inr (w, e) ↦ rw (e, assign) (replace-IsFilled m k v n h)
  ]

  push_points-IsFilled :
      (points : Points) (bb : ℕ) (ps : List Point)
      → IsFilled points
      → IsFilled (push_points points bb ps)
  unfolding push_points
  push_points-IsFilled points bb [] h = h
  push_points-IsFilled points bb (p ∷ ps) h =
      let v = points_at points bb ++ p ∷ [] in
      push_points-IsFilled (assign points bb v) bb ps
        (assign-IsFilled points bb v (append-ne-nil (points_at points bb) p) h)

  visit_blocks-IsFilled :
      (info : IteratorInfo) (s : Modes × Points) (bs : List Block)
      → IsFilled s.1
      → IsFilled (visit_blocks info s bs).1
  unfolding visit_blocks visit_block
  visit_blocks-IsFilled info s [] h = h
  visit_blocks-IsFilled info s (b ∷ bs) h =
      visit_blocks-IsFilled info (visit_block info s b) bs
        (push_points-IsFilled s.1 b.id (block_points info b) h)

  last_mode-append :
      (xs : List Point) (p : Point) → (k : Mode) × (last_mode splitter (xs ++ p ∷ []) ≡ ok k)
  last_mode-append [] (i, k) = (k, refl)
  last_mode-append (x ∷ []) (i, k) = (k, refl)
  last_mode-append (x ∷ y ∷ xs) p = last_mode-append (y ∷ xs) p

  split_entry_returns :
      (e : ℕ × List Point) (s : Layout × Modes)
      → e.1 ≢ []
      → (t : Layout × Modes) × (split_entry splitter e s ≡ ok t)
  unfolding split_entry
  split_entry_returns (b, []) s h = absurd (h refl)
  split_entry_returns (b, p ∷ ps) s h =
      let (k, e) = last_mode-append (reverse ps) p in
      let ends = ap (last_mode splitter) (reverse-append (p ∷ []) ps) ∙ e in
      let t = split_points splitter b (reverse (p ∷ ps)) s in
      ((t.0, emplace t.1 b (invert_mode k)), rw (ends, split_entry) refl)

  split_all_returns :
      (points : Points) (s : Layout × Modes)
      → IsFilled points
      → (t : Layout × Modes) × (split_at_partition_points splitter points s ≡ ok t)
  unfolding split_at_partition_points
  split_all_returns [] s h = (s, refl)
  split_all_returns (e ∷ points) s (a, h) =
      let (t, once) = split_entry_returns e s a in
      let (u, rest) = split_all_returns points t h in (u, rw once rest)

  separate_loop_returns :
      (l : ℕ) (f : Layout)
      → (t : Layout × Bool) × (separate_loop l f ≡ ok t) × (t.1 ≡ false → t.0 ≡ f)
  unfolding separate_loop find_partition_points
  separate_loop_returns l f = elim (Option-cases (info_for l)) [
    | inl e ↦ ((f, false), rw (e, separate_loop) refl, λ h. refl)
    | inr (info, e) ↦
        let s = visit_blocks info ([], []) (blocks_of f l) in
        let (t, runs) =
          split_all_returns s.1 (f, s.0) (visit_blocks-IsFilled info ([], []) (blocks_of f l) tt) in
        elim (Bool-cases (is_nil s.1)) [
          | inl none_found ↦ ((f, false), rw (e, separate_loop) (rw none_found refl), λ h. refl)
          | inr found ↦ ((t.0, true), rw (e, separate_loop) (rw found (rw runs refl)), λ h. cc)
        ]
  ]

  separate_loops_return :
      (ls : List ℕ) (f : Layout) (changed : Bool)
      → (t : Layout × Bool) × (separate_loops ls f changed ≡ ok t)
        × (t.1 ≡ false → (t.0 ≡ f) × (changed ≡ false))
  unfolding separate_loops
  separate_loops_return [] f changed = ((f, changed), refl, λ h. (refl, h))
  separate_loops_return (l ∷ ls) f changed =
      let (s, once, same) = separate_loop_returns l f in
      let (t, rest, kept) = separate_loops_return ls s.0 (if s.1 then true else changed) in
      (t, rw once rest, λ h. ground (arith, kept h, same))

  -- The pass returns for every function, so `lastMode` is set wherever it is read, and where it reports no
  -- change the function is as it was.
  pub separator_returns :
      (white_list : Option (List String)) (function : Function) (loops : List ℕ) (f : Layout)
      → (t : Layout × Bool) × (perform white_list function loops f ≡ ok t) × (t.1 ≡ false → t.0 ≡ f)
  unfolding perform
  separator_returns white_list function loops f =
      let (t, runs, same) = separate_loops_return loops f false in
      elim (Bool-cases (is_skipped white_list function)) [
        | inl skip ↦ ((f, false), rw skip refl, λ h. refl)
        | inr go ↦ (t, rw go runs, λ h. (same h).0)
      ]
