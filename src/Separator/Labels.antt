-- ===== src/Separator/Labels.antt =====
-- The labels that `SplitAtPartitionPoints` gives to the pieces of a block are their modes.
use mathlib.Core.Path.{subst}
use mathlib.Core.List.{reverse-append, reverse-reverse}
use atrox.Prelude.{
  ℕ, ◌≡◌, ◌≢◌, refl, sym, ap, ◌∙◌, ◌⊎◌, inl, inr, false, List, [], ◌∷◌, ◌++◌, reverse, arith, All,
  contains, lookup, emplace, lookup-emplace, ◌==◌, ==_refl, ==→≡, Bool-cases, Option-cases, some,
  none, ok,
}
use atrox.Recognition.{IteratorInfo}
use atrox.Separator.Points.{Mode, invert_mode, Inst, Point, Modes}
use atrox.Separator.Cuts.{Fits, Cuts, invert-invert}
use atrox.Separator.Pieces.{
  ids, IsUnique, contains-ids-append, IsUnique-prefix, IsUnique-concat, Cuts-nil, Cuts-last,
  Cuts-concat, Cuts-first,
}
use atrox.Separator.Split.{Layout, body, BlockSplitter, split_points, last_mode, split_entry}

module _ (info : IteratorInfo) where
  module _ (splitter : BlockSplitter) (b : ℕ) (f₀ : Layout) (modes₀ : Modes) where
    -- A labelled block is as it was before the call, or all of it fits its label.
    abbrev pub IsLabelled : Layout → ℕ → Mode → Type 0
    IsLabelled f c k =
        (lookup modes₀ c ≡ some k) × (body f c ≡ body f₀ c) ⊎ All (Fits info k) (body f c)

    record Inv (f : Layout) (modes : Modes) : Type 0 where
      labelled :
          (c : ℕ) (k : Mode)
          → lookup modes c ≡ some k
          → (c ≢ b) × (body f c ≢ []) × IsLabelled f c k

    record Done (m : Mode) (t : Layout × Modes) : Type 0 where
      inv : Inv t.0 t.1
      fits : All (Fits info m) (body t.0 b)

    Inv-split :
        (f : Layout) (modes : Modes) (pre post : List Inst) (i : Inst) (k : Mode)
        → Inv f modes
        → body f b ≡ pre ++ i ∷ post
        → contains (ids pre) i.id ≡ false
        → All (Fits info k) (i ∷ post)
        → Inv (splitter.after f b i) (emplace modes (splitter.new_block f b i) k)
    Inv-split f modes pre post i k inv e n fit = record {
      labelled = λ c j h. elim (Option-cases (lookup modes c)) [
        | inr (w, old) ↦
            let (off, some_body, label) = inv.labelled c w old in
            let same : w ≡ j = ground (arith, lookup-emplace modes new k c) in
            let other : c ≢ new = λ q. some_body (ap (body f) q ∙ fresh.1) in
            let stays = splitter.unmoved f b i c off other in
            (off, rw stays some_body, rw (← same) (rw stays label))
        | inl absent ↦ elim (Bool-cases (c == new)) [
          | inl here ↦
              let at_new = ==→≡ c new here in
              let same : k ≡ j = ground (arith, lookup-emplace modes new k c) in
              let now : body (splitter.after f b i) c ≡ i ∷ post =
                ap (body (splitter.after f b i)) at_new ∙ moved.0 in
              (
                rw at_new fresh.0,
                λ q. cc,
                inr (rw now (subst (λ q. All (Fits info q) (i ∷ post)) same fit)),
              )
          | inr away ↦ absurd (ground (arith, lookup-emplace modes new k c))
        ]
      ];
    }
      where
        new : ℕ
        new = splitter.new_block f b i

        fresh : (new ≢ b) × (body f new ≡ [])
        fresh = splitter.new_block_fresh f b i

        moved :
            (body (splitter.after f b i) new ≡ i ∷ post)
            × (body (splitter.after f b i) b ≡ pre ++ splitter.jump f b i ∷ [])
        moved = splitter.moved f b i pre post e n

    -- Each round splits off the last piece.
    split_points-Done :
        (qs : List Point) (f : Layout) (modes : Modes) (m n : Mode)
        → IsUnique (body f b)
        → Cuts info m (body f b) (reverse qs) n
        → Inv f modes
        → Done m (split_points splitter b qs (f, modes))
    unfolding split_points
    split_points-Done [] f modes m n u c inv = record { inv = inv; fits = Cuts-nil info c }
    split_points-Done ((i, k) ∷ qs) f modes m n u c inv =
        let l = Cuts-last info c (reverse qs) i k (reverse-append ((i, k) ∷ []) qs) in
        let (new_id, pre_unique) = IsUnique-prefix l.pre i l.post (subst IsUnique l.split u) in
        let (br, jump_new) = splitter.jump_fresh f b i in
        let moved = splitter.moved f b i l.pre l.post l.split new_id in
        let law = contains-ids-append l.pre (i ∷ l.post) (splitter.jump f b i).id in
        let apart : contains (ids l.pre) (splitter.jump f b i).id ≡ false =
          ground (arith, ap (λ xs. contains (ids xs) (splitter.jump f b i).id) l.split) in
        split_points-Done qs (splitter.after f b i) (emplace modes (splitter.new_block f b i) k) m
          l.last (rw moved.1 (IsUnique-concat l.pre (splitter.jump f b i) pre_unique apart))
          (rw moved.1 (Cuts-concat info (splitter.jump f b i) br l.cuts))
          (Inv-split f modes l.pre l.post i k inv l.split new_id l.fits)

    last_mode-append :
        (xs : List Point) (i : Inst) (k : Mode) → last_mode splitter (xs ++ (i, k) ∷ []) ≡ ok k
    last_mode-append [] i k = refl
    last_mode-append (x ∷ []) i k = refl
    last_mode-append (x ∷ y ∷ xs) i k = last_mode-append (y ∷ xs) i k

    -- When a block with points is split at them, given that they cut it from some mode on, that no instruction
    -- stands in it twice, and that the labels given so far are of other blocks with instructions: the call
    -- returns, the block itself gets that mode, and every label is either one given before to a block that
    -- did not change, or the mode of all instructions of its block but unconditional branches.
    pub split_entry_labels :
        (m n : Mode) (i : Inst) (k : Mode) (ps : List Point)
        → IsUnique (body f₀ b)
        → Cuts info m (body f₀ b) ((i, k) ∷ ps) n
        → ((c : ℕ) (j : Mode) → lookup modes₀ c ≡ some j → (c ≢ b) × (body f₀ c ≢ []))
        → (t : Layout × Modes) × (split_entry splitter (b, (i, k) ∷ ps) (f₀, modes₀) ≡ ok t)
          × (lookup t.1 b ≡ some m)
          × ((c : ℕ) (j : Mode) → lookup t.1 c ≡ some j → IsLabelled t.0 c j)
    unfolding split_entry
    split_entry_labels m n i k ps unique cuts old =
        let qs = reverse ((i, k) ∷ ps) in
        let d =
          split_points-Done qs f₀ modes₀ m n unique
            (subst (λ xs. Cuts info m (body f₀ b) xs n) (sym (reverse-reverse ((i, k) ∷ ps))) cuts)
            (record { labelled = λ c j h. let (x, y) = old c j h in (x, y, inl (h, refl)) }) in
        let t = split_points splitter b qs (f₀, modes₀) in
        let ends : last_mode splitter qs ≡ ok k =
          ap (last_mode splitter) (reverse-append ((i, k) ∷ []) ps)
          ∙ last_mode-append (reverse ps) i k in
        let mode : invert_mode k ≡ m =
          ap invert_mode (Cuts-first info cuts i k ps refl) ∙ invert-invert m in
        let free : lookup t.1 b ≡ none = elim (Option-cases (lookup t.1 b)) [
          | inl absent ↦ absent
          | inr (w, e) ↦ absurd ((d.inv.labelled b w e).0 refl)
        ] in
        (
          (t.0, emplace t.1 b m),
          rw (ends, split_entry) (rw mode refl),
          ground (arith, lookup-emplace t.1 b m b, ==_refl b),
          λ c j h. elim (Bool-cases (c == b)) [
            | inl here ↦
                let at_b = ==→≡ c b here in
                let same : m ≡ j = ground (arith, lookup-emplace t.1 b m c) in
                inr (rw at_b (subst (λ q. All (Fits info q) (body t.0 b)) same d.fits))
            | inr away ↦
                (d.inv.labelled c j (elim (Option-cases (lookup t.1 c)) [
                  | inl absent ↦ absurd (ground (arith, lookup-emplace t.1 b m c))
                  | inr (w, e) ↦ ground (arith, lookup-emplace t.1 b m c)
                ])).2
          ],
        )
