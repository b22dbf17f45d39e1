-- ===== src/Bounds/Analyzed.antt =====
-- What `analyze` leaves in the map, and what the queries for induction variables say.
use mathlib.Core.Path.{subst}
use atrox.Prelude.{
  ℕ, ◌≡◌, ◌≢◌, refl, sym, ap, ◌∙◌, ◌⊎◌, inl, inr, true, false, not, if◌then◌else◌, List, [], ◌∷◌,
  ◌==◌, ==_refl, ==→≡, Option, some, none, contains, lookup, emplace, assign, lookup-emplace,
  lookup-assign, ok, Bool-cases, Option-cases, arith,
}
use atrox.Bounds.Nests.{LoopNest, Phis, get_induction_variable, outermost}
use atrox.Bounds.Enclosing.{Encloses, direct, further, outermost_lem}
use atrox.Bounds.Spaces.{
  LoopIterationSpaceInfo, no_info, Spaces, Analyzer, ScalarEvolution, loops_in, add_space,
  add_spaces, analyze_top, analyze,
}

some_inj {ℓ} : {A : Type ℓ} {a b : A} → some a ≡ some b → a ≡ b
some_inj h = cc

module _ (nest : LoopNest) (phis : Phis) (se : ScalarEvolution) where
  open nest use {header, loop_for, depth, preorder}
  open se use {scev, is_add_rec, start_of, max_trip_count}

  -- The iteration space of a loop, by itself: nothing where it has no induction variable that is a recurrence.
  abbrev pub space_of : ℕ → LoopIterationSpaceInfo
  space_of l =
      let ind = get_induction_variable phis l in
      if ind == 0 then no_info else if not (is_add_rec (scev ind)) then no_info else record {
        induction_variable = ind;
        start = start_of (scev ind);
        end = start_of (scev ind);
        trip_count = max_trip_count l;
      }

  -- Every entry is the iteration space of its loop.
  abbrev IsSound : Spaces → Type 0
  IsSound spaces = (l : ℕ) (i : LoopIterationSpaceInfo) → lookup spaces l ≡ some i → i ≡ space_of l

  -- Where no space is set, an entry that was there stays.
  lookup-found :
      (spaces : Spaces) (e l : ℕ)
      → IsSound spaces
      → space_of e ≡ no_info
      → lookup (emplace spaces e no_info) l ≡ (if l == e then some no_info else lookup spaces l)
  lookup-found spaces e l sound none_set =
      lookup-emplace spaces e no_info l ∙ elim (Bool-cases (l == e)) [
        | inl y ↦ elim (Option-cases (lookup spaces l)) [
          | inl n ↦ rw (n, y) refl
          | inr (i, n) ↦ rw (n, y) (ap some (sound l i n ∙ ap space_of (==→≡ l e y) ∙ none_set))
        ]
        | inr m ↦ elim (Option-cases (lookup spaces l)) [
          | inl n ↦ rw (n, m) refl
          | inr (i, n) ↦ rw (n, m) refl
        ]
      ]

  lookup-set :
      (spaces : Spaces) (e l : ℕ) (i : LoopIterationSpaceInfo)
      → lookup (assign (emplace spaces e no_info) e i) l
        ≡ (if l == e then some i else lookup spaces l)
  lookup-set spaces e l i =
      lookup-assign (emplace spaces e no_info) e i l ∙ elim (Bool-cases (l == e)) [
        | inl y ↦ rw y refl
        | inr n ↦ rw n (
            lookup-emplace spaces e no_info l ∙ elim (Option-cases (lookup spaces l)) [
              | inl m ↦ rw (m, n) refl
              | inr (j, m) ↦ rw m refl
            ])
      ]

  lookup-add_space :
      (spaces : Spaces) (e l : ℕ)
      → IsSound spaces
      → lookup (add_space phis se spaces e) l
        ≡ (if l == e then some (space_of e) else lookup spaces l)
  unfolding add_space
  lookup-add_space spaces e l sound = elim (Bool-cases (get_induction_variable phis e == 0)) [
    | inl y ↦ rw (add_space, y) (lookup-found spaces e l sound (rw y refl))
    | inr n ↦ elim (Bool-cases (is_add_rec (scev (get_induction_variable phis e)))) [
      | inl y ↦ rw (add_space, n, y) (lookup-set spaces e l _)
      | inr m ↦ rw (add_space, n, m) (lookup-found spaces e l sound (rw (n, m) refl))
    ]
  ]

  add_space-IsSound :
      (spaces : Spaces) (e : ℕ) → IsSound spaces → IsSound (add_space phis se spaces e)
  add_space-IsSound spaces e sound l i h =
      let at = sym (lookup-add_space spaces e l sound) ∙ h in
      elim (Bool-cases (l == e)) [
        | inl y ↦
            let own : some (space_of e) ≡ some i =
              subst (λ b. (if b then some (space_of e) else lookup spaces l) ≡ some i) y at in
            sym (some_inj own) ∙ ap space_of (sym (==→≡ l e y))
        | inr n ↦
            sound l i
              (subst (λ b. (if b then some (space_of e) else lookup spaces l) ≡ some i) n at)
      ]

  own_space :
      (e l : ℕ) (o : Option LoopIterationSpaceInfo)
      → (if l == e then some (space_of e) else o)
        ≡ (if (if l == e then true else false) then some (space_of l) else o)
  own_space e l o = elim (Bool-cases (l == e)) [
    | inl y ↦ rw y (ap (λ k. some (space_of k)) (sym (==→≡ l e y)))
    | inr n ↦ rw n refl
  ]

  lookup-add_spaces :
      (spaces : Spaces) (es : List ℕ) (l : ℕ)
      → IsSound spaces
      → lookup (add_spaces phis se spaces es) l
        ≡ (if contains es l then some (space_of l) else lookup spaces l)
  unfolding add_spaces
  lookup-add_spaces spaces [] l sound = refl
  lookup-add_spaces spaces (e ∷ es) l sound =
      lookup-add_spaces (add_space phis se spaces e) es l (add_space-IsSound spaces e sound)
      ∙ elim (Bool-cases (contains es l)) [
        | inl y ↦ elim (Bool-cases (l == e)) [ inl z ↦ rw (y, z) refl | inr z ↦ rw (y, z) refl ]
        | inr n ↦ rw n (lookup-add_space spaces e l sound ∙ own_space e l (lookup spaces l))
      ]

  -- The state of an analyzer that analyzed a nest, if it did: the entries are those of the loops of the nest.
  abbrev pub IsAnalyzed : Analyzer → Type 0
  IsAnalyzed a =
      a.top_loop ≢ 0
      → (l : ℕ)
      → lookup a.spaces l
        ≡ (if contains (loops_in nest a.top_loop preorder) l then some (space_of l) else none)

  outermost_nonzero : (t l : ℕ) → l ≢ 0 → (t ≡ l) ⊎ Encloses nest t l → t ≢ 0
  outermost_nonzero t l n (inl e) z = n (sym e ∙ z)
  outermost_nonzero t l n (inr (direct up e)) z = up (sym e ∙ z)
  outermost_nonzero t l n (inr (further {q} up e)) z =
      outermost_nonzero t (nest.parent q) up (inr e) z

  -- The analysis of a loop of the loop info returns, and leaves the analyzer at the outermost loop around it with
  -- exactly the loops of that nest in the map, each with its own iteration space, whatever nest was analyzed before.
  pub analyze-IsAnalyzed :
      (l : ℕ) (a : Analyzer)
      → l ≢ 0
      → loop_for (header l) ≡ l
      → IsAnalyzed a
      → (b : Analyzer) × (analyze nest phis se l a ≡ ok b)
        × IsAnalyzed b
        × (outermost nest l ≡ ok b.top_loop)
        × (b.top_loop ≢ 0)
  unfolding analyze analyze_top
  analyze-IsAnalyzed l a n own h =
      let (t, up, top, way) = outermost_lem nest l in
      let nonzero = outermost_nonzero t l n way in
      let no_zero : (l == 0) ≡ false = ground (arith, ==→≡ l 0) in
      let of_info : (loop_for (header l) == l) ≡ true = rw own (==_refl l) in
      elim (Bool-cases (t == a.top_loop)) [
        | inl y ↦ (
          a,
          rw (analyze, no_zero, of_info, up, analyze_top, y) refl,
          h,
          up ∙ ap ok (==→≡ t a.top_loop y),
          (λ z. nonzero (==→≡ t a.top_loop y ∙ z)),
        )
        | inr m ↦ (
          record { top_loop = t; spaces = add_spaces phis se [] (loops_in nest t preorder) },
          rw (analyze, no_zero, of_info, up, analyze_top, m) refl,
          (λ z x. lookup-add_spaces [] (loops_in nest t preorder) x (λ k i e. cc)),
          up,
          nonzero,
        )
      ]
