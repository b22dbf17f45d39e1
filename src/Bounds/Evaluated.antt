-- ===== src/Bounds/Evaluated.antt =====
-- What `evaluate` keeps.
use atrox.Prelude.{
  ℕ, ◌≡◌, ◌≢◌, refl, sym, ap, ◌∙◌, Bool, true, false, not, ◌&&◌, ◌||◌, if◌then◌else◌, List, [], ◌∷◌,
  ◌==◌, ==_refl, ==→≡, leb, Option, some, none, contains, lookup, assign, lookup-assign, All,
  Result, ok, ◌>>=◌, Bool-cases, inl, inr, arith,
}
use atrox.Bounds.Nests.{LoopNest}
use atrox.Bounds.Spaces.{
  LoopIterationSpaceInfo, Spaces, Analyzer, ScalarEvolution, space_at, loops_in, evaluated,
  evaluate_outer, evaluate_start, evaluate_end, evaluate_inner, evaluate_inners, evaluate_loops,
  evaluate,
}

-- What no evaluation changes.
abbrev pub kept_fields : Option LoopIterationSpaceInfo → Option (ℕ × ℕ)
kept_fields none = none
kept_fields (some i) = some (i.induction_variable, i.trip_count)

abbrev pub HasBounds : LoopIterationSpaceInfo → Type 0
HasBounds i = (i.start ≢ 0) × (i.end ≢ 0)

-- A loop has an entry with both bounds.
abbrev pub IsBounded : Spaces → ℕ → Type 0
IsBounded spaces l = (i : LoopIterationSpaceInfo) × (lookup spaces l ≡ some i) × HasBounds i

abbrev pub SameFields : Spaces → Spaces → Type 0
SameFields s t = (l : ℕ) → kept_fields (lookup t l) ≡ kept_fields (lookup s l)

space_known :
    (s : Spaces) (l : ℕ) (i : LoopIterationSpaceInfo) → lookup s l ≡ some i → space_at s l ≡ i
space_known s l i e = rw (space_at, e) refl

module _ (nest : LoopNest) (se : ScalarEvolution)
    (defined : (e k : ℕ) → se.evaluate_at e k ≢ 0) where
  open nest use {depth, reverse_sibling_preorder}
  open se use {is_add_rec, evaluate_at, at_scope}

  -- The map after an entry was evaluated in place.
  assign-IsBounded :
      (s : Spaces) (l : ℕ) (i : LoopIterationSpaceInfo) (x : ℕ)
      → HasBounds i
      → IsBounded s x
      → IsBounded (assign s l i) x
  assign-IsBounded s l i x h (j, e, b) = elim (Bool-cases (x == l)) [
    | inl y ↦ (i, lookup-assign s l i x ∙ rw y refl, h)
    | inr n ↦ (j, lookup-assign s l i x ∙ rw n e, b)
  ]

  assign-SameFields :
      (s : Spaces) (l : ℕ) (i j : LoopIterationSpaceInfo)
      → lookup s l ≡ some j
      → kept_fields (some i) ≡ kept_fields (some j)
      → SameFields s (assign s l i)
  assign-SameFields s l i j e h x =
      ap kept_fields (lookup-assign s l i x) ∙ elim (Bool-cases (x == l)) [
        | inl y ↦ rw y (h ∙ ap kept_fields (sym e ∙ ap (lookup s) (sym (==→≡ x l y))))
        | inr n ↦ rw n refl
      ]

  evaluated_nonzero : (b k : ℕ) → b ≢ 0 → evaluated nest se b k ≢ 0
  unfolding evaluated
  evaluated_nonzero b k n = elim (Bool-cases (not (b == 0) && is_add_rec b)) [
    | inl y ↦ rw (evaluated, y) (defined b k)
    | inr m ↦ rw (evaluated, m) n
  ]

  outer-HasBounds :
      (start value : ℕ) (i : LoopIterationSpaceInfo)
      → HasBounds i
      → HasBounds (evaluate_outer nest se start value i)
  unfolding evaluate_outer
  outer-HasBounds start value i (s, e) =
      (evaluated_nonzero i.start start s, evaluated_nonzero i.end value e)

  start-HasBounds :
      (start l : ℕ) (i : LoopIterationSpaceInfo)
      → HasBounds i
      → HasBounds (evaluate_start nest se start l i)
  unfolding evaluate_start
  start-HasBounds start l i (s, e) = (
    ground (arith, defined (if at_scope i.start l == 0 then i.start else at_scope i.start l) start),
    e,
  )

  end-HasBounds :
      (value l : ℕ) (i : LoopIterationSpaceInfo)
      → HasBounds i
      → HasBounds (evaluate_end nest se value l i)
  unfolding evaluate_end
  end-HasBounds value l i (s, e) = (s, ground (arith, defined (at_scope i.end l) value))

  inner_returns :
      (start value : ℕ) (with_end : Bool) (l : ℕ) (i : LoopIterationSpaceInfo)
      → HasBounds i
      → (j : LoopIterationSpaceInfo) × (evaluate_inner nest se start value with_end l i ≡ ok j)
        × HasBounds j
        × (kept_fields (some j) ≡ kept_fields (some i))
  unfolding evaluate_inner evaluate_start evaluate_end
  inner_returns start value true l i (s, e) = (
    evaluate_end nest se value l (evaluate_start nest se start l i),
    ground (arith, ==→≡ i.start 0, ==→≡ i.end 0),
    end-HasBounds value l (evaluate_start nest se start l i) (start-HasBounds start l i (s, e)),
    refl,
  )
  inner_returns start value false l i (s, e) = (
    evaluate_start nest se start l i,
    ground (arith, ==→≡ i.start 0),
    start-HasBounds start l i (s, e),
    refl,
  )

  module _ (whole : List ℕ) where
    abbrev AllBounded : Spaces → Type 0
    AllBounded s = (x : ℕ) → contains whole x ≡ true → IsBounded s x

    abbrev Within : List ℕ → Type 0
    Within = All (λ x. contains whole x ≡ true)

    -- The map of an evaluation that returned.
    abbrev Kept : Spaces → Result Spaces → Type 0
    Kept s run = (t : Spaces) × (run ≡ ok t) × SameFields s t × AllBounded t

    assign-AllBounded :
        (s : Spaces) (l : ℕ) (i : LoopIterationSpaceInfo)
        → HasBounds i
        → AllBounded s
        → AllBounded (assign s l i)
    assign-AllBounded s l i h b x m = assign-IsBounded s l i x h (b x m)

    inners-Kept :
        (start value : ℕ) (with_end : Bool) (outer : ℕ) (s : Spaces) (ls : List ℕ)
        → Within ls
        → AllBounded s
        → Kept s (evaluate_inners nest se start value with_end outer s ls)
    unfolding evaluate_inners
    inners-Kept start value with_end outer s [] w b = (s, refl, (λ x. refl), b)
    inners-Kept start value with_end outer s (l ∷ ls) w b =
        elim (Bool-cases (leb (depth l) (depth outer))) [
          | inl y ↦ (s, rw (evaluate_inners, y) refl, (λ x. refl), b)
          | inr n ↦
              let next = λ (s' : Spaces) (l' : ℕ) (ls' : List ℕ) (q : LoopIterationSpaceInfo).
                evaluate_inners nest se start value with_end outer (assign s' l' q) ls' in
              let (i, e, h) = b l w.0 in
              let (j, r, k, f) = inner_returns start value with_end l i h in
              let (t, run, same, all) =
                inners-Kept start value with_end outer (assign s l j) ls w.1
                  (assign-AllBounded s l j k b) in
              (
                t,
                rw (evaluate_inners, n)
                    (ap (λ q. evaluate_inner nest se start value with_end l q >>= next s l ls)
                        (space_known s l i e)
                      ∙ ap (λ q. q >>= next s l ls) r
                      ∙ run),
                (λ x. same x ∙ assign-SameFields s l j i e f x),
                all,
              )
        ]

    -- What follows a round.
    abbrev ends : ℕ → ℕ → ℕ → Bool → ℕ → List ℕ → Spaces → Result Spaces
    ends start end target is_max l ls t = elim (target == l) [
      | true ↦ ok t
      | false ↦ evaluate_loops nest se start end target is_max t ls
    ]

    ends_target :
        (start end target : ℕ) (is_max : Bool) (l : ℕ) (ls : List ℕ) (t : Spaces)
        → (target == l) ≡ true
        → ends start end target is_max l ls t ≡ ok t
    ends_target start end target is_max l ls t y = rw (ends, y) refl

    ends_other :
        (start end target : ℕ) (is_max : Bool) (l : ℕ) (ls : List ℕ) (t : Spaces)
        → (target == l) ≡ false
        → ends start end target is_max l ls t ≡ evaluate_loops nest se start end target is_max t ls
    ends_other start end target is_max l ls t n = rw (ends, n) refl

    loops-Kept :
        (start end target : ℕ) (is_max : Bool) (s : Spaces) (ls : List ℕ)
        → Within ls
        → AllBounded s
        → Kept s (evaluate_loops nest se start end target is_max s ls)
    unfolding evaluate_loops evaluate_outer
    loops-Kept start end target is_max s [] w b = (s, refl, (λ x. refl), b)
    loops-Kept start end target is_max s (l ∷ ls) w b =
        let value = if target == l || is_max then end else start in
        let (i, e, h) = b l w.0 in
        let o = evaluate_outer nest se start value i in
        let (t, run, same, all) =
          inners-Kept start value (not (target == l) || is_max) l (assign s l o) ls w.1
            (assign-AllBounded s l o (outer-HasBounds start value i h) b) in
        let fields : SameFields s t = λ x. same x ∙ assign-SameFields s l o i e refl x in
        let rest = λ (q : Spaces). ends start end target is_max l ls q in
        let first =
          ap
            (λ q.
              evaluate_inners nest se start value (not (target == l) || is_max) l
                (assign s l (evaluate_outer nest se start value q)) ls
              >>= rest)
            (space_known s l i e)
          ∙ ap (λ q. q >>= rest) run in
        elim (Bool-cases (target == l)) [
          | inl y ↦ (t, first ∙ ends_target start end target is_max l ls t y, fields, all)
          | inr n ↦
              let (u, run', same', all') = loops-Kept start end target is_max t ls w.1 all in
              (
                u,
                first ∙ ends_other start end target is_max l ls t n ∙ run',
                (λ x. same' x ∙ fields x),
                all',
              )
        ]

  All-weaken :
      (xs ys : List ℕ) (y : ℕ)
      → All (λ x. contains ys x ≡ true) xs
      → All (λ x. contains (y ∷ ys) x ≡ true) xs
  All-weaken [] ys y h = tt
  All-weaken (x ∷ xs) ys y (a, h) = (ground arith, All-weaken xs ys y h)

  All-self : (xs : List ℕ) → All (λ x. contains xs x ≡ true) xs
  All-self [] = tt
  All-self (x ∷ xs) = (rw (==_refl x) refl, All-weaken xs xs x (All-self xs))

  -- From an analyzer whose nest's loops all have both bounds, the evaluation returns. It keeps the outermost loop, the
  -- loops of the map, and of each its induction variable and trip count, and the bounds stay set.
  pub evaluate_kept :
      (start end target : ℕ) (is_max : Bool) (a : Analyzer)
      → ((x : ℕ)
          → contains (loops_in nest a.top_loop reverse_sibling_preorder) x ≡ true
          → IsBounded a.spaces x)
      → (b : Analyzer) × (evaluate nest se start end target is_max a ≡ ok b)
        × (b.top_loop ≡ a.top_loop)
        × SameFields a.spaces b.spaces
        × ((x : ℕ)
            → contains (loops_in nest a.top_loop reverse_sibling_preorder) x ≡ true
            → IsBounded b.spaces x)
  unfolding evaluate
  evaluate_kept start end target is_max a bounded = elim (Bool-cases (a.top_loop == 0)) [
    | inl y ↦ (a, rw (evaluate, y) refl, refl, (λ x. refl), bounded)
    | inr n ↦
        let ls = loops_in nest a.top_loop reverse_sibling_preorder in
        let (t, run, same, all) =
          loops-Kept ls start end target is_max a.spaces ls (All-self ls) bounded in
        (record { top_loop = a.top_loop; spaces = t }, rw (evaluate, n, run) refl, refl, same, all)
  ]
