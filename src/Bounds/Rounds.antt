-- ===== src/Bounds/Rounds.antt =====
-- The bounds that `evaluate` leaves for each loop.
use mathlib.Core.Path.{subst}
use atrox.Prelude.{
  ℕ, ◌≡◌, ◌≢◌, refl, sym, ap, ◌∙◌, Bool, true, false, not, ◌&&◌, ◌||◌, if◌then◌else◌, List, [], ◌∷◌,
  ◌==◌, ==_refl, ==→≡, leb, some, contains, lookup, assign, ok, bind-ok, Bool-cases, inl, inr,
  arith,
}
use atrox.Args.Order.{IsDistinct}
use atrox.Bounds.Nests.{LoopNest}
use atrox.Bounds.Spaces.{
  LoopIterationSpaceInfo, Spaces, Analyzer, ScalarEvolution, space_at, loops_in, evaluated,
  evaluate_outer, evaluate_start, evaluate_end, evaluate_inner, evaluate_inners, evaluate_loops,
  evaluate,
}
use atrox.Bounds.Entries.{
  on_info, Known, Known-after, Known-assign, space_is, assign_here, assign_other, on_info-id,
  on_info_twice, ok-same, on_info-same,
}
use atrox.Bounds.Evaluated.{IsBounded, evaluate_kept}

module _ (nest : LoopNest) (se : ScalarEvolution) where
  open nest use {depth, reverse_sibling_preorder}
  open se use {is_add_rec, evaluate_at, at_scope}

  -- The loops behind one that lie in it: up to the first that is not deeper.
  abbrev pub inner_of : ℕ → List ℕ → List ℕ
  inner_of outer [] = []
  inner_of outer (l ∷ ls) = if leb (depth l) (depth outer) then [] else l ∷ inner_of outer ls

  -- A bound at an iteration, if it is a recurrence.
  abbrev pub bound_at : ℕ → ℕ → ℕ
  bound_at b k = if not (b == 0) && is_add_rec b then evaluate_at b k else b

  -- The same of what a bound is in the scope of the loop, or else of the bound itself.
  abbrev pub scoped_at : ℕ → ℕ → ℕ → ℕ
  scoped_at scoped b k = if not (scoped == 0) && is_add_rec scoped then evaluate_at scoped k else b

  -- The bounds of a loop after those of one around it.
  abbrev pub inner_bounds : ℕ → ℕ → Bool → ℕ → LoopIterationSpaceInfo → LoopIterationSpaceInfo
  inner_bounds start value with_end x i = record i {
    start =
        scoped_at (if at_scope i.start x == 0 then i.start else at_scope i.start x) i.start start;
    end = if with_end then scoped_at (at_scope i.end x) i.end value else i.end;
  }

  -- One round, with the loop `l` and those behind it: the loop itself starts at the first iteration, and ends at the
  -- last one if it is the target or the maximum is asked for, else at the first; the loops in it follow, but for the
  -- ends of those in the target where the maximum is not asked for.
  abbrev pub round_bounds :
      ℕ → ℕ → ℕ → Bool → ℕ → List ℕ → ℕ → LoopIterationSpaceInfo → LoopIterationSpaceInfo
  round_bounds start end target is_max l ls x i =
      if x == l
      then record i {
        start = bound_at i.start start;
        end = bound_at i.end (if target == l || is_max then end else start);
      }
      else if contains (inner_of l ls) x
      then inner_bounds start (if target == l || is_max then end else start)
          (not (target == l) || is_max) x i
      else i

  -- The rounds up to the target.
  abbrev pub bounds_after :
      ℕ → ℕ → ℕ → Bool → List ℕ → ℕ → LoopIterationSpaceInfo → LoopIterationSpaceInfo
  bounds_after start end target is_max [] x i = i
  bounds_after start end target is_max (l ∷ ls) x i =
      if target == l
      then round_bounds start end target is_max l ls x i
      else bounds_after start end target is_max ls x (round_bounds start end target is_max l ls x i)

  contains-inner_of :
      (outer : ℕ) (ls : List ℕ) (x : ℕ)
      → contains ls x ≡ false
      → contains (inner_of outer ls) x ≡ false
  contains-inner_of outer [] x h = refl
  contains-inner_of outer (l ∷ ls) x h = ground (arith, h, contains-inner_of outer ls x)

  evaluate_inner-ok :
      (start value : ℕ) (with_end : Bool) (l : ℕ) (i j : LoopIterationSpaceInfo)
      → evaluate_inner nest se start value with_end l i ≡ ok j
      → j ≡ inner_bounds start value with_end l i
  unfolding evaluate_inner evaluate_start evaluate_end
  evaluate_inner-ok start value true l i j run = elim (Bool-cases (i.start == 0)) [
    | inl z ↦ absurd (ground (arith, run, z))
    | inr s ↦ elim (Bool-cases (i.end == 0)) [
      | inl z ↦ absurd (ground (arith, run, s, z))
      | inr e ↦ ground (arith, run, s, e)
    ]
  ]
  evaluate_inner-ok start value false l i j run = elim (Bool-cases (i.start == 0)) [
    | inl z ↦ absurd (ground (arith, run, z))
    | inr s ↦ ground (arith, run, s)
  ]

  -- Of what is known of a loop, if it is one of the inner loops.
  abbrev inners : ℕ → ℕ → Bool → ℕ → List ℕ → ℕ → LoopIterationSpaceInfo → LoopIterationSpaceInfo
  inners start value with_end outer ls x i =
      if contains (inner_of outer ls) x then inner_bounds start value with_end x i else i

  module _ (start value : ℕ) (with_end : Bool) (outer : ℕ) where
    inners_off :
        (ls : List ℕ) (x : ℕ) (i : LoopIterationSpaceInfo)
        → contains ls x ≡ false
        → inners start value with_end outer ls x i ≡ i
    inners_off ls x i h = rw (contains-inner_of outer ls x h) refl

    inners_stop :
        (l : ℕ) (ls : List ℕ) (x : ℕ) (i : LoopIterationSpaceInfo)
        → leb (depth l) (depth outer) ≡ true
        → inners start value with_end outer (l ∷ ls) x i ≡ i
    inners_stop l ls x i h = ground (arith, h)

    inners_here :
        (l : ℕ) (ls : List ℕ) (i : LoopIterationSpaceInfo)
        → leb (depth l) (depth outer) ≡ false
        → inners start value with_end outer (l ∷ ls) l i ≡ inner_bounds start value with_end l i
    inners_here l ls i h = rw h (rw (==_refl l) refl)

    inners_next :
        (l : ℕ) (ls : List ℕ) (x : ℕ) (i : LoopIterationSpaceInfo)
        → leb (depth l) (depth outer) ≡ false
        → (x == l) ≡ false
        → inners start value with_end outer (l ∷ ls) x i ≡ inners start value with_end outer ls x i
    inners_next l ls x i h n = rw h (rw n refl)

    inners_lem :
        (ls : List ℕ) (s t : Spaces) (x : ℕ)
        → IsDistinct ls
        → Known s ls
        → evaluate_inners nest se start value with_end outer s ls ≡ ok t
        → lookup t x ≡ on_info (inners start value with_end outer ls x) (lookup s x)
    unfolding evaluate_inners
    inners_lem [] s t x d known run =
        ap (λ q. lookup q x) (sym (ok-same s t run)) ∙ sym (on_info-id (lookup s x))
    inners_lem (l ∷ ls) s t x (off, d) known run = elim (Bool-cases (leb (depth l) (depth outer))) [
      | inl y ↦
          ap (λ q. lookup q x) (sym (ok-same s t (rw (y, evaluate_inners) at run)))
          ∙ sym (on_info-id (lookup s x))
          ∙ on_info-same (λ i. i) (inners start value with_end outer (l ∷ ls) x) (lookup s x)
              (λ i. sym (inners_stop l ls x i y))
      | inr n ↦
          let (j, one, rest) =
            bind-ok (evaluate_inner nest se start value with_end l (space_at s l))
              (λ i. evaluate_inners nest se start value with_end outer (assign s l i) ls) t
              (rw (n, evaluate_inners) at run) in
          let (i, e) = known l (ground (arith, ==_refl l)) in
          let later = λ (k : ℕ).
            inners_lem ls (assign s l j) t k d
              (Known-assign s ls l j (λ k m. known k (ground (arith, m)))) rest in
          elim (Bool-cases (x == l)) [
            | inl y ↦
                subst
                  (λ k.
                    lookup t k
                    ≡ on_info (inners start value with_end outer (l ∷ ls) k) (lookup s k))
                  (sym (==→≡ x l y))
                  (later l
                    ∙ ap (on_info (inners start value with_end outer ls l)) (assign_here s l j)
                    ∙ ap some (inners_off ls l j off)
                    ∙ ap some (evaluate_inner-ok start value with_end l (space_at s l) j one)
                    ∙ ap (λ q. some (inner_bounds start value with_end l q)) (space_is s l i e)
                    ∙ ap some (sym (inners_here l ls i n))
                    ∙ sym (ap (on_info (inners start value with_end outer (l ∷ ls) l)) e))
            | inr k ↦
                later x
                ∙ ap (on_info (inners start value with_end outer ls x)) (assign_other s l j x k)
                ∙ on_info-same (inners start value with_end outer ls x)
                    (inners start value with_end outer (l ∷ ls) x) (lookup s x)
                    (λ i. sym (inners_next l ls x i n k))
          ]
    ]

  module _ (start end target : ℕ) (is_max : Bool) where
    abbrev value_of : ℕ → ℕ
    value_of l = if target == l || is_max then end else start

    abbrev ends_of : ℕ → Bool
    ends_of l = not (target == l) || is_max

    round_here :
        (l : ℕ) (ls : List ℕ) (i : LoopIterationSpaceInfo)
        → round_bounds start end target is_max l ls l i
          ≡ evaluate_outer nest se start (value_of l) i
    unfolding evaluate_outer evaluated
    round_here l ls i = rw (==_refl l) refl

    round_other :
        (l : ℕ) (ls : List ℕ) (x : ℕ) (i : LoopIterationSpaceInfo)
        → (x == l) ≡ false
        → round_bounds start end target is_max l ls x i
          ≡ inners start (value_of l) (ends_of l) l ls x i
    round_other l ls x i n = rw n refl

    -- One round.
    round_lem :
        (l : ℕ) (ls : List ℕ) (s t : Spaces) (x : ℕ)
        → IsDistinct (l ∷ ls)
        → Known s (l ∷ ls)
        → evaluate_inners nest se start
            (value_of l)
            (ends_of l)
            l
            (assign s l (evaluate_outer nest se start (value_of l) (space_at s l)))
            ls
          ≡ ok t
        → lookup t x ≡ on_info (round_bounds start end target is_max l ls x) (lookup s x)
    round_lem l ls s t x (off, d) known run =
        let (i, e) = known l (ground (arith, ==_refl l)) in
        let o = evaluate_outer nest se start (value_of l) (space_at s l) in
        let later = λ (k : ℕ).
          inners_lem start (value_of l) (ends_of l) l ls (assign s l o) t k d
            (Known-assign s ls l o (λ k m. known k (ground (arith, m)))) run in
        elim (Bool-cases (x == l)) [
          | inl y ↦
              subst
                (λ k.
                  lookup t k ≡ on_info (round_bounds start end target is_max l ls k) (lookup s k))
                (sym (==→≡ x l y))
                (later l
                  ∙ ap (on_info (inners start (value_of l) (ends_of l) l ls l)) (assign_here s l o)
                  ∙ ap some (inners_off start (value_of l) (ends_of l) l ls l o off)
                  ∙ ap (λ q. some (evaluate_outer nest se start (value_of l) q)) (space_is s l i e)
                  ∙ ap some (sym (round_here l ls i))
                  ∙ sym (ap (on_info (round_bounds start end target is_max l ls l)) e))
          | inr n ↦
              later x
              ∙ ap (on_info (inners start (value_of l) (ends_of l) l ls x)) (assign_other s l o x n)
              ∙ on_info-same (inners start (value_of l) (ends_of l) l ls x)
                  (round_bounds start end target is_max l ls x) (lookup s x)
                  (λ i. sym (round_other l ls x i n))
        ]

    rounds_lem :
        (ls : List ℕ) (s t : Spaces) (x : ℕ)
        → IsDistinct ls
        → Known s ls
        → evaluate_loops nest se start end target is_max s ls ≡ ok t
        → lookup t x ≡ on_info (bounds_after start end target is_max ls x) (lookup s x)
    unfolding evaluate_loops
    rounds_lem [] s t x d known run =
        ap (λ q. lookup q x) (sym (ok-same s t run)) ∙ sym (on_info-id (lookup s x))
    rounds_lem (l ∷ ls) s t x d known run =
        let (u, one, rest) =
          bind-ok
            (evaluate_inners nest se start (value_of l) (ends_of l) l
              (assign s l (evaluate_outer nest se start (value_of l) (space_at s l))) ls)
            (λ u. elim (target == l) [
              | true ↦ ok u
              | false ↦ evaluate_loops nest se start end target is_max u ls
            ])
            t run in
        let now = λ (k : ℕ). round_lem l ls s u k d known one in
        elim (Bool-cases (target == l)) [
          | inl y ↦
              ap (λ q. lookup q x) (sym (ok-same u t (rw y at rest)))
              ∙ now x
              ∙ on_info-same (round_bounds start end target is_max l ls x)
                  (bounds_after start end target is_max (l ∷ ls) x) (lookup s x)
                  (λ i. ground (arith, y))
          | inr n ↦
              rounds_lem ls u t x d.1
                (λ k m.
                  Known-after (round_bounds start end target is_max l ls k) s u k (now k)
                    (known k (ground (arith, m))))
                (rw n at rest)
              ∙ ap (on_info (bounds_after start end target is_max ls x)) (now x)
              ∙ on_info_twice (round_bounds start end target is_max l ls x)
                  (bounds_after start end target is_max ls x) (lookup s x)
              ∙ on_info-same
                  (λ i.
                    bounds_after start end target is_max ls x
                      (round_bounds start end target is_max l ls x i))
                  (bounds_after start end target is_max (l ∷ ls) x) (lookup s x)
                  (λ i. ground (arith, n))
        ]

    -- From an analyzer with an outermost loop whose nest's loops all have both bounds, each once in the traversal, the
    -- evaluation returns, if an evaluation of a recurrence never is the null expression. It keeps the outermost loop, and
    -- the entry of each loop is what the rounds up to the target make of it: its bounds at the iterations of the rounds.
    pub evaluate_lem :
        (a : Analyzer) (x : ℕ)
        → ((e k : ℕ) → evaluate_at e k ≢ 0)
        → a.top_loop ≢ 0
        → IsDistinct (loops_in nest a.top_loop reverse_sibling_preorder)
        → ((y : ℕ)
            → contains (loops_in nest a.top_loop reverse_sibling_preorder) y ≡ true
            → IsBounded a.spaces y)
        → (b : Analyzer) × (evaluate nest se start end target is_max a ≡ ok b)
          × (b.top_loop ≡ a.top_loop)
          × (lookup b.spaces x
              ≡ on_info
                  (bounds_after start end target is_max
                    (loops_in nest a.top_loop reverse_sibling_preorder)
                    x)
                  (lookup a.spaces x))
    unfolding evaluate
    evaluate_lem a x defined top distinct bounded =
        let ls = loops_in nest a.top_loop reverse_sibling_preorder in
        let (b, ran, kept, _, _) =
          evaluate_kept nest se defined start end target is_max a bounded in
        let some_top : (a.top_loop == 0) ≡ false = ground (arith, top, ==→≡ a.top_loop 0) in
        let (t, loops_ran, made) =
          bind-ok (evaluate_loops nest se start end target is_max a.spaces ls)
            (λ t. ok (record { top_loop = a.top_loop; spaces = t })) b
            (rw (some_top, evaluate) at ran) in
        let same : record { top_loop = a.top_loop; spaces = t } ≡ b = cc in
        (
          b,
          ran,
          kept,
          ap (λ (q : Analyzer). lookup q.spaces x) (sym same)
              ∙ rounds_lem ls a.spaces t x distinct (λ y m. let (i, e, _) = bounded y m in (i, e))
                  loops_ran,
        )
