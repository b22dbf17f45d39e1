-- ===== src/Bounds/NullStart.antt =====
-- Where `evaluate` asks scalar evolution for the null expression.
use atrox.Prelude.{
  ℕ, ◌<◌, ◌≡◌, ◌≢◌, refl, ap, ◌∙◌, Bool, true, false, not, ◌||◌, if◌then◌else◌, List, ◌∷◌, ◌==◌,
  ==→≡, leb, Option, some, none, lookup, assign, lookup-assign, Error, ok, err, ◌>>=◌, arith,
}
use atrox.Bounds.Nests.{LoopNest}
use atrox.Bounds.Spaces.{
  LoopIterationSpaceInfo, no_info, Spaces, Analyzer, ScalarEvolution, space_at, loops_in,
  evaluate_outer, evaluate_inner, evaluate_inners, evaluate_loops, evaluate,
}

inner_null :
    (nest : LoopNest) (se : ScalarEvolution) (start value : ℕ) (with_end : Bool) (l : ℕ)
    (i : LoopIterationSpaceInfo)
    → i.start ≡ 0
    → evaluate_inner nest se start value with_end l i ≡ err Error.undefined
unfolding evaluate_inner
inner_null nest se start value with_end l i e = ground arith

space_other :
    (s : Spaces) (o l : ℕ) (i : LoopIterationSpaceInfo)
    → l ≢ o
    → space_at (assign s o i) l ≡ space_at s l
space_other s o l i n =
    let other : (l == o) ≡ false = ground (arith, ==→≡ l o) in
    let at : lookup (assign s o i) l ≡ lookup s l = lookup-assign s o i l ∙ rw other refl in
    ap (λ (q : Option LoopIterationSpaceInfo). elim q [ none ↦ no_info | some j ↦ j ]) at

inners_null :
    (nest : LoopNest) (se : ScalarEvolution) (start value : ℕ) (with_end : Bool) (outer : ℕ)
    (s : Spaces) (l : ℕ) (ls : List ℕ)
    → nest.depth outer < nest.depth l
    → (space_at s l).start ≡ 0
    → evaluate_inners nest se start value with_end outer s (l ∷ ls) ≡ err Error.undefined
unfolding evaluate_inners
inners_null nest se start value with_end outer s l ls deep none_set =
    let deeper : leb (nest.depth l) (nest.depth outer) ≡ false = ground arith in
    rw (evaluate_inners, deeper)
      (ap (λ q. q >>= λ i. evaluate_inners nest se start value with_end outer (assign s l i) ls)
        (inner_null nest se start value with_end l (space_at s l) none_set))

loops_null :
    (nest : LoopNest) (se : ScalarEvolution) (start end target : ℕ) (is_max : Bool) (s : Spaces)
    (outer l : ℕ) (ls : List ℕ)
    → nest.depth outer < nest.depth l
    → (space_at s l).start ≡ 0
    → l ≢ outer
    → evaluate_loops nest se start end target is_max s (outer ∷ l ∷ ls) ≡ err Error.undefined
unfolding evaluate_loops
loops_null nest se start end target is_max s outer l ls deep none_set other =
    let value = if target == outer || is_max then end else start in
    let o = evaluate_outer nest se start value (space_at s outer) in
    ap
      (λ q. q >>= λ (t : Spaces). elim (target == outer) [
        | true ↦ ok t
        | false ↦ evaluate_loops nest se start end target is_max t (l ∷ ls)
      ])
      (inners_null nest se start value (not (target == outer) || is_max) outer (assign s outer o) l
        ls deep (ap LoopIterationSpaceInfo.start (space_other s outer l o other) ∙ none_set))

-- Where the first loop of the nest is followed by a deeper one that has no start, the evaluation asks scalar
-- evolution for the scope of the null expression.
pub evaluate_undefined :
    (nest : LoopNest) (se : ScalarEvolution) (start end target : ℕ) (is_max : Bool) (a : Analyzer)
    (outer l : ℕ) (ls : List ℕ)
    → a.top_loop ≢ 0
    → loops_in nest a.top_loop nest.reverse_sibling_preorder ≡ outer ∷ l ∷ ls
    → nest.depth outer < nest.depth l
    → (space_at a.spaces l).start ≡ 0
    → l ≢ outer
    → evaluate nest se start end target is_max a ≡ err Error.undefined
unfolding evaluate
evaluate_undefined nest se start end target is_max a outer l ls top loops deep none_set other =
    let no_top : (a.top_loop == 0) ≡ false = ground (arith, ==→≡ a.top_loop 0) in
    rw (evaluate, no_top, loops)
      (ap (λ q. q >>= λ t. ok (record { top_loop = a.top_loop; spaces = t }))
        (loops_null nest se start end target is_max a.spaces outer l ls deep none_set other))
