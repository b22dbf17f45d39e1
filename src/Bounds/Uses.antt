-- ===== src/Bounds/Uses.antt =====
-- What the queries for uses in the conditions of a nest say.
use atrox.Prelude.{
  ℕ, ◌≡◌, refl, ap, ◌∙◌, Bool, true, false, not, ◌&&◌, ◌||◌, List, [], ◌∷◌, ◌++◌, ◌==◌, any,
  contains, contains-insert, insert, Result, Error, ok, err, ◌>>=◌, Bool-cases, inl, inr, arith,
}
use atrox.Bounds.Nests.{LoopNest}
use atrox.Bounds.Conditions.{
  Code, is_empty, get_backedge_condition, nest_loops, is_used_by, collect_conditions, is_used_in,
  is_value_used_in_loop_nest_conditions, has_other_user, is_value_used_only_in_loop_nest_conditions,
}

is_empty-contains : (xs : List ℕ) (a : ℕ) → contains xs a ≡ true → is_empty xs ≡ false
is_empty-contains [] a h = cc
is_empty-contains (x ∷ xs) a h = refl

is_empty-insert : (xs : List ℕ) (a : ℕ) → is_empty (insert xs a) ≡ false
is_empty-insert xs a = is_empty-contains (insert xs a) a (contains-insert xs a a ∙ ground arith)

module _ (nest : LoopNest) (code : Code) (condition : ℕ → ℕ)
    (known : (l : ℕ) → get_backedge_condition nest code l ≡ ok (condition l)) where
  open nest use {sub_loops}
  open code use {users, parent, is_instruction}

  -- The condition of a loop uses a value.
  abbrev pub uses : ℕ → ℕ → Bool
  uses v e = is_used_by nest code v (condition e)

  abbrev pub loops_of : ℕ → List ℕ
  loops_of l = sub_loops l ++ l ∷ []

  -- A user of a value in the blocks of interest is none of the conditions that use it.
  abbrev pub is_other : ℕ → ℕ → List ℕ → ℕ → Bool
  is_other v l interesting u =
      is_instruction u
      && (contains interesting (parent u)
          && not (any (λ e. uses v e && u == condition e) (loops_of l)))

  collect-contains :
      (v : ℕ) (cs es : List ℕ)
      → (ds : List ℕ) × (collect_conditions nest code v cs es ≡ ok ds)
        × (is_empty ds ≡ (is_empty cs && not (any (uses v) es)))
        × ((u : ℕ) → contains ds u ≡ (contains cs u || any (λ e. uses v e && u == condition e) es))
  unfolding collect_conditions
  collect-contains v cs [] = (cs, refl, ground arith, (λ u. ground arith))
  collect-contains v cs (e ∷ es) = elim (Bool-cases (uses v e)) [
    | inl y ↦
        let (ds, r, z, c) = collect-contains v (insert cs (condition e)) es in
        (
          ds,
          rw (collect_conditions, known e, y) r,
          (let f = is_empty-insert cs (condition e) in ground arith),
          (λ u. ground (arith, c u, contains-insert cs (condition e) u)),
        )
    | inr n ↦
        let (ds, r, z, c) = collect-contains v cs es in
        (ds, rw (collect_conditions, known e, n) r, ground arith, (λ u. ground (arith, c u)))
  ]

  -- What follows the condition of a loop.
  abbrev next : ℕ → List ℕ → ℕ → Result Bool
  next v es c = elim (is_used_by nest code v c) [
    | true ↦ ok true
    | false ↦ is_used_in nest code v es
  ]

  next_used : (v c : ℕ) (es : List ℕ) → is_used_by nest code v c ≡ true → next v es c ≡ ok true
  next_used v c es y = rw (next, y) refl

  next_unused :
      (v c : ℕ) (es : List ℕ)
      → is_used_by nest code v c ≡ false
      → next v es c ≡ is_used_in nest code v es
  next_unused v c es n = rw (next, n) refl

  is_used_in-any : (v : ℕ) (es : List ℕ) → is_used_in nest code v es ≡ ok (any (uses v) es)
  unfolding is_used_in
  is_used_in-any v [] = refl
  is_used_in-any v (e ∷ es) = elim (Bool-cases (uses v e)) [
    | inl y ↦ ap (λ q. q >>= next v es) (known e) ∙ next_used v (condition e) es y ∙ rw y refl
    | inr n ↦
        ap (λ q. q >>= next v es) (known e)
        ∙ next_unused v (condition e) es n
        ∙ is_used_in-any v es
        ∙ rw n refl
  ]

  other-any :
      (v l : ℕ) (ds interesting us : List ℕ)
      → ((u : ℕ) → contains ds u ≡ any (λ e. uses v e && u == condition e) (loops_of l))
      → has_other_user nest code ds interesting us ≡ any (is_other v l interesting) us
  unfolding has_other_user
  other-any v l ds interesting [] h = refl
  other-any v l ds interesting (u ∷ us) h = ground (arith, h u, other-any v l ds interesting us h)

  -- Where the condition of every loop is found and no inner loop has inner loops of its own, both queries return. A value
  -- is used in the conditions of the nest exactly if some loop's condition uses it; and only there exactly if,
  -- besides, each of its users in the blocks of interest is such a condition.
  pub value_uses_lem :
      (v l : ℕ) (interesting : List ℕ)
      → any (λ e. not (is_empty (sub_loops e))) (sub_loops l) ≡ false
      → (is_value_used_in_loop_nest_conditions nest code v l ≡ ok (any (uses v) (loops_of l)))
        × (is_value_used_only_in_loop_nest_conditions nest code v l interesting
            ≡ ok (any (uses v) (loops_of l) && not (any (is_other v l interesting) (users v))))
  unfolding is_value_used_in_loop_nest_conditions is_value_used_only_in_loop_nest_conditions
      nest_loops
  value_uses_lem v l interesting flat =
      let (ds, r, z, c) = collect-contains v [] (loops_of l) in
      let o = other-any v l ds interesting (users v) c in
      (
        rw (is_value_used_in_loop_nest_conditions, nest_loops, flat)
            (is_used_in-any v (loops_of l)),
        rw (is_value_used_only_in_loop_nest_conditions, nest_loops, flat, r, o)
            (ap ok (ground arith)),
      )

-- Where an inner loop has inner loops of its own, the vector grows while it is walked.
pub value_uses_undefined :
    (nest : LoopNest) (code : Code) (v l : ℕ) (interesting : List ℕ)
    → any (λ e. not (is_empty (nest.sub_loops e))) (nest.sub_loops l) ≡ true
    → is_value_used_only_in_loop_nest_conditions nest code v l interesting ≡ err Error.undefined
unfolding is_value_used_only_in_loop_nest_conditions nest_loops
value_uses_undefined nest code v l interesting deep =
    rw (is_value_used_only_in_loop_nest_conditions, nest_loops, deep) refl
