-- ===== src/Bounds/Variables.antt =====
-- What the queries for induction variables say.
use atrox.Prelude.{
  ℕ, ◌≡◌, refl, sym, ◌∙◌, inl, inr, true, false, some, none, ok, Option-cases, arith,
}
use atrox.Bounds.Nests.{LoopNest, is_outer_loop_of}
use atrox.Bounds.Enclosing.{Encloses-depth, is_outer_loop_of_iff}
use atrox.Bounds.Spaces.{
  LoopIterationSpaceInfo, Analyzer, loop_of_variable, is_value_outer_loop_induction_variable,
  is_value_inner_loop_induction_variable,
}

ok_inj {ℓ} : {A : Type ℓ} {a b : A} → ok a ≡ ok b → a ≡ b
ok_inj h = cc

module _ (nest : LoopNest) where
  both_enclose :
      (p q : ℕ) → is_outer_loop_of nest p q ≡ ok true → is_outer_loop_of nest q p ≡ ok true → ⊥
  both_enclose p q h k =
      let (b, e, iff) = is_outer_loop_of_iff nest p q in
      let (c, f, iff') = is_outer_loop_of_iff nest q p in
      let x = Encloses-depth nest (iff.0 (ok_inj (sym e ∙ h))) in
      let y = Encloses-depth nest (iff'.0 (ok_inj (sym f ∙ k))) in omega arith

  not_found :
      (a : Analyzer) (v l : ℕ)
      → loop_of_variable a.spaces v ≡ none
      → is_value_outer_loop_induction_variable nest a v l ≡ ok true
      → ⊥
  unfolding is_value_outer_loop_induction_variable
  not_found a v l n h =
      let e : is_value_outer_loop_induction_variable nest a v l ≡ ok false =
        rw (is_value_outer_loop_induction_variable, n) refl in
      let d = sym e ∙ h in cc

  at_found :
      (a : Analyzer) (v l : ℕ) (e : ℕ × LoopIterationSpaceInfo)
      → loop_of_variable a.spaces v ≡ some e
      → is_value_outer_loop_induction_variable nest a v l ≡ is_outer_loop_of nest e.0 l
  unfolding is_value_outer_loop_induction_variable
  at_found a v l e s = rw (is_value_outer_loop_induction_variable, s) refl

  in_found :
      (a : Analyzer) (v l : ℕ) (e : ℕ × LoopIterationSpaceInfo)
      → loop_of_variable a.spaces v ≡ some e
      → is_value_inner_loop_induction_variable nest a v l ≡ is_outer_loop_of nest l e.0
  unfolding is_value_inner_loop_induction_variable
  in_found a v l e s = rw (is_value_inner_loop_induction_variable, s) refl

  -- No value is found to be the induction variable of a loop around another and of a loop inside it.
  pub outer_inner_exclusive :
      (a : Analyzer) (v l : ℕ)
      → is_value_outer_loop_induction_variable nest a v l ≡ ok true
      → is_value_inner_loop_induction_variable nest a v l ≡ ok true
      → ⊥
  unfolding is_value_outer_loop_induction_variable is_value_inner_loop_induction_variable
  outer_inner_exclusive a v l out inn = elim (Option-cases (loop_of_variable a.spaces v)) [
    | inl n ↦ absurd (not_found a v l n out)
    | inr (e, s) ↦
        both_enclose e.0 l (sym (at_found a v l e s) ∙ out) (sym (in_found a v l e s) ∙ inn)
  ]
