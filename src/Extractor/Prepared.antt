-- ===== src/Extractor/Prepared.antt =====
-- What `prepare` leaves: lemmas on the values it finds, the order it puts them in, and the slots.
pub mod Slots
use mathlib.Core.Path.{subst}
use mathlib.Core.List.{reverse-append, reverse-reverse}
use atrox.Prelude.{
  bind-ok, ℕ, drop, zero, suc, ◌+◌, ◌<◌, ◌≤◌, ◌≡◌, refl, sym, ap, ◌∙◌, Bool, true, false, not, ◌&&◌,
  ◌||◌, if◌then◌else◌, List, [], ◌∷◌, ◌++◌, ◌==◌, ==→≡, ==_refl, reverse, length, length-append,
  any, select, contains, contains-append, contains-insert, contains-insert_all, contains-erase,
  List-cases, insert, insert_all, erase, All, All-append, Option, some, none, Result, Error, ok,
  err, ◌>>=◌, ◌>>◌, guard, Bool-cases, Option-cases, inl, inr, arith,
}
use atrox.Args.Order.{find_if, is_begin, move_front, reorder_inputs}
use atrox.Extractor.Regions.{
  Ir, Values, remove_if_erase, collect_geps, add_global, add_globals, find_inputs_outputs,
  find_global_inputs_outputs,
}
use atrox.Extractor.Prepare.{reorder_by}

find_if-contains :
    (p : ℕ → Bool) (xs : List ℕ) (x : ℕ) → find_if p xs ≡ some x → contains xs x ≡ true
unfolding find_if
find_if-contains p [] x h = absurd cc
find_if-contains p (y ∷ xs) x h = elim (Bool-cases (p y)) [
  | inl e ↦
      let a : some y ≡ some x = subst (λ b. (if b then some y else find_if p xs) ≡ some x) e h in
      let b : y ≡ x = cc in ground (arith, ==_refl x)
  | inr n ↦
      let a = subst (λ b. (if b then some y else find_if p xs) ≡ some x) n h in
      ground (arith, find_if-contains p xs x a)
]

contains-move_front :
    (xs : List ℕ) (x v : ℕ) → contains xs x ≡ true → contains (move_front xs x) v ≡ contains xs v
unfolding move_front
contains-move_front xs x v c =
    rw (reverse-append (reverse (erase xs x)) (x ∷ []), reverse-reverse (erase xs x))
      (elim (Bool-cases (v == x)) [
        | inl y ↦
            let h : contains xs v ≡ true = subst (λ q. contains xs q ≡ true) (sym (==→≡ v x y)) c in
            ground (arith, contains-insert_all [] (x ∷ erase xs x) v)
        | inr n ↦ ground (arith, contains-insert_all [] (x ∷ erase xs x) v, contains-erase xs x v)
      ])

contains-reorder_inputs :
    (p : ℕ → Bool) (xs : List ℕ) (r : Bool × List ℕ) (v : ℕ)
    → reorder_inputs p xs ≡ ok r
    → contains r.1 v ≡ contains xs v
unfolding reorder_inputs
contains-reorder_inputs p [] r v h =
    let e : (false, []) ≡ r = cc in ap (λ q. contains q.1 v) (sym e)
contains-reorder_inputs p (i ∷ is') r v h = elim (Option-cases (find_if p (i ∷ is'))) [
  | inl n ↦
      let bad : err Error.undefined ≡ ok r = sym (rw (reorder_inputs, n) refl) ∙ h in absurd cc
  | inr (x, f) ↦ elim (Bool-cases (is_begin (i ∷ is') x)) [
    | inl y ↦
        let run : reorder_inputs p (i ∷ is') ≡ ok (false, i ∷ is') =
          rw (reorder_inputs, f, y) refl in
        let e : (false, i ∷ is') ≡ r = cc in ap (λ q. contains q.1 v) (sym e)
    | inr n ↦
        let run : reorder_inputs p (i ∷ is') ≡ ok (true, move_front (i ∷ is') x) =
          rw (reorder_inputs, f, n) refl in
        let e : (true, move_front (i ∷ is') x) ≡ r = cc in
        ap (λ q. contains q.1 v) (sym e)
        ∙ contains-move_front (i ∷ is') x v (find_if-contains p (i ∷ is') x f)
  ]
]

pub contains-reorder_by :
    (is_iterator : Option (ℕ → Bool)) (xs ys : List ℕ) (v : ℕ)
    → reorder_by is_iterator xs ≡ ok ys
    → contains ys v ≡ contains xs v
unfolding reorder_by
contains-reorder_by none xs ys v h = let e : xs ≡ ys = cc in ap (λ q. contains q v) (sym e)
contains-reorder_by (some p) xs ys v h =
    let (r, run, k) = bind-ok (reorder_inputs p xs) (λ r. ok r.1) ys h in
    let e : r.1 ≡ ys = cc in ap (λ q. contains q v) (sym e) ∙ contains-reorder_inputs p xs r v run

module _ (ir : Ir) where
  open ir use {is_gep, pointer_operand, instructions}

  pub add_globals-inputs :
      (s : Values) (geps : List ℕ) (v : ℕ)
      → contains s.inputs v ≡ true
      → contains (add_globals ir s geps).inputs v ≡ true
  unfolding add_globals add_global
  add_globals-inputs s [] v c = c
  add_globals-inputs s (g ∷ geps) v c =
      add_globals-inputs (add_global ir s g) geps v
        (ground (arith, contains-insert s.inputs (pointer_operand g) v))

  -- An output that is new is the pointer of an element pointer.
  pub add_globals-outputs :
      (P : ℕ → Type 0) (s : Values) (geps : List ℕ) (v : ℕ)
      → ((w : ℕ) → is_gep w ≡ true → P (pointer_operand w))
      → All (λ g. is_gep g ≡ true) geps
      → (contains s.outputs v ≡ true → P v)
      → contains (add_globals ir s geps).outputs v ≡ true
      → P v
  unfolding add_globals add_global
  add_globals-outputs P s [] v f a h c = h c
  add_globals-outputs P s (g ∷ geps) v f (y, a) h c =
      add_globals-outputs P (add_global ir s g) geps v f a
        (λ d. elim (Bool-cases (v == pointer_operand g)) [
          | inl e ↦ subst P (sym (==→≡ v (pointer_operand g) e)) (f g y)
          | inr n ↦ h (ground (arith, contains-insert s.outputs (pointer_operand g) v))
        ])
        c

  All-select : (keep : ℕ → Bool) (P : ℕ → Type 0) (xs : List ℕ) → All P xs → All P (select keep xs)
  All-select keep P [] h = tt
  All-select keep P (x ∷ xs) (a, h) = ground (arith, All-select keep P xs h)

  All-drop : (n : ℕ) (P : ℕ → Type 0) (xs : List ℕ) → All P xs → All P (drop n xs)
  All-drop zero P xs h = h
  All-drop (suc n) P [] h = h
  All-drop (suc n) P (x ∷ xs) (a, h) = All-drop n P xs h

  select-All : (keep : ℕ → Bool) (xs : List ℕ) → All (λ x. keep x ≡ true) (select keep xs)
  select-All keep [] = tt
  select-All keep (x ∷ xs) = ground (arith, select-All keep xs)

  pub collect_geps-All : (bs : List ℕ) → All (λ g. is_gep g ≡ true) (collect_geps ir bs)
  unfolding collect_geps
  collect_geps-All [] = tt
  collect_geps-All (b ∷ bs) =
      All-append (λ g. is_gep g ≡ true) (select is_gep (instructions b)) (collect_geps ir bs)
        (select-All is_gep (instructions b)) (collect_geps-All bs)

  pub remove_if_erase-All :
      (keep : ℕ → Bool) (P : ℕ → Type 0) (xs : List ℕ) → All P xs → All P (remove_if_erase keep xs)
  unfolding remove_if_erase
  remove_if_erase-All keep P xs h =
      All-append P (select keep xs) (drop (suc (length (select keep xs))) xs)
        (All-select keep P xs h) (All-drop (suc (length (select keep xs))) P xs h)
