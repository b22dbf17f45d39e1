-- ===== src/Extractor/Globals.antt =====
-- Which element pointers `findGlobalInputsOutputs` looks at.
use mathlib.Core.List.{append-nil}
use atrox.Prelude.{
  ℕ, drop, zero, suc, ◌+◌, ◌≤◌, ◌≡◌, ◌↔◌, refl, ap, Bool, List, [], ◌∷◌, length, length-append,
  select, arith,
}
use atrox.Extractor.Regions.{Ir, remove_if_erase, collect_geps}

drop-all : (n : ℕ) (xs : List ℕ) → length xs ≤ n → drop n xs ≡ []
drop-all zero [] h = refl
drop-all zero (x ∷ xs) h = absurd (omega arith)
drop-all (suc n) [] h = refl
drop-all (suc n) (x ∷ xs) h = drop-all n xs (omega arith)

length-drop_le : (n : ℕ) (xs : List ℕ) → length xs ≤ length (drop n xs) + n
length-drop_le zero xs = omega arith
length-drop_le (suc n) [] = omega arith
length-drop_le (suc n) (x ∷ xs) = let h = length-drop_le n xs in omega arith

-- The element pointers that are looked at are those with a global operand exactly when at most one of those that the
-- region holds has another operand: only one element is erased.
pub remove_if_erase_iff :
    (ir : Ir) (is_kept : ℕ → Bool) (blocks : List ℕ)
    → (remove_if_erase is_kept (collect_geps ir blocks) ≡ select is_kept (collect_geps ir blocks))
      ↔ (length (collect_geps ir blocks) ≤ length (select is_kept (collect_geps ir blocks)) + 1)
unfolding remove_if_erase
remove_if_erase_iff ir is_kept blocks =
    let xs = collect_geps ir blocks in
    let kept = select is_kept xs in
    (
      (λ e.
          let n = ap length e in
          let m = length-append kept (drop (suc (length kept)) xs) in
          let h = length-drop_le (suc (length kept)) xs in omega arith),
      (λ h. rw (drop-all (suc (length kept)) xs (omega arith)) (append-nil kept)),
    )
