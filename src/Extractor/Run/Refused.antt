-- ===== src/Extractor/Run/Refused.antt =====
-- When `cloneCodeRegion` returns the null pointer.
use mathlib.Core.Path.{subst}
use atrox.Prelude.{
  ℕ, ◌≡◌, ◌↔◌, ◌⊎◌, refl, Bool, true, false, not, ◌&&◌, List, [], ◌∷◌, ◌==◌, ==→≡, ==_refl, any,
  contains, Option, some, none, Result, ok, ◌>>=◌, bind-ok, Bool-cases, Option-cases, inl, inr,
  arith,
}
use atrox.Extractor.Prepare.{Prepared}
use atrox.Extractor.Code.{Code}
use atrox.Extractor.Sever.{Severed, sever_split_phi_nodes}
use atrox.Extractor.Run.{
  va_start, va_end, other_callee, Machine, OldFunction, Extracted, is_var_arg_intrinsic,
  handles_outside, clone_severed, clone_region,
}

any_found :
    (p : ℕ → Bool) (xs : List ℕ) → any p xs ≡ true → (x : ℕ) × (contains xs x ≡ true) × (p x ≡ true)
any_found p [] h = absurd cc
any_found p (x ∷ xs) h = elim (Bool-cases (p x)) [
  | inl y ↦ (x, ground (arith, ==_refl x), y)
  | inr n ↦ let (z, c, e) = any_found p xs (ground (arith, h, n)) in (z, ground (arith, c), e)
]

any_there :
    (p : ℕ → Bool) (xs : List ℕ) (x : ℕ) → contains xs x ≡ true → p x ≡ true → any p xs ≡ true
any_there p [] x c h = absurd cc
any_there p (y ∷ xs) x c h = elim (Bool-cases (x == y)) [
  | inl same ↦ let here = subst (λ q. p q ≡ true) (==→≡ x y same) h in ground (arith, here)
  | inr other ↦ ground (arith, any_there p xs x (ground arith) h)
]

-- A call of `llvm.va_start` or `llvm.va_end`.
abbrev pub HandlesVarArgs : Machine → ℕ → Type 0
HandlesVarArgs m i = (m.callee i ≡ some va_start) ⊎ (m.callee i ≡ some va_end)

-- An instruction that handles variable arguments in a block of the function that the region does not have.
pub record Outside (m : Machine) (c : Code) (region : List ℕ) : Type 0 where
  pub block : ℕ
  pub instruction : ℕ
  pub block_of : contains c.blocks block ≡ true
  pub away : contains region block ≡ false
  pub stands : contains ((m.ir_of c).instructions block) instruction ≡ true
  pub handles : HandlesVarArgs m instruction

module _ (m : Machine) where
  handles_of : (i : ℕ) → is_var_arg_intrinsic m i ≡ true → HandlesVarArgs m i
  unfolding is_var_arg_intrinsic
  handles_of i h = elim (Option-cases (m.callee i)) [
    | inl e ↦ absurd (ground (arith, h, e))
    | inr (va_start, e) ↦ inl e
    | inr (va_end, e) ↦ inr e
    | inr (other_callee, e) ↦ absurd (ground (arith, h, e))
  ]

  of_handles : (i : ℕ) → HandlesVarArgs m i → is_var_arg_intrinsic m i ≡ true
  unfolding is_var_arg_intrinsic
  of_handles i (inl e) = rw (e, is_var_arg_intrinsic) refl
  of_handles i (inr e) = rw (e, is_var_arg_intrinsic) refl

  Outside-of : (c : Code) (region : List ℕ) → handles_outside m c region ≡ true → Outside m c region
  unfolding handles_outside
  Outside-of c region h =
      let (b, of, t) =
        any_found
          (λ b.
            not (contains region b) && any (is_var_arg_intrinsic m) ((m.ir_of c).instructions b))
          c.blocks h in
      let (i, stands, k) =
        any_found (is_var_arg_intrinsic m) ((m.ir_of c).instructions b) (ground (arith, t)) in
      record {
        block = b;
        instruction = i;
        block_of = of;
        away = ground (arith, t);
        stands = stands;
        handles = handles_of i k;
      }

  of_Outside : (c : Code) (region : List ℕ) → Outside m c region → handles_outside m c region ≡ true
  unfolding handles_outside
  of_Outside c region o =
      any_there
        (λ b. not (contains region b) && any (is_var_arg_intrinsic m) ((m.ir_of c).instructions b))
        c.blocks o.block o.block_of
        (let t =
            any_there (is_var_arg_intrinsic m) ((m.ir_of c).instructions o.block) o.instruction
              o.stands (of_handles o.instruction o.handles) in
          ground (arith, t, o.away))

-- The region is empty, or variable arguments are handled outside of it where they may not be.
abbrev pub IsRefused : Machine → OldFunction → Code → List ℕ → Type 0
IsRefused m old c region =
    (region ≡ []) ⊎ ((m.allow_var_args ≡ true) × (old.is_var_arg ≡ true) × Outside m c region)

some_extracted :
    (x : Result Severed) (k : Severed → Result Extracted)
    → ¬ ((x >>= λ s. k s >>= λ e. ok (some e)) ≡ ok none)
some_extracted x k h =
    let (s, _, ran) = bind-ok x (λ s. k s >>= λ e. ok (some e)) none h in
    let (e, _, last) = bind-ok (k s) (λ e. ok (some e)) none ran in cc last

-- No function is made exactly where the region is empty, or variable arguments are allowed, the old function has
-- them, and some block of it that is not of the region has a call of `va_start` or `va_end`; whatever else happens, the
-- result is no null pointer.
pub clone_region_none_iff :
    (m : Machine) (old : OldFunction) (c : Code) (t : Option m.trees.Tree) (region : List ℕ)
    (accesses : List (Option ℕ)) (p : Prepared)
    → (clone_region m old c t region accesses p ≡ ok none) ↔ IsRefused m old c region
unfolding clone_region
clone_region_none_iff m old c t [] accesses p = (λ h. inl refl, λ h. refl)
clone_region_none_iff m old c t (b ∷ bs) accesses p =
    elim (Bool-cases (m.allow_var_args && old.is_var_arg && handles_outside m c (b ∷ bs))) [
      | inl yes_ ↦ (
        λ h. inr (
          ground (arith, yes_),
          ground (arith, yes_),
          Outside-of m c (b ∷ bs) (ground (arith, yes_)),
        ),
        λ h. rw (yes_, clone_region) refl,
      )
      | inr no_ ↦ (
        λ h. absurd (
            some_extracted (sever_split_phi_nodes m.splitter m.creator c (b ∷ bs) b)
              (λ s. clone_severed m old s t accesses p) (rw (no_, clone_region) at h)),
        λ h. elim h [
          | inl e ↦ absurd cc
          | inr (allow, has, o) ↦
              let t = of_Outside m c (b ∷ bs) o in absurd (ground (arith, no_, allow, has, t))
        ],
      )
    ]
