-- ===== src/Extractor/Lifetimes/Total.antt =====
-- The assertions of `findAllocas` hold.
use atrox.Prelude.{
  ℕ, ◌≡◌, refl, ap, ◌∙◌, Bool, true, false, not, ◌||◌, List, [], ◌∷◌, any, contains, Option, some,
  none, ◌==◌, ==→≡, Bool-cases, Option-cases, inl, inr, Result, ok, err, ◌>>=◌, arith,
}
use atrox.Extractor.Lifetimes.{
  Frame, Candidates, Found, in_region, scan_users, check_markers, is_legal_to_shrinkwrap,
  get_life_time_markers, follow_users, add_alloca, add_allocas, add_blocks, find_allocas,
  get_common_exit_block,
}
use atrox.Extractor.Lifetimes.Sound.{IsFrame}

abbrev is_ok : {A : Type 0} → Result A → Bool
is_ok (err e) = false
is_ok (ok a) = true

bind-is_ok :
    {A B : Type 0} (x : Result A) (k : A → Result B)
    → is_ok x ≡ true
    → ((a : A) → is_ok (k a) ≡ true)
    → is_ok (x >>= k) ≡ true
bind-is_ok (err e) k h all_ok = absurd cc
bind-is_ok (ok a) k h all_ok = all_ok a

of_is_ok : {A : Type 0} (x : Result A) → is_ok x ≡ true → (a : A) × (x ≡ ok a)
of_is_ok (err e) h = absurd cc
of_is_ok (ok a) h = (a, refl)

module _ (f : Frame) (region : List ℕ) where
  is_legal_to_shrinkwrap-is_ok :
      (addr : ℕ)
      → f.is_alloca (f.strip addr) ≡ true
      → is_ok (is_legal_to_shrinkwrap f region addr) ≡ true
  unfolding is_legal_to_shrinkwrap
  is_legal_to_shrinkwrap-is_ok addr slot = rw slot refl

  check_markers-is_ok :
      (exit : Option ℕ) (addr start end : ℕ)
      → f.is_alloca (f.strip addr) ≡ true
      → is_ok (check_markers f region exit addr start end) ≡ true
  unfolding check_markers
  check_markers-is_ok exit addr start end slot =
      elim (Bool-cases (not (in_region f region start) || not (in_region f region end))) [
        | inl y ↦
            rw (y, check_markers)
              (bind-is_ok _ _ (is_legal_to_shrinkwrap-is_ok addr slot) (λ legal. refl))
        | inr n ↦ rw (n, check_markers) refl
      ]

  get_life_time_markers-is_ok :
      (exit : Option ℕ) (addr : ℕ) (sink hoist : Bool)
      → f.is_alloca (f.strip addr) ≡ true
      → is_ok (get_life_time_markers f region exit addr sink hoist) ≡ true
  unfolding get_life_time_markers
  get_life_time_markers-is_ok exit addr sink hoist slot =
      elim (Option-cases (scan_users f region none none (f.users addr))) [
        | inl x ↦ rw (x, get_life_time_markers) refl
        | inr ((some a, some b), x) ↦
            rw (x, get_life_time_markers) (check_markers-is_ok exit addr a b slot)
        | inr ((none, b), x) ↦ rw (x, get_life_time_markers) refl
        | inr ((some a, none), x) ↦ rw (x, get_life_time_markers) refl
      ]

  follow_users-is_ok :
      (exit : Option ℕ) (ai : ℕ) (addr : Option ℕ) (found : Found) (us : List ℕ)
      → f.is_alloca ai ≡ true
      → any (λ u. not (f.is_instruction u)) us ≡ false
      → is_ok (follow_users f region exit ai addr found us) ≡ true
  unfolding follow_users
  follow_users-is_ok exit ai addr found [] slot insts = refl
  follow_users-is_ok exit ai addr found (u ∷ us) slot insts =
      let inst : f.is_instruction u ≡ true = ground (arith, insts) in
      let insts' : any (λ u. not (f.is_instruction u)) us ≡ false = ground (arith, insts) in
      elim (Bool-cases (f.strip u == ai)) [
        | inl here ↦
            rw (here, inst, follow_users)
              (bind-is_ok _ _
                (get_life_time_markers-is_ok exit u false false
                  (ap f.is_alloca (==→≡ (f.strip u) ai here) ∙ slot))
                (λ now. elim (Option-cases now.markers) [
                  | inr (q, x) ↦ rw x (follow_users-is_ok exit ai (some u) now us slot insts')
                  | inl x ↦ elim (Bool-cases (in_region f region u)) [
                    | inl y ↦ rw (x, y) (follow_users-is_ok exit ai addr now us slot insts')
                    | inr n ↦ rw (x, n) refl
                  ]
                ]))
        | inr away ↦ elim (Bool-cases (in_region f region u)) [
          | inl y ↦
              rw (away, y, follow_users) (follow_users-is_ok exit ai addr found us slot insts')
          | inr n ↦ rw (away, n, follow_users) refl
        ]
      ]

  module _ (laws : IsFrame f) where
    add_alloca-is_ok :
        (exit : Option ℕ) (ai : ℕ) (c : Candidates)
        → f.is_alloca ai ≡ true
        → is_ok (add_alloca f region exit ai c) ≡ true
    unfolding add_alloca
    add_alloca-is_ok exit ai c slot =
        bind-is_ok _ _
          (get_life_time_markers-is_ok exit ai false false (rw (laws.stripped ai slot) slot))
          (λ found. elim (Option-cases found.markers) [
            | inr (q, x) ↦ rw x refl
            | inl x ↦ rw x (
                bind-is_ok _ _
                  (follow_users-is_ok exit ai none found (f.users ai) slot
                    (laws.instructions ai slot))
                  (λ r. refl))
          ])

    add_allocas-is_ok :
        (exit : Option ℕ) (is' : List ℕ) (c : Candidates)
        → is_ok (add_allocas f region exit is' c) ≡ true
    unfolding add_allocas
    add_allocas-is_ok exit [] c = refl
    add_allocas-is_ok exit (i ∷ is') c =
        bind-is_ok _ _
          (elim (Bool-cases (f.is_alloca i)) [
            | inl y ↦ rw y (add_alloca-is_ok exit i c y)
            | inr n ↦ rw n refl
          ])
          (add_allocas-is_ok exit is')

    add_blocks-is_ok :
        (exit : Option ℕ) (bs : List ℕ) (c : Candidates)
        → is_ok (add_blocks f region exit bs c) ≡ true
    unfolding add_blocks
    add_blocks-is_ok exit [] c = refl
    add_blocks-is_ok exit (b ∷ bs) c =
        bind-is_ok _ _
          (elim (Bool-cases (contains region b)) [
            | inl y ↦ rw y refl
            | inr n ↦ rw n (add_allocas-is_ok exit (f.instructions b) c)
          ])
          (add_blocks-is_ok exit bs)

-- By what the code relies on of LLVM no cast of `findAllocas` fails: it returns some candidates, with the common exit
-- block.
pub find_allocas-returns :
    (f : Frame) (region : List ℕ) (c : Candidates)
    → IsFrame f
    → (d : Candidates) × (find_allocas f region c ≡ ok (d, get_common_exit_block f region))
unfolding find_allocas
find_allocas-returns f region c laws =
    let (d, e) =
      of_is_ok (add_blocks f region (get_common_exit_block f region) f.blocks c)
        (add_blocks-is_ok f region laws (get_common_exit_block f region) f.blocks c) in
    (d, rw e refl)
