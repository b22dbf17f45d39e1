-- ===== src/Payload/Trees/Groups.antt =====
-- The groups that the code collects, one for each root.
use atrox.Prelude.{
  ℕ, ◌<◌, ◌≡◌, refl, inl, inr, true, ◌&&◌, List, [], ◌∷◌, arith, map, ◌==◌, if◌then◌else◌, contains,
  All, ==→≡, Bool-cases,
}
use atrox.Llvm.{Cfg}
use atrox.Payload.Trees.{Group, emplace_root, is_root, collect_roots}
use atrox.Payload.Trees.Correct.{IsSeed}

abbrev pub roots : List Group → List ℕ
roots = map Group.root

-- The keys of a `std::map`: in order, and each once.
abbrev pub IsAscending : List ℕ → Type 0
IsAscending [] = Unit
IsAscending (x ∷ xs) = All (λ y. x < y) xs × IsAscending xs

contains-emplace_root :
    (gs : List Group) (e a : ℕ)
    → contains (roots (emplace_root gs e)) a ≡ (if a == e then true else contains (roots gs) a)
unfolding emplace_root
contains-emplace_root [] e a = refl
contains-emplace_root (g ∷ gs) e a = ground (arith, contains-emplace_root gs e a)

All-lt : (xs : List ℕ) (x y : ℕ) → x < y → All (λ z. y < z) xs → All (λ z. x < z) xs
All-lt [] x y h a = tt
All-lt (z ∷ xs) x y h (p, a) = (omega arith, All-lt xs x y h a)

emplace_root-above :
    (gs : List Group) (e x : ℕ)
    → x < e
    → All (λ y. x < y) (roots gs)
    → All (λ y. x < y) (roots (emplace_root gs e))
unfolding emplace_root
emplace_root-above [] e x h a = (h, tt)
emplace_root-above (g ∷ gs) e x h (p, a) = ground (arith, emplace_root-above gs e x h a)

emplace_root-IsAscending :
    (gs : List Group) (e : ℕ) → IsAscending (roots gs) → IsAscending (roots (emplace_root gs e))
unfolding emplace_root
emplace_root-IsAscending [] e a = (tt, tt)
emplace_root-IsAscending (g ∷ gs) e (p, a) = ground (
  arith,
  All-lt (roots gs) e g.root,
  emplace_root-IsAscending gs e a,
  emplace_root-above gs e g.root,
)

emplace_root-IsSeed : (gs : List Group) (e : ℕ) → All IsSeed gs → All IsSeed (emplace_root gs e)
unfolding emplace_root
emplace_root-IsSeed [] e a = (refl, tt)
emplace_root-IsSeed (g ∷ gs) e (p, a) = ground (arith, emplace_root-IsSeed gs e a)

module _ (cfg : Cfg) where
  pub contains-collect_roots :
      (its bl : List ℕ) (gs : List Group) (es : List ℕ) (a : ℕ)
      → contains (roots (collect_roots cfg its bl gs es)) a
        ≡ (if contains (roots gs) a then true else contains es a && is_root cfg its bl a)
  unfolding collect_roots
  contains-collect_roots its bl gs [] a = ground arith
  contains-collect_roots its bl gs (e ∷ es) a = ground (
    arith,
    contains-collect_roots its bl gs es a,
    contains-collect_roots its bl (emplace_root gs e) es a,
    contains-emplace_root gs e a,
    ==→≡ a e,
  )

  pub collect_roots-IsAscending :
      (its bl : List ℕ) (gs : List Group) (es : List ℕ)
      → IsAscending (roots gs)
      → IsAscending (roots (collect_roots cfg its bl gs es))
  unfolding collect_roots
  collect_roots-IsAscending its bl gs [] h = h
  collect_roots-IsAscending its bl gs (e ∷ es) h = elim (Bool-cases (is_root cfg its bl e)) [
    | inl y ↦
        rw y (
          collect_roots-IsAscending its bl (emplace_root gs e) es (emplace_root-IsAscending gs e h))
    | inr n ↦ rw n (collect_roots-IsAscending its bl gs es h)
  ]

  pub collect_roots-IsSeed :
      (its bl : List ℕ) (gs : List Group) (es : List ℕ)
      → All IsSeed gs
      → All IsSeed (collect_roots cfg its bl gs es)
  unfolding collect_roots
  collect_roots-IsSeed its bl gs [] h = h
  collect_roots-IsSeed its bl gs (e ∷ es) h = elim (Bool-cases (is_root cfg its bl e)) [
    | inl y ↦ rw y (collect_roots-IsSeed its bl (emplace_root gs e) es (emplace_root-IsSeed gs e h))
    | inr n ↦ rw n (collect_roots-IsSeed its bl gs es h)
  ]
