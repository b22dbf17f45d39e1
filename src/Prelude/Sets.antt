-- ===== src/Prelude/Sets.antt =====
-- Sets of pointers. A pointer is a number, and the null pointer is 0.
use Prim.Native.Nat.{ℕ, suc, ◌≤◌, ◌<◌}
use mathlib.Core.Path.{◌≡◌, refl}
use mathlib.Core.Bool.{Bool, true, false}
use mathlib.Core.List.{List, [], ◌∷◌, ◌++◌}
use native.Mathlib.Omega.{arith}
use atrox.Prelude.Tests.{◌==◌, if◌then◌else◌, ==→≡}
use atrox.Prelude.Lists.{length, select}

-- `set.count(x)`.
abbrev pub contains : List ℕ → ℕ → Bool
contains [] a = false
contains (x ∷ xs) a = if a == x then true else contains xs a

-- `set.insert(x)`: a set vector keeps the order of insertion.
abbrev pub insert : List ℕ → ℕ → List ℕ
insert xs a = if contains xs a then xs else xs ++ a ∷ []

-- `set.erase(x)`.
abbrev pub erase : List ℕ → ℕ → List ℕ
erase [] a = []
erase (x ∷ xs) a = if a == x then erase xs a else x ∷ erase xs a

-- `set.insert(begin, end)`.
abbrev pub insert_all : List ℕ → List ℕ → List ℕ
insert_all xs [] = xs
insert_all xs (a ∷ as') = insert_all (insert xs a) as'

pub contains-append :
    (xs ys : List ℕ) (a : ℕ)
    → contains (xs ++ ys) a ≡ (if contains xs a then true else contains ys a)
contains-append [] ys a = refl
contains-append (x ∷ xs) ys a = ground (arith, contains-append xs ys a)

pub contains-insert :
    (xs : List ℕ) (x a : ℕ) → contains (insert xs x) a ≡ (if a == x then true else contains xs a)
contains-insert xs x a = ground (arith, contains-append xs (x ∷ []) a)

pub contains-erase :
    (xs : List ℕ) (x a : ℕ) → contains (erase xs x) a ≡ (if a == x then false else contains xs a)
contains-erase [] x a = ground arith
contains-erase (y ∷ xs) x a = ground (arith, contains-erase xs x a)

pub contains-insert_all :
    (xs ys : List ℕ) (a : ℕ)
    → contains (insert_all xs ys) a ≡ (if contains ys a then true else contains xs a)
contains-insert_all xs [] a = refl
contains-insert_all xs (y ∷ ys) a =
    ground (arith, contains-insert_all (insert xs y) ys a, contains-insert xs y a)

pub contains-select :
    (p : ℕ → Bool) (xs : List ℕ) (a : ℕ)
    → contains (select p xs) a ≡ (if p a then contains xs a else false)
contains-select p [] a = ground arith
contains-select p (x ∷ xs) a = ground (arith, contains-select p xs a, ==→≡ a x)

-- The number of elements of a list that are in no set `bl` yet.
abbrev pub count_outside : List ℕ → List ℕ → ℕ
count_outside bl [] = 0
count_outside bl (x ∷ xs) = if contains bl x then count_outside bl xs else suc (count_outside bl xs)

pub count_outside-le : (bl xs : List ℕ) → count_outside bl xs ≤ length xs
count_outside-le bl [] = omega arith
count_outside-le bl (x ∷ xs) = ground (arith, count_outside-le bl xs)

pub count_outside-insert_le :
    (bl xs : List ℕ) (a : ℕ) → count_outside (insert bl a) xs ≤ count_outside bl xs
count_outside-insert_le bl [] a = omega arith
count_outside-insert_le bl (x ∷ xs) a =
    ground (arith, count_outside-insert_le bl xs a, contains-insert bl a x)

-- A new element of the set leaves fewer outside.
pub count_outside-insert_lt :
    (bl xs : List ℕ) (a : ℕ)
    → contains xs a ≡ true
    → contains bl a ≡ false
    → count_outside (insert bl a) xs < count_outside bl xs
count_outside-insert_lt bl [] a h n = cc
count_outside-insert_lt bl (x ∷ xs) a h n = ground (
  arith,
  count_outside-insert_lt bl xs a,
  count_outside-insert_le bl xs a,
  contains-insert bl a x,
  ==→≡ a x,
)
