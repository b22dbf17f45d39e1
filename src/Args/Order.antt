-- ===== src/Args/Order.antt =====
-- `ReorderInputs`, which puts the iterator's value first. `is_iterator` is false of a value that is
-- no instruction.
use mathlib.Core.Path.{subst}
use mathlib.Core.List.{append_assoc, append-nil, reverse-append, reverse-reverse}
use atrox.Prelude.{
  ℕ, ◌≡◌, refl, ap, sym, ◌∙◌, Bool, true, false, if◌then◌else◌, List, [], ◌∷◌, ◌++◌, reverse,
  Option, some, none, ◌==◌, Result, Error, ok, err, contains-append, ==→≡, ==_refl, insert_all,
  erase, contains, any, arith,
}

-- `std::find_if`: the first value that passes a test.
unfoldable pub find_if : (ℕ → Bool) → List ℕ → Option ℕ
find_if p [] = none
find_if p (x ∷ xs) = if p x then some x else find_if p xs

-- The test `found != Inputs.begin()`, on inputs that hold no value twice.
unfoldable pub is_begin : List ℕ → ℕ → Bool
is_begin [] x = false
is_begin (y ∷ ys) x = x == y

-- The vector without the value, with the value in front, inserted into the emptied set.
unfoldable pub move_front : List ℕ → ℕ → List ℕ
move_front inputs tmp = insert_all [] (reverse (reverse (erase inputs tmp) ++ tmp ∷ []))

-- Whether it changed something, and the inputs; a read through the end iterator is undefined.
unfoldable pub reorder_inputs : (ℕ → Bool) → List ℕ → Result (Bool × List ℕ)
unfolding find_if is_begin move_front
reorder_inputs is_iterator [] = ok (false, [])
reorder_inputs is_iterator (i ∷ is') = elim (find_if is_iterator (i ∷ is')) [
  | none ↦ err Error.undefined
  | some found ↦
      if is_begin (i ∷ is') found
      then ok (false, i ∷ is')
      else ok (true, move_front (i ∷ is') found)
]

-- A set's vector holds no value twice.
abbrev pub IsDistinct : List ℕ → Type 0
IsDistinct [] = Unit
IsDistinct (x ∷ xs) = (contains xs x ≡ false) × IsDistinct xs

pub IsDistinct-middle :
    (xs : List ℕ) (x : ℕ) (ys : List ℕ)
    → IsDistinct (xs ++ x ∷ ys)
    → (contains xs x ≡ false) × (contains ys x ≡ false) × IsDistinct (xs ++ ys)
IsDistinct-middle [] x ys (n, d) = (refl, n, d)
IsDistinct-middle (z ∷ xs) x ys (n, d) =
    let (a, b, c) = IsDistinct-middle xs x ys d in
    let e = contains-append xs (x ∷ ys) z in
    let e' = contains-append xs ys z in (ground (arith, ==→≡ z x, ==→≡ x z), b, (ground arith, c))

insert_all-IsDistinct : (xs ys : List ℕ) → IsDistinct (xs ++ ys) → insert_all xs ys ≡ (xs ++ ys)
insert_all-IsDistinct xs [] d = sym (append-nil xs)
insert_all-IsDistinct xs (y ∷ ys) d =
    let (n, m, c) = IsDistinct-middle xs y ys d in
    rw n (
      insert_all-IsDistinct (xs ++ y ∷ []) ys
        (subst IsDistinct (sym (append_assoc xs (y ∷ []) ys)) d)
      ∙ append_assoc xs (y ∷ []) ys)

erase_absent : (xs : List ℕ) (a : ℕ) → contains xs a ≡ false → erase xs a ≡ xs
erase_absent [] a n = refl
erase_absent (x ∷ xs) a n = ground (arith, erase_absent xs a)

pub erase_middle :
    (xs : List ℕ) (x : ℕ) (ys : List ℕ)
    → contains xs x ≡ false
    → contains ys x ≡ false
    → erase (xs ++ x ∷ ys) x ≡ (xs ++ ys)
erase_middle [] x ys n m = ground (arith, erase_absent ys x, ==_refl x)
erase_middle (z ∷ xs) x ys n m = ground (arith, erase_middle xs x ys)

move_front_lem :
    (xs : List ℕ) (x : ℕ) (ys : List ℕ)
    → IsDistinct (xs ++ x ∷ ys)
    → move_front (xs ++ x ∷ ys) x ≡ x ∷ (xs ++ ys)
unfolding move_front
move_front_lem xs x ys d =
    let (n, m, c) = IsDistinct-middle xs x ys d in
    let e = contains-append xs ys x in
    rw
      (
        erase_middle xs x ys n m,
        reverse-append (reverse (xs ++ ys)) (x ∷ []),
        reverse-reverse (xs ++ ys),
      )
      (insert_all-IsDistinct [] (x ∷ (xs ++ ys)) (ground arith, c))

find_if_lem :
    (p : ℕ → Bool) (xs : List ℕ) (x : ℕ) (ys : List ℕ)
    → any p xs ≡ false
    → p x ≡ true
    → find_if p (xs ++ x ∷ ys) ≡ some x
unfolding find_if
find_if_lem p [] x ys n y = rw (find_if, y) refl
find_if_lem p (z ∷ xs) x ys n y = ground (arith, find_if_lem p xs x ys)

find_if-none : (p : ℕ → Bool) (xs : List ℕ) → any p xs ≡ false → find_if p xs ≡ none
unfolding find_if
find_if-none p [] n = refl
find_if-none p (x ∷ xs) n = ground (arith, find_if-none p xs)

abbrev pub is_nonempty : List ℕ → Bool
is_nonempty [] = false
is_nonempty (x ∷ xs) = true

reorder_moved :
    (is_iterator : ℕ → Bool) (i : ℕ) (is' : List ℕ) (x : ℕ)
    → find_if is_iterator (i ∷ is') ≡ some x
    → (x == i) ≡ false
    → reorder_inputs is_iterator (i ∷ is') ≡ ok (true, move_front (i ∷ is') x)
unfolding reorder_inputs is_begin
reorder_moved is_iterator i is' x e o = rw (reorder_inputs, e, is_begin, o) refl

-- For inputs that hold no value twice, the first that passes the test for an iterator comes to stand in front,
-- the others keep their order, and the result says that something changed exactly if it was not in front before.
pub reorder_inputs_lem :
    (is_iterator : ℕ → Bool) (xs : List ℕ) (x : ℕ) (ys : List ℕ)
    → IsDistinct (xs ++ x ∷ ys)
    → any is_iterator xs ≡ false
    → is_iterator x ≡ true
    → reorder_inputs is_iterator (xs ++ x ∷ ys) ≡ ok (is_nonempty xs, x ∷ (xs ++ ys))
unfolding reorder_inputs is_begin
reorder_inputs_lem is_iterator [] x ys d n y =
    rw (reorder_inputs, find_if_lem is_iterator [] x ys n y, ==_refl x) refl
reorder_inputs_lem is_iterator (z ∷ xs) x ys d n y =
    let (m, _, _) = IsDistinct-middle (z ∷ xs) x ys d in
    let other : ((x == z) ≡ false) = ground arith in
    reorder_moved is_iterator z (xs ++ x ∷ ys) x (find_if_lem is_iterator (z ∷ xs) x ys n y) other
    ∙ ap (λ q. ok (true, q)) (move_front_lem (z ∷ xs) x ys d)

-- Where no input passes the test for an iterator, and there is an input, the code reads through the end
-- iterator.
pub reorder_undefined :
    (is_iterator : ℕ → Bool) (i : ℕ) (is' : List ℕ)
    → any is_iterator (i ∷ is') ≡ false
    → reorder_inputs is_iterator (i ∷ is') ≡ err Error.undefined
unfolding reorder_inputs
reorder_undefined is_iterator i is' n =
    rw (reorder_inputs, find_if-none is_iterator (i ∷ is') n) refl
