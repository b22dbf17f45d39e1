-- ===== src/Arrays/Shapes.antt =====
-- The types and the sizes that are read off an array type.
use mathlib.Core.List.{reverse-append}
use atrox.Prelude.{
  ℕ, zero, suc, ◌+◌, ◌-◌, ◌≡◌, refl, ap, ◌∙◌, List, [], ◌∷◌, ◌++◌, reverse, Option, some, none,
  arith, length, Error, ok, err,
}
use atrox.Arrays.Types.{
  IrType, other, array, pointer, peel, back, push_pointers, build_types, get_decomposed_type,
  array_sizes,
}

-- An array type of some sizes over an element type, outermost first.
abbrev pub arrays : List ℕ → IrType → IrType
arrays [] t = t
arrays (n ∷ ns) t = array n (arrays ns t)

-- A type that is no array.
abbrev pub IsScalar : IrType → Type 0
IsScalar (array n t) = ⊥
IsScalar (other k) = Unit
IsScalar (pointer t) = Unit

-- A type behind some pointers.
abbrev pub pointers : ℕ → IrType → IrType
pointers zero t = t
pointers (suc n) t = pointer (pointers n t)

-- The pointer types from `n` levels down to one.
abbrev pub towers : ℕ → IrType → List IrType
towers zero t = []
towers (suc n) t = pointers (suc n) t ∷ towers n t

pub length-towers : (n : ℕ) (t : IrType) → length (towers n t) ≡ n
length-towers zero t = refl
length-towers (suc n) t = ap suc (length-towers n t)

pub array_sizes-arrays : (ns : List ℕ) (t : IrType) → IsScalar t → array_sizes (arrays ns t) ≡ ns
unfolding array_sizes
array_sizes-arrays [] (other k) h = refl
array_sizes-arrays [] (pointer t) h = refl
array_sizes-arrays [] (array n t) h = absurd h
array_sizes-arrays (n ∷ ns) t h = ap (λ xs. n ∷ xs) (array_sizes-arrays ns t h)

peel_scalar : (t : IrType) (b : Option IrType) (d : ℕ) → IsScalar t → peel t b d ≡ (b, d)
unfolding peel
peel_scalar (other k) b d h = refl
peel_scalar (pointer t) b d h = refl
peel_scalar (array n t) b d h = absurd h

peel-arrays :
    (n : ℕ) (ns : List ℕ) (t : IrType) (b : Option IrType) (d : ℕ)
    → IsScalar t
    → peel (arrays (n ∷ ns) t) b d ≡ (some t, length (n ∷ ns) + d)
unfolding peel
peel-arrays n [] t b d h = peel_scalar t (some t) (d + 1) h ∙ ap (λ k. (some t, k)) (omega arith)
peel-arrays n (m ∷ ns) t b d h =
    peel-arrays m ns t (some (arrays (m ∷ ns) t)) (d + 1) h ∙ ap (λ k. (some t, k)) (omega arith)

back-append : (d : IrType) (ts : List IrType) (t : IrType) → back d (ts ++ t ∷ []) ≡ t
back-append d [] t = refl
back-append d (x ∷ ts) t = back-append x ts t

shift : (n k : ℕ) → n + suc (suc k) ≡ suc n + suc k
shift n k = omega arith

-- The vector before it is reversed.
push_pointers-towers :
    (d : IrType) (n k : ℕ) (t : IrType) (ts : List IrType)
    → reverse ts ≡ towers (suc k) t
    → back d ts ≡ pointers (suc k) t
    → reverse (push_pointers d n ts) ≡ towers (n + suc k) t
unfolding push_pointers
push_pointers-towers d zero k t ts r b =
    let e : suc k ≡ 0 + suc k = omega arith in r ∙ ap (λ m. towers m t) e
push_pointers-towers d (suc n) k t ts r b =
    push_pointers-towers d n (suc k) t (ts ++ pointer (back d ts) ∷ [])
      (reverse-append ts (pointer (back d ts) ∷ []) ∙ rw (r, b) refl)
      (back-append d ts (pointer (back d ts)) ∙ ap pointer b)
    ∙ ap (λ m. towers m t) (shift n k)

less_one : (n : ℕ) → suc n + 1 - 1 + 1 ≡ suc n + 1
less_one n = omega arith

-- For a pointer to an array of one or more dimensions, the basic type is the element type under
-- all of them, and the new types are that type behind as many pointers as there are dimensions and
-- one, then one fewer at each step, down to a single pointer.
pub decomposed_type :
    (n : ℕ) (ns : List ℕ) (t : IrType)
    → IsScalar t
    → get_decomposed_type (some (arrays (n ∷ ns) t))
      ≡ ok (record { basic = some t; types = towers (length (n ∷ ns) + 1) t })
unfolding get_decomposed_type
decomposed_type n ns t h =
    ap build_types (peel-arrays n ns t none 1 h)
    ∙ ap (λ ts. ok (record { basic = some t; types = ts }))
        (push_pointers-towers t (length (n ∷ ns) + 1 - 1) 0 t (pointer t ∷ []) refl refl
          ∙ ap (λ m. towers m t) (less_one (length ns)))

-- A pointer to anything but an array makes the code build a pointer to the null type.
pub decomposed_type_undefined :
    (t : IrType) → IsScalar t → get_decomposed_type (some t) ≡ err Error.undefined
unfolding get_decomposed_type
decomposed_type_undefined t h = ap build_types (peel_scalar t none 1 h)
