-- ===== src/Arrays/Dots.antt =====
-- The sum of indices times products of sizes that `FlattenMultiDimArrayIndices` emits is an offset by rows.
use mathlib.Core.Path.{ap₂}
use mathlib.Core.List.{reverse-append}
use atrox.Prelude.{
  ℕ, ◌/◌, suc, ◌*◌, ◌+◌, ◌%◌, ◌≡◌, refl, ap, ◌∙◌, List, [], ◌∷◌, ◌++◌, reverse, length,
  length-append, arith,
}
use atrox.Arrays.Flatten.{u64_mod, products}

-- The number of elements of an array type.
abbrev pub total : List ℕ → ℕ
total [] = 1
total (n ∷ ns) = n * total ns

-- The offset of an element, in elements: row by row.
abbrev pub offset : List ℕ → List ℕ → ℕ
offset [] is' = 0
offset (n ∷ ns) [] = 0
offset (n ∷ ns) (i ∷ is') = i * total ns + offset ns is'

-- That of a `getelementptr`, whose first index counts whole arrays.
abbrev pub gep_offset : List ℕ → ℕ → List ℕ → ℕ
gep_offset sizes first rest = first * total sizes + offset sizes rest

-- The sum that the loops build, over lists in the same order.
unfoldable pub dot : List ℕ → List ℕ → ℕ
dot [] ps = 0
dot (i ∷ is') [] = 0
dot (i ∷ is') (p ∷ ps) = i * p + dot is' ps

-- The product behind the last one.
final : ℕ → List ℕ → ℕ
final p [] = p
final p (s ∷ ss) = final (p * s % u64_mod) ss

products-append :
    (p : ℕ) (ss : List ℕ) (n : ℕ) → products p (ss ++ n ∷ []) ≡ products p ss ++ final p ss ∷ []
unfolding products final
products-append p [] n = refl
products-append p (s ∷ ss) n = ap (λ xs. p ∷ xs) (products-append (p * s % u64_mod) ss n)

pub length-products : (p : ℕ) (ss : List ℕ) → length (products p ss) ≡ length ss
unfolding products
length-products p [] = refl
length-products p (s ∷ ss) = ap suc (length-products (p * s % u64_mod) ss)

mul-mod : (x y : ℕ) → x * (y % u64_mod) % u64_mod ≡ x * y % u64_mod
mul-mod x y =
    let split : y ≡ u64_mod * (y / u64_mod) + y % u64_mod = omega arith in
    omega (arith, ap (λ (t : ℕ). x * t) split)

final-append : (p : ℕ) (ss : List ℕ) (n : ℕ) → final p (ss ++ n ∷ []) ≡ final p ss * n % u64_mod
unfolding final
final-append p [] n = refl
final-append p (s ∷ ss) n = final-append (p * s % u64_mod) ss n

dot-append :
    (is' ps : List ℕ) (i p : ℕ)
    → length is' ≡ length ps
    → dot (is' ++ i ∷ []) (ps ++ p ∷ []) ≡ dot is' ps + i * p
unfolding dot
dot-append [] [] i p h = omega arith
dot-append [] (q ∷ ps) i p h = absurd (omega arith)
dot-append (j ∷ is') [] i p h = absurd (omega arith)
dot-append (j ∷ is') (q ∷ ps) i p h = omega (arith, dot-append is' ps i p (omega arith))

pub length-reverse {ℓ} : {A : Type ℓ} (xs : List A) → length (reverse xs) ≡ length xs
length-reverse [] = refl
length-reverse (x ∷ xs) =
    ap length (reverse-append (x ∷ []) xs)
    ∙ length-append (reverse xs) (x ∷ [])
    ∙ omega (arith, length-reverse xs)

final-reverse : (p : ℕ) (ns : List ℕ) → final p (reverse ns) % u64_mod ≡ p * total ns % u64_mod
unfolding final
final-reverse p [] = omega arith
final-reverse p (n ∷ ns) =
    ap (λ xs. final p xs % u64_mod) (reverse-append (n ∷ []) ns)
    ∙ ap (λ (k : ℕ). k % u64_mod) (final-append p (reverse ns) n)
    ∙ omega (
      arith,
      ap (λ (k : ℕ). n * k % u64_mod) (final-reverse p ns),
      mul-mod n (final p (reverse ns)),
      mul-mod n (p * total ns),
    )

pub dot-reverse :
    (ns is' : List ℕ)
    → length is' ≡ length ns
    → dot (reverse is') (products 1 (reverse ns)) % u64_mod ≡ offset ns is' % u64_mod
unfolding dot
dot-reverse [] [] h = refl
dot-reverse [] (i ∷ is') h = absurd (omega arith)
dot-reverse (n ∷ ns) [] h = absurd (omega arith)
dot-reverse (n ∷ ns) (i ∷ is') h =
    let sizes : length (reverse is') ≡ length (products 1 (reverse ns)) =
      omega (arith, length-reverse is', length-reverse ns, length-products 1 (reverse ns)) in
    ap₂ (λ xs ys. dot xs ys % u64_mod) (reverse-append (i ∷ []) is')
      (ap (products 1) (reverse-append (n ∷ []) ns) ∙ products-append 1 (reverse ns) n)
    ∙ ap (λ (k : ℕ). k % u64_mod)
        (dot-append (reverse is') (products 1 (reverse ns)) i (final 1 (reverse ns)) sizes)
    ∙ omega (
      arith,
      dot-reverse ns is' (omega arith),
      ap (λ (k : ℕ). i * k % u64_mod) (final-reverse 1 ns),
      mul-mod i (final 1 (reverse ns)),
      mul-mod i (1 * total ns),
    )
