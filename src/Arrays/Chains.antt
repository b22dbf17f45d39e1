-- ===== src/Arrays/Chains.antt =====
-- The instructions that replace a reference are well typed and step through each index once.
use atrox.Prelude.{
  ℕ, suc, ◌+◌, ◌*◌, ◌≡◌, ◌≢◌, refl, ap, ◌∙◌, ◌==◌, List, [], ◌∷◌, length, Bool, true, false, Option,
  some, none, Error, ok, err, ◌>>=◌, arith,
}
use atrox.Arrays.Types.{IrType, pointer, Decomposed, get_decomposed_type}
use atrox.Arrays.Shapes.{
  arrays, IsScalar, pointers, towers, length-towers, decomposed_type, decomposed_type_undefined,
}
use atrox.Arrays.Flatten.{Expr, element_type}
use atrox.Arrays.Decompose.{
  Step, ptr_cast, get_element, ptr_load, load_between, emit, emit_all, decompose,
}

-- The pointer types that a chain of instructions goes through: a cast is from a pointer to a
-- pointer, an element pointer keeps the type it counts in, and a load goes through one pointer.
pub data Runs : IrType → List Step → IrType → Type 0 where
  done : {t : IrType} → Runs t [] t
  casts :
      {t u v : IrType} {ss : List Step}
      → Runs (pointer u) ss v
      → Runs (pointer t) (ptr_cast (pointer u) ∷ ss) v
  counts :
      {t v : IrType} {ss : List Step} (i : Expr)
      → Runs (pointer t) ss v
      → Runs (pointer t) (get_element t i ∷ ss) v
  loads : {t v : IrType} {ss : List Step} → Runs t ss v → Runs (pointer t) (ptr_load ∷ ss) v

-- The indices that a chain counts by.
abbrev pub indices_of : List Step → List Expr
indices_of [] = []
indices_of (ptr_cast t ∷ ss) = indices_of ss
indices_of (get_element t i ∷ ss) = i ∷ indices_of ss
indices_of (ptr_load ∷ ss) = indices_of ss

-- Element pointers, with a load after each but the last.
abbrev pub alternates : List Step → Bool
alternates [] = false
alternates (ptr_cast t ∷ ss) = false
alternates (ptr_load ∷ ss) = false
alternates (get_element t i ∷ []) = true
alternates (get_element t i ∷ ptr_load ∷ ss) = alternates ss
alternates (get_element t i ∷ ptr_cast u ∷ ss) = false
alternates (get_element t i ∷ get_element u j ∷ ss) = false

emit-towers :
    (i : Expr) (is' : List Expr) (t : IrType)
    → (ss : List Step) × (emit (towers (suc (length is')) t) (i ∷ is') ≡ ok ss)
      × Runs (pointers (suc (length is')) t) ss (pointer t)
      × (alternates ss ≡ true)
      × (indices_of ss ≡ i ∷ is')
      × (length ss + 1 ≡ 2 * length (i ∷ is'))
unfolding emit element_type load_between
emit-towers i [] t = (get_element t i ∷ [], refl, counts i done, refl, refl, omega arith)
emit-towers i (j ∷ is') t =
    let (ss, e, r, a, x, n) = emit-towers j is' t in
    (
      get_element (pointers (suc (length is')) t) i ∷ ptr_load ∷ ss,
      rw (e, emit) refl,
      counts i (loads r),
      a,
      ap (λ xs. i ∷ xs) x,
      omega arith,
    )

emit_all-towers :
    (i : Expr) (is' : List Expr) (t : IrType)
    → (ss : List Step) × (emit_all (towers (suc (length is')) t) (i ∷ is')
        ≡ ok (some (ptr_cast (pointers (suc (length is')) t) ∷ ss)))
      × Runs (pointers (suc (length is')) t) ss (pointer t)
      × (alternates ss ≡ true)
      × (indices_of ss ≡ i ∷ is')
      × (length ss + 1 ≡ 2 * length (i ∷ is'))
unfolding emit_all
emit_all-towers i is' t =
    let (ss, e, r, a, x, n) = emit-towers i is' t in
    let same : (suc (length (towers (length is') t)) == suc (length is')) ≡ true =
      ground (arith, length-towers (length is') t) in
    (ss, rw (same, e) refl, r, a, x, n)

-- The guard on the number of indices.
decompose_more :
    (pointee : Option IrType) (i j : Expr) (rest : List Expr)
    → decompose (some (record { pointee = pointee; first = i; rest = j ∷ rest }))
      ≡ (get_decomposed_type pointee >>= λ d. emit_all d.types (i ∷ j ∷ rest))
unfolding decompose
decompose_more pointee i j rest = ground arith

-- A reference through an array of one or more dimensions, with one index for each behind the first, is
-- replaced by one cast, an element pointer for each index in order, and a load after each but the last; the
-- chain is well typed from the operand's type, and ends in a pointer to the element type.
pub decompose_chain :
    (n : ℕ) (ns : List ℕ) (t : IrType) (first i : Expr) (rest : List Expr)
    → IsScalar t
    → length rest ≡ length ns
    → (u : IrType) × (ss : List Step) × (decompose
          (some (record { pointee = some (arrays (n ∷ ns) t); first = first; rest = i ∷ rest }))
        ≡ ok (some (ptr_cast u ∷ ss)))
      × Runs (pointer (arrays (n ∷ ns) t)) (ptr_cast u ∷ ss) (pointer t)
      × (alternates ss ≡ true)
      × (indices_of ss ≡ first ∷ i ∷ rest)
      × (length (ptr_cast u ∷ ss) ≡ 2 * length (first ∷ i ∷ rest))
decompose_chain n ns t first i rest scalar h =
    let (ss, e, r, a, x, c) = emit_all-towers first (i ∷ rest) t in
    let k : length (n ∷ ns) + 1 ≡ suc (length (i ∷ rest)) = omega arith in
    (
      pointers (suc (length (i ∷ rest))) t,
      ss,
      decompose_more (some (arrays (n ∷ ns) t)) first i rest
          ∙ ap (λ r. r >>= λ (d : Decomposed). emit_all d.types (first ∷ i ∷ rest))
              (decomposed_type n ns t scalar)
          ∙ ap (λ m. emit_all (towers m t) (first ∷ i ∷ rest)) k
          ∙ e,
      casts r,
      a,
      x,
      omega arith,
    )

-- With another number of indices, two at least, such a reference is left as it is.
pub decompose_unchanged :
    (n : ℕ) (ns : List ℕ) (t : IrType) (first i : Expr) (rest : List Expr)
    → IsScalar t
    → length rest ≢ length ns
    → decompose
        (some (record { pointee = some (arrays (n ∷ ns) t); first = first; rest = i ∷ rest }))
      ≡ ok none
unfolding emit_all
decompose_unchanged n ns t first i rest scalar h =
    let k : length (n ∷ ns) + 1 ≡ suc (suc (length ns)) = omega arith in
    decompose_more (some (arrays (n ∷ ns) t)) first i rest
    ∙ ap (λ r. r >>= λ (d : Decomposed). emit_all d.types (first ∷ i ∷ rest))
        (decomposed_type n ns t scalar)
    ∙ ap (λ m. emit_all (towers m t) (first ∷ i ∷ rest)) k
    ∙ ground (arith, length-towers (suc (suc (length ns))) t)

-- A reference with two or more indices whose pointer operand points to anything but an array makes the code
-- build a pointer to the null type.
pub decompose_undefined :
    (t : IrType) (first i : Expr) (rest : List Expr)
    → IsScalar t
    → decompose (some (record { pointee = some t; first = first; rest = i ∷ rest }))
      ≡ err Error.undefined
decompose_undefined t first i rest scalar =
    decompose_more (some t) first i rest
    ∙ ap (λ r. r >>= λ (d : Decomposed). emit_all d.types (first ∷ i ∷ rest))
        (decomposed_type_undefined t scalar)
