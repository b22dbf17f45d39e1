-- ===== src/Arrays/Offsets.antt =====
-- The flattened index is the offset of the reference, with its first index read as 0.
use mathlib.Core.List.{reverse-append, map-append}
use atrox.Prelude.{
  ℕ, zero, suc, ◌*◌, ◌+◌, ◌%◌, ◌<◌, ◌≡◌, refl, sym, ap, ◌∙◌, ◌↔◌, List, [], ◌∷◌, ◌++◌, map, reverse,
  length, some, ok, arith,
}
use atrox.Arrays.Types.{IrType, other, pointer, back}
use atrox.Arrays.Shapes.{arrays, IsScalar, pointers, towers, array_sizes-arrays, decomposed_type}
use atrox.Arrays.Dots.{total, gep_offset, dot, length-products, length-reverse, dot-reverse}
use atrox.Arrays.Flatten.{
  u64_mod, Expr, value, int64, mul, add, Gep, Flattened, products, scale, sum_scaled, rebuild,
  flatten_sized, flatten_indices,
}

-- What the emitted arithmetic computes, in 64 bits.
unfoldable pub eval : (ℕ → ℕ) → Expr → ℕ
eval env (value k) = env k
eval env (int64 n) = n
eval env (mul a b) = eval env a * eval env b % u64_mod
eval env (add a b) = (eval env a + eval env b) % u64_mod

back-towers : (d : IrType) (n : ℕ) (t : IrType) → back d (towers (suc n) t) ≡ pointer t
back-towers d zero t = refl
back-towers d (suc n) t = back-towers (pointers (suc (suc n)) t) n t

add_one : (n : ℕ) → n + 1 ≡ suc n
add_one n = omega arith

-- The type that the code takes last is a pointer to the element type.
last_type :
    (n : ℕ) (ns : List ℕ) (t : IrType) → back (other 0) (towers (length (n ∷ ns) + 1) t) ≡ pointer t
last_type n ns t =
    ap (λ k. back (other 0) (towers k t)) (add_one (length (n ∷ ns)))
    ∙ back-towers (other 0) (length (n ∷ ns)) t

rebuild_lem :
    (n : ℕ) (ns : List ℕ) (t : IrType) (e : Expr) (es : List Expr)
    → IsScalar t
    → rebuild (some (arrays (n ∷ ns) t)) (some (e ∷ es))
      ≡ ok (some (record { cast = pointer t; elem_type = t; index = sum_scaled e es }))
unfolding rebuild
rebuild_lem n ns t e es scalar =
    rw (decomposed_type n ns t scalar, rebuild) (rw (last_type n ns t) refl)

flatten_two :
    (gep : Gep) (n m : ℕ) (ns : List ℕ)
    → flatten_sized gep (n ∷ m ∷ ns)
      ≡ rebuild gep.pointee (scale (reverse gep.rest) (products 1 (reverse (n ∷ m ∷ ns))))
unfolding flatten_sized
flatten_two gep n m ns = ground arith

module _ (env : ℕ → ℕ) where
  abbrev evals : List Expr → List ℕ
  evals = map (eval env)

  scale-returns :
      (is' : List Expr) (ps : List ℕ)
      → length is' ≡ length ps
      → (es : List Expr) × (scale is' ps ≡ some es)
        × ((acc : Expr)
            → eval env (sum_scaled acc es) % u64_mod
              ≡ (eval env acc + dot (evals is') ps) % u64_mod)
  unfolding scale sum_scaled eval dot
  scale-returns [] [] h = ([], refl, λ acc. omega arith)
  scale-returns [] (p ∷ ps) h = absurd (omega arith)
  scale-returns (i ∷ is') [] h = absurd (omega arith)
  scale-returns (i ∷ is') (p ∷ ps) h =
      let (es, e, sums) = scale-returns is' ps (omega arith) in
      (
        mul i (int64 p) ∷ es,
        ground (arith, e),
        λ acc. omega (arith, sums (add acc (mul i (int64 p)))),
      )

  evals-reverse : (xs : List Expr) → evals (reverse xs) ≡ reverse (evals xs)
  evals-reverse [] = refl
  evals-reverse (x ∷ xs) =
      ap evals (reverse-append (x ∷ []) xs)
      ∙ map-append (eval env) (reverse xs) (x ∷ [])
      ∙ ap (λ ys. ys ++ eval env x ∷ []) (evals-reverse xs)
      ∙ sym (reverse-append (eval env x ∷ []) (evals xs))

  length-evals : (xs : List Expr) → length (evals xs) ≡ length xs
  length-evals [] = refl
  length-evals (x ∷ xs) = ap suc (length-evals xs)

  -- The sum of the scaled indices, when the first of them is there.
  first_sum :
      (i : Expr) (is' : List Expr) (p : ℕ) (ps : List ℕ)
      → length is' ≡ length ps
      → (e : Expr) × (es : List Expr) × (scale (i ∷ is') (p ∷ ps) ≡ some (e ∷ es))
        × (eval env e < u64_mod)
        × (eval env (sum_scaled e es) % u64_mod ≡ dot (evals (i ∷ is')) (p ∷ ps) % u64_mod)
  unfolding scale eval dot
  first_sum i is' p ps h =
      let (es, e, sums) = scale-returns is' ps h in
      (mul i (int64 p), es, ground (arith, e), omega arith, omega (arith, sums (mul i (int64 p))))

  summed_lt :
      (e : Expr) (es : List Expr) → eval env e < u64_mod → eval env (sum_scaled e es) < u64_mod
  unfolding sum_scaled eval
  summed_lt e [] h = h
  summed_lt e (x ∷ es) h = summed_lt (add e x) es (omega arith)

  scaled_sum :
      (is' : List Expr) (ps : List ℕ)
      → length is' ≡ length ps
      → 0 < length ps
      → (e : Expr) × (es : List Expr) × (scale is' ps ≡ some (e ∷ es))
        × (eval env (sum_scaled e es) ≡ dot (evals is') ps % u64_mod)
  scaled_sum [] [] h q = absurd (omega arith)
  scaled_sum [] (p ∷ ps) h q = absurd (omega arith)
  scaled_sum (i ∷ is') [] h q = absurd (omega arith)
  scaled_sum (i ∷ is') (p ∷ ps) h q =
      let (e, es, found, lt, sums) = first_sum i is' p ps (omega arith) in
      let small = summed_lt e es lt in (e, es, found, omega arith)

  -- The loops over the sizes and the indices in reverse.
  scaled_sizes :
      (sizes : List ℕ) (rest : List Expr)
      → length rest ≡ length sizes
      → 0 < length sizes
      → (e : Expr) × (es : List Expr) × (scale (reverse rest) (products 1 (reverse sizes))
          ≡ some (e ∷ es))
        × (eval env (sum_scaled e es)
            ≡ dot (reverse (evals rest)) (products 1 (reverse sizes)) % u64_mod)
  scaled_sizes sizes rest h q =
      let ps = length-products 1 (reverse sizes) in
      let (e, es, found, sum) =
        scaled_sum (reverse rest) (products 1 (reverse sizes))
          (omega (arith, length-reverse rest, ps, length-reverse sizes))
          (omega (arith, ps, length-reverse sizes)) in
      (
        e,
        es,
        found,
        sum ∙ ap (λ xs. dot xs (products 1 (reverse sizes)) % u64_mod) (evals-reverse rest),
      )

  -- A reference through an array of two or more dimensions, with one index for each behind the first, is
  -- replaced by one index from a pointer to the element type. Modulo 2 ^ 64 that index is the offset of the
  -- element by rows, when the first index of the reference is read as 0.
  pub flatten_offset :
      (n m : ℕ) (ns : List ℕ) (t : IrType) (first : Expr) (rest : List Expr)
      → IsScalar t
      → length rest ≡ length (n ∷ m ∷ ns)
      → (f : Flattened) × (flatten_indices
            (some (record { pointee = some (arrays (n ∷ m ∷ ns) t); first = first; rest = rest }))
          ≡ ok (some f))
        × (f.cast ≡ pointer t)
        × (f.elem_type ≡ t)
        × (eval env f.index ≡ gep_offset (n ∷ m ∷ ns) 0 (evals rest) % u64_mod)
  unfolding flatten_indices
  flatten_offset n m ns t first rest scalar sized =
      let sizes : List ℕ = n ∷ m ∷ ns in
      let gep : Gep = record { pointee = some (arrays sizes t); first = first; rest = rest } in
      let (e, es, found, sum) = scaled_sizes (n ∷ m ∷ ns) rest sized (omega arith) in
      (
        record { cast = pointer t; elem_type = t; index = sum_scaled e es },
        ap (flatten_sized gep) (array_sizes-arrays sizes t scalar)
            ∙ flatten_two gep n m ns
            ∙ ap (rebuild gep.pointee) found
            ∙ rebuild_lem n (m ∷ ns) t e es scalar,
        refl,
        refl,
        sum ∙ omega (arith, dot-reverse sizes (evals rest) (length-evals rest ∙ sized)),
      )

  -- The index that replaces such a reference is the offset that the reference has exactly when the elements
  -- skipped by its first index are none modulo 2 ^ 64: the first index is dropped.
  pub flatten_exact_iff :
      (n m : ℕ) (ns : List ℕ) (t : IrType) (first : Expr) (rest : List Expr) (f : Flattened)
      → IsScalar t
      → length rest ≡ length (n ∷ m ∷ ns)
      → flatten_indices
          (some (record { pointee = some (arrays (n ∷ m ∷ ns) t); first = first; rest = rest }))
        ≡ ok (some f)
      → (eval env f.index ≡ gep_offset (n ∷ m ∷ ns) (eval env first) (evals rest) % u64_mod)
        ↔ (eval env first * total (n ∷ m ∷ ns) % u64_mod ≡ 0)
  flatten_exact_iff n m ns t first rest f scalar sized h =
      let (g, e, _, _, v) = flatten_offset n m ns t first rest scalar sized in
      let same : g ≡ f = cc (sym e ∙ h) in
      let w : eval env f.index ≡ gep_offset (n ∷ m ∷ ns) 0 (evals rest) % u64_mod =
        ap (λ (x : Flattened). eval env x.index) (sym same) ∙ v in
      (λ q. omega arith, λ q. omega arith)
