-- ===== src/Extractor/Accesses/Flat.antt =====
-- What the accesses become when the option is on and every element pointer is of the region.
use mathlib.Core.Path.{subst}
use atrox.Prelude.{
  ℕ, ◌%◌, ◌≡◌, refl, ap, sym, ◌∙◌, Bool, true, false, ◌&&◌, List, [], ◌∷◌, map, length, any, Option,
  some, none, ◌==◌, ==→≡, ==_refl, Bool-cases, inl, inr, ◌⊎◌, ok, arith,
}
use atrox.Arrays.Types.{IrType, get_decomposed_array_sizes}
use atrox.Arrays.Shapes.{arrays, IsScalar, array_sizes-arrays}
use atrox.Arrays.Flatten.{u64_mod, Expr, Gep, flatten_indices, flatten_sized}
use atrox.Arrays.Dots.{gep_offset}
use atrox.Arrays.Offsets.{eval, flatten_offset}
use atrox.Extractor.Regions.{Ir}
use atrox.Extractor.Accesses.{
  as_gep, pointee_of, replace_gep, flatten_access, flatten_accesses, is_outside, inside_entry,
}

-- A reference through an array of two or more dimensions, with an index for each.
pub record Shape : Type 0 where
  pub outer : ℕ
  pub next : ℕ
  pub sizes : List ℕ
  pub elem_type : IrType
  pub first : Expr
  pub rest : List Expr
  pub scalar : IsScalar elem_type
  pub sized : length rest ≡ length (outer ∷ next ∷ sizes)

abbrev pub gep_of : Shape → Gep
gep_of s = record {
  pointee = some (arrays (s.outer ∷ s.next ∷ s.sizes) s.elem_type);
  first = s.first;
  rest = s.rest;
}

-- An element pointer with one index, which is the offset of the element that the reference has behind its first
-- index.
pub record IsFlat (env : ℕ → ℕ) (s : Shape) (g : Gep) : Type 0 where
  pub pointee : g.pointee ≡ some s.elem_type
  pub rest : g.rest ≡ []
  pub offset :
      eval env g.first ≡ gep_offset (s.outer ∷ s.next ∷ s.sizes) 0 (map (eval env) s.rest) % u64_mod

flatten_flat :
    (g : Gep) (t : IrType) → IsScalar t → g.pointee ≡ some t → flatten_indices (some g) ≡ ok none
unfolding flatten_indices flatten_sized get_decomposed_array_sizes
flatten_flat g t scalar e =
    ap (λ p. flatten_sized g (get_decomposed_array_sizes p)) e
    ∙ ap (flatten_sized g) (array_sizes-arrays [] t scalar)

-- Whether an access goes through an element pointer.
unfoldable pub goes_through : Ir → ℕ → Option ℕ → Bool
goes_through ir v none = false
goes_through ir v (some w) = v == w && ir.is_gep w

module _ (ir : Ir) (blocks : List ℕ) (env : ℕ → ℕ) (shape : ℕ → Shape) where
  -- The clone of an element pointer is as it was, or flat.
  abbrev IsStep : ℕ → Gep → Type 0
  IsStep v g = (g ≡ gep_of (shape v)) ⊎ IsFlat env (shape v) g

  flatten_step :
      (v : ℕ) (geps : ℕ → Gep)
      → ir.is_gep v ≡ true
      → is_outside ir blocks (some v) ≡ false
      → IsStep v (geps v)
      → (g : ℕ → Gep) × (flatten_access ir blocks (some v) geps ≡ ok g)
        × IsFlat env (shape v) (g v)
        × ((w : ℕ) → (w == v) ≡ false → g w ≡ geps w)
  unfolding flatten_access is_outside replace_gep as_gep pointee_of
  flatten_step v geps gep inside (inl e) =
      let s = shape v in
      let (f, ran, cast, elem, value) =
        flatten_offset env s.outer s.next s.sizes s.elem_type s.first s.rest s.scalar s.sized in
      let found : flatten_indices (some (geps v)) ≡ ok (some f) =
        ap (λ x. flatten_indices (some x)) e ∙ ran in
      (
        replace_gep geps v (some f),
        rw (gep, inside_entry ir blocks v gep inside, flatten_access, found) refl,
        rw (==_refl v) (record { pointee = ap pointee_of cast; rest = refl; offset = value }),
        λ w n. rw n refl,
      )
  flatten_step v geps gep inside (inr flat) =
      let s = shape v in
      (
        geps,
        rw
            (
              gep,
              inside_entry ir blocks v gep inside,
              flatten_access,
              flatten_flat (geps v) s.elem_type s.scalar flat.pointee,
            )
            refl,
        flat,
        λ w n. refl,
      )

  -- The loop, from clones that are as they were or flat.
  flatten_loop :
      (as' : List (Option ℕ)) (geps : ℕ → Gep)
      → any (is_outside ir blocks) as' ≡ false
      → ((v : ℕ) → IsStep v (geps v))
      → (g : ℕ → Gep) × (flatten_accesses ir blocks as' geps ≡ ok g)
        × ((v : ℕ)
            → (IsFlat env (shape v) (geps v) → IsFlat env (shape v) (g v))
              × (any (goes_through ir v) as' ≡ true → IsFlat env (shape v) (g v))
              × (any (goes_through ir v) as' ≡ false → g v ≡ geps v))
  unfolding flatten_accesses flatten_access goes_through
  flatten_loop [] geps inside steps = (geps, refl, λ v. (λ flat. flat, λ e. cc, λ e. refl))
  flatten_loop (none ∷ as') geps inside steps = flatten_loop as' geps (ground (arith, inside)) steps
  flatten_loop (some w ∷ as') geps inside steps = elim (Bool-cases (ir.is_gep w)) [
    | inl gep ↦
        let (g, ran, flat, others) = flatten_step w geps gep (ground (arith, inside)) (steps w) in
        let at_w = λ (v : ℕ) (here : (v == w) ≡ true).
          subst (λ x. IsFlat env (shape x) (g x)) (sym (==→≡ v w here)) flat in
        let (g', rest, law) = flatten_loop as' g (ground (arith, inside)) (λ v.
          elim (Bool-cases (v == w)) [
            | inl here ↦ inr (at_w v here)
            | inr away ↦ subst (IsStep v) (sym (others v away)) (steps v)
          ]) in
        (
          g',
          rw ran rest,
          λ v. elim (Bool-cases (v == w)) [
            | inl here ↦ (
              λ _. (law v).0 (at_w v here),
              λ _. (law v).0 (at_w v here),
              λ e. absurd (ground (arith, e, here, gep)),
            )
            | inr away ↦ (
              λ f. (law v).0 (subst (IsFlat env (shape v)) (sym (others v away)) f),
              λ e. (law v).1 (ground (arith, e, away)),
              λ e. (law v).2 (ground (arith, e, away)) ∙ others v away,
            )
          ],
        )
    | inr no_gep ↦
        let (g', rest, law) = flatten_loop as' geps (ground (arith, inside)) steps in
        (
          g',
          ground (arith, rest, no_gep),
          λ v. (
            (law v).0,
            λ e. (law v).1 (ground (arith, e, no_gep)),
            λ e. (law v).2 (ground (arith, e, no_gep)),
          ),
        )
  ]

  -- Where each element pointer that is accessed is of the region, and each is a reference through an array of two or more
  -- dimensions with an index for each, the loop returns: a reference that some access goes through, whether one or
  -- several, is flattened once, to the offset by rows modulo 2 ^ 64 behind its first index, and the others stay.
  pub flatten_accesses_lem :
      (as' : List (Option ℕ)) (v : ℕ)
      → any (is_outside ir blocks) as' ≡ false
      → (g : ℕ → Gep) × (flatten_accesses ir blocks as' (λ w. gep_of (shape w)) ≡ ok g)
        × ((any (goes_through ir v) as' ≡ true) × IsFlat env (shape v) (g v)
            ⊎ (any (goes_through ir v) as' ≡ false) × (g v ≡ gep_of (shape v)))
  flatten_accesses_lem as' v inside =
      let (g, ran, law) = flatten_loop as' (λ w. gep_of (shape w)) inside (λ w. inl refl) in
      (
        g,
        ran,
        elim (Bool-cases (any (goes_through ir v) as')) [
          | inl e ↦ inl (e, (law v).1 e)
          | inr e ↦ inr (e, (law v).2 e)
        ],
      )
