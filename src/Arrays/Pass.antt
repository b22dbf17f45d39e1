-- ===== src/Arrays/Pass.antt =====
-- `DecomposeMultiDimArrayRefsPass::perform` of `lib/Transforms/Passes/DecomposeMultiDimArrayRefsPass.cpp`. Which values are element
-- pointers is the parameter `gep_of`; a rewritten one is replaced in all its uses by one with a single index.
use Prim.Native.String.{String}
use atrox.Prelude.{
  ℕ, ap, ◌∙◌, ◌||◌, sym, ◌≡◌, refl, Bool, true, false, if◌then◌else◌, List, [], ◌∷◌, ◌++◌, Option,
  some, none, map, select, contains, Result, ok, ◌>>=◌, arith, Bool-cases, Option-cases, inl, inr,
  contains-append, ==→≡, ==_refl,
}
use atrox.Functions.{Function, is_skipped}
use atrox.Access.MemAccInst.{Inst, MemAccInst, isa, get_pointer_operand, visit}
use atrox.Access.Proxies.{visit_lem}
use atrox.Args.Order.{IsDistinct, is_nonempty}
use atrox.Arrays.Flatten.{Gep}
use atrox.Arrays.Decompose.{Step, decompose}

module _ (gep_of : ℕ → Option Gep) where
  -- The element pointer that stands for an operand, after some were rewritten. What the pointer operand of a new one
  -- points to is not read.
  unfoldable pub gep_at : List ℕ → ℕ → Option Gep
  gep_at rewritten p = elim (gep_of p) [
    | none ↦ none
    | some g ↦
        if contains rewritten p
        then some (record { pointee = none; first = g.first; rest = [] })
        else some g
  ]

  -- One access, by its pointer operand: `hasChanged`, and the element pointers that were rewritten.
  unfoldable pub rewrite_at : Bool × List ℕ → ℕ → Result (Bool × List ℕ)
  unfolding gep_at
  rewrite_at s p = elim (gep_at s.1 p) [
    | none ↦ ok s
    | some g ↦
        decompose (some g) >>= λ r. elim r [ none ↦ ok s | some steps ↦ ok (true, s.1 ++ p ∷ []) ]
  ]

  unfoldable pub rewrite_access : Bool × List ℕ → MemAccInst → Result (Bool × List ℕ)
  unfolding rewrite_at
  rewrite_access s e = get_pointer_operand e >>= rewrite_at s

  unfoldable pub rewrite_accesses : Bool × List ℕ → List MemAccInst → Result (Bool × List ℕ)
  unfolding rewrite_access
  rewrite_accesses s [] = ok s
  rewrite_accesses s (e ∷ es) = rewrite_access s e >>= λ t. rewrite_accesses t es

  unfoldable pub perform : Option (List String) → Function → List Inst → Result (Bool × List ℕ)
  unfolding rewrite_accesses
  perform white_list function instructions =
      if is_skipped white_list function
      then ok (false, [])
      else (visit [] instructions >>= λ accesses. rewrite_accesses (false, []) accesses)

IsDistinct-concat :
    (xs : List ℕ) (a : ℕ) → IsDistinct xs → contains xs a ≡ false → IsDistinct (xs ++ a ∷ [])
IsDistinct-concat [] a d n = (refl, tt)
IsDistinct-concat (x ∷ xs) a (m, d) n =
    let e = contains-append xs (a ∷ []) x in
    (ground (arith, ==→≡ x a, ==_refl a), IsDistinct-concat xs a d (ground arith))

is_nonempty-concat : (xs : List ℕ) (a : ℕ) → is_nonempty (xs ++ a ∷ []) ≡ true
is_nonempty-concat [] a = refl
is_nonempty-concat (x ∷ xs) a = refl

pointer_known : (i : Inst) → isa i ≡ true → (p : ℕ) × (get_pointer_operand (some i) ≡ ok p)
unfolding isa get_pointer_operand
pointer_known i y = elim (Bool-cases (i.is_load || i.is_store)) [
  | inl access ↦ (i.pointer_operand, ground arith)
  | inr other ↦ elim (Bool-cases i.is_mem_intrinsic) [
    | inl m ↦ (i.raw_dest, ground arith)
    | inr n ↦ (0, ground arith)
  ]
]

-- What holds of the state of the pass.
abbrev IsRecorded : Bool × List ℕ → Type 0
IsRecorded s = IsDistinct s.1 × (s.0 ≡ is_nonempty s.1)

module _ (gep_of : ℕ → Option Gep)
    (total : (p : ℕ) (g : Gep)
      → gep_of p ≡ some g
      → (r : Option (List Step)) × (decompose (some g) ≡ ok r)) where
  at-IsRecorded :
      (s : Bool × List ℕ) (p : ℕ)
      → IsRecorded s
      → (t : Bool × List ℕ) × (rewrite_at gep_of s p ≡ ok t) × IsRecorded t
  unfolding rewrite_at gep_at decompose
  at-IsRecorded s p h = elim (Option-cases (gep_of p)) [
    | inl n ↦ (s, rw (rewrite_at, gep_at, n) refl, h)
    | inr (g, n) ↦ elim (Bool-cases (contains s.1 p)) [
      | inl old ↦ (s, rw (rewrite_at, gep_at, n, old) refl, h)
      | inr new ↦
          let (r, d) = total p g n in
          elim (Option-cases r) [
            | inl z ↦ (s, rw (rewrite_at, gep_at, n, new) (rw (d, z) refl), h)
            | inr (steps, z) ↦ (
              (true, s.1 ++ p ∷ []),
              rw (rewrite_at, gep_at, n, new) (rw (d, z) refl),
              (IsDistinct-concat s.1 p h.0 new, sym (is_nonempty-concat s.1 p)),
            )
          ]
    ]
  ]

  access-IsRecorded :
      (s : Bool × List ℕ) (i : Inst)
      → isa i ≡ true
      → IsRecorded s
      → (t : Bool × List ℕ) × (rewrite_access gep_of s (some i) ≡ ok t) × IsRecorded t
  unfolding rewrite_access
  access-IsRecorded s i y h =
      let (p, e) = pointer_known i y in
      let (t, e', k) = at-IsRecorded s p h in (t, ap (λ m. m >>= rewrite_at gep_of s) e ∙ e', k)

  accesses-IsRecorded :
      (s : Bool × List ℕ) (is' : List Inst)
      → IsRecorded s
      → (t : Bool × List ℕ) × (rewrite_accesses gep_of s (map some (select isa is')) ≡ ok t)
        × IsRecorded t
  unfolding rewrite_accesses
  accesses-IsRecorded s [] h = (s, refl, h)
  accesses-IsRecorded s (i ∷ is') h = elim (Bool-cases (isa i)) [
    | inl y ↦
        let (t, e, k) = access-IsRecorded s i y h in
        let (u, e', k') = accesses-IsRecorded t is' k in (u, rw (y, rewrite_accesses, e) e', k')
    | inr n ↦ rw n (accesses-IsRecorded s is' h)
  ]

  -- Where the rewriting of each element pointer returns, the pass returns for every function; it rewrites each
  -- element pointer at most once, and reports a change exactly if it rewrote one.
  pub rewrites_once :
      (white_list : Option (List String)) (function : Function) (instructions : List Inst)
      → (t : Bool × List ℕ) × (perform gep_of white_list function instructions ≡ ok t)
        × IsDistinct t.1
        × (t.0 ≡ is_nonempty t.1)
  unfolding perform
  rewrites_once white_list function instructions =
      elim (Bool-cases (is_skipped white_list function)) [
        | inl y ↦ ((false, []), rw (perform, y) refl, tt, refl)
        | inr n ↦
            let (t, e, k) = accesses-IsRecorded (false, []) instructions (tt, refl) in
            (t, rw (perform, n, visit_lem instructions) e, k.0, k.1)
      ]
