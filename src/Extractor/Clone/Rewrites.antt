-- ===== src/Extractor/Clone/Rewrites.antt =====
-- The loops of `cloneFunction` over the bidirectional inputs, the slots and the stores of the exit block.
use mathlib.Core.Path.{subst}
use atrox.Prelude.{
  ==→≡, ℕ, zero, suc, ◌+◌, ◌<◌, ◌≤◌, ◌≡◌, refl, sym, Bool, true, false, ◌&&◌, List, [], ◌∷◌, ◌++◌,
  ◌==◌, length, get_elem?, contains, All, All-append, Option, some, ok, Bool-cases, inl, inr, arith,
}
use atrox.Args.Directions.{is_bidirectional}
use atrox.Extractor.Regions.{Ir}
use atrox.Extractor.Stack.{Slots}
use atrox.Extractor.Prepare.{Prepared}
use atrox.Extractor.Prepared.Slots.{IsInitialised}
use atrox.Extractor.Clone.{
  original, argument, loaded_argument, loaded_slot, load_argument, Rewritten, ExitStore,
  replace_uses, emit, out_argument, use_argument, bidirectional_args, slot_init, read_init,
  slot_insts, slot_args, store_of, exit_stores,
}
use atrox.Extractor.Clone.Operands.{AllFine, Other, replace_uses-AllFine, AllFine-weaken}

pub get_elem?-lt {ℓ} :
    {A : Type ℓ} (xs : List A) (i : ℕ) → i < length xs → (x : A) × (get_elem? xs i ≡ some x)
get_elem?-lt [] i h = absurd (omega arith)
get_elem?-lt (x ∷ xs) zero h = (x, refl)
get_elem?-lt (x ∷ xs) (suc i) h = get_elem?-lt xs i (omega arith)

module _ (ir : Ir) (is_pointer : ℕ → Bool) (blocks : List ℕ) (count : ℕ) (p : Prepared) where
  -- The outputs have an argument for a bidirectional input.
  abbrev pub HasArgument : ℕ → Type 0
  HasArgument v =
      is_bidirectional v p.output_to_input ≡ true
      → (w n : ℕ) × (out_argument count p v ≡ ok (w, n))
        × (n < count)
        × (contains p.outputs w ≡ true)

  bidirectional_other :
      (v x : ℕ) (vs : List ℕ)
      → (x == v) ≡ true
      → is_bidirectional v p.output_to_input ≡ false
      → (contains (v ∷ vs) x && is_bidirectional x p.output_to_input) ≡ false
  bidirectional_other v x vs z k =
      ground (arith, subst (λ q. is_bidirectional q p.output_to_input ≡ false) (sym (==→≡ x v z)) k)

  module _ (slots : ℕ) where
    use_argument-AllFine :
        (R S : ℕ → Type 0) (v w n : ℕ) (s : Rewritten)
        → n < count
        → ((u : ℕ) → R u → (u == v) ≡ false → S u)
        → AllFine ir blocks count slots R s.region
        → AllFine ir blocks count slots S (use_argument is_pointer count p v s (w, n)).region
    unfolding use_argument emit
    use_argument-AllFine R S v w n s lt f h = elim (Bool-cases (is_pointer w)) [
      | inl y ↦ rw y (replace_uses-AllFine ir blocks count slots R S v (argument n) lt f s h)
      | inr k ↦ rw k (
          replace_uses-AllFine ir blocks count slots R S v (loaded_argument n) lt f
            (emit (load_argument n ∷ []) s) h)
    ]

    pub bidirectional_args-AllFine :
        (R S : ℕ → Type 0) (vs : List ℕ) (s : Rewritten)
        → All HasArgument vs
        → ((u : ℕ) → R u → (contains vs u && is_bidirectional u p.output_to_input) ≡ false → S u)
        → AllFine ir blocks count slots R s.region
        → (t : Rewritten) × (bidirectional_args is_pointer count p vs s ≡ ok t)
          × AllFine ir blocks count slots S t.region
    unfolding bidirectional_args
    bidirectional_args-AllFine R S [] s a f h =
        (s, refl, AllFine-weaken ir blocks count slots R S (λ u r. f u r refl) s.region h)
    bidirectional_args-AllFine R S (v ∷ vs) s (a, as') f h =
        elim (Bool-cases (is_bidirectional v p.output_to_input)) [
          | inl y ↦
              let (w, n, e, lt, _) = a y in
              let u = use_argument is_pointer count p v s (w, n) in
              let (t, e', h') =
                bidirectional_args-AllFine (Other ir blocks count slots R v) S vs u as'
                  (λ x (r, o) c. f x r (ground arith))
                  (use_argument-AllFine R (Other ir blocks count slots R v) v w n s lt
                    (λ x r o. (r, o)) h) in
              (t, rw (y, e) e', h')
          | inr k ↦
              let (t, e', h') =
                bidirectional_args-AllFine R S vs s as'
                  (λ x r c. f x r (elim (Bool-cases (x == v)) [
                    | inl z ↦ bidirectional_other v x vs z k
                    | inr z ↦ ground arith
                  ]))
                  h in
              (t, rw k e', h')
        ]

  -- What the new function has to store: a value with an argument.
  abbrev pub IsStored : ExitStore → Type 0
  IsStored s =
      (s.pointer < count)
      × (w : ℕ) × (s.value ≡ original w)
      × (contains p.outputs w ≡ true)
      × (is_pointer w ≡ false)

  store_of-IsStored :
      (w n : ℕ)
      → n < count
      → contains p.outputs w ≡ true
      → All IsStored (store_of is_pointer count p (w, n))
  unfolding store_of
  store_of-IsStored w n lt c = elim (Bool-cases (is_pointer w)) [
    | inl y ↦ rw y tt
    | inr k ↦ rw k ((lt, w, refl, c, k), tt)
  ]

  pub exit_stores-IsStored :
      (vs : List ℕ)
      → All HasArgument vs
      → (ss : List ExitStore) × (exit_stores is_pointer count p vs ≡ ok ss) × All IsStored ss
  unfolding exit_stores
  exit_stores-IsStored [] a = ([], refl, tt)
  exit_stores-IsStored (v ∷ vs) (a, as') =
      let (rest, e', h') = exit_stores-IsStored vs as' in
      elim (Bool-cases (is_bidirectional v p.output_to_input)) [
        | inl y ↦
            let (w, n, e, lt, c) = a y in
            let ss = store_of is_pointer count p (w, n) in
            (
              ss ++ rest,
              rw (y, e, e') refl,
              All-append IsStored ss rest (store_of-IsStored w n lt c) h',
            )
        | inr k ↦ (rest, rw (k, e') refl, h')
      ]

read_init-ok :
    (xs : List (Option ℕ)) (i n : ℕ)
    → n ≤ length xs
    → i < n
    → (o : Option ℕ) × (read_init xs i ≡ ok o)
unfolding read_init
read_init-ok [] i n le lt = absurd (omega arith)
read_init-ok (x ∷ xs) i n le lt =
    let (o, g) = get_elem?-lt (x ∷ xs) i (omega arith) in (o, rw (read_init, g) refl)

module _ (ir : Ir) (blocks : List ℕ) (count : ℕ) (slots : Slots) where
  pub slot_args-AllFine :
      (R S : ℕ → Type 0) (i : ℕ) (vs : List ℕ) (s : Rewritten)
      → IsInitialised slots
      → i + length vs ≤ length slots.stack_allocas
      → ((u : ℕ) → R u → contains vs u ≡ false → S u)
      → AllFine ir blocks count (length slots.stack_allocas) R s.region
      → (t : Rewritten) × (slot_args slots i vs s ≡ ok t)
        × AllFine ir blocks count (length slots.stack_allocas) S t.region
  unfolding slot_args slot_init emit
  slot_args-AllFine R S i [] s init le f h = (
    s,
    refl,
    AllFine-weaken ir blocks count (length slots.stack_allocas) R S (λ u r. f u r refl) s.region h,
  )
  slot_args-AllFine R S i (v ∷ vs) s init le f h =
      let lt : i < length slots.stack_allocas = omega arith in
      let (o, g) = read_init-ok slots.stack_alloca_inits i (length slots.stack_allocas) init lt in
      let x = replace_uses v (loaded_slot i) (emit (slot_insts v i o) s) in
      let other = Other ir blocks count (length slots.stack_allocas) R v in
      let (t, e, h') =
        slot_args-AllFine other S (suc i) vs x init (omega arith)
          (λ u (r, o) c. f u r (ground arith))
          (replace_uses-AllFine ir blocks count (length slots.stack_allocas) R other v
            (loaded_slot i) lt (λ u r o. (r, o)) (emit (slot_insts v i o) s) h) in
      (t, rw g e, h')
