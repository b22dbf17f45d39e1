-- ===== src/Extractor/Maps.antt =====
-- What `mapInputsOutputs` promises: an input that is mapped has an index among the outputs.
use mathlib.Core.Path.{subst}
use mathlib.Core.List.{append_assoc}
use atrox.Prelude.{
  ℕ, suc, ◌+◌, ◌<◌, ◌≡◌, refl, sym, ◌∙◌, true, if◌then◌else◌, List, [], ◌∷◌, ◌==◌, ==→≡, ==_refl,
  some, length, contains, contains-append, ◌++◌, ◌⊎◌, lookup, assign, insert_sorted, replace,
  lookup-assign, All, Bool-cases, Option-cases, inl, inr, arith,
}
use atrox.Args.Directions.{is_bidirectional}
use atrox.Extractor.Regions.{
  Ir, Values, index_of, map_incoming, map_phis, map_outputs, map_inputs_outputs,
}

abbrev pub Maps : Type 0
Maps = List (ℕ × ℕ) × List (ℕ × ℕ)

abbrev pub HasIndex : List (ℕ × ℕ) → ℕ → Type 0
HasIndex io v = (i : ℕ) × (lookup io v ≡ some i)

index_of-lt-length : (xs : List ℕ) (v : ℕ) → contains xs v ≡ true → index_of xs v < length xs
unfolding index_of
index_of-lt-length [] v h = cc
index_of-lt-length (x ∷ xs) v h = ground (arith, index_of-lt-length xs v)

HasIndex-assign : (io : List (ℕ × ℕ)) (k i v : ℕ) → HasIndex io v → HasIndex (assign io k i) v
HasIndex-assign io k i v (j, e) = elim (Bool-cases (v == k)) [
  | inl y ↦ (i, lookup-assign io k i v ∙ rw y refl)
  | inr n ↦ (j, lookup-assign io k i v ∙ rw n e)
]

HasIndex-assign_self : (io : List (ℕ × ℕ)) (k i : ℕ) → HasIndex (assign io k i) k
HasIndex-assign_self io k i = (i, lookup-assign io k i k ∙ rw (==_refl k) refl)

module _ (P : ℕ × ℕ → Type 0) where
  All-insert_sorted :
      (m : List (ℕ × ℕ)) (k v : ℕ) → P (k, v) → All P m → All P (insert_sorted m k v)
  All-insert_sorted [] k v p h = (p, tt)
  All-insert_sorted (e ∷ m) k v p (a, h) = ground (arith, All-insert_sorted m k v p h)

  All-replace : (m : List (ℕ × ℕ)) (k v : ℕ) → P (k, v) → All P m → All P (replace m k v)
  All-replace [] k v p h = tt
  All-replace ((j, w) ∷ m) k v p (a, h) = elim (Bool-cases (k == j)) [
    | inl y ↦ rw y (subst (λ q. P (q, v)) (==→≡ k j y) p, h)
    | inr n ↦ rw n (a, All-replace m k v p h)
  ]

  All-assign : (m : List (ℕ × ℕ)) (k v : ℕ) → P (k, v) → All P m → All P (assign m k v)
  unfolding assign
  All-assign m k v p h = elim (Option-cases (lookup m k)) [
    | inl n ↦ rw (assign, n) (All-insert_sorted m k v p h)
    | inr (w, n) ↦ rw (assign, n) (All-replace m k v p h)
  ]

-- The outputs that are mapped, each to an input with an index.
abbrev IsPair : List ℕ → List (ℕ × ℕ) → ℕ × ℕ → Type 0
IsPair outputs io e = (contains outputs e.0 ≡ true) × HasIndex io e.1

pairs_later :
    (outputs : List ℕ) (io : List (ℕ × ℕ)) (k i : ℕ) (oi : List (ℕ × ℕ))
    → All (IsPair outputs io) oi
    → All (IsPair outputs (assign io k i)) oi
pairs_later outputs io k i [] h = tt
pairs_later outputs io k i (e ∷ oi) ((c, x), h) =
    ((c, HasIndex-assign io k i e.1 x), pairs_later outputs io k i oi h)

module _ (outputs : List ℕ) where
  record IsMapped (m : Maps) : Type 0 where
    in_range : (v i : ℕ) → lookup m.0 v ≡ some i → i < length outputs
    pairs : All (IsPair outputs m.0) m.1

  assign-IsMapped :
      (m : Maps) (v w i : ℕ)
      → contains outputs w ≡ true
      → i < length outputs
      → IsMapped m
      → IsMapped (assign m.0 v i, assign m.1 w v)
  assign-IsMapped m v w i c lt h = record {
    in_range = λ x j e. elim (Bool-cases (x == v)) [
      | inl y ↦
          let a = sym (lookup-assign m.0 v i x) ∙ e in
          let own : some i ≡ some j =
            subst (λ b. (if b then some i else lookup m.0 x) ≡ some j) y a in
          ground arith
      | inr n ↦
          let a = sym (lookup-assign m.0 v i x) ∙ e in
          h.in_range x j (subst (λ b. (if b then some i else lookup m.0 x) ≡ some j) n a)
    ];
    pairs =
        All-assign (IsPair outputs (assign m.0 v i)) m.1 w v (c, HasIndex-assign_self m.0 v i)
          (pairs_later outputs m.0 v i m.1 h.pairs);
  }

  module _ (ir : Ir) where
    map_incoming-IsMapped :
        (v : ℕ) (m : Maps) (ws : List ℕ) → IsMapped m → IsMapped (map_incoming ir outputs v m ws)
    unfolding map_incoming
    map_incoming-IsMapped v m [] h = h
    map_incoming-IsMapped v (io, oi) (w ∷ ws) h = elim (Bool-cases (contains outputs w)) [
      | inl y ↦ rw y (
          map_incoming-IsMapped v (assign io v (index_of outputs w), assign oi w v) ws
            (assign-IsMapped (io, oi) v w (index_of outputs w) y (index_of-lt-length outputs w y)
              h))
      | inr n ↦ rw n (map_incoming-IsMapped v (io, oi) ws h)
    ]

    map_phis-IsMapped : (m : Maps) (vs : List ℕ) → IsMapped m → IsMapped (map_phis ir outputs m vs)
    unfolding map_phis
    map_phis-IsMapped m [] h = h
    map_phis-IsMapped m (v ∷ vs) h = elim (Bool-cases (ir.is_phi v)) [
      | inl y ↦ rw y (
          map_phis-IsMapped (map_incoming ir outputs v m (ir.incoming v)) vs
            (map_incoming-IsMapped v m (ir.incoming v) h))
      | inr n ↦ rw n (map_phis-IsMapped m vs h)
    ]

    map_outputs-IsMapped :
        (inputs : List ℕ) (n : ℕ) (m : Maps) (ws : List ℕ)
        → n + length ws ≡ length outputs
        → All (λ w. contains outputs w ≡ true) ws
        → IsMapped m
        → IsMapped (map_outputs ir inputs n m ws)
    unfolding map_outputs
    map_outputs-IsMapped inputs n m [] e c h = h
    map_outputs-IsMapped inputs n (io, oi) (w ∷ ws) e (c, cs) h =
        let lt : n < length outputs = omega arith in
        let e' : suc n + length ws ≡ length outputs = omega arith in
        elim (Bool-cases (contains inputs w)) [
          | inl y ↦ rw y (
              map_outputs-IsMapped inputs (suc n) (assign io w n, assign oi w w) ws e' cs
                (assign-IsMapped (io, oi) w w n c lt h))
          | inr k ↦ rw k (map_outputs-IsMapped inputs (suc n) (io, oi) ws e' cs h)
        ]

any-HasIndex :
    (outputs : List ℕ) (io : List (ℕ × ℕ)) (v : ℕ) (oi : List (ℕ × ℕ))
    → All (IsPair outputs io) oi
    → is_bidirectional v oi ≡ true
    → (contains outputs v ≡ true) ⊎ HasIndex io v
unfolding is_bidirectional
any-HasIndex outputs io v [] h b = absurd cc
any-HasIndex outputs io v ((o, i) ∷ oi) ((c, x), h) b = elim (Bool-cases (o == v)) [
  | inl y ↦ inl (subst (λ q. contains outputs q ≡ true) (==→≡ o v y) c)
  | inr n ↦ elim (Bool-cases (i == v)) [
    | inl y ↦ inr (subst (HasIndex io) (==→≡ i v y) x)
    | inr k ↦ any-HasIndex outputs io v oi h (ground arith)
  ]
]

module _ (ir : Ir) (inputs : List ℕ) where
  map_outputs-keeps :
      (n : ℕ) (m : Maps) (ws : List ℕ) (v : ℕ)
      → HasIndex m.0 v
      → HasIndex (map_outputs ir inputs n m ws).0 v
  unfolding map_outputs
  map_outputs-keeps n m [] v h = h
  map_outputs-keeps n (io, oi) (w ∷ ws) v h = elim (Bool-cases (contains inputs w)) [
    | inl y ↦
        rw y (
          map_outputs-keeps (suc n) (assign io w n, assign oi w w) ws v
            (HasIndex-assign io w n v h))
    | inr k ↦ rw k (map_outputs-keeps (suc n) (io, oi) ws v h)
  ]

  map_outputs-reaches :
      (n : ℕ) (m : Maps) (ws : List ℕ) (v : ℕ)
      → contains inputs v ≡ true
      → contains ws v ≡ true
      → HasIndex (map_outputs ir inputs n m ws).0 v
  unfolding map_outputs
  map_outputs-reaches n m [] v i c = absurd cc
  map_outputs-reaches n (io, oi) (w ∷ ws) v i c = elim (Bool-cases (v == w)) [
    | inl y ↦
        let e = ==→≡ v w y in
        let k : contains inputs w ≡ true = subst (λ q. contains inputs q ≡ true) e i in
        rw k (
          map_outputs-keeps (suc n) (assign io w n, assign oi w w) ws v
            (subst (HasIndex (assign io w n)) (sym e) (HasIndex-assign_self io w n)))
    | inr k ↦
        map_outputs-reaches (suc n)
          (if contains inputs w then (assign io w n, assign oi w w) else (io, oi)) ws v i
          (ground arith)
  ]

All-contains_append : (zs xs : List ℕ) → All (λ w. contains (zs ++ xs) w ≡ true) xs
All-contains_append zs [] = tt
All-contains_append zs (x ∷ xs) = (
  (let e = contains-append zs (x ∷ xs) x in ground (arith, ==_refl x)),
  subst (λ q. All (λ w. contains q w ≡ true) xs) (append_assoc zs (x ∷ []) xs)
      (All-contains_append (zs ++ x ∷ []) xs),
)

-- Starting from empty maps, an input that `mapInputsOutputs` makes bidirectional has an index, and it is the index of an output.
pub mapped_inputs_lem :
    (ir : Ir) (s : Values) (v : ℕ)
    → contains s.inputs v ≡ true
    → is_bidirectional v (map_inputs_outputs ir s ([], [])).1 ≡ true
    → (i : ℕ) × (lookup (map_inputs_outputs ir s ([], [])).0 v ≡ some i) × (i < length s.outputs)
unfolding map_inputs_outputs
mapped_inputs_lem ir s v c b =
    let start : IsMapped s.outputs ([], []) = record {
      in_range = λ v i e. absurd cc;
      pairs = tt;
    } in
    let m = map_phis ir s.outputs ([], []) s.inputs in
    let mapped : IsMapped s.outputs (map_outputs ir s.inputs 0 m s.outputs) =
      map_outputs-IsMapped s.outputs ir s.inputs 0 m s.outputs (omega arith)
        (All-contains_append [] s.outputs)
        (map_phis-IsMapped s.outputs ir ([], []) s.inputs start) in
    elim (any-HasIndex s.outputs (map_outputs ir s.inputs 0 m s.outputs).0 v
      (map_outputs ir s.inputs 0 m s.outputs).1 mapped.pairs b) [
        | inl o ↦
            let (i, e) = map_outputs-reaches ir s.inputs 0 m s.outputs v c o in
            (i, e, mapped.in_range v i e)
        | inr (i, e) ↦ (i, e, mapped.in_range v i e)
      ]
