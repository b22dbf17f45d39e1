-- ===== src/Extractor/Blocks/Visits.antt =====
-- What the search for block addresses finds.
use mathlib.Core.Path.{subst}
use atrox.Prelude.{
  ℕ, zero, suc, ◌+◌, ◌≤◌, ◌≡◌, refl, sym, ap, ◌∙◌, Bool, true, false, ◌||◌, List, [], ◌∷◌, ◌++◌,
  reverse, length, length-append, ◌==◌, ==→≡, ==_refl, contains, contains-append, ok, Bool-cases,
  inl, inr, arith,
}
use atrox.Extractor.Blocks.Reaches.{
  contains-reverse, length-reverse, Reaches, start, step, pending, pending-visit,
}
use atrox.Extractor.Blocks.{BlockCode, is_foreign, visit_users, all_operands}

module _ (code : BlockCode) (bb : ℕ) where
  open code use {instructions, is_block_address, operands, users}

  -- The state of the search: what is on the stack is reached, and what was visited is no block address and has its
  -- operands visited or on the stack.
  record IsSearch (visited vs : List ℕ) : Type 0 where
    listed : (v : ℕ) → contains vs v ≡ true → contains users v ≡ true
    reached : (v : ℕ) → contains vs v ≡ true → Reaches code bb v
    clean : (v : ℕ) → contains visited v ≡ true → is_block_address v ≡ false
    closed :
        (v w : ℕ)
        → contains visited v ≡ true
        → is_foreign code bb v ≡ false
        → contains (operands v) w ≡ true
        → (contains visited w || contains vs w) ≡ true
    covers :
        (v : ℕ) → contains (instructions bb) v ≡ true → (contains visited v || contains vs v) ≡ true

  -- At the end everything that is reached was visited.
  end-visited :
      (visited : List ℕ)
      → IsSearch visited []
      → (v : ℕ) → Reaches code bb v
      → contains visited v ≡ true
  end-visited visited s v (start c) = (let h = s.covers v c in ground arith)
  end-visited visited s w (step {v} r f c) =
      let h = s.closed v w (end-visited visited s v r) f c in ground arith

  -- What the search answers.
  abbrev pub Answers : Bool → Type 0
  Answers true = (v : ℕ) → Reaches code bb v → is_block_address v ≡ false
  Answers false = (v : ℕ) × Reaches code bb v × (is_block_address v ≡ true)

  -- The popped user was visited before.
  push_out :
      (visited vs : List ℕ) (v w : ℕ)
      → contains visited v ≡ true
      → (contains visited w || contains (v ∷ vs) w) ≡ true
      → (contains visited w || contains vs w) ≡ true
  push_out visited vs v w n h = elim (Bool-cases (w == v)) [
    | inl y ↦
        let m : contains visited w ≡ true =
          subst (λ q. contains visited q ≡ true) (sym (==→≡ w v y)) n in
        rw m refl
    | inr k ↦ ground arith
  ]

  pop-IsSearch :
      (visited vs : List ℕ) (v : ℕ)
      → contains visited v ≡ true
      → IsSearch visited (v ∷ vs)
      → IsSearch visited vs
  pop-IsSearch visited vs v n s = record {
    listed = λ x c. s.listed x (ground arith);
    reached = λ x c. s.reached x (ground arith);
    clean = s.clean;
    closed = λ x w m f c. push_out visited vs v w n (s.closed x w m f c);
    covers = λ x c. push_out visited vs v x n (s.covers x c);
  }

  module _
      (complete : (v w : ℕ)
        → contains users v ≡ true
        → contains (operands v) w ≡ true
        → contains users w ≡ true) where
    foreign-IsSearch :
        (visited vs : List ℕ) (v : ℕ)
        → is_block_address v ≡ false
        → is_foreign code bb v ≡ true
        → IsSearch visited (v ∷ vs)
        → IsSearch (v ∷ visited) vs
    foreign-IsSearch visited vs v n f s = record {
      listed = λ x c. s.listed x (ground arith);
      reached = λ x c. s.reached x (ground arith);
      clean = λ x c. elim (Bool-cases (x == v)) [
        | inl y ↦ subst (λ q. is_block_address q ≡ false) (sym (==→≡ x v y)) n
        | inr k ↦ s.clean x (ground arith)
      ];
      closed = λ x w m g c. elim (Bool-cases (x == v)) [
        | inl y ↦ absurd (let g' = subst (λ q. is_foreign code bb q ≡ false) (==→≡ x v y) g in cc)
        | inr k ↦ (let h = s.closed x w (ground arith) g c in ground arith)
      ];
      covers = λ x c. (let h = s.covers x c in ground arith);
    }

    own-IsSearch :
        (visited vs : List ℕ) (v : ℕ)
        → is_block_address v ≡ false
        → is_foreign code bb v ≡ false
        → IsSearch visited (v ∷ vs)
        → IsSearch (v ∷ visited) (reverse (operands v) ++ vs)
    own-IsSearch visited vs v n f s =
        let here : contains (v ∷ vs) v ≡ true = ground (arith, ==_refl v) in
        let split : (x : ℕ)
            → contains (reverse (operands v) ++ vs) x ≡ (contains (operands v) x || contains vs x) =
          λ x.
            contains-append (reverse (operands v)) vs x
            ∙ (ground (arith, contains-reverse (operands v) x)) in
        record {
          listed = λ x c. elim (Bool-cases (contains (operands v) x)) [
            | inl y ↦ complete v x (s.listed v here) y
            | inr k ↦ s.listed x (let e = split x in ground arith)
          ];
          reached = λ x c. elim (Bool-cases (contains (operands v) x)) [
            | inl y ↦ step (s.reached v here) f y
            | inr k ↦ s.reached x (let e = split x in ground arith)
          ];
          clean = λ x c. elim (Bool-cases (x == v)) [
            | inl y ↦ subst (λ q. is_block_address q ≡ false) (sym (==→≡ x v y)) n
            | inr k ↦ s.clean x (ground arith)
          ];
          closed = λ x w m g c. elim (Bool-cases (x == v)) [
            | inl y ↦
                let c' = subst (λ q. contains (operands q) w ≡ true) (==→≡ x v y) c in
                let e = split w in ground arith
            | inr k ↦ (let h = s.closed x w (ground arith) g c in let e = split w in ground arith)
          ];
          covers = λ x c. (let h = s.covers x c in let e = split x in ground arith);
        }

    visit_users-Answers :
        (fuel : ℕ) (visited vs : List ℕ)
        → length vs + pending code bb visited users ≤ fuel
        → IsSearch visited vs
        → (b : Bool) × (visit_users code bb fuel visited vs ≡ ok b) × Answers b
    unfolding visit_users
    visit_users-Answers fuel visited [] le s =
        (true, refl, λ v r. s.clean v (end-visited visited s v r))
    visit_users-Answers zero visited (v ∷ vs) le s = absurd (omega arith)
    visit_users-Answers (suc fuel) visited (v ∷ vs) le s = elim (Bool-cases (contains visited v)) [
      | inl y ↦
          let (b, e, a) =
            visit_users-Answers fuel visited vs (omega arith) (pop-IsSearch visited vs v y s) in
          (b, rw (visit_users, y) e, a)
      | inr n ↦
          let here : contains (v ∷ vs) v ≡ true = ground (arith, ==_refl v) in
          let less = pending-visit code bb visited users v (s.listed v here) n in
          elim (Bool-cases (is_block_address v)) [
            | inl y ↦ (false, rw (visit_users, n, y) refl, (v, s.reached v here, y))
            | inr k ↦ elim (Bool-cases (is_foreign code bb v)) [
              | inl f ↦
                  let (b, e, a) =
                    visit_users-Answers fuel (v ∷ visited) vs (omega arith)
                      (foreign-IsSearch visited vs v k f s) in
                  (b, rw (visit_users, n, k, f) e, a)
              | inr f ↦
                  let len = length-append (reverse (operands v)) vs in
                  let len' = length-reverse (operands v) in
                  let (b, e, a) =
                    visit_users-Answers fuel (v ∷ visited) (reverse (operands v) ++ vs)
                      (omega arith) (own-IsSearch visited vs v k f s) in
                  (b, rw (visit_users, n, k, f) e, a)
            ]
          ]
    ]

    pending-all : (us : List ℕ) → pending code bb [] us ≡ all_operands code us
    unfolding all_operands
    pending-all [] = refl
    pending-all (u ∷ us) = ap (λ q. length (operands u) + q) (pending-all us)

    -- The fuel is enough, and the search says whether no block address is reached.
    pub search_lem :
        ((v : ℕ) → contains (instructions bb) v ≡ true → contains users v ≡ true)
        → (b : Bool) × (visit_users code bb
              (length (instructions bb) + all_operands code users)
              []
              (reverse (instructions bb))
            ≡ ok b)
          × Answers b
    search_lem own =
        let len = length-reverse (instructions bb) in
        let all = pending-all users in
        visit_users-Answers (length (instructions bb) + all_operands code users) []
          (reverse (instructions bb)) (omega arith)
          (record {
            listed = λ v c. own v (sym (contains-reverse (instructions bb) v) ∙ c);
            reached = λ v c. start (sym (contains-reverse (instructions bb) v) ∙ c);
            clean = λ v c. absurd cc;
            closed = λ v w m f c. absurd cc;
            covers = λ v c. contains-reverse (instructions bb) v ∙ c;
          })
