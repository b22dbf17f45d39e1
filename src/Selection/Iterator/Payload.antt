-- ===== src/Selection/Iterator/Payload.antt =====
-- What `IteratorRecognitionSelector` selects.
use atrox.Prelude.{
  ℕ, ◌≡◌, refl, ap, ◌⊎◌, inl, inr, Bool, true, false, not, ◌&&◌, List, [], ◌∷◌, ◌++◌, some, none,
  arith, if◌then◌else◌, ◌==◌, contains, erase, contains-erase, contains-insert, contains-insert_all,
  ==→≡, ==_refl, Option-cases, Bool-cases,
}
use atrox.Llvm.{LoopInfo}
use atrox.Recognition.{IteratorInfo, IteratorRecognitionInfo}
use atrox.Selection.Iterator.{remove_all, consider, consider_all, candidates, calculate}

contains-remove_all :
    (xs bs : List ℕ) (a : ℕ)
    → contains (remove_all xs bs) a ≡ (if contains bs a then false else contains xs a)
unfolding remove_all
contains-remove_all xs [] a = refl
contains-remove_all xs (b ∷ bs) a =
    ground (arith, contains-remove_all (erase xs b) bs a, contains-erase xs b a)

module _ (li : LoopInfo) (info : IteratorInfo) (l : ℕ) where
  open li use {header, latches, rpo, is_loop_header, loop_for}

  -- A candidate is a block of the loop that is neither its header nor a latch.
  pub contains-candidates :
      (x : ℕ)
      → contains (candidates li l) x ≡ (
          if contains (latches l) x
          then false
          else if x == header l
          then false
          else contains (rpo l) x)
  unfolding candidates
  contains-candidates x = ground (
    arith,
    contains-remove_all (erase (rpo l) (header l)) (latches l) x,
    contains-erase (rpo l) (header l) x,
  )

  -- An inner loop is taken whole where all of it is payload.
  abbrev pub is_payload_loop : ℕ → Bool
  is_payload_loop bb = is_loop_header bb && info.has_payload_only_blocks (loop_for bb)

  -- A block that ends the selection.
  abbrev pub is_mixed : ℕ → Bool
  is_mixed bb =
      if is_loop_header bb
      then not (info.has_payload_only_blocks (loop_for bb))
      else not (contains (info.payload_only_blocks l) bb)

  -- Why a block may be selected, on the way through some candidates.
  abbrev pub Selectable : List ℕ → ℕ → Type 0
  Selectable bs x =
      (contains bs x ≡ true) × (contains (info.payload_only_blocks l) x ≡ true)
      ⊎ ((h : ℕ) × (contains bs h ≡ true)
          × (is_payload_loop h ≡ true)
          × (contains (rpo (loop_for h)) x ≡ true))

  Selectable-cons : (b : ℕ) (bs : List ℕ) (x : ℕ) → Selectable bs x → Selectable (b ∷ bs) x
  Selectable-cons b bs x (inl (m, p)) = inl (ground arith, p)
  Selectable-cons b bs x (inr (h, m, p, c)) = inr (h, ground arith, p, c)

  -- What one block adds.
  consider_adds :
      (sel sel' : List ℕ) (b x : ℕ)
      → (b == header l) ≡ false
      → consider li info l sel b ≡ some sel'
      → contains sel' x ≡ true
      → (contains sel x ≡ true)
        ⊎ (x ≡ b) × (contains (info.payload_only_blocks l) b ≡ true)
        ⊎ (is_payload_loop b ≡ true) × (contains (rpo (loop_for b)) x ≡ true)
  unfolding consider
  consider_adds sel sel' b x off e c =
      ground
        (arith, contains-insert sel b x, contains-insert_all sel (rpo (loop_for b)) x, ==→≡ x b)

  -- What it keeps, and that it takes the block itself.
  consider_keeps :
      (sel sel' : List ℕ) (b x : ℕ)
      → contains (rpo (loop_for b)) b ≡ true
      → consider li info l sel b ≡ some sel'
      → (contains sel' b ≡ true) × (contains sel x ≡ true → contains sel' x ≡ true)
  unfolding consider
  consider_keeps sel sel' b x own e = (
    ground
        (arith, contains-insert sel b b, contains-insert_all sel (rpo (loop_for b)) b, ==_refl b),
    λ c. ground (arith, contains-insert sel b x, contains-insert_all sel (rpo (loop_for b)) x),
  )

  consider_mixed : (sel : List ℕ) (b : ℕ) → consider li info l sel b ≡ none → is_mixed b ≡ true
  unfolding consider
  consider_mixed sel b e = ground arith

  -- The blocks that are left: none, or the first is mixed.
  abbrev pub IsStopped : List ℕ → Type 0
  IsStopped [] = Unit
  IsStopped (b ∷ rest) = is_mixed b ≡ true

  abbrev OwnsHeaders : List ℕ → Type 0
  OwnsHeaders bs = (b : ℕ) → contains bs b ≡ true → contains (rpo (loop_for b)) b ≡ true

  pub record Selected (start bs result : List ℕ) : Type 0 where
    pub seen : List ℕ
    pub left : List ℕ
    pub split : bs ≡ seen ++ left
    pub stopped : IsStopped left
    pub sound : (x : ℕ) → contains result x ≡ true → (contains start x ≡ true) ⊎ Selectable seen x
    pub kept : (x : ℕ) → contains start x ≡ true → contains result x ≡ true
    pub complete : (x : ℕ) → contains seen x ≡ true → contains result x ≡ true

  consider_all-Selected :
      (sel bs : List ℕ)
      → ((b : ℕ) → contains bs b ≡ true → (b == header l) ≡ false)
      → OwnsHeaders bs
      → Selected sel bs (consider_all li info l sel bs)
  unfolding consider_all
  consider_all-Selected sel [] off own = record {
    seen = [];
    left = [];
    split = refl;
    stopped = tt;
    sound = λ x c. inl c;
    kept = λ x c. c;
    complete = λ x c. cc;
  }
  consider_all-Selected sel (b ∷ bs) off own = elim (Option-cases (consider li info l sel b)) [
    | inl e ↦
        rw (e, consider_all)
          (record {
            seen = [];
            left = b ∷ bs;
            split = refl;
            stopped = consider_mixed sel b e;
            sound = λ x c. inl c;
            kept = λ x c. c;
            complete = λ x c. cc;
          })
    | inr (sel', e) ↦
        let here_off = off b (ground (arith, ==_refl b)) in
        let here_own = own b (ground (arith, ==_refl b)) in
        let ih =
          consider_all-Selected sel' bs (λ y m. off y (ground arith))
            (λ y m. own y (ground arith)) in
        rw (e, consider_all)
          (record {
            seen = b ∷ ih.seen;
            left = ih.left;
            split = ap (λ xs. b ∷ xs) ih.split;
            stopped = ih.stopped;
            sound = λ x c. elim (ih.sound x c) [
              | inl old ↦ elim (consider_adds sel sel' b x here_off e old) [
                | inl before ↦ inl before
                | inr (inl (same, p)) ↦ inr (inl (ground arith, rw same p))
                | inr (inr (loop, m)) ↦ inr (inr (b, ground (arith, ==_refl b), loop, m))
              ]
              | inr new ↦ inr (Selectable-cons b ih.seen x new)
            ];
            kept = λ x c. ih.kept x ((consider_keeps sel sel' b x here_own e).1 c);
            complete = λ x c. elim (Bool-cases (x == b)) [
              | inl same ↦ rw (==→≡ x b same) (ih.kept b (consider_keeps sel sel' b b here_own e).0)
              | inr other ↦ ih.complete x (ground arith)
            ];
          })
  ]

  -- With iterator information for the loop, the selection looks at the candidates in order, from
  -- the first up to the first mixed one or to the end. Every block looked at is selected, given that
  -- the traversal of a block's innermost loop holds the block; and every block selected is a
  -- payload block looked at, or a block of an inner loop that has payload blocks only and whose
  -- header was looked at.
  pub iterator_selection :
      (info_for : IteratorRecognitionInfo)
      → info_for l ≡ some info
      → ((b : ℕ) → contains (candidates li l) b ≡ true → contains (rpo (loop_for b)) b ≡ true)
      → Selected [] (candidates li l) (calculate li info_for l [])
  unfolding calculate
  iterator_selection info_for e own =
      rw (e, calculate)
        (consider_all-Selected [] (candidates li l) (λ b m. ground (arith, contains-candidates b))
          own)
