-- ===== src/Extractor/Blocks/Sets.antt =====
-- Which set of blocks is extracted.
use mathlib.Core.Path.{subst}
use mathlib.Core.List.{append_assoc, append-nil}
use atrox.Prelude.{
  ℕ, ◌≡◌, ◌↔◌, refl, sym, ap, ◌∙◌, Bool, true, false, not, ◌&&◌, ◌||◌, if◌then◌else◌, List, [], ◌∷◌,
  ◌++◌, select, All, contains, any, Result, ok, ◌>>=◌, Bool-cases, inl, inr, arith,
}
use atrox.Args.Order.{IsDistinct, IsDistinct-middle}
use atrox.Extractor.Blocks.{
  BlockCode, is_kind_valid, is_block_valid, insert_blocks, check_blocks, build_extraction_block_set,
}
use atrox.Extractor.Blocks.Reaches.{Reaches}
use atrox.Extractor.Blocks.Visits.{Answers, search_lem}

module _ (code : BlockCode) where
  open code use {
    has_address_taken, is_eh_pad, is_reachable, instructions, kind, is_block_address, operands,
    users,
  }

  -- The users of the code are all listed.
  pub record IsListed : Type 0 where
    pub own : (b v : ℕ) → contains (instructions b) v ≡ true → contains users v ≡ true
    pub closed :
        (v w : ℕ)
        → contains users v ≡ true
        → contains (operands v) w ≡ true
        → contains users w ≡ true

  module _ (result : List ℕ) (allow_var_args allow_alloca : Bool) where
    -- What makes a block valid: no one takes its address, nothing in it reaches a block address, and no instruction
    -- fails its test.
    abbrev pub IsValid : ℕ → Type 0
    IsValid b =
        (has_address_taken b ≡ false)
        × ((v : ℕ) → Reaches code b v → is_block_address v ≡ false)
        × (any (λ i. not (is_kind_valid code result allow_var_args allow_alloca (kind i)))
              (instructions b)
            ≡ false)

    abbrev has_bad : ℕ → Bool
    has_bad b =
        any (λ i. not (is_kind_valid code result allow_var_args allow_alloca (kind i)))
          (instructions b)

    validity :
        (b : ℕ)
        → has_address_taken b ≡ false
        → (c : Bool) → Answers code b c
        → ((c && not (has_bad b)) ≡ true) ↔ IsValid b
    validity b n true a = ((λ e. (n, a, ground arith)), (λ (_, _, h). ground arith))
    validity b n false (v, r, y) = ((λ e. absurd cc), (λ (_, h, _). absurd (let k = h v r in cc)))

    -- The test of a block returns, and answers whether the block is valid.
    pub is_block_valid_iff :
        (b : ℕ)
        → IsListed
        → (v : Bool) × (is_block_valid code result allow_var_args allow_alloca b ≡ ok v)
          × ((v ≡ true) ↔ IsValid b)
    unfolding is_block_valid
    is_block_valid_iff b listed = elim (Bool-cases (has_address_taken b)) [
      | inl y ↦ (false, rw y refl, ((λ e. absurd cc), (λ (h, _, _). absurd cc)))
      | inr n ↦
          let bad =
            any (λ i. not (is_kind_valid code result allow_var_args allow_alloca (kind i)))
              (instructions b) in
          let (c, e, a) = search_lem code b listed.closed (listed.own b) in
          (c && not bad, rw n (ap (λ q. q >>= λ c. ok (c && not bad)) e), validity b n c a)
    ]

  -- The blocks that are looked at: with a dominator tree, those that are reachable.
  abbrev pub live : Bool → List ℕ → List ℕ
  live has_tree bs = select (λ b. not (has_tree && not (is_reachable b))) bs

  insert_blocks_lem :
      (has_tree : Bool) (result bs : List ℕ)
      → IsDistinct (result ++ live has_tree bs)
      → insert_blocks code has_tree result bs ≡ ok (result ++ live has_tree bs)
  unfolding insert_blocks
  insert_blocks_lem has_tree result [] d = ap ok (sym (append-nil result))
  insert_blocks_lem has_tree result (b ∷ bs) d =
      elim (Bool-cases (has_tree && not (is_reachable b))) [
        | inl y ↦ rw y (
            insert_blocks_lem has_tree result bs (
              subst
                (λ q.
                  IsDistinct (result ++ (if not q then b ∷ live has_tree bs else live has_tree bs)))
                y d))
        | inr n ↦
            let d' =
              subst
                (λ q.
                  IsDistinct (result ++ (if not q then b ∷ live has_tree bs else live has_tree bs)))
                n d in
            let (m, _, _) = IsDistinct-middle result b (live has_tree bs) d' in
            rw n (
              rw m (
                insert_blocks_lem has_tree (result ++ b ∷ []) bs
                  (subst IsDistinct (sym (append_assoc result (b ∷ []) (live has_tree bs))) d')
                ∙ ap ok (append_assoc result (b ∷ []) (live has_tree bs))))
      ]

  -- Given what each test answers, the second loop says whether all are valid and the front is no pad.
  abbrev pub passes : (ℕ → Bool) → Bool → List ℕ → Bool
  passes valid is_front [] = true
  passes valid is_front (b ∷ bs) =
      if not (valid b) || (is_front && is_eh_pad b) then false else passes valid false bs

  check_blocks-passes :
      (result : List ℕ) (v a : Bool) (valid : ℕ → Bool)
      → ((b : ℕ) → is_block_valid code result v a b ≡ ok (valid b))
      → (is_front : Bool) (bs : List ℕ)
      → check_blocks code result v a is_front bs ≡ ok (passes valid is_front bs)
  unfolding check_blocks
  check_blocks-passes result v a valid h is_front [] = refl
  check_blocks-passes result v a valid h is_front (b ∷ bs) =
      let k : Bool → Result Bool = λ q.
        if not q || (is_front && is_eh_pad b)
        then ok false
        else check_blocks code result v a false bs in
      ap (λ q. q >>= k) (h b) ∙ elim (Bool-cases (not (valid b) || (is_front && is_eh_pad b))) [
        | inl y ↦ rw y refl
        | inr n ↦ rw n (check_blocks-passes result v a valid h false bs)
      ]

  -- The first block is no landing pad.
  abbrev pub IsFrontFine : Bool → List ℕ → Type 0
  IsFrontFine is_front [] = Unit
  IsFrontFine is_front (b ∷ bs) = (is_front && is_eh_pad b) ≡ false

  front_later : (bs : List ℕ) → IsFrontFine false bs
  front_later [] = tt
  front_later (b ∷ bs) = refl

  passes_iff :
      (P : ℕ → Type 0) (valid : ℕ → Bool)
      → ((b : ℕ) → (valid b ≡ true) ↔ P b)
      → (is_front : Bool) (bs : List ℕ)
      → (passes valid is_front bs ≡ true) ↔ (All P bs × IsFrontFine is_front bs)
  passes_iff P valid h is_front [] = ((λ e. (tt, tt)), (λ q. refl))
  passes_iff P valid h is_front (b ∷ bs) =
      let (there, back) = h b in
      let (later, earlier) = passes_iff P valid h false bs in
      (
        (λ e.
            let y : valid b ≡ true = ground arith in
            let n : (is_front && is_eh_pad b) ≡ false = ground arith in
            let rest : passes valid false bs ≡ true = ground arith in
            ((there y, (later rest).0), n)),
        (λ ((p, ps), n). let y = back p in let rest = earlier (ps, front_later bs) in ground arith),
      )

  -- For a list of blocks that are not met twice, and where all users are listed, the set of blocks to extract is that
  -- of the blocks that are reachable, if there is a dominator tree to ask, or of all; it is empty unless each of them
  -- is valid and the first is no landing pad. Where their predecessors lie plays no part.
  pub build_extraction_block_set_lem :
      IsListed
      → (has_tree v a : Bool) (b : ℕ) (bs : List ℕ) → IsDistinct (live has_tree (b ∷ bs))
      → (valid : Bool) × (build_extraction_block_set code has_tree v a (b ∷ bs)
          ≡ ok (if valid then live has_tree (b ∷ bs) else []))
        × ((valid ≡ true) ↔ (
            All (IsValid (live has_tree (b ∷ bs)) v a) (live has_tree (b ∷ bs))
            × IsFrontFine true (live has_tree (b ∷ bs))))
  unfolding build_extraction_block_set
  build_extraction_block_set_lem listed has_tree v a b bs d =
      let s = live has_tree (b ∷ bs) in
      let answer : ℕ → Bool = λ x. (is_block_valid_iff s v a x listed).0 in
      let k2 : Bool → Result (List ℕ) = λ valid. ok (if valid then s else []) in
      let k1 : List ℕ → Result (List ℕ) =
        λ r. check_blocks code r v a true r >>= λ valid. ok (if valid then r else []) in
      (
        passes answer true s,
        ap (λ q. q >>= k1) (insert_blocks_lem has_tree [] (b ∷ bs) d)
            ∙ ap (λ q. q >>= k2)
                (check_blocks-passes s v a answer (λ x. (is_block_valid_iff s v a x listed).1) true
                  s),
        passes_iff (IsValid s v a) answer (λ x. (is_block_valid_iff s v a x listed).2) true s,
      )
