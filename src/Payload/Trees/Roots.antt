-- ===== src/Payload/Trees/Roots.antt =====
-- The roots and the blacklist that `SelectPayloadTrees` begins with.
use atrox.Prelude.{
  ℕ, ◌≡◌, sym, ◌∙◌, ◌↔◌, ◌⊎◌, inl, inr, Bool, true, false, not, ◌&&◌, List, [], ◌∷◌, arith, ltb,
  ◌==◌, if◌then◌else◌, contains, insert, insert_all, contains-insert, contains-insert_all,
  contains-select, All, ==→≡, ==_refl, Bool-cases,
}
use atrox.Llvm.{Cfg, LoopInfo, SetOrder}
use atrox.Payload.Trees.{iterator_blocks, blacklist_inner, blacklist, is_root, root_groups}
use atrox.Payload.Trees.Correct.{IsSeed}
use atrox.Payload.Trees.Groups.{
  roots, IsAscending, contains-collect_roots, collect_roots-IsAscending, collect_roots-IsSeed,
}

module _ (cfg : Cfg) (li : LoopInfo) (order : SetOrder) (l : ℕ) (payload : List ℕ) where
  open li use {is_loop_header, block_depth, depth, blocks, loop_for, header, latch}

  abbrev pub its : List ℕ
  its = iterator_blocks li l payload

  abbrev pub bl : List ℕ
  bl = blacklist li order l payload

  pub contains-root_groups :
      (a : ℕ)
      → contains (roots (root_groups cfg li order l payload)) a
        ≡ (contains payload a && is_root cfg its bl a)
  unfolding root_groups
  contains-root_groups a = ground (
    arith,
    contains-collect_roots cfg its bl [] (order.walk payload) a,
    order.contains-walk payload a,
  )

  pub root_groups-IsAscending : IsAscending (roots (root_groups cfg li order l payload))
  unfolding root_groups
  root_groups-IsAscending = collect_roots-IsAscending cfg its bl [] (order.walk payload) tt

  pub root_groups-IsSeed : All IsSeed (root_groups cfg li order l payload)
  unfolding root_groups
  root_groups-IsSeed = collect_roots-IsSeed cfg its bl [] (order.walk payload) tt

  pub contains-iterator_blocks :
      (a : ℕ) → contains its a ≡ (if contains payload a then false else contains (blocks l) a)
  unfolding iterator_blocks
  contains-iterator_blocks a =
      ground (arith, contains-select (λ bb. not (contains payload bb)) (blocks l) a)

  -- `bb` is the header of a loop that is deeper than `l`.
  abbrev pub is_inner : ℕ → Bool
  is_inner bb = is_loop_header bb && ltb (depth l) (block_depth bb)

  -- A block of the loop that begins at one of some inner headers.
  abbrev pub InnerOf : List ℕ → ℕ → Type 0
  InnerOf bs x =
      (bb : ℕ) × (contains bs bb ≡ true)
      × (is_inner bb ≡ true)
      × (contains (blocks (loop_for bb)) x ≡ true)

  any_inner : List ℕ → ℕ → Bool
  any_inner [] x = false
  any_inner (bb ∷ bs) x =
      if is_inner bb && contains (blocks (loop_for bb)) x then true else any_inner bs x

  contains-blacklist_inner :
      (now bs : List ℕ) (x : ℕ)
      → contains (blacklist_inner li l now bs) x ≡ (if contains now x then true else any_inner bs x)
  unfolding blacklist_inner any_inner
  contains-blacklist_inner now [] x = ground arith
  contains-blacklist_inner now (bb ∷ bs) x = elim (Bool-cases (is_inner bb)) [
    | inl y ↦ rw y (
        ground (
          arith,
          contains-blacklist_inner (insert_all now (blocks (loop_for bb))) bs x,
          contains-insert_all now (blocks (loop_for bb)) x,
        ))
    | inr n ↦ rw n (contains-blacklist_inner now bs x)
  ]

  any_inner-found : (bs : List ℕ) (x : ℕ) → any_inner bs x ≡ true → InnerOf bs x
  unfolding any_inner
  any_inner-found [] x h = cc
  any_inner-found (bb ∷ bs) x h =
      elim (Bool-cases (is_inner bb && contains (blocks (loop_for bb)) x)) [
        | inl y ↦ (bb, ground (arith, ==_refl bb), ground arith, ground arith)
        | inr n ↦ let (b, m, i, c) = any_inner-found bs x (ground arith) in (b, ground arith, i, c)
      ]

  any_inner_complete :
      (bs : List ℕ) (x bb : ℕ)
      → contains bs bb ≡ true
      → is_inner bb ≡ true
      → contains (blocks (loop_for bb)) x ≡ true
      → any_inner bs x ≡ true
  unfolding any_inner
  any_inner_complete [] x bb m i c = cc
  any_inner_complete (b ∷ bs) x bb m i c = elim (Bool-cases (bb == b)) [
    | inl e ↦ let same = ==→≡ bb b e in rw (← same) (ground arith)
    | inr n ↦ ground (arith, any_inner_complete bs x bb (ground arith) i c)
  ]

  blacklist_test :
      (x : ℕ)
      → contains bl x ≡ (
          if x == header l
          then true
          else if x == latch l
          then true
          else if contains its x
          then true
          else any_inner (order.walk its) x)
  unfolding blacklist
  blacklist_test x = ground (
    arith,
    contains-blacklist_inner (insert (insert its (latch l)) (header l)) (order.walk its) x,
    contains-insert (insert its (latch l)) (header l) x,
    contains-insert its (latch l) x,
  )

  InnerOf-walk : (x : ℕ) → InnerOf (order.walk its) x → InnerOf its x
  InnerOf-walk x (bb, m, i, c) = (bb, sym (order.contains-walk its bb) ∙ m, i, c)

  -- What is blacklisted before the first root: the header, the latch, the iterator blocks, and the
  -- blocks of each inner loop whose header is an iterator block.
  pub contains-blacklist :
      (x : ℕ)
      → (contains bl x ≡ true)
        ↔ ((x ≡ header l) ⊎ (x ≡ latch l) ⊎ (contains its x ≡ true) ⊎ InnerOf its x)
  contains-blacklist x = (
    λ h.
        to h (Bool-cases (x == header l)) (Bool-cases (x == latch l)) (Bool-cases (contains its x)),
    λ c. elim c [
      | inl e ↦ ground (arith, blacklist_test x)
      | inr (inl e) ↦ ground (arith, blacklist_test x)
      | inr (inr (inl e)) ↦ ground (arith, blacklist_test x)
      | inr (inr (inr (bb, m, i, b))) ↦
          let found =
            any_inner_complete (order.walk its) x bb (order.contains-walk its bb ∙ m) i b in
          ground (arith, blacklist_test x)
    ],
  )
    where
      to :
          contains bl x ≡ true
          → ((x == header l) ≡ true) ⊎ ((x == header l) ≡ false)
          → ((x == latch l) ≡ true) ⊎ ((x == latch l) ≡ false)
          → (contains its x ≡ true) ⊎ (contains its x ≡ false)
          → (x ≡ header l) ⊎ (x ≡ latch l) ⊎ (contains its x ≡ true) ⊎ InnerOf its x
      to h (inl a) q r = inl (==→≡ x (header l) a)
      to h (inr a) (inl b) r = inr (inl (==→≡ x (latch l) b))
      to h (inr a) (inr b) (inl c) = inr (inr (inl c))
      to h (inr a) (inr b) (inr c) =
          let t : any_inner (order.walk its) x ≡ true = ground (arith, blacklist_test x) in
          inr (inr (inr (InnerOf-walk x (any_inner-found (order.walk its) x t))))
