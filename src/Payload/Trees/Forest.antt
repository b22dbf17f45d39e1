-- ===== src/Payload/Trees/Forest.antt =====
-- What `SelectPayloadTrees` promises: it returns, its groups hang from their roots, and between
-- them they hold all that hangs from a root.
use atrox.Prelude.{
  ℕ, ◌≡◌, ◌↔◌, inl, inr, true, false, ◌&&◌, List, [], ◌∷◌, arith, ◌==◌, if◌then◌else◌, not, ◌≢◌,
  contains, contains-insert_all, All, any, Error, ok, err, Bool-cases, ==_refl, ap,
}
use atrox.Llvm.{Cfg, LoopInfo, SetOrder}
use atrox.Payload.Trees.{Group, payload_set, is_root, root_groups, select_payload_trees}
use atrox.Payload.Trees.Loop.{Hangs, here, step}
use atrox.Payload.Trees.Correct.{Covered, IsSound, Run, grow_groups-Run, Run-covers}
use atrox.Payload.Trees.Groups.{roots, IsAscending}
use atrox.Payload.Trees.Roots.{
  its, bl, contains-root_groups, root_groups-IsAscending, root_groups-IsSeed, contains-blacklist,
}

module _ (cfg : Cfg) (li : LoopInfo) (order : SetOrder) (l : ℕ) (payload : List ℕ) where
  open li use {loop_for, header, latch}

  -- The blacklist, the iterator blocks and the hanging blocks of this call.
  abbrev pub initial_blacklist : List ℕ
  initial_blacklist = bl cfg li order l (payload_set payload)

  abbrev pub iterators : List ℕ
  iterators = its cfg li order l (payload_set payload)

  abbrev pub HangsFrom : ℕ → ℕ → Type 0
  HangsFrom = Hangs cfg (payload_set payload) initial_blacklist

  run :
      Run cfg order
        (payload_set payload)
        initial_blacklist
        (λ _. ⊥)
        initial_blacklist
        (root_groups cfg li order l (payload_set payload))
  run =
      grow_groups-Run cfg order (payload_set payload) initial_blacklist (λ _. ⊥) initial_blacklist
        (root_groups cfg li order l (payload_set payload))
        (root_groups-IsSeed cfg li order l (payload_set payload)) (λ a h. h) (λ x y hx nx e p. cc)
        (λ x hx nx. cc)

  open run use {groups as found}

  -- The call returns when the assertion holds, and fails by it otherwise.
  select_result :
      select_payload_trees cfg li order l payload
      ≡ (if loop_for (header l) == l then ok found else err Error.assertion)
  unfolding select_payload_trees
  select_result = ground (arith, run.returns)

  eq_found : {gs : List Group} → select_payload_trees cfg li order l payload ≡ ok gs → found ≡ gs
  eq_found h = ground (arith, select_result)

  root_test :
      (r : ℕ)
      → contains (roots found) r ≡ (
          contains payload r
          && (not (contains initial_blacklist r) && any (contains iterators) (cfg.preds r)))
  unfolding is_root
  root_test r = ground (
    arith,
    ap (λ rs. contains rs r) run.roots,
    contains-root_groups cfg li order l (payload_set payload) r,
    contains-insert_all [] payload r,
  )

  -- When the assertion that the loop belongs to the loop info holds, `SelectPayloadTrees` returns: its
  -- loops end.
  pub trees_return :
      loop_for (header l) ≡ l
      → (gs : List Group) × (select_payload_trees cfg li order l payload ≡ ok gs)
  trees_return e = (found, ground (arith, select_result))

  -- The keys of the returned map are in order and each there once, and they are exactly the payload blocks
  -- that are off the initial blacklist and have an iterator block of the loop among their predecessors.
  pub tree_roots :
      {gs : List Group}
      → select_payload_trees cfg li order l payload ≡ ok gs
      → IsAscending (roots gs)
        × ((r : ℕ)
            → (contains (roots gs) r ≡ true) ↔ (
                (contains payload r ≡ true)
                × (contains initial_blacklist r ≡ false)
                × (any (contains iterators) (cfg.preds r) ≡ true)))
  tree_roots h = rw (← eq_found h) (
    rw run.roots (root_groups-IsAscending cfg li order l (payload_set payload)),
    λ r. (λ m. ground (arith, root_test r), λ m. ground (arith, root_test r)),
  )

  off_blacklist :
      (x : ℕ)
      → contains initial_blacklist x ≡ false
      → (x ≢ header l) × (x ≢ latch l) × (contains iterators x ≡ false)
  off_blacklist x n =
      let on = (contains-blacklist cfg li order l (payload_set payload) x).1 in
      (
        λ e. cc (on (inl e)),
        λ e. cc (on (inr (inl e))),
        elim (Bool-cases (contains iterators x)) [
          | inl c ↦ cc (on (inr (inr (inl c))))
          | inr c ↦ c
        ],
      )

  -- What holds of a block that hangs from a root.
  hanging_block :
      (r x : ℕ)
      → contains payload r ≡ true
      → contains initial_blacklist r ≡ false
      → HangsFrom r x
      → (contains payload x ≡ true) × (contains initial_blacklist x ≡ false)
  hanging_block r x p n here = (p, n)
  hanging_block r x p n (step h e q out) = (ground (arith, contains-insert_all [] payload x), out)

  members_of :
      (gs : List Group)
      → All (IsSound cfg order (payload_set payload) initial_blacklist) gs
      → ((r : ℕ)
          → contains (roots gs) r ≡ true
          → (contains payload r ≡ true) × (contains initial_blacklist r ≡ false))
      → All
          (λ g.
            (contains g.members g.root ≡ true)
            × ((x : ℕ)
                → contains g.members x ≡ true
                → HangsFrom g.root x
                  × (contains payload x ≡ true)
                  × ((x ≢ header l) × (x ≢ latch l) × (contains iterators x ≡ false))))
          gs
  members_of [] s f = tt
  members_of (g ∷ gs) ((m, hangs), s) f =
      let (p, n) = f g.root (ground (arith, ==_refl g.root)) in
      (
        (
          m,
          λ x c.
              let (q, out) = hanging_block g.root x p n (hangs x c) in
              (hangs x c, q, off_blacklist x out),
        ),
        members_of gs s (λ r c. f r (ground arith)),
      )

  -- In each returned group its root is a member, and each member hangs from the root by payload blocks off
  -- the initial blacklist; it is a payload block, and neither header, latch nor iterator block.
  pub tree_members :
      {gs : List Group}
      → select_payload_trees cfg li order l payload ≡ ok gs
      → All
          (λ g.
            (contains g.members g.root ≡ true)
            × ((x : ℕ)
                → contains g.members x ≡ true
                → HangsFrom g.root x
                  × (contains payload x ≡ true)
                  × ((x ≢ header l) × (x ≢ latch l) × (contains iterators x ≡ false))))
          gs
  tree_members h =
      rw (← eq_found h) (members_of found run.sound (λ r c. ground (arith, root_test r)))

  -- Each block that hangs from a root of the result is in some group of the result.
  pub trees_cover :
      {gs : List Group}
      → select_payload_trees cfg li order l payload ≡ ok gs
      → (r x : ℕ) → contains (roots gs) r ≡ true
      → HangsFrom r x
      → Covered gs x
  trees_cover h = rw (← eq_found h) (λ r x m hang.
      Run-covers cfg order (payload_set payload) initial_blacklist initial_blacklist
        (root_groups cfg li order l (payload_set payload)) run r x (rw run.roots at m)
        (ground (arith, root_test r)) hang)
