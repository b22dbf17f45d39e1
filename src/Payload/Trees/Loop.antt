-- ===== src/Payload/Trees/Loop.antt =====
-- The worklist loop of `SelectPayloadTrees`: it ends, and what it visits.
use atrox.Prelude.{
  ℕ, zero, suc, ◌≤◌, ◌≡◌, inl, inr, true, false, List, [], ◌∷◌, arith, if◌then◌else◌, not, ◌&&◌,
  length, contains, insert, erase, contains-insert, contains-erase, count_outside, count_outside-le,
  count_outside-insert_lt, List-cases, ok, ==→≡, ==_refl,
}
use atrox.Llvm.{Cfg, SetOrder}
use atrox.Payload.Trees.{Growth, push_succs, grow}

-- The blocks that hang from a root: reached from it through payload blocks off the blacklist.
pub data Hangs (cfg : Cfg) (payload bl : List ℕ) (r : ℕ) : ℕ → Type 0 where
  here : Hangs cfg payload bl r r
  step :
      {x y : ℕ}
      → Hangs cfg payload bl r x
      → contains (cfg.succs x) y ≡ true
      → contains payload y ≡ true
      → contains bl y ≡ false
      → Hangs cfg payload bl r y

-- The first element of a walk over a set is in the set.
walk_head :
    (order : SetOrder) (wl rest : List ℕ) (bb : ℕ)
    → order.walk wl ≡ bb ∷ rest
    → contains wl bb ≡ true
walk_head order wl rest bb e =
    let law = order.contains-walk wl bb in ground (arith, law, ==_refl bb)

walk_empty : (order : SetOrder) (wl : List ℕ) (a : ℕ) → order.walk wl ≡ [] → contains wl a ≡ false
walk_empty order wl a e = let law = order.contains-walk wl a in ground (arith, law)

-- The worklist after a block's successors were looked at.
pub contains-push_succs :
    (payload bl wl ss : List ℕ) (a : ℕ)
    → contains (push_succs payload bl wl ss) a ≡ (
        if contains wl a
        then true
        else contains ss a && (contains payload a && not (contains bl a)))
unfolding push_succs
contains-push_succs payload bl wl [] a = ground arith
contains-push_succs payload bl wl (s ∷ ss) a = ground (
  arith,
  contains-push_succs payload bl wl ss a,
  contains-push_succs payload bl (insert wl s) ss a,
  contains-insert wl s a,
  ==→≡ a s,
)

module _ (cfg : Cfg) (order : SetOrder) (payload : List ℕ) where
  open cfg use {succs}
  open order use {walk}

  -- One round of the loop, on the worklist and on the state.
  abbrev pub next_list : List ℕ → Growth → ℕ → List ℕ
  next_list wl s bb = push_succs payload (insert s.blacklisted bb) (erase wl bb) (succs bb)

  abbrev pub next_state : Growth → ℕ → Growth
  next_state s bb = record { blacklisted = insert s.blacklisted bb; members = insert s.members bb }

  -- What waits is payload that is not blacklisted; a root may be blacklisted when it starts.
  abbrev IsFresh : List ℕ → Growth → Type 0
  IsFresh wl s =
      (a : ℕ)
      → contains wl a ≡ true
      → (contains payload a ≡ true) × (contains s.blacklisted a ≡ false)

  IsFresh-next :
      (wl : List ℕ) (s : Growth) (bb a : ℕ)
      → (contains (erase wl bb) a ≡ true
          → (contains payload a ≡ true) × (contains s.blacklisted a ≡ false))
      → contains (next_list wl s bb) a ≡ true
      → (contains payload a ≡ true) × (contains (insert s.blacklisted bb) a ≡ false)
  IsFresh-next wl s bb a old h = ground (
    arith,
    old,
    contains-push_succs payload (insert s.blacklisted bb) (erase wl bb) (succs bb) a,
    contains-insert s.blacklisted bb a,
    contains-erase wl bb a,
  )

  -- An invariant that one round keeps holds at the end, where nothing waits.
  pub grow_rule {ℓ} :
      (P : List ℕ → Growth → Type ℓ)
      → ((wl : List ℕ) (s : Growth) (bb : ℕ)
          → contains wl bb ≡ true
          → P wl s
          → P (next_list wl s bb) (next_state s bb))
      → (fuel : ℕ) (wl : List ℕ) (s : Growth) → IsFresh wl s
      → count_outside s.blacklisted payload ≤ fuel
      → P wl s
      → (t : Growth) × (wl' : List ℕ) × (grow cfg order payload fuel wl s ≡ ok t)
        × P wl' t
        × ((a : ℕ) → contains wl' a ≡ false)
  unfolding grow
  grow_rule P keep zero wl s fresh f p = elim (List-cases (walk wl)) [
    | inl e ↦ (s, wl, rw (e, grow), p, λ a. walk_empty order wl a e)
    | inr (bb, rest, e) ↦
        let (mem, out) = fresh bb (walk_head order wl rest bb e) in
        absurd (omega (arith, count_outside-insert_lt s.blacklisted payload bb mem out))
  ]
  grow_rule P keep (suc fuel) wl s fresh f p = elim (List-cases (walk wl)) [
    | inl e ↦ (s, wl, rw (e, grow), p, λ a. walk_empty order wl a e)
    | inr (bb, rest, e) ↦
        let m = walk_head order wl rest bb e in
        let (mem, out) = fresh bb m in
        rw (e, grow)
          (grow_rule P keep fuel (next_list wl s bb) (next_state s bb)
            (λ a. IsFresh-next wl s bb a (λ h. fresh a (erase_old wl bb a h)))
            (omega (arith, count_outside-insert_lt s.blacklisted payload bb mem out))
            (keep wl s bb m p))
  ]
    where
      erase_old : (xs : List ℕ) (b a : ℕ) → contains (erase xs b) a ≡ true → contains xs a ≡ true
      erase_old xs b a h = ground (arith, contains-erase xs b a)

  -- From one root, one more round than there are payload blocks is enough.
  pub grow_root_rule {ℓ} :
      (P : List ℕ → Growth → Type ℓ)
      → ((wl : List ℕ) (s : Growth) (bb : ℕ)
          → contains wl bb ≡ true
          → P wl s
          → P (next_list wl s bb) (next_state s bb))
      → (r : ℕ) (s : Growth) → P (r ∷ []) s
      → (t : Growth) × (wl' : List ℕ) × (grow cfg order payload (suc (length payload)) (r ∷ []) s
          ≡ ok t)
        × P wl' t
        × ((a : ℕ) → contains wl' a ≡ false)
  unfolding grow
  grow_root_rule P keep r s p = elim (List-cases (walk (r ∷ []))) [
    | inl e ↦ (s, r ∷ [], rw (e, grow), p, λ a. walk_empty order (r ∷ []) a e)
    | inr (bb, rest, e) ↦
        let m = walk_head order (r ∷ []) rest bb e in
        rw (e, grow)
          (grow_rule P keep (length payload) (next_list (r ∷ []) s bb) (next_state s bb)
            (λ a. IsFresh-next (r ∷ []) s bb a (λ h. absurd (gone bb a m h)))
            (count_outside-le _ payload) (keep (r ∷ []) s bb m p))
  ]
    where
      gone : (b a : ℕ) → contains (r ∷ []) b ≡ true → contains (erase (r ∷ []) b) a ≡ true → ⊥
      gone b a m h = ground (arith, contains-erase (r ∷ []) b a, ==→≡ b r, ==→≡ a r)
