-- ===== src/Extractor/Lifetimes/Sunk.antt =====
-- Which stack slots `findAllocas` lets sink into the region.
use atrox.Prelude.{
  ℕ, ◌≡◌, refl, Bool, true, false, not, ◌&&◌, if◌then◌else◌, List, [], ◌∷◌, any, contains, Option,
  some, none, ==_refl, Bool-cases, Option-cases, inl, inr, ◌⊎◌, Result, ok, ◌>>=◌, bind-ok, arith,
}
use atrox.Extractor.Lifetimes.{
  Frame, Candidates, Found, get_life_time_markers, follow_users, add_candidates, add_alloca,
  add_allocas, add_blocks, find_allocas, get_common_exit_block,
}
use atrox.Extractor.Lifetimes.Slots.{add_candidates-slot}
use atrox.Extractor.Lifetimes.Sound.{
  IsFrame, all_tracked, HasMarkers, found_lem, found-HasMarkers, follow_users_lem,
}

-- Whether a block outside of the region has an instruction.
abbrev pub is_outside : Frame → List ℕ → List ℕ → ℕ → Bool
is_outside f region bs v = any (λ b. not (contains region b) && contains (f.instructions b) v) bs

module _ (f : Frame) (region : List ℕ) (laws : IsFrame f) where
  with_tracked :
      (c : Candidates) (ai v : ℕ)
      → (contains c.sink v ≡ true) ⊎ (v ≡ ai)
      → all_tracked f region ai (f.users ai) ≡ true
      → (contains c.sink v ≡ true) ⊎ ((v ≡ ai) × (all_tracked f region ai (f.users ai) ≡ true))
  with_tracked c ai v (inl old) t = inl old
  with_tracked c ai v (inr same) t = inr (same, t)

  settled_lem :
      (exit : Option ℕ) (ai : ℕ) (c d : Candidates) (v : ℕ) (found : Found)
      → ok (add_candidates f region ai none found c) ≡ ok d
      → HasMarkers f region laws found
      → all_tracked f region ai (f.users ai) ≡ true
      → f.is_alloca v ≡ true
      → contains d.sink v ≡ true
      → (contains c.sink v ≡ true) ⊎ ((v ≡ ai) × (all_tracked f region ai (f.users ai) ≡ true))
  settled_lem exit ai c d v found last has t slot h =
      let same : add_candidates f region ai none found c ≡ d = cc in
      with_tracked c ai v
        (add_candidates-slot f region laws ai none found c v refl has slot (rw same h)) t

  followed_lem :
      (exit : Option ℕ) (ai : ℕ) (c d : Candidates) (v : ℕ) (found found' : Found) (cast : Option ℕ)
      → follow_users f region exit ai none found (f.users ai) ≡ ok (cast, found')
      → ok (elim cast [ none ↦ c | some a ↦ add_candidates f region ai (some a) found' c ]) ≡ ok d
      → HasMarkers f region laws found
      → f.is_alloca v ≡ true
      → contains d.sink v ≡ true
      → (contains c.sink v ≡ true) ⊎ ((v ≡ ai) × (all_tracked f region ai (f.users ai) ≡ true))
  followed_lem exit ai c d v found found' none followed last has slot h =
      inl (ground (arith, last, h))
  followed_lem exit ai c d v found found' (some a) followed last has slot h =
      let (t, e, has') =
        follow_users_lem f region laws exit ai none found (f.users ai) a found' followed refl has in
      let same : add_candidates f region ai (some a) found' c ≡ d = cc in
      with_tracked c ai v
        (add_candidates-slot f region laws ai (some a) found' c v e has' slot (rw same h)) t

  -- A slot that one step adds has only uses that are tracked.
  add_alloca_lem :
      (exit : Option ℕ) (ai : ℕ) (c d : Candidates) (v : ℕ)
      → add_alloca f region exit ai c ≡ ok d
      → f.is_alloca v ≡ true
      → contains d.sink v ≡ true
      → (contains c.sink v ≡ true) ⊎ ((v ≡ ai) × (all_tracked f region ai (f.users ai) ≡ true))
  unfolding add_alloca
  add_alloca_lem exit ai c d v ran slot h =
      let k : Option ℕ × Found → Result Candidates =
        λ r. ok (elim r.0 [ none ↦ c | some a ↦ add_candidates f region ai (some a) r.1 c ]) in
      let (found, found_it, rest) =
        bind-ok (get_life_time_markers f region exit ai false false)
          (λ found. elim found.markers [
            | some _ ↦ ok (add_candidates f region ai none found c)
            | none ↦ follow_users f region exit ai none found (f.users ai) >>= k
          ])
          d ran in
      let has = found-HasMarkers f region laws exit ai false false found found_it in
      elim (Option-cases found.markers) [
        | inr (q, e) ↦
            settled_lem exit ai c d v found (rw e at rest) has
              (found_lem f region laws exit ai ai false false found q found_it e).0 slot h
        | inl e ↦
            let ((cast, found'), followed, last) =
              bind-ok (follow_users f region exit ai none found (f.users ai)) k d (rw e at rest) in
            followed_lem exit ai c d v found found' cast followed last has slot h
      ]

  add_allocas_lem :
      (exit : Option ℕ) (is' : List ℕ) (c d : Candidates) (v : ℕ)
      → add_allocas f region exit is' c ≡ ok d
      → f.is_alloca v ≡ true
      → contains d.sink v ≡ true
      → (contains c.sink v ≡ true)
        ⊎ ((contains is' v ≡ true) × (all_tracked f region v (f.users v) ≡ true))
  unfolding add_allocas
  add_allocas_lem exit [] c d v ran slot h = inl (ground (arith, ran, h))
  add_allocas_lem exit (i ∷ is') c d v ran slot h =
      let (e, now, rest) =
        bind-ok (if f.is_alloca i then add_alloca f region exit i c else ok c)
          (add_allocas f region exit is') d ran in
      elim (add_allocas_lem exit is' e d v rest slot h) [
        | inr (x, t) ↦ inr (ground (arith, x), t)
        | inl old ↦ elim (Bool-cases (f.is_alloca i)) [
          | inr n ↦ inl (ground (arith, now, n, old))
          | inl y ↦ elim (add_alloca_lem exit i c e v (rw y at now) slot old) [
            | inl older ↦ inl older
            | inr (same, t) ↦ inr (ground (arith, same, ==_refl i), rw same t)
          ]
        ]
      ]

  add_blocks_lem :
      (exit : Option ℕ) (bs : List ℕ) (c d : Candidates) (v : ℕ)
      → add_blocks f region exit bs c ≡ ok d
      → f.is_alloca v ≡ true
      → contains d.sink v ≡ true
      → (contains c.sink v ≡ true)
        ⊎ ((is_outside f region bs v ≡ true) × (all_tracked f region v (f.users v) ≡ true))
  unfolding add_blocks
  add_blocks_lem exit [] c d v ran slot h = inl (ground (arith, ran, h))
  add_blocks_lem exit (b ∷ bs) c d v ran slot h =
      let (e, now, rest) =
        bind-ok (if contains region b then ok c else add_allocas f region exit (f.instructions b) c)
          (add_blocks f region exit bs) d ran in
      elim (add_blocks_lem exit bs e d v rest slot h) [
        | inr (x, t) ↦ inr (ground (arith, x), t)
        | inl old ↦ elim (Bool-cases (contains region b)) [
          | inl y ↦ inl (ground (arith, now, y, old))
          | inr n ↦ elim (add_allocas_lem exit (f.instructions b) c e v (rw n at now) slot old) [
            | inl older ↦ inl older
            | inr (x, t) ↦ inr (ground (arith, n, x), t)
          ]
        ]
      ]

-- By what the code relies on of LLVM, where nothing is a candidate before, every stack slot among the candidates to sink into the region is one of a
-- block outside of the region, and each of its users is a call of an intrinsic, an instruction of the region or a
-- cast of the slot.
pub find_allocas_lem :
    (f : Frame) (region : List ℕ)
    → IsFrame f
    → (d : Candidates) (exit : Option ℕ) (v : ℕ)
    → find_allocas f region (record { sink = []; hoist = [] }) ≡ ok (d, exit)
    → f.is_alloca v ≡ true
    → contains d.sink v ≡ true
    → (is_outside f region f.blocks v ≡ true) × (all_tracked f region v (f.users v) ≡ true)
unfolding find_allocas
find_allocas_lem f region laws d exit v ran slot h =
    let (e, added, last) =
      bind-ok
        (add_blocks f region (get_common_exit_block f region) f.blocks
          (record { sink = []; hoist = [] }))
        (λ e. ok (e, get_common_exit_block f region)) (d, exit) ran in
    elim (add_blocks_lem f region laws (get_common_exit_block f region) f.blocks
      (record { sink = []; hoist = [] }) e v added slot (ground (arith, last, h))) [
        | inl none_before ↦ absurd (ground (arith, none_before))
        | inr x ↦ x
      ]
