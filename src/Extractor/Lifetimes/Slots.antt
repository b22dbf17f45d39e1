-- ===== src/Extractor/Lifetimes/Slots.antt =====
-- What one slot adds to the candidates.
use atrox.Prelude.{
  ℕ, ◌≡◌, sym, ap, ◌∙◌, true, false, if◌then◌else◌, List, contains, insert, contains-insert, Option,
  some, none, ◌==◌, ==→≡, Bool-cases, inl, inr, ◌⊎◌, arith,
}
use atrox.Extractor.Lifetimes.{Frame, Candidates, Found, in_region, start_of, add_candidates}
use atrox.Extractor.Lifetimes.Sound.{IsFrame, HasMarkers}

module _ (f : Frame) (region : List ℕ) (laws : IsFrame f) where
  -- What is no slot adds no slot.
  insert-other :
      (xs : List ℕ) (w v : ℕ)
      → f.is_alloca w ≡ false
      → f.is_alloca v ≡ true
      → contains (insert xs w) v ≡ true
      → contains xs v ≡ true
  insert-other xs w v other slot h =
      ground (arith, contains-insert xs w v, ==→≡ v w, ==→≡ w v, other, slot)

  insert-slot :
      (xs : List ℕ) (ai v : ℕ)
      → contains (insert xs ai) v ≡ true
      → (contains xs v ≡ true) ⊎ (v ≡ ai)
  insert-slot xs ai v h = ground (arith, contains-insert xs ai v, ==→≡ v ai, ==→≡ ai v)

  insert-cast :
      (xs : List ℕ) (ai w v : ℕ)
      → (f.strip w == ai) ≡ true
      → f.is_alloca v ≡ true
      → contains (insert xs w) v ≡ true
      → (contains xs v ≡ true) ⊎ (v ≡ ai)
  insert-cast xs ai w v e slot h = elim (insert-slot xs w v h) [
    | inl old ↦ inl old
    | inr same ↦
        inr
          (same ∙ sym (laws.stripped w (ap f.is_alloca (sym same) ∙ slot)) ∙ ==→≡ (f.strip w) ai e)
  ]

  started :
      (c : Candidates) (found : Found) (v : ℕ)
      → HasMarkers f region laws found
      → f.is_alloca v ≡ true
      → contains (if found.sink_start then insert c.sink (start_of f region found) else c.sink) v
        ≡ true
      → contains c.sink v ≡ true
  unfolding start_of
  started c found v has slot h = elim (Bool-cases found.sink_start) [
    | inl e ↦ insert-other c.sink (start_of f region found) v has.0 slot (rw e at h)
    | inr n ↦ rw n at h
  ]

  -- Whatever slot is new among the candidates is the one that was looked at.
  pub add_candidates-slot :
      (ai : ℕ) (cast : Option ℕ) (found : Found) (c : Candidates) (v : ℕ)
      → elim cast [ none ↦ true | some w ↦ f.strip w == ai ] ≡ true
      → HasMarkers f region laws found
      → f.is_alloca v ≡ true
      → contains (add_candidates f region ai cast found c).sink v ≡ true
      → (contains c.sink v ≡ true) ⊎ (v ≡ ai)
  unfolding add_candidates
  add_candidates-slot ai none found c v e has slot h = elim (insert-slot _ ai v h) [
    | inl old ↦ inl (started c found v has slot old)
    | inr same ↦ inr same
  ]
  add_candidates-slot ai (some w) found c v e has slot h = elim (insert-slot _ ai v h) [
    | inr same ↦ inr same
    | inl x ↦ elim (Bool-cases (in_region f region w)) [
      | inl inside ↦ inl (started c found v has slot (rw inside at x))
      | inr away ↦ elim (insert-cast _ ai w v e slot (rw away at x)) [
        | inl old ↦ inl (started c found v has slot old)
        | inr same ↦ inr same
      ]
    ]
  ]
