-- ===== src/Extractor/Lifetimes/Sound.antt =====
-- A stack slot is a candidate only if the region has all its uses, but for intrinsics and casts.
use mathlib.Core.Path.{subst}
use atrox.Prelude.{
  ℕ, ◌≡◌, ◌≢◌, refl, sym, ◌∙◌, Bool, true, false, not, ◌&&◌, ◌||◌, if◌then◌else◌, List, [], ◌∷◌,
  any, Option, some, none, ◌==◌, Bool-cases, Option-cases, inl, inr, Result, Error, ok, ◌>>=◌, ◌>>◌,
  guard, bind-ok, arith,
}
use atrox.Extractor.Lifetimes.{
  lifetime_start, lifetime_end, no_intrinsic, Frame, Found, in_region, scan_users, check_markers,
  is_legal_to_shrinkwrap, get_life_time_markers, follow_users, start_of, end_of,
}

-- What the code relies on of LLVM: neither an intrinsic nor the null pointer is a slot, there is nothing to strip of a
-- slot, and what uses a slot is an instruction.
pub record IsFrame (f : Frame) : Type 0 where
  pub intrinsics : (u : ℕ) → f.use_of u ≢ no_intrinsic → f.is_alloca u ≡ false
  pub null : f.is_alloca 0 ≡ false
  pub instructions :
      (u : ℕ) → f.is_alloca u ≡ true → any (λ w. not (f.is_instruction w)) (f.users u) ≡ false
  pub stripped : (u : ℕ) → f.is_alloca u ≡ true → f.strip u ≡ u

module _ (f : Frame) (region : List ℕ) where
  -- A use that the region has, that is a call of an intrinsic, or that is a cast of the slot.
  abbrev pub is_tracked : ℕ → ℕ → Bool
  is_tracked ai u = elim (f.use_of u) [
    | no_intrinsic ↦ in_region f region u || f.strip u == ai
    | _ ↦ true
  ]

  abbrev pub all_tracked : ℕ → List ℕ → Bool
  all_tracked ai us = not (any (λ u. not (is_tracked ai u)) us)

  abbrev is_marker : Option ℕ → Bool
  is_marker o = elim o [ none ↦ true | some w ↦ not (f.is_alloca w) ]

  module _ (laws : IsFrame f) where
    start-alloca : (u : ℕ) → f.use_of u ≡ lifetime_start → f.is_alloca u ≡ false
    start-alloca u h = laws.intrinsics u (λ e. cc (h, e))

    end-alloca : (u : ℕ) → f.use_of u ≡ lifetime_end → f.is_alloca u ≡ false
    end-alloca u h = laws.intrinsics u (λ e. cc (h, e))

    -- A search that does not give up met tracked users only, and found markers that are no slots.
    scan_users_lem :
        (ai : ℕ) (start end : Option ℕ) (us : List ℕ) (r : Option ℕ × Option ℕ)
        → scan_users f region start end us ≡ some r
        → is_marker start ≡ true
        → is_marker end ≡ true
        → (all_tracked ai us ≡ true) × (is_marker r.0 ≡ true) × (is_marker r.1 ≡ true)
    unfolding scan_users
    scan_users_lem ai start end [] r h m n = (refl, ground arith, ground arith)
    scan_users_lem ai none none (u ∷ us) r h m n = ground (
      arith,
      start-alloca u,
      end-alloca u,
      scan_users_lem ai (some u) none us r,
      scan_users_lem ai none (some u) us r,
      scan_users_lem ai none none us r,
    )
    scan_users_lem ai none (some e) (u ∷ us) r h m n = ground (
      arith,
      start-alloca u,
      scan_users_lem ai (some u) (some e) us r,
      scan_users_lem ai none (some e) us r,
    )
    scan_users_lem ai (some s) none (u ∷ us) r h m n = ground (
      arith,
      end-alloca u,
      scan_users_lem ai (some s) (some u) us r,
      scan_users_lem ai (some s) none us r,
    )
    scan_users_lem ai (some s) (some e) (u ∷ us) r h m n =
        ground (arith, scan_users_lem ai (some s) (some e) us r)

    checked :
        (exit : Option ℕ) (addr a b : ℕ) (found : Found) (q : ℕ × ℕ)
        → check_markers f region exit addr a b ≡ ok found
        → found.markers ≡ some q
        → q ≡ (a, b)
    unfolding check_markers
    checked exit addr a b found q ran e =
        let sink = not (in_region f region a) in
        let hoist = not (in_region f region b) in
        let (legal, _, last) =
          bind-ok (if sink || hoist then is_legal_to_shrinkwrap f region addr else ok true)
            (λ legal. ok (
              if not legal || (hoist && elim exit [ none ↦ true | some _ ↦ false ])
              then record { markers = none; sink_start = sink; hoist_end = hoist }
              else record { markers = some (a, b); sink_start = sink; hoist_end = hoist }))
            found ran in
        ground (arith, last, e)

    -- What a search for markers finds: markers that are no slots, if all users are tracked.
    pub found_lem :
        (exit : Option ℕ) (ai addr : ℕ) (sink hoist : Bool) (found : Found) (q : ℕ × ℕ)
        → get_life_time_markers f region exit addr sink hoist ≡ ok found
        → found.markers ≡ some q
        → (all_tracked ai (f.users addr) ≡ true)
          × (f.is_alloca q.0 ≡ false)
          × (f.is_alloca q.1 ≡ false)
    unfolding get_life_time_markers check_markers
    found_lem exit ai addr sink hoist found q ran e =
        elim (Option-cases (scan_users f region none none (f.users addr))) [
          | inl x ↦ absurd (ground (arith, ran, x, e))
          | inr ((some a, some b), x) ↦
              let (t, m, n) =
                scan_users_lem ai none none (f.users addr) (some a, some b) x refl refl in
              let same =
                checked exit addr a b found q (sym (rw (x, get_life_time_markers) refl) ∙ ran) e in
              (t, rw same (ground arith), rw same (ground arith))
          | inr ((none, b), x) ↦ absurd (ground (arith, ran, x, e))
          | inr ((some a, none), x) ↦ absurd (ground (arith, ran, x, e))
        ]

    abbrev pub HasMarkers : Found → Type 0
    HasMarkers found =
        (f.is_alloca (start_of f region found) ≡ false)
        × (f.is_alloca (end_of f region found) ≡ false)

    pub found-HasMarkers :
        (exit : Option ℕ) (addr : ℕ) (sink hoist : Bool) (found : Found)
        → get_life_time_markers f region exit addr sink hoist ≡ ok found
        → HasMarkers found
    unfolding start_of end_of
    found-HasMarkers exit addr sink hoist found ran = elim (Option-cases found.markers) [
      | inl e ↦ (rw e laws.null, rw e laws.null)
      | inr (q, e) ↦
          let (_, m, n) = found_lem exit addr addr sink hoist found q ran e in (rw e m, rw e n)
    ]

    guard-ok :
        (b : Bool) (x : Result (Option ℕ × Found)) (y : Option ℕ × Found)
        → (guard b Error.assertion >> x) ≡ ok y
        → x ≡ ok y
    guard-ok true x y h = h
    guard-ok false x y h = cc

    -- Where the search through the users ends with a cast, it is one of the slot, and all users are tracked.
    pub follow_users_lem :
        (exit : Option ℕ) (ai : ℕ) (addr : Option ℕ) (found : Found) (us : List ℕ) (a : ℕ)
        (found' : Found)
        → follow_users f region exit ai addr found us ≡ ok (some a, found')
        → elim addr [ none ↦ true | some w ↦ f.strip w == ai ] ≡ true
        → HasMarkers found
        → (all_tracked ai us ≡ true) × ((f.strip a == ai) ≡ true) × HasMarkers found'
    unfolding follow_users
    follow_users_lem exit ai addr found [] a found' h cast has =
        let ea : addr ≡ some a = cc in
        let ef : found ≡ found' = cc in (refl, rw ea at cast, subst HasMarkers ef has)
    follow_users_lem exit ai addr found (u ∷ us) a found' h cast has =
        elim (Bool-cases (f.strip u == ai)) [
          | inl here ↦
              let k : Found → Result (Option ℕ × Found) = λ now. elim now.markers [
                | some _ ↦ follow_users f region exit ai (some u) now us
                | none ↦
                    if in_region f region u
                    then follow_users f region exit ai addr now us
                    else ok (none, now)
              ] in
              let (now, found_now, rest) =
                bind-ok (get_life_time_markers f region exit u false false) k (some a, found')
                  (guard-ok (f.is_instruction u)
                    (get_life_time_markers f region exit u false false >>= k) (some a, found')
                    (sym (rw (here, follow_users) refl) ∙ h)) in
              let has_now = found-HasMarkers exit u false false now found_now in
              let r : (all_tracked ai us ≡ true) × ((f.strip a == ai) ≡ true) × HasMarkers found' =
                elim (Option-cases now.markers) [
                  | inl x ↦ elim (Bool-cases (in_region f region u)) [
                    | inl y ↦
                        follow_users_lem exit ai addr now us a found' (rw (x, y) at rest) cast
                          has_now
                    | inr n ↦ absurd (ground (arith, rest, x, n))
                  ]
                  | inr (q, x) ↦
                      follow_users_lem exit ai (some u) now us a found' (rw x at rest) here has_now
                ] in
              (ground (arith, here, r.0), r.1, r.2)
          | inr away ↦ elim (Bool-cases (in_region f region u)) [
            | inl y ↦
                let (t, e, l) =
                  follow_users_lem exit ai addr found us a found'
                    (sym (rw (away, follow_users) (rw y refl)) ∙ h) cast has in
                (ground (arith, y, t), e, l)
            | inr n ↦ absurd (ground (arith, h, away, n))
          ]
        ]
