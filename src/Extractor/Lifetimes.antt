-- ===== src/Extractor/Lifetimes.antt =====
-- `getCommonExitBlock`, `isLegalToShrinkwrapLifetimeMarkers` and `findAllocas`: which stack slots of the caller may move
-- into the region, with their lifetime markers. The null pointer is `none`.
pub mod Exits
pub mod Sound
pub mod Slots
pub mod Sunk
pub mod Tests
pub mod Total
use atrox.Prelude.{
  ℕ, Bool, true, false, not, ◌&&◌, ◌||◌, if◌then◌else◌, List, [], ◌∷◌, any, contains, insert,
  Option, some, none, ◌==◌, Result, Error, ok, err, ◌>>=◌, ◌>>◌, guard,
}

-- An instruction, as the code tells it apart: with the address that it reads or writes, or whether it has side
-- effects.
pub data Kind : Type 0 where
  debug marker other_intrinsic : Kind
  store load : ℕ → Kind
  plain : Bool → Kind

-- An intrinsic that uses an address.
pub data Use : Type 0 where
  lifetime_start lifetime_end other_call no_intrinsic : Use

-- What is read of LLVM. `strip` is `stripInBoundsConstantOffsets`.
pub record Frame : Type 0 where
  pub blocks : List ℕ
  pub instructions : ℕ → List ℕ
  pub succs : ℕ → List ℕ
  pub parent : ℕ → Option ℕ
  pub kind : ℕ → Kind
  pub use_of : ℕ → Use
  pub users : ℕ → List ℕ
  pub strip : ℕ → ℕ
  pub is_alloca : ℕ → Bool
  pub is_constant : ℕ → Bool
  pub is_instruction : ℕ → Bool

-- The candidates to sink and to hoist.
pub record Candidates : Type 0 where
  pub sink : List ℕ
  pub hoist : List ℕ

-- What a search for markers leaves: the markers, and the two flags, which it may set before it fails.
pub record Found : Type 0 where
  pub markers : Option (ℕ × ℕ)
  pub sink_start : Bool
  pub hoist_end : Bool

module _ (f : Frame) (region : List ℕ) where
  open f use {
    blocks, instructions, succs, parent, kind, use_of, users, strip, is_alloca, is_constant,
    is_instruction,
  }

  -- The loop over the successors of a block: whether there is another common exit, and the common exit.
  unfoldable pub scan_succs : Option ℕ → List ℕ → Bool × Option ℕ
  scan_succs common [] = (false, common)
  scan_succs common (s ∷ ss) =
      let rest = scan_succs (if contains region s then common else some s) ss in
      let other : Bool = elim common [ none ↦ false | some e ↦ not (e == s) ] in
      if not (contains region s) && other then (true, common) else rest

  unfoldable pub scan_blocks : Option ℕ → List ℕ → Bool × Option ℕ
  unfolding scan_succs
  scan_blocks common [] = (false, common)
  scan_blocks common (b ∷ bs) =
      let r = scan_succs common (succs b) in
      let rest = scan_blocks r.1 bs in if r.0 then (true, r.1) else rest

  unfoldable pub get_common_exit_block : Option ℕ
  unfolding scan_blocks
  get_common_exit_block = let r = scan_blocks none region in if r.0 then none else r.1

  unfoldable pub in_region : ℕ → Bool
  in_region v = elim (parent v) [ none ↦ false | some b ↦ contains region b ]

  -- Whether an instruction outside of the region leaves the slot alone.
  unfoldable pub leaves_alone : ℕ → Kind → Bool
  leaves_alone ai debug = true
  leaves_alone ai marker = true
  leaves_alone ai other_intrinsic = false
  leaves_alone ai (store p) =
      if is_constant p then true else is_alloca (strip p) && not (strip p == ai)
  leaves_alone ai (load p) =
      if is_constant p then true else is_alloca (strip p) && not (strip p == ai)
  leaves_alone ai (plain effects) = not effects

  unfoldable pub is_legal_to_shrinkwrap : ℕ → Result Bool
  unfolding leaves_alone
  is_legal_to_shrinkwrap addr =
      guard (is_alloca (strip addr)) Error.assertion
      >> ok (
          not (
            any
              (λ b.
                not (contains region b)
                && any (λ i. not (leaves_alone (strip addr) (kind i))) (instructions b))
              blocks))

  -- The loop over the users of an address; `none` where it gives up.
  unfoldable pub scan_users : Option ℕ → Option ℕ → List ℕ → Option (Option ℕ × Option ℕ)
  unfolding in_region
  scan_users start end [] = some (start, end)
  scan_users start end (u ∷ us) = elim (use_of u) [
    | lifetime_start ↦ elim start [ none ↦ scan_users (some u) end us | some _ ↦ none ]
    | lifetime_end ↦ elim end [ none ↦ scan_users start (some u) us | some _ ↦ none ]
    | other_call ↦ scan_users start end us
    | no_intrinsic ↦ if in_region u then scan_users start end us else none
  ]

  -- With both markers: the flags, and the two checks.
  unfoldable pub check_markers : Option ℕ → ℕ → ℕ → ℕ → Result Found
  unfolding in_region is_legal_to_shrinkwrap
  check_markers exit addr start end =
      let sink = not (in_region start) in
      let hoist = not (in_region end) in
      let fails : Found = record { markers = none; sink_start = sink; hoist_end = hoist } in
      (if sink || hoist then is_legal_to_shrinkwrap addr else ok true) >>= λ legal. ok (
        if not legal || (hoist && elim exit [ none ↦ true | some _ ↦ false ])
        then fails
        else record { markers = some (start, end); sink_start = sink; hoist_end = hoist })

  unfoldable pub get_life_time_markers : Option ℕ → ℕ → Bool → Bool → Result Found
  unfolding scan_users check_markers
  get_life_time_markers exit addr sink hoist = elim (scan_users none none (users addr)) [
    | some (some start, some end) ↦ check_markers exit addr start end
    | _ ↦ ok (record { markers = none; sink_start = sink; hoist_end = hoist })
  ]

  -- The loop over the users of a slot whose markers are those of a cast: the cast, and what the last search left.
  unfoldable pub follow_users : Option ℕ → ℕ → Option ℕ → Found → List ℕ → Result (Option ℕ × Found)
  unfolding in_region get_life_time_markers
  follow_users exit ai addr found [] = ok (addr, found)
  follow_users exit ai addr found (u ∷ us) = elim (strip u == ai) [
    | true ↦
        guard (is_instruction u) Error.assertion
        >> (get_life_time_markers exit u false false >>= λ now. elim now.markers [
          | some _ ↦ follow_users exit ai (some u) now us
          | none ↦ if in_region u then follow_users exit ai addr now us else ok (none, now)
        ])
    | false ↦ if in_region u then follow_users exit ai addr found us else ok (none, found)
  ]

  -- The markers are read where there may be none.
  unfoldable pub start_of : Found → ℕ
  start_of found = elim found.markers [ none ↦ 0 | some q ↦ q.0 ]

  unfoldable pub end_of : Found → ℕ
  end_of found = elim found.markers [ none ↦ 0 | some q ↦ q.1 ]

  -- The slot, and the cast of it that the markers are of.
  unfoldable pub add_candidates : ℕ → Option ℕ → Found → Candidates → Candidates
  unfolding in_region start_of end_of
  add_candidates ai cast found c =
      let started = if found.sink_start then insert c.sink (start_of found) else c.sink in
      let casts = elim cast as (λ x. List ℕ) [
        | none ↦ started
        | some a ↦ if in_region a then started else insert started a
      ] in
      record {
        sink = insert casts ai;
        hoist = if found.hoist_end then insert c.hoist (end_of found) else c.hoist;
      }

  unfoldable pub add_alloca : Option ℕ → ℕ → Candidates → Result Candidates
  unfolding get_life_time_markers follow_users add_candidates
  add_alloca exit ai c = get_life_time_markers exit ai false false >>= λ found. elim found.markers [
    | some _ ↦ ok (add_candidates ai none found c)
    | none ↦ follow_users exit ai none found (users ai) >>= λ r.
        ok (elim r.0 [ none ↦ c | some a ↦ add_candidates ai (some a) r.1 c ])
  ]

  unfoldable pub add_allocas : Option ℕ → List ℕ → Candidates → Result Candidates
  unfolding add_alloca
  add_allocas exit [] c = ok c
  add_allocas exit (i ∷ is') c =
      (if is_alloca i then add_alloca exit i c else ok c) >>= λ d. add_allocas exit is' d

  unfoldable pub add_blocks : Option ℕ → List ℕ → Candidates → Result Candidates
  unfolding add_allocas
  add_blocks exit [] c = ok c
  add_blocks exit (b ∷ bs) c =
      (if contains region b then ok c else add_allocas exit (instructions b) c) >>= λ d.
      add_blocks exit bs d

  unfoldable pub find_allocas : Candidates → Result (Candidates × Option ℕ)
  unfolding get_common_exit_block add_blocks
  find_allocas c = add_blocks get_common_exit_block blocks c >>= λ d. ok (d, get_common_exit_block)
