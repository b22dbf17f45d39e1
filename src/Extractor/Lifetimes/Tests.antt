-- ===== src/Extractor/Lifetimes/Tests.antt =====
-- A slot that is started before the region and ended behind it, and one that has two casts, of which the second has no
-- place for its end.
use atrox.Prelude.{
  ◌≡◌, refl, true, false, ◌||◌, if◌then◌else◌, [], ◌∷◌, some, none, ◌==◌, ok, arith,
}
use atrox.Extractor.Lifetimes.{
  marker, plain, store, lifetime_start, lifetime_end, no_intrinsic, Frame, Candidates,
  get_common_exit_block, find_allocas, scan_succs, scan_blocks, in_region, leaves_alone,
  is_legal_to_shrinkwrap, scan_users, check_markers, get_life_time_markers, follow_users, start_of,
  end_of, add_candidates, add_alloca, add_allocas, add_blocks,
}
use atrox.Extractor.Lifetimes.Exits.{exits, one_of, get_common_exit_block_lem}
use atrox.Extractor.Lifetimes.Sound.{IsFrame, all_tracked}
use atrox.Extractor.Lifetimes.Sunk.{is_outside, find_allocas_lem}
use atrox.Extractor.Lifetimes.Total.{find_allocas-returns}

abbrev nothing : Candidates
nothing = record { sink = []; hoist = [] }

-- The region is block 1. The slot 10 is written by 12.
abbrev one_slot : Frame
one_slot = record {
  blocks = 0 ∷ 1 ∷ 2 ∷ [];
  instructions = λ b. if b == 0 then 10 ∷ 11 ∷ [] else if b == 1 then 12 ∷ [] else 13 ∷ [];
  succs = λ b. if b == 0 then 1 ∷ [] else if b == 1 then 2 ∷ [] else [];
  parent = λ u. if u == 12 then some 1 else if u == 13 then some 2 else some 0;
  kind = λ u. if u == 12 then store 10 else if u == 10 then plain false else marker;
  use_of = λ u. if u == 11 then lifetime_start else if u == 13 then lifetime_end else no_intrinsic;
  users = λ u. if u == 10 then 11 ∷ 12 ∷ 13 ∷ [] else [];
  strip = λ u. u;
  is_alloca = λ u. u == 10;
  is_constant = λ u. false;
  is_instruction = λ u. true;
}

one_slot-IsFrame : IsFrame one_slot
one_slot-IsFrame = record {
  intrinsics = λ u h. ground (arith, h);
  null = refl;
  instructions = λ u h. ground (arith, h);
  stripped = λ u h. refl;
}

one_slot_found :
    find_allocas one_slot (1 ∷ []) nothing
    ≡ ok (record { sink = 11 ∷ 10 ∷ []; hoist = 13 ∷ [] }, some 2)
unfolding find_allocas get_common_exit_block scan_succs scan_blocks in_region leaves_alone
    is_legal_to_shrinkwrap scan_users check_markers get_life_time_markers follow_users start_of
    end_of add_candidates add_alloca add_allocas add_blocks
one_slot_found = refl

find_allocas_lem_example :
    (is_outside one_slot (1 ∷ []) one_slot.blocks 10 ≡ true)
    × (all_tracked one_slot (1 ∷ []) 10 (one_slot.users 10) ≡ true)
find_allocas_lem_example =
    find_allocas_lem one_slot (1 ∷ []) one_slot-IsFrame
      (record { sink = 11 ∷ 10 ∷ []; hoist = 13 ∷ [] }) (some 2) 10 one_slot_found refl refl

find_allocas-returns_example :
    (d : Candidates) × (find_allocas one_slot (1 ∷ []) nothing
      ≡ ok (d, get_common_exit_block one_slot (1 ∷ [])))
find_allocas-returns_example = find_allocas-returns one_slot (1 ∷ []) nothing one_slot-IsFrame

get_common_exit_block_lem_example :
    get_common_exit_block one_slot (1 ∷ []) ≡ one_of (exits one_slot.succs (1 ∷ []) (1 ∷ []))
get_common_exit_block_lem_example = get_common_exit_block_lem one_slot (1 ∷ [])

-- The region is block 1, with two exits. The slot 10 has the casts 14 and 15 there. The markers 16 and 17 of the first
-- are there too. Of the second the end 19 is outside, so that its search fails after the flag for it is set.
abbrev two_casts : Frame
two_casts = record {
  blocks = 0 ∷ 1 ∷ 2 ∷ 3 ∷ [];
  instructions = λ b.
      if b == 0
      then 10 ∷ []
      else if b == 1
      then 14 ∷ 15 ∷ 16 ∷ 17 ∷ 18 ∷ []
      else if b == 2
      then 19 ∷ []
      else [];
  succs = λ b. if b == 0 then 1 ∷ [] else if b == 1 then 2 ∷ 3 ∷ [] else [];
  parent = λ u. if u == 10 then some 0 else if u == 19 then some 2 else some 1;
  kind = λ u.
      if u == 10
      then plain false
      else if u == 14
      then plain false
      else if u == 15
      then plain false
      else marker;
  use_of = λ u.
      if (u == 16) || (u == 18)
      then lifetime_start
      else if (u == 17) || (u == 19)
      then lifetime_end
      else no_intrinsic;
  users = λ u.
      if u == 10
      then 14 ∷ 15 ∷ []
      else if u == 14
      then 16 ∷ 17 ∷ []
      else if u == 15
      then 18 ∷ 19 ∷ []
      else [];
  strip = λ u. if (u == 14) || (u == 15) then 10 else u;
  is_alloca = λ u. u == 10;
  is_constant = λ u. false;
  is_instruction = λ u. true;
}

-- The null pointer is among the candidates to hoist.
two_casts_found :
    find_allocas two_casts (1 ∷ []) nothing ≡ ok (record { sink = 10 ∷ []; hoist = 0 ∷ [] }, none)
unfolding find_allocas get_common_exit_block scan_succs scan_blocks in_region leaves_alone
    is_legal_to_shrinkwrap scan_users check_markers get_life_time_markers follow_users start_of
    end_of add_candidates add_alloca add_allocas add_blocks
two_casts_found = refl
