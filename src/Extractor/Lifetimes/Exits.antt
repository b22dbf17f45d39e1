-- ===== src/Extractor/Lifetimes/Exits.antt =====
-- The block that all edges out of the region lead to.
use atrox.Prelude.{
  ℕ, ◌≡◌, refl, Bool, not, ◌||◌, if◌then◌else◌, List, [], ◌∷◌, ◌++◌, any, contains, select, Option,
  some, none, ◌==◌, ==→≡, arith,
}
use atrox.Extractor.Lifetimes.{Frame, scan_succs, scan_blocks, get_common_exit_block}

-- The ends of the edges out of the region, in order.
abbrev pub exits : (ℕ → List ℕ) → List ℕ → List ℕ → List ℕ
exits succs region [] = []
exits succs region (b ∷ bs) =
    select (λ s. not (contains region s)) (succs b) ++ exits succs region bs

-- The one block of a list, however often it is there.
abbrev pub one_of : List ℕ → Option ℕ
one_of [] = none
one_of (e ∷ es) = if any (λ s. not (s == e)) es then none else some e

-- From a common exit on, if there is one.
abbrev after : Option ℕ → List ℕ → Option ℕ
after none es = one_of es
after (some e) es = if any (λ s. not (s == e)) es then none else some e

-- What a scan leaves behind.
abbrev result : Bool × Option ℕ → Option ℕ
result r = if r.0 then none else r.1

any-append : (p : ℕ → Bool) (xs ys : List ℕ) → any p (xs ++ ys) ≡ (any p xs || any p ys)
any-append p [] ys = refl
any-append p (x ∷ xs) ys = ground (arith, any-append p xs ys)

module _ (f : Frame) (region : List ℕ) where
  scan_succs_lem :
      (common : Option ℕ) (ss rest : List ℕ)
      → after common (select (λ s. not (contains region s)) ss ++ rest) ≡ (
          if (scan_succs f region common ss).0
          then none
          else after (scan_succs f region common ss).1 rest)
  unfolding scan_succs
  scan_succs_lem none [] rest = ground arith
  scan_succs_lem (some e) [] rest = ground arith
  scan_succs_lem none (s ∷ ss) rest =
      ground (arith, scan_succs_lem none ss rest, scan_succs_lem (some s) ss rest)
  scan_succs_lem (some e) (s ∷ ss) rest =
      ground (
        arith,
        scan_succs_lem (some e) ss rest,
        scan_succs_lem (some s) ss rest,
        ==→≡ s e,
        ==→≡ e s,
      )

  scan_blocks_lem :
      (common : Option ℕ) (bs : List ℕ)
      → result (scan_blocks f region common bs) ≡ after common (exits f.succs region bs)
  unfolding scan_blocks
  scan_blocks_lem none [] = refl
  scan_blocks_lem (some e) [] = refl
  scan_blocks_lem common (b ∷ bs) = ground (
    arith,
    scan_succs_lem common (f.succs b) (exits f.succs region bs),
    scan_blocks_lem (scan_succs f region common (f.succs b)).1 bs,
  )

  -- The common exit block is the block that the edges out of the region lead to, if there are such edges and all
  -- lead to one block; else there is none.
  pub get_common_exit_block_lem :
      get_common_exit_block f region ≡ one_of (exits f.succs region region)
  unfolding get_common_exit_block
  get_common_exit_block_lem = scan_blocks_lem none region
