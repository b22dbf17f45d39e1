-- ===== src/Extractor/Run/Closed.antt =====
-- Where the clones branch to and have the values of their phi nodes from: blocks of the new function.
use atrox.Prelude.{
  ℕ, ◌≡◌, refl, Bool, true, false, List, [], ◌∷◌, map, any, All, select, contains, not, ◌&&◌,
  Bool-cases, inl, inr, ◌==◌, arith,
}
use atrox.Extractor.Code.{Phi, Code}
use atrox.Extractor.Clone.Targets.{
  Target, in_new_function, clone_successors, header_incoming, remap_incoming, remap_target,
}
use atrox.Extractor.Clone.Exits.{clone_targets_lem}

-- Branches of clones, and where phi nodes have their values from, stay in the new function.
abbrev pub IsClosed : List Target → Type 0
IsClosed = All (λ t. in_new_function t ≡ true)

pub All-clone_successors :
    (region : List ℕ) (succs : ℕ → List ℕ) (bs : List ℕ)
    → All
        (λ (q : ℕ × List Target). IsClosed q.1)
        (map (λ b. (b, clone_successors region (succs b))) bs)
All-clone_successors region succs [] = tt
All-clone_successors region succs (b ∷ bs) =
    ((clone_targets_lem region (succs b)).2, All-clone_successors region succs bs)

-- No phi node of a block of the region but the header has a value from outside of the region.
abbrev pub is_single_entry : Code → List ℕ → ℕ → Bool
is_single_entry c region h = not (
    any
      (λ b.
        not (b == h)
        && any (λ (e : Phi). any (λ q. not (contains region q)) (map (λ q. q.0) e.1)) (c.phis b))
      region)

remap_incoming-IsClosed :
    (region bs : List ℕ)
    → any (λ q. not (contains region q)) bs ≡ false
    → IsClosed (remap_incoming region bs)
unfolding remap_incoming remap_target in_new_function
remap_incoming-IsClosed region [] h = tt
remap_incoming-IsClosed region (b ∷ bs) h =
    let y : contains region b ≡ true = ground (arith, h) in
    rw y (refl, remap_incoming-IsClosed region bs (ground (arith, h)))

phis-IsClosed :
    (region : List ℕ) (ps : List Phi)
    → any (λ (e : Phi). any (λ q. not (contains region q)) (map (λ q. q.0) e.1)) ps ≡ false
    → All IsClosed (map (λ (e : Phi). remap_incoming region (map (λ q. q.0) e.1)) ps)
phis-IsClosed region [] h = tt
phis-IsClosed region ((pn, inc) ∷ ps) h = (
  remap_incoming-IsClosed region (map (λ q. q.0) inc) (ground (arith, h)),
  phis-IsClosed region ps (ground (arith, h)),
)

-- Where the clones of phi nodes behind the header have their values from.
pub others-IsClosed :
    (c : Code) (region : List ℕ) (h : ℕ) (bs : List ℕ)
    → any
        (λ b.
          not (b == h)
          && any (λ (e : Phi). any (λ q. not (contains region q)) (map (λ q. q.0) e.1)) (c.phis b))
        bs
      ≡ false
    → All
        (λ (q : ℕ × List (List Target)). All IsClosed q.1)
        (map
          (λ b. (b, map (λ (e : Phi). remap_incoming region (map (λ q. q.0) e.1)) (c.phis b)))
          (select (λ b. not (b == h)) bs))
others-IsClosed c region h [] n = tt
others-IsClosed c region h (b ∷ bs) n = elim (Bool-cases (b == h)) [
  | inl y ↦ rw y (others-IsClosed c region h bs (ground (arith, n)))
  | inr k ↦ rw k (
    phis-IsClosed region (c.phis b) (ground (arith, n, k)),
    others-IsClosed c region h bs (ground (arith, n)),
  )
]

pub All-header_incoming :
    (region : List ℕ) (ps : List Phi)
    → All IsClosed (map (λ (e : Phi). header_incoming region (map (λ q. q.0) e.1)) ps)
All-header_incoming region [] = tt
All-header_incoming region ((pn, inc) ∷ ps) =
    ((clone_targets_lem region (map (λ q. q.0) inc)).3, All-header_incoming region ps)
