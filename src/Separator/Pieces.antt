-- ===== src/Separator/Pieces.antt =====
-- The pieces that points cut a block into, taken from the last one on.
use mathlib.Core.Path.{subst}
use atrox.Prelude.{
  ℕ, ◌≡◌, refl, ap, ◌∙◌, inl, inr, true, false, List, [], ◌∷◌, ◌++◌, map, arith, All, contains,
  if◌then◌else◌,
}
use atrox.Recognition.{IteratorInfo}
use atrox.Separator.Points.{Mode, invert_mode, Inst, is_uncond_br, Point}
use atrox.Separator.Cuts.{Fits, Cuts, end, keep, cut}

abbrev pub ids : List Inst → List ℕ
ids = map Inst.id

-- No instruction stands twice.
abbrev pub IsUnique : List Inst → Type 0
IsUnique [] = Unit
IsUnique (i ∷ is') = (contains (ids is') i.id ≡ false) × IsUnique is'

pub contains-ids-append :
    (xs ys : List Inst) (a : ℕ)
    → contains (ids (xs ++ ys)) a ≡ (if contains (ids xs) a then true else contains (ids ys) a)
contains-ids-append [] ys a = refl
contains-ids-append (x ∷ xs) ys a = ground (arith, contains-ids-append xs ys a)

pub IsUnique-prefix :
    (pre : List Inst) (i : Inst) (post : List Inst)
    → IsUnique (pre ++ i ∷ post)
    → (contains (ids pre) i.id ≡ false) × IsUnique pre
IsUnique-prefix [] i post u = (refl, tt)
IsUnique-prefix (x ∷ pre) i post (n, u) =
    let (m, v) = IsUnique-prefix pre i post u in
    let law = contains-ids-append pre (i ∷ post) x.id in (ground arith, (ground arith, v))

pub IsUnique-concat :
    (pre : List Inst) (j : Inst)
    → IsUnique pre
    → contains (ids pre) j.id ≡ false
    → IsUnique (pre ++ j ∷ [])
IsUnique-concat [] j u n = (refl, tt)
IsUnique-concat (x ∷ pre) j (m, u) n =
    let law = contains-ids-append pre (j ∷ []) x.id in
    (ground arith, IsUnique-concat pre j u (ground arith))

module _ (info : IteratorInfo) where
  pub Cuts-nil : {m n : Mode} {is' : List Inst} → Cuts info m is' [] n → All (Fits info m) is'
  Cuts-nil end = tt
  Cuts-nil (keep fit c) = (fit, Cuts-nil c)

  -- The last point cuts off a piece of one mode.
  pub record LastCut (m : Mode) (is' : List Inst) (ps : List Point) (i : Inst) (k : Mode)
      : Type 0 where
    pub pre : List Inst
    pub post : List Inst
    pub last : Mode
    pub split : is' ≡ pre ++ i ∷ post
    pub cuts : Cuts info m pre ps last
    pub fits : All (Fits info k) (i ∷ post)

  pub Cuts-last :
      {m n : Mode} {is' : List Inst} {qs : List Point}
      → Cuts info m is' qs n
      → (ps : List Point) (i : Inst) (k : Mode) → qs ≡ ps ++ (i, k) ∷ []
      → LastCut m is' ps i k
  Cuts-last end [] i k e = cc
  Cuts-last end (p ∷ ps) i k e = cc
  Cuts-last (keep {i = x} fit c) ps i k e =
      let l = Cuts-last c ps i k e in
      record {
        pre = x ∷ l.pre;
        post = l.post;
        last = l.last;
        split = ap (λ xs. x ∷ xs) l.split;
        cuts = keep fit l.cuts;
        fits = l.fits;
      }
  Cuts-last (cut {m = m} {k = j} {n = n} {i = x} {is' = is'} {ps = rs} f g c) [] i k e =
      let ex : x ≡ i = cc in
      let ek : j ≡ k = cc in
      let er : rs ≡ [] = cc in
      record {
        pre = [];
        post = is';
        last = m;
        split = ap (λ y. y ∷ is') ex;
        cuts = end;
        fits = (
          inl (rw (← ex) (g ∙ ek)),
          subst (λ q. All (Fits info q) is') ek (Cuts-nil (subst (λ r. Cuts info j is' r n) er c)),
        );
      }
  Cuts-last (cut {m = m} {k = j} {i = x} {is' = is'} {ps = rs} f g c) (p ∷ ps) i k e =
      let l = Cuts-last c ps i k (cc) in
      let ep : (x, j) ≡ p = cc in
      record {
        pre = x ∷ l.pre;
        post = l.post;
        last = l.last;
        split = ap (λ xs. x ∷ xs) l.split;
        cuts = subst (λ r. Cuts info m (x ∷ l.pre) (r ∷ ps) l.last) ep (cut f g l.cuts);
        fits = l.fits;
      }

  pub Cuts-concat :
      {m n : Mode} {is' : List Inst} {ps : List Point} (j : Inst)
      → is_uncond_br j ≡ true
      → Cuts info m is' ps n
      → Cuts info m (is' ++ j ∷ []) ps n
  Cuts-concat j br end = keep (inr br) end
  Cuts-concat j br (keep fit c) = keep fit (Cuts-concat j br c)
  Cuts-concat j br (cut f g c) = cut f g (Cuts-concat j br c)

  -- The first point has the mode that the block does not begin in.
  pub Cuts-first :
      {m n : Mode} {is' : List Inst} {qs : List Point}
      → Cuts info m is' qs n
      → (i : Inst) (k : Mode) (ps : List Point) → qs ≡ (i, k) ∷ ps
      → k ≡ invert_mode m
  Cuts-first end i k ps e = cc
  Cuts-first (keep fit c) i k ps e = Cuts-first c i k ps e
  Cuts-first (cut f g c) i k ps e = cc
