-- ===== src/Payload/Trees/Correct.antt =====
-- The groups of `SelectPayloadTrees` are what hangs from their roots.
use atrox.Prelude.{
  Bool-cases, ◌==◌, ℕ, suc, ◌≡◌, refl, ◌⊎◌, inl, inr, true, false, List, [], ◌∷◌, arith, map,
  length, contains, insert, erase, contains-insert, contains-erase, ok, All, ==→≡, ==_refl, ap,
}
use atrox.Llvm.{Cfg, SetOrder}
use atrox.Payload.Trees.{Group, Growth, grow, grow_groups}
use atrox.Payload.Trees.Loop.{
  Hangs, here, step, contains-push_succs, next_list, next_state, grow_root_rule,
}

-- Some group of a list has a block.
abbrev pub Covered : List Group → ℕ → Type 0
Covered [] x = ⊥
Covered (g ∷ gs) x = (contains g.members x ≡ true) ⊎ Covered gs x

-- A group as `rootGroups` holds it before the loops.
abbrev pub IsSeed : Group → Type 0
IsSeed g = g.members ≡ g.root ∷ []

module _ (cfg : Cfg) (order : SetOrder) (payload bl : List ℕ) where
  open cfg use {succs}

  -- The payload successors of what was visited are blacklisted too, or wait.
  abbrev IsClosed : List ℕ → List ℕ → Type 0
  IsClosed now wl =
      (x y : ℕ)
      → contains now x ≡ true
      → contains bl x ≡ false
      → contains (succs x) y ≡ true
      → contains payload y ≡ true
      → (contains now y ≡ true) ⊎ (contains wl y ≡ true)

  abbrev IsAbove : List ℕ → Type 0
  IsAbove now = (a : ℕ) → contains bl a ≡ true → contains now a ≡ true

  next-waiting :
      (wl : List ℕ) (s : Growth) (bb a : ℕ)
      → contains (next_list cfg order payload wl s bb) a ≡ true
      → (contains wl a ≡ true)
        ⊎ (contains (succs bb) a ≡ true)
          × (contains payload a ≡ true)
          × (contains s.blacklisted a ≡ false)
  next-waiting wl s bb a h = ground (
    arith,
    contains-push_succs payload (insert s.blacklisted bb) (erase wl bb) (succs bb) a,
    contains-insert s.blacklisted bb a,
    contains-erase wl bb a,
  )

  next-inside :
      (s : Growth) (bb a : ℕ)
      → contains (insert s.members bb) a ≡ true
      → (contains s.members a ≡ true) ⊎ (a ≡ bb)
  next-inside s bb a h = ground (arith, contains-insert s.members bb a, ==→≡ a bb)

  module _ (Before : ℕ → Type 0) (r : ℕ) (start : List ℕ) where
    record Inv (wl : List ℕ) (s : Growth) : Type 0 where
      above : IsAbove s.blacklisted
      kept : (a : ℕ) → contains start a ≡ true → contains s.blacklisted a ≡ true
      waiting : (a : ℕ) → contains wl a ≡ true → Hangs cfg payload bl r a
      inside : (a : ℕ) → contains s.members a ≡ true → Hangs cfg payload bl r a
      rooted : contains s.members r ≡ true
      begun : (contains s.blacklisted r ≡ true) ⊎ (contains wl r ≡ true)
      closed : IsClosed s.blacklisted wl
      covered :
          (x : ℕ)
          → contains s.blacklisted x ≡ true
          → contains bl x ≡ false
          → Before x ⊎ (contains s.members x ≡ true)

    Inv-next :
        (wl : List ℕ) (s : Growth) (bb : ℕ)
        → contains wl bb ≡ true
        → Inv wl s
        → Inv (next_list cfg order payload wl s bb) (next_state cfg order payload s bb)
    Inv-next wl s bb m i =
        let added = λ (a : ℕ). contains-insert s.blacklisted bb a in
        let taken = λ (a : ℕ). contains-erase wl bb a in
        let pushed = λ (a : ℕ).
          contains-push_succs payload (insert s.blacklisted bb) (erase wl bb) (succs bb) a in
        record {
          above = λ a h. ground (arith, i.above a h, added a);
          kept = λ a h. ground (arith, i.kept a h, added a);
          waiting = λ a h. elim (next-waiting wl s bb a h) [
            | inl old ↦ i.waiting a old
            | inr (e, p, n) ↦ step (i.waiting bb m) e p (ground (arith, i.above a))
          ];
          inside = λ a h. elim (next-inside s bb a h) [
            | inl old ↦ i.inside a old
            | inr e ↦ rw e (i.waiting bb m)
          ];
          rooted = ground (arith, i.rooted, contains-insert s.members bb r);
          begun = ground (arith, i.begun, added r, pushed r, taken r);
          closed = λ x y hx nx e p.
              ground (arith, added x, added y, pushed y, taken y, ==→≡ x bb, i.closed x y);
          covered = λ x h n. ground (arith, added x, i.covered x, contains-insert s.members bb x);
        }

    -- One root's loop returns, and its group is what it visited.
    grow-Inv :
        (s : Growth)
        → Inv (r ∷ []) s
        → (t : Growth) × (wl : List ℕ) × (grow cfg order payload (suc (length payload)) (r ∷ []) s
            ≡ ok t)
          × Inv wl t
          × ((a : ℕ) → contains wl a ≡ false)
    grow-Inv s i = grow_root_rule cfg order payload Inv Inv-next r s i

  abbrev pub IsSound : Group → Type 0
  IsSound g =
      (contains g.members g.root ≡ true)
      × ((x : ℕ) → contains g.members x ≡ true → Hangs cfg payload bl g.root x)

  -- What the loop over the groups leaves behind, with the last state of the blacklist.
  pub record Run (Before : ℕ → Type 0) (now : List ℕ) (gs : List Group) : Type 0 where
    pub groups : List Group
    end : List ℕ
    pub returns : grow_groups cfg order payload now gs ≡ ok groups
    pub roots : map Group.root groups ≡ map Group.root gs
    pub sound : All IsSound groups
    above : (a : ℕ) → contains now a ≡ true → contains end a ≡ true
    closed : IsClosed end []
    covered : (x : ℕ) → contains end x ≡ true → contains bl x ≡ false → Before x ⊎ Covered groups x
    begun : All (λ g. contains end g.root ≡ true) gs

  eq_of_contains : (r a : ℕ) → contains (r ∷ []) a ≡ true → a ≡ r
  eq_of_contains r a h = ground (arith, ==→≡ a r)

  Inv-start :
      (Before : ℕ → Type 0) (now : List ℕ) (r : ℕ)
      → IsAbove now
      → IsClosed now []
      → ((x : ℕ) → contains now x ≡ true → contains bl x ≡ false → Before x)
      → Inv Before r now (r ∷ []) (record { blacklisted = now; members = r ∷ [] })
  Inv-start Before now r above closed covered = record {
    above = above;
    kept = λ a h. h;
    waiting = λ a h. rw (eq_of_contains r a h) here;
    inside = λ a h. rw (eq_of_contains r a h) here;
    rooted = ground (arith, ==_refl r);
    begun = inr (ground (arith, ==_refl r));
    closed = λ x y hx nx e p. elim (closed x y hx nx e p) [ inl h ↦ inl h | inr h ↦ cc ];
    covered = λ x h n. inl (covered x h n);
  }

  -- Every loop returns, and between them they visit all that hangs from the roots.
  pub grow_groups-Run :
      (Before : ℕ → Type 0) (now : List ℕ) (gs : List Group)
      → All IsSeed gs
      → IsAbove now
      → IsClosed now []
      → ((x : ℕ) → contains now x ≡ true → contains bl x ≡ false → Before x)
      → Run Before now gs
  unfolding grow_groups
  grow_groups-Run Before now [] seeds above closed covered = record {
    groups = [];
    end = now;
    returns = refl;
    roots = refl;
    sound = tt;
    above = λ a h. h;
    closed = closed;
    covered = λ x h n. inl (covered x h n);
    begun = tt;
  }
  grow_groups-Run Before now (g ∷ gs) (seed, seeds) above closed covered =
      let r = g.root in
      let (t, wl, ends, i, empty) =
        grow-Inv Before r now (record { blacklisted = now; members = r ∷ [] })
          (Inv-start Before now r above closed covered) in
      let Now : ℕ → Type 0 = λ x. Before x ⊎ (contains t.members x ≡ true) in
      let rest =
        grow_groups-Run Now t.blacklisted gs seeds i.above
          (λ x y hx nx e p. elim (i.closed x y hx nx e p) [
            | inl h ↦ inl h
            | inr h ↦ absurd (ground (arith, empty y))
          ])
          i.covered in
      record {
        groups = record { root = r; members = t.members } ∷ rest.groups;
        end = rest.end;
        returns = rw (seed, ends, rest.returns) refl;
        roots = ap (λ l. r ∷ l) rest.roots;
        sound = ((i.rooted, i.inside), rest.sound);
        above = λ a h. rest.above a (i.kept a h);
        closed = rest.closed;
        covered = λ x h n. elim (rest.covered x h n) [
          | inl (inl b) ↦ inl b
          | inl (inr m) ↦ inr (inl m)
          | inr c ↦ inr (inr c)
        ];
        begun = (rest.above r (ground (arith, i.begun, empty r)), rest.begun);
      }

  -- What hangs from a root was visited.
  Hangs-visited :
      (end : List ℕ) (r x : ℕ)
      → IsClosed end []
      → contains end r ≡ true
      → contains bl r ≡ false
      → Hangs cfg payload bl r x
      → (contains end x ≡ true) × (contains bl x ≡ false)
  Hangs-visited end r x closed m n here = (m, n)
  Hangs-visited end r x closed m n (step {x = w} h e p out) =
      let (hw, nw) = Hangs-visited end r w closed m n h in
      elim (closed w x hw nw e p) [ inl now ↦ (now, out) | inr none' ↦ cc ]

  begun_root :
      (end : List ℕ) (gs : List Group) (r : ℕ)
      → All (λ g. contains end g.root ≡ true) gs
      → contains (map Group.root gs) r ≡ true
      → contains end r ≡ true
  begun_root end [] r a h = cc
  begun_root end (g ∷ gs) r (b, a) h = elim (Bool-cases (r == g.root)) [
    | inl e ↦ rw (==→≡ r g.root e) b
    | inr n ↦ begun_root end gs r a (ground arith)
  ]

  -- Each block that hangs from one of the roots is in a group.
  pub Run-covers :
      (now : List ℕ) (gs : List Group) (run : Run (λ _. ⊥) now gs) (r x : ℕ)
      → contains (map Group.root gs) r ≡ true
      → contains bl r ≡ false
      → Hangs cfg payload bl r x
      → Covered run.groups x
  Run-covers now gs run r x m n h =
      let (hx, nx) =
        Hangs-visited run.end r x run.closed (begun_root run.end gs r run.begun m) n h in
      elim (run.covered x hx nx) [ inl b ↦ absurd b | inr c ↦ c ]
