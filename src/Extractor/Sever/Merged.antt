-- ===== src/Extractor/Sever/Merged.antt =====
-- What the new header gets after the split: the branches of the region, and the values that they bring.
use atrox.Prelude.{
  ℕ, ◌<◌, ◌≡◌, ◌≢◌, refl, ap, sym, ◌∙◌, true, false, ◌&&◌, if◌then◌else◌, List, [], ◌∷◌, map,
  contains, lookup, insert, erase, contains-insert, contains-erase, Option, some, none, ◌==◌, ==→≡,
  ==_refl, ok, arith, All, leb, ◌>>=◌,
}
use atrox.Args.Order.{IsDistinct}
use atrox.Extractor.Code.{Phi, Code, value_from, swap_for}
use atrox.Extractor.Sever.{
  HeaderSplitter, PhiCreator, count_preds, redirect, incoming_of, sever_phis, sever_nodes,
  sever_header, sever_split_phi_nodes,
}
use atrox.Extractor.Sever.Values.{All-keeps, lookup-incoming_of}
use atrox.Extractor.Sever.Branches.{is_some, redirect_lem, sever_phis-succs}
use atrox.Extractor.Sever.Swaps.{swap_all, swap_all_lem, swap_all-none}
use atrox.Extractor.Sever.Flow.{sever_phis_lem, sever_phis_returns}

abbrev pub nodes_of : List Phi → List ℕ
nodes_of = map (λ e. e.0)

module _ (splitter : HeaderSplitter) (creator : PhiCreator) (c : Code) (region : List ℕ)
    (h : ℕ) where
  open creator use {created}

  -- The node for the new header in place of one of the old.
  abbrev pub renamed : Option ℕ → Option ℕ
  renamed none = none
  renamed (some v) = some (if contains (nodes_of (c.phis h)) v then created v else v)

  abbrev pub new_header : ℕ
  new_header = splitter.new_block c h

  abbrev pub new_region : List ℕ
  new_region = insert (erase region h) new_header

  new-apart : (h == new_header) ≡ false
  new-apart = ground (arith, splitter.new_block_fresh c h)

  -- The region has the pieces of what it had.
  contains-new_region :
      (p : ℕ)
      → contains region h ≡ true
      → p ≢ new_header
      → contains new_region (swap_for h new_header p) ≡ contains region p
  contains-new_region p m n = ground (
    arith,
    contains-insert (erase region h) new_header (swap_for h new_header p),
    contains-erase region h p,
    ==→≡ p h,
    ==→≡ p new_header,
    ==_refl new_header,
  )

  abbrev redirected : ℕ → Code
  redirected pn =
      let d = splitter.after c h in
      record d { succs = redirect new_region h new_header (incoming_of (d.phis h) pn) d.succs }

  -- Behind the checks.
  severed_by :
      (pn : ℕ) (inc : List (ℕ × ℕ)) (rest : List Phi) (d : Code)
      → (h == c.entry) ≡ false
      → c.phis h ≡ (pn, inc) ∷ rest
      → 1 < count_preds false region inc
      → 0 < count_preds true region inc
      → sever_phis creator new_region h new_header (nodes_of (c.phis h)) (redirected pn) ≡ ok d
      → sever_split_phi_nodes splitter creator c region h
        ≡ ok (record { code = d; region = new_region; header = new_header })
  unfolding sever_split_phi_nodes sever_header sever_nodes
  severed_by pn inc rest d entry first outside inside e =
      let x : (count_preds true region inc == 0) ≡ false = ground arith in
      let y : leb (count_preds false region inc) 1 ≡ false = ground arith in
      let nodes = splitter.nodes_after c h ∙ ap nodes_of first in
      let ran =
        ap (λ ns. sever_phis creator new_region h new_header ns (redirected pn))
          (sym (ap nodes_of first))
        ∙ e in
      rw (entry, sever_split_phi_nodes)
        (rw (first, sever_split_phi_nodes)
          (rw y (
            rw (x, sever_header)
              (rw (nodes, sever_header)
                (ap
                  (λ r.
                    r >>= λ x. ok (record { code = x; region = new_region; header = new_header }))
                  ran)))))

  renamed_lem :
      (o : Option ℕ)
      → ((v : ℕ) → contains (nodes_of (c.phis h)) (created v) ≡ false)
      → swap_all creator (nodes_of (c.phis h)) o ≡ renamed o
  renamed_lem none fresh = swap_all-none creator (nodes_of (c.phis h))
  renamed_lem (some v) fresh = swap_all_lem creator (nodes_of (c.phis h)) v (fresh v)

  swap_for-off : (p : ℕ) → (swap_for h new_header p == h) ≡ false
  swap_for-off p = ground (arith, new-apart)

  pub contains-new_region_old : contains new_region h ≡ false
  contains-new_region_old = ground (
    arith,
    contains-insert (erase region h) new_header h,
    contains-erase region h h,
    new-apart,
    ==_refl h,
  )

  header_branch : (pn : ℕ) → (redirected pn).succs h ≡ new_header ∷ []
  header_branch pn = ground (
    arith,
    redirect_lem new_region h new_header (incoming_of ((splitter.after c h).phis h) pn)
        (splitter.after c h).succs h,
    contains-new_region_old,
    new-apart,
    splitter.succs_after c h h,
    ==_refl h,
  )

  branches :
      (pn p : ℕ)
      → contains region h ≡ true
      → p ≢ new_header
      → (redirected pn).succs (swap_for h new_header p) ≡ (
          if contains region p && is_some (value_from (c.phis h) pn p)
          then map (swap_for h new_header) (c.succs p)
          else c.succs p)
  branches pn p m n =
      let p' = swap_for h new_header p in
      let inc = incoming_of ((splitter.after c h).phis h) pn in
      let from : lookup inc p' ≡ value_from (c.phis h) pn p =
        lookup-incoming_of ((splitter.after c h).phis h) pn p' ∙ splitter.phis_after c h pn p n in
      let same : (splitter.after c h).succs p' ≡ c.succs p =
        splitter.succs_after c h p'
        ∙ ground (arith, new-apart, ==→≡ p h, ==→≡ p new_header, ==_refl new_header) in
      redirect_lem new_region h new_header inc (splitter.after c h).succs p'
      ∙ rw (contains-new_region p m n) (rw from (rw same refl))

  -- Where the header of a region is not the entry, its phi nodes have values from more than one block outside of the
  -- region and from some block of it, and all have one from some block outside: the header is severed. The new header
  -- takes the place of the old one in the region. Along an edge from the region a created phi node has the value that
  -- the old one had, and the old one has none; along an edge from outside the old phi node keeps its value, and the
  -- created one has it from the old header; in both, the created phi nodes stand for the old ones. The blocks of the
  -- region that branched to the old header branch to the new one, and no other branch changes.
  pub severed_merges :
      (pn : ℕ) (inc : List (ℕ × ℕ)) (rest : List Phi) (o a p : ℕ)
      → (h == c.entry) ≡ false
      → c.phis h ≡ (pn, inc) ∷ rest
      → 1 < count_preds false region inc
      → 0 < count_preds true region inc
      → IsDistinct (nodes_of (c.phis h))
      → ((v : ℕ) → contains (nodes_of (c.phis h)) (created v) ≡ false)
      → contains region h ≡ true
      → contains region o ≡ false
      → o ≢ new_header
      → All (λ n. value_from (c.phis h) n o ≢ none) (nodes_of (c.phis h))
      → contains (nodes_of (c.phis h)) a ≡ true
      → p ≢ new_header
      → let p' = swap_for h new_header p in
        (d : Code) × (sever_split_phi_nodes splitter creator c region h
          ≡ ok (record { code = d; region = new_region; header = new_header }))
        × (contains new_region p' ≡ contains region p)
        × (value_from (d.phis h) a p'
            ≡ (if contains region p then none else renamed (value_from (c.phis h) a p)))
        × (value_from (d.phis new_header) (created a) p'
            ≡ (if contains region p then renamed (value_from (c.phis h) a p) else none))
        × (value_from (d.phis new_header) (created a) h ≡ some a)
        × (d.succs p' ≡ (
            if contains region p && is_some (value_from (c.phis h) pn p)
            then map (swap_for h new_header) (c.succs p)
            else c.succs p))
        × (d.succs h ≡ new_header ∷ [])
  severed_merges pn inc rest o a p entry first outside inside distinct fresh m out off has here n =
      let p' = swap_for h new_header p in
      let start = redirected pn in
      let kept = contains-new_region p m n in
      let o_apart : (o == h) ≡ false = ground (arith, ==→≡ o h) in
      let o_stays : swap_for h new_header o ≡ o = ground arith in
      let o_out : contains new_region o ≡ false =
        ap (contains new_region) (sym o_stays) ∙ contains-new_region o m off ∙ out in
      let (d, ran) =
        sever_phis_returns creator new_region h new_header new-apart (nodes_of (c.phis h)) o start
          o_out
          (All-keeps (nodes_of (c.phis h)) has λ k q e. q (
            sym (splitter.phis_after c h k o off)
            ∙ ap (value_from ((splitter.after c h).phis h) k) o_stays
            ∙ e)) in
      let (x, y) =
        sever_phis_lem creator new_region h new_header new-apart (nodes_of (c.phis h)) start d ran
          distinct a p' here in
      let (_, z) =
        sever_phis_lem creator new_region h new_header new-apart (nodes_of (c.phis h)) start d ran
          distinct a h here in
      let same = splitter.phis_after c h a p n in
      let succs =
        sever_phis-succs creator new_region h new_header (nodes_of (c.phis h)) start d ran in
      (
        d,
        severed_by pn inc rest d entry first outside inside ran,
        kept,
        x ∙ rw kept (rw same (rw (renamed_lem (value_from (c.phis h) a p) fresh) refl)),
        y
            ∙ rw (swap_for-off p)
                (rw kept (rw same (rw (renamed_lem (value_from (c.phis h) a p) fresh) refl))),
        z ∙ rw (==_refl h) refl,
        ap (λ f. f p') succs ∙ branches pn p m n,
        ap (λ f. f h) succs ∙ header_branch pn,
      )
