-- ===== src/Extractor/Sever/Flow.antt =====
-- What the phi nodes of the old and the new header have from each block.
use atrox.Prelude.{
  ℕ, ◌≡◌, ◌≢◌, refl, ap, sym, ◌∙◌, true, false, if◌then◌else◌, List, [], ◌∷◌, contains, lookup,
  Option, some, none, ◌==◌, ◌&&◌, ==→≡, ==_refl, Bool-cases, inl, inr, ok, arith, bind-ok, All,
}
use atrox.Args.Order.{IsDistinct}
use atrox.Extractor.Code.{Code, value_from, replace_in_phis, replace_all_uses}
use atrox.Extractor.Sever.{
  PhiCreator, keeps_some, kept_values, incoming_of, move_values, sever_phi, sever_phis,
}
use atrox.Extractor.Sever.Values.{
  All-keeps, kept_some, lookup-incoming_of, lookup-kept_values, lookup-moved_values, swap_option,
  swap_option-none, value_from-replace, value_from-replace_in_phis,
}
use atrox.Extractor.Sever.Swaps.{swap_all, swap_all-none, swap_all-other}

module _ (creator : PhiCreator) (region : List ℕ) (old new : ℕ) (apart : (old == new) ≡ false) where
  open creator use {created, created_apart}

  -- What the move does to the phi nodes of both headers.
  move_values-old :
      (pn : ℕ) (d : Code) (id p : ℕ)
      → value_from ((move_values creator region old new pn d).phis old) id p
        ≡ (if id == pn && contains region p then none else value_from (d.phis old) id p)
  unfolding move_values
  move_values-old pn d id p = ground (
    arith,
    apart,
    value_from-replace (d.phis old) pn (kept_values region (incoming_of (d.phis old) pn)) id p,
    lookup-kept_values region (incoming_of (d.phis old) pn) p,
    lookup-incoming_of (d.phis old) pn p,
    ==→≡ id pn,
  )

  move_values-new :
      (pn : ℕ) (d : Code) (id p : ℕ)
      → value_from ((move_values creator region old new pn d).phis new) id p ≡ (
          if id == created pn
          then (if p == old
              then some pn
              else if contains region p
              then value_from (d.phis old) pn p
              else none)
          else value_from (d.phis new) id p)
  unfolding move_values
  move_values-new pn d id p = ground (
    arith,
    lookup-moved_values region (incoming_of (d.phis old) pn) p,
    lookup-incoming_of (d.phis old) pn p,
  )

  -- What one round makes of the code.
  round_phis :
      (pn : ℕ) (c d : Code)
      → sever_phi creator region old new pn c ≡ ok d
      → d ≡ move_values creator region old new pn (replace_all_uses pn (created pn) c)
  unfolding sever_phi
  round_phis pn c d h = ground arith

  round-old :
      (pn : ℕ) (c d : Code)
      → sever_phi creator region old new pn c ≡ ok d
      → (id p : ℕ)
      → value_from (d.phis old) id p ≡ (
          if id == pn && contains region p
          then none
          else swap_option pn (created pn) (value_from (c.phis old) id p))
  unfolding replace_all_uses
  round-old pn c d h id p =
      ap (λ (x : Code). value_from (x.phis old) id p) (round_phis pn c d h)
      ∙ move_values-old pn (replace_all_uses pn (created pn) c) id p
      ∙ ap (λ o. if id == pn && contains region p then none else o)
          (value_from-replace_in_phis pn (created pn) (c.phis old) id p)

  round-new :
      (pn : ℕ) (c d : Code)
      → sever_phi creator region old new pn c ≡ ok d
      → (id p : ℕ)
      → value_from (d.phis new) id p ≡ (
          if id == created pn
          then (if p == old
              then some pn
              else if contains region p
              then swap_option pn (created pn) (value_from (c.phis old) pn p)
              else none)
          else swap_option pn (created pn) (value_from (c.phis new) id p))
  unfolding replace_all_uses
  round-new pn c d h id p =
      ap (λ (x : Code). value_from (x.phis new) id p) (round_phis pn c d h)
      ∙ move_values-new pn (replace_all_uses pn (created pn) c) id p
      ∙ ap
          (λ (o : Option ℕ × Option ℕ).
            if id == created pn
            then (if p == old then some pn else if contains region p then o.0 else none)
            else o.1)
          (λ i. (
            value_from-replace_in_phis pn (created pn) (c.phis old) pn p i,
            value_from-replace_in_phis pn (created pn) (c.phis new) id p i,
          ))

  -- A phi node that no round is about.
  others-old :
      (pns : List ℕ) (c d : Code)
      → sever_phis creator region old new pns c ≡ ok d
      → (id p : ℕ) → contains pns id ≡ false
      → value_from (d.phis old) id p ≡ swap_all creator pns (value_from (c.phis old) id p)
  unfolding sever_phis
  others-old [] c d h id p n = ground arith
  others-old (pn ∷ pns) c d h id p n =
      let (e, one, rest) =
        bind-ok (sever_phi creator region old new pn c)
          (λ e. sever_phis creator region old new pns e) d h in
      others-old pns e d rest id p (ground arith)
      ∙ ap (swap_all creator pns) (round-old pn c e one id p ∙ ground arith)

  others-new :
      (pns : List ℕ) (c d : Code)
      → sever_phis creator region old new pns c ≡ ok d
      → (a p : ℕ) → contains pns a ≡ false
      → value_from (d.phis new) (created a) p
        ≡ swap_all creator pns (value_from (c.phis new) (created a) p)
  unfolding sever_phis
  others-new [] c d h a p n = ground arith
  others-new (pn ∷ pns) c d h a p n =
      let (e, one, rest) =
        bind-ok (sever_phi creator region old new pn c)
          (λ e. sever_phis creator region old new pns e) d h in
      others-new pns e d rest a p (ground arith)
      ∙ ap (swap_all creator pns) (
          round-new pn c e one (created a) p
          ∙ ground (arith, ==→≡ (created a) (created pn), created_apart a pn, ==_refl a))

  -- What the loop over the nodes makes of one of them, and of the one that is created for it.
  pub sever_phis_lem :
      (pns : List ℕ) (c d : Code)
      → sever_phis creator region old new pns c ≡ ok d
      → IsDistinct pns
      → (a p : ℕ) → contains pns a ≡ true
      → (value_from (d.phis old) a p ≡ (
          if contains region p then none else swap_all creator pns (value_from (c.phis old) a p)))
        × (value_from (d.phis new) (created a) p ≡ (
            if p == old
            then some a
            else if contains region p
            then swap_all creator pns (value_from (c.phis old) a p)
            else none))
  unfolding sever_phis
  sever_phis_lem [] c d h u a p m = cc
  sever_phis_lem (pn ∷ pns) c d h (n, u) a p m =
      let (e, one, rest) =
        bind-ok (sever_phi creator region old new pn c)
          (λ e. sever_phis creator region old new pns e) d h in
      elim (Bool-cases (a == pn)) [
        | inl here ↦
            let off : contains pns a ≡ false = rw (==→≡ a pn here) n in
            (
              others-old pns e d rest a p off
                  ∙ ap (swap_all creator pns) (round-old pn c e one a p)
                  ∙ ground (arith, here, swap_all-none creator pns),
              others-new pns e d rest a p off
                  ∙ ap (swap_all creator pns) (round-new pn c e one (created a) p)
                  ∙ ground (
                    arith,
                    ap created (==→≡ a pn here),
                    ==_refl (created a),
                    ==→≡ a pn here,
                    swap_all-none creator pns,
                    swap_all-other creator pns a off,
                  ),
            )
        | inr away ↦
            let (x, y) = sever_phis_lem pns e d rest u a p (ground (arith, m, away)) in
            let z = round-old pn c e one a p in
            (x ∙ ground (arith, z, away), y ∙ ground (arith, z, away))
      ]

  round_returns :
      (pn o : ℕ) (c : Code)
      → contains region o ≡ false
      → value_from (c.phis old) pn o ≢ none
      → (d : Code) × (sever_phi creator region old new pn c ≡ ok d)
  unfolding sever_phi keeps_some replace_all_uses
  round_returns pn o c out h =
      let inc = incoming_of (replace_in_phis pn (created pn) (c.phis old)) pn in
      let found : lookup (kept_values region inc) o
          ≡ swap_option pn (created pn) (value_from (c.phis old) pn o) =
        lookup-kept_values region inc o
        ∙ rw out (lookup-incoming_of _ pn o)
        ∙ value_from-replace_in_phis pn (created pn) (c.phis old) pn o in
      let some_kept =
        kept_some (kept_values region inc) o
          λ e. h (swap_option-none pn (created pn) _ (sym found ∙ e)) in
      (
        move_values creator region old new pn (replace_all_uses pn (created pn) c),
        ground (arith, some_kept),
      )

  round_keeps :
      (pn : ℕ) (c d : Code)
      → sever_phi creator region old new pn c ≡ ok d
      → (o a : ℕ) → contains region o ≡ false
      → value_from (c.phis old) a o ≢ none
      → value_from (d.phis old) a o ≢ none
  round_keeps pn c d one o a out h e =
      h (swap_option-none pn (created pn) _ (ground (arith, round-old pn c d one a o)))

  -- Where each node has a value from some block outside, no node is deleted, and the loop ends.
  pub sever_phis_returns :
      (pns : List ℕ) (o : ℕ) (c : Code)
      → contains region o ≡ false
      → All (λ a. value_from (c.phis old) a o ≢ none) pns
      → (d : Code) × (sever_phis creator region old new pns c ≡ ok d)
  unfolding sever_phis
  sever_phis_returns [] o c out h = (c, refl)
  sever_phis_returns (pn ∷ pns) o c out (h, hs) =
      let (d, one) = round_returns pn o c out h in
      let (e, rest) =
        sever_phis_returns pns o d out (All-keeps pns hs (λ a. round_keeps pn c d one o a out)) in
      (e, rw one rest)
