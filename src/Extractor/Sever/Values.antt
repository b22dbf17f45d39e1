-- ===== src/Extractor/Sever/Values.antt =====
-- What a phi node has from a block, after a use is replaced and incoming values are moved.
use atrox.Prelude.{
  ℕ, ◌≡◌, ◌≢◌, refl, false, if◌then◌else◌, List, [], ◌∷◌, contains, lookup, replace, Option, some,
  none, ◌==◌, ==→≡, Option-cases, inl, inr, arith, All,
}
use atrox.Extractor.Code.{Phi, value_from, swap_for, replace_value, replace_in_phis}
use atrox.Extractor.Sever.{is_empty, moved_values, kept_values, incoming_of}

abbrev pub swap_option : ℕ → ℕ → Option ℕ → Option ℕ
swap_option a b none = none
swap_option a b (some v) = some (swap_for a b v)

pub swap_option-none : (a b : ℕ) (v : Option ℕ) → swap_option a b v ≡ none → v ≡ none
swap_option-none a b none e = refl
swap_option-none a b (some w) e = cc

pub lookup-replace_value :
    (a b : ℕ) (inc : List (ℕ × ℕ)) (p : ℕ)
    → lookup (replace_value a b inc) p ≡ swap_option a b (lookup inc p)
lookup-replace_value a b [] p = refl
lookup-replace_value a b ((q, v) ∷ inc) p = ground (arith, lookup-replace_value a b inc p)

pub lookup-replace_in_phis :
    (a b : ℕ) (ps : List Phi) (pn : ℕ)
    → lookup (replace_in_phis a b ps) pn
      ≡ elim (lookup ps pn) [ none ↦ none | some inc ↦ some (replace_value a b inc) ]
lookup-replace_in_phis a b [] pn = refl
lookup-replace_in_phis a b ((q, inc) ∷ ps) pn = ground (arith, lookup-replace_in_phis a b ps pn)

pub value_from-replace_in_phis :
    (a b : ℕ) (ps : List Phi) (pn p : ℕ)
    → value_from (replace_in_phis a b ps) pn p ≡ swap_option a b (value_from ps pn p)
value_from-replace_in_phis a b ps pn p = elim (Option-cases (lookup ps pn)) [
  | inl e ↦ ground (arith, lookup-replace_in_phis a b ps pn)
  | inr (inc, e) ↦ ground (arith, lookup-replace_in_phis a b ps pn, lookup-replace_value a b inc p)
]

pub lookup-moved_values :
    (region : List ℕ) (inc : List (ℕ × ℕ)) (p : ℕ)
    → lookup (moved_values region inc) p ≡ (if contains region p then lookup inc p else none)
unfolding moved_values
lookup-moved_values region [] p = ground arith
lookup-moved_values region ((q, v) ∷ inc) p =
    ground (arith, lookup-moved_values region inc p, ==→≡ p q)

pub lookup-kept_values :
    (region : List ℕ) (inc : List (ℕ × ℕ)) (p : ℕ)
    → lookup (kept_values region inc) p ≡ (if contains region p then none else lookup inc p)
unfolding kept_values
lookup-kept_values region [] p = ground arith
lookup-kept_values region ((q, v) ∷ inc) p =
    ground (arith, lookup-kept_values region inc p, ==→≡ p q)

pub lookup-incoming_of :
    (ps : List Phi) (pn p : ℕ) → lookup (incoming_of ps pn) p ≡ value_from ps pn p
unfolding incoming_of
lookup-incoming_of ps pn p = ground arith

-- Other incoming values for a phi node, if it is there.
pub value_from-replace :
    (ps : List Phi) (pn : ℕ) (inc : List (ℕ × ℕ)) (id p : ℕ)
    → value_from (replace ps pn inc) id p ≡ (
        if id == pn
        then elim (lookup ps pn) [ none ↦ none | some _ ↦ lookup inc p ]
        else value_from ps id p)
value_from-replace [] pn inc id p = ground arith
value_from-replace ((q, old) ∷ ps) pn inc id p =
    ground (arith, value_from-replace ps pn inc id p, ==→≡ id pn, ==→≡ id q, ==→≡ pn q)

pub All-keeps : {P Q : ℕ → Type 0} (xs : List ℕ) → All P xs → ((a : ℕ) → P a → Q a) → All Q xs
All-keeps [] hs f = tt
All-keeps (x ∷ xs) (h, hs) f = (f x h, All-keeps xs hs f)

pub kept_some : (inc : List (ℕ × ℕ)) (p : ℕ) → lookup inc p ≢ none → is_empty inc ≡ false
kept_some [] p h = absurd (h refl)
kept_some (e ∷ inc) p h = refl
