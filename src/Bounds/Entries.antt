-- ===== src/Bounds/Entries.antt =====
-- The entries of the map of iteration spaces.
use atrox.Prelude.{
  ℕ, ◌≡◌, refl, ap, ◌∙◌, true, false, List, ◌==◌, ==_refl, Option, some, none, contains, lookup,
  assign, lookup-assign, ok, Bool-cases, inl, inr,
}
use atrox.Bounds.Spaces.{LoopIterationSpaceInfo, Spaces, space_at}

abbrev pub on_info :
    (LoopIterationSpaceInfo → LoopIterationSpaceInfo)
    → Option LoopIterationSpaceInfo
    → Option LoopIterationSpaceInfo
on_info f none = none
on_info f (some i) = some (f i)

-- The loops have entries.
abbrev pub Known : Spaces → List ℕ → Type 0
Known s ls = (x : ℕ) → contains ls x ≡ true → (i : LoopIterationSpaceInfo) × (lookup s x ≡ some i)

pub Known-after :
    (f : LoopIterationSpaceInfo → LoopIterationSpaceInfo) (s t : Spaces) (x : ℕ)
    → lookup t x ≡ on_info f (lookup s x)
    → ((i : LoopIterationSpaceInfo) × (lookup s x ≡ some i))
    → (i : LoopIterationSpaceInfo) × (lookup t x ≡ some i)
Known-after f s t x h (i, e) = (f i, h ∙ ap (on_info f) e)

pub Known-assign :
    (s : Spaces) (ls : List ℕ) (l : ℕ) (j : LoopIterationSpaceInfo)
    → Known s ls
    → Known (assign s l j) ls
Known-assign s ls l j known x m = elim (Bool-cases (x == l)) [
  | inl y ↦ (j, lookup-assign s l j x ∙ rw y refl)
  | inr n ↦ let (i, e) = known x m in (i, lookup-assign s l j x ∙ rw n e)
]

pub space_is :
    (s : Spaces) (l : ℕ) (i : LoopIterationSpaceInfo) → lookup s l ≡ some i → space_at s l ≡ i
space_is s l i e = rw (space_at, e) refl

pub assign_here :
    (s : Spaces) (l : ℕ) (i : LoopIterationSpaceInfo) → lookup (assign s l i) l ≡ some i
assign_here s l i = lookup-assign s l i l ∙ rw (==_refl l) refl

pub assign_other :
    (s : Spaces) (l : ℕ) (i : LoopIterationSpaceInfo) (x : ℕ)
    → (x == l) ≡ false
    → lookup (assign s l i) x ≡ lookup s x
assign_other s l i x n = lookup-assign s l i x ∙ rw n refl

pub on_info-id : (o : Option LoopIterationSpaceInfo) → on_info (λ i. i) o ≡ o
on_info-id none = refl
on_info-id (some i) = refl

pub on_info_twice :
    (f g : LoopIterationSpaceInfo → LoopIterationSpaceInfo) (o : Option LoopIterationSpaceInfo)
    → on_info g (on_info f o) ≡ on_info (λ i. g (f i)) o
on_info_twice f g none = refl
on_info_twice f g (some i) = refl

pub ok-same : (s t : Spaces) → ok s ≡ ok t → s ≡ t
ok-same s t h = cc

pub on_info-same :
    (f g : LoopIterationSpaceInfo → LoopIterationSpaceInfo) (o : Option LoopIterationSpaceInfo)
    → ((i : LoopIterationSpaceInfo) → f i ≡ g i)
    → on_info f o ≡ on_info g o
on_info-same f g none h = refl
on_info-same f g (some i) h = ap some (h i)
