-- ===== src/Prelude/Results.antt =====
-- The outcome of code that may run into an assertion, an `llvm_unreachable` or undefined behaviour.
use mathlib.Core.Path.{◌≡◌, refl}
use mathlib.Core.Logic.{◌⊎◌, inl, inr}
use mathlib.Core.Bool.{Bool, true, false}

-- `undefined` is a read through an end iterator, a null pointer or an invalidated one;
-- `out_of_fuel` is no behaviour of the program, and is proved not to happen.
pub data Error : Type 0 where
  assertion unreachable undefined out_of_fuel : Error

pub data Result {ℓ} (A : Type ℓ) : Type ℓ where
  err : Error → Result A
  ok : A → Result A

-- `assert`.
abbrev pub guard : Bool → Error → Result (Unit {0})
guard holds e = elim holds [ true ↦ ok tt | false ↦ err e ]

-- What follows runs only where nothing went wrong before.
infixl 5 ◌>>=◌
abbrev pub ◌>>=◌ {ℓ κ} : {A : Type ℓ} {B : Type κ} → Result A → (A → Result B) → Result B
err e >>= next = err e
ok a >>= next = next a

infixl 5 ◌>>◌
abbrev pub ◌>>◌ {ℓ} : {B : Type ℓ} → Result (Unit {0}) → Result B → Result B
err e >> rest = err e
ok u >> rest = rest

-- What ran, where the whole went well.
pub bind-ok {ℓ κ} :
    {A : Type ℓ} {B : Type κ} (x : Result A) (k : A → Result B) (r : B)
    → (x >>= k) ≡ ok r
    → (a : A) × (x ≡ ok a) × (k a ≡ ok r)
bind-ok (err e) k r h = absurd cc
bind-ok (ok a) k r h = (a, refl, h)

pub Result-cases {ℓ} :
    {A : Type ℓ} (x : Result A) → ((e : Error) × (x ≡ err e)) ⊎ ((a : A) × (x ≡ ok a))
Result-cases (err e) = inl (e, refl)
Result-cases (ok a) = inr (a, refl)
