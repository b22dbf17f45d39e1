-- ===== src/Cloner/Calls.antt =====
-- `IsIgnoredIntrinsic`, `InstructionEraser` and `CallDetector`. `llvm::InstVisitor` chooses the method for an
-- instruction: what it chooses is part of the instruction here.
use mathlib.Core.List.{append_assoc, append-nil}
use atrox.Prelude.{
  sym, ap, ◌∙◌, map, select, contains, ==→≡, ==_refl, Bool-cases, inl, inr, ℕ, ◌≡◌, refl, Bool,
  true, false, not, ◌||◌, if◌then◌else◌, List, [], ◌∷◌, ◌++◌, ◌==◌, Option, some, none, arith, any,
}

-- The intrinsics that the code names, and any other.
pub data Intrinsic : Type 0 where
  lifetime_start lifetime_end invariant_start invariant_end var_annotation ptr_annotation :
      Intrinsic
  annotation donothing assume dbg_value dbg_declare other : Intrinsic

-- `call` holds whether the called function is a declaration, if it is known.
pub data Visited : Type 0 where
  plain : Visited
  intrinsic : Intrinsic → Visited
  call : Option Bool → Visited

pub record Inst : Type 0 where
  pub id : ℕ
  pub visited : Visited

unfoldable pub is_ignored_intrinsic : Visited → Bool
is_ignored_intrinsic plain = false
is_ignored_intrinsic (call f) = false
is_ignored_intrinsic (intrinsic Intrinsic.other) = false
is_ignored_intrinsic (intrinsic k) = true

-- `InstructionEraser`, over the instructions of a block.
unfoldable pub visit_to_remove : List ℕ → List Inst → List ℕ
unfolding is_ignored_intrinsic
visit_to_remove to_remove [] = to_remove
visit_to_remove to_remove (i ∷ is') =
    visit_to_remove (if is_ignored_intrinsic i.visited then to_remove ++ i.id ∷ [] else to_remove)
      is'

-- `eraseFromParent` of an instruction of the function.
unfoldable pub erase_inst : ℕ → List Inst → List Inst
erase_inst id [] = []
erase_inst id (i ∷ is') = if id == i.id then is' else i ∷ erase_inst id is'

unfoldable pub erase_all : List ℕ → List Inst → List Inst
unfolding erase_inst
erase_all [] is' = is'
erase_all (r ∷ rs) is' = erase_all rs (erase_inst r is')

-- `process`: whether something is erased, and what is left.
unfoldable pub process : List ℕ → List Inst → Bool × List Inst
unfolding erase_all
process [] is' = (false, is')
process (r ∷ rs) is' = (true, erase_all (r ∷ rs) is')

-- `CallDetector::visitCallInst`, with whether there is a module.
unfoldable pub is_detected : Bool → Visited → Bool
is_detected has_module plain = false
is_detected has_module (intrinsic k) = false
is_detected has_module (call none) = true
is_detected has_module (call (some is_declaration)) =
    if not has_module then true else not is_declaration

-- `Calls` after a visit.
unfoldable pub detect : Bool → List ℕ → List Inst → List ℕ
unfolding is_detected
detect has_module calls [] = calls
detect has_module calls (i ∷ is') =
    detect has_module (if is_detected has_module i.visited then calls ++ i.id ∷ [] else calls) is'

unfoldable pub has_calls : List ℕ → Bool
has_calls [] = false
has_calls (c ∷ calls) = true

has_calls-concat : (xs : List ℕ) (a : ℕ) → has_calls (xs ++ a ∷ []) ≡ true
unfolding has_calls
has_calls-concat [] a = refl
has_calls-concat (x ∷ xs) a = refl

has_calls-detect_from :
    (has_module : Bool) (calls : List ℕ) (is' : List Inst)
    → has_calls (detect has_module calls is')
      ≡ (has_calls calls || any (λ i. is_detected has_module i.visited) is')
unfolding detect
has_calls-detect_from has_module calls [] = ground arith
has_calls-detect_from has_module calls (i ∷ is') = ground (
  arith,
  has_calls-detect_from has_module calls is',
  has_calls-detect_from has_module (calls ++ i.id ∷ []) is',
  has_calls-concat calls i.id,
)

-- The detector is set after a visit exactly if some instruction calls a function that is not known to be a declaration,
-- or calls any function where there is no module; an intrinsic is no call.
pub has_calls-detect :
    (has_module : Bool) (is' : List Inst)
    → has_calls (detect has_module [] is') ≡ any (λ i. is_detected has_module i.visited) is'
unfolding has_calls
has_calls-detect has_module is' = has_calls-detect_from has_module [] is'

-- The instructions that the eraser collects.
abbrev pub ignored : List Inst → List ℕ
ignored [] = []
ignored (i ∷ is') = if is_ignored_intrinsic i.visited then i.id ∷ ignored is' else ignored is'

pub visit_to_remove_lem :
    (to_remove : List ℕ) (is' : List Inst)
    → visit_to_remove to_remove is' ≡ (to_remove ++ ignored is')
unfolding visit_to_remove
visit_to_remove_lem to_remove [] = sym (append-nil to_remove)
visit_to_remove_lem to_remove (i ∷ is') = elim (Bool-cases (is_ignored_intrinsic i.visited)) [
  | inl y ↦ rw y (
      visit_to_remove_lem (to_remove ++ i.id ∷ []) is'
      ∙ append_assoc to_remove (i.id ∷ []) (ignored is'))
  | inr n ↦ rw n (visit_to_remove_lem to_remove is')
]

-- No two instructions are the same.
abbrev pub AreUnique : List Inst → Type 0
AreUnique [] = Unit
AreUnique (i ∷ is') = (contains (map Inst.id is') i.id ≡ false) × AreUnique is'

contains-ignored :
    (is' : List Inst) (a : ℕ)
    → contains (map Inst.id is') a ≡ false
    → contains (ignored is') a ≡ false
contains-ignored [] a h = refl
contains-ignored (i ∷ is') a h = ground (arith, contains-ignored is' a)

-- What is erased behind an instruction leaves it where it is.
erase_all-cons :
    (rs : List ℕ) (i : Inst) (is' : List Inst)
    → contains rs i.id ≡ false
    → erase_all rs (i ∷ is') ≡ i ∷ erase_all rs is'
unfolding erase_all erase_inst
erase_all-cons [] i is' h = refl
erase_all-cons (r ∷ rs) i is' h =
    let other : (r == i.id) ≡ false = ground (arith, ==→≡ r i.id, ==_refl i.id) in
    rw other (erase_all-cons rs i (erase_inst r is') (ground arith))

erase_all-own :
    (i : Inst) (rs : List ℕ) (is' : List Inst) → erase_all (i.id ∷ rs) (i ∷ is') ≡ erase_all rs is'
unfolding erase_all erase_inst
erase_all-own i rs is' =
    let e : erase_inst i.id (i ∷ is') ≡ is' = rw (erase_inst, ==_refl i.id) refl in
    ap (erase_all rs) e

erase_ignored :
    (is' : List Inst)
    → AreUnique is'
    → erase_all (ignored is') is' ≡ select (λ i. not (is_ignored_intrinsic i.visited)) is'
unfolding erase_all erase_inst
erase_ignored [] u = refl
erase_ignored (i ∷ is') (n, u) = elim (Bool-cases (is_ignored_intrinsic i.visited)) [
  | inl y ↦ rw y (erase_all-own i (ignored is') is' ∙ erase_ignored is' u)
  | inr k ↦ rw k (
      erase_all-cons (ignored is') i is' (contains-ignored is' i.id n)
      ∙ ap (λ q. i ∷ q) (erase_ignored is' u))
]

process-erase_all :
    (rs : List ℕ) (is' : List Inst) → process rs is' ≡ (has_calls rs, erase_all rs is')
unfolding process erase_all has_calls
process-erase_all [] is' = refl
process-erase_all (r ∷ rs) is' = refl

has_calls-ignored :
    (is' : List Inst) → has_calls (ignored is') ≡ any (λ i. is_ignored_intrinsic i.visited) is'
unfolding has_calls
has_calls-ignored [] = refl
has_calls-ignored (i ∷ is') = elim (Bool-cases (is_ignored_intrinsic i.visited)) [
  | inl y ↦ rw y refl
  | inr n ↦ rw n (has_calls-ignored is')
]

-- A visit and `process` of instructions that are not met twice leave those that are no ignored intrinsic, in order, and
-- tell whether there was one.
pub process_lem :
    (is' : List Inst)
    → AreUnique is'
    → process (visit_to_remove [] is') is' ≡ (
      any (λ i. is_ignored_intrinsic i.visited) is',
      select (λ i. not (is_ignored_intrinsic i.visited)) is',
    )
process_lem is' u =
    ap (λ q. process q is') (visit_to_remove_lem [] is')
    ∙ process-erase_all (ignored is') is'
    ∙ ap (λ q. (q, erase_all (ignored is') is')) (has_calls-ignored is')
    ∙ ap (λ q. (any (λ i. is_ignored_intrinsic i.visited) is', q)) (erase_ignored is' u)
