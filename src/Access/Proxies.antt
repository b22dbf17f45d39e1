-- ===== src/Access/Proxies.antt =====
-- What a `MemAccInst` answers, for an instruction of LLVM's class hierarchy.
use mathlib.Core.List.{append_assoc}
use atrox.Prelude.{
  ◌≡◌, sym, ap, ◌∙◌, Bool, true, false, not, ◌&&◌, ◌||◌, List, [], ◌∷◌, ◌++◌, map, select, some,
  none, refl, ◌⊎◌, Option, Error, err, ◌>>=◌, ok, arith, Bool-cases, inl, inr,
}
use mathlib.Core.List.{append-nil}
use atrox.Access.MemAccInst.{
  Ordering, Inst, MemAccInst, isa, from_instruction, cast, cast_or_null, get, dyn_cast, is_null,
  is_volatile, is_simple, get_ordering, is_unordered, visit_instruction, visit,
}

abbrev pub is_not_atomic : Ordering → Bool
is_not_atomic Ordering.not_atomic = true
is_not_atomic _ = false

abbrev pub is_at_most_unordered : Ordering → Bool
is_at_most_unordered Ordering.not_atomic = true
is_at_most_unordered Ordering.unordered = true
is_at_most_unordered _ = false

-- LLVM's classes: a `MemTransferInst` is a `MemIntrinsic`, which is a `CallInst`; and what
-- `LoadInst` and `StoreInst` call simple and unordered.
pub record IsLlvmInst (i : Inst) : Type 0 where
  pub transfer_intrinsic : i.is_mem_transfer ≡ true → i.is_mem_intrinsic ≡ true
  pub intrinsic_call : i.is_mem_intrinsic ≡ true → i.is_call ≡ true
  pub simple_lem :
      (i.is_load || i.is_store) ≡ true → i.simple ≡ (is_not_atomic i.ordering && not i.volatile)
  pub unordered_lem :
      (i.is_load || i.is_store) ≡ true
      → i.unordered_access ≡ (is_at_most_unordered i.ordering && not i.volatile)

-- `dyn_cast` never fails its constructor's assertion; its proxy is not null exactly for a load, a store or a
-- call, since a memory intrinsic is a call.
pub dyn_cast_lem :
    (i : Inst)
    → IsLlvmInst i
    → (a : MemAccInst) × (dyn_cast (some i) ≡ ok a)
      × (is_null a ≡ not (i.is_load || (i.is_store || i.is_call)))
unfolding dyn_cast is_null
dyn_cast_lem i h = elim (Bool-cases (isa i)) [
  | inl y ↦ (some i, ground arith, ground (arith, h.intrinsic_call))
  | inr n ↦ (none, ground arith, ground arith)
]

-- For a proxy of an instruction that passes `isa` no accessor is unreachable, and the answers agree: it is simple
-- exactly if it is neither atomic nor volatile, and unordered exactly if its ordering is at most unordered and
-- it is not volatile.
pub proxy_answers :
    (i : Inst)
    → IsLlvmInst i
    → isa i ≡ true
    → (v : Bool) × (o : Ordering) × (is_volatile (some i) ≡ ok v)
      × (get_ordering (some i) ≡ ok o)
      × (is_simple (some i) ≡ ok (is_not_atomic o && not v))
      × (is_unordered (some i) ≡ ok (is_at_most_unordered o && not v))
unfolding is_volatile get_ordering is_simple is_unordered isa
proxy_answers i h y = elim (Bool-cases (i.is_load || i.is_store)) [
  | inl access ↦ (
    i.volatile,
    i.ordering,
    ground arith,
    ground arith,
    ground (arith, h.simple_lem),
    ground (arith, h.unordered_lem),
  )
  | inr other ↦ elim (Bool-cases i.is_mem_intrinsic) [
    | inl m ↦
        (i.volatile, Ordering.not_atomic, ground arith, ground arith, ground arith, ground arith)
    | inr c ↦ (false, Ordering.not_atomic, ground arith, ground arith, ground arith, ground arith)
  ]
]

visit_from :
    (accesses : List MemAccInst) (is' : List Inst)
    → visit accesses is' ≡ ok (accesses ++ map some (select isa is'))
unfolding visit visit_instruction
visit_from accesses [] = ap ok (sym (append-nil accesses))
visit_from accesses (i ∷ is') = elim (Bool-cases (isa i)) [
  | inl y ↦
      rw (y, visit, visit_instruction)
        (visit_from (accesses ++ some i ∷ []) is'
          ∙ ap ok (append_assoc accesses (some i ∷ []) (map some (select isa is'))))
  | inr n ↦ rw (n, visit, visit_instruction) (visit_from accesses is')
]

-- The visitor never fails an assertion, and collects the instructions that pass `isa`, each once and in order.
pub visit_lem : (is' : List Inst) → visit [] is' ≡ ok (map some (select isa is'))
visit_lem is' = visit_from [] is'

-- The casts agree on a value: where it is an instruction of one of the classes, each holds it and `get` gives it
-- back; where it is not, `dyn_cast` is null and the others assert.
pub casts_agree :
    (v : Option Inst)
    → ((i : Inst) × (v ≡ some i)
        × (cast v ≡ ok (some i))
        × (cast_or_null (some v) ≡ ok (some i))
        × (dyn_cast v ≡ ok (some i))
        × ((dyn_cast v >>= get) ≡ ok i))
      ⊎ (cast v ≡ err Error.assertion)
        × (cast_or_null (some v) ≡ err Error.assertion)
        × (dyn_cast v ≡ ok none)
        × ((dyn_cast v >>= get) ≡ err Error.assertion)
unfolding cast cast_or_null dyn_cast from_instruction get
casts_agree none = inr (refl, refl, refl, refl)
casts_agree (some i) = elim (Bool-cases (isa i)) [
  | inl y ↦ inl (i, refl, rw y refl, rw y refl, rw (dyn_cast, y) refl, rw (dyn_cast, y) refl)
  | inr n ↦ inr (rw n refl, rw n refl, rw (dyn_cast, n) refl, rw (dyn_cast, n) refl)
]
