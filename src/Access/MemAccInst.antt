-- ===== src/Access/MemAccInst.antt =====
-- `MemAccInst`, a pointer to an instruction, and its visitor. `none` is the null pointer.
use atrox.Prelude.{
  ℕ, Bool, true, false, not, ◌||◌, if◌then◌else◌, List, [], ◌∷◌, ◌++◌, Option, some, none, min,
  Result, Error, ok, err,
}

-- `llvm::AtomicOrdering`.
pub data Ordering : Type 0 where
  not_atomic unordered monotonic acquire release acquire_release sequentially_consistent : Ordering

-- What the proxy reads of an instruction: the classes that `llvm::isa` tells, and what the class of
-- the instruction answers. An operand is a value's number.
pub record Inst : Type 0 where
  pub id : ℕ
  pub is_load : Bool
  pub is_store : Bool
  pub is_call : Bool
  pub is_mem_intrinsic : Bool
  pub is_mem_transfer : Bool
  pub value_operand : ℕ
  pub pointer_operand : ℕ
  pub raw_dest : ℕ
  pub alignment : ℕ
  pub dest_alignment : ℕ
  pub source_alignment : ℕ
  pub volatile : Bool
  pub simple : Bool
  pub unordered_access : Bool
  pub ordering : Ordering

abbrev pub MemAccInst : Type 0
MemAccInst = Option Inst

-- `MemAccInst::isa`.
unfoldable pub isa : Inst → Bool
isa i = i.is_load || (i.is_store || (i.is_call || i.is_mem_intrinsic))

-- The explicit constructor asserts `isa`.
unfoldable pub from_instruction : Inst → Result MemAccInst
unfolding isa
from_instruction i = if isa i then ok (some i) else err Error.assertion

-- `dyn_cast` of a value, which is an instruction or not.
unfoldable pub dyn_cast : Option Inst → Result MemAccInst
unfolding isa from_instruction
dyn_cast none = ok none
dyn_cast (some i) = if isa i then from_instruction i else ok none

-- `cast`, which asserts that the value is an instruction; `cast_or_null` takes a null pointer, here the outer `none`.
unfoldable pub cast : Option Inst → Result MemAccInst
unfolding from_instruction
cast none = err Error.assertion
cast (some i) = from_instruction i

unfoldable pub cast_or_null : Option (Option Inst) → Result MemAccInst
unfolding cast
cast_or_null none = ok none
cast_or_null (some v) = cast v

-- The assignment of an instruction of one of the classes, and of another proxy.
unfoldable pub assign_instruction : MemAccInst → Inst → MemAccInst
assign_instruction m i = some i

unfoldable pub assign_proxy : MemAccInst → MemAccInst → MemAccInst
assign_proxy m other = other

-- `get`.
unfoldable pub get : MemAccInst → Result Inst
get none = err Error.assertion
get (some i) = ok i

unfoldable pub is_null : MemAccInst → Bool
is_null none = true
is_null (some i) = false

unfoldable pub is_instruction : MemAccInst → Bool
is_instruction none = false
is_instruction (some i) = true

-- The tests of the accessors, in their order; the last answer is for what passes none of them.
unfoldable pub by_kind {ℓ} :
    {A : Type ℓ} → (Inst → A) → (Inst → A) → (Inst → A) → A → MemAccInst → Result A
by_kind load store mem_intrinsic call none = err Error.unreachable
by_kind load store mem_intrinsic call (some i) =
    if i.is_load
    then ok (load i)
    else if i.is_store
    then ok (store i)
    else if i.is_mem_intrinsic
    then ok (mem_intrinsic i)
    else if i.is_call
    then ok call
    else err Error.unreachable

-- The value of a load is the load; 0 is the null value.
unfoldable pub get_value_operand : MemAccInst → Result ℕ
unfolding by_kind
get_value_operand = by_kind (λ i. i.id) (λ i. i.value_operand) (λ i. 0) 0

unfoldable pub get_pointer_operand : MemAccInst → Result ℕ
unfolding by_kind
get_pointer_operand = by_kind (λ i. i.pointer_operand) (λ i. i.pointer_operand) (λ i. i.raw_dest) 0

-- A `MemTransferInst` is asked for first.
unfoldable pub get_alignment : MemAccInst → Result ℕ
unfolding by_kind
get_alignment none = err Error.unreachable
get_alignment (some i) =
    if i.is_load
    then ok i.alignment
    else if i.is_store
    then ok i.alignment
    else if i.is_mem_transfer
    then ok (min i.dest_alignment i.source_alignment)
    else by_kind (λ j. j.alignment) (λ j. j.alignment) (λ j. j.dest_alignment) 0 (some i)

unfoldable pub is_volatile : MemAccInst → Result Bool
unfolding by_kind
is_volatile = by_kind (λ i. i.volatile) (λ i. i.volatile) (λ i. i.volatile) false

unfoldable pub is_simple : MemAccInst → Result Bool
unfolding by_kind
is_simple = by_kind (λ i. i.simple) (λ i. i.simple) (λ i. not i.volatile) true

unfoldable pub get_ordering : MemAccInst → Result Ordering
unfolding by_kind
get_ordering =
    by_kind (λ i. i.ordering) (λ i. i.ordering) (λ i. Ordering.not_atomic) Ordering.not_atomic

unfoldable pub is_unordered : MemAccInst → Result Bool
unfolding by_kind
is_unordered =
    by_kind (λ i. i.unordered_access) (λ i. i.unordered_access) (λ i. not i.volatile) true

-- `MemAccInstVisitor`, over the instructions in order.
unfoldable pub visit_instruction : List MemAccInst → Inst → Result (List MemAccInst)
unfolding isa from_instruction
visit_instruction accesses i =
    if isa i
    then elim (from_instruction i) [ err e ↦ err e | ok a ↦ ok (accesses ++ a ∷ []) ]
    else ok accesses

unfoldable pub visit : List MemAccInst → List Inst → Result (List MemAccInst)
unfolding visit_instruction
visit accesses [] = ok accesses
visit accesses (i ∷ is') = elim (visit_instruction accesses i) [
  | err e ↦ err e
  | ok accesses' ↦ visit accesses' is'
]
