-- ===== src/Access/Tests.antt =====
-- Runs of `MemAccInst` and `MemoryAccessInfo`.
use atrox.Prelude.{◌≡◌, refl, true, false, List, [], ◌∷◌, some, ok}
use atrox.Access.MemAccInst.{Ordering, Inst, isa}
use atrox.Access.Proxies.{IsLlvmInst}
use atrox.Access.ModRef
use atrox.Access.ModRef.{ModRefBehavior, Call, ValueKind, is_read, is_write}
use atrox.Access.Calls.{inst_writes, is_write_lem}

abbrev blank : Inst
blank = record {
  id = 1;
  is_load = false;
  is_store = false;
  is_call = false;
  is_mem_intrinsic = false;
  is_mem_transfer = false;
  value_operand = 0;
  pointer_operand = 0;
  raw_dest = 0;
  alignment = 0;
  dest_alignment = 0;
  source_alignment = 0;
  volatile = false;
  simple = false;
  unordered_access = false;
  ordering = Ordering.not_atomic;
}

-- A volatile atomic load, and a call of `memcpy`.
abbrev load_example : Inst
load_example = record {
  id = 2;
  is_load = true;
  is_store = false;
  is_call = false;
  is_mem_intrinsic = false;
  is_mem_transfer = false;
  value_operand = 0;
  pointer_operand = 7;
  raw_dest = 0;
  alignment = 8;
  dest_alignment = 0;
  source_alignment = 0;
  volatile = true;
  simple = false;
  unordered_access = false;
  ordering = Ordering.acquire;
}

abbrev copy_example : Inst
copy_example = record {
  id = 3;
  is_load = false;
  is_store = false;
  is_call = true;
  is_mem_intrinsic = true;
  is_mem_transfer = true;
  value_operand = 0;
  pointer_operand = 0;
  raw_dest = 7;
  alignment = 0;
  dest_alignment = 4;
  source_alignment = 8;
  volatile = false;
  simple = false;
  unordered_access = false;
  ordering = Ordering.not_atomic;
}

load-IsLlvmInst : IsLlvmInst load_example
load-IsLlvmInst = record {
  transfer_intrinsic = λ e. cc;
  intrinsic_call = λ e. cc;
  simple_lem = λ e. refl;
  unordered_lem = λ e. refl;
}

copy-IsLlvmInst : IsLlvmInst copy_example
copy-IsLlvmInst = record {
  transfer_intrinsic = λ e. refl;
  intrinsic_call = λ e. refl;
  simple_lem = λ e. cc;
  unordered_lem = λ e. cc;
}

isa_run : isa load_example ≡ true
unfolding isa
isa_run = refl

-- A call that is passed the pointers 7 and 8, of a function with some behaviour.
abbrev call_example : ModRefBehavior → Call
call_example b = record {
  no_memory = false;
  behavior = b;
  args = record { value = 7; is_pointer = true } ∷ record { value = 8; is_pointer = true } ∷ [];
}

abbrev calling : ModRefBehavior → ModRef.Inst
calling b = record { is_ref = λ v. false; is_mod = λ v. false; call = some (call_example b) }

abbrev blocks_example : List (List ModRef.Inst)
blocks_example =
    (calling ModRefBehavior.reads_args ∷ [])
    ∷ (calling ModRefBehavior.accesses_args ∷ calling ModRefBehavior.does_not_access ∷ [])
    ∷ []

is_write_lem_example : is_write true blocks_example ValueKind.instruction 9 ≡ ok false
unfolding inst_writes
is_write_lem_example = is_write_lem true blocks_example 9 ((refl, tt), ((refl, (refl, tt)), tt))
