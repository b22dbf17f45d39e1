-- ===== src/Access/ModRef.antt =====
-- `MemoryAccessInfo`. What alias analysis says of an instruction and of a called function is part of
-- the instruction here; a switch that reaches `llvm_unreachable` is an error.
use atrox.Prelude.{
  ℕ, Bool, true, false, not, ◌&&◌, if◌then◌else◌, List, [], ◌∷◌, ◌==◌, Option, some, none, Result,
  Error, ok, err,
}

-- `llvm::FunctionModRefBehavior`.
pub data ModRefBehavior : Type 0 where
  unknown does_not_access does_not_read inaccessible_mem inaccessible_or_arg_mem : ModRefBehavior
  only_reads reads_args accesses_args : ModRefBehavior

pub record Arg : Type 0 where
  pub value : ℕ
  pub is_pointer : Bool

pub record Call : Type 0 where
  pub no_memory : Bool
  pub behavior : ModRefBehavior
  pub args : List Arg

-- An instruction: whether it may read or write at a value's location, and the call if it is one.
pub record Inst : Type 0 where
  pub is_ref : ℕ → Bool
  pub is_mod : ℕ → Bool
  pub call : Option Call

-- The classes of values that the queries tell apart.
pub data ValueKind : Type 0 where
  instruction argument global_variable other : ValueKind

-- The loop over the arguments of a call.
unfoldable pub is_pointer_arg : ℕ → List Arg → Bool
is_pointer_arg v [] = false
is_pointer_arg v (a ∷ as') = if a.is_pointer && a.value == v then true else is_pointer_arg v as'

unfoldable pub read_behavior : ModRefBehavior → Bool → Result Bool
read_behavior ModRefBehavior.unknown is_arg = err Error.unreachable
read_behavior ModRefBehavior.does_not_access is_arg = ok false
read_behavior ModRefBehavior.does_not_read is_arg = ok false
read_behavior ModRefBehavior.inaccessible_mem is_arg = err Error.unreachable
read_behavior ModRefBehavior.inaccessible_or_arg_mem is_arg = err Error.unreachable
read_behavior ModRefBehavior.only_reads is_arg = ok true
read_behavior ModRefBehavior.reads_args is_arg = ok is_arg
read_behavior ModRefBehavior.accesses_args is_arg = ok is_arg

unfoldable pub write_behavior : ModRefBehavior → Bool → Result Bool
write_behavior ModRefBehavior.unknown is_arg = err Error.unreachable
write_behavior ModRefBehavior.does_not_access is_arg = ok false
write_behavior ModRefBehavior.does_not_read is_arg = ok false
write_behavior ModRefBehavior.inaccessible_mem is_arg = err Error.unreachable
write_behavior ModRefBehavior.inaccessible_or_arg_mem is_arg = err Error.unreachable
write_behavior ModRefBehavior.only_reads is_arg = ok false
write_behavior ModRefBehavior.reads_args is_arg = ok false
write_behavior ModRefBehavior.accesses_args is_arg = ok is_arg

unfoldable pub is_read_by_call : ℕ → Option Call → Result Bool
unfolding read_behavior is_pointer_arg
is_read_by_call v none = ok false
is_read_by_call v (some c) =
    if c.no_memory then ok false else read_behavior c.behavior (is_pointer_arg v c.args)

unfoldable pub is_written_by_call : ℕ → Option Call → Result Bool
unfolding write_behavior is_pointer_arg
is_written_by_call v none = ok false
is_written_by_call v (some c) =
    if c.no_memory then ok false else write_behavior c.behavior (is_pointer_arg v c.args)

-- The loops over the instructions of the blocks, for a test of one instruction.
unfoldable pub find_inst : (Inst → Result Bool) → List Inst → Result Bool
find_inst test [] = ok false
find_inst test (i ∷ is') = elim (test i) [
  | err e ↦ err e
  | ok true ↦ ok true
  | ok false ↦ find_inst test is'
]

unfoldable pub find_block : (Inst → Result Bool) → List (List Inst) → Result Bool
unfolding find_inst
find_block test [] = ok false
find_block test (bb ∷ bbs) = elim (find_inst test bb) [
  | err e ↦ err e
  | ok true ↦ ok true
  | ok false ↦ find_block test bbs
]

unfoldable pub reads : ℕ → Inst → Result Bool
unfolding is_read_by_call
reads v i = if i.is_ref v && not (i.is_mod v) then ok true else is_read_by_call v i.call

unfoldable pub writes : ℕ → Inst → Result Bool
unfolding is_written_by_call
writes v i = if i.is_mod v then ok true else is_written_by_call v i.call

-- A query, with the option `atrox-ignore-aliasing`.
unfoldable pub query :
    (ℕ → Inst → Result Bool) → Bool → List (List Inst) → ValueKind → ℕ → Result Bool
unfolding find_block
query test ignore_aliasing blocks ValueKind.instruction v = find_block (test v) blocks
query test ignore_aliasing blocks ValueKind.argument v = ok ignore_aliasing
query test ignore_aliasing blocks ValueKind.global_variable v = ok ignore_aliasing
query test ignore_aliasing blocks ValueKind.other v = err Error.unreachable

unfoldable pub is_read : Bool → List (List Inst) → ValueKind → ℕ → Result Bool
unfolding query reads
is_read = query reads

unfoldable pub is_write : Bool → List (List Inst) → ValueKind → ℕ → Result Bool
unfolding query writes
is_write = query writes
