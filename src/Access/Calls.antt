-- ===== src/Access/Calls.antt =====
-- What `MemoryAccessInfo` answers, against a description without the switches and loops.
use atrox.Prelude.{
  ℕ, ◌≡◌, refl, Bool, true, false, not, ◌&&◌, ◌||◌, List, [], ◌∷◌, ◌==◌, Option, some, none, any,
  All, Result, ok, arith, Bool-cases, inl, inr,
}
use atrox.Access.ModRef.{
  ModRefBehavior, Arg, Call, Inst, ValueKind, is_pointer_arg, read_behavior, write_behavior,
  is_read_by_call, is_written_by_call, find_inst, find_block, reads, writes, query, is_read,
  is_write,
}

-- The behaviours that the switches have an answer for.
abbrev pub is_handled : ModRefBehavior → Bool
is_handled ModRefBehavior.unknown = false
is_handled ModRefBehavior.inaccessible_mem = false
is_handled ModRefBehavior.inaccessible_or_arg_mem = false
is_handled _ = true

abbrev pub is_handled_call : Option Call → Bool
is_handled_call none = true
is_handled_call (some c) = c.no_memory || is_handled c.behavior

-- The value is passed as a pointer.
unfoldable pub is_passed : ℕ → Call → Bool
is_passed v c = any (λ a. a.is_pointer && a.value == v) c.args

-- A call reads whatever its function may read, and its pointer arguments if the function reads only those.
unfoldable pub call_reads : ℕ → Option Call → Bool
unfolding is_passed
call_reads v none = false
call_reads v (some c) = not c.no_memory && elim c.behavior [
  | ModRefBehavior.only_reads ↦ true
  | ModRefBehavior.reads_args ↦ is_passed v c
  | ModRefBehavior.accesses_args ↦ is_passed v c
  | _ ↦ false
]

-- LLVM's flags of a behaviour: whether the function may read, and may modify, what its pointer arguments point to.
abbrev pub may_read_args : ModRefBehavior → Bool
may_read_args ModRefBehavior.does_not_access = false
may_read_args ModRefBehavior.does_not_read = false
may_read_args ModRefBehavior.inaccessible_mem = false
may_read_args _ = true

abbrev pub may_modify_args : ModRefBehavior → Bool
may_modify_args ModRefBehavior.does_not_access = false
may_modify_args ModRefBehavior.only_reads = false
may_modify_args ModRefBehavior.reads_args = false
may_modify_args ModRefBehavior.inaccessible_mem = false
may_modify_args _ = true

-- A call that passes the value as a pointer to a function that may both read and modify it.
unfoldable pub is_read_and_modified : ℕ → Option Call → Bool
unfolding is_passed
is_read_and_modified v none = false
is_read_and_modified v (some c) =
    not c.no_memory && is_passed v c && may_read_args c.behavior && may_modify_args c.behavior

unfoldable pub inst_reads : ℕ → Inst → Bool
unfolding call_reads
inst_reads v i = (i.is_ref v && not (i.is_mod v)) || call_reads v i.call

unfoldable pub inst_writes : ℕ → Inst → Bool
unfolding is_read_and_modified
inst_writes v i = i.is_mod v || is_read_and_modified v i.call

-- No call of the instructions has a behaviour that the switches do not handle.
abbrev pub IsHandledInst : Inst → Type 0
IsHandledInst i = is_handled_call i.call ≡ true

is_pointer_arg-any :
    (v : ℕ) (as' : List Arg) → is_pointer_arg v as' ≡ any (λ a. a.is_pointer && a.value == v) as'
unfolding is_pointer_arg
is_pointer_arg-any v [] = refl
is_pointer_arg-any v (a ∷ as') = ground (arith, is_pointer_arg-any v as')

read_lem :
    (v : ℕ) (c : Option Call) → is_handled_call c ≡ true → is_read_by_call v c ≡ ok (call_reads v c)
unfolding is_read_by_call read_behavior call_reads is_passed
read_lem v none h = refl
read_lem v (some c) h = elim (Bool-cases c.no_memory) [
  | inl y ↦ rw y refl
  | inr n ↦ let e = is_pointer_arg-any v c.args in ground arith
]

written_lem :
    (v : ℕ) (c : Option Call)
    → is_handled_call c ≡ true
    → is_written_by_call v c ≡ ok (is_read_and_modified v c)
unfolding is_written_by_call write_behavior is_read_and_modified is_passed
written_lem v none h = refl
written_lem v (some c) h = elim (Bool-cases c.no_memory) [
  | inl y ↦ rw y refl
  | inr n ↦ let e = is_pointer_arg-any v c.args in ground arith
]

module _ (test : Inst → Result Bool) (p : Inst → Bool)
    (known : (i : Inst) → IsHandledInst i → test i ≡ ok (p i)) where
  find_inst_lem : (is' : List Inst) → All IsHandledInst is' → find_inst test is' ≡ ok (any p is')
  unfolding find_inst
  find_inst_lem [] h = refl
  find_inst_lem (i ∷ is') h = elim (Bool-cases (p i)) [
    | inl y ↦ rw (find_inst, known i h.0, y) refl
    | inr n ↦ rw (find_inst, known i h.0, n) (find_inst_lem is' h.1)
  ]

  find_block_lem :
      (bbs : List (List Inst))
      → All (All IsHandledInst) bbs
      → find_block test bbs ≡ ok (any (any p) bbs)
  unfolding find_block
  find_block_lem [] h = refl
  find_block_lem (bb ∷ bbs) h = elim (Bool-cases (any p bb)) [
    | inl y ↦ rw (find_block, find_inst_lem bb h.0, y) refl
    | inr n ↦ rw (find_block, find_inst_lem bb h.0, n) (find_block_lem bbs h.1)
  ]

-- If the switches handle the behaviour of every call of the blocks, the query for reads of an instruction's location
-- returns, whatever the option, and says whether some instruction only reads it or is a call that reads it.
pub is_read_lem :
    (ignore_aliasing : Bool) (blocks : List (List Inst)) (v : ℕ)
    → All (All IsHandledInst) blocks
    → is_read ignore_aliasing blocks ValueKind.instruction v ≡ ok (any (any (inst_reads v)) blocks)
unfolding is_read query reads inst_reads
is_read_lem ignore_aliasing blocks v h =
    find_block_lem (reads v) (inst_reads v) (λ i handled. ground (arith, read_lem v i.call handled))
      blocks h

-- If the switches handle the behaviour of every call of the blocks, the query for writes of an instruction's location
-- returns, whatever the option, and says whether alias analysis reports some instruction to modify the location, or
-- some call passes it as a pointer to a function that by LLVM's flags may both read and modify it. So a call of a
-- function that may modify it and not read it counts for nothing, unless alias analysis reports it.
pub is_write_lem :
    (ignore_aliasing : Bool) (blocks : List (List Inst)) (v : ℕ)
    → All (All IsHandledInst) blocks
    → is_write ignore_aliasing blocks ValueKind.instruction v
      ≡ ok (any (any (inst_writes v)) blocks)
unfolding is_write query writes inst_writes
is_write_lem ignore_aliasing blocks v h =
    find_block_lem (writes v) (inst_writes v)
      (λ i handled. ground (arith, written_lem v i.call handled)) blocks h

-- A function that only writes memory is never found to write what it is passed: a call of it, in a block of its
-- own, that alias analysis does not report is no write of a pointer argument.
pub write_only_call_lem :
    (ignore_aliasing : Bool) (v : ℕ) (i : Inst) (c : Call)
    → i.is_mod v ≡ false
    → i.call ≡ some c
    → c.behavior ≡ ModRefBehavior.does_not_read
    → is_write ignore_aliasing ((i ∷ []) ∷ []) ValueKind.instruction v ≡ ok false
unfolding is_write query writes find_block find_inst is_written_by_call write_behavior
write_only_call_lem ignore_aliasing v i c m e b = elim (Bool-cases c.no_memory) [
  | inl y ↦ rw (is_write, query, find_block, find_inst, writes, m, e, is_written_by_call, y) refl
  | inr n ↦
      rw
        (
          is_write, query, find_block, find_inst, writes, m, e, is_written_by_call, n,
          write_behavior, b,
        )
        refl
]
