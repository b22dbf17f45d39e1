-- ===== src/Extractor/Attributes.antt =====
-- Which attributes of the old function `cloneFunction` gives to the new one.
use Prim.Native.String.{String}
use package.text.Mathlib.Text.{◌==◌}
use atrox.Prelude.{
  ◌≡◌, refl, Bool, true, false, not, ◌&&◌, ◌||◌, if◌then◌else◌, List, [], ◌∷◌, ◌++◌, any, arith,
}

-- `llvm::Attribute::AttrKind`.
pub data AttrKind : Type 0 where
  alignment alloc_size arg_mem_only builtin by_val convergent dereferenceable : AttrKind
  dereferenceable_or_null in_alloca in_reg inaccessible_mem_only : AttrKind
  inaccessible_mem_or_arg_mem_only jump_table naked nest no_alias no_builtin no_capture : AttrKind
  no_return none_kind non_null read_none read_only returned returns_twice sext speculatable :
      AttrKind
  stack_alignment struct_ret swift_error swift_self write_only zext end_attr_kinds : AttrKind
  always_inline cold no_recurse inline_hint min_size no_duplicate no_implicit_float no_inline :
      AttrKind
  non_lazy_bind no_red_zone no_unwind opt_for_fuzzing optimize_none optimize_for_size safe_stack :
      AttrKind
  shadow_call_stack sanitize_address sanitize_memory sanitize_thread sanitize_hwaddress : AttrKind
  stack_protect stack_protect_req stack_protect_strong strict_fp uw_table no_cf_check : AttrKind

pub data Attribute : Type 0 where
  string_attribute : String → Attribute
  enum_attribute : AttrKind → Attribute

-- The switch over the kinds.
unfoldable pub is_safe_kind : AttrKind → Bool
is_safe_kind always_inline = true
is_safe_kind cold = true
is_safe_kind no_recurse = true
is_safe_kind inline_hint = true
is_safe_kind min_size = true
is_safe_kind no_duplicate = true
is_safe_kind no_implicit_float = true
is_safe_kind no_inline = true
is_safe_kind non_lazy_bind = true
is_safe_kind no_red_zone = true
is_safe_kind no_unwind = true
is_safe_kind opt_for_fuzzing = true
is_safe_kind optimize_none = true
is_safe_kind optimize_for_size = true
is_safe_kind safe_stack = true
is_safe_kind shadow_call_stack = true
is_safe_kind sanitize_address = true
is_safe_kind sanitize_memory = true
is_safe_kind sanitize_thread = true
is_safe_kind sanitize_hwaddress = true
is_safe_kind stack_protect = true
is_safe_kind stack_protect_req = true
is_safe_kind stack_protect_strong = true
is_safe_kind strict_fp = true
is_safe_kind uw_table = true
is_safe_kind no_cf_check = true
is_safe_kind other = false

unfoldable pub is_safe : Attribute → Bool
unfolding is_safe_kind
is_safe (string_attribute s) = not (s == "thunk")
is_safe (enum_attribute k) = is_safe_kind k

-- `hasFnAttribute` of the kinds that have a test of their own, `doesNotThrow` and `hasUWTable`.
unfoldable pub is_no_unwind : Attribute → Bool
is_no_unwind (string_attribute s) = false
is_no_unwind (enum_attribute no_unwind) = true
is_no_unwind (enum_attribute other) = false

unfoldable pub is_uw_table : Attribute → Bool
is_uw_table (string_attribute s) = false
is_uw_table (enum_attribute uw_table) = true
is_uw_table (enum_attribute other) = false

-- `addFnAttr`, whose set is a list here.
unfoldable pub inherit : List Attribute → List Attribute → List Attribute
unfolding is_safe
inherit attrs [] = attrs
inherit attrs (a ∷ old) = inherit (if is_safe a then attrs ++ a ∷ [] else attrs) old

-- The attributes of the new function, from those of the old one.
unfoldable pub new_attributes : List Attribute → List Attribute
unfolding is_no_unwind is_uw_table inherit
new_attributes old =
    inherit
      ((if any is_no_unwind old then enum_attribute no_unwind ∷ [] else [])
        ++ (if any is_uw_table old then enum_attribute uw_table ∷ [] else []))
      old

any-append :
    (p : Attribute → Bool) (xs ys : List Attribute) → any p (xs ++ ys) ≡ (any p xs || any p ys)
any-append p [] ys = refl
any-append p (x ∷ xs) ys = ground (arith, any-append p xs ys)

inherit_lem :
    (p : Attribute → Bool) (attrs old : List Attribute)
    → any p (inherit attrs old) ≡ (any p attrs || any (λ a. is_safe a && p a) old)
unfolding inherit
inherit_lem p attrs [] = ground arith
inherit_lem p attrs (a ∷ old) = ground (
  arith,
  inherit_lem p (if is_safe a then attrs ++ a ∷ [] else attrs) old,
  any-append p attrs (a ∷ []),
)

-- The attributes that have a test of their own are among those that are inherited.
no_unwind_twice :
    (p : Attribute → Bool) (old : List Attribute)
    → any is_no_unwind old ≡ true
    → p (enum_attribute no_unwind) ≡ true
    → any (λ a. is_safe a && p a) old ≡ true
unfolding is_no_unwind is_safe is_safe_kind
no_unwind_twice p [] h q = cc
no_unwind_twice p (string_attribute s ∷ old) h q = ground (arith, no_unwind_twice p old)
no_unwind_twice p (enum_attribute no_unwind ∷ old) h q = ground arith
no_unwind_twice p (enum_attribute other ∷ old) h q = ground (arith, no_unwind_twice p old)

uw_table_twice :
    (p : Attribute → Bool) (old : List Attribute)
    → any is_uw_table old ≡ true
    → p (enum_attribute uw_table) ≡ true
    → any (λ a. is_safe a && p a) old ≡ true
unfolding is_uw_table is_safe is_safe_kind
uw_table_twice p [] h q = cc
uw_table_twice p (string_attribute s ∷ old) h q = ground (arith, uw_table_twice p old)
uw_table_twice p (enum_attribute uw_table ∷ old) h q = ground arith
uw_table_twice p (enum_attribute other ∷ old) h q = ground (arith, uw_table_twice p old)

-- The new function has an attribute with a property exactly if the old one has one that is safe to propagate; the
-- two attributes with tests of their own are set by the tests and by the loop alike.
pub new_attributes_lem :
    (p : Attribute → Bool) (old : List Attribute)
    → any p (new_attributes old) ≡ any (λ a. is_safe a && p a) old
unfolding new_attributes
new_attributes_lem p old = ground (
  arith,
  inherit_lem p
      ((if any is_no_unwind old then enum_attribute no_unwind ∷ [] else [])
        ++ (if any is_uw_table old then enum_attribute uw_table ∷ [] else []))
      old,
  no_unwind_twice p old,
  uw_table_twice p old,
)
