-- ===== src/Arrays/Types.antt =====
-- The types that a `getelementptr` steps through, and `GetDecomposedMultiDimArrayType` and
-- `GetDecomposedArraySizes`. A pointer type is given by its element type; `none` is the null pointer.
use atrox.Prelude.{
  ℕ, zero, suc, ◌+◌, ◌-◌, List, [], ◌∷◌, ◌++◌, reverse, Option, some, none, Result, Error, ok, err,
}

-- `llvm::ArrayType`, `llvm::PointerType`, and any other type by a number.
pub data IrType : Type 0 where
  other : ℕ → IrType
  array : ℕ → IrType → IrType
  pointer : IrType → IrType

-- What the `while` loop over the array types leaves in `basicTy` and `dim`.
unfoldable pub peel : IrType → Option IrType → ℕ → Option IrType × ℕ
peel (array n t) basic dim = peel t (some t) (dim + 1)
peel (other k) basic dim = (basic, dim)
peel (pointer t) basic dim = (basic, dim)

-- `newTypes.back()`.
abbrev pub back : IrType → List IrType → IrType
back d [] = d
back d (t ∷ ts) = back t ts

-- The `for` loop that pushes pointer types, by the rounds that are left.
unfoldable pub push_pointers : IrType → ℕ → List IrType → List IrType
push_pointers d zero types = types
push_pointers d (suc n) types = push_pointers d n (types ++ pointer (back d types) ∷ [])

pub record Decomposed : Type 0 where
  pub basic : Option IrType
  pub types : List IrType

-- The rest of the function. Where the pointee is no array, `PointerType::getUnqual` is given the
-- null `basicTy`.
unfoldable pub build_types : Option IrType × ℕ → Result Decomposed
unfolding push_pointers
build_types (none, dim) = err Error.undefined
build_types (some b, dim) =
    ok (record { basic = some b; types = reverse (push_pointers b (dim - 1) (pointer b ∷ [])) })

unfoldable pub get_decomposed_type : Option IrType → Result Decomposed
unfolding peel build_types
get_decomposed_type none = ok (record { basic = none; types = [] })
get_decomposed_type (some elem) = build_types (peel elem none 1)

unfoldable pub array_sizes : IrType → List ℕ
array_sizes (array n t) = n ∷ array_sizes t
array_sizes (other k) = []
array_sizes (pointer t) = []

unfoldable pub get_decomposed_array_sizes : Option IrType → List ℕ
unfolding array_sizes
get_decomposed_array_sizes none = []
get_decomposed_array_sizes (some elem) = array_sizes elem
