-- ===== src/Arrays/Flatten.antt =====
-- `FlattenMultiDimArrayIndices`. A value is an expression over the operands of the reference, which
-- are numbers in 64 bits. `none` as a result means that nothing changed; the erased reference and
-- the copied debug location are not modelled.
use atrox.Prelude.{
  ℕ, ◌*◌, ◌%◌, ◌^◌, leb, if◌then◌else◌, List, [], ◌∷◌, reverse, length, Option, some, none, Result,
  Error, ok, err, ◌>>=◌,
}
use atrox.Arrays.Types.{
  IrType, other, array, pointer, back, get_decomposed_type, get_decomposed_array_sizes,
}

abbrev pub u64_mod : ℕ
u64_mod = 2 ^ 64

pub data Expr : Type 0 where
  value : ℕ → Expr
  int64 : ℕ → Expr
  mul add : Expr → Expr → Expr

-- What an `llvm::GetElementPtrInst` holds: the element type of its pointer operand's type (`none` where that
-- is no pointer type) and its indices, of which there is at least one.
pub record Gep : Type 0 where
  pub pointee : Option IrType
  pub first : Expr
  pub rest : List Expr

-- The reference that takes its place: the type of the cast, the element type and the one index.
pub record Flattened : Type 0 where
  pub cast : IrType
  pub elem_type : IrType
  pub index : Expr

-- `products`, from the reversed sizes.
unfoldable pub products : ℕ → List ℕ → List ℕ
products p [] = []
products p (s ∷ ss) = p ∷ products (p * s % u64_mod) ss

-- `scaledIndices`; `none` is a read behind the end of `indices`.
unfoldable pub scale : List Expr → List ℕ → Option (List Expr)
scale indices [] = some []
scale [] (p ∷ ps) = none
scale (i ∷ indices) (p ∷ ps) = elim (scale indices ps) [
  | none ↦ none
  | some es ↦ some (mul i (int64 p) ∷ es)
]

-- The last of `summedIndices`.
unfoldable pub sum_scaled : Expr → List Expr → Expr
sum_scaled acc [] = acc
sum_scaled acc (e ∷ es) = sum_scaled (add acc e) es

-- `dyn_cast<PointerType>(type)->getElementType()`.
unfoldable pub element_type : IrType → Result IrType
element_type (pointer t) = ok t
element_type (other k) = err Error.undefined
element_type (array n t) = err Error.undefined

unfoldable pub rebuild : Option IrType → Option (List Expr) → Result (Option Flattened)
unfolding get_decomposed_type sum_scaled element_type
rebuild pointee none = err Error.undefined
rebuild pointee (some []) = err Error.undefined
rebuild pointee (some (e ∷ es)) = do
  d ← get_decomposed_type pointee
  let last = back (other 0) d.types
  t ← element_type last
  ok (some (record { cast = last; elem_type = t; index = sum_scaled e es }))

-- With `sizes` known.
unfoldable pub flatten_sized : Gep → List ℕ → Result (Option Flattened)
unfolding scale products rebuild
flatten_sized gep sizes =
    if leb (length sizes) 1
    then ok none
    else rebuild gep.pointee (scale (reverse gep.rest) (products 1 (reverse sizes)))

unfoldable pub flatten_indices : Option Gep → Result (Option Flattened)
unfolding get_decomposed_array_sizes flatten_sized
flatten_indices none = ok none
flatten_indices (some gep) = flatten_sized gep (get_decomposed_array_sizes gep.pointee)
