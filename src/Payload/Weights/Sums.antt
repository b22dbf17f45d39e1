-- ===== src/Payload/Weights/Sums.antt =====
-- The weight of a block is the sum of its instructions' weights modulo 2 ^ 32.
use atrox.Prelude.{
  ℕ, ◌+◌, ◌*◌, ◌%◌, ◌≤◌, ◌<◌, ◌≡◌, some, none, List, [], ◌∷◌, foldl, length, arith, contains,
  lookup, emplace, lookup-emplace, if◌then◌else◌, ==→≡,
}
use atrox.Payload.Weights.{
  u32_mod, Visit, weight_of, to_weight, add_weight, visit, block_weight, calculate_payload_weight,
}

-- The plain sum.
abbrev pub weight_sum : List Visit → ℕ
weight_sum [] = 0
weight_sum (i ∷ is') = to_weight (weight_of i) + weight_sum is'

weight_of-le : (i : Visit) → to_weight (weight_of i) ≤ 35
unfolding weight_of
weight_of-le i = ground arith

foldl-visit :
    (w : ℕ) (is' : List Visit) → foldl visit w is' % u32_mod ≡ (w + weight_sum is') % u32_mod
unfolding visit add_weight
foldl-visit w [] = omega arith
foldl-visit w (i ∷ is') = omega (arith, foldl-visit (visit w i) is')

foldl-visit_lt : (w : ℕ) (is' : List Visit) → w < u32_mod → foldl visit w is' < u32_mod
unfolding visit add_weight
foldl-visit_lt w [] h = h
foldl-visit_lt w (i ∷ is') h = foldl-visit_lt (visit w i) is' (omega arith)

-- The weight of a block is the sum over its instructions, modulo 2 ^ 32.
pub block_weight_lem : (is' : List Visit) → block_weight is' ≡ weight_sum is' % u32_mod
unfolding block_weight
block_weight_lem is' = omega (arith, foldl-visit 0 is', foldl-visit_lt 0 is' (omega arith))

weight_sum-le : (is' : List Visit) → weight_sum is' ≤ 35 * length is'
weight_sum-le [] = omega arith
weight_sum-le (i ∷ is') = omega (arith, weight_of-le i, weight_sum-le is')

-- A block of fewer than 122713352 instructions does not overflow the weight, which is then the plain sum.
pub block_weight_exact :
    (is' : List Visit) → length is' < 122713352 → block_weight is' ≡ weight_sum is'
block_weight_exact is' h = omega (arith, block_weight_lem is', weight_sum-le is')

lookup-calculate :
    (instructions : ℕ → List Visit) (blocks : List ℕ) (weights : List (ℕ × ℕ)) (b : ℕ)
    → lookup (calculate_payload_weight instructions blocks weights) b ≡ elim (lookup weights b) [
      | some w ↦ some w
      | none ↦ if contains blocks b then some (block_weight (instructions b)) else none
    ]
unfolding calculate_payload_weight
lookup-calculate instructions [] weights b = ground arith
lookup-calculate instructions (e ∷ blocks) weights b = ground (
  arith,
  lookup-calculate instructions blocks (emplace weights e (block_weight (instructions e))) b,
  lookup-emplace weights e (block_weight (instructions e)) b,
  ==→≡ b e,
)

-- `CalculatePayloadWeight` has an entry for exactly the given blocks, also where a block is given twice: the
-- sum of the weights of its instructions modulo 2 ^ 32.
pub calculate_payload_weight_lem :
    (instructions : ℕ → List Visit) (blocks : List ℕ) (b : ℕ)
    → lookup (calculate_payload_weight instructions blocks []) b
      ≡ (if contains blocks b then some (weight_sum (instructions b) % u32_mod) else none)
calculate_payload_weight_lem instructions blocks b =
    ground (arith, lookup-calculate instructions blocks [] b, block_weight_lem (instructions b))
