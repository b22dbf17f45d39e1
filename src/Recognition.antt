-- ===== src/Recognition.antt =====
-- What the code reads of the IteratorRecognition library, a parameter of the definitions that use
-- it: for a loop, which instructions are of its iterator and which blocks have payload alone.
use atrox.Prelude.{ℕ, Bool, List, Option}

pub record IteratorInfo : Type 0 where
  pub is_iterator : ℕ → Bool
  pub payload_only_blocks : ℕ → List ℕ
  pub has_payload_only_blocks : ℕ → Bool

-- `getIteratorInfoFor`: a loop has information or an error.
abbrev pub IteratorRecognitionInfo : Type 0
IteratorRecognitionInfo = ℕ → Option IteratorInfo
