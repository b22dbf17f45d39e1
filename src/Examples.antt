-- ===== src/Examples.antt =====
-- Inputs that the tests of several components run on: a loop 1 with header 10 and latch 14, whose payload
-- is the blocks 12 and 13, one behind the other, and 16 beside them.
use atrox.Prelude.{ℕ, false, List, [], ◌∷◌, ◌==◌, refl, none, some, lookup, contains}
use atrox.Llvm.{Cfg, LoopInfo, SetOrder}
use atrox.Recognition.{IteratorInfo, IteratorRecognitionInfo}

abbrev pub at : List (ℕ × List ℕ) → ℕ → List ℕ
at m k = elim (lookup m k) [ none ↦ [] | some xs ↦ xs ]

abbrev pub cfg_example : Cfg
cfg_example = record {
  preds =
      at ((10, 14 ∷ []) ∷ (12, 10 ∷ []) ∷ (13, 12 ∷ []) ∷ (14, 13 ∷ 16 ∷ []) ∷ (16, 10 ∷ []) ∷ []);
  succs =
      at ((10, 12 ∷ 16 ∷ []) ∷ (12, 13 ∷ []) ∷ (13, 14 ∷ []) ∷ (14, 10 ∷ []) ∷ (16, 14 ∷ []) ∷ []);
}

abbrev pub loop_blocks : List ℕ
loop_blocks = 10 ∷ 12 ∷ 13 ∷ 16 ∷ 14 ∷ []

abbrev pub li_example : LoopInfo
li_example = record {
  loop_for = λ bb. 1;
  is_loop_header = λ bb. bb == 10;
  block_depth = λ bb. 1;
  header = λ l. 10;
  latch = λ l. 14;
  latches = λ l. 14 ∷ [];
  blocks = λ l. loop_blocks;
  depth = λ l. 1;
  rpo = λ l. loop_blocks;
}

abbrev pub order_example : SetOrder
order_example = record { walk = λ xs. xs; contains-walk = λ xs a. refl }

abbrev pub payload_example : List ℕ
payload_example = 12 ∷ 13 ∷ 16 ∷ []

abbrev pub info_example : IteratorInfo
info_example = record {
  is_iterator = λ i. contains (2 ∷ 4 ∷ 20 ∷ []) i;
  payload_only_blocks = λ l. payload_example;
  has_payload_only_blocks = λ l. false;
}

abbrev pub infos_example : IteratorRecognitionInfo
infos_example = λ l. some info_example
