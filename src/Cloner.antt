-- ===== src/Cloner.antt =====
-- The loop body cloner: `include/Atrox/Transforms/LoopBodyCloner.hpp` and the visitors of
-- `lib/Support/IR/GeneralUtils.cpp`.
pub mod Calls
pub mod Loops
pub mod Reports
pub mod Outline
pub mod Pass
pub mod Selection
pub mod Tests
