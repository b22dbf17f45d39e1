-- ===== src/Args.antt =====
-- The arguments of an outlined loop body: their directions, their iterator variance, their order, in
-- `lib/Support/IR/ArgUtils.cpp`.
pub mod Directions
pub mod Order
pub mod Tests
