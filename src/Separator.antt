-- ===== src/Separator.antt =====
-- The block separator: lib/Transforms/BlockSeparator.cpp, and the loop of
-- lib/Transforms/Passes/BlockSeparatorPass.cpp over the loops of a function.
pub mod Points
pub mod Cuts
pub mod Split
pub mod Pieces
pub mod Labels
pub mod Pass
pub mod Run
pub mod Tests
