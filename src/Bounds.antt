-- ===== src/Bounds.antt =====
-- The iteration spaces of a loop nest: `lib/Analysis/LoopBoundsAnalyzer.cpp`.
pub mod Nests
pub mod Enclosing
pub mod Conditions
pub mod Spaces
pub mod Analyzed
pub mod Variables
pub mod Evaluated
pub mod Entries
pub mod Rounds
pub mod NullStart
pub mod Uses
pub mod Tests
