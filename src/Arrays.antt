-- ===== src/Arrays.antt =====
-- Multi-dimensional array references: lib/Transforms/DecomposeMultiDimArrayRefs.cpp.
pub mod Types
pub mod Shapes
pub mod Flatten
pub mod Dots
pub mod Offsets
pub mod Decompose
pub mod Chains
pub mod Pass
pub mod Run
pub mod Tests
