-- ===== src/Payload.antt =====
-- The payload of a loop: its weight (lib/Analysis/PayloadWeights.cpp) and the groups of blocks
-- that hang from its roots (lib/Analysis/PayloadTree.cpp).
pub mod Weights
pub mod Trees
pub mod Tests
