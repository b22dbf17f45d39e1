-- ===== src/Extractor.antt =====
-- What the code extractor takes from a region of blocks and gives back: `lib/Transforms/Utils/CodeExtractor.cpp`.
pub mod Regions
pub mod Blocks
pub mod Inputs
pub mod Globals
pub mod Stack
pub mod Prepare
pub mod Setters
pub mod Maps
pub mod Prepared
pub mod Code
pub mod Sever
pub mod Returns
pub mod Attributes
pub mod Move
pub mod Accesses
pub mod Clone
pub mod Erased
pub mod Run
pub mod Lifetimes
pub mod Tests
