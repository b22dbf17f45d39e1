-- ===== src/Selection.antt =====
-- The strategies that select the blocks of a loop to extract: lib/Analysis/NaiveSelector.cpp,
-- lib/Analysis/IteratorRecognitionSelector.cpp and
-- lib/Analysis/WeightedIteratorRecognitionSelector.cpp.
pub mod Naive
pub mod Iterator
pub mod Weighted
pub mod Tests
