-- ===== src/Lib.antt =====
-- Atrox, an LLVM 7 pass that separates the payload of a loop from its iterator and outlines the payload.
--
-- The parts, and the files that model them. A function has the source's name in snake case.
--   Payload/Trees      lib/Analysis/PayloadTree.cpp: which payload blocks hang from which root. Loop is the
--                      worklist, Correct the groups, Roots the roots and the blacklist, Forest the whole.
--   Payload/Weights    lib/Analysis/PayloadWeights.cpp: the weight of a block, in 32 bits.
--   Selection          lib/Analysis/NaiveSelector.cpp, IteratorRecognitionSelector.cpp and
--                      WeightedIteratorRecognitionSelector.cpp: which blocks of a loop are outlined. The
--                      weighted one uses the weights and the trees.
--   Arrays             lib/Transforms/DecomposeMultiDimArrayRefs.cpp: Types and Shapes for the types,
--                      Flatten, Dots and Offsets for FlattenMultiDimArrayIndices, Decompose and Chains for
--                      DecomposeMultiDimArrayRefs; Pass and Run for perform and run of
--                      lib/Transforms/Passes/DecomposeMultiDimArrayRefsPass.cpp, which uses Access.
--   Separator          lib/Transforms/BlockSeparator.cpp and lib/Transforms/Passes/BlockSeparatorPass.cpp:
--                      Points and Cuts for FindPartitionPoints, Split, Pieces and Labels for
--                      SplitAtPartitionPoints, Pass and Run for perform and run.
--   Functions          the white list of functions that the passes share.
--   Access             include/Atrox/Support/MemAccInst.hpp (MemAccInst, Proxies) and
--                      lib/Analysis/MemoryAccessInfo.cpp (ModRef, Calls).
--   Args               lib/Support/IR/ArgUtils.cpp: the order, directions and variance of the arguments
--                      of an outlined function.
--   Bounds             lib/Analysis/LoopBoundsAnalyzer.cpp: Nests for the loop forest, Conditions for the
--                      queries on conditions, Spaces for analyze, evaluate and the queries on variables;
--                      Rounds is what the rounds of evaluate make of the bounds.
--   Extractor          lib/Transforms/Utils/CodeExtractor.cpp: Blocks for the set of blocks (Visits is the
--                      search for block addresses), Regions for the inputs and outputs of a
--                      region, those from globals and the maps between them; Stack for
--                      findStackAllocatable, which asks Bounds, Prepare for prepare, which uses Args, and
--                      Clone for cloneFunction (Targets is where the clones branch to). Run is
--                      cloneCodeRegion as a whole, which calls Sever (severSplitPHINodes), Returns
--                      (splitReturnBlocks), Accesses (the flattening, by Arrays/Flatten), Clone,
--                      Attributes, Move (moveBlocksToFunction) and Erased (the InstructionEraser of
--                      lib/Support/IR/GeneralUtils.cpp on the clones); Code is what these change.
--                      Lifetimes is findAllocas, which nothing calls, with getCommonExitBlock and
--                      isLegalToShrinkwrapLifetimeMarkers; Setters is setInputs, setOutputs and
--                      setStackAllocas of include/Atrox/Transforms/Utils/CodeExtractor.hpp.
--   Cloner             lib/Support/IR/GeneralUtils.cpp (Calls) and
--                      include/Atrox/Transforms/LoopBodyCloner.hpp (Loops, Reports): what is done with
--                      each loop and what is reported, by Args; Outline is what it gets of
--                      Extractor. Pass is perform of
--                      lib/Transforms/Passes/LoopBodyClonerPass.cpp, which uses Selection.
--                      Cloner/Selection is the contract of the three selectors.
--   Reports            toJSON of lib/Exchange/JSONTransfer.cpp.
--   Llvm, Recognition  what the code reads of LLVM and of the IteratorRecognition library.
--   Prelude, Examples  shared helpers, and the inputs of the tests; each component has a module Tests.
--
-- A pointer is a number and the null pointer 0. A pointer set is a list that is walked in an order that
-- is a parameter (SetOrder); a std::map is a list in the order of its keys; unsigned and uint64_t are
-- numbers with % 2 ^ 32 and % 2 ^ 64 written out. Failed assertions, llvm_unreachable and reads through
-- an end iterator or a null pointer are errors of Result. The worklist of the payload trees is on fuel:
-- each round blacklists a payload block that was not, or the root, so a round more than there are
-- payload blocks is enough. The two walks up a loop nest have the depth of the loop
-- as fuel, and the search for block addresses the number of operands that it can push.
--
-- llvm::SplitBlock is a parameter (BlockSplitter) by its documented effect; alias analysis, disposition
-- tracking, scalar evolution and loop traversals are functions that the definitions take. What the cloner
-- gets of the code extractor is a parameter of Cloner/Loops, which Cloner/Outline fills.
--
-- In Extractor/Clone an instruction is its operands, and a rewriting of the users of a value in the
-- cloned blocks rewrites the operands of every clone. In Extractor/Run what the clones are made of is
-- read from the code as it is after the splits, by functions that are parameters; the splits of blocks
-- and the dominator tree are parameters too, by their documented effect.
--
-- Not modelled: of the code extractor, names of values, debug locations, the verification of the new
-- function, moveCodeToFunction, and findOrCreateBlockForHoisting, which nothing calls and which changes
-- the list of uses that it walks; how a file is written; messages; command line options and registration.
--
pub mod Prelude
pub mod Llvm
pub mod Recognition
pub mod Functions
pub mod Payload
pub mod Selection
pub mod Arrays
pub mod Separator
pub mod Access
pub mod Args
pub mod Bounds
pub mod Examples
pub mod Extractor
pub mod Cloner
pub mod Reports
