-- ===== src/Lib.antt =====
-- Verification of the dataflow scheduler: the architecture views, the memory allocation, the loop and
-- reduction analyses and the signals between stages. The scheduler lowers a program to a device in
-- passes over MLIR operations. The passes read the device through two views, a tree of its memories
-- and a graph of its resources, and take their decisions from analyses. The decisions are modelled
-- here: what an analysis answers, and what a pass would write, as values.
--
-- Device: the body of a device as the views walk it. Resources and SSA values are uniqued by MLIR and
--   compared by identity, so they are numbers.
-- MemoryTree (lib/Analysis/ArchViews/MemoryTree.cpp): the tree and its queries by node; Queries has
--   capacities, aliases and the classification of memories, Route has `getPath`, Build has
--   `initialize`. Ancestry, Forest, Initialize, Classify, RouteLinks and RouteCorrect hold the proofs.
-- MemoryTracker (lib/Analysis/MemoryTracker.cpp): the addresses handed out in each memory of the tree.
-- AddressAssignment (lib/Transforms/AddressAssignment.cpp, lib/Analysis/Utils.cpp): the size of an
--   allocation; Program has the pass, which asks the tracker for an address for each allocation.
--   Sizes, Placements and Stacking hold the proofs.
-- RoutingGraph (lib/Analysis/ArchViews/RoutingGraph.cpp): the graph and its queries; Build has
--   `initialize`, ShortestPath has `findShortestPath`, with its proofs in Frontier (the invariant), Visit,
--   Rounds and Shortest; Sound and Initialize join the two.
-- LoopTiling (lib/Dialect/KTDF/Analysis/LoopTiling.cpp): nests of loops and their strategies.
-- TileSize (lib/Dialect/KTDF/Transforms/TileSizeSelection.cpp): the size for each reserved size.
-- ReductionChunks (lib/Dialect/KTDF/Analysis/ReductionChunkAnalysis.cpp): the chunks of a reduction.
-- StageGraph (lib/Dialect/KTDF/Analysis/GlobalStageDAG.cpp): the dependencies between the stages of a
--   pipeline, with the search for a cycle and the topological order. Cycles and Search hold the proofs on
--   the search, Edges and Tokens on the graph, Sort, Rounds and Finish on the sort, Kahn on the whole.
--   Nested has `buildGlobalStageDAG` over nested pipelines, with its proofs in Innermost.
-- FifoOrder (lib/Transforms/OrderFifoSlotsByUse.cpp): the accesses of a slot, where it is consumed, and the
--   move of ops within a block; Pass orders a FIFO, Pipeline the FIFOs of a pipeline. Move, Gathered and
--   Memory hold the proofs on the move, Sorted and Follow those on a FIFO.
-- ScratchpadConflicts (lib/Conversion/backend/ScheduleIRToDFIR/KTDFToKTDFLow/ScratchpadConflicts.cpp,
--   lib/Conversion/Utils/Utils.cpp): the memories that units of ordered stages share, which is where
--   signals are needed; Kinds (the memories of a unit), Pairs and Shared hold the proofs.
-- Signals (lib/Conversion/backend/ScheduleIRToDFIR/KTDFToKTDFLow/SignalInsertion.cpp): the signals
--   between conflicting stages, with their guards.
-- Prelude: names of the library, tests, lists, maps, words of 64 bits, divisors.
--
-- Bounds and fuel. `size_t` sums wrap at 2^64 and `unsigned` values at 2^32, written out where the
-- code computes them; `int64_t` sizes that are never negative are natural numbers that do not
-- overflow: dimensions, the constant bounds that MLIR computes for dynamic ones (a negative bound is
-- outside the model), and tile sizes. The loops that follow `parent` run on the next node id as fuel:
-- in a forest a parent has a smaller id. The two loops of the breadth-first search run on the number of nodes plus one, as each
-- node is queued once. So do the search for a cycle, whose path has no node twice, and the sort of the
-- stages. Euclid's loop runs on its second number plus one. A failed assertion is `none`,
-- or a result of its own.
--
-- Not modelled: the rewriting of MLIR operations, the frontends and backends that convert between
-- dialects, the dialects' parsers and verifiers, printing, and the bindings. MLIR's perfect nests,
-- constant bounds, layouts, parent chains, dominance, memory effects and links of device nodes are
-- parameters.
pub mod Prelude
pub mod Device
pub mod FifoOrder
pub mod MemoryTree
pub mod MemoryTracker
pub mod AddressAssignment
pub mod LoopTiling
pub mod RoutingGraph
pub mod TileSize
pub mod ReductionChunks
pub mod ScratchpadConflicts
pub mod Signals
pub mod StageGraph
