-- ===== src/Lib.antt =====
-- A model of a register allocator for SSA code: the data structures of its passes and the passes that
-- join live ranges and lay out spill slots, with the theorems that make them correct.
--
-- The allocator computes the live range of every SSA value as a sorted list of segments, groups
-- values into sets whose segments do not overlap (coalescing), assigns registers to the parts of
-- these sets, and spills what does not fit: all spilled values of a set share a slot of the stack
-- frame. Paths below are from the repository's root.
--
-- The files and the code that they model:
--   UnionFind         src/union_find.rs: UnionFind with find, try_union and reset. The fuel of find is
--                     the highest rank plus one, which is enough since ranks grow on the way up.
--   LiveRange         src/internal/live_range.rs: Slot, LiveRangePoint, LiveRangeSegment.
--   Uses              src/internal/uses.rs: UseList with the flags packed in its two words. The uses of
--                     a list are a slice of the array, which panics out of range.
--   ValueSegment      src/internal/live_range.rs: ValueSegment, SplitResult. The hints of a split are
--                     a parameter; Hints models the query.
--   Coalescing        src/internal/coalescing.rs: coalesce_values, with the closure that it hands to
--                     try_union, on the table of UnionFind and the segments of ValueSegment. The
--                     segments of a set are a function of the set, with the number of sets beside it:
--                     reading those of any other set panics.
--   Coalescing/Pass   src/internal/coalescing.rs: run, the pass over the blocks of a function with the
--                     pairs of values that it tries to merge. The stable sort of the standard library
--                     and the order of block frequencies, which are floats, are parameters.
--   Function          src/function.rs: the trait through which the client hands a function over, as a
--                     record of its answers, and block_dominates, whose fuel is the number of the
--                     second block plus one; src/entity/base.rs: EntityRange.
--   EntitySet         src/entity/set.rs: the bit vector, by the binary digits of its words. The fuel of
--                     the iteration is one more than the number of bits.
--   Hints             src/internal/hints.rs: recording the hints of fixed registers, on EntitySet, and
--                     the queries on sorted hints. The unstable sort is a parameter.
--   SpillAllocator    src/internal/spill_allocator.rs: queueing sets, the linear scan that assigns slots,
--                     and slots that are added later. The scan takes the order of the sets as the
--                     unstable sort of the standard library leaves it.
--   SplitPlacement    src/internal/split_placement.rs: the tables of blocks with lower frequencies and the
--                     choice of a split point. The frequencies and `>=` on them are parameters. The
--                     fuel of the choice is the length of the range plus one.
--   PostOrder         src/debug_utils/postorder.rs: the depth-first traversal. Its fuel counts, for every
--                     block, its successors and one more, which bounds the rounds.
--   Operand           src/function.rs: Operand as it is packed.
--   Output            src/output.rs, src/allocation_unit.rs, src/entity/packed_option.rs: Allocation,
--                     AllocationUnit and PackedOption as they are packed.
--   SparseMap         src/entity/sparse.rs: SparseMap on its two arrays.
--   CompactList       src/entity/compact_list.rs: lists in a shared pool.
--   Queue             src/internal/allocator/queue.rs: the packed entries of the allocation queue.
--   Allocations       src/internal/allocations.rs: the table of the operands' allocations.
--   Base              shared names: arrays, outcomes of calls, membership, Boolean tests.
-- Below each of these stand the modules of its proofs, named for what they prove, and a module
-- Examples with runs on small inputs and an instance of each result.
--
-- How the code is read: an entity is its index, a number. A `u32` is a number, with its wrap-around
-- written out where the code computes with it; `usize` is unbounded. A method that changes `self`
-- returns the new state. A call ends in a value, an error, a panic or with the fuel used up (Run, in
-- Base/Outcome); indexing out of range panics, and debug assertions are left out. Vectors are lists;
-- a vector used as a stack is a list whose head is its top.
--
-- Not modelled: register assignment itself (the register matrix, and the main loop, eviction and
-- splitting of src/internal/allocator), the construction of live ranges, the move resolver and
-- optimizer with the parallel moves, the other debugging tools (src/debug_utils), printing,
-- statistics and the description of registers that the client implements.
pub mod Base
pub mod UnionFind
pub mod LiveRange
pub mod Uses
pub mod ValueSegment
pub mod Coalescing
pub mod SpillAllocator
pub mod Operand
pub mod Output
pub mod SparseMap
pub mod Allocations
pub mod Queue
pub mod EntitySet
pub mod Function
pub mod Hints
pub mod SplitPlacement
pub mod PostOrder
pub mod CompactList
