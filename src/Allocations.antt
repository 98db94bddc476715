-- ===== src/Allocations.antt =====
-- `Allocations` of src/internal/allocations.rs: one allocation for each operand of each instruction, in
-- one array, with the offset of each instruction's part.
pub mod Table
pub mod Parts
mod Examples
use regalloc.Base.{
  ℕ, zero, suc, ◌+◌, ◌-◌, ◌%◌, ◌^◌, ◌==◌, ltb, leb, if◌then◌else◌, Bool, true, false, ◌&&◌, Run, ok,
  err, panic, function_too_big, ◌>>=◌, load, store, List, [], ◌∷◌, ◌++◌, length, take, drop,
  replicate, not,
}
use regalloc.LiveRange.{u32_mod}
use regalloc.Output.{Allocation, allocation_reserved}

pub record Allocations : Type 0 where
  pub allocations : List Allocation
  pub operands_offset : List ℕ

unfoldable pub new : Allocations
new = record { allocations = []; operands_offset = [] }

-- The loop of `compute_alloc_offsets`: the offsets, and the one behind the last instruction. An
-- instruction is given by the number of its operands, which is cast to `u32`.
unfoldable pub offsets_from : ℕ → List ℕ → Run (List ℕ × ℕ)
offsets_from offset [] = ok ([], offset)
offsets_from offset (operands ∷ insts) =
    let next = offset + operands % u32_mod in
    let rest = offsets_from next insts in
    if ltb next u32_mod
    then (do (offsets, end_) ← rest; ok (offset ∷ offsets, end_))
    else err function_too_big

-- `compute_alloc_offsets`. It clears the table first, so that nothing of it is left.
unfoldable pub compute_alloc_offsets : List ℕ → Run Allocations
unfolding offsets_from
compute_alloc_offsets insts = do
  (offsets, end_) ← offsets_from 0 insts
  ok (record {
    allocations = replicate end_ allocation_reserved.reserved_value;
    operands_offset = offsets ++ end_ ∷ [];
  })

-- `set_allocation`.
unfoldable pub set_allocation : Allocations → ℕ → ℕ → Allocation → Run Allocations
set_allocation t inst slot alloc = do
  offset ← load t.operands_offset inst
  a ← store t.allocations (offset + slot) alloc
  ok (record t { allocations = a })

-- `&v[start..end]`, which panics out of range.
unfoldable pub slice : List Allocation → ℕ → ℕ → Run (List Allocation)
slice xs start end_ =
    if leb start end_ && leb end_ (length xs)
    then ok (take (end_ - start) (drop start xs))
    else panic

-- `inst_allocations`, and the range that `inst_allocations_mut` lends.
unfoldable pub inst_allocations : Allocations → ℕ → Run (List Allocation)
unfolding slice
inst_allocations t inst = do
  start ← load t.operands_offset inst
  end_ ← load t.operands_offset (inst + 1)
  slice t.allocations start end_

-- `assert_all_assigned`, as the test that it asserts.
unfoldable pub all_assigned : List Allocation → Bool
all_assigned [] = true
all_assigned (a ∷ rest) = not (allocation_reserved.is_reserved_value a) && all_assigned rest
