-- ===== src/Allocations/Examples.antt =====
-- Tests of src/internal/allocations.rs, and the theorems at inputs.
use regalloc.Base.{
  ℕ, ◌^◌, ◌≡◌, refl, ok, err, function_too_big, ◌>>=◌, List, [], ◌∷◌, Returns, arith,
}
use regalloc.Allocations.{Allocations, compute_alloc_offsets, set_allocation, inst_allocations}
use regalloc.Allocations.Table.{IsTable, Computed, compute_alloc_offsets-Computed}
use regalloc.Allocations.Parts.{Assigned, set_allocation-Assigned}

-- Instructions with two, no and one operands.
abbrev insts : List ℕ
insts = 2 ∷ 0 ∷ 1 ∷ []

abbrev table : Allocations
table = record { allocations = 7 ∷ 8 ∷ 9 ∷ []; operands_offset = 0 ∷ 2 ∷ 2 ∷ 3 ∷ [] }

set_allocation_runs :
    (compute_alloc_offsets insts >>= λ t. set_allocation t 2 0 5 >>= λ t'. inst_allocations t' 2)
    ≡ ok (5 ∷ [])
unfolding compute_alloc_offsets set_allocation inst_allocations
set_allocation_runs = refl

too_big : compute_alloc_offsets (2 ^ 31 ∷ 2 ^ 31 ∷ []) ≡ err function_too_big
unfolding compute_alloc_offsets
too_big = refl

table-IsTable : IsTable table insts
table-IsTable = record { offsets = refl; size = refl }

compute_alloc_offsets-Computed_example : Computed insts (compute_alloc_offsets insts)
compute_alloc_offsets-Computed_example =
    compute_alloc_offsets-Computed insts (omega arith, (omega arith, (omega arith, tt)))

set_allocation-Assigned_example :
    Returns (λ t'. Assigned table t' insts 0 1 5) (set_allocation table 0 1 5)
set_allocation-Assigned_example =
    set_allocation-Assigned table insts 0 1 5 table-IsTable (omega arith) (omega arith)
