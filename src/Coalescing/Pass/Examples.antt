-- ===== src/Coalescing/Pass/Examples.antt =====
-- Tests of the coalescing pass (src/internal/coalescing.rs): an operand that reuses another one, and a
-- block parameter whose value overlaps the set that it would join.
use regalloc.Base.{
  ℕ, zero, suc, ◌≡◌, refl, Bool, false, none, List, [], ◌∷◌, length, ok, ◌>>=◌, Returns, All, arith,
}
use regalloc.Function.{Function, iter, blocks}
use regalloc.Operand.{Operand, OperandKind, OperandConstraint, new_operand, kind, constraint}
use regalloc.UnionFind.{new, find, reset}
use regalloc.ValueSegment.{ValueSegment}
use regalloc.Coalescing.{ValueSet, LiveRanges, coalesce_values}
use regalloc.Coalescing.Unify.{IsSorted}
use regalloc.Coalescing.Pass.{
  Pass, run, coalesce_blocks, coalesce_in_block, coalesce_insts, coalesce_operands,
  coalesce_operand, coalesce_constraint, coalesce_group, coalesce_tied, try_pair, try_pairs,
  coalesce_params,
}
use regalloc.Coalescing.Pass.Invariant.{Inv, AreValues}
use regalloc.Coalescing.Pass.Blocks.{IsWellFormed, OperandFits}
use regalloc.Coalescing.Pass.Whole.{run-Inv}

abbrev operands_of : ℕ → List Operand
operands_of zero =
    new_operand (OperandKind.use_ 0) (OperandConstraint.class 0)
    ∷ new_operand (OperandKind.def 1) (OperandConstraint.reuse 0)
    ∷ []
operands_of (suc inst) = []

abbrev succs_of : ℕ → List ℕ
succs_of zero = 1 ∷ []
succs_of (suc block) = []

abbrev out_of : ℕ → List ℕ
out_of zero = 1 ∷ []
out_of (suc block) = []

abbrev params_of : ℕ → List ℕ
params_of (suc zero) = 2 ∷ []
params_of block = []

abbrev two_blocks : Function ℕ
two_blocks = record {
  num_insts = 2;
  num_blocks = 2;
  block_insts = λ block. record { from = block; to = suc block };
  inst_block = λ inst. inst;
  block_succs = succs_of;
  block_preds = λ block. [];
  block_immediate_dominator = λ block. none;
  block_params = params_of;
  terminator_kind = λ inst. none;
  jump_blockparams = out_of;
  block_frequency = λ block. 1;
  block_is_critical_edge = λ block. false;
  inst_operands = operands_of;
  num_values = 3;
  num_value_groups = 0;
  value_group_members = λ group. [];
}

abbrev segment : ℕ → ℕ → ℕ → ValueSegment
segment from to value = record {
  live_range = record { from = from; to = to };
  use_list = record { from = 0; to = 0 };
  value = value;
}

abbrev ranges : LiveRanges
ranges zero = segment 0 4 0 ∷ segment 12 16 0 ∷ []
ranges (suc zero) = segment 6 10 1 ∷ []
ranges (suc (suc zero)) = segment 2 8 2 ∷ []
ranges (suc (suc (suc x))) = []

abbrev start : Pass
start = record {
  set_for_value = new;
  blocks_by_priority = [];
  last_group_for_value = [];
  ranges = ranges;
  num_sets = 3;
}

abbrev as_given : (ℕ → ℕ → Bool) → List ℕ → List ℕ
as_given less blocks = blocks

run_runs :
    (run two_blocks (λ a b. false) as_given start >>= λ s.
    find s.set_for_value 1 >>= λ (x, u). ok (length (s.ranges x)))
    ≡ ok 3
unfolding run find coalesce_blocks coalesce_in_block coalesce_insts iter coalesce_operands
    coalesce_operand constraint new_operand kind coalesce_constraint coalesce_group coalesce_tied
    try_pair try_pairs coalesce_values reset coalesce_params
run_runs = refl

operands_of_fit : (inst : ℕ) → All (OperandFits two_blocks (operands_of inst)) (operands_of inst)
unfolding kind constraint new_operand
operands_of_fit zero = (tt, ((omega arith, omega arith), tt))
operands_of_fit (suc inst) = tt

params_of_inside : (block : ℕ) → AreValues 3 (params_of block)
params_of_inside zero = tt
params_of_inside (suc zero) = (omega arith, tt)
params_of_inside (suc (suc block)) = tt

out_of_inside : (block : ℕ) → AreValues 3 (out_of block)
out_of_inside zero = (omega arith, tt)
out_of_inside (suc block) = tt

two_blocks-IsWellFormed : IsWellFormed two_blocks
two_blocks-IsWellFormed = record {
  groups = λ group. tt;
  params = params_of_inside;
  jump_params = out_of_inside;
  operands = operands_of_fit;
}

ranges-IsSorted : (x : ValueSet) → IsSorted (ranges x)
ranges-IsSorted zero = (omega arith, omega arith, (omega arith, omega arith, tt))
ranges-IsSorted (suc zero) = (omega arith, omega arith, tt)
ranges-IsSorted (suc (suc zero)) = (omega arith, omega arith, tt)
ranges-IsSorted (suc (suc (suc x))) = tt

run-Inv_example :
    Returns (Inv 3 ranges ((1, 2) ∷ [])) (run two_blocks (λ a b. false) as_given start)
unfolding blocks
run-Inv_example =
    run-Inv two_blocks (λ a b. false) as_given start two_blocks-IsWellFormed ranges-IsSorted
      (omega arith)
