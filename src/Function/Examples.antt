-- ===== src/Function/Examples.antt =====
-- Tests of the function interface (src/function.rs), and a diamond with its dominator tree.
use regalloc.Base.{
  ℕ, zero, suc, ◌+◌, ◌*◌, ◌/◌, ◌≡◌, ◌↔◌, refl, true, false, Option, none, some, [], ok, Returns,
  arith,
}
use regalloc.Function.{Function, TerminatorKind, block_dominates}
use regalloc.Function.Dominance.{Dominates, IsTopological, block_dominates-Dominates}

abbrev parent_of : ℕ → Option ℕ
parent_of zero = none
parent_of (suc zero) = some 0
parent_of (suc (suc zero)) = some 0
parent_of (suc (suc (suc zero))) = some 0
parent_of (suc (suc (suc (suc b)))) = none

abbrev diamond : Function ℕ
diamond = record {
  num_insts = 8;
  num_blocks = 4;
  block_insts = λ block. record { from = 2 * block; to = 2 * block + 2 };
  inst_block = λ inst. inst / 2;
  block_succs = λ block. [];
  block_preds = λ block. [];
  block_immediate_dominator = parent_of;
  block_params = λ block. [];
  terminator_kind = λ inst. some TerminatorKind.ret;
  jump_blockparams = λ block. [];
  block_frequency = λ block. 1;
  block_is_critical_edge = λ block. false;
  inst_operands = λ inst. [];
  num_values = 0;
  num_value_groups = 0;
  value_group_members = λ group. [];
}

entry_dominates : block_dominates diamond 0 3 ≡ ok true
unfolding block_dominates
entry_dominates = refl

side_does_not : block_dominates diamond 1 3 ≡ ok false
unfolding block_dominates
side_does_not = refl

diamond-IsTopological : IsTopological diamond
diamond-IsTopological zero idom e = ground (arith, e)
diamond-IsTopological (suc zero) idom e = ground (arith, e)
diamond-IsTopological (suc (suc zero)) idom e = ground (arith, e)
diamond-IsTopological (suc (suc (suc zero))) idom e = ground (arith, e)
diamond-IsTopological (suc (suc (suc (suc b)))) idom e = ground (arith, e)

block_dominates-Dominates_example :
    Returns (λ answer. (answer ≡ true) ↔ Dominates diamond 0 3) (block_dominates diamond 0 3)
block_dominates-Dominates_example = block_dominates-Dominates diamond 0 3 diamond-IsTopological
