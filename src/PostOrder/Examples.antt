-- ===== src/PostOrder/Examples.antt =====
-- Tests of src/debug_utils/postorder.rs: a diamond, and a block that nothing leads to.
use regalloc.Base.{
  ℕ, zero, suc, ◌<◌, ◌≡◌, refl, false, List, [], ◌∷◌, none, ok, ◌>>=◌, Returns, All, arith,
}
use regalloc.Function.{Function}
use regalloc.PostOrder.{
  compute, traverse, visit_block, first_visit, push_succs, work_left, is_reachable,
}
use regalloc.PostOrder.Traversal.{IsPostOrder, compute-IsPostOrder}

abbrev succs_of : ℕ → List ℕ
succs_of zero = 1 ∷ 2 ∷ []
succs_of (suc zero) = 3 ∷ []
succs_of (suc (suc zero)) = 3 ∷ []
succs_of (suc (suc (suc zero))) = []
succs_of (suc (suc (suc (suc b)))) = 3 ∷ []

abbrev diamond : Function ℕ
diamond = record {
  num_insts = 10;
  num_blocks = 5;
  block_insts = λ block. record { from = 0; to = 0 };
  inst_block = λ at. 0;
  block_succs = succs_of;
  block_preds = λ block. [];
  block_immediate_dominator = λ block. none;
  block_params = λ block. [];
  terminator_kind = λ at. none;
  jump_blockparams = λ block. [];
  block_frequency = λ block. 1;
  block_is_critical_edge = λ block. false;
  inst_operands = λ at. [];
  num_values = 0;
  num_value_groups = 0;
  value_group_members = λ group. [];
}

compute_runs : (compute diamond >>= λ s. ok (s.postorder)) ≡ ok (3 ∷ 2 ∷ 1 ∷ 0 ∷ [])
unfolding compute traverse visit_block first_visit push_succs work_left
compute_runs = refl

unreachable_runs : (compute diamond >>= λ s. is_reachable s 4) ≡ ok false
unfolding compute traverse visit_block first_visit push_succs work_left is_reachable
unreachable_runs = refl

succs_of_inside : (b : ℕ) → b < 5 → All (λ c. c < 5) (succs_of b)
succs_of_inside zero lt = (omega arith, (omega arith, tt))
succs_of_inside (suc zero) lt = (omega arith, tt)
succs_of_inside (suc (suc zero)) lt = (omega arith, tt)
succs_of_inside (suc (suc (suc zero))) lt = tt
succs_of_inside (suc (suc (suc (suc b)))) lt = (omega arith, tt)

compute-IsPostOrder_example : Returns (IsPostOrder diamond) (compute diamond)
compute-IsPostOrder_example = compute-IsPostOrder diamond succs_of_inside (omega arith)
