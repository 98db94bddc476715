-- ===== src/Coalescing/Pass.antt =====
-- The coalescing pass (`run` of src/internal/coalescing.rs): which pairs of values it tries to merge,
-- block by block. Sorting and the comparison of frequencies are parameters.
mod Segments
pub mod Settled
pub mod Invariant
pub mod Blocks
pub mod Whole
mod Examples
use regalloc.Base.{
  ℕ, zero, suc, ◌+◌, ◌<◌, ◌==◌, ltb, if◌then◌else◌, Bool, true, false, not, Option, none, some,
  List, [], ◌∷◌, length, set, replicate, load, store, Run, ok, panic, ◌>>=◌,
}
use regalloc.Function.{Function, iter, blocks}
use regalloc.Operand.{Operand, OperandKind, OperandConstraint, kind, constraint}
use regalloc.UnionFind.{UnionFind, reset}
use regalloc.Coalescing.{LiveRanges, coalesce_values}

-- `Coalescing`, with the live ranges that it works on and the number of sets they have. A packed `None` is `none`.
pub record Pass : Type 0 where
  pub set_for_value : UnionFind
  pub blocks_by_priority : List ℕ
  pub last_group_for_value : List (Option ℕ)
  pub ranges : LiveRanges
  pub num_sets : ℕ

-- A call of `coalesce_values`; its answer only counts for the statistics.
unfoldable pub try_pair : Pass → ℕ → ℕ → Run Pass
try_pair s a b = do
  (answer, u, r) ← coalesce_values s.set_for_value s.num_sets s.ranges a b
  ok (record s { set_for_value = u; ranges = r })

-- The loops over two lists side by side.
unfoldable pub try_pairs : Pass → List ℕ → List ℕ → Run Pass
try_pairs s [] bs = ok s
try_pairs s (a ∷ as_) [] = ok s
try_pairs s (a ∷ as_) (b ∷ bs) = do s' ← try_pair s a b; try_pairs s' as_ bs

-- The same, where a value is not merged with itself.
unfoldable pub try_distinct_pairs : Pass → List ℕ → List ℕ → Run Pass
try_distinct_pairs s [] bs = ok s
try_distinct_pairs s (a ∷ as_) [] = ok s
try_distinct_pairs s (a ∷ as_) (b ∷ bs) = do
  s' ← (if a == b then ok s else try_pair s a b)
  try_distinct_pairs s' as_ bs

-- `last_group_for_value[value] = Some(group).into()`.
unfoldable pub set_last_group : ℕ → ℕ → Pass → Run Pass
set_last_group value group s = do
  groups ← store s.last_group_for_value value (some group)
  ok (record s { last_group_for_value = groups })

module _ {Freq : Type 0} (func : Function Freq) where
  -- An operand that reuses another one, by their kinds.
  unfoldable pub coalesce_tied : Pass → OperandKind → OperandKind → Run Pass
  coalesce_tied s (OperandKind.def d) (OperandKind.use_ u) = try_pair s u d
  coalesce_tied s (OperandKind.early_def d) (OperandKind.use_ u) = try_pair s u d
  coalesce_tied s (OperandKind.def_group d) (OperandKind.use_group u) =
      try_pairs s (func.value_group_members u) (func.value_group_members d)
  coalesce_tied s (OperandKind.early_def_group d) (OperandKind.use_group u) =
      try_pairs s (func.value_group_members u) (func.value_group_members d)
  coalesce_tied s k k' = panic

  -- A member of a group operand, by the group where it was seen last. A group of another size is
  -- skipped, and then the last group stays as it was.
  unfoldable pub coalesce_seen : ℕ → ℕ → Pass → Option ℕ → Run Pass
  coalesce_seen group value s none = set_last_group value group s
  coalesce_seen group value s (some prev) =
      if length (func.value_group_members group) == length (func.value_group_members prev)
      then (do
        s' ← try_distinct_pairs s (func.value_group_members group) (func.value_group_members prev)
        set_last_group value group s')
      else ok s

  unfoldable pub coalesce_member : ℕ → ℕ → Pass → Run Pass
  coalesce_member group value s = do
    last ← load s.last_group_for_value value
    coalesce_seen group value s last

  unfoldable pub coalesce_members : ℕ → List ℕ → Pass → Run Pass
  coalesce_members group [] s = ok s
  coalesce_members group (value ∷ rest) s = do
    s' ← coalesce_member group value s
    coalesce_members group rest s'

  unfoldable pub coalesce_group : Pass → OperandKind → Run Pass
  coalesce_group s (OperandKind.def_group g) = coalesce_members g (func.value_group_members g) s
  coalesce_group s (OperandKind.early_def_group g) =
      coalesce_members g (func.value_group_members g) s
  coalesce_group s (OperandKind.use_group g) = coalesce_members g (func.value_group_members g) s
  coalesce_group s k = ok s

  -- An operand with its kind and constraint read.
  unfoldable pub coalesce_constraint :
      List Operand → Pass → OperandKind → OperandConstraint → Run Pass
  coalesce_constraint operands s k (OperandConstraint.reuse idx) = do
    use_op ← load operands idx
    use_kind ← kind use_op
    coalesce_tied s k use_kind
  coalesce_constraint operands s k c = coalesce_group s k

  unfoldable pub coalesce_operand : List Operand → Operand → Pass → Run Pass
  coalesce_operand operands op s = do
    c ← constraint op
    k ← kind op
    coalesce_constraint operands s k c

  -- The loop over the operands of an instruction, those of `operands` that are left.
  unfoldable pub coalesce_operands : List Operand → List Operand → Pass → Run Pass
  coalesce_operands operands [] s = ok s
  coalesce_operands operands (op ∷ rest) s = do
    s' ← coalesce_operand operands op s
    coalesce_operands operands rest s'

  unfoldable pub coalesce_insts : List ℕ → Pass → Run Pass
  coalesce_insts [] s = ok s
  coalesce_insts (inst ∷ rest) s = do
    s' ← coalesce_operands (func.inst_operands inst) (func.inst_operands inst) s
    coalesce_insts rest s'

  -- The block parameters, where the block has one successor.
  unfoldable pub coalesce_params : ℕ → List ℕ → Pass → Run Pass
  coalesce_params block (succ ∷ []) s =
      try_pairs s (func.jump_blockparams block) (func.block_params succ)
  coalesce_params block succs s = ok s

  -- `coalesce_in_block`.
  unfoldable pub coalesce_in_block : ℕ → Pass → Run Pass
  coalesce_in_block block s = do
    s' ← coalesce_insts (iter (func.block_insts block)) s
    coalesce_params block (func.block_succs block) s'

  unfoldable pub coalesce_blocks : List ℕ → Pass → Run Pass
  coalesce_blocks [] s = ok s
  coalesce_blocks (block ∷ rest) s = do s' ← coalesce_in_block block s; coalesce_blocks rest s'

  -- The order of `compute_block_order`: whether `a` comes before `b` by frequency, then by critical
  -- edges, then by connections. `freq_lt` is `<` on frequencies.
  unfoldable pub num_connections : ℕ → ℕ
  num_connections block = length (func.block_succs block) + length (func.block_preds block)

  unfoldable pub comes_first : (Freq → Freq → Bool) → ℕ → ℕ → Bool
  unfolding num_connections
  comes_first freq_lt a b =
      let fa = func.block_frequency a in
      let fb = func.block_frequency b in
      if freq_lt fb fa
      then true
      else if freq_lt fa fb
      then false
      else if func.block_is_critical_edge a
      then (if func.block_is_critical_edge b
          then ltb (num_connections b) (num_connections a)
          else true)
      else if func.block_is_critical_edge b
      then false
      else ltb (num_connections b) (num_connections a)

  -- `compute_block_order`; `sort_by` is the stable sort of the standard library by such an order.
  unfoldable pub compute_block_order :
      (Freq → Freq → Bool) → ((ℕ → ℕ → Bool) → List ℕ → List ℕ) → Pass → Pass
  unfolding comes_first blocks
  compute_block_order freq_lt sort_by s = record s {
    blocks_by_priority = sort_by (comes_first freq_lt) (blocks func);
  }

  -- `run`.
  unfoldable pub run : (Freq → Freq → Bool) → ((ℕ → ℕ → Bool) → List ℕ → List ℕ) → Pass → Run Pass
  unfolding compute_block_order
  run freq_lt sort_by s =
      let s₁ = compute_block_order freq_lt sort_by (record s {
        set_for_value = reset s.set_for_value func.num_values;
        last_group_for_value = replicate func.num_values none;
      }) in
      coalesce_blocks s₁.blocks_by_priority s₁
