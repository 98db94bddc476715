-- ===== src/Coalescing/Pass/Whole.antt =====
-- The coalescing pass over a whole function (`run` of src/internal/coalescing.rs).
use regalloc.Base.{ℕ, ◌≤◌, ◌<◌, Bool, List, [], ◌∷◌, length-replicate, none, Returns, Returns-bind}
use mathlib.Core.Path.{subst}
use mathlib.Core.List.{Mem}
use regalloc.Function.{Function, iter, blocks}
use regalloc.UnionFind.{UnionFind, reset}
use regalloc.UnionFind.Leads.{Leads, Leads-unique, parent}
use regalloc.UnionFind.Union.{reset-IsValid}
use regalloc.Coalescing.{ValueSet, LiveRanges}
use regalloc.Coalescing.Unify.{IsSorted}
use regalloc.Coalescing.Pass.{
  Pass, coalesce_operands, coalesce_insts, coalesce_params, coalesce_in_block, coalesce_blocks,
  compute_block_order, comes_first, run,
}
use regalloc.Coalescing.Pass.Segments.{Holds}
use regalloc.Coalescing.Pass.Invariant.{Inv, zipped, try_pairs-settles}
use regalloc.Coalescing.Pass.Blocks.{IsWellFormed, coalesce_operands-Inv}

-- What the jump of a block with one successor passes, each value with the parameter that it goes to.
abbrev pub param_pairs : {Freq : Type 0} → Function Freq → ℕ → List ℕ → List (ℕ × ℕ) → List (ℕ × ℕ)
param_pairs func block (succ ∷ []) pairs =
    zipped (func.jump_blockparams block) (func.block_params succ) pairs
param_pairs func block succs pairs = pairs

-- The same of a list of blocks, the last ones first.
abbrev pub all_param_pairs : {Freq : Type 0} → Function Freq → List ℕ → List (ℕ × ℕ) → List (ℕ × ℕ)
all_param_pairs func [] pairs = pairs
all_param_pairs func (block ∷ rest) pairs =
    all_param_pairs func rest (param_pairs func block (func.block_succs block) pairs)

module _ {Freq : Type 0} (func : Function Freq) (wf : IsWellFormed func) (r₀ : LiveRanges) where
  abbrev Keeps : List (ℕ × ℕ) → Pass → Type 0
  Keeps pairs s = Inv func.num_values r₀ pairs s

  coalesce_insts-Inv :
      (pairs : List (ℕ × ℕ)) (insts : List ℕ) (s : Pass)
      → Keeps pairs s
      → Returns (Keeps pairs) (coalesce_insts func insts s)
  unfolding coalesce_insts
  coalesce_insts-Inv pairs [] s w = w
  coalesce_insts-Inv pairs (inst ∷ rest) s w =
      Returns-bind (Keeps pairs) (Keeps pairs)
        (coalesce_operands func (func.inst_operands inst) (func.inst_operands inst) s)
        (coalesce_insts func rest) (λ s' w'. coalesce_insts-Inv pairs rest s' w')
        (coalesce_operands-Inv func wf r₀ pairs (func.inst_operands inst) (func.inst_operands inst)
          s (wf.operands inst) w)

  coalesce_params-Inv :
      (pairs : List (ℕ × ℕ)) (block : ℕ) (succs : List ℕ) (s : Pass)
      → Keeps pairs s
      → Returns (Keeps (param_pairs func block succs pairs)) (coalesce_params func block succs s)
  unfolding coalesce_params
  coalesce_params-Inv pairs block [] s w = w
  coalesce_params-Inv pairs block (succ ∷ []) s w =
      try_pairs-settles func.num_values r₀ pairs s (func.jump_blockparams block)
        (func.block_params succ) (wf.jump_params block) (wf.params succ) w
  coalesce_params-Inv pairs block (succ ∷ succ' ∷ succs) s w = w

  coalesce_in_block-Inv :
      (pairs : List (ℕ × ℕ)) (block : ℕ) (s : Pass)
      → Keeps pairs s
      → Returns
          (Keeps (param_pairs func block (func.block_succs block) pairs))
          (coalesce_in_block func block s)
  unfolding coalesce_in_block
  coalesce_in_block-Inv pairs block s w =
      Returns-bind (Keeps pairs) (Keeps (param_pairs func block (func.block_succs block) pairs))
        (coalesce_insts func (iter (func.block_insts block)) s)
        (coalesce_params func block (func.block_succs block))
        (λ s' w'. coalesce_params-Inv pairs block (func.block_succs block) s' w')
        (coalesce_insts-Inv pairs (iter (func.block_insts block)) s w)

  coalesce_blocks-Inv :
      (pairs : List (ℕ × ℕ)) (order : List ℕ) (s : Pass)
      → Keeps pairs s
      → Returns (Keeps (all_param_pairs func order pairs)) (coalesce_blocks func order s)
  unfolding coalesce_blocks
  coalesce_blocks-Inv pairs [] s w = w
  coalesce_blocks-Inv pairs (block ∷ rest) s w =
      let next = param_pairs func block (func.block_succs block) pairs in
      Returns-bind (Keeps next) (Keeps (all_param_pairs func rest next))
        (coalesce_in_block func block s) (coalesce_blocks func rest)
        (λ s' w'. coalesce_blocks-Inv next rest s' w') (coalesce_in_block-Inv pairs block s w)

-- Right after `reset` each set holds one value.
Holds-reset :
    (u : UnionFind) (n : ℕ) (r₀ : LiveRanges)
    → ((k : ℕ) → k < n → Leads (parent (reset u n).table) k k)
    → Holds n r₀ (reset u n).table r₀
Holds-reset u n r₀ alone = record {
  complete = λ v x s lt d m. subst (λ z. Mem s (r₀ z)) (Leads-unique (alone v lt) d) m;
  sound = λ x s lt m. ∣ (x, lt, alone x lt, m) ∣₁;
}

-- The pass returns for a well-formed function, where the segments that every set has at the start are
-- sorted and do not overlap and there are live ranges for as many sets as the function has values,
-- whatever the comparison of frequencies and the sort answer. Afterwards the table of sets is valid and
-- has a key for each value, no two segments of a set overlap, and the set of each value holds the
-- segments which that value, and the others of the set, had at the start, and only those. In each block
-- with one successor, of those that the sort gives, a value that the jump passes and the parameter it
-- goes to are in one set, or one of their sets has no segments, or two segments of them overlap.
pub run-Inv :
    {Freq : Type 0} (func : Function Freq) (freq_lt : Freq → Freq → Bool)
    (sort_by : (ℕ → ℕ → Bool) → List ℕ → List ℕ) (s : Pass)
    → IsWellFormed func
    → ((x : ValueSet) → IsSorted (s.ranges x))
    → func.num_values ≤ s.num_sets
    → Returns
        (Inv func.num_values s.ranges
          (all_param_pairs func (sort_by (comes_first func freq_lt) (blocks func)) []))
        (run func freq_lt sort_by s)
unfolding run compute_block_order
run-Inv func freq_lt sort_by s wf sorted room =
    let fresh = reset-IsValid s.set_for_value func.num_values in
    coalesce_blocks-Inv func wf s.ranges [] (sort_by (comes_first func freq_lt) (blocks func)) _
      (record {
        valid = fresh.0;
        size = fresh.1;
        sorted = sorted;
        holds = Holds-reset s.set_for_value func.num_values s.ranges fresh.2;
        groups = length-replicate func.num_values none;
        sets = room;
        settled = tt;
      })
