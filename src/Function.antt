-- ===== src/Function.antt =====
-- The interface through which the client hands a function over (src/function.rs): its blocks,
-- instructions, operands and values. A block, instruction, value or group is its index.
pub mod Dominance
mod Examples
use regalloc.Base.{
  ℕ, zero, suc, ◌+◌, ◌-◌, ◌<◌, ltb, ◌==◌, if◌then◌else◌, Bool, true, false, Option, none, some,
  List, [], ◌∷◌, Run, ok, out_of_fuel,
}
use regalloc.Operand.{Operand}

-- `EntityRange` of src/entity/base.rs: the indices from `from` up to and without `to`.
pub record EntityRange : Type 0 where
  pub from : ℕ
  pub to : ℕ

abbrev pub count_up : ℕ → ℕ → List ℕ
count_up i zero = []
count_up i (suc n) = i ∷ count_up (suc i) n

-- `EntityRange::iter`.
unfoldable pub iter : EntityRange → List ℕ
iter r = count_up r.from (r.to - r.from)

pub data TerminatorKind : Type 0 where
  branch jump ret : TerminatorKind

-- `Function`, with its answers. `Freq` is the type of block frequencies, floats in the code.
pub record Function (Freq : Type 0) : Type 0 where
  pub num_insts : ℕ
  pub num_blocks : ℕ
  pub block_insts : ℕ → EntityRange
  pub inst_block : ℕ → ℕ
  pub block_succs : ℕ → List ℕ
  pub block_preds : ℕ → List ℕ
  pub block_immediate_dominator : ℕ → Option ℕ
  pub block_params : ℕ → List ℕ
  pub terminator_kind : ℕ → Option TerminatorKind
  pub jump_blockparams : ℕ → List ℕ
  pub block_frequency : ℕ → Freq
  pub block_is_critical_edge : ℕ → Bool
  pub inst_operands : ℕ → List Operand
  pub num_values : ℕ
  pub num_value_groups : ℕ
  pub value_group_members : ℕ → List ℕ

module _ {Freq : Type 0} (func : Function Freq) where
  -- `blocks`.
  unfoldable pub blocks : List ℕ
  blocks = count_up 0 func.num_blocks

  -- The loop of `block_dominates`.
  unfoldable pub dominates_loop : ℕ → ℕ → ℕ → Run Bool
  dominates_loop zero a b = out_of_fuel
  dominates_loop (suc fuel) a b = elim (ltb a b) [
    | true ↦ elim (func.block_immediate_dominator b) [
      | some idom ↦ dominates_loop fuel a idom
      | none ↦ ok false
    ]
    | false ↦ ok (a == b)
  ]

  -- `block_dominates`: every round but the last moves `b` down.
  unfoldable pub block_dominates : ℕ → ℕ → Run Bool
  unfolding dominates_loop
  block_dominates a b = dominates_loop (suc b) a b
