-- ===== src/SplitPlacement/Layout.antt =====
-- How the blocks of a function are laid out (src/function.rs), for the choice of a split point.
use regalloc.Base.{ℕ, ◌<◌, ◌≤◌, ap, arith, dec_lt, ℕ_discrete}
use regalloc.Function.{Function}

-- The blocks are laid out one after the other within the function, each with an instruction at least,
-- and `inst_block` tells the block of an instruction.
pub record IsLaidOut {Freq : Type 0} (func : Function Freq) : Type 0 where
  pub filled : (b : ℕ) → b < func.num_blocks → (func.block_insts b).from < (func.block_insts b).to
  pub ordered :
      (b b' : ℕ)
      → b < b'
      → b' < func.num_blocks
      → (func.block_insts b).to ≤ (func.block_insts b').from
  pub bounded : (b : ℕ) → b < func.num_blocks → (func.block_insts b).to ≤ func.num_insts
  pub block_inside : (i : ℕ) → i < func.num_insts → func.inst_block i < func.num_blocks
  pub inst_inside :
      (i : ℕ)
      → i < func.num_insts
      → ((func.block_insts (func.inst_block i)).from ≤ i)
        × (i < (func.block_insts (func.inst_block i)).to)

abbrev pub from_of : {Freq : Type 0} → Function Freq → ℕ → ℕ
from_of func b = (func.block_insts b).from

abbrev pub to_of : {Freq : Type 0} → Function Freq → ℕ → ℕ
to_of func b = (func.block_insts b).to

-- Starts and ends of blocks are in the order of the blocks.
module _ {Freq : Type 0} (func : Function Freq) (laid : IsLaidOut func) where
  pub from_mono :
      (b b' : ℕ)
      → b' < func.num_blocks
      → from_of func b < from_of func b'
      → b < func.num_blocks
      → b < b'
  from_mono b b' lt h lt' = elim (dec_lt b b') [
    | yes p ↦ p
    | no n ↦ elim (ℕ_discrete b b') [
      | yes e ↦ absurd (let k = ap (from_of func) e in omega arith)
      | no n' ↦ absurd (
          let o = laid.ordered b' b (omega (arith, n, n')) lt' in
          let f = laid.filled b' lt in omega arith)
    ]
  ]

  pub to_mono :
      (b b' : ℕ)
      → b' < func.num_blocks
      → to_of func b < to_of func b'
      → b < func.num_blocks
      → b < b'
  to_mono b b' lt h lt' = elim (dec_lt b b') [
    | yes p ↦ p
    | no n ↦ elim (ℕ_discrete b b') [
      | yes e ↦ absurd (let k = ap (to_of func) e in omega arith)
      | no n' ↦ absurd (
          let o = laid.ordered b' b (omega (arith, n, n')) lt' in
          let f = laid.filled b lt' in omega arith)
    ]
  ]
