-- ===== src/SplitPlacement.antt =====
-- src/internal/split_placement.rs: where a live range is split, by the frequencies of blocks. `Freq` is
-- the type of frequencies, floats in the code, and `geq` is `>=` on them.
pub mod Scan
pub mod Prepared
pub mod Layout
pub mod Passed
pub mod Later
pub mod Earlier
pub mod Choice
mod Examples
use regalloc.Base.{
  ℕ, zero, suc, ◌+◌, ◌-◌, leb, ◌==◌, if◌then◌else◌, Bool, true, false, Option, none, some, List, [],
  ◌∷◌, ◌++◌, length, set, replicate, load, store, Run, ok, out_of_fuel, ◌>>=◌,
}
use mathlib.Core.List.{reverse}
use regalloc.Function.{Function, blocks}

-- `SplitPlacement`; its stack is local to `prepare`. A packed `None` is `none`.
pub record SplitPlacement : Type 0 where
  pub next_lower_freq : List (Option ℕ)
  pub prev_lower_freq : List (Option ℕ)

module _ {Freq : Type 0} (geq : Freq → Freq → Bool) where
  -- The loop that pops the entries with a higher or equal frequency, and the entry where it breaks.
  unfoldable pub pop_higher : Freq → List (ℕ × Freq) → List (ℕ × Freq) × Option ℕ
  pop_higher freq [] = ([], none)
  pop_higher freq ((block, other) ∷ stack) =
      if geq other freq then pop_higher freq stack else ((block, other) ∷ stack, some block)

  -- The write before the break.
  unfoldable pub write_lower : List (Option ℕ) → ℕ → Option ℕ → Run (List (Option ℕ))
  write_lower table block none = ok table
  write_lower table block (some lower) = store table block (some lower)

  -- A scan over blocks, those that are left.
  unfoldable pub scan :
      Function Freq → List ℕ → List (ℕ × Freq) → List (Option ℕ) → Run (List (Option ℕ))
  scan func [] stack table = ok table
  scan func (block ∷ rest) stack table = do
    let freq = func.block_frequency block
    let (stack', lower) = pop_higher freq stack
    table' ← write_lower table block lower
    scan func rest ((block, freq) ∷ stack') table'

  unfoldable pub prepare : Function Freq → Run SplitPlacement
  unfolding blocks
  prepare func = do
    prev ← scan func (blocks func) [] (replicate func.num_blocks none)
    next ← scan func (reverse (blocks func)) [] (replicate func.num_blocks none)
    ok (record { next_lower_freq = next; prev_lower_freq = prev })

  -- The loop towards the end of the range, at `split`.
  unfoldable pub later_split : ℕ → Function Freq → SplitPlacement → ℕ → ℕ → Run ℕ
  later_split zero func s limit split = out_of_fuel
  later_split (suc fuel) func s limit split = elim (split == limit) [
    | true ↦ ok split
    | false ↦ do
      lower ← load s.next_lower_freq (func.inst_block split)
      elim lower [
        | none ↦ ok split
        | some block ↦ elim (leb (func.block_insts block).from limit) [
          | true ↦ later_split fuel func s limit (func.block_insts block).from
          | false ↦ ok split
        ]
      ]
  ]

  -- The loop towards the start of the range.
  unfoldable pub earlier_split : ℕ → Function Freq → SplitPlacement → ℕ → ℕ → Run ℕ
  earlier_split zero func s limit split = out_of_fuel
  earlier_split (suc fuel) func s limit split = elim (split == limit) [
    | true ↦ ok split
    | false ↦ do
      lower ← load s.prev_lower_freq (func.inst_block (split - 1))
      elim lower [
        | none ↦ ok split
        | some block ↦ elim (leb limit (func.block_insts block).to) [
          | true ↦ earlier_split fuel func s limit (func.block_insts block).to
          | false ↦ ok split
        ]
      ]
  ]

  -- `find_optimal_split_point`: every round but the last moves `split` within the range.
  unfoldable pub find_optimal_split_point : Function Freq → SplitPlacement → ℕ → ℕ → Bool → Run ℕ
  unfolding later_split earlier_split
  find_optimal_split_point func s after before prefer_early =
      let fuel = suc (before - after) in
      if prefer_early
      then later_split fuel func s before (suc after)
      else earlier_split fuel func s (suc after) before
