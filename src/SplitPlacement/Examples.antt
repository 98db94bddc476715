-- ===== src/SplitPlacement/Examples.antt =====
-- Tests of src/internal/split_placement.rs, and the theorems at inputs.
use regalloc.Base.{
  ℕ, zero, suc, ◌+◌, ◌*◌, ◌/◌, ◌<◌, ◌≤◌, ◌≡◌, refl, leb, Bool, true, false, none, some, [], ◌∷◌, ok,
  Returns, arith,
}
use mathlib.Core.Path.{subst}
use regalloc.Function.{Function, blocks}
use regalloc.SplitPlacement.{
  SplitPlacement, pop_higher, write_lower, scan, prepare, find_optimal_split_point,
}
use regalloc.SplitPlacement.Scan.{IsTransitive}
use regalloc.SplitPlacement.Prepared.{Prepared, prepare-Prepared}
use regalloc.SplitPlacement.Passed.{IsTotal}
use regalloc.SplitPlacement.Layout.{IsLaidOut}
use regalloc.SplitPlacement.Later.{IsBestLater, IsLowerThanPassed}
use regalloc.SplitPlacement.Earlier.{IsBestEarlier, IsLowerThanLeft}
use regalloc.SplitPlacement.Choice.{find_optimal_split_point-IsBest}

abbrev freq_of : ℕ → ℕ
freq_of zero = 1
freq_of (suc zero) = 5
freq_of (suc (suc b)) = 2

-- Three blocks of two instructions, a hot one in the middle.
abbrev three_blocks : Function ℕ
three_blocks = record {
  num_insts = 6;
  num_blocks = 3;
  block_insts = λ block. record { from = 2 * block; to = 2 * block + 2 };
  inst_block = λ at. at / 2;
  block_succs = λ block. [];
  block_preds = λ block. [];
  block_immediate_dominator = λ block. none;
  block_params = λ block. [];
  terminator_kind = λ at. none;
  jump_blockparams = λ block. [];
  block_frequency = freq_of;
  block_is_critical_edge = λ block. false;
  inst_operands = λ at. [];
  num_values = 0;
  num_value_groups = 0;
  value_group_members = λ group. [];
}

abbrev geq : ℕ → ℕ → Bool
geq a b = leb b a

abbrev tables : SplitPlacement
tables = record {
  next_lower_freq = none ∷ some 2 ∷ none ∷ [];
  prev_lower_freq = none ∷ some 0 ∷ some 0 ∷ [];
}

prepare_runs : prepare geq three_blocks ≡ ok tables
unfolding prepare blocks scan pop_higher write_lower
prepare_runs = refl

early_runs : find_optimal_split_point geq three_blocks tables 2 6 true ≡ ok 4
unfolding find_optimal_split_point
early_runs = refl

late_runs : find_optimal_split_point geq three_blocks tables 1 4 false ≡ ok 2
unfolding find_optimal_split_point
late_runs = refl

geq-IsTransitive : IsTransitive geq
geq-IsTransitive a b c h h' = ground (arith, h, h')

prepare-Prepared_example : Returns (Prepared geq three_blocks) (prepare geq three_blocks)
prepare-Prepared_example = prepare-Prepared geq three_blocks geq-IsTransitive

tables-Prepared : Prepared geq three_blocks tables
tables-Prepared =
    subst (Returns (Prepared geq three_blocks)) prepare_runs
      (prepare-Prepared geq three_blocks geq-IsTransitive)

three_blocks-IsLaidOut : IsLaidOut three_blocks
three_blocks-IsLaidOut = record {
  filled = λ b lt. omega arith;
  ordered = λ b b' lt lt'. omega arith;
  bounded = λ b lt. omega arith;
  block_inside = λ i lt. omega arith;
  inst_inside = λ i lt. (omega arith, omega arith);
}

geq-IsTotal : IsTotal geq
geq-IsTotal a b h = ground (arith, h)

find_optimal_split_point-IsBest_example :
    Returns
      (λ r.
        (2 < r)
        × (r ≤ 6)
        × IsBestLater geq three_blocks 6 r
        × IsLowerThanPassed geq three_blocks 3 r)
      (find_optimal_split_point geq three_blocks tables 2 6 true)
    × Returns
        (λ r.
          (2 < r)
          × (r ≤ 6)
          × IsBestEarlier geq three_blocks 3 r
          × IsLowerThanLeft geq three_blocks 6 r)
        (find_optimal_split_point geq three_blocks tables 2 6 false)
find_optimal_split_point-IsBest_example =
    find_optimal_split_point-IsBest geq three_blocks tables 2 6 geq-IsTransitive geq-IsTotal
      tables-Prepared three_blocks-IsLaidOut (omega arith) (omega arith)
