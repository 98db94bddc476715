-- ===== src/Hints/Examples.antt =====
-- Tests of `Hints` (src/internal/hints.rs), and the theorems at inputs.
use regalloc.Base.{
  ℕ, zero, suc, ◌/◌, ◌≡◌, refl, true, false, List, [], ◌∷◌, none, some, ok, Returns, arith,
}
use regalloc.LiveRange.{LiveRangeSegment, inst, round_to_next_inst}
use regalloc.Function.{Function}
use regalloc.EntitySet.{contains}
use regalloc.Hints.{Hints, clear, add_fixed_def, add_fixed_use, hints_for_segment, hints_for_split}
use regalloc.Hints.Ranges.{select, any, IsSorted}
use regalloc.Hints.Queries.{covered, hints_for_segment-covered, hints_for_split-covered}
use regalloc.Hints.Recorded.{Recorded, BlocksFit}
use regalloc.Hints.Outgoing.{recording-Recorded}

abbrev preds_of : ℕ → List ℕ
preds_of (suc zero) = 0 ∷ []
preds_of block = []

-- Two blocks of two instructions; the first jumps to the second with value 1.
abbrev two_blocks : Function ℕ
two_blocks = record {
  num_insts = 4;
  num_blocks = 2;
  block_insts = λ block. elim block [
    | zero ↦ record { from = 0; to = 2 }
    | suc b ↦ record { from = 2; to = 4 }
  ];
  inst_block = λ at. at / 2;
  block_succs = λ block. [];
  block_preds = preds_of;
  block_immediate_dominator = λ block. none;
  block_params = λ block. [];
  terminator_kind = λ at. none;
  jump_blockparams = λ block. 1 ∷ [];
  block_frequency = λ block. 1;
  block_is_critical_edge = λ block. false;
  inst_operands = λ at. [];
  num_values = 3;
  num_value_groups = 0;
  value_group_members = λ group. [];
}

-- Value 1 comes in at boundary 1 and goes out at boundary 3, value 2 goes out at boundary 2.
abbrev three : Hints ℕ
three = record {
  hints =
      record { key = 4294967299; reg = 4; weight = 1 }
      ∷ record { key = 4294967302; reg = 5; weight = 1 }
      ∷ record { key = 8589934596; reg = 6; weight = 1 }
      ∷ [];
  has_hint = record { storage = 6 ∷ [] };
}

abbrev seg : LiveRangeSegment
seg = record { from = 4; to = 10 }

split_runs : hints_for_split three 1 seg 2 ≡ ok (true, true)
unfolding hints_for_split
split_runs = refl

split_at_end_runs : hints_for_split three 1 seg 3 ≡ ok (true, false)
unfolding hints_for_split
split_at_end_runs = refl

three-IsSorted : IsSorted three.hints
three-IsSorted = ((omega arith, (omega arith, tt)), ((omega arith, tt), (tt, tt)))

hints_for_segment-covered_example :
    hints_for_segment three 1 seg
    ≡ select (covered 1 (inst 4) (inst (round_to_next_inst 10))) three.hints
hints_for_segment-covered_example =
    hints_for_segment-covered three 1 seg three-IsSorted (omega arith)

hints_for_split-covered_example :
    hints_for_split three 1 seg 2
    ≡ ok (
      any (covered 1 (inst 4) 2) three.hints,
      any (covered 1 2 (inst (round_to_next_inst 10))) three.hints,
    )
hints_for_split-covered_example =
    hints_for_split-covered three 1 seg 2 three-IsSorted (omega arith) (omega arith)

three-Recorded : Recorded 3 three
unfolding contains
three-Recorded = record {
  words = (refl, tt);
  room = omega arith;
  marked = (refl, (refl, (refl, tt)));
}

two_blocks-BlocksFit : BlocksFit two_blocks
two_blocks-BlocksFit zero = (omega arith, omega arith)
two_blocks-BlocksFit (suc b) = (omega arith, omega arith)

recording-Recorded_example :
    Returns
      (λ s'. Recorded 3 s' × (contains s'.has_hint 2 ≡ true))
      (add_fixed_def two_blocks 2 2 7 three)
    × Returns (Recorded 3) (add_fixed_use two_blocks 2 2 7 (some 0) three)
    × Recorded 3 (clear two_blocks three)
recording-Recorded_example =
    recording-Recorded two_blocks 2 2 7 (some 0) three two_blocks-BlocksFit (omega arith)
      (omega arith) (omega arith, tt) three-Recorded
