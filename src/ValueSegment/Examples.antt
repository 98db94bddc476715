-- ===== src/ValueSegment/Examples.antt =====
-- Tests of `ValueSegment` (src/internal/live_range.rs), and the theorem at an input.
use regalloc.Base.{
  ℕ, ◌^◌, ◌≡◌, refl, Bool, true, false, List, [], ◌∷◌, Returns, arith, map, ok, panic, ◌>>=◌, ◌+◌,
}
use regalloc.LiveRange.{Slot, LiveRangeSegment, point}
use regalloc.ValueSegment.{
  ValueSegment, live_insts, split_segments_at, first_half, into_second_half,
}
use regalloc.ValueSegment.Halves.{Partitions, split_segments_at-Partitions}

abbrev segment : ℕ → ℕ → ℕ → ℕ → ValueSegment
segment from to first end_ = record {
  live_range = record { from = from; to = to };
  use_list = record { from = first; to = end_ + 2 ^ 30 };
  value = 3;
}

-- Live in instructions 1 to 4, and from the early slot of instruction 4 to the end of instruction 6;
-- the uses are at the instructions 1, 4 and 6.
abbrev segments : List ValueSegment
segments = segment 4 17 0 2 ∷ segment 17 28 2 3 ∷ []

abbrev positions : List ℕ
positions = 1 ∷ 4 ∷ 6 ∷ []

abbrev no_hints : ℕ → LiveRangeSegment → ℕ → Bool × Bool
no_hints value range at = (false, true)

live_insts_runs : live_insts segments ≡ 6
unfolding live_insts
live_insts_runs = refl

split_segments_at_runs :
    (split_segments_at (λ p. p) no_hints segments 3 positions >>= λ r.
    ok (map (λ (s : ValueSegment). s.live_range) (first_half r)))
    ≡ ok (record { from = 4; to = 12 } ∷ [])
unfolding first_half split_segments_at
split_segments_at_runs = refl

short_runs : split_segments_at (λ p. p) no_hints segments 3 [] ≡ panic
unfolding split_segments_at
short_runs = refl

split_segments_at-Partitions_example :
    Returns
      (λ r.
        Returns
          (λ second. Partitions (point 3 Slot.boundary) segments (first_half r) second)
          (into_second_half r))
      (split_segments_at (λ p. p) no_hints segments 3 positions)
split_segments_at-Partitions_example =
    split_segments_at-Partitions (λ p. p) no_hints segments 3 positions (omega arith)
      (omega arith, omega arith, (omega arith, omega arith, tt)) (omega arith, (omega arith, tt))
