-- ===== src/LiveRange/Examples.antt =====
-- The theorems on points and segments (src/internal/live_range.rs) at inputs.
use regalloc.Base.{ℕ, ◌+◌, ◌-◌, ◌<◌, ◌≤◌, ◌≡◌, ◌⊎◌, ◌↔◌, refl, none, some, false, arith}
use regalloc.LiveRange.{
  Slot, slot_bits, LiveRangePoint, point, inst, LiveRangeSegment, is_empty, intersection, num_insts,
  split_at,
}
use regalloc.LiveRange.Points.{point_order}
use regalloc.LiveRange.Segments.{
  Covers, CoversOption, intersection-Covers, split_at_partition, num_insts_counts,
}

abbrev segment : LiveRangeSegment
segment = record { from = 6; to = 18 }

abbrev other : LiveRangeSegment
other = record { from = 12; to = 24 }

intersection_runs : intersection segment other ≡ some (record { from = 12; to = 18 })
unfolding intersection
intersection_runs = refl

point_order_example :
    (point 5 Slot.early < point 5 Slot.normal)
    ↔ ((5 < 5) ⊎ ((◌≡◌ {A = ℕ} 5 5) × (slot_bits Slot.early < slot_bits Slot.normal)))
point_order_example = point_order 5 5 Slot.early Slot.normal (omega arith) (omega arith)

intersection-Covers_example :
    ((p : LiveRangePoint)
      → CoversOption (intersection segment other) p ↔ (Covers segment p × Covers other p))
    × ((intersection segment other ≡ none) ↔ ((18 ≤ 12) ⊎ (24 ≤ 6)))
intersection-Covers_example = intersection-Covers segment other

segment_full : is_empty segment ≡ false
unfolding is_empty
segment_full = refl

split_at_partition_example :
    (is_empty (split_at segment 8).0 ≡ false)
    × (is_empty (split_at segment 8).1 ≡ false)
    × (Covers (split_at segment 8).0 7 ↔ (Covers segment 7 × (7 < 8)))
    × (Covers (split_at segment 8).1 7 ↔ (Covers segment 7 × (8 ≤ 7)))
split_at_partition_example = split_at_partition segment 8 7 (omega arith) (omega arith)

num_insts_counts_example : inst 6 + num_insts segment ≡ inst (18 - 1) + 1
num_insts_counts_example = num_insts_counts segment segment_full (omega arith)
