-- ===== src/LiveRange/Segments.antt =====
-- Segments as sets of points (src/internal/live_range.rs).
use regalloc.Base.{◌+◌, ◌-◌, ◌≤◌, ◌<◌, ◌≡◌, ◌⊎◌, ◌↔◌, Option, none, some, arith, false}
use regalloc.LiveRange.{
  u32_mod, LiveRangePoint, inst, LiveRangeSegment, is_empty, intersection, num_insts, split_at,
}

-- The point lies in the segment.
abbrev pub Covers : LiveRangeSegment → LiveRangePoint → Type 0
Covers s p = (s.from ≤ p) × (p < s.to)

abbrev pub CoversOption : Option LiveRangeSegment → LiveRangePoint → Type 0
CoversOption none p = ⊥
CoversOption (some s) p = Covers s p

-- The answer of `intersection` is `None` exactly where one segment ends where the other starts or
-- before, and a point lies in it exactly where it lies in both segments; none lies in `None`.
pub intersection-Covers :
    (s t : LiveRangeSegment)
    → ((p : LiveRangePoint) → CoversOption (intersection s t) p ↔ (Covers s p × Covers t p))
      × ((intersection s t ≡ none) ↔ ((s.to ≤ t.from) ⊎ (t.to ≤ s.from)))
unfolding intersection
intersection-Covers s t = (λ p. ground arith, ground arith)

-- Splitting strictly inside a segment shares its points out: those before `mid` to the first part, the
-- others to the second, and neither part is empty.
pub split_at_partition :
    (s : LiveRangeSegment) (mid p : LiveRangePoint)
    → s.from < mid
    → mid < s.to
    → (is_empty (split_at s mid).0 ≡ false)
      × (is_empty (split_at s mid).1 ≡ false)
      × (Covers (split_at s mid).0 p ↔ (Covers s p × (p < mid)))
      × (Covers (split_at s mid).1 p ↔ (Covers s p × (mid ≤ p)))
unfolding split_at is_empty
split_at_partition s mid p h k = ground arith

-- For a segment that is not empty and ends where `u32` has room for the next instruction,
-- `num_insts` counts the instructions from that of the first point to that of the last.
pub num_insts_counts :
    (s : LiveRangeSegment)
    → is_empty s ≡ false
    → s.to + 3 < u32_mod
    → inst s.from + num_insts s ≡ inst (s.to - 1) + 1
unfolding num_insts is_empty inst
num_insts_counts s h k = ground arith
