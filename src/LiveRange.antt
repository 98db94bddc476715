-- ===== src/LiveRange.antt =====
-- src/internal/live_range.rs: instruction slots, points of a live range and segments between them.
-- A `LiveRangePoint` is its `bits`, a `u32`, whose derived order is that of the numbers.
pub mod Points
pub mod Segments
mod Examples
use regalloc.Base.{
  ℕ, ◌+◌, ◌-◌, ◌*◌, ◌/◌, ◌%◌, ◌^◌, ◌≤◌, ◌<◌, min, max, ◌≡◌, Bool, Option, none, some, Run, ok,
  panic, leb, ◌==◌, if◌then◌else◌, ◌||◌, List, [], ◌∷◌,
}

-- `Slot`, a point within an instruction.
pub data Slot : Type 0 where
  boundary early normal : Slot

-- The discriminants.
abbrev pub slot_bits : Slot → ℕ
slot_bits Slot.boundary = 0
slot_bits Slot.early = 1
slot_bits Slot.normal = 2

abbrev pub u32_mod : ℕ
u32_mod = 2 ^ 32

abbrev pub LiveRangePoint : Type 0
LiveRangePoint = ℕ

-- `LiveRangePoint::new`. The shifted index leaves the low bits clear, so `|` is a sum.
unfoldable pub point : ℕ → Slot → LiveRangePoint
point inst s = inst * 4 % u32_mod + slot_bits s

-- `LiveRangePoint::inst`.
unfoldable pub inst : LiveRangePoint → ℕ
inst p = p / 4

-- `LiveRangePoint::slot`, with its `unreachable!`.
unfoldable pub slot : LiveRangePoint → Run Slot
slot p =
    if p % 4 == 0
    then ok Slot.boundary
    else if p % 4 == 1
    then ok Slot.early
    else if p % 4 == 2
    then ok Slot.normal
    else panic

-- `round_to_next_inst`, with the sum of a `u32` as it wraps.
unfoldable pub round_to_next_inst : LiveRangePoint → LiveRangePoint
round_to_next_inst p = (p + 3) % u32_mod / 4 * 4

unfoldable pub round_to_prev_inst : LiveRangePoint → LiveRangePoint
round_to_prev_inst p = p / 4 * 4

unfoldable pub end_for_fixed_use_reservation : LiveRangePoint → LiveRangePoint
end_for_fixed_use_reservation p = (p + 2) % u32_mod

-- `LiveRangeSegment`: the points from `from` up to and without `to`.
pub record LiveRangeSegment : Type 0 where
  pub from : LiveRangePoint
  pub to : LiveRangePoint

unfoldable pub is_empty : LiveRangeSegment → Bool
is_empty s = leb s.to s.from

unfoldable pub intersection : LiveRangeSegment → LiveRangeSegment → Option LiveRangeSegment
intersection s other =
    if leb other.to s.from || leb s.to other.from
    then none
    else some (record { from = max s.from other.from; to = min s.to other.to })

-- `num_insts`, with the difference of `u32`s as it wraps.
unfoldable pub num_insts : LiveRangeSegment → ℕ
unfolding round_to_next_inst round_to_prev_inst
num_insts s = (round_to_next_inst s.to + u32_mod - round_to_prev_inst s.from) % u32_mod / 4

unfoldable pub split_at : LiveRangeSegment → LiveRangePoint → LiveRangeSegment × LiveRangeSegment
split_at s mid = (record { from = s.from; to = mid }, record { from = mid; to = s.to })
