-- ===== src/ValueSegment.antt =====
-- `ValueSegment` of src/internal/live_range.rs: a part of a value's live range with its uses, and how
-- a list of them is split and measured.
pub mod Parts
pub mod Halves
mod Examples
use regalloc.Base.{
  ℕ, ◌+◌, ◌-◌, ◌%◌, max, Bool, leb, ltb, if◌then◌else◌, List, [], ◌∷◌, take, drop, get_elem?, set,
  Option, none, some, Run, ok, load, ◌>>=◌,
}
use regalloc.LiveRange.{
  Slot, u32_mod, LiveRangePoint, LiveRangeSegment, point, inst, num_insts, round_to_next_inst,
  split_at,
}
use regalloc.Uses.{
  UseList, has_fixeddef, has_fixedhint, set_fixedhint, split_at_inst, partition_point,
}

pub record ValueSegment : Type 0 where
  pub live_range : LiveRangeSegment
  pub use_list : UseList
  pub value : ℕ

-- The loop of `ValueSegment::live_insts`, from the end of the previous segment, with the sum of a `u32`.
unfoldable pub live_insts_from : LiveRangePoint → List ValueSegment → ℕ
unfolding num_insts round_to_next_inst
live_insts_from prev_seg_end [] = 0
live_insts_from prev_seg_end (s ∷ segments) =
    (num_insts (record { from = max prev_seg_end s.live_range.from; to = s.live_range.to })
      + live_insts_from (round_to_next_inst s.live_range.to) segments)
    % u32_mod

unfoldable pub live_insts : List ValueSegment → ℕ
unfolding live_insts_from
live_insts segments = live_insts_from 0 segments

-- `ValueSegment::split_at`. `pos` reads a use's position, and `hints_for_split` answers for the hints
-- in the two parts of a value's segment (src/internal/hints.rs).
module _ {ℓ} {Use : Type ℓ} (pos : Use → ℕ)
    (hints_for_split : ℕ → LiveRangeSegment → ℕ → Bool × Bool) where
  unfoldable pub split_segment : ValueSegment → ℕ → List Use → Run (ValueSegment × ValueSegment)
  unfolding split_at_inst split_at point set_fixedhint has_fixedhint
  split_segment s at uses = do
    (first_uses, second_uses) ← split_at_inst pos s.use_list at uses
    let (first_range, second_range) = split_at s.live_range (point at Slot.boundary)
    let (first_hint, second_hint) = hints_for_split s.value s.live_range at
    ok (
      record {
        live_range = first_range;
        use_list =
            if has_fixedhint s.use_list then set_fixedhint first_hint first_uses else first_uses;
        value = s.value;
      },
      record {
        live_range = second_range;
        use_list =
            if has_fixedhint s.use_list then set_fixedhint second_hint second_uses else second_uses;
        value = s.value;
      },
    )

-- `SplitResult`: the segments with the first part of the split one in its place, and its second part.
pub record SplitResult : Type 0 where
  pub segments : List ValueSegment
  pub first_half_end : ℕ
  pub second_half_start : ℕ
  pub second_part : Option (LiveRangeSegment × UseList)

module _ {ℓ} {Use : Type ℓ} (pos : Use → ℕ)
    (hints_for_split : ℕ → LiveRangeSegment → ℕ → Bool × Bool) where
  -- The segment at the partition point, if there is one: it is split where the split point is inside.
  unfoldable pub split_found :
      List ValueSegment → LiveRangePoint → ℕ → Option ValueSegment → List Use → Run SplitResult
  unfolding split_segment inst
  split_found segments at start none uses = ok (record {
    segments = segments;
    first_half_end = start;
    second_half_start = start;
    second_part = none;
  })
  split_found segments at start (some s) uses =
      if ltb s.live_range.from at
      then (do
        (first, second) ← split_segment pos hints_for_split s (inst at) uses
        ok (record {
          segments = set segments start first;
          first_half_end = start + 1;
          second_half_start = start;
          second_part = some (second.live_range, second.use_list);
        }))
      else ok (record {
        segments = segments;
        first_half_end = start;
        second_half_start = start;
        second_part = none;
      })

  -- `ValueSegment::split_segments_at`.
  unfoldable pub split_segments_at : List ValueSegment → ℕ → List Use → Run SplitResult
  unfolding split_found partition_point point
  split_segments_at segments before_inst uses =
      let at = point before_inst Slot.boundary in
      let start = partition_point (λ s. leb s.live_range.to at) segments in
      split_found segments at start (get_elem? segments start) uses

-- `SplitResult::first_half`.
unfoldable pub first_half : SplitResult → List ValueSegment
first_half r = take r.first_half_end r.segments

-- `SplitResult::into_second_half`: the split segment becomes its second part.
unfoldable pub into_second_half : SplitResult → Run (List ValueSegment)
into_second_half r = elim r.second_part [
  | none ↦ ok (drop r.second_half_start r.segments)
  | some (range, uses) ↦ do
    s ← load r.segments r.second_half_start
    ok (
        drop r.second_half_start
          (set r.segments r.second_half_start (record s { live_range = range; use_list = uses })))
]
