-- ===== src/ValueSegment/Parts.antt =====
-- `ValueSegment::split_segments_at` (src/internal/live_range.rs) does not panic where the segments' uses
-- are within the array, and what it returns then.
use regalloc.Base.{
  ℕ, zero, suc, ◌+◌, ◌≡◌, refl, inl, inr, Bool, leb, ltb, List, [], ◌∷◌, Option, none, some,
  Bool-cases, All, ok, get_elem?, set, if◌then◌else◌,
}
use mathlib.Core.Path.{subst}
use mathlib.Core.Option.{none-ne-some, some_inj}
use regalloc.LiveRange.{Slot, LiveRangePoint, LiveRangeSegment, point, inst, split_at}
use regalloc.Uses.{partition_point, has_fixedhint, set_fixedhint}
use regalloc.Uses.Split.{IsWithin, first_list, second_list, split_at_inst_lem}
use regalloc.ValueSegment.{ValueSegment, split_segment, split_found, SplitResult, split_segments_at}

module _ {U : Type 0} (pos : U → ℕ) (hints : ℕ → LiveRangeSegment → ℕ → Bool × Bool)
    (before_inst : ℕ) (uses : List U) where
  abbrev at_ : LiveRangePoint
  at_ = point before_inst Slot.boundary

  -- The two parts of a segment whose uses are within the array.
  unfoldable pub cut : ValueSegment → ValueSegment × ValueSegment
  cut s = (
    record {
      live_range = (split_at s.live_range (point (inst at_) Slot.boundary)).0;
      use_list =
          if has_fixedhint s.use_list
          then set_fixedhint (hints s.value s.live_range (inst at_)).0
              (first_list pos s.use_list (inst at_) uses)
          else first_list pos s.use_list (inst at_) uses;
      value = s.value;
    },
    record {
      live_range = (split_at s.live_range (point (inst at_) Slot.boundary)).1;
      use_list =
          if has_fixedhint s.use_list
          then set_fixedhint (hints s.value s.live_range (inst at_)).1
              (second_list pos s.use_list (inst at_) uses)
          else second_list pos s.use_list (inst at_) uses;
      value = s.value;
    },
  )

  abbrev pub HasUses : ValueSegment → Type 0
  HasUses s = IsWithin s.use_list uses

  split_segment_lem :
      (s : ValueSegment) → HasUses s → split_segment pos hints s (inst at_) uses ≡ ok (cut s)
  unfolding split_segment cut
  split_segment_lem s w = rw (split_at_inst_lem pos s.use_list (inst at_) uses w) refl

  -- The result of a split that does not panic.
  unfoldable pub result_found : List ValueSegment → ℕ → Option ValueSegment → SplitResult
  result_found segments start none = record {
    segments = segments;
    first_half_end = start;
    second_half_start = start;
    second_part = none;
  }
  result_found segments start (some s) =
      if ltb s.live_range.from at_
      then record {
        segments = set segments start (cut s).0;
        first_half_end = start + 1;
        second_half_start = start;
        second_part = some ((cut s).1.live_range, (cut s).1.use_list);
      }
      else record {
        segments = segments;
        first_half_end = start;
        second_half_start = start;
        second_part = none;
      }

  unfoldable pub result : List ValueSegment → SplitResult
  unfolding partition_point result_found
  result segments =
      let start = partition_point (λ s. leb s.live_range.to at_) segments in
      result_found segments start (get_elem? segments start)

  split_found_lem :
      (segments : List ValueSegment) (start : ℕ) (o : Option ValueSegment)
      → ((s : ValueSegment) → o ≡ some s → HasUses s)
      → split_found pos hints segments at_ start o uses ≡ ok (result_found segments start o)
  unfolding split_found result_found
  split_found_lem segments start none h = refl
  split_found_lem segments start (some s) h = elim (Bool-cases (ltb s.live_range.from at_)) [
    | inl f ↦ rw (f, split_segment_lem s (h s refl)) refl
    | inr f ↦ rw (f) refl
  ]

  found_uses :
      (segments : List ValueSegment) (i : ℕ) (s : ValueSegment)
      → All HasUses segments
      → get_elem? segments i ≡ some s
      → HasUses s
  found_uses [] i s h e = absurd (none-ne-some s e)
  found_uses (t ∷ rest) zero s h e = subst HasUses (some_inj.0 e) h.0
  found_uses (t ∷ rest) (suc i) s h e = found_uses rest i s h.1 e

  pub split_segments_at_lem :
      (segments : List ValueSegment)
      → All HasUses segments
      → split_segments_at pos hints segments before_inst uses ≡ ok (result segments)
  unfolding split_segments_at result
  split_segments_at_lem segments h =
      let start = partition_point (λ s. leb s.live_range.to at_) segments in
      split_found_lem segments start (get_elem? segments start)
        (λ s e. found_uses segments start s h e)
