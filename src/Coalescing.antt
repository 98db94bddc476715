-- ===== src/Coalescing.antt =====
-- src/internal/coalescing.rs: merging the value sets of two values whose live ranges do not overlap.
-- The map from a set to its segments is a function, with the number of sets beside it: an index out
-- of range panics. The panic is a flag of the state that the closure of `coalesce_values` captures.
pub mod Chains
pub mod Merge
pub mod Unify
pub mod Values
pub mod Pass
mod Examples
use regalloc.Base.{
  ℕ, ◌≤◌, ◌<◌, ◌≡◌, Bool, true, false, ltb, leb, ◌==◌, if◌then◌else◌, List, [], ◌∷◌, ◌++◌, Run, ok,
  panic, ◌>>=◌,
}
use regalloc.LiveRange.{LiveRangeSegment}
use regalloc.ValueSegment.{ValueSegment}
use regalloc.UnionFind.{UnionFind, find, try_union}

abbrev pub ValueSet : Type 0
ValueSet = ℕ

-- `ValueLiveRanges`, as far as coalescing reads and writes it.
abbrev pub LiveRanges : Type 0
LiveRanges = ValueSet → List ValueSegment

unfoldable pub write : LiveRanges → ValueSet → List ValueSegment → LiveRanges
write ranges set segments s = if set == s then segments else ranges s

-- The end of the last of the segments `s ∷ rest`.
unfoldable pub last_to : ValueSegment → List ValueSegment → ℕ
last_to s [] = s.live_range.to
last_to s (t ∷ rest) = last_to t rest

-- The scan of both lists for an overlap: whether there is none.
unfoldable pub no_overlap : List ValueSegment → List ValueSegment → Bool
no_overlap [] bs = true
no_overlap (a ∷ as_) [] = true
no_overlap (a ∷ as_) (b ∷ bs) = elim (leb b.live_range.to a.live_range.from) [
  | true ↦ no_overlap (a ∷ as_) bs
  | false ↦ elim (leb a.live_range.to b.live_range.from) [
    | true ↦ no_overlap as_ (b ∷ bs)
    | false ↦ false
  ]
]

-- `merge`.
unfoldable pub merge : List ValueSegment → List ValueSegment → List ValueSegment
merge [] bs = bs
merge (a ∷ as_) [] = a ∷ as_
merge (a ∷ as_) (b ∷ bs) = elim (ltb a.live_range.from b.live_range.from) [
  | true ↦ a ∷ merge as_ (b ∷ bs)
  | false ↦ b ∷ merge (a ∷ as_) bs
]

-- What the closure of `coalesce_values` captures: the live ranges, and whether the sets merged; and
-- whether the closure has panicked.
pub record Captured : Type 0 where
  pub ranges : LiveRanges
  pub merged : Bool
  pub panicked : Bool

-- The closure, behind its test for an empty set.
unfoldable pub unify_segments :
    ValueSet
    → ValueSet
    → ValueSegment
    → List ValueSegment
    → ValueSegment
    → List ValueSegment
    → Captured
    → Bool × Captured
unfolding write last_to no_overlap merge
unify_segments set_a set_b a as_ b bs c =
    let into = λ (segments : List ValueSegment).
      let moved : Captured = record c {
        ranges = write (write c.ranges set_b []) set_a segments;
        merged = true;
      } in
      let result : Bool × Captured = (true, moved) in result in
    if leb (last_to b bs) a.live_range.from
    then into ((b ∷ bs) ++ (a ∷ as_))
    else if leb (last_to a as_) b.live_range.from
    then into ((a ∷ as_) ++ (b ∷ bs))
    else if no_overlap (a ∷ as_) (b ∷ bs)
    then into (merge (a ∷ as_) (b ∷ bs))
    else (false, c)

unfoldable pub unify_lists :
    ValueSet → ValueSet → List ValueSegment → List ValueSegment → Captured → Bool × Captured
unfolding unify_segments
unify_lists set_a set_b [] bs c = (false, c)
unify_lists set_a set_b (a ∷ as_) [] c = (false, c)
unify_lists set_a set_b (a ∷ as_) (b ∷ bs) c = unify_segments set_a set_b a as_ b bs c

-- The closure that `coalesce_values` hands to `try_union`, where there are live ranges for `num_sets`
-- sets: `value_live_ranges[set]` panics for any other.
unfoldable pub unify : ℕ → ValueSet → ValueSet → Captured → Bool × Captured
unfolding unify_lists
unify num_sets set_a set_b c =
    if ltb set_a num_sets
    then (if ltb set_b num_sets
        then unify_lists set_a set_b (c.ranges set_a) (c.ranges set_b) c
        else (false, record c { panicked = true }))
    else (false, record c { panicked = true })

-- `Coalescing::set_for_value`.
unfoldable pub set_for_value : UnionFind → ℕ → Run (ValueSet × UnionFind)
set_for_value u value = find u value

-- `Coalescing::coalesce_values`.
unfoldable pub coalesce_values :
    UnionFind → ℕ → LiveRanges → ℕ → ℕ → Run (Bool × UnionFind × LiveRanges)
unfolding try_union unify
coalesce_values u num_sets ranges a b = do
  (u', c) ←
      try_union u a b (record { ranges = ranges; merged = false; panicked = false })
        (unify num_sets)
  if c.panicked then panic else ok (c.merged, u', c.ranges)
