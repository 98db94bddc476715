-- ===== src/ValueSegment/Halves.antt =====
-- The two halves of `ValueSegment::split_segments_at` (src/internal/live_range.rs).
use regalloc.Base.{
  ℕ, suc, ◌≡◌, ◌<◌, ◌≤◌, refl, ◌⊎◌, inl, inr, ◌↔◌, Bool, true, false, leb, ltb, List, [], ◌∷◌,
  Option, none, some, arith, Bool-cases, leb-true, leb-false, ltb-true, ltb-false, Returns,
  Returns-map, All,
}
use regalloc.LiveRange.{Slot, LiveRangePoint, LiveRangeSegment, point, split_at}
use regalloc.LiveRange.Points.{max_insts, inst-slot-point}
use regalloc.LiveRange.Segments.{Covers}
use regalloc.Coalescing.Chains.{IsChain}
use regalloc.Uses.{partition_point, UseList}
use regalloc.Uses.Split.{IsWithin}
use regalloc.ValueSegment.{
  ValueSegment, SplitResult, split_segments_at, first_half, into_second_half,
}
use regalloc.ValueSegment.Parts.{cut, result_found, result, split_segments_at_lem}

-- The result for a list with one more segment in front, before the split.
abbrev shifted : ValueSegment → SplitResult → SplitResult
shifted s r = record {
  segments = s ∷ r.segments;
  first_half_end = suc r.first_half_end;
  second_half_start = suc r.second_half_start;
  second_part = r.second_part;
}

first_half-shifted :
    (s : ValueSegment) (r : SplitResult) → first_half (shifted s r) ≡ s ∷ first_half r
unfolding first_half
first_half-shifted s r = refl

into-shifted :
    (s : ValueSegment) (xs : List ValueSegment) (e b : ℕ) (o : Option (LiveRangeSegment × UseList))
    → into_second_half (record {
      segments = s ∷ xs;
      first_half_end = suc e;
      second_half_start = suc b;
      second_part = o;
    })
      ≡ into_second_half
          (record { segments = xs; first_half_end = e; second_half_start = b; second_part = o })
unfolding into_second_half
into-shifted s xs e b none = refl
into-shifted s xs e b (some x) = refl

into_second_half-shifted :
    (s : ValueSegment) (r : SplitResult) → into_second_half (shifted s r) ≡ into_second_half r
into_second_half-shifted s r =
    into-shifted s r.segments r.first_half_end r.second_half_start r.second_part

-- A segment of the list covers the point.
abbrev pub InSome : LiveRangePoint → List ValueSegment → Type 0
InSome p [] = ⊥
InSome p (s ∷ segments) = Covers s.live_range p ⊎ InSome p segments

InSome-ge :
    (low p : ℕ) (segments : List ValueSegment) → IsChain low segments → InSome p segments → low ≤ p
InSome-ge low p [] c h = elim h [ ]
InSome-ge low p (s ∷ segments) c (inl h) = omega (arith, h.0, c.0)
InSome-ge low p (s ∷ segments) c (inr h) =
    omega (arith, InSome-ge s.live_range.to p segments c.2 h, c.0, c.1)

-- The two parts share the points of the segments out at `at_`.
abbrev pub Partitions :
    LiveRangePoint → List ValueSegment → List ValueSegment → List ValueSegment → Type 0
Partitions at_ segments first second =
    (p : LiveRangePoint)
    → (InSome p first ↔ (InSome p segments × (p < at_)))
      × (InSome p second ↔ (InSome p segments × (at_ ≤ p)))

module _ {U : Type 0} (pos : U → ℕ) (hints : ℕ → LiveRangeSegment → ℕ → Bool × Bool)
    (before_inst : ℕ) (uses : List U) where
  abbrev at_ : LiveRangePoint
  at_ = point before_inst Slot.boundary

  abbrev cut_at : ValueSegment → ValueSegment × ValueSegment
  cut_at = cut pos hints before_inst uses

  abbrev halves : List ValueSegment → SplitResult
  halves = result pos hints before_inst uses

  step_before :
      (s : ValueSegment) (rest : List ValueSegment)
      → leb s.live_range.to at_ ≡ true
      → halves (s ∷ rest) ≡ shifted s (halves rest)
  unfolding result result_found partition_point
  step_before s rest h = ground (arith, h)

  step_inside :
      (s : ValueSegment) (rest : List ValueSegment)
      → leb s.live_range.to at_ ≡ false
      → ltb s.live_range.from at_ ≡ true
      → halves (s ∷ rest) ≡ record {
        segments = (cut_at s).0 ∷ rest;
        first_half_end = 1;
        second_half_start = 0;
        second_part = some ((cut_at s).1.live_range, (cut_at s).1.use_list);
      }
  unfolding result result_found partition_point
  step_inside s rest h k = ground (arith, h, k)

  step_after :
      (s : ValueSegment) (rest : List ValueSegment)
      → leb s.live_range.to at_ ≡ false
      → ltb s.live_range.from at_ ≡ false
      → halves (s ∷ rest) ≡ record {
        segments = s ∷ rest;
        first_half_end = 0;
        second_half_start = 0;
        second_part = none;
      }
  unfolding result result_found partition_point
  step_after s rest h k = ground (arith, h, k)

  cut-range :
      (s : ValueSegment)
      → before_inst < max_insts
      → ((cut_at s).0.live_range ≡ record { from = s.live_range.from; to = at_ })
        × ((cut_at s).1.live_range ≡ record { from = at_; to = s.live_range.to })
  unfolding cut split_at
  cut-range s h = rw ((inst-slot-point before_inst Slot.boundary h).0) (refl, refl)

  abbrev Halved : List ValueSegment → SplitResult → Type 0
  Halved segments r =
      Returns (λ second. Partitions at_ segments (first_half r) second) (into_second_half r)

  Halved-before :
      (s : ValueSegment) (rest : List ValueSegment) (r : SplitResult)
      → s.live_range.to ≤ at_
      → Halved rest r
      → Halved (s ∷ rest) (shifted s r)
  Halved-before s rest r h ih =
      rw (into_second_half-shifted, first_half-shifted)
        (Returns-map (λ second. Partitions at_ rest (first_half r) second)
          (λ second. Partitions at_ (s ∷ rest) (s ∷ first_half r) second) (into_second_half r)
          (λ second parts p.
            let (one, two) = parts p in
            (
              (
                λ c. elim c [
                  | inl d ↦ (inl d, omega (arith, d.1, h))
                  | inr d ↦ (inr (one.0 d).0, (one.0 d).1)
                ],
                λ (c, l). elim c [ inl d ↦ inl d | inr d ↦ inr (one.1 (d, l)) ],
              ),
              (
                λ c. (inr (two.0 c).0, (two.0 c).1),
                λ (c, l). elim c [
                  | inl d ↦ absurd (omega (arith, d.1, h, l))
                  | inr d ↦ two.1 (d, l)
                ],
              ),
            ))
          ih)

  Halved-after :
      (s : ValueSegment) (rest : List ValueSegment)
      → at_ ≤ s.live_range.from
      → IsChain s.live_range.from (s ∷ rest)
      → Halved (s ∷ rest) (record {
        segments = s ∷ rest;
        first_half_end = 0;
        second_half_start = 0;
        second_part = none;
      })
  unfolding first_half into_second_half
  Halved-after s rest h c = λ p. (
    (λ d. elim d [ ], λ (d, l). omega (arith, InSome-ge s.live_range.from p (s ∷ rest) c d, h, l)),
    (λ d. (d, omega (arith, InSome-ge s.live_range.from p (s ∷ rest) c d, h)), λ (d, l). d),
  )

  Halved-inside :
      (s : ValueSegment) (rest : List ValueSegment)
      → before_inst < max_insts
      → s.live_range.from < at_
      → at_ < s.live_range.to
      → IsChain s.live_range.to rest
      → Halved (s ∷ rest) (record {
        segments = (cut_at s).0 ∷ rest;
        first_half_end = 1;
        second_half_start = 0;
        second_part = some ((cut_at s).1.live_range, (cut_at s).1.use_list);
      })
  unfolding first_half into_second_half
  Halved-inside s rest b f t c =
      rw ((cut-range s b).0, (cut-range s b).1)
        (λ p. (
          (
            λ d. elim d [ inl e ↦ (inl (e.0, omega (arith, e.1, t)), e.1) | inr e ↦ elim e [ ] ],
            λ (d, l). elim d [
              | inl e ↦ inl (e.0, l)
              | inr e ↦ absurd (omega (arith, InSome-ge s.live_range.to p rest c e, t, l))
            ],
          ),
          (
            λ d. elim d [
              | inl e ↦ (inl (omega (arith, e.0, f), e.1), e.0)
              | inr e ↦ (inr e, omega (arith, InSome-ge s.live_range.to p rest c e, t))
            ],
            λ (d, l). elim d [ inl e ↦ inl (l, e.1) | inr e ↦ inr e ],
          ),
        ))

  result-Halved :
      (low : ℕ) (segments : List ValueSegment)
      → before_inst < max_insts
      → IsChain low segments
      → Halved segments (halves segments)
  unfolding result result_found partition_point first_half into_second_half
  result-Halved low [] b c = λ p. ((λ d. elim d [ ], λ d. d.0), (λ d. elim d [ ], λ d. d.0))
  result-Halved low (s ∷ rest) b c = elim (Bool-cases (leb s.live_range.to at_)) [
    | inl e ↦ rw (step_before s rest e) (
        Halved-before s rest (halves rest) (leb-true s.live_range.to at_ e)
          (result-Halved s.live_range.to rest b c.2))
    | inr e ↦ elim (Bool-cases (ltb s.live_range.from at_)) [
      | inl f ↦ rw (step_inside s rest e f) (
          Halved-inside s rest b (ltb-true s.live_range.from at_ f)
            (leb-false s.live_range.to at_ e) c.2)
      | inr f ↦
          rw (step_after s rest e f)
            (Halved-after s rest (ltb-false s.live_range.from at_ f) (omega arith, c.1, c.2))
    ]
  ]

-- For sorted segments without overlap, each with its uses within the array of uses, and an instruction
-- within `MAX_INSTS`, `split_segments_at` and then its second half are returned without a panic, and
-- the two halves share the points that the segments cover out: those before the instruction to the
-- first, the others to the second.
pub split_segments_at-Partitions :
    {U : Type 0} (pos : U → ℕ) (hints : ℕ → LiveRangeSegment → ℕ → Bool × Bool)
    (segments : List ValueSegment) (before_inst : ℕ) (uses : List U)
    → before_inst < max_insts
    → IsChain 0 segments
    → All (λ s. IsWithin s.use_list uses) segments
    → Returns
        (λ r.
          Returns
            (λ second. Partitions (point before_inst Slot.boundary) segments (first_half r) second)
            (into_second_half r))
        (split_segments_at pos hints segments before_inst uses)
split_segments_at-Partitions pos hints segments before_inst uses b c h =
    rw (split_segments_at_lem pos hints before_inst uses segments h)
      (result-Halved pos hints before_inst uses 0 segments b c)
