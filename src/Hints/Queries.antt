-- ===== src/Hints/Queries.antt =====
-- What the queries of `Hints` (src/internal/hints.rs) answer.
use regalloc.Base.{
  ℕ, ◌+◌, ◌-◌, ◌*◌, ◌/◌, ◌%◌, ◌^◌, ◌<◌, ◌≡◌, refl, ap, ◌∙◌, ltb, leb, ◌==◌, if◌then◌else◌, Bool,
  ◌&&◌, List, [], ◌∷◌, ok, arith,
}
use regalloc.LiveRange.{LiveRangeSegment, inst, round_to_next_inst}
use regalloc.Hints.{
  Hint, Hints, incoming, outgoing, partition_point, any_before, hints_for_segment, hints_for_split,
}
use regalloc.Hints.Ranges.{select, any, IsSorted, between, range-select, any_at-any, any_before-any}

incoming-pred :
    (value at : ℕ) → (0 < incoming value at) × (incoming value at - 1 ≡ outgoing value at)
unfolding incoming outgoing
incoming-pred value at = (omega arith, omega arith)

module _ {Freq : Type 0} where
  -- The value, the boundary and the direction of a hint.
  abbrev pub value_of : Hint Freq → ℕ
  value_of h = h.key / 2 ^ 32

  abbrev pub boundary_of : Hint Freq → ℕ
  boundary_of h = h.key % 2 ^ 32 / 2

  abbrev pub comes_in : Hint Freq → Bool
  comes_in h = h.key % 2 == 1

  -- A hint of the value on the boundaries from `first` to `last`, where on the first one only incoming
  -- values count, and on the last one only outgoing values.
  abbrev pub covered : ℕ → ℕ → ℕ → Hint Freq → Bool
  covered value first last h =
      value_of h == value
      && (if comes_in h
          then leb first (boundary_of h) && ltb (boundary_of h) last
          else ltb first (boundary_of h) && leb (boundary_of h) last)

  between-eq-covered :
      (value first last : ℕ) (h : Hint Freq)
      → first < 2 ^ 31
      → last < 2 ^ 31
      → between (incoming value first) (outgoing value last) h ≡ covered value first last h
  unfolding incoming outgoing
  between-eq-covered value first last h lt lt' = ground arith

  select-covered :
      (value first last : ℕ) (hs : List (Hint Freq))
      → first < 2 ^ 31
      → last < 2 ^ 31
      → select (between (incoming value first) (outgoing value last)) hs
        ≡ select (covered value first last) hs
  select-covered value first last [] lt lt' = refl
  select-covered value first last (h ∷ hs) lt lt' =
      let e = between-eq-covered value first last h lt lt' in
      rw (e, select-covered value first last hs lt lt') refl

  any-covered :
      (value first last : ℕ) (hs : List (Hint Freq))
      → first < 2 ^ 31
      → last < 2 ^ 31
      → any (between (incoming value first) (outgoing value last)) hs
        ≡ any (covered value first last) hs
  any-covered value first last [] lt lt' = refl
  any-covered value first last (h ∷ hs) lt lt' =
      let e = between-eq-covered value first last h lt lt' in
      rw (e, any-covered value first last hs lt lt') refl

  -- In sorted hints `hints_for_segment` finds exactly those of the value at the boundaries of the
  -- segment, in their order: at its first boundary only incoming ones, at its last only outgoing ones.
  pub hints_for_segment-covered :
      (s : Hints Freq) (value : ℕ) (seg : LiveRangeSegment)
      → IsSorted s.hints
      → seg.from < 2 ^ 32
      → hints_for_segment s value seg
        ≡ select (covered value (inst seg.from) (inst (round_to_next_inst seg.to))) s.hints
  unfolding hints_for_segment inst round_to_next_inst
  hints_for_segment-covered s value seg sorted lt =
      range-select (incoming value (seg.from / 4))
        (outgoing value ((seg.to + 3) % 2 ^ 32 / 4 * 4 / 4)) s.hints sorted
      ∙ select-covered value (seg.from / 4) ((seg.to + 3) % 2 ^ 32 / 4 * 4 / 4) s.hints
          (omega arith) (omega arith)

  -- In sorted hints `hints_for_split` returns, and tells of each side of the split whether there is a
  -- hint of the value at its boundaries: at the boundary of the split itself outgoing hints count for
  -- the left side, and incoming ones for the right side.
  pub hints_for_split-covered :
      (s : Hints Freq) (value : ℕ) (seg : LiveRangeSegment) (split_at : ℕ)
      → IsSorted s.hints
      → seg.from < 2 ^ 32
      → split_at < 2 ^ 28
      → hints_for_split s value seg split_at
        ≡ ok (
          any (covered value (inst seg.from) split_at) s.hints,
          any (covered value split_at (inst (round_to_next_inst seg.to))) s.hints,
        )
  unfolding hints_for_split inst round_to_next_inst
  hints_for_split-covered s value seg split_at sorted lt lt' =
      let start = incoming value (seg.from / 4) in
      let end = outgoing value ((seg.to + 3) % 2 ^ 32 / 4 * 4 / 4) in
      let mid = incoming value split_at in
      let (pos, e) = incoming-pred value split_at in
      let left : any_before s.hints (partition_point (λ h. ltb h.key mid) s.hints) start
          ≡ ok (any (covered value (seg.from / 4) split_at) s.hints) =
        any_before-any start mid s.hints pos sorted
        ∙ ap (λ z. ok (any (between start z) s.hints)) e
        ∙ ap ok (any-covered value (seg.from / 4) split_at s.hints (omega arith) (omega arith)) in
      let right =
        any_at-any mid end s.hints sorted
        ∙ any-covered value split_at ((seg.to + 3) % 2 ^ 32 / 4 * 4 / 4) s.hints (omega arith)
            (omega arith) in
      rw (left, right) refl
