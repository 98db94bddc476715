-- ===== src/SpillAllocator/Spilled.antt =====
-- Which sets wait for a slot (src/internal/spill_allocator.rs): `set_range` and `spill_segment`.
use regalloc.Base.{
  ℕ, ◌<◌, ◌≡◌, ◌↔◌, ◌⊎◌, inl, inr, refl, sym, ◌∙◌, Bool, true, false, List, [], ◌∷◌, ◌++◌, length,
  get_or, set, length-set, get_or-set, load-ok, store-ok, ok, Returns, In, IsNodup, In-append_left,
  In-append_last, In-append-inv, IsNodup-append_last, arith, Bool-cases, ◌==◌, if◌then◌else◌,
  ℕ_discrete,
}
use regalloc.SpillAllocator.{SpillData, SpillAllocator, spill_segment}
use regalloc.SpillAllocator.Retain.{blank}

abbrev pub spilled_of : List SpillData → ℕ → Bool
spilled_of sets i = (get_or sets i blank).spilled

-- The queue holds exactly the spilled sets, each once.
pub record IsQueued {V : Type 0} (s : SpillAllocator V) : Type 0 where
  pub nodup : IsNodup s.sets_to_allocate
  pub inside : (i : ℕ) → In i s.sets_to_allocate → i < length s.sets
  pub exactly : (i : ℕ) → i < length s.sets → (spilled_of s.sets i ≡ true) ↔ In i s.sets_to_allocate

module _ {V : Type 0} (s : SpillAllocator V) (i : ℕ) (h : i < length s.sets) where
  abbrev marked : List SpillData
  marked = set s.sets i (record (get_or s.sets i blank) { spilled = true })

  spill_segment-again :
      (segment : V)
      → spilled_of s.sets i ≡ true
      → spill_segment s i segment
        ≡ ok (record s { spilled_segments = s.spilled_segments ++ (i, segment) ∷ [] })
  unfolding spill_segment
  spill_segment-again segment e = ground (arith, load-ok s.sets i blank h)

  spill_segment-first :
      (segment : V)
      → spilled_of s.sets i ≡ false
      → spill_segment s i segment
        ≡ ok (record s {
          sets = marked;
          spilled_segments = s.spilled_segments ++ (i, segment) ∷ [];
          sets_to_allocate = s.sets_to_allocate ++ i ∷ [];
        })
  unfolding spill_segment
  spill_segment-first segment e = ground (
    arith,
    load-ok s.sets i blank h,
    store-ok s.sets i (record (get_or s.sets i blank) { spilled = true }) h,
  )

  spilled-marked : (j : ℕ) → spilled_of marked j ≡ (if i == j then true else spilled_of s.sets j)
  spilled-marked j =
      ground
        (arith, get_or-set s.sets i j (record (get_or s.sets i blank) { spilled = true }) blank h)

  exactly_marked :
      IsQueued s
      → (j : ℕ) → j < length s.sets
      → (spilled_of marked j ≡ true) ↔ In j (s.sets_to_allocate ++ i ∷ [])
  exactly_marked q j hj = elim (ℕ_discrete i j) [
    | yes e ↦
        (λ k. rw (← e) (In-append_last i s.sets_to_allocate), λ k. ground (arith, spilled-marked j))
    | no n ↦
        let same : spilled_of marked j ≡ spilled_of s.sets j = ground (arith, spilled-marked j) in
        (
          λ k. In-append_left j s.sets_to_allocate (i ∷ []) ((q.exactly j hj).0 (sym same ∙ k)),
          λ k. elim (In-append-inv j i s.sets_to_allocate k) [
            | inl m ↦ same ∙ (q.exactly j hj).1 m
            | inr e ↦ absurd (n (sym e))
          ],
        )
  ]

  -- `spill_segment` for a set of the table records the segment at the end, and queues the set unless
  -- it is queued already: the queue then holds this set, no other new one, and again exactly the
  -- spilled sets.
  pub spill_segment-IsQueued :
      (segment : V)
      → IsQueued s
      → Returns
          (λ s'.
            IsQueued s'
            × In i s'.sets_to_allocate
            × (s'.spilled_segments ≡ s.spilled_segments ++ (i, segment) ∷ [])
            × ((j : ℕ) → In j s'.sets_to_allocate → In j s.sets_to_allocate ⊎ (j ≡ i)))
          (spill_segment s i segment)
  spill_segment-IsQueued segment q = elim (Bool-cases (spilled_of s.sets i)) [
    | inl e ↦ rw (spill_segment-again segment e) (
      record { nodup = q.nodup; inside = q.inside; exactly = q.exactly },
      (q.exactly i h).0 e,
      refl,
      λ j k. inl k,
    )
    | inr e ↦ rw (spill_segment-first segment e) (
      record {
        nodup =
            IsNodup-append_last i s.sets_to_allocate q.nodup
              (λ k. absurd (ground (arith, (q.exactly i h).1 k)));
        inside = λ j k.
            rw (length-set s.sets i (record (get_or s.sets i blank) { spilled = true }))
              (elim (In-append-inv j i s.sets_to_allocate k) [
                | inl m ↦ q.inside j m
                | inr w ↦ rw w h
              ]);
        exactly = λ j k. exactly_marked q j (rw length-set at k);
      },
      In-append_last i s.sets_to_allocate,
      refl,
      λ j k. In-append-inv j i s.sets_to_allocate k,
    )
  ]
