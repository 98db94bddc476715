-- ===== src/Coalescing/Unify.antt =====
-- When two sets merge, and what becomes of their segments (`coalesce_values` of
-- src/internal/coalescing.rs).
use regalloc.Base.{
  ℕ, ◌<◌, ◌≡◌, ◌≢◌, refl, sym, ◌⊎◌, inl, inr, Bool, true, false, leb, ltb, List, [], ◌∷◌, ◌++◌,
  arith, Bool-cases, leb-true,
}
use mathlib.Core.List.{Perm, perm_append_comm}
use mathlib.Core.List.Perm
use mathlib.Core.Path.{subst}
use regalloc.ValueSegment.{ValueSegment}
use regalloc.Coalescing.{
  ValueSet, LiveRanges, write, last_to, no_overlap, merge, Captured, unify_segments, unify_lists,
  unify,
}
use regalloc.Coalescing.Chains.{IsChain, AllApart, no_overlap-AllApart}
use regalloc.Coalescing.Merge.{
  merge-IsChain, merge-Perm, append-IsChain, AllApart-after, AllApart-sym,
}

-- The segments of a set: sorted, without overlap.
abbrev pub IsSorted : List ValueSegment → Type 0
IsSorted segments = IsChain 0 segments

abbrev pub IsEmpty : List ValueSegment → Type 0
IsEmpty [] = Unit
IsEmpty (s ∷ segments) = ⊥

-- Both sets have segments, none of the one overlaps one of the other, and the segments of `set_b` are
-- joined to those of `set_a`, in order; no other set changes.
pub record Merged (set_a set_b : ValueSet) (ranges ranges' : LiveRanges) : Type 0 where
  pub some_a : ¬ IsEmpty (ranges set_a)
  pub some_b : ¬ IsEmpty (ranges set_b)
  pub apart : AllApart (ranges set_a) (ranges set_b)
  pub sorted : IsSorted (ranges' set_a)
  pub joined : Perm (ranges' set_a) (ranges set_a ++ ranges set_b)
  pub cleared : ranges' set_b ≡ []
  pub others : (s : ValueSet) → s ≢ set_a → s ≢ set_b → ranges' s ≡ ranges s

-- The answer of the closure and what it leaves: the sets merge, or there is a reason not to.
abbrev pub Unifies : ValueSet → ValueSet → Captured → Bool × Captured → Type 0
Unifies set_a set_b c (true, c') =
    (c'.merged ≡ true) × (c'.panicked ≡ c.panicked) × Merged set_a set_b c.ranges c'.ranges
Unifies set_a set_b c (false, c') =
    (c' ≡ c)
    × (IsEmpty (c.ranges set_a)
        ⊎ (IsEmpty (c.ranges set_b) ⊎ (¬ AllApart (c.ranges set_a) (c.ranges set_b))))

write-hit :
    (r : LiveRanges) (s : ValueSet) (segments : List ValueSegment) → write r s segments s ≡ segments
unfolding write
write-hit r s segments = ground arith

write-miss :
    (r : LiveRanges) (s t : ValueSet) (segments : List ValueSegment)
    → t ≢ s
    → write r s segments t ≡ r t
unfolding write
write-miss r s t segments n = ground arith

ltb-of-lt : (i n : ℕ) → i < n → ltb i n ≡ true
ltb-of-lt i n h = ground arith

false≢true : {x : Bool} → x ≡ false → x ≡ true → ⊥
false≢true h k = ground arith

carry :
    (xs xs' ys ys' : List ValueSegment) → xs ≡ xs' → ys ≡ ys' → AllApart xs' ys' → AllApart xs ys
carry xs xs' ys ys' e f h =
    subst (λ z. AllApart z ys) (sym e) (subst (λ z. AllApart xs' z) (sym f) h)

-- What the closure writes when it merges.
abbrev moved : ValueSet → ValueSet → LiveRanges → List ValueSegment → LiveRanges
moved set_a set_b ranges segments = write (write ranges set_b []) set_a segments

module _ (set_a set_b : ValueSet) (ranges : LiveRanges) (ne : set_a ≢ set_b) where
  moved-Merged :
      (segments : List ValueSegment)
      → (¬ IsEmpty (ranges set_a))
      → (¬ IsEmpty (ranges set_b))
      → AllApart (ranges set_a) (ranges set_b)
      → IsSorted segments
      → Perm segments (ranges set_a ++ ranges set_b)
      → Merged set_a set_b ranges (moved set_a set_b ranges segments)
  moved-Merged segments na nb h c p = record {
    some_a = na;
    some_b = nb;
    apart = h;
    sorted = rw (write-hit) c;
    joined = rw (write-hit) p;
    cleared =
        rw (write-miss (write ranges set_b []) set_a set_b segments (λ e. ne (sym e)), write-hit)
          refl;
    others = λ s m n.
        rw (write-miss (write ranges set_b []) set_a s segments m, write-miss ranges set_b s [] n)
          refl;
  }

module _ (set_a set_b : ValueSet) (c : Captured) (ne : set_a ≢ set_b) (a : ValueSegment)
    (as_ : List ValueSegment) (b : ValueSegment) (bs : List ValueSegment)
    (ea : c.ranges set_a ≡ a ∷ as_) (eb : c.ranges set_b ≡ b ∷ bs) (ca : IsSorted (a ∷ as_))
    (cb : IsSorted (b ∷ bs)) where
  joins :
      (segments : List ValueSegment)
      → AllApart (a ∷ as_) (b ∷ bs)
      → IsSorted segments
      → Perm segments ((a ∷ as_) ++ (b ∷ bs))
      → Merged set_a set_b c.ranges (moved set_a set_b c.ranges segments)
  joins segments h s p =
      moved-Merged set_a set_b c.ranges ne segments (subst (λ z. ¬ IsEmpty z) (sym ea) (λ e. e))
        (subst (λ z. ¬ IsEmpty z) (sym eb) (λ e. e))
        (carry (c.ranges set_a) (a ∷ as_) (c.ranges set_b) (b ∷ bs) ea eb h) s (rw (ea, eb) p)

  after_b : leb (last_to b bs) a.live_range.from ≡ true → AllApart (a ∷ as_) (b ∷ bs)
  after_b e =
      AllApart-sym (b ∷ bs) (a ∷ as_)
        (AllApart-after 0 0 b bs a as_ cb ca (leb-true (last_to b bs) a.live_range.from e))

  unify_segments-Unifies : Unifies set_a set_b c (unify_segments set_a set_b a as_ b bs c)
  unfolding unify_segments
  unify_segments-Unifies = elim (Bool-cases (leb (last_to b bs) a.live_range.from)) [
    | inl e ↦ rw (e) (
      refl,
      refl,
      joins ((b ∷ bs) ++ (a ∷ as_)) (after_b e)
          (append-IsChain 0 0 b bs a as_ cb ca (leb-true (last_to b bs) a.live_range.from e))
          (perm_append_comm (b ∷ bs) (a ∷ as_)),
    )
    | inr e ↦ elim (Bool-cases (leb (last_to a as_) b.live_range.from)) [
      | inl f ↦
          let le = leb-true (last_to a as_) b.live_range.from f in
          rw (e, f)
            (
              refl,
              refl,
              joins ((a ∷ as_) ++ (b ∷ bs)) (AllApart-after 0 0 a as_ b bs ca cb le)
                  (append-IsChain 0 0 a as_ b bs ca cb le) (Perm.refl ((a ∷ as_) ++ (b ∷ bs))),
            )
      | inr f ↦
          let scan = no_overlap-AllApart 0 0 (a ∷ as_) (b ∷ bs) ca cb in
          elim (Bool-cases (no_overlap (a ∷ as_) (b ∷ bs))) [
            | inl g ↦
                rw (e, f, g)
                  (
                    refl,
                    refl,
                    joins (merge (a ∷ as_) (b ∷ bs)) (scan.0 g)
                        (merge-IsChain 0 (a ∷ as_) (b ∷ bs) ca cb (scan.0 g))
                        (merge-Perm (a ∷ as_) (b ∷ bs)),
                  )
            | inr g ↦
                rw (e, f, g)
                  (
                    refl,
                    inr (
                        inr (λ h. false≢true g (
                          scan.1 (
                            carry (a ∷ as_) (c.ranges set_a) (b ∷ bs) (c.ranges set_b) (sym ea)
                              (sym eb) h)))),
                  )
          ]
    ]
  ]

unify_lists-Unifies :
    (set_a set_b : ValueSet) (c : Captured) (as_ bs : List ValueSegment)
    → set_a ≢ set_b
    → c.ranges set_a ≡ as_
    → c.ranges set_b ≡ bs
    → IsSorted as_
    → IsSorted bs
    → Unifies set_a set_b c (unify_lists set_a set_b as_ bs c)
unfolding unify_lists
unify_lists-Unifies set_a set_b c [] bs ne ea eb ca cb = (refl, inl (rw (ea) tt))
unify_lists-Unifies set_a set_b c (a ∷ as_) [] ne ea eb ca cb = (refl, inr (inl (rw (eb) tt)))
unify_lists-Unifies set_a set_b c (a ∷ as_) (b ∷ bs) ne ea eb ca cb =
    unify_segments-Unifies set_a set_b c ne a as_ b bs ea eb ca cb

-- For two different sets whose segments are sorted, with live ranges for both, the closure answers true exactly where both sets have
-- segments and no segment of the one overlaps one of the other. The segments of the second set are
-- then added to the first in order, the second is left empty and no other set changes; otherwise
-- nothing changes.
pub unify-Unifies :
    (num_sets : ℕ) (set_a set_b : ValueSet) (c : Captured)
    → set_a < num_sets
    → set_b < num_sets
    → set_a ≢ set_b
    → IsSorted (c.ranges set_a)
    → IsSorted (c.ranges set_b)
    → Unifies set_a set_b c (unify num_sets set_a set_b c)
unfolding unify
unify-Unifies num_sets set_a set_b c ha hb ne ca cb =
    rw (ltb-of-lt set_a num_sets ha, ltb-of-lt set_b num_sets hb)
      (unify_lists-Unifies set_a set_b c (c.ranges set_a) (c.ranges set_b) ne refl refl ca cb)
