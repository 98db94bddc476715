-- ===== src/Coalescing/Chains.antt =====
-- Sorted lists of segments without overlap, and the scan for an overlap (src/internal/coalescing.rs).
use regalloc.Base.{
  ℕ, ◌≤◌, ◌<◌, ◌≡◌, refl, ◌⊎◌, inl, inr, ◌↔◌, true, false, leb, List, [], ◌∷◌, arith, Bool-cases,
  All, leb-true,
}
use regalloc.ValueSegment.{ValueSegment}
use regalloc.Coalescing.{no_overlap}

-- The segments are not empty, in order and without overlap, and none starts before `low`.
abbrev pub IsChain : ℕ → List ValueSegment → Type 0
IsChain low [] = Unit
IsChain low (s ∷ segments) =
    (low ≤ s.live_range.from)
    × (s.live_range.from < s.live_range.to)
    × IsChain s.live_range.to segments

-- No point lies in both segments.
abbrev pub Apart : ValueSegment → ValueSegment → Type 0
Apart s t = (s.live_range.to ≤ t.live_range.from) ⊎ (t.live_range.to ≤ s.live_range.from)

abbrev pub AllApart : List ValueSegment → List ValueSegment → Type 0
AllApart as_ bs = All (λ a. All (Apart a) bs) as_

pub IsChain-lower :
    (low low' : ℕ) (segments : List ValueSegment)
    → low' ≤ low
    → IsChain low segments
    → IsChain low' segments
IsChain-lower low low' [] h c = tt
IsChain-lower low low' (s ∷ segments) h c = (omega (arith, c.0), c.1, c.2)

-- A segment that ends where the others start, or before, is apart from them.
pub IsChain-after :
    (s : ValueSegment) (low : ℕ) (segments : List ValueSegment)
    → s.live_range.to ≤ low
    → IsChain low segments
    → All (Apart s) segments
IsChain-after s low [] h c = tt
IsChain-after s low (t ∷ segments) h c = (
  inl (omega (arith, c.0)),
  IsChain-after s t.live_range.to segments (omega (arith, c.0, c.1)) c.2,
)

-- A column in front of `AllApart`.
pub AllApart-cons_right :
    (b : ValueSegment) (as_ bs : List ValueSegment)
    → All (Apart b) as_
    → AllApart as_ bs
    → AllApart as_ (b ∷ bs)
AllApart-cons_right b [] bs h k = tt
AllApart-cons_right b (a ∷ as_) bs h k =
    ((elim h.0 [ inl e ↦ inr e | inr e ↦ inl e ], k.0), AllApart-cons_right b as_ bs h.1 k.1)

pub AllApart-tail_right :
    (b : ValueSegment) (as_ bs : List ValueSegment) → AllApart as_ (b ∷ bs) → AllApart as_ bs
AllApart-tail_right b [] bs k = tt
AllApart-tail_right b (a ∷ as_) bs k = (k.0.1, AllApart-tail_right b as_ bs k.1)

pub AllApart-nil_right : (as_ : List ValueSegment) → AllApart as_ []
AllApart-nil_right [] = tt
AllApart-nil_right (a ∷ as_) = (tt, AllApart-nil_right as_)

-- The steps of the scan.
no_overlap-drop_b :
    (a b : ValueSegment) (as_ bs : List ValueSegment)
    → leb b.live_range.to a.live_range.from ≡ true
    → no_overlap (a ∷ as_) (b ∷ bs) ≡ no_overlap (a ∷ as_) bs
unfolding no_overlap
no_overlap-drop_b a b as_ bs h = rw (no_overlap, h) refl

no_overlap-drop_a :
    (a b : ValueSegment) (as_ bs : List ValueSegment)
    → leb b.live_range.to a.live_range.from ≡ false
    → leb a.live_range.to b.live_range.from ≡ true
    → no_overlap (a ∷ as_) (b ∷ bs) ≡ no_overlap as_ (b ∷ bs)
unfolding no_overlap
no_overlap-drop_a a b as_ bs h k = rw (no_overlap, h, k) refl

no_overlap-stop :
    (a b : ValueSegment) (as_ bs : List ValueSegment)
    → leb b.live_range.to a.live_range.from ≡ false
    → leb a.live_range.to b.live_range.from ≡ false
    → no_overlap (a ∷ as_) (b ∷ bs) ≡ false
unfolding no_overlap
no_overlap-stop a b as_ bs h k = rw (no_overlap, h, k) refl

-- Segments that the scan stops at are not apart.
touching :
    (a b : ValueSegment)
    → Apart a b
    → leb b.live_range.to a.live_range.from ≡ false
    → leb a.live_range.to b.live_range.from ≡ false
    → ⊥
touching a b h e f = ground arith

-- For two sorted lists of segments the scan in lockstep answers true exactly where no segment of
-- the one list overlaps a segment of the other.
pub no_overlap-AllApart :
    (low low' : ℕ) (as_ bs : List ValueSegment)
    → IsChain low as_
    → IsChain low' bs
    → (no_overlap as_ bs ≡ true) ↔ AllApart as_ bs
unfolding no_overlap
no_overlap-AllApart low low' [] bs ca cb = (λ h. tt, λ h. refl)
no_overlap-AllApart low low' (a ∷ as_) [] ca cb = (λ h. AllApart-nil_right (a ∷ as_), λ h. refl)
no_overlap-AllApart low low' (a ∷ as_) (b ∷ bs) ca cb =
    elim (Bool-cases (leb b.live_range.to a.live_range.from)) [
      | inl e ↦
          let ih = no_overlap-AllApart low b.live_range.to (a ∷ as_) bs ca cb.2 in
          let apart : All (Apart b) (a ∷ as_) =
            IsChain-after b a.live_range.from (a ∷ as_)
              (leb-true b.live_range.to a.live_range.from e) (omega arith, ca.1, ca.2) in
          rw (no_overlap-drop_b a b as_ bs e) (
            λ h. AllApart-cons_right b (a ∷ as_) bs apart (ih.0 h),
            λ h. ih.1 (AllApart-tail_right b (a ∷ as_) bs h),
          )
      | inr e ↦ elim (Bool-cases (leb a.live_range.to b.live_range.from)) [
        | inl f ↦
            let ih = no_overlap-AllApart a.live_range.to low' as_ (b ∷ bs) ca.2 cb in
            let apart : All (Apart a) (b ∷ bs) =
              IsChain-after a b.live_range.from (b ∷ bs)
                (leb-true a.live_range.to b.live_range.from f) (omega arith, cb.1, cb.2) in
            rw (no_overlap-drop_a a b as_ bs e f) (λ h. (apart, ih.0 h), λ h. ih.1 h.1)
        | inr f ↦
            rw (no_overlap-stop a b as_ bs e f)
              (λ h. ground arith, λ h. elim (touching a b h.0.0 e f) [ ])
      ]
    ]
