-- ===== src/Coalescing/Merge.antt =====
-- Joining two sorted lists of segments without overlap (`merge` and the fast paths of
-- src/internal/coalescing.rs).
use regalloc.Base.{
  ℕ, ◌≤◌, ◌<◌, ◌≡◌, inl, inr, true, false, ltb, List, [], ◌∷◌, ◌++◌, arith, Bool-cases, All,
  ltb-true, ltb-false, refl,
}
use mathlib.Core.List.{Perm, perm_middle}
use mathlib.Core.List.Perm
use regalloc.ValueSegment.{ValueSegment}
use regalloc.Coalescing.{last_to, merge}
use regalloc.Coalescing.Chains.{IsChain, IsChain-after, Apart, AllApart, AllApart-tail_right}

merge-take_a :
    (a b : ValueSegment) (as_ bs : List ValueSegment)
    → ltb a.live_range.from b.live_range.from ≡ true
    → merge (a ∷ as_) (b ∷ bs) ≡ a ∷ merge as_ (b ∷ bs)
unfolding merge
merge-take_a a b as_ bs h = rw (merge, h) refl

merge-take_b :
    (a b : ValueSegment) (as_ bs : List ValueSegment)
    → ltb a.live_range.from b.live_range.from ≡ false
    → merge (a ∷ as_) (b ∷ bs) ≡ b ∷ merge (a ∷ as_) bs
unfolding merge
merge-take_b a b as_ bs h = rw (merge, h) refl

-- Merging keeps the order, where no segments overlap.
pub merge-IsChain :
    (low : ℕ) (as_ bs : List ValueSegment)
    → IsChain low as_
    → IsChain low bs
    → AllApart as_ bs
    → IsChain low (merge as_ bs)
unfolding merge
merge-IsChain low [] bs ca cb h = cb
merge-IsChain low (a ∷ as_) [] ca cb h = ca
merge-IsChain low (a ∷ as_) (b ∷ bs) ca cb h =
    elim (Bool-cases (ltb a.live_range.from b.live_range.from)) [
      | inl e ↦
          let lt : a.live_range.from < b.live_range.from =
            ltb-true a.live_range.from b.live_range.from e in
          let le : a.live_range.to ≤ b.live_range.from = elim h.0.0 [
            | inl k ↦ k
            | inr k ↦ omega (arith, cb.1)
          ] in
          rw (merge-take_a a b as_ bs e)
            (ca.0, ca.1, merge-IsChain a.live_range.to as_ (b ∷ bs) ca.2 (le, cb.1, cb.2) h.1)
      | inr e ↦
          let le : b.live_range.from ≤ a.live_range.from =
            ltb-false a.live_range.from b.live_range.from e in
          let before : b.live_range.to ≤ a.live_range.from = elim h.0.0 [
            | inl k ↦ omega (arith, ca.1)
            | inr k ↦ k
          ] in
          rw (merge-take_b a b as_ bs e) (
            cb.0,
            cb.1,
            merge-IsChain b.live_range.to (a ∷ as_) bs (before, ca.1, ca.2) cb.2
                (AllApart-tail_right b (a ∷ as_) bs h),
          )
    ]

append-nil : (xs : List ValueSegment) → Perm xs (xs ++ [])
append-nil [] = Perm.refl []
append-nil (x ∷ xs) = Perm.cons x (append-nil xs)

-- Merging keeps all segments.
pub merge-Perm : (as_ bs : List ValueSegment) → Perm (merge as_ bs) (as_ ++ bs)
unfolding merge
merge-Perm [] bs = Perm.refl bs
merge-Perm (a ∷ as_) [] = append-nil (a ∷ as_)
merge-Perm (a ∷ as_) (b ∷ bs) = elim (Bool-cases (ltb a.live_range.from b.live_range.from)) [
  | inl e ↦ rw (merge-take_a a b as_ bs e) (Perm.cons a (merge-Perm as_ (b ∷ bs)))
  | inr e ↦
      rw (merge-take_b a b as_ bs e)
        (Perm.trans (Perm.cons b (merge-Perm (a ∷ as_) bs)) (Perm.symm (perm_middle (a ∷ as_) bs)))
]

-- Two lists one after the other, as on the fast paths.
pub append-IsChain :
    (low low' : ℕ) (s : ValueSegment) (segments : List ValueSegment) (t : ValueSegment)
    (rest : List ValueSegment)
    → IsChain low (s ∷ segments)
    → IsChain low' (t ∷ rest)
    → last_to s segments ≤ t.live_range.from
    → IsChain low ((s ∷ segments) ++ (t ∷ rest))
unfolding last_to
append-IsChain low low' s [] t rest c d h = (c.0, c.1, (h, d.1, d.2))
append-IsChain low low' s (u ∷ segments) t rest c d h =
    (c.0, c.1, append-IsChain s.live_range.to low' u segments t rest c.2 d h)

-- No segment ends behind the last one.
last_to-ge :
    (low : ℕ) (s : ValueSegment) (segments : List ValueSegment)
    → IsChain low (s ∷ segments)
    → s.live_range.to ≤ last_to s segments
unfolding last_to
last_to-ge low s [] c = omega arith
last_to-ge low s (t ∷ segments) c =
    omega (arith, last_to-ge s.live_range.to t segments c.2, c.2.0, c.2.1)

-- Two lists one after the other are apart.
pub AllApart-after :
    (low low' : ℕ) (s : ValueSegment) (segments : List ValueSegment) (t : ValueSegment)
    (rest : List ValueSegment)
    → IsChain low (s ∷ segments)
    → IsChain low' (t ∷ rest)
    → last_to s segments ≤ t.live_range.from
    → AllApart (s ∷ segments) (t ∷ rest)
unfolding last_to
AllApart-after low low' s [] t rest c d h =
    (IsChain-after s t.live_range.from (t ∷ rest) h (omega arith, d.1, d.2), tt)
AllApart-after low low' s (u ∷ segments) t rest c d h = (
  IsChain-after s t.live_range.from (t ∷ rest)
      (omega (arith, last_to-ge s.live_range.to u segments c.2, c.2.0, c.2.1, h))
      (omega arith, d.1, d.2),
  AllApart-after s.live_range.to low' u segments t rest c.2 d h,
)

column : (b : ValueSegment) (bs xs : List ValueSegment) → AllApart xs (b ∷ bs) → All (Apart b) xs
column b bs [] k = tt
column b bs (x ∷ xs) k = (elim k.0.0 [ inl e ↦ inr e | inr e ↦ inl e ], column b bs xs k.1)

pub AllApart-sym : (as_ bs : List ValueSegment) → AllApart as_ bs → AllApart bs as_
AllApart-sym as_ [] h = tt
AllApart-sym as_ (b ∷ bs) h =
    (column b bs as_ h, AllApart-sym as_ bs (AllApart-tail_right b as_ bs h))
