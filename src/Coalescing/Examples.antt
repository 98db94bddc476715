-- ===== src/Coalescing/Examples.antt =====
-- Tests of src/internal/coalescing.rs, and the theorems at inputs.
use regalloc.Base.{
  ◌↔◌, true, ℕ, zero, suc, ◌≡◌, refl, false, [], ◌∷◌, length, ok, panic, ◌>>=◌, if◌then◌else◌,
  Returns, arith,
}
use regalloc.ValueSegment.{ValueSegment}
use regalloc.UnionFind.{new, reset}
use regalloc.UnionFind.Union.{reset-IsValid}
use regalloc.Coalescing.Chains.{AllApart, no_overlap-AllApart}
use regalloc.Coalescing.{no_overlap, ValueSet, LiveRanges, Captured, unify, coalesce_values}
use regalloc.Coalescing.Unify.{IsSorted, Unifies, unify-Unifies}
use regalloc.Coalescing.Values.{Coalesces, coalesce_values-Coalesces}

abbrev segment : ℕ → ℕ → ℕ → ValueSegment
segment from to value = record {
  live_range = record { from = from; to = to };
  use_list = record { from = 0; to = 0 };
  value = value;
}

-- Value 1 is live in a gap of value 0, value 2 overlaps value 0, and the others are not live.
abbrev ranges : LiveRanges
ranges zero = segment 0 4 0 ∷ segment 12 16 0 ∷ []
ranges (suc zero) = segment 6 10 1 ∷ []
ranges (suc (suc zero)) = segment 2 8 2 ∷ []
ranges (suc (suc (suc s))) = []

abbrev captured : Captured
captured = record { ranges = ranges; merged = false; panicked = false }

gap_runs : (unify 4 0 1 captured).1.ranges 0 ≡ segment 0 4 0 ∷ segment 6 10 1 ∷ segment 12 16 0 ∷ []
unfolding unify
gap_runs = refl

overlap_runs : (unify 4 0 2 captured).0 ≡ false
unfolding unify
overlap_runs = refl

-- There are no live ranges for the set of value 1.
missing_runs : coalesce_values (reset new 3) 1 ranges 0 1 ≡ panic
unfolding coalesce_values reset
missing_runs = refl

coalesce_values_runs :
    (coalesce_values (reset new 3) 4 ranges 0 1 >>= λ (answer, u, r).
    ok (if answer then length (r 0) else 0))
    ≡ ok 3
unfolding coalesce_values reset
coalesce_values_runs = refl

ranges-IsSorted : (s : ValueSet) → IsSorted (ranges s)
ranges-IsSorted zero = (omega arith, omega arith, (omega arith, omega arith, tt))
ranges-IsSorted (suc zero) = (omega arith, omega arith, tt)
ranges-IsSorted (suc (suc zero)) = (omega arith, omega arith, tt)
ranges-IsSorted (suc (suc (suc s))) = tt

unify-Unifies_example : Unifies 0 1 captured (unify 4 0 1 captured)
unify-Unifies_example =
    unify-Unifies 4 0 1 captured (omega arith) (omega arith) (omega arith) (ranges-IsSorted 0)
      (ranges-IsSorted 1)

length-reset : length (reset new 3).table ≡ 3
unfolding reset
length-reset = refl

coalesce_values-Coalesces_example :
    Returns
      (λ (answer, u', r'). Coalesces (reset new 3).table u'.table 0 1 ranges r' answer)
      (coalesce_values (reset new 3) 4 ranges 0 1)
coalesce_values-Coalesces_example =
    coalesce_values-Coalesces (reset new 3) 4 ranges 0 1 (reset-IsValid new 3).0
      (rw (length-reset) (omega arith)) ranges-IsSorted (rw (length-reset) (omega arith))
      (rw (length-reset) (omega arith))

no_overlap-AllApart_example :
    (no_overlap (ranges 0) (ranges 1) ≡ true) ↔ AllApart (ranges 0) (ranges 1)
no_overlap-AllApart_example =
    no_overlap-AllApart 0 0 (ranges 0) (ranges 1) (ranges-IsSorted 0) (ranges-IsSorted 1)
