-- ===== src/SplitPlacement/Later.antt =====
-- The loop of `find_optimal_split_point` (src/internal/split_placement.rs) towards the end of the range.
use regalloc.Base.{
  ℕ, zero, suc, ◌-◌, ◌<◌, ◌≤◌, ◌≡◌, inl, inr, leb, ◌==◌, Bool, true, false, Bool-cases, Option,
  none, some, get_or, load-ok, Run, ok, Returns, Returns-map, arith, sym, dec_lt, ℕ_discrete,
}
use regalloc.Function.{Function}
use regalloc.SplitPlacement.{SplitPlacement, later_split}
use mathlib.Core.Path.{subst}
use regalloc.SplitPlacement.Scan.{IsTransitive}
use regalloc.SplitPlacement.Passed.{
  IsTotal, lower_than_higher, lower_trans, inst_block-of_inside, inst_block_mono, inst_block-before,
}
use regalloc.SplitPlacement.Prepared.{Prepared, IsNextLower}
use regalloc.SplitPlacement.Layout.{IsLaidOut, from_of, from_mono}

module _ {Freq : Type 0} (geq : Freq → Freq → Bool) (func : Function Freq) where
  -- No block that starts after `split` and up to `limit` has a lower frequency than the block of `split`.
  abbrev pub IsBestLater : ℕ → ℕ → Type 0
  IsBestLater limit split =
      (q : ℕ)
      → q < func.num_blocks
      → split < (func.block_insts q).from
      → (func.block_insts q).from ≤ limit
      → geq (func.block_frequency q) (func.block_frequency (func.inst_block split)) ≡ true

  -- The block of `split` has a lower frequency than that of any point from `start` on before it.
  abbrev pub IsLowerThanPassed : ℕ → ℕ → Type 0
  IsLowerThanPassed start split =
      (i : ℕ)
      → start ≤ i
      → i < split
      → geq (func.block_frequency (func.inst_block split))
          (func.block_frequency (func.inst_block i))
        ≡ false

  module _ (tr : IsTransitive geq) (total : IsTotal geq) (s : SplitPlacement)
      (w : Prepared geq func s) (laid : IsLaidOut func) where
    abbrev pub LaterPoint : ℕ → ℕ → ℕ → Type 0
    LaterPoint start limit r =
        (start ≤ r) × (r ≤ limit) × IsBestLater limit r × IsLowerThanPassed start r

    abbrev freq_at : ℕ → Freq
    freq_at i = func.block_frequency (func.inst_block i)

    -- The points that a round passes, up to the start of the next lower block.
    later_passed :
        (split p i : ℕ)
        → IsNextLower geq func (func.inst_block split) (some p)
        → split ≤ i
        → i < from_of func p
        → geq (func.block_frequency p) (freq_at i) ≡ false
    later_passed split p i near le lt =
        let room : i < func.num_insts =
          omega (arith, laid.bounded p near.1, laid.filled p near.1) in
        let above = inst_block_mono func laid split i le room in
        let below = inst_block-before func laid i p near.1 room lt in
        elim (ℕ_discrete (func.inst_block split) (func.inst_block i)) [
          | yes e ↦
              subst (λ z. geq (func.block_frequency p) (func.block_frequency z) ≡ false) e near.2
          | no ne ↦
              lower_than_higher geq tr total (func.block_frequency p) (freq_at split) (freq_at i)
                near.2 (near.3 (func.inst_block i) (omega (arith, above, ne)) below)
        ]

    later_further :
        (limit split p r : ℕ)
        → IsNextLower geq func (func.inst_block split) (some p)
        → from_of func p ≤ r
        → IsLowerThanPassed (from_of func p) r
        → IsLowerThanPassed split r
    later_further limit split p r near le passed i from_i to_i = elim (dec_lt i (from_of func p)) [
      | no n ↦ passed i (omega (arith, n)) to_i
      | yes lt ↦
          let low = later_passed split p i near from_i lt in
          let filled = laid.filled p near.1 in
          let at_p : func.inst_block (from_of func p) ≡ p =
            inst_block-of_inside func laid p (from_of func p) near.1
              (omega (arith, laid.bounded p near.1, filled)) (omega arith) filled in
          elim (dec_lt (from_of func p) r) [
            | yes further ↦
                lower_trans geq tr total (freq_at r) (func.block_frequency p) (freq_at i)
                  (subst (λ z. geq (freq_at r) (func.block_frequency z) ≡ false) at_p
                    (passed (from_of func p) (omega arith) further))
                  low
            | no n ↦
                let e : from_of func p ≡ r = omega (arith, n) in
                subst (λ z. geq (freq_at z) (freq_at i) ≡ false) e
                  (subst (λ z. geq (func.block_frequency z) (freq_at i) ≡ false) (sym at_p) low)
          ]
    ]

    -- A round with the entry of the table read.
    later_round :
        (fuel limit split : ℕ) (lower : Option ℕ)
        → split < limit
        → limit ≤ func.num_insts
        → limit - split < suc fuel
        → IsNextLower geq func (func.inst_block split) lower
        → ((split' : ℕ)
            → split' ≤ limit
            → limit - split' < fuel
            → Returns (LaterPoint split' limit) (later_split geq fuel func s limit split'))
        → Returns (LaterPoint split limit) (elim lower as (λ o. Run ℕ) [
          | none ↦ ok split
          | some block ↦ elim (leb (func.block_insts block).from limit) [
            | true ↦ later_split geq fuel func s limit (func.block_insts block).from
            | false ↦ ok split
          ]
        ])
    later_round fuel limit split none lt bound fl near ih =
        let inside = laid.inst_inside split (omega arith) in
        (
          omega arith,
          omega arith,
          λ q lt' h h'.
              near q
                (from_mono func laid (func.inst_block split) q lt' (omega (arith, inside.0))
                  (laid.block_inside split (omega arith)))
                lt',
          λ i h h'. absurd (omega arith),
        )
    later_round fuel limit split (some p) lt bound fl near ih =
        let inside = laid.inst_inside split (omega arith) in
        let block_in = laid.block_inside split (omega arith) in
        let ahead = laid.ordered (func.inst_block split) p near.0 near.1 in
        elim (Bool-cases (leb (func.block_insts p).from limit)) [
          | inl e ↦
              let le : from_of func p ≤ limit = ground (arith, e) in
              rw (e) (
                Returns-map (LaterPoint (from_of func p) limit) (LaterPoint split limit)
                  (later_split geq fuel func s limit (from_of func p))
                  (λ r (a, b, c, d). (
                    omega (arith, a, inside.1, ahead),
                    b,
                    c,
                    later_further limit split p r near a d,
                  ))
                  (ih (from_of func p) le (omega (arith, inside.1, ahead))))
          | inr e ↦
              let past : limit < from_of func p = ground (arith, e) in
              rw (e) (
                omega arith,
                omega arith,
                λ q lt' h h'.
                    near.3 q
                      (from_mono func laid (func.inst_block split) q lt' (omega (arith, inside.0))
                        block_in)
                      (from_mono func laid q p near.1 (omega arith) lt'),
                λ i h h'. absurd (omega arith),
              )
        ]

    pub later_split-LaterPoint :
        (fuel limit split : ℕ)
        → split ≤ limit
        → limit ≤ func.num_insts
        → limit - split < fuel
        → Returns (LaterPoint split limit) (later_split geq fuel func s limit split)
    unfolding later_split
    later_split-LaterPoint zero limit split le bound fl = absurd (omega arith)
    later_split-LaterPoint (suc fuel) limit split le bound fl = elim (Bool-cases (split == limit)) [
      | inl e ↦
          let at_end : split ≡ limit = ground (arith, e) in
          rw (e, Returns)
            (
              omega arith,
              omega arith,
              λ q lt h h'. absurd (omega arith),
              λ i h h'. absurd (omega arith),
            )
      | inr e ↦
          let lt : split < limit = ground (arith, e) in
          let block_in = laid.block_inside split (omega arith) in
          rw
            (
              e,
              load-ok s.next_lower_freq (func.inst_block split) none (rw (w.next_size) block_in),
              Returns,
            )
            (later_round fuel limit split (get_or s.next_lower_freq (func.inst_block split) none) lt
              bound fl (w.next (func.inst_block split) block_in)
              (λ split' le' fl'. later_split-LaterPoint fuel limit split' le' bound fl'))
    ]
