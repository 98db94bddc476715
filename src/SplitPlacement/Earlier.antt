-- ===== src/SplitPlacement/Earlier.antt =====
-- The loop of `find_optimal_split_point` (src/internal/split_placement.rs) towards the start of the range.
use regalloc.Base.{
  ℕ, zero, suc, ◌-◌, ◌<◌, ◌≤◌, ◌≡◌, inl, inr, leb, ◌==◌, Bool, true, false, Bool-cases, Option,
  none, some, get_or, load-ok, Run, ok, Returns, Returns-map, arith, sym, dec_lt, ℕ_discrete,
}
use regalloc.Function.{Function}
use regalloc.SplitPlacement.{SplitPlacement, earlier_split}
use mathlib.Core.Path.{subst}
use regalloc.SplitPlacement.Scan.{IsTransitive}
use regalloc.SplitPlacement.Passed.{
  IsTotal, lower_than_higher, lower_trans, inst_block-of_inside, inst_block_mono, inst_block-after,
}
use regalloc.SplitPlacement.Prepared.{Prepared, IsPrevLower}
use regalloc.SplitPlacement.Layout.{IsLaidOut, to_of, to_mono}

module _ {Freq : Type 0} (geq : Freq → Freq → Bool) (func : Function Freq) where
  -- No block that ends before `split` and from `limit` on has a lower frequency than the block in front
  -- of `split`.
  abbrev pub IsBestEarlier : ℕ → ℕ → Type 0
  IsBestEarlier limit split =
      (q : ℕ)
      → q < func.num_blocks
      → limit ≤ (func.block_insts q).to
      → (func.block_insts q).to < split
      → geq (func.block_frequency q) (func.block_frequency (func.inst_block (split - 1))) ≡ true

  -- The block in front of `split` has a lower frequency than that of any point from `split` on before
  -- `start`.
  abbrev pub IsLowerThanLeft : ℕ → ℕ → Type 0
  IsLowerThanLeft start split =
      (i : ℕ)
      → split ≤ i
      → i < start
      → geq (func.block_frequency (func.inst_block (split - 1)))
          (func.block_frequency (func.inst_block i))
        ≡ false

  module _ (tr : IsTransitive geq) (total : IsTotal geq) (s : SplitPlacement)
      (w : Prepared geq func s) (laid : IsLaidOut func) where
    abbrev freq_at : ℕ → Freq
    freq_at i = func.block_frequency (func.inst_block i)

    abbrev pub EarlierPoint : ℕ → ℕ → ℕ → Type 0
    EarlierPoint limit start r =
        (limit ≤ r) × (r ≤ start) × IsBestEarlier limit r × IsLowerThanLeft start r

    -- The points that a round passes, down to the end of the previous lower block.
    earlier_passed :
        (split p i : ℕ)
        → split ≤ func.num_insts
        → IsPrevLower geq func (func.inst_block (split - 1)) (some p)
        → p < func.num_blocks
        → to_of func p ≤ i
        → i < split
        → geq (func.block_frequency p) (freq_at i) ≡ false
    earlier_passed split p i bound near p_in le lt =
        let room : i < func.num_insts = omega arith in
        let above = inst_block_mono func laid i (split - 1) (omega arith) (omega arith) in
        let below = inst_block-after func laid i p p_in room le in
        elim (ℕ_discrete (func.inst_block (split - 1)) (func.inst_block i)) [
          | yes e ↦
              subst (λ z. geq (func.block_frequency p) (func.block_frequency z) ≡ false) e near.1
          | no ne ↦
              lower_than_higher geq tr total (func.block_frequency p) (freq_at (split - 1))
                (freq_at i) near.1 (near.2 (func.inst_block i) below (omega (arith, above, ne)))
        ]

    earlier_further :
        (split p r : ℕ)
        → split ≤ func.num_insts
        → IsPrevLower geq func (func.inst_block (split - 1)) (some p)
        → p < func.num_blocks
        → r ≤ to_of func p
        → IsLowerThanLeft (to_of func p) r
        → IsLowerThanLeft split r
    earlier_further split p r bound near p_in le passed i from_i to_i =
        elim (dec_lt i (to_of func p)) [
          | yes lt ↦ passed i from_i lt
          | no n ↦
              let low = earlier_passed split p i bound near p_in (omega (arith, n)) to_i in
              let filled = laid.filled p p_in in
              let at_p : func.inst_block (to_of func p - 1) ≡ p =
                inst_block-of_inside func laid p (to_of func p - 1) p_in
                  (omega (arith, laid.bounded p p_in, filled)) (omega (arith, filled))
                  (omega (arith, filled)) in
              elim (dec_lt r (to_of func p)) [
                | yes further ↦
                    lower_trans geq tr total (freq_at (r - 1)) (func.block_frequency p) (freq_at i)
                      (subst (λ z. geq (freq_at (r - 1)) (func.block_frequency z) ≡ false) at_p
                        (passed (to_of func p - 1) (omega arith) (omega arith)))
                      low
                | no n' ↦
                    let e : to_of func p ≡ r = omega (arith, n') in
                    subst (λ z. geq (freq_at (z - 1)) (freq_at i) ≡ false) e
                      (subst (λ z. geq (func.block_frequency z) (freq_at i) ≡ false) (sym at_p) low)
              ]
        ]

    earlier_round :
        (fuel limit split : ℕ) (lower : Option ℕ)
        → limit < split
        → 0 < limit
        → split ≤ func.num_insts
        → split - limit < suc fuel
        → IsPrevLower geq func (func.inst_block (split - 1)) lower
        → ((split' : ℕ)
            → limit ≤ split'
            → split' ≤ func.num_insts
            → split' - limit < fuel
            → Returns (EarlierPoint limit split') (earlier_split geq fuel func s limit split'))
        → Returns (EarlierPoint limit split) (elim lower as (λ o. Run ℕ) [
          | none ↦ ok split
          | some block ↦ elim (leb limit (func.block_insts block).to) [
            | true ↦ earlier_split geq fuel func s limit (func.block_insts block).to
            | false ↦ ok split
          ]
        ])
    earlier_round fuel limit split none lt pos bound fl near ih =
        let inside = laid.inst_inside (split - 1) (omega arith) in
        (
          omega arith,
          omega arith,
          λ q lt' h h'. near q (omega arith) (
              to_mono func laid q (func.inst_block (split - 1))
                (laid.block_inside (split - 1) (omega arith)) (omega (arith, inside.1)) lt'),
          λ i h h'. absurd (omega arith),
        )
    earlier_round fuel limit split (some p) lt pos bound fl near ih =
        let inside = laid.inst_inside (split - 1) (omega arith) in
        let block_in = laid.block_inside (split - 1) (omega arith) in
        let behind = laid.ordered p (func.inst_block (split - 1)) near.0 block_in in
        elim (Bool-cases (leb limit (func.block_insts p).to)) [
          | inl e ↦
              let le : limit ≤ to_of func p = ground (arith, e) in
              rw (e) (
                Returns-map (EarlierPoint limit (to_of func p)) (EarlierPoint limit split)
                  (earlier_split geq fuel func s limit (to_of func p))
                  (λ r (a, b, c, d). (
                    a,
                    omega (arith, b, inside.0, behind),
                    c,
                    earlier_further split p r bound near (omega (arith, near.0, block_in)) b d,
                  ))
                  (ih (to_of func p) le (omega (arith, inside.0, behind))
                    (omega (arith, inside.0, behind))))
          | inr e ↦
              let past : to_of func p < limit = ground (arith, e) in
              rw (e) (
                omega arith,
                omega arith,
                λ q lt' h h'.
                    near.2 q
                      (to_mono func laid p q lt' (omega arith) (omega (arith, near.0, block_in)))
                      (to_mono func laid q (func.inst_block (split - 1)) block_in
                        (omega (arith, inside.1)) lt'),
                λ i h h'. absurd (omega arith),
              )
        ]

    pub earlier_split-EarlierPoint :
        (fuel limit split : ℕ)
        → limit ≤ split
        → 0 < limit
        → split ≤ func.num_insts
        → split - limit < fuel
        → Returns (EarlierPoint limit split) (earlier_split geq fuel func s limit split)
    unfolding earlier_split
    earlier_split-EarlierPoint zero limit split le pos bound fl = absurd (omega arith)
    earlier_split-EarlierPoint (suc fuel) limit split le pos bound fl =
        elim (Bool-cases (split == limit)) [
          | inl e ↦
              let at_end : split ≡ limit = ground (arith, e) in
              rw (e, Returns)
                (
                  omega arith,
                  omega arith,
                  λ q lt h h'. absurd (omega arith),
                  λ i h h'. absurd (omega arith),
                )
          | inr e ↦
              let lt : limit < split = ground (arith, e) in
              let block_in = laid.block_inside (split - 1) (omega arith) in
              rw
                (
                  e,
                  load-ok s.prev_lower_freq (func.inst_block (split - 1)) none
                      (rw (w.prev_size) block_in),
                  Returns,
                )
                (earlier_round fuel limit split
                  (get_or s.prev_lower_freq (func.inst_block (split - 1)) none) lt pos bound fl
                  (w.prev (func.inst_block (split - 1)) block_in)
                  (λ split' le' bound' fl'.
                    earlier_split-EarlierPoint fuel limit split' le' pos bound' fl'))
        ]
