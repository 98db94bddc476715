-- ===== src/SplitPlacement/Passed.antt =====
-- The blocks between two split points, and how their frequencies compare (`find_optimal_split_point` of
-- src/internal/split_placement.rs).
use regalloc.Base.{
  ℕ, ◌<◌, ◌≤◌, ◌≡◌, inl, inr, sym, Bool, true, false, Bool-cases, arith, dec_lt, ℕ_discrete,
}
use mathlib.Core.Path.{subst}
use regalloc.Function.{Function}
use regalloc.SplitPlacement.Scan.{IsTransitive}
use regalloc.SplitPlacement.Layout.{IsLaidOut, from_of, to_of}

-- `>=` compares any two frequencies: none is NaN.
abbrev pub IsTotal : {Freq : Type 0} → (Freq → Freq → Bool) → Type 0
IsTotal {Freq} geq = (a b : Freq) → geq a b ≡ false → geq b a ≡ true

false≢true : {x : Bool} → x ≡ false → x ≡ true → ⊥
false≢true h k = ground arith

module _ {Freq : Type 0} (geq : Freq → Freq → Bool) (tr : IsTransitive geq)
    (total : IsTotal geq) where
  -- `p` is lower than `b`, and `i` is not: `p` is lower than `i`.
  pub lower_than_higher : (p b i : Freq) → geq p b ≡ false → geq i b ≡ true → geq p i ≡ false
  lower_than_higher p b i low high = elim (Bool-cases (geq p i)) [
    | inl e ↦ absurd (false≢true low (tr p i b e high))
    | inr e ↦ e
  ]

  pub lower_trans : (r p i : Freq) → geq r p ≡ false → geq p i ≡ false → geq r i ≡ false
  lower_trans r p i low low' = lower_than_higher r p i low (total p i low')

module _ {Freq : Type 0} (func : Function Freq) (laid : IsLaidOut func) where
  -- The block that an instruction lies in is that of `inst_block`.
  pub inst_block-of_inside :
      (b i : ℕ)
      → b < func.num_blocks
      → i < func.num_insts
      → from_of func b ≤ i
      → i < to_of func b
      → func.inst_block i ≡ b
  inst_block-of_inside b i lt lt' h h' =
      let block_in = laid.block_inside i lt' in
      let inside = laid.inst_inside i lt' in
      elim (dec_lt (func.inst_block i) b) [
        | yes k ↦ absurd (omega (arith, laid.ordered (func.inst_block i) b k lt, inside.1, h))
        | no k ↦ elim (dec_lt b (func.inst_block i)) [
          | yes k' ↦
              absurd (omega (arith, laid.ordered b (func.inst_block i) k' block_in, inside.0, h'))
          | no k' ↦ omega (arith, k, k')
        ]
      ]

  -- Points in order lie in blocks in order.
  pub inst_block_mono :
      (i j : ℕ) → i ≤ j → j < func.num_insts → func.inst_block i ≤ func.inst_block j
  inst_block_mono i j le lt = elim (dec_lt (func.inst_block j) (func.inst_block i)) [
    | yes k ↦ absurd (
        let o =
          laid.ordered (func.inst_block j) (func.inst_block i) k
            (laid.block_inside i (omega arith)) in
        let at_i = laid.inst_inside i (omega arith) in
        let at_j = laid.inst_inside j lt in omega (arith, o, at_i.0, at_j.1, le))
    | no k ↦ omega (arith, k)
  ]

  pub inst_block-before :
      (i p : ℕ)
      → p < func.num_blocks
      → i < func.num_insts
      → i < from_of func p
      → func.inst_block i < p
  inst_block-before i p lt lt' h = elim (dec_lt (func.inst_block i) p) [
    | yes k ↦ k
    | no k ↦ absurd (elim (ℕ_discrete p (func.inst_block i)) [
      | yes e ↦
          let at_i = laid.inst_inside i lt' in
          let f = subst (λ z. from_of func z ≤ i) (sym e) at_i.0 in omega (arith, f, h)
      | no ne ↦
          let o =
            laid.ordered p (func.inst_block i) (omega (arith, k, ne)) (laid.block_inside i lt') in
          let at_i = laid.inst_inside i lt' in omega (arith, o, at_i.0, laid.filled p lt, h)
    ])
  ]

  pub inst_block-after :
      (i p : ℕ)
      → p < func.num_blocks
      → i < func.num_insts
      → to_of func p ≤ i
      → p < func.inst_block i
  inst_block-after i p lt lt' h = elim (dec_lt p (func.inst_block i)) [
    | yes k ↦ k
    | no k ↦ absurd (elim (ℕ_discrete p (func.inst_block i)) [
      | yes e ↦
          let at_i = laid.inst_inside i lt' in
          let f = subst (λ z. i < to_of func z) (sym e) at_i.1 in omega (arith, f, h)
      | no ne ↦
          let o = laid.ordered (func.inst_block i) p (omega (arith, k, ne)) lt in
          let at_i = laid.inst_inside i lt' in omega (arith, o, at_i.1, laid.filled p lt, h)
    ])
  ]
