-- ===== src/Function/Dominance.antt =====
-- `block_dominates` (src/function.rs) walks the dominator tree.
use regalloc.Base.{
  ℕ, zero, suc, ◌<◌, ◌≤◌, ◌≡◌, ◌↔◌, refl, sym, ap, ◌∙◌, ◌==◌, Bool, true, false, Option, none, some,
  ok, Returns, Returns-map, arith, dec_lt, ==_iff,
}
use mathlib.Core.Path.{subst}
use regalloc.Function.{Function, dominates_loop, block_dominates}

-- `a` is `b` or an ancestor of `b` in the dominator tree.
pub data Dominates {Freq : Type 0} (func : Function Freq) (a : ℕ) : ℕ → Type 0 where
  itself : Dominates func a a
  above :
      {b idom : ℕ}
      → func.block_immediate_dominator b ≡ some idom
      → Dominates func a idom
      → Dominates func a b

-- Blocks are numbered in an order that is topological for the dominator tree.
abbrev pub IsTopological : {Freq : Type 0} → Function Freq → Type 0
IsTopological func = (b idom : ℕ) → func.block_immediate_dominator b ≡ some idom → idom < b

some-inj : {x y : ℕ} → ◌≡◌ {A = Option ℕ} (some x) (some y) → x ≡ y
some-inj {x} {y} e = ap (λ (o : Option ℕ). elim o [ none ↦ x | some z ↦ z ]) e

loop_stop :
    {Freq : Type 0} (func : Function Freq) (fuel a b : ℕ)
    → ¬ (a < b)
    → dominates_loop func (suc fuel) a b ≡ ok (a == b)
unfolding dominates_loop
loop_stop func fuel a b n = ground (arith, n)

module _ {Freq : Type 0} (func : Function Freq) (top : IsTopological func) where
  Dominates-le : {a b : ℕ} → Dominates func a b → a ≤ b
  Dominates-le itself = omega arith
  Dominates-le (above {b} {idom} e d) = omega (arith, Dominates-le d, top b idom e)

  Dominates-inv :
      {a b : ℕ}
      → Dominates func a b
      → a < b
      → (idom : ℕ) × (func.block_immediate_dominator b ≡ some idom) × Dominates func a idom
  Dominates-inv itself h = absurd (omega arith)
  Dominates-inv (above {b} {idom} e d) h = (idom, e, d)

  abbrev Answers : ℕ → ℕ → Bool → Type 0
  Answers a b answer = (answer ≡ true) ↔ Dominates func a b

  -- The loop past the parent of `b`.
  loop_up :
      (fuel a b : ℕ) (o : Option ℕ)
      → a < b
      → func.block_immediate_dominator b ≡ o
      → ((idom : ℕ) → o ≡ some idom → Returns (Answers a idom) (dominates_loop func fuel a idom))
      → Returns (Answers a b) (dominates_loop func (suc fuel) a b)
  unfolding dominates_loop
  loop_up fuel a b none lt e ih =
      let none_up : dominates_loop func (suc fuel) a b ≡ ok false = ground (arith, lt, e) in
      rw (none_up) (
        λ h. ground (arith, h),
        λ d. absurd (let (idom, k, rest) = Dominates-inv d lt in ground (arith, e, k)),
      )
  loop_up fuel a b (some idom) lt e ih =
      let up : dominates_loop func (suc fuel) a b ≡ dominates_loop func fuel a idom =
        ground (arith, lt, e) in
      rw (up) (
        Returns-map (Answers a idom) (Answers a b) (dominates_loop func fuel a idom)
          (λ answer w. (
            λ h. above e (w.0 h),
            λ d.
                let (idom', k, rest) = Dominates-inv d lt in
                let same : idom' ≡ idom = some-inj (sym k ∙ e) in
                w.1 (subst (Dominates func a) same rest),
          ))
          (ih idom refl))

  loop-Answers : (fuel a b : ℕ) → b < fuel → Returns (Answers a b) (dominates_loop func fuel a b)
  loop-Answers zero a b h = absurd (omega arith)
  loop-Answers (suc fuel) a b h = elim (dec_lt a b) [
    | yes lt ↦
        loop_up fuel a b (func.block_immediate_dominator b) lt refl
          (λ idom e. loop-Answers fuel a idom (omega (arith, top b idom e, h)))
    | no n ↦
        let stop : dominates_loop func (suc fuel) a b ≡ ok (a == b) = loop_stop func fuel a b n in
        rw (stop) (
          λ e. subst (Dominates func a) ((==_iff a b).0 e) itself,
          λ d. (==_iff a b).1 (omega (arith, Dominates-le d, n)),
        )
  ]

-- Where blocks are numbered topologically for the dominator tree, `block_dominates` returns, and
-- answers true exactly where the first block is the second one or above it in the tree.
pub block_dominates-Dominates :
    {Freq : Type 0} (func : Function Freq) (a b : ℕ)
    → IsTopological func
    → Returns (λ answer. (answer ≡ true) ↔ Dominates func a b) (block_dominates func a b)
unfolding block_dominates
block_dominates-Dominates func a b top = loop-Answers func top (suc b) a b (omega arith)
