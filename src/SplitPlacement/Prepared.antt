-- ===== src/SplitPlacement/Prepared.antt =====
-- What `prepare` (src/internal/split_placement.rs) finds: the nearest lower blocks on both sides.
use regalloc.Base.{
  ℕ, zero, suc, ◌+◌, ◌-◌, ◌<◌, ◌≤◌, ◌≡◌, refl, sym, ap, ◌∙◌, Bool, true, false, Option, none, some,
  [], ◌∷◌, ◌++◌, length, get_or, replicate, length-replicate, ok, ◌>>=◌, Returns, Returns-bind,
  arith,
}
use mathlib.Core.Path.{subst}
use mathlib.Core.List.{reverse, reverse-append}
use regalloc.Function.{Function, count_up, blocks}
use regalloc.SplitPlacement.{SplitPlacement, scan, prepare}
use regalloc.SplitPlacement.Scan.{IsTransitive, IsNearest, Scheduled, RightUntil, scan-IsNearest}

count_up-last : (base k : ℕ) → count_up base (suc k) ≡ count_up base k ++ (base + k) ∷ []
count_up-last base zero = let e : base + 0 ≡ base = omega arith in rw (e) refl
count_up-last base (suc k) =
    let e : base + suc k ≡ suc base + k = omega arith in
    rw (e) (ap (◌∷◌ base) (count_up-last (suc base) k))

get_or-replicate-none : (n i : ℕ) → get_or {A = Option ℕ} (replicate n none) i none ≡ none
get_or-replicate-none zero i = refl
get_or-replicate-none (suc n) zero = refl
get_or-replicate-none (suc n) (suc i) = get_or-replicate-none n i

module _ {Freq : Type 0} (geq : Freq → Freq → Bool) (func : Function Freq) where
  abbrev freq : ℕ → Freq
  freq = func.block_frequency

  -- The blocks from `lo` up to and without `hi` are not lower than `b`.
  abbrev pub NoneLower : ℕ → ℕ → ℕ → Type 0
  NoneLower lo hi b = (q : ℕ) → lo ≤ q → q < hi → geq (freq q) (freq b) ≡ true

  -- The last block before `b` with a lower frequency, and the first one after it.
  abbrev pub IsPrevLower : ℕ → Option ℕ → Type 0
  IsPrevLower b none = NoneLower 0 b b
  IsPrevLower b (some p) = (p < b) × (geq (freq p) (freq b) ≡ false) × NoneLower (suc p) b b

  abbrev pub IsNextLower : ℕ → Option ℕ → Type 0
  IsNextLower b none = NoneLower (suc b) func.num_blocks b
  IsNextLower b (some p) =
      (b < p) × (p < func.num_blocks) × (geq (freq p) (freq b) ≡ false) × NoneLower (suc b) p b

  pub record Prepared (s : SplitPlacement) : Type 0 where
    pub prev_size : length s.prev_lower_freq ≡ func.num_blocks
    pub next_size : length s.next_lower_freq ≡ func.num_blocks
    pub prev : (b : ℕ) → b < func.num_blocks → IsPrevLower b (get_or s.prev_lower_freq b none)
    pub next : (b : ℕ) → b < func.num_blocks → IsNextLower b (get_or s.next_lower_freq b none)

  module _ (tr : IsTransitive geq) where
    abbrev n : ℕ
    n = func.num_blocks

    abbrev forward : ℕ → ℕ
    forward b = b

    abbrev backward : ℕ → ℕ
    backward b = n - suc b

    forward_inj : (p q : ℕ) → p < n → q < n → forward p ≡ forward q → p ≡ q
    forward_inj p q lt lt' e = e

    backward_inj : (p q : ℕ) → p < n → q < n → backward p ≡ backward q → p ≡ q
    backward_inj p q lt lt' e = omega arith

    forward-Scheduled :
        (t k : ℕ) → t + k ≡ n → Scheduled geq tr func forward forward_inj t (count_up t k)
    forward-Scheduled t zero e = omega arith
    forward-Scheduled t (suc k) e = (omega arith, refl, forward-Scheduled (suc t) k (omega arith))

    backward-Scheduled :
        (t k : ℕ)
        → t + k ≡ n
        → Scheduled geq tr func backward backward_inj t (reverse (count_up 0 k))
    backward-Scheduled t zero e = omega arith
    backward-Scheduled t (suc k) e =
        let last : reverse (count_up 0 (suc k)) ≡ k ∷ reverse (count_up 0 k) =
          ap reverse (count_up-last 0 k)
          ∙ reverse-append (count_up 0 k) ((0 + k) ∷ [])
          ∙ ap (λ z. z ∷ reverse (count_up 0 k)) (omega arith) in
        subst (Scheduled geq tr func backward backward_inj t) (sym last)
          (omega arith, omega arith, backward-Scheduled (suc t) k (omega arith))

    blank_table :
        (time : ℕ → ℕ) (inj : (p q : ℕ) → p < n → q < n → time p ≡ time q → p ≡ q)
        → RightUntil geq tr func time inj 0 (replicate n none)
    blank_table time inj = record {
      size = length-replicate n none;
      right = λ b lt before. absurd (omega arith);
      blank = λ b lt after. get_or-replicate-none n b;
    }

    prev-IsPrevLower :
        (b : ℕ) (o : Option ℕ)
        → b < n
        → IsNearest geq tr func forward forward_inj b o
        → IsPrevLower b o
    prev-IsPrevLower b none lt h = λ q le lt'. h q (omega arith) le lt'
    prev-IsPrevLower b (some p) lt h = (h.1, h.2, λ q le lt'. h.3 q (omega arith) le lt')

    next-IsNextLower :
        (b : ℕ) (o : Option ℕ)
        → b < n
        → IsNearest geq tr func backward backward_inj b o
        → IsNextLower b o
    next-IsNextLower b none lt h = λ q le lt'. h q lt' (omega arith) (omega arith)
    next-IsNextLower b (some p) lt h = (
      omega (arith, h.1, h.0),
      h.0,
      h.2,
      λ q le lt'. h.3 q (omega (arith, h.0)) (omega (arith, h.0)) (omega arith),
    )

    -- With a transitive `>=`, `prepare` returns, and its tables hold for each block the last block
    -- before it and the first one after it with a lower frequency, or `None` where there is none.
    pub prepare-Prepared : Returns Prepared (prepare geq func)
    unfolding prepare blocks
    prepare-Prepared =
        Returns-bind (RightUntil geq tr func forward forward_inj n) Prepared
          (scan geq func (count_up 0 n) [] (replicate n none))
          (λ prev. scan geq func (reverse (count_up 0 n)) [] (replicate n none) >>= λ next.
            ok (record { next_lower_freq = next; prev_lower_freq = prev }))
          (λ prev w.
            Returns-bind (RightUntil geq tr func backward backward_inj n) Prepared
              (scan geq func (reverse (count_up 0 n)) [] (replicate n none))
              (λ next. ok (record { next_lower_freq = next; prev_lower_freq = prev }))
              (λ next w'. record {
                prev_size = w.size;
                next_size = w'.size;
                prev = λ b lt. prev-IsPrevLower b (get_or prev b none) lt (w.right b lt lt);
                next = λ b lt.
                    next-IsNextLower b (get_or next b none) lt (w'.right b lt (omega arith));
              })
              (scan-IsNearest geq tr func backward backward_inj 0 (reverse (count_up 0 n)) []
                (replicate n none) (backward-Scheduled 0 n (omega arith)) tt refl
                (blank_table backward backward_inj)))
          (scan-IsNearest geq tr func forward forward_inj 0 (count_up 0 n) [] (replicate n none)
            (forward-Scheduled 0 n (omega arith)) tt refl (blank_table forward forward_inj))
