-- ===== src/SplitPlacement/Scan.antt =====
-- A scan over the blocks (`prepare` of src/internal/split_placement.rs) finds for each block the nearest
-- one with a lower frequency among those scanned before.
use regalloc.Base.{
  ℕ, suc, ◌<◌, ◌≤◌, ◌≡◌, ◌≢◌, inl, inr, refl, sym, ap, ◌∙◌, Bool, true, false, Bool-cases, Option,
  none, some, List, [], ◌∷◌, length, length-set, get_or, get_or-set, store-ok, Returns,
  Returns-bind, arith, ℕ_discrete, dec_lt,
}
use mathlib.Core.Path.{subst}
use regalloc.Function.{Function}
use regalloc.SplitPlacement.{pop_higher, write_lower, scan}

-- What the scan relies on of `>=`: it is transitive.
abbrev pub IsTransitive : {Freq : Type 0} → (Freq → Freq → Bool) → Type 0
IsTransitive {Freq} geq = (a b c : Freq) → geq a b ≡ true → geq b c ≡ true → geq a c ≡ true

module _ {Freq : Type 0} (geq : Freq → Freq → Bool) (tr : IsTransitive geq) (func : Function Freq)
    (time : ℕ → ℕ)
    (time_inj : (p q : ℕ)
      → p < func.num_blocks
      → q < func.num_blocks
      → time p ≡ time q
      → p ≡ q) where
  abbrev pub n : ℕ
  n = func.num_blocks

  abbrev pub freq : ℕ → Freq
  freq = func.block_frequency

  -- The blocks scanned at times from `t` on and before block `b` are not lower than `b`.
  abbrev pub NotLower : ℕ → ℕ → Type 0
  NotLower t b = (q : ℕ) → q < n → t ≤ time q → time q < time b → geq (freq q) (freq b) ≡ true

  -- The nearest block scanned before `b` with a lower frequency, if any.
  abbrev pub IsNearest : ℕ → Option ℕ → Type 0
  IsNearest b none = NotLower 0 b
  IsNearest b (some p) =
      (p < n) × (time p < time b) × (geq (freq p) (freq b) ≡ false) × NotLower (suc (time p)) b

  abbrev pub above : List (ℕ × Freq) → ℕ
  above [] = 0
  above ((p, f) ∷ stack) = suc (time p)

  -- Between two entries of the stack no block is lower than the upper one.
  abbrev pub Chain : List (ℕ × Freq) → Type 0
  Chain [] = Unit
  Chain ((p, f) ∷ stack) =
      (p < n) × (f ≡ freq p) × (above stack ≤ time p) × NotLower (above stack) p × Chain stack

  record Popped (b : ℕ) (r : List (ℕ × Freq) × Option ℕ) : Type 0 where
    chain : Chain r.0
    order : above r.0 ≤ time b
    gap : NotLower (above r.0) b
    nearest : IsNearest b r.1

  pop_higher-Popped :
      (b : ℕ) (stack : List (ℕ × Freq))
      → Chain stack
      → above stack ≤ time b
      → NotLower (above stack) b
      → Popped b (pop_higher geq (freq b) stack)
  unfolding pop_higher
  pop_higher-Popped b [] c o g = record { chain = tt; order = o; gap = g; nearest = g }
  pop_higher-Popped b ((p, f) ∷ stack) c o g = elim (Bool-cases (geq f (freq b))) [
    | inl e ↦
        let p_high : geq (freq p) (freq b) ≡ true = subst (λ z. geq z (freq b) ≡ true) c.1 e in
        rw (e) (
          pop_higher-Popped b stack c.4 (omega (arith, c.2)) (λ q lt le lt'.
            elim (dec_lt (time q) (time p)) [
              | yes before ↦ tr (freq q) (freq p) (freq b) (c.3 q lt le before) p_high
              | no n' ↦ elim (ℕ_discrete (time q) (time p)) [
                | yes same ↦
                    subst (λ z. geq (freq z) (freq b) ≡ true) (time_inj p q c.0 lt (sym same))
                      p_high
                | no n'' ↦ g q lt (omega (arith, n', n'')) lt'
              ]
            ]))
    | inr e ↦
        let p_low : geq (freq p) (freq b) ≡ false = subst (λ z. geq z (freq b) ≡ false) c.1 e in
        rw (e) (record { chain = c; order = o; gap = g; nearest = (c.0, o, p_low, g) })
  ]

  record Wrote (table : List (Option ℕ)) (b : ℕ) (lower : Option ℕ) (table' : List (Option ℕ))
      : Type 0 where
    size : length table' ≡ length table
    here : get_or table' b none ≡ lower
    others : (c : ℕ) → c ≢ b → get_or table' c none ≡ get_or table c none

  write_lower-Wrote :
      (table : List (Option ℕ)) (b : ℕ) (lower : Option ℕ)
      → b < length table
      → get_or table b none ≡ none
      → Returns (Wrote table b lower) (write_lower geq table b lower)
  unfolding write_lower
  write_lower-Wrote table b none lt e = record { size = refl; here = e; others = λ c ne. refl }
  write_lower-Wrote table b (some p) lt e = rw (store-ok table b (some p) lt) (record {
    size = length-set table b (some p);
    here = get_or-set table b b (some p) none lt ∙ ground arith;
    others = λ c ne. get_or-set table b c (some p) none lt ∙ ground (arith, ne);
  })

  -- The blocks left are those from time `t` on, in turn.
  abbrev pub Scheduled : ℕ → List ℕ → Type 0
  Scheduled t [] = n ≡ t
  Scheduled t (b ∷ rest) = (b < n) × (time b ≡ t) × Scheduled (suc t) rest

  -- The table is right for the blocks scanned before time `t`, and empty for the others.
  pub record RightUntil (t : ℕ) (table : List (Option ℕ)) : Type 0 where
    pub size : length table ≡ n
    pub right : (b : ℕ) → b < n → time b < t → IsNearest b (get_or table b none)
    pub blank : (b : ℕ) → b < n → t ≤ time b → get_or table b none ≡ none

  RightUntil-next :
      (t b : ℕ) (lower : Option ℕ) (table table' : List (Option ℕ))
      → b < n
      → time b ≡ t
      → IsNearest b lower
      → RightUntil t table
      → Wrote table b lower table'
      → RightUntil (suc t) table'
  RightUntil-next t b lower table table' lt e near w wr = record {
    size = wr.size ∙ w.size;
    right = λ c lt' before. elim (ℕ_discrete c b) [
      | yes same ↦
          subst (λ z. IsNearest z (get_or table' z none)) (sym same)
            (subst (IsNearest b) (sym wr.here) near)
      | no ne ↦
          let other : time c ≢ time b = λ k. ne (time_inj c b lt' lt k) in
          subst (IsNearest c) (sym (wr.others c ne)) (w.right c lt' (omega (arith, other)))
    ];
    blank = λ c lt' after.
        let ne : c ≢ b = λ k. absurd (let k' = ap time k in omega arith) in
        wr.others c ne ∙ w.blank c lt' (omega arith);
  }

  pub scan-IsNearest :
      (t : ℕ) (rest : List ℕ) (stack : List (ℕ × Freq)) (table : List (Option ℕ))
      → Scheduled t rest
      → Chain stack
      → above stack ≡ t
      → RightUntil t table
      → Returns (RightUntil n) (scan geq func rest stack table)
  unfolding scan
  scan-IsNearest t [] stack table sch c o w = subst (λ z. RightUntil z table) (sym sch) w
  scan-IsNearest t (b ∷ rest) stack table sch c o w =
      let p =
        pop_higher-Popped b stack c (omega (arith, sch.1))
          (λ q lt le lt'. absurd (omega (arith, sch.1))) in
      let r = pop_higher geq (freq b) stack in
      Returns-bind (Wrote table b r.1) (RightUntil n) (write_lower geq table b r.1)
        (λ table'. scan geq func rest ((b, freq b) ∷ r.0) table')
        (λ table' wr.
          scan-IsNearest (suc t) rest ((b, freq b) ∷ r.0) table' sch.2
            (sch.0, refl, p.order, p.gap, p.chain) (ap suc sch.1)
            (RightUntil-next t b r.1 table table' sch.0 sch.1 p.nearest w wr))
        (write_lower-Wrote table b r.1 (rw (w.size) sch.0) (w.blank b sch.0 (omega (arith, sch.1))))
