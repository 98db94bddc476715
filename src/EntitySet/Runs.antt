-- ===== src/EntitySet/Runs.antt =====
-- Runs of bits that are set in a word, and shifts that keep the highest bit (src/entity/set.rs).
use regalloc.Base.{
  ℕ, zero, suc, ◌+◌, ◌*◌, ◌/◌, ◌%◌, ◌<◌, ◌≤◌, ◌≡◌, inl, inr, ◌∙◌, ◌==◌, if◌then◌else◌, true, false,
  Bool-cases, arith, ℕ_discrete,
}
use regalloc.EntitySet.{bit_at, trailing_ones, full, halve_signed, shift_signed}
use regalloc.EntitySet.Bits.{Fits}

-- The bits of a word from `k` on and below `n` are set.
abbrev pub SetFrom : ℕ → ℕ → ℕ → Type 0
SetFrom k n word = (j : ℕ) → k ≤ j → j < n → bit_at j word ≡ true

pub bit_at-full : (n j : ℕ) → j < n → bit_at j (full n) ≡ true
unfolding bit_at full
bit_at-full zero j lt = absurd (omega arith)
bit_at-full (suc n) zero lt = ground arith
bit_at-full (suc n) (suc j) lt =
    let e : (full n * 2 + 1) / 2 ≡ full n = omega arith in rw (e) (bit_at-full n j (omega arith))

pub SetFrom-full : (n word : ℕ) → Fits n word → SetFrom 0 n word → word ≡ full n
unfolding bit_at full
SetFrom-full zero word f h = f
SetFrom-full (suc n) word f h =
    let low : (word % 2 == 1) ≡ true = h 0 (omega arith) (omega arith) in
    let high = SetFrom-full n (word / 2) f (λ j le lt. h (suc j) (omega arith) (omega arith)) in
    ground (arith, low, high)

bit_at-halve_signed :
    (n j word : ℕ)
    → j < suc n
    → bit_at j (halve_signed (suc n) word) ≡ (if j == n then bit_at n word else bit_at (suc j) word)
unfolding bit_at halve_signed
bit_at-halve_signed zero zero word lt = ground arith
bit_at-halve_signed zero (suc j) word lt = absurd (omega arith)
bit_at-halve_signed (suc n) zero word lt = ground arith
bit_at-halve_signed (suc n) (suc j) word lt =
    let e : (halve_signed (suc n) (word / 2) * 2 + word / 2 % 2) / 2
        ≡ halve_signed (suc n) (word / 2) =
      omega arith in
    rw (e) (ground (arith, bit_at-halve_signed n j (word / 2)))

halve_signed-Fits : (n word : ℕ) → Fits (suc n) word → Fits (suc n) (halve_signed (suc n) word)
unfolding halve_signed
halve_signed-Fits zero word f = f
halve_signed-Fits (suc n) word f =
    let e : (halve_signed (suc n) (word / 2) * 2 + word / 2 % 2) / 2
        ≡ halve_signed (suc n) (word / 2) =
      omega arith in
    rw (e) (halve_signed-Fits n (word / 2) f)

pub shift_signed-Fits :
    (n k word : ℕ) → Fits (suc n) word → Fits (suc n) (shift_signed (suc n) k word)
unfolding shift_signed
shift_signed-Fits n zero word f = f
shift_signed-Fits n (suc k) word f =
    shift_signed-Fits n k (halve_signed (suc n) word) (halve_signed-Fits n word f)

-- The shifted word has all bits where the word has them from `k` on, and only there.
pub shift_signed-SetFrom :
    (n k word : ℕ)
    → k < suc n
    → SetFrom k (suc n) word
    → SetFrom 0 (suc n) (shift_signed (suc n) k word)
unfolding shift_signed
shift_signed-SetFrom n zero word lt h = h
shift_signed-SetFrom n (suc k) word lt h =
    shift_signed-SetFrom n k (halve_signed (suc n) word) (omega arith) (λ j le lt'.
      bit_at-halve_signed n j word lt' ∙ elim (ℕ_discrete j n) [
        | yes e ↦ let top = h n (omega arith) (omega arith) in ground (arith, e, top)
        | no ne ↦ let up = h (suc j) (omega arith) (omega (arith, ne)) in ground (arith, ne, up)
      ])

pub SetFrom-shift_signed :
    (n k word : ℕ) → SetFrom 0 (suc n) (shift_signed (suc n) k word) → SetFrom k (suc n) word
unfolding shift_signed
SetFrom-shift_signed n zero word h j le lt = h j le lt
SetFrom-shift_signed n (suc k) word h zero le lt = absurd (omega arith)
SetFrom-shift_signed n (suc k) word h (suc j) le lt =
    let below =
      SetFrom-shift_signed n k (halve_signed (suc n) word) h j (omega arith) (omega arith) in
    let at = bit_at-halve_signed n j word (omega arith) in ground (arith, below, at)

-- `trailing_ones` counts the bits that are set before the first that is not.
pub record IsRun (n word count : ℕ) : Type 0 where
  pub within : count ≤ n
  pub set_below : (j : ℕ) → j < count → bit_at j word ≡ true
  pub clear_at : count < n → bit_at count word ≡ false

below_odd :
    (word count : ℕ)
    → (word % 2 == 1) ≡ true
    → ((j : ℕ) → j < count → bit_at j (word / 2) ≡ true)
    → (j : ℕ) → j < suc count
    → bit_at j word ≡ true
unfolding bit_at
below_odd word count odd rest zero lt = odd
below_odd word count odd rest (suc j) lt = rest j (omega arith)

pub trailing_ones-IsRun : (n word : ℕ) → IsRun n word (trailing_ones n word)
unfolding trailing_ones bit_at
trailing_ones-IsRun zero word = record {
  within = omega arith;
  set_below = λ j lt. absurd (omega arith);
  clear_at = λ lt. absurd (omega arith);
}
trailing_ones-IsRun (suc n) word = elim (Bool-cases (word % 2 == 1)) [
  | inl odd ↦
      let w = trailing_ones-IsRun n (word / 2) in
      rw (odd) (record {
        within = omega (arith, w.within);
        set_below = below_odd word (trailing_ones n (word / 2)) odd w.set_below;
        clear_at = λ lt. w.clear_at (omega arith);
      })
  | inr even ↦ rw (even) (record {
    within = omega arith;
    set_below = λ j lt. absurd (omega arith);
    clear_at = λ lt. even;
  })
]
