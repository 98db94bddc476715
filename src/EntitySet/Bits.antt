-- ===== src/EntitySet/Bits.antt =====
-- The bits of a word (src/entity/set.rs).
use regalloc.Base.{
  ℕ, zero, suc, ◌+◌, ◌*◌, ◌/◌, ◌%◌, ◌<◌, ◌≡◌, ◌≢◌, inl, inr, refl, ◌==◌, if◌then◌else◌, true, false,
  Bool-cases, arith,
}
use regalloc.EntitySet.{bit_at, with_bit, without_bit, shift_right, trailing_zeros}

-- A word of `n` bits.
abbrev pub Fits : ℕ → ℕ → Type 0
Fits zero word = word ≡ 0
Fits (suc n) word = Fits n (word / 2)

pub bit_at-with_bit :
    (k j word : ℕ) → bit_at j (with_bit k word) ≡ (if k == j then true else bit_at j word)
unfolding bit_at with_bit
bit_at-with_bit zero zero word = ground arith
bit_at-with_bit zero (suc j) word =
    let e : (word / 2 * 2 + 1) / 2 ≡ word / 2 = omega arith in rw (e) (ground arith)
bit_at-with_bit (suc k) zero word = ground arith
bit_at-with_bit (suc k) (suc j) word =
    let e : (with_bit k (word / 2) * 2 + word % 2) / 2 ≡ with_bit k (word / 2) = omega arith in
    rw (e) (ground (arith, bit_at-with_bit k j (word / 2)))

pub bit_at-without_bit :
    (k j word : ℕ) → bit_at j (without_bit k word) ≡ (if k == j then false else bit_at j word)
unfolding bit_at without_bit
bit_at-without_bit zero zero word = ground arith
bit_at-without_bit zero (suc j) word =
    let e : word / 2 * 2 / 2 ≡ word / 2 = omega arith in rw (e) (ground arith)
bit_at-without_bit (suc k) zero word = ground arith
bit_at-without_bit (suc k) (suc j) word =
    let e : (without_bit k (word / 2) * 2 + word % 2) / 2 ≡ without_bit k (word / 2) =
      omega arith in
    rw (e) (ground (arith, bit_at-without_bit k j (word / 2)))

pub with_bit-Fits : (n k word : ℕ) → k < n → Fits n word → Fits n (with_bit k word)
unfolding with_bit
with_bit-Fits zero k word h f = absurd (omega arith)
with_bit-Fits (suc n) zero word h f =
    let e : (word / 2 * 2 + 1) / 2 ≡ word / 2 = omega arith in rw (e) f
with_bit-Fits (suc n) (suc k) word h f =
    let e : (with_bit k (word / 2) * 2 + word % 2) / 2 ≡ with_bit k (word / 2) = omega arith in
    rw (e) (with_bit-Fits n k (word / 2) (omega arith) f)

pub without_bit-Fits : (n k word : ℕ) → k < n → Fits n word → Fits n (without_bit k word)
unfolding without_bit
without_bit-Fits zero k word h f = absurd (omega arith)
without_bit-Fits (suc n) zero word h f =
    let e : word / 2 * 2 / 2 ≡ word / 2 = omega arith in rw (e) f
without_bit-Fits (suc n) (suc k) word h f =
    let e : (without_bit k (word / 2) * 2 + word % 2) / 2 ≡ without_bit k (word / 2) =
      omega arith in
    rw (e) (without_bit-Fits n k (word / 2) (omega arith) f)

pub zero-Fits : (n : ℕ) → Fits n 0
zero-Fits zero = refl
zero-Fits (suc n) = zero-Fits n

pub Fits-half : (n word : ℕ) → Fits n word → Fits n (word / 2)
Fits-half zero word f = omega arith
Fits-half (suc n) word f = Fits-half n (word / 2) f

pub shift_right-Fits : (n k word : ℕ) → Fits n word → Fits n (shift_right k word)
unfolding shift_right
shift_right-Fits n zero word f = f
shift_right-Fits n (suc k) word f = shift_right-Fits n k (word / 2) (Fits-half n word f)

pub bit_at-shift_right : (k j word : ℕ) → bit_at j (shift_right k word) ≡ bit_at (k + j) word
unfolding bit_at shift_right
bit_at-shift_right zero j word = let e : 0 + j ≡ j = omega arith in rw (e) refl
bit_at-shift_right (suc k) j word =
    let e : suc k + j ≡ suc (k + j) = omega arith in rw (e) (bit_at-shift_right k j (word / 2))

pub bit_at-zero : (k : ℕ) → bit_at k 0 ≡ false
unfolding bit_at
bit_at-zero zero = refl
bit_at-zero (suc k) = bit_at-zero k

-- A word of `n` bits has none from the `n`-th on.
pub Fits-bit_at : (n k word : ℕ) → Fits n word → n < suc k → bit_at k word ≡ false
unfolding bit_at
Fits-bit_at zero k word f h = rw (f) (bit_at-zero k)
Fits-bit_at (suc n) zero word f h = absurd (omega arith)
Fits-bit_at (suc n) (suc k) word f h = Fits-bit_at n k (word / 2) f (omega arith)

-- `trailing_zeros` is the place of the lowest bit that is set.
pub record IsLowest (n word low : ℕ) : Type 0 where
  pub inside : low < n
  pub is_set : bit_at low word ≡ true
  pub clear_below : (j : ℕ) → j < low → bit_at j word ≡ false

below_even :
    (word low : ℕ)
    → (word % 2 == 1) ≡ false
    → ((j : ℕ) → j < low → bit_at j (word / 2) ≡ false)
    → (j : ℕ) → j < suc low
    → bit_at j word ≡ false
unfolding bit_at
below_even word low even rest zero lt = even
below_even word low even rest (suc j) lt = rest j (omega arith)

pub trailing_zeros-IsLowest :
    (n word : ℕ) → Fits n word → word ≢ 0 → IsLowest n word (trailing_zeros n word)
unfolding trailing_zeros bit_at
trailing_zeros-IsLowest zero word f h = absurd (h f)
trailing_zeros-IsLowest (suc n) word f h = elim (Bool-cases (word % 2 == 1)) [
  | inl odd ↦
      rw (odd)
        (record { inside = omega arith; is_set = odd; clear_below = λ j lt. absurd (omega arith) })
  | inr even ↦
      let w = trailing_zeros-IsLowest n (word / 2) f (λ e. h (ground (arith, even, e))) in
      rw (even) (record {
        inside = omega (arith, w.inside);
        is_set = w.is_set;
        clear_below = below_even word (trailing_zeros n (word / 2)) even w.clear_below;
      })
]
