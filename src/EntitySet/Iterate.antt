-- ===== src/EntitySet/Iterate.antt =====
-- The iterator of `EntitySet` (src/entity/set.rs) yields the elements in ascending order.
use regalloc.Base.{
  ℕ, zero, suc, ◌+◌, ◌*◌, ◌/◌, ◌%◌, ◌<◌, ◌≡◌, ◌≢◌, inl, inr, refl, ap, ◌==◌, if◌then◌else◌, Bool,
  false, Bool-cases, List, [], ◌∷◌, ◌++◌, length, get_or, arith,
}
use mathlib.Core.Path.{subst}
use regalloc.Function.{count_up}
use regalloc.EntitySet.{bit_at, without_bit, trailing_zeros}
use regalloc.EntitySet.Bits.{Fits}

-- The elements of a list that pass a test.
abbrev pub select : (ℕ → Bool) → List ℕ → List ℕ
select p [] = []
select p (x ∷ xs) = if p x then x ∷ select p xs else select p xs

-- The places of the bits of a word that are set, from `base` on, and those of a list of words.
unfoldable pub ones : ℕ → ℕ → ℕ → List ℕ
ones zero base word = []
ones (suc n) base word =
    let rest = ones n (suc base) (word / 2) in if word % 2 == 1 then base ∷ rest else rest

unfoldable pub all_ones : ℕ → List ℕ → List ℕ
all_ones base [] = []
all_ones base (word ∷ words) = ones 64 base word ++ all_ones (base + 64) words

pub ones-zero : (n base : ℕ) → ones n base 0 ≡ []
unfolding ones
ones-zero zero base = refl
ones-zero (suc n) base = ones-zero n (suc base)

-- The lowest bit comes first, and the others are those of the word without it.
pub ones-lowest :
    (n base word : ℕ)
    → Fits n word
    → word ≢ 0
    → ones n base word
      ≡ (base + trailing_zeros n word) ∷ ones n base (without_bit (trailing_zeros n word) word)
unfolding ones trailing_zeros without_bit
ones-lowest zero base word f h = absurd (h f)
ones-lowest (suc n) base word f h = elim (Bool-cases (word % 2 == 1)) [
  | inl odd ↦
      let e : word / 2 * 2 / 2 ≡ word / 2 = omega arith in
      let e' : word / 2 * 2 % 2 ≡ 0 = omega arith in
      let e'' : base + 0 ≡ base = omega arith in rw (odd, e, e', e'') refl
  | inr even ↦
      let low = trailing_zeros n (word / 2) in
      let e : (without_bit low (word / 2) * 2 + word % 2) / 2 ≡ without_bit low (word / 2) =
        omega arith in
      let e' : ((without_bit low (word / 2) * 2 + word % 2) % 2 == 1) ≡ false =
        ground (arith, even) in
      let e'' : base + suc low ≡ suc base + low = omega arith in
      rw (even, e, e', e'')
        (ones-lowest n (suc base) (word / 2) f (λ k. h (ground (arith, even, k))))
]

ones-select :
    (p : ℕ → Bool) (n base word : ℕ)
    → ((k : ℕ) → k < n → p (base + k) ≡ bit_at k word)
    → ones n base word ≡ select p (count_up base n)
unfolding ones bit_at
ones-select p zero base word h = refl
ones-select p (suc n) base word h =
    let first : p base ≡ (word % 2 == 1) =
      subst (λ z. p z ≡ (word % 2 == 1)) (omega arith) (h 0 (omega arith)) in
    let rest : ones n (suc base) (word / 2) ≡ select p (count_up (suc base) n) =
      ones-select p n (suc base) (word / 2)
        (λ k lt. subst (λ z. p z ≡ bit_at k (word / 2)) (omega arith) (h (suc k) (omega arith))) in
    rw (first, rest) refl

select-append : (p : ℕ → Bool) (xs ys : List ℕ) → select p (xs ++ ys) ≡ select p xs ++ select p ys
select-append p [] ys = refl
select-append p (x ∷ xs) ys = ground (arith, select-append p xs ys)

count_up-append : (base m n : ℕ) → count_up base (m + n) ≡ count_up base m ++ count_up (base + m) n
count_up-append base zero n =
    let e : base + 0 ≡ base = omega arith in let e' : 0 + n ≡ n = omega arith in rw (e, e') refl
count_up-append base (suc m) n =
    let e : suc m + n ≡ suc (m + n) = omega arith in
    let e' : base + suc m ≡ suc base + m = omega arith in
    rw (e, e') (ap (◌∷◌ base) (count_up-append (suc base) m n))

pub all_ones-select :
    (p : ℕ → Bool) (base : ℕ) (words : List ℕ)
    → ((i k : ℕ) → k < 64 → p (base + i * 64 + k) ≡ bit_at k (get_or words i 0))
    → all_ones base words ≡ select p (count_up base (64 * length words))
unfolding all_ones
all_ones-select p base [] h = refl
all_ones-select p base (word ∷ words) h =
    let size : 64 * suc (length words) ≡ 64 + 64 * length words = omega arith in
    let first : ones 64 base word ≡ select p (count_up base 64) =
      ones-select p 64 base word
        (λ k lt. subst (λ z. p (z + k) ≡ bit_at k word) (omega arith) (h 0 k lt)) in
    let rest = all_ones-select p (base + 64) words (λ i k lt.
      subst (λ z. p (z + k) ≡ bit_at k (get_or words i 0)) (omega arith) (h (suc i) k lt)) in
    rw
      (
        size,
        count_up-append base 64 (64 * length words),
        select-append p (count_up base 64) (count_up (base + 64) (64 * length words)),
        ← first,
        ← rest,
      )
      refl
