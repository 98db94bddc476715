-- ===== src/EntitySet/Count.antt =====
-- `count` and `is_empty` of `EntitySet` (src/entity/set.rs).
use regalloc.Base.{
  ℕ, zero, suc, ◌+◌, ◌*◌, ◌/◌, ◌≡◌, ◌↔◌, inl, inr, refl, ap, ◌∙◌, ◌==◌, true, Bool-cases, List, [],
  ◌∷◌, ◌++◌, length, length-append, arith, ==_iff,
}
use regalloc.Function.{count_up}
use regalloc.EntitySet.{EntitySet, contains, count_ones, count, is_empty}
use regalloc.EntitySet.Contents.{AreWords}
use regalloc.EntitySet.Iterate.{select, ones, all_ones, ones-zero, ones-lowest}
use regalloc.EntitySet.Walk.{all_ones-elements}

count_ones-length : (n base word : ℕ) → count_ones n word ≡ length (ones n base word)
unfolding count_ones ones
count_ones-length zero base word = refl
count_ones-length (suc n) base word = ground (arith, count_ones-length n (suc base) (word / 2))

count-length : (base : ℕ) (words : List ℕ) → count words ≡ length (all_ones base words)
unfolding count all_ones
count-length base [] = refl
count-length base (word ∷ words) = omega (
  arith,
  count_ones-length 64 base word,
  count-length (base + 64) words,
  length-append (ones 64 base word) (all_ones (base + 64) words),
)

append-nil-left : (xs ys : List ℕ) → xs ++ ys ≡ [] → xs ≡ []
append-nil-left [] ys e = refl
append-nil-left (x ∷ xs) ys e = cc

is_empty-all_ones :
    (base : ℕ) (words : List ℕ)
    → AreWords words
    → (is_empty words ≡ true) ↔ (all_ones base words ≡ [])
unfolding is_empty all_ones
is_empty-all_ones base [] h = (λ e. refl, λ e. refl)
is_empty-all_ones base (word ∷ words) h =
    let rest = is_empty-all_ones (base + 64) words h.1 in
    elim (Bool-cases (word == 0)) [
      | inl z ↦
          let none_here : ones 64 base word ≡ [] =
            ap (ones 64 base) ((==_iff word 0).0 z) ∙ ones-zero 64 base in
          rw (z, none_here) rest
      | inr nz ↦
          let some_here = ones-lowest 64 base word h.0 (λ k. ground (arith, nz, k)) in
          rw (nz) (
            λ e. cc,
            λ e.
                let gone = append-nil-left (ones 64 base word) (all_ones (base + 64) words) e in cc,
          )
    ]

-- `count` is the number of elements that the set contains, and `is_empty` tells whether there are none.
pub count-is_empty :
    (s : EntitySet)
    → AreWords s.storage
    → (count s.storage ≡ length (select (contains s) (count_up 0 (64 * length s.storage))))
      × ((is_empty s.storage ≡ true)
          ↔ (select (contains s) (count_up 0 (64 * length s.storage)) ≡ []))
count-is_empty s h = (
  count-length 0 s.storage ∙ ap length (all_ones-elements s),
  rw (← all_ones-elements s) (is_empty-all_ones 0 s.storage h),
)
