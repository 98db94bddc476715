-- ===== src/EntitySet/Walk.antt =====
-- `Iter::next` of `EntitySet` (src/entity/set.rs), step by step.
use regalloc.Base.{
  ℕ, zero, suc, ◌+◌, ◌-◌, ◌*◌, ◌/◌, ◌%◌, ◌<◌, ◌≤◌, ◌≡◌, ◌≢◌, inl, inr, refl, sym, ap, ◌∙◌, ◌==◌,
  Bool, Bool-cases, List, [], ◌∷◌, ◌++◌, Option, none, some, length, drop, get_or, Run, ok, ◌>>=◌,
  arith, ==_iff,
}
use regalloc.Function.{count_up}
use regalloc.EntitySet.{
  EntitySet, Iter, without_bit, trailing_zeros, bit_at, contains, iter, refill, take_lowest, next,
  collect,
}
use regalloc.EntitySet.Bits.{Fits, trailing_zeros-IsLowest, without_bit-Fits, zero-Fits}
use regalloc.EntitySet.Contents.{AreWords, contains-eq-bit_at}
use regalloc.EntitySet.Iterate.{select, ones, all_ones, ones-zero, ones-lowest, all_ones-select}

-- What an iterator is still to yield.
abbrev pending : EntitySet → Iter → List ℕ
pending s it =
    ones 64 ((it.next_index - 1) * 64) it.current_word
    ++ all_ones (it.next_index * 64) (drop it.next_index s.storage)

-- A refill ends the iteration where nothing is pending, and finds a word with a bit otherwise.
data Refilled (s : EntitySet) (it : Iter) : Option Iter → Type 0 where
  ended : pending s it ≡ [] → Refilled s it none
  ready :
      (it' : Iter)
      → it'.current_word ≢ 0
      → Fits 64 it'.current_word
      → pending s it ≡ pending s it'
      → Refilled s it (some it')

-- `next` yields what is pending first.
data Yields (s : EntitySet) (it : Iter) : Option (ℕ × Iter) → Type 0 where
  done : pending s it ≡ [] → Yields s it none
  more :
      (x : ℕ) (it' : Iter)
      → Fits 64 it'.current_word
      → pending s it ≡ x ∷ pending s it'
      → Yields s it (some (x, it'))

pub drop-suc : (xs ys : List ℕ) (i x : ℕ) → drop i xs ≡ x ∷ ys → drop (suc i) xs ≡ ys
drop-suc [] ys zero x e = cc
drop-suc [] ys (suc i) x e = cc
drop-suc (z ∷ xs) ys zero x e = cc
drop-suc (z ∷ xs) ys (suc i) x e = drop-suc xs ys i x e

Refilled-from :
    (s : EntitySet) (it it' : Iter) {r : Option Iter}
    → pending s it ≡ pending s it'
    → Refilled s it' r
    → Refilled s it r
Refilled-from s it it' e (ended k) = ended (e ∙ k)
Refilled-from s it it' e (ready it'' ne f k) = ready it'' ne f (e ∙ k)

refill-Refilled :
    (s : EntitySet) (words : List ℕ) (it : Iter)
    → drop it.next_index s.storage ≡ words
    → AreWords words
    → Fits 64 it.current_word
    → Refilled s it (refill words it)
unfolding refill all_ones
refill-Refilled s [] it e h f = elim (Bool-cases (it.current_word == 0)) [
  | inl z ↦
      let z' : it.current_word ≡ 0 = (==_iff it.current_word 0).0 z in
      rw (z) (ended (rw (z', e, ones-zero 64 ((it.next_index - 1) * 64)) refl))
  | inr nz ↦ rw (nz) (ready it (λ k. ground (arith, nz, k)) f refl)
]
refill-Refilled s (word ∷ words) it e h f = elim (Bool-cases (it.current_word == 0)) [
  | inl z ↦
      let z' : it.current_word ≡ 0 = (==_iff it.current_word 0).0 z in
      let it' : Iter = record { current_word = word; next_index = suc it.next_index } in
      let rest = drop-suc s.storage words it.next_index word e in
      let base : suc it.next_index - 1 ≡ it.next_index = omega arith in
      let base' : it.next_index * 64 + 64 ≡ suc it.next_index * 64 = omega arith in
      let same : pending s it ≡ pending s it' =
        rw (z', e, ones-zero 64 ((it.next_index - 1) * 64), rest, base, base') refl in
      rw (z) (Refilled-from s it it' same (refill-Refilled s words it' rest h.1 h.0))
  | inr nz ↦ rw (nz) (ready it (λ k. ground (arith, nz, k)) f refl)
]

take_lowest-Yields :
    (s : EntitySet) (it : Iter) {r : Option Iter} → Refilled s it r → Yields s it (take_lowest r)
unfolding take_lowest
take_lowest-Yields s it (ended k) = done k
take_lowest-Yields s it (ready it' ne f k) =
    let low = trailing_zeros-IsLowest 64 it'.current_word f ne in
    let word = it'.current_word in
    more ((it'.next_index - 1) * 64 + trailing_zeros 64 word)
      (record it' { current_word = without_bit (trailing_zeros 64 word) word })
      (without_bit-Fits 64 (trailing_zeros 64 word) word low.inside f)
      (k
        ∙ ap (λ z. z ++ all_ones (it'.next_index * 64) (drop it'.next_index s.storage))
            (ones-lowest 64 ((it'.next_index - 1) * 64) word f ne))

pub AreWords-drop : (i : ℕ) (words : List ℕ) → AreWords words → AreWords (drop i words)
AreWords-drop zero words h = h
AreWords-drop (suc i) [] h = h
AreWords-drop (suc i) (w ∷ words) h = AreWords-drop i words h.1

next-Yields :
    (s : EntitySet) (it : Iter)
    → AreWords s.storage
    → Fits 64 it.current_word
    → Yields s it (next s it)
unfolding next
next-Yields s it h f = take_lowest-Yields s it (
    refill-Refilled s (drop it.next_index s.storage) it refl
      (AreWords-drop it.next_index s.storage h) f)

collect_step :
    (fuel : ℕ) (s : EntitySet) (it : Iter) {r : Option (ℕ × Iter)}
    → length (pending s it) < suc fuel
    → ((it' : Iter)
        → Fits 64 it'.current_word
        → length (pending s it') < fuel
        → collect fuel s it' ≡ ok (pending s it'))
    → Yields s it r
    → (elim r as (λ r. Run (List ℕ)) [
      | none ↦ ok []
      | some (entity, it') ↦ collect fuel s it' >>= λ rest. ok (entity ∷ rest)
    ])
      ≡ ok (pending s it)
collect_step fuel s it lt ih (done k) = ap ok (sym k)
collect_step fuel s it lt ih (more x it' f k) = rw (ih it' f (omega (arith, ap length k)), k) refl

collect-pending :
    (fuel : ℕ) (s : EntitySet) (it : Iter)
    → AreWords s.storage
    → Fits 64 it.current_word
    → length (pending s it) < fuel
    → collect fuel s it ≡ ok (pending s it)
unfolding collect
collect-pending zero s it h f lt = absurd (omega arith)
collect-pending (suc fuel) s it h f lt =
    collect_step fuel s it lt (λ it' f' lt'. collect-pending fuel s it' h f' lt')
      (next-Yields s it h f)

length-select : (p : ℕ → Bool) (xs : List ℕ) → length (select p xs) ≤ length xs
length-select p [] = omega arith
length-select p (x ∷ xs) = ground (arith, length-select p xs)

length-count_up : (base n : ℕ) → length (count_up base n) ≡ n
length-count_up base zero = refl
length-count_up base (suc n) = omega (arith, length-count_up (suc base) n)

-- The bits of the words are the elements of the set.
pub all_ones-elements :
    (s : EntitySet)
    → all_ones 0 s.storage ≡ select (contains s) (count_up 0 (64 * length s.storage))
all_ones-elements s = all_ones-select (contains s) 0 s.storage (λ i k lt. place i k lt)
  where
    place : (i k : ℕ) → k < 64 → contains s (0 + i * 64 + k) ≡ bit_at k (get_or s.storage i 0)
    place i k lt =
        let e : (0 + i * 64 + k) % 64 ≡ k = omega arith in
        let e' : (0 + i * 64 + k) / 64 ≡ i = omega arith in
        rw (contains-eq-bit_at s (0 + i * 64 + k), e, e') refl

-- Iterating over a set ends after at most as many rounds as it has bits, and yields the elements that
-- it contains, each once and in ascending order.
pub collect-iter :
    (s : EntitySet)
    → AreWords s.storage
    → collect (suc (64 * length s.storage)) s iter
      ≡ ok (select (contains s) (count_up 0 (64 * length s.storage)))
unfolding iter
collect-iter s h =
    let all : all_ones 0 s.storage ≡ select (contains s) (count_up 0 (64 * length s.storage)) =
      all_ones-elements s in
    let start : pending s iter ≡ all_ones 0 s.storage =
      ap (λ z. z ++ all_ones 0 s.storage) (ones-zero 64 0) in
    let short : length (pending s iter) < suc (64 * length s.storage) = omega (
      arith,
      ap length (start ∙ all),
      length-select (contains s) (count_up 0 (64 * length s.storage)),
      length-count_up 0 (64 * length s.storage),
    ) in
    collect-pending (suc (64 * length s.storage)) s iter h (zero-Fits 64) short
    ∙ ap ok (start ∙ all)
