-- ===== src/EntitySet.antt =====
-- `EntitySet` (src/entity/set.rs): a set of indices as a vector of 64-bit words. A word is a number,
-- and its operations go by binary digits, from the lowest.
pub mod Bits
pub mod Contents
pub mod Iterate
pub mod Walk
pub mod Search
mod Runs
pub mod Gaps
pub mod Count
mod Examples
use regalloc.Base.{
  ℕ, zero, suc, ◌+◌, ◌-◌, ◌*◌, ◌/◌, ◌%◌, ◌^◌, ltb, ◌==◌, if◌then◌else◌, ◌&&◌, Bool, true, false,
  Option, none, some, List, [], ◌∷◌, length, get_elem?, set, take, drop, replicate, load, Run, ok,
  panic, out_of_fuel, ◌++◌, ◌>>=◌,
}

-- `Word::BITS`.
abbrev pub word_bits : ℕ
word_bits = 64

-- `word & (1 << k) != 0`.
unfoldable pub bit_at : ℕ → ℕ → Bool
bit_at zero word = word % 2 == 1
bit_at (suc k) word = bit_at k (word / 2)

-- `word | (1 << k)`.
unfoldable pub with_bit : ℕ → ℕ → ℕ
with_bit zero word = word / 2 * 2 + 1
with_bit (suc k) word = with_bit k (word / 2) * 2 + word % 2

-- `word & !(1 << k)`.
unfoldable pub without_bit : ℕ → ℕ → ℕ
without_bit zero word = word / 2 * 2
without_bit (suc k) word = without_bit k (word / 2) * 2 + word % 2

-- `word >> k`.
unfoldable pub shift_right : ℕ → ℕ → ℕ
shift_right zero word = word
shift_right (suc k) word = shift_right k (word / 2)

-- `trailing_zeros` of a word of `n` bits.
unfoldable pub trailing_zeros : ℕ → ℕ → ℕ
trailing_zeros zero word = 0
trailing_zeros (suc n) word = if word % 2 == 1 then 0 else suc (trailing_zeros n (word / 2))

pub record EntitySet : Type 0 where
  pub storage : List ℕ

-- `EntitySet::index`: the word and the bit of an entity, which is cast to `u32` for the bit.
unfoldable pub word_of : ℕ → ℕ
word_of entity = entity / word_bits

unfoldable pub bit_of : ℕ → ℕ
bit_of entity = entity % 2 ^ 32 % word_bits

unfoldable pub new : EntitySet
new = record { storage = [] }

unfoldable pub contains : EntitySet → ℕ → Bool
unfolding bit_at word_of bit_of
contains s entity = elim (get_elem? s.storage (word_of entity)) [
  | some word ↦ bit_at (bit_of entity) word
  | none ↦ false
]

-- A write to the word of an entity, which panics out of range.
unfoldable pub update : (ℕ → ℕ → ℕ) → EntitySet → ℕ → Run EntitySet
unfolding word_of bit_of
update f s entity = do
  word ← load s.storage (word_of entity)
  ok (record { storage = set s.storage (word_of entity) (f (bit_of entity) word) })

unfoldable pub insert : EntitySet → ℕ → Run EntitySet
unfolding update with_bit
insert s entity = update with_bit s entity

unfoldable pub remove : EntitySet → ℕ → Run EntitySet
unfolding update without_bit
remove s entity = update without_bit s entity

-- `Vec::resize(words, 0)`: it shortens a longer vector.
unfoldable pub resize : List ℕ → ℕ → List ℕ
resize words n =
    if ltb n (length words) then take n words else words ++ replicate (n - length words) 0

unfoldable pub grow_to : EntitySet → ℕ → EntitySet
unfolding resize
grow_to s max_index = record {
  storage = resize s.storage ((max_index + (word_bits - 1)) / word_bits);
}

unfoldable pub clear_and_resize : EntitySet → ℕ → EntitySet
unfolding grow_to
clear_and_resize s max_index = grow_to (record { storage = [] }) max_index

unfoldable pub with_max_index : ℕ → EntitySet
unfolding grow_to new
with_max_index max_index = grow_to new max_index

-- `Extend::extend` and `FromIterator::from_iter`.
unfoldable pub extend : EntitySet → List ℕ → Run EntitySet
extend s [] = ok s
extend s (entity ∷ entities) = do s' ← insert s entity; extend s' entities

unfoldable pub from_iter : List ℕ → Run EntitySet
unfolding extend new
from_iter entities = extend new entities

-- The loop of `next_present_from` over the words after the first, with the index of the next word.
unfoldable pub first_in_words : ℕ → List ℕ → Option ℕ
first_in_words idx [] = none
first_in_words idx (word ∷ words) =
    if word == 0
    then first_in_words (suc idx) words
    else some (idx * word_bits + trailing_zeros word_bits word)

-- `next_present_from`, by the word that holds `from`, if any.
unfoldable pub search_from : EntitySet → ℕ → Option ℕ → Option ℕ
unfolding word_of bit_of
search_from s from none = none
search_from s from (some word) =
    if shift_right (bit_of from) word == 0
    then first_in_words (suc (word_of from)) (drop (suc (word_of from)) s.storage)
    else some (from + trailing_zeros word_bits (shift_right (bit_of from) word))

unfoldable pub next_present_from : EntitySet → ℕ → Option ℕ
unfolding search_from word_of
next_present_from s from = search_from s from (get_elem? s.storage (word_of from))

-- `trailing_ones` of a word of `n` bits, and `!0`.
unfoldable pub trailing_ones : ℕ → ℕ → ℕ
trailing_ones zero word = 0
trailing_ones (suc n) word = if word % 2 == 1 then suc (trailing_ones n (word / 2)) else 0

unfoldable pub full : ℕ → ℕ
full zero = 0
full (suc n) = full n * 2 + 1

-- `word as SignedWord >> k`, on words of `n` bits: each step by one keeps the highest bit.
unfoldable pub halve_signed : ℕ → ℕ → ℕ
halve_signed zero word = word
halve_signed (suc zero) word = word
halve_signed (suc (suc n)) word = halve_signed (suc n) (word / 2) * 2 + word / 2 % 2

unfoldable pub shift_signed : ℕ → ℕ → ℕ → ℕ
unfolding halve_signed
shift_signed n zero word = word
shift_signed n (suc k) word = shift_signed n k (halve_signed n word)

-- The loop of `next_absent_from` over the words after the first.
unfoldable pub first_gap : ℕ → List ℕ → Option ℕ
unfolding full
first_gap idx [] = none
first_gap idx (word ∷ words) =
    if word == full word_bits
    then first_gap (suc idx) words
    else some (idx * word_bits + trailing_ones word_bits word)

-- The end of the storage, where no entity is found before.
unfoldable pub or_end : EntitySet → Option ℕ → ℕ
or_end s none = length s.storage * word_bits
or_end s (some entity) = entity

unfoldable pub gap_from : EntitySet → ℕ → Option ℕ → Option ℕ
unfolding word_of bit_of shift_signed
gap_from s from none = none
gap_from s from (some word) =
    if shift_signed word_bits (bit_of from) word == full word_bits
    then first_gap (suc (word_of from)) (drop (suc (word_of from)) s.storage)
    else some (from + trailing_ones word_bits (shift_right (bit_of from) word))

unfoldable pub next_absent_from : EntitySet → ℕ → ℕ
unfolding or_end gap_from word_of
next_absent_from s from = or_end s (gap_from s from (get_elem? s.storage (word_of from)))

-- `is_empty`, and `count` with `count_ones` of a word of `n` bits.
unfoldable pub is_empty : List ℕ → Bool
is_empty [] = true
is_empty (word ∷ words) = word == 0 && is_empty words

unfoldable pub count_ones : ℕ → ℕ → ℕ
count_ones zero word = 0
count_ones (suc n) word = word % 2 + count_ones n (word / 2)

unfoldable pub count : List ℕ → ℕ
unfolding count_ones
count [] = 0
count (word ∷ words) = count_ones word_bits word + count words

-- `Iter`, whose set is an argument.
pub record Iter : Type 0 where
  pub current_word : ℕ
  pub next_index : ℕ

unfoldable pub iter : Iter
iter = record { current_word = 0; next_index = 0 }

-- The loop of `next`, over the words from `next_index` on; `none` is the early return.
unfoldable pub refill : List ℕ → Iter → Option Iter
refill [] it = if it.current_word == 0 then none else some it
refill (word ∷ words) it =
    if it.current_word == 0
    then refill words (record { current_word = word; next_index = suc it.next_index })
    else some it

-- The end of `next`: `current_word & (current_word - 1)` clears the lowest bit that is set.
unfoldable pub take_lowest : Option Iter → Option (ℕ × Iter)
unfolding trailing_zeros without_bit
take_lowest none = none
take_lowest (some it) =
    let low_bit = trailing_zeros word_bits it.current_word in
    some (
      (it.next_index - 1) * word_bits + low_bit,
      record it { current_word = without_bit low_bit it.current_word },
    )

unfoldable pub next : EntitySet → Iter → Option (ℕ × Iter)
unfolding refill take_lowest
next s it = take_lowest (refill (drop it.next_index s.storage) it)

-- All that an iterator yields.
unfoldable pub collect : ℕ → EntitySet → Iter → Run (List ℕ)
collect zero s it = out_of_fuel
collect (suc fuel) s it = elim (next s it) [
  | none ↦ ok []
  | some (entity, it') ↦ do rest ← collect fuel s it'; ok (entity ∷ rest)
]
