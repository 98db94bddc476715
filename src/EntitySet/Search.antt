-- ===== src/EntitySet/Search.antt =====
-- `next_present_from` of `EntitySet` (src/entity/set.rs) finds the next element.
use regalloc.Base.{
  ℕ, zero, suc, ◌+◌, ◌-◌, ◌*◌, ◌/◌, ◌%◌, ◌^◌, ◌<◌, ◌≤◌, ◌≡◌, ◌≢◌, inl, inr, refl, sym, ap, ◌∙◌,
  ◌==◌, true, false, Bool-cases, List, [], ◌∷◌, Option, none, some, length, drop, get_or,
  get_elem?-get_or, get_elem?-none, arith, ==_iff, dec_lt,
}
use mathlib.Core.Path.{subst}
use regalloc.EntitySet.{
  EntitySet, bit_at, shift_right, trailing_zeros, contains, first_in_words, search_from,
  next_present_from,
}
use regalloc.EntitySet.Bits.{
  Fits, Fits-bit_at, bit_at-zero, bit_at-shift_right, shift_right-Fits, trailing_zeros-IsLowest,
}
use regalloc.EntitySet.Contents.{AreWords, AreWords-get_or, contains-eq-bit_at, get_or-none}
use regalloc.EntitySet.Walk.{drop-suc, AreWords-drop}

-- The first element from `from` on, or that there is none.
pub data IsFirst (s : EntitySet) (from : ℕ) : Option ℕ → Type 0 where
  found :
      (x : ℕ)
      → from ≤ x
      → contains s x ≡ true
      → ((y : ℕ) → from ≤ y → y < x → contains s y ≡ false)
      → IsFirst s from (some x)
  none_left : ((y : ℕ) → from ≤ y → contains s y ≡ false) → IsFirst s from none

-- A stretch without elements can be skipped.
IsFirst-skip :
    (s : EntitySet) (from next : ℕ) {r : Option ℕ}
    → from ≤ next
    → ((y : ℕ) → from ≤ y → y < next → contains s y ≡ false)
    → IsFirst s next r
    → IsFirst s from r
IsFirst-skip s from next le empty (found x h c below) = found x (omega arith) c (λ y h' lt.
    elim (dec_lt y next) [ yes p ↦ empty y h' p | no n ↦ below y (omega (arith, n)) lt ])
IsFirst-skip s from next le empty (none_left nothing) =
    none_left
      (λ y h'. elim (dec_lt y next) [ yes p ↦ empty y h' p | no n ↦ nothing y (omega (arith, n)) ])

pub get_or-drop : (xs ys : List ℕ) (i x : ℕ) → drop i xs ≡ x ∷ ys → get_or xs i 0 ≡ x
get_or-drop [] ys zero x e = cc
get_or-drop [] ys (suc i) x e = cc
get_or-drop (z ∷ xs) ys zero x e = cc
get_or-drop (z ∷ xs) ys (suc i) x e = get_or-drop xs ys i x e

pub length-drop_nil : (xs : List ℕ) (i : ℕ) → drop i xs ≡ [] → length xs ≤ i
length-drop_nil [] i e = omega arith
length-drop_nil (z ∷ xs) zero e = cc
length-drop_nil (z ∷ xs) (suc i) e = omega (arith, length-drop_nil xs i e)

-- The bit of an entity of word `idx`.
pub place :
    (s : EntitySet) (idx bit word y : ℕ)
    → bit < 64
    → get_or s.storage idx 0 ≡ word
    → y ≡ idx * 64 + bit
    → contains s y ≡ bit_at bit word
place s idx bit word y lt e h =
    let e' : y % 64 ≡ bit = omega arith in
    let e'' : y / 64 ≡ idx = omega arith in rw (contains-eq-bit_at s y, e', e'', e) refl

-- From bit `bit` on of word `idx`: where the rest of the word has a bit, its lowest is found.
in_word :
    (s : EntitySet) (idx bit word : ℕ)
    → bit < 64
    → get_or s.storage idx 0 ≡ word
    → Fits 64 word
    → shift_right bit word ≢ 0
    → IsFirst s (idx * 64 + bit) (some (idx * 64 + bit + trailing_zeros 64 (shift_right bit word)))
in_word s idx bit word lt e f ne =
    let w = trailing_zeros-IsLowest 64 (shift_right bit word) (shift_right-Fits 64 bit word f) ne in
    let low = trailing_zeros 64 (shift_right bit word) in
    let set_at : bit_at (bit + low) word ≡ true =
      sym (bit_at-shift_right bit low word) ∙ w.is_set in
    let inside : bit + low < 64 = elim (dec_lt (bit + low) 64) [
      | yes p ↦ p
      | no n ↦ absurd (let out = Fits-bit_at 64 (bit + low) word f (omega (arith, n)) in cc)
    ] in
    found (idx * 64 + bit + low) (omega arith)
      (place s idx (bit + low) word (idx * 64 + bit + low) inside e (omega arith) ∙ set_at)
      (λ y h h'.
        place s idx (bit + (y - (idx * 64 + bit))) word y (omega arith) e (omega arith)
        ∙ sym (bit_at-shift_right bit (y - (idx * 64 + bit)) word)
        ∙ w.clear_below (y - (idx * 64 + bit)) (omega arith))

-- Where the rest of the word is zero, none of its entities is in the set.
not_in_word :
    (s : EntitySet) (idx bit word y : ℕ)
    → get_or s.storage idx 0 ≡ word
    → shift_right bit word ≡ 0
    → idx * 64 + bit ≤ y
    → y < suc idx * 64
    → contains s y ≡ false
not_in_word s idx bit word y e z h h' =
    let k = y - (idx * 64 + bit) in
    place s idx (bit + k) word y (omega arith) e (omega arith)
    ∙ sym (bit_at-shift_right bit k word)
    ∙ ap (bit_at k) z
    ∙ bit_at-zero k

first_in_words-IsFirst :
    (s : EntitySet) (idx : ℕ) (words : List ℕ)
    → drop idx s.storage ≡ words
    → AreWords words
    → IsFirst s (idx * 64) (first_in_words idx words)
unfolding first_in_words shift_right
first_in_words-IsFirst s idx [] e h = none_left (λ y le.
    contains-eq-bit_at s y
    ∙ ap (bit_at (y % 64))
        (get_or-none s.storage (y / 64) (omega (arith, length-drop_nil s.storage idx e)))
    ∙ bit_at-zero (y % 64))
first_in_words-IsFirst s idx (word ∷ words) e h =
    let at = get_or-drop s.storage words idx word e in
    let start : idx * 64 + 0 ≡ idx * 64 = omega arith in
    elim (Bool-cases (word == 0)) [
      | inl z ↦ rw (z) (
          IsFirst-skip s (idx * 64) (suc idx * 64) (omega arith)
            (λ y le lt. not_in_word s idx 0 word y at ((==_iff word 0).0 z) (omega arith) lt)
            (first_in_words-IsFirst s (suc idx) words (drop-suc s.storage words idx word e) h.1))
      | inr nz ↦ rw (nz) (
          subst (λ z. IsFirst s z (some (z + trailing_zeros 64 word))) start
            (in_word s idx 0 word (omega arith) at h.0 (λ k. ground (arith, nz, k))))
    ]

search_from-IsFirst :
    (s : EntitySet) (from : ℕ)
    → AreWords s.storage
    → from / 64 < length s.storage
    → IsFirst s from (search_from s from (some (get_or s.storage (from / 64) 0)))
unfolding search_from
search_from-IsFirst s from h lt =
    let idx = from / 64 in
    let word = get_or s.storage idx 0 in
    let bit : from % 2 ^ 32 % 64 ≡ from % 64 = omega arith in
    let start : idx * 64 + from % 64 ≡ from = omega arith in
    elim (Bool-cases (shift_right (from % 64) word == 0)) [
      | inl z ↦
          rw (bit, z)
            (IsFirst-skip s from (suc idx * 64) (omega arith)
              (λ y le lt'.
                not_in_word s idx (from % 64) word y refl ((==_iff _ 0).0 z) (omega arith) lt')
              (first_in_words-IsFirst s (suc idx) (drop (suc idx) s.storage) refl
                (AreWords-drop (suc idx) s.storage h)))
      | inr nz ↦
          rw (bit, nz)
            (subst (λ z. IsFirst s z (some (z + trailing_zeros 64 (shift_right (from % 64) word))))
              start
              (in_word s idx (from % 64) word (omega arith) refl (AreWords-get_or s.storage idx h)
                (λ k. ground (arith, nz, k))))
    ]

-- `next_present_from` answers with the first element of the set from `from` on, and with `None`
-- exactly where there is none.
pub next_present_from-IsFirst :
    (s : EntitySet) (from : ℕ) → AreWords s.storage → IsFirst s from (next_present_from s from)
unfolding next_present_from search_from
next_present_from-IsFirst s from h = elim (dec_lt (from / 64) (length s.storage)) [
  | yes lt ↦ rw (get_elem?-get_or s.storage (from / 64) 0 lt) (search_from-IsFirst s from h lt)
  | no n ↦ rw (get_elem?-none s.storage (from / 64) (omega (arith, n))) (
      none_left (λ y le.
        contains-eq-bit_at s y
        ∙ ap (bit_at (y % 64)) (get_or-none s.storage (y / 64) (omega (arith, n)))
        ∙ bit_at-zero (y % 64)))
]
