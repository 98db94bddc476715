-- ===== src/EntitySet/Gaps.antt =====
-- `next_absent_from` of `EntitySet` (src/entity/set.rs) finds the next entity that is absent.
use regalloc.Base.{
  ℕ, suc, ◌+◌, ◌-◌, ◌*◌, ◌/◌, ◌%◌, ◌^◌, ◌<◌, ◌≤◌, ◌≡◌, ◌≢◌, ◌⊎◌, inl, inr, refl, sym, ap, ◌∙◌, ◌==◌,
  true, false, Bool-cases, List, [], ◌∷◌, Option, none, some, length, drop, get_or,
  get_elem?-get_or, get_elem?-none, arith, ==_iff, dec_lt,
}
use mathlib.Core.Path.{subst}
use regalloc.EntitySet.{
  EntitySet, bit_at, shift_right, trailing_ones, full, shift_signed, contains, first_gap, gap_from,
  or_end, next_absent_from,
}
use regalloc.EntitySet.Bits.{Fits, bit_at-zero, bit_at-shift_right}
use regalloc.EntitySet.Contents.{
  AreWords, AreWords-get_or, get_or-none, contains-eq-bit_at, capacity,
}
use regalloc.EntitySet.Walk.{drop-suc, AreWords-drop}
use regalloc.EntitySet.Search.{get_or-drop, length-drop_nil, place}
use regalloc.EntitySet.Runs.{
  bit_at-full, SetFrom-full, shift_signed-Fits, shift_signed-SetFrom, SetFrom-shift_signed,
  trailing_ones-IsRun,
}

-- The first absent entity from `from` on, or that the words from there on are full.
data IsGap (s : EntitySet) (from : ℕ) : Option ℕ → Type 0 where
  gap :
      (x : ℕ)
      → from ≤ x
      → contains s x ≡ false
      → ((y : ℕ) → from ≤ y → y < x → contains s y ≡ true)
      → IsGap s from (some x)
  no_gap : ((y : ℕ) → from ≤ y → y < capacity s → contains s y ≡ true) → IsGap s from none

IsGap-skip :
    (s : EntitySet) (from next : ℕ) {r : Option ℕ}
    → from ≤ next
    → ((y : ℕ) → from ≤ y → y < next → contains s y ≡ true)
    → IsGap s next r
    → IsGap s from r
IsGap-skip s from next le present (gap x h c below) = gap x (omega arith) c (λ y h' lt.
    elim (dec_lt y next) [ yes p ↦ present y h' p | no n ↦ below y (omega (arith, n)) lt ])
IsGap-skip s from next le present (no_gap all) = no_gap (λ y h' lt. elim (dec_lt y next) [
  | yes p ↦ present y h' p
  | no n ↦ all y (omega (arith, n)) lt
])

-- From bit `bit` on of a word that is not full there.
unfilled_word :
    (s : EntitySet) (idx bit word : ℕ)
    → bit < 64
    → get_or s.storage idx 0 ≡ word
    → Fits 64 word
    → shift_signed 64 bit word ≢ full 64
    → IsGap s (idx * 64 + bit) (some (idx * 64 + bit + trailing_ones 64 (shift_right bit word)))
unfilled_word s idx bit word lt e f ne =
    let run = trailing_ones 64 (shift_right bit word) in
    let w = trailing_ones-IsRun 64 (shift_right bit word) in
    let inside : bit + run < 64 = elim (dec_lt (bit + run) 64) [
      | yes p ↦ p
      | no n ↦ absurd (
          ne (
            SetFrom-full 64 (shift_signed 64 bit word) (shift_signed-Fits 63 bit word f) (
              shift_signed-SetFrom 63 bit word lt (λ j le lt'.
                let back : bit + (j - bit) ≡ j = omega arith in
                subst (λ z. bit_at z word ≡ true) back
                  (sym (bit_at-shift_right bit (j - bit) word)
                    ∙ w.set_below (j - bit) (omega (arith, n)))))))
    ] in
    gap (idx * 64 + bit + run) (omega arith)
      (place s idx (bit + run) word (idx * 64 + bit + run) inside e (omega arith)
        ∙ sym (bit_at-shift_right bit run word)
        ∙ w.clear_at (omega arith))
      (λ y h h'.
        place s idx (bit + (y - (idx * 64 + bit))) word y (omega arith) e (omega arith)
        ∙ sym (bit_at-shift_right bit (y - (idx * 64 + bit)) word)
        ∙ w.set_below (y - (idx * 64 + bit)) (omega arith))

full_word :
    (s : EntitySet) (idx bit word y : ℕ)
    → get_or s.storage idx 0 ≡ word
    → shift_signed 64 bit word ≡ full 64
    → bit < 64
    → idx * 64 + bit ≤ y
    → y < suc idx * 64
    → contains s y ≡ true
full_word s idx bit word y e z lt h h' =
    place s idx (y - idx * 64) word y (omega arith) e (omega arith)
    ∙ SetFrom-shift_signed 63 bit word (λ j le lt'. ap (bit_at j) z ∙ bit_at-full 64 j lt')
        (y - idx * 64) (omega arith) (omega arith)

first_gap-IsGap :
    (s : EntitySet) (idx : ℕ) (words : List ℕ)
    → drop idx s.storage ≡ words
    → AreWords words
    → IsGap s (idx * 64) (first_gap idx words)
unfolding first_gap shift_signed shift_right
first_gap-IsGap s idx [] e h =
    no_gap (λ y le lt. absurd (omega (arith, length-drop_nil s.storage idx e)))
first_gap-IsGap s idx (word ∷ words) e h =
    let at = get_or-drop s.storage words idx word e in
    let start : idx * 64 + 0 ≡ idx * 64 = omega arith in
    elim (Bool-cases (word == full 64)) [
      | inl z ↦ rw (z) (
          IsGap-skip s (idx * 64) (suc idx * 64) (omega arith)
            (λ y le lt.
              full_word s idx 0 word y at ((==_iff word (full 64)).0 z) (omega arith) (omega arith)
                lt)
            (first_gap-IsGap s (suc idx) words (drop-suc s.storage words idx word e) h.1))
      | inr nz ↦ rw (nz) (
          subst (λ z. IsGap s z (some (z + trailing_ones 64 word))) start
            (unfilled_word s idx 0 word (omega arith) at h.0
              (λ k. ground (arith, nz, (==_iff word (full 64)).1 k))))
    ]

gap_from-IsGap :
    (s : EntitySet) (from : ℕ)
    → AreWords s.storage
    → from / 64 < length s.storage
    → IsGap s from (gap_from s from (some (get_or s.storage (from / 64) 0)))
unfolding gap_from
gap_from-IsGap s from h lt =
    let idx = from / 64 in
    let word = get_or s.storage idx 0 in
    let bit : from % 2 ^ 32 % 64 ≡ from % 64 = omega arith in
    let start : idx * 64 + from % 64 ≡ from = omega arith in
    elim (Bool-cases (shift_signed 64 (from % 64) word == full 64)) [
      | inl z ↦
          rw (bit, z)
            (IsGap-skip s from (suc idx * 64) (omega arith)
              (λ y le lt'.
                full_word s idx (from % 64) word y refl ((==_iff _ (full 64)).0 z) (omega arith)
                  (omega arith) lt')
              (first_gap-IsGap s (suc idx) (drop (suc idx) s.storage) refl
                (AreWords-drop (suc idx) s.storage h)))
      | inr nz ↦
          rw (bit, nz)
            (subst (λ z. IsGap s z (some (z + trailing_ones 64 (shift_right (from % 64) word))))
              start
              (unfilled_word s idx (from % 64) word (omega arith) refl
                (AreWords-get_or s.storage idx h)
                (λ k. ground (arith, nz, (==_iff _ (full 64)).1 k))))
    ]

-- The first entity from `from` on that the set does not contain.
pub record IsFirstAbsent (s : EntitySet) (from x : ℕ) : Type 0 where
  pub reached : from ≤ x
  pub absent : contains s x ≡ false
  pub present_before : (y : ℕ) → from ≤ y → y < x → contains s y ≡ true

or_end-IsFirstAbsent :
    (s : EntitySet) (from : ℕ) {r : Option ℕ}
    → from < capacity s
    → IsGap s from r
    → IsFirstAbsent s from (or_end s r)
unfolding or_end
or_end-IsFirstAbsent s from lt (gap x h c below) = record {
  reached = h;
  absent = c;
  present_before = below;
}
or_end-IsFirstAbsent s from lt (no_gap all) = record {
  reached = omega arith;
  absent =
      contains-eq-bit_at s (length s.storage * 64)
      ∙ ap (bit_at (length s.storage * 64 % 64))
          (get_or-none s.storage (length s.storage * 64 / 64) (omega arith))
      ∙ bit_at-zero (length s.storage * 64 % 64);
  present_before = λ y le lt'. all y le (omega arith);
}

-- From an entity within the storage on, `next_absent_from` answers with the first entity that the set does
-- not contain. From the end of the storage on it answers with that end, which is smaller than an entity
-- beyond it.
pub next_absent_from-IsFirstAbsent :
    (s : EntitySet) (from : ℕ)
    → AreWords s.storage
    → (from < capacity s) × IsFirstAbsent s from (next_absent_from s from)
      ⊎ (capacity s ≤ from) × (next_absent_from s from ≡ capacity s)
unfolding next_absent_from gap_from or_end
next_absent_from-IsFirstAbsent s from h = elim (dec_lt (from / 64) (length s.storage)) [
  | yes lt ↦ inl (
    omega arith,
    rw (get_elem?-get_or s.storage (from / 64) 0 lt)
        (or_end-IsFirstAbsent s from (omega arith) (gap_from-IsGap s from h lt)),
  )
  | no n ↦
      inr (
        omega (arith, n),
        rw (get_elem?-none s.storage (from / 64) (omega (arith, n))) (omega arith),
      )
]
