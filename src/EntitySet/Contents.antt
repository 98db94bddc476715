-- ===== src/EntitySet/Contents.antt =====
-- What the operations of `EntitySet` (src/entity/set.rs) do to the set that the words stand for.
use regalloc.Base.{
  ℕ, zero, suc, ◌+◌, ◌-◌, ◌*◌, ◌/◌, ◌%◌, ◌^◌, ◌<◌, ◌≤◌, ◌≡◌, inl, inr, refl, ◌∙◌, ltb, ◌==◌,
  if◌then◌else◌, Bool, true, false, Bool-cases, List, [], ◌∷◌, ◌++◌, none, some, length, take,
  replicate, length-take, length-append, length-replicate, get_or, set, length-set, get_or-set,
  get_elem?, get_elem?-get_or, get_elem?-none, load-ok, panic, Returns, All, arith,
}
use regalloc.EntitySet.{
  EntitySet, bit_at, with_bit, without_bit, contains, update, insert, remove, resize, grow_to,
  clear_and_resize, extend, from_iter,
}
use regalloc.EntitySet.Bits.{
  Fits, bit_at-zero, bit_at-with_bit, bit_at-without_bit, with_bit-Fits, without_bit-Fits,
  zero-Fits,
}

-- The words are words of 64 bits.
abbrev pub AreWords : List ℕ → Type 0
AreWords words = All (Fits 64) words

-- The entities of which the vector has a bit.
abbrev pub capacity : EntitySet → ℕ
capacity s = 64 * length s.storage

pub get_or-none : (xs : List ℕ) (i : ℕ) → length xs ≤ i → get_or xs i 0 ≡ 0
get_or-none [] i h = refl
get_or-none (x ∷ xs) zero h = absurd (omega arith)
get_or-none (x ∷ xs) (suc i) h = get_or-none xs i (omega arith)

pub contains-eq-bit_at :
    (s : EntitySet) (y : ℕ) → contains s y ≡ bit_at (y % 64) (get_or s.storage (y / 64) 0)
unfolding contains
contains-eq-bit_at s y =
    let e : y % 2 ^ 32 % 64 ≡ y % 64 = omega arith in
    elim (Bool-cases (ltb (y / 64) (length s.storage))) [
      | inl lt ↦
          let at : get_elem? s.storage (y / 64) ≡ some (get_or s.storage (y / 64) 0) =
            get_elem?-get_or s.storage (y / 64) 0 (ground (arith, lt)) in
          ground (arith, e, at)
      | inr ge ↦
          let at : get_elem? s.storage (y / 64) ≡ none =
            get_elem?-none s.storage (y / 64) (ground (arith, ge)) in
          let none_set : get_or s.storage (y / 64) 0 ≡ 0 =
            get_or-none s.storage (y / 64) (ground (arith, ge)) in
          ground (arith, e, at, none_set, bit_at-zero (y % 64))
    ]

-- The entity `x` is put in or taken out, by `val`, and no other changes.
pub record Updated (val : Bool) (s : EntitySet) (x : ℕ) (s' : EntitySet) : Type 0 where
  pub words : AreWords s'.storage
  pub size : length s'.storage ≡ length s.storage
  pub contents : (y : ℕ) → contains s' y ≡ (if x == y then val else contains s y)

AreWords-set :
    (words : List ℕ) (i word : ℕ) → AreWords words → Fits 64 word → AreWords (set words i word)
AreWords-set [] i word h f = tt
AreWords-set (w ∷ words) zero word h f = (f, h.1)
AreWords-set (w ∷ words) (suc i) word h f = (h.0, AreWords-set words i word h.1 f)

pub AreWords-get_or : (words : List ℕ) (i : ℕ) → AreWords words → Fits 64 (get_or words i 0)
AreWords-get_or [] i h = zero-Fits 64
AreWords-get_or (w ∷ words) zero h = h.0
AreWords-get_or (w ∷ words) (suc i) h = AreWords-get_or words i h.1

module _ (f : ℕ → ℕ → ℕ) (val : Bool)
    (law : (k j word : ℕ) → bit_at j (f k word) ≡ (if k == j then val else bit_at j word))
    (fits : (n k word : ℕ) → k < n → Fits n word → Fits n (f k word)) where
  pub update-Updated :
      (s : EntitySet) (x : ℕ)
      → AreWords s.storage
      → x < capacity s
      → Returns (Updated val s x) (update f s x)
  unfolding update
  update-Updated s x h lt =
      let bit : x % 2 ^ 32 % 64 ≡ x % 64 = omega arith in
      let word = get_or s.storage (x / 64) 0 in
      let s' : EntitySet = record { storage = set s.storage (x / 64) (f (x % 64) word) } in
      rw (bit, load-ok s.storage (x / 64) 0 (omega arith))
        (record {
          words =
              AreWords-set s.storage (x / 64) (f (x % 64) word) h
                (fits 64 (x % 64) word (omega arith) (AreWords-get_or s.storage (x / 64) h));
          size = length-set s.storage (x / 64) (f (x % 64) word);
          contents = λ y. ground (
            arith,
            contains-eq-bit_at s y,
            contains-eq-bit_at s' y,
            get_or-set s.storage (x / 64) (y / 64) (f (x % 64) word) 0,
            law (x % 64) (y % 64) word,
          );
        })

-- On an entity for which the vector has a bit `insert` and `remove` return: the one puts it in, the
-- other takes it out, no other entity changes, and the words stay words of 64 bits.
pub insert-remove-Updated :
    (s : EntitySet) (x : ℕ)
    → AreWords s.storage
    → x < capacity s
    → Returns (Updated true s x) (insert s x) × Returns (Updated false s x) (remove s x)
unfolding insert remove
insert-remove-Updated s x h lt = (
  update-Updated with_bit true bit_at-with_bit with_bit-Fits s x h lt,
  update-Updated without_bit false bit_at-without_bit without_bit-Fits s x h lt,
)

get_or-take :
    (words : List ℕ) (n i : ℕ)
    → get_or (take n words) i 0 ≡ (if ltb i n then get_or words i 0 else 0)
get_or-take words zero i = ground arith
get_or-take [] (suc n) i = ground arith
get_or-take (w ∷ words) (suc n) zero = ground arith
get_or-take (w ∷ words) (suc n) (suc i) = ground (arith, get_or-take words n i)

get_or-replicate : (n i : ℕ) → get_or {A = ℕ} (replicate n 0) i 0 ≡ 0
get_or-replicate zero i = refl
get_or-replicate (suc n) zero = refl
get_or-replicate (suc n) (suc i) = get_or-replicate n i

get_or-append_zeros :
    (words : List ℕ) (n i : ℕ) → get_or (words ++ replicate n 0) i 0 ≡ get_or words i 0
get_or-append_zeros [] n i = get_or-replicate n i
get_or-append_zeros (w ∷ words) n zero = refl
get_or-append_zeros (w ∷ words) n (suc i) = get_or-append_zeros words n i

get_or-resize :
    (words : List ℕ) (n i : ℕ)
    → get_or (resize words n) i 0 ≡ (if ltb i n then get_or words i 0 else 0)
unfolding resize
get_or-resize words n i = ground (
  arith,
  get_or-take words n i,
  get_or-append_zeros words (n - length words) i,
  get_or-none words i,
)

AreWords-take : (n : ℕ) (words : List ℕ) → AreWords words → AreWords (take n words)
AreWords-take zero words h = tt
AreWords-take (suc n) [] h = tt
AreWords-take (suc n) (w ∷ words) h = (h.0, AreWords-take n words h.1)

AreWords-append_zeros :
    (words : List ℕ) (n : ℕ) → AreWords words → AreWords (words ++ replicate n 0)
AreWords-append_zeros [] zero h = tt
AreWords-append_zeros [] (suc n) h = (zero-Fits 64, AreWords-append_zeros [] n tt)
AreWords-append_zeros (w ∷ words) n h = (h.0, AreWords-append_zeros words n h.1)

resize-AreWords : (words : List ℕ) (n : ℕ) → AreWords words → AreWords (resize words n)
unfolding resize
resize-AreWords words n h = elim (Bool-cases (ltb n (length words))) [
  | inl e ↦ rw (e) (AreWords-take n words h)
  | inr e ↦ rw (e) (AreWords-append_zeros words (n - length words) h)
]

length-resize : (words : List ℕ) (n : ℕ) → length (resize words n) ≡ n
unfolding resize
length-resize words n = ground (
  arith,
  length-take n words,
  length-append words (replicate (n - length words) 0),
  length-replicate {A = ℕ} (n - length words) 0,
)

-- The set after a change of size: whole words for all entities below the new size, and the elements
-- which had been there in these words.
pub record Resized (s : EntitySet) (max_index : ℕ) (s' : EntitySet) : Type 0 where
  pub words : AreWords s'.storage
  pub size : length s'.storage ≡ (max_index + 63) / 64
  pub large_enough : max_index ≤ capacity s'
  pub contents :
      (y : ℕ)
      → contains s' y ≡ (if ltb (y / 64) ((max_index + 63) / 64) then contains s y else false)

resized :
    (s : EntitySet) (max_index : ℕ) → AreWords s.storage → Resized s max_index (grow_to s max_index)
unfolding grow_to
resized s max_index h =
    let n = (max_index + 63) / 64 in
    let s' : EntitySet = record { storage = resize s.storage n } in
    record {
      words = resize-AreWords s.storage n h;
      size = length-resize s.storage n;
      large_enough = omega (arith, length-resize s.storage n);
      contents = λ y. ground (
        arith,
        contains-eq-bit_at s y,
        contains-eq-bit_at s' y,
        get_or-resize s.storage n (y / 64),
        bit_at-zero (y % 64),
      );
    }

-- `grow_to` gives a set of the new size exactly, rounded up to whole words. It keeps the elements in
-- these words and drops all others, so it shortens a set that was larger. `clear_and_resize` gives a
-- set of the new size without elements.
pub grow_to-Resized :
    (s : EntitySet) (max_index : ℕ)
    → AreWords s.storage
    → Resized s max_index (grow_to s max_index)
      × Resized (record { storage = [] }) max_index (clear_and_resize s max_index)
      × ((y : ℕ) → contains (clear_and_resize s max_index) y ≡ false)
unfolding clear_and_resize grow_to
grow_to-Resized s max_index h =
    let nothing : EntitySet = record { storage = [] } in
    let cleared = resized nothing max_index tt in
    (
      resized s max_index h,
      cleared,
      λ y.
          let none_in : contains nothing y ≡ false =
            contains-eq-bit_at nothing y ∙ bit_at-zero (y % 64) in
          let w = cleared.contents y in ground (arith, w, none_in),
    )

-- `insert` panics on an entity beyond the vector, so `from_iter`, which starts with no words, panics
-- on every iterator that yields anything.
pub from_iter_panics : (x : ℕ) (xs : List ℕ) → from_iter (x ∷ xs) ≡ panic
unfolding from_iter extend insert
from_iter_panics x xs = refl
