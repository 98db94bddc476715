-- ===== src/SparseMap/Lookup.antt =====
-- When the two arrays of a `SparseMap` (src/entity/sparse.rs) agree, and what `get` reads then.
use regalloc.Base.{
  ℕ, zero, suc, ◌<◌, ◌≡◌, ◌≢◌, ap, ◌==◌, ltb, if◌then◌else◌, ok, load-ok, Option, none, some, List,
  [], ◌∷◌, ◌++◌, length, get_elem?, get_or, set, take, arith,
}
use regalloc.LiveRange.{u32_mod}
use regalloc.SparseMap.{SparseMap, value_at, get}

module _ {ℓ} {A : Type ℓ} where
  pub get_elem?-append_last :
      (xs : List A) (x : A) (i : ℕ)
      → get_elem? (xs ++ x ∷ []) i ≡ (if i == length xs then some x else get_elem? xs i)
  get_elem?-append_last [] x zero = ground arith
  get_elem?-append_last [] x (suc i) = ground arith
  get_elem?-append_last (y ∷ xs) x zero = ground arith
  get_elem?-append_last (y ∷ xs) x (suc i) = ground (arith, get_elem?-append_last xs x i)

  pub get_elem?-set :
      (xs : List A) (i j : ℕ) (x : A)
      → i < length xs
      → get_elem? (set xs i x) j ≡ (if i == j then some x else get_elem? xs j)
  get_elem?-set [] i j x h = absurd (omega arith)
  get_elem?-set (y ∷ xs) zero zero x h = ground arith
  get_elem?-set (y ∷ xs) zero (suc j) x h = ground arith
  get_elem?-set (y ∷ xs) (suc i) zero x h = ground arith
  get_elem?-set (y ∷ xs) (suc i) (suc j) x h = ground (arith, get_elem?-set xs i j x)

  pub get_elem?-take :
      (n : ℕ) (xs : List A) (i : ℕ)
      → get_elem? (take n xs) i ≡ (if ltb i n then get_elem? xs i else none)
  get_elem?-take zero xs i = ground arith
  get_elem?-take (suc n) [] i = ground arith
  get_elem?-take (suc n) (x ∷ xs) zero = ground arith
  get_elem?-take (suc n) (x ∷ xs) (suc i) = ground (arith, get_elem?-take n xs i)

  pub get_elem?-some : (xs : List A) (i : ℕ) (x : A) → get_elem? xs i ≡ some x → i < length xs
  get_elem?-some [] i x h = ground arith
  get_elem?-some (y ∷ xs) zero x h = omega arith
  get_elem?-some (y ∷ xs) (suc i) x h = omega (arith, get_elem?-some xs i x h)

-- Where a key's pair would stand.
abbrev pub index_of : {V : Type 0} → SparseMap V → ℕ → ℕ
index_of m k = get_or m.sparse k 0

-- Every pair stands where its key's index says, so no key has two pairs; an index fits in `u32`.
pub record IsValid {V : Type 0} (m : SparseMap V) : Type 0 where
  pub placed :
      (i k : ℕ) (v : V)
      → get_elem? m.dense i ≡ some (k, v)
      → (k < length m.sparse) × (index_of m k ≡ i)
  pub small : length m.dense < u32_mod

pub pair-eq :
    {V : Type 0} {k k' : ℕ} {v v' : V}
    → ◌≡◌ {A = Option (ℕ × V)} (some (k, v)) (some (k', v'))
    → (k ≡ k') × (v ≡ v')
pair-eq {V} {k} {k'} {v} {v'} e = (
  ap (λ (o : Option (ℕ × V)). elim o [ none ↦ k | some p ↦ p.0 ]) e,
  ap (λ (o : Option (ℕ × V)). elim o [ none ↦ v | some p ↦ p.1 ]) e,
)

-- The value of a key: what `get` answers for a key within the range.
abbrev pub lookup : {V : Type 0} → SparseMap V → ℕ → Option V
lookup m k = value_at k (get_elem? m.dense (index_of m k))

pub get-lookup :
    {V : Type 0} (m : SparseMap V) (k : ℕ) → k < length m.sparse → get m k ≡ ok (lookup m k)
unfolding get
get-lookup m k h = ground (arith, load-ok m.sparse k 0 h)

pub value_at-hit : {V : Type 0} (k : ℕ) (v : V) → value_at k (some (k, v)) ≡ some v
unfolding value_at
value_at-hit k v = ground arith

pub value_at-miss : {V : Type 0} (k j : ℕ) (v : V) → k ≢ j → value_at j (some (k, v)) ≡ none
unfolding value_at
value_at-miss k j v n = ground arith

-- The pair behind a value that `get` finds.
pub value_at-inv :
    {V : Type 0} (k : ℕ) (o : Option (ℕ × V)) (v : V) → value_at k o ≡ some v → o ≡ some (k, v)
unfolding value_at
value_at-inv k none v h = ground arith
value_at-inv k (some (k', w)) v h = ground arith

-- A pair of the dense array is what its key has.
pub placed-lookup :
    {V : Type 0} (m : SparseMap V) (i k : ℕ) (v : V)
    → IsValid m
    → get_elem? m.dense i ≡ some (k, v)
    → lookup m k ≡ some v
placed-lookup m i k v w h = rw ((w.placed i k v h).1, h) (value_at-hit k v)
