-- ===== src/SparseMap.antt =====
-- `SparseMap` of src/entity/sparse.rs: a map from small keys to values, as a dense array of the pairs
-- and, for each key, the index where its pair would stand. A key is its index; an index out of
-- range panics.
pub mod Lookup
pub mod Change
pub mod Remove
mod Rebuild
pub mod Retain
mod Examples
use regalloc.Base.{
  ℕ, zero, suc, ◌+◌, ◌-◌, ◌%◌, ◌^◌, ◌==◌, ltb, if◌then◌else◌, Bool, true, false, not, Run, ok,
  panic, ◌>>=◌, load, store, Option, none, some, List, [], ◌∷◌, ◌++◌, length, get_elem?, set, take,
  replicate,
}
use regalloc.LiveRange.{u32_mod}

pub record SparseMap (V : Type 0) : Type 0 where
  pub sparse : List ℕ
  pub dense : List (ℕ × V)

unfoldable pub new : {V : Type 0} → SparseMap V
new = record { sparse = []; dense = [] }

-- `grow_to`, with that of `SecondaryMap` (src/entity/secondary_map.rs), which fills up with zeros.
unfoldable pub grow_to : {V : Type 0} → SparseMap V → ℕ → SparseMap V
grow_to m max_index =
    if ltb (length m.sparse) max_index
    then record m { sparse = m.sparse ++ replicate (max_index - length m.sparse) 0 }
    else m

unfoldable pub with_max_index : {V : Type 0} → ℕ → SparseMap V
unfolding new grow_to
with_max_index max_index = grow_to new max_index

unfoldable pub clear : {V : Type 0} → SparseMap V → SparseMap V
clear m = record m { dense = [] }

-- The value of a pair, if the pair is there and its key is the one asked for.
unfoldable pub value_at : {V : Type 0} → ℕ → Option (ℕ × V) → Option V
value_at key none = none
value_at key (some (k, v)) = if k == key then some v else none

-- `get`, and `get_mut` before the write.
unfoldable pub get : {V : Type 0} → SparseMap V → ℕ → Run (Option V)
unfolding value_at
get m key = do i ← load m.sparse key; ok (value_at key (get_elem? m.dense i))

unfoldable pub get_index_of : {V : Type 0} → SparseMap V → ℕ → Run (Option ℕ)
unfolding value_at
get_index_of m key = do
  i ← load m.sparse key
  ok (elim (value_at key (get_elem? m.dense i)) [ none ↦ none | some v ↦ some i ])

unfoldable pub contains_key : {V : Type 0} → SparseMap V → ℕ → Run Bool
unfolding get
contains_key m key = do v ← get m key; ok (elim v [ none ↦ false | some w ↦ true ])

-- `insert_unique`, without its debug assertions. The index is cast to `u32`.
unfoldable pub insert_unique : {V : Type 0} → SparseMap V → ℕ → V → Run (SparseMap V)
insert_unique m key value = do
  s ← store m.sparse key (length m.dense % u32_mod)
  ok (record { sparse = s; dense = m.dense ++ (key, value) ∷ [] })

-- `insert` once the index of the key is read: the write through `get_mut`, or `insert_unique`.
unfoldable pub insert_at : {V : Type 0} → SparseMap V → ℕ → V → ℕ → Run (Option V × SparseMap V)
unfolding value_at insert_unique
insert_at m key value i = elim (value_at key (get_elem? m.dense i)) [
  | some old ↦ ok (some old, record m { dense = set m.dense i (key, value) })
  | none ↦ do m' ← insert_unique m key value; ok (none, m')
]

-- `insert`.
unfoldable pub insert : {V : Type 0} → SparseMap V → ℕ → V → Run (Option V × SparseMap V)
unfolding insert_at
insert m key value = do i ← load m.sparse key; insert_at m key value i

-- `Vec::pop`.
abbrev pub pop_vec {ℓ} : {A : Type ℓ} → List A → Option (A × List A)
pop_vec xs = elim (get_elem? xs (length xs - 1)) [
  | none ↦ none
  | some back ↦ some (back, take (length xs - 1) xs)
]

-- `OccupiedEntry::remove`.
unfoldable pub remove_at : {V : Type 0} → SparseMap V → ℕ → Run (V × SparseMap V)
remove_at m i = elim (pop_vec m.dense) [
  | none ↦ panic
  | some (back, rest) ↦ elim (i == length rest) [
    | true ↦ ok (back.1, record m { dense = rest })
    | false ↦ do
      s ← store m.sparse back.0 (i % u32_mod)
      pair ← load rest i
      d ← store rest i back
      ok (pair.1, record { sparse = s; dense = d })
  ]
]

-- `remove`, with `entry`.
unfoldable pub remove : {V : Type 0} → SparseMap V → ℕ → Run (Option V × SparseMap V)
unfolding value_at remove_at
remove m key = do
  i ← load m.sparse key
  elim (value_at key (get_elem? m.dense i)) [
    | none ↦ ok (none, m)
    | some v ↦ do (w, m') ← remove_at m i; ok (some w, m')
  ]

-- `pop`.
unfoldable pub pop : {V : Type 0} → SparseMap V → Option (ℕ × V) × SparseMap V
pop m = elim (pop_vec m.dense) [
  | none ↦ (none, m)
  | some (back, rest) ↦ (some back, record m { dense = rest })
]

-- The loop of `rebuild_mapping`, from index `i`.
unfoldable pub rebuild_loop : {V : Type 0} → List ℕ → ℕ → List (ℕ × V) → Run (List ℕ)
rebuild_loop sparse i [] = ok sparse
rebuild_loop sparse i ((k, v) ∷ rest) = do
  s ← store sparse k (i % u32_mod)
  rebuild_loop s (suc i) rest

unfoldable pub rebuild_mapping : {V : Type 0} → SparseMap V → Run (SparseMap V)
unfolding rebuild_loop
rebuild_mapping m = do s ← rebuild_loop m.sparse 0 m.dense; ok (record m { sparse = s })

-- `Vec::retain_mut` under a closure that answers whether to keep a value, and its new content.
unfoldable pub retain_pairs : {V : Type 0} → (ℕ → V → Bool × V) → List (ℕ × V) → List (ℕ × V)
retain_pairs keep [] = []
retain_pairs keep ((k, v) ∷ rest) =
    if (keep k v).0 then (k, (keep k v).1) ∷ retain_pairs keep rest else retain_pairs keep rest

-- `retain`, for a closure without a state of its own.
unfoldable pub retain : {V : Type 0} → (ℕ → V → Bool × V) → SparseMap V → Run (SparseMap V)
unfolding retain_pairs rebuild_mapping
retain keep m =
    let dense = retain_pairs keep m.dense in
    let m' = record m { dense = dense } in
    if length m.dense == length dense then ok m' else rebuild_mapping m'
