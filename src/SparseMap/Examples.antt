-- ===== src/SparseMap/Examples.antt =====
-- Tests of `SparseMap` (src/entity/sparse.rs), and the theorems at inputs.
use regalloc.Base.{
  ℕ, zero, suc, ◌+◌, ◌<◌, ◌≡◌, refl, ok, ◌>>=◌, none, some, [], ◌∷◌, get_elem?, get_or, Returns,
  arith, ltb,
}
use regalloc.SparseMap.{SparseMap, with_max_index, get, insert, remove, retain}
use regalloc.SparseMap.Lookup.{IsValid}
use regalloc.SparseMap.Change.{Updated, insert_inserts}
use regalloc.SparseMap.Remove.{remove_removes}
use regalloc.SparseMap.Retain.{Retained, retain-Retained}

-- Key 3 with the value 30 and key 1 with the value 10.
abbrev two : SparseMap ℕ
two = record { sparse = 0 ∷ 1 ∷ 0 ∷ 0 ∷ []; dense = (3, 30) ∷ (1, 10) ∷ [] }

insert_runs :
    (do (o, m) ← insert (with_max_index {V = ℕ} 4) 3 30; (p, n) ← insert m 1 10; ok n) ≡ ok two
unfolding insert with_max_index
insert_runs = refl

remove_runs : (remove two 3 >>= λ (o, m). get m 1) ≡ ok (some 10)
unfolding remove get
remove_runs = refl

retain_runs :
    retain (λ k v. (ltb v 20, v + 1)) two
    ≡ ok (record { sparse = 0 ∷ 0 ∷ 0 ∷ 0 ∷ []; dense = (1, 11) ∷ [] })
unfolding retain
retain_runs = refl

two_placed :
    (i k v : ℕ) → get_elem? two.dense i ≡ some (k, v) → (k < 4) × (get_or two.sparse k 0 ≡ i)
two_placed zero k v e = ground arith
two_placed (suc zero) k v e = ground arith
two_placed (suc (suc i)) k v e = ground arith

two-IsValid : IsValid two
two-IsValid = record { placed = two_placed; small = omega arith }

insert_inserts_example :
    Returns (λ (old, m'). (get two 2 ≡ ok old) × Updated two m' 2 (some 20)) (insert two 2 20)
insert_inserts_example = insert_inserts two 2 20 two-IsValid (omega arith) (omega arith)

remove_removes_example :
    Returns (λ (x, m'). (get two 3 ≡ ok x) × Updated two m' 3 none) (remove two 3)
remove_removes_example = remove_removes two 3 two-IsValid (omega arith)

retain-Retained_example :
    Returns (Retained (λ k v. (ltb v 20, v + 1)) two) (retain (λ k v. (ltb v 20, v + 1)) two)
retain-Retained_example = retain-Retained (λ k v. (ltb v 20, v + 1)) two two-IsValid
