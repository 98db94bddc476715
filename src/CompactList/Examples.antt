-- ===== src/CompactList/Examples.antt =====
-- Tests of lists in a pool (src/entity/compact_list.rs), and the theorem at an input.
use regalloc.Base.{ℕ, ◌≡◌, refl, ok, ◌>>=◌, List, [], ◌∷◌, ◌++◌, take, drop, Returns, arith}
use regalloc.CompactList.{CompactList, as_slice, insert_iter_at, swap_remove}
use regalloc.CompactList.Slices.{IsIn, insert_iter_at-as_slice}

abbrev pool : List ℕ
pool = 9 ∷ 1 ∷ 2 ∷ 3 ∷ 8 ∷ []

-- The elements 1 to 3.
abbrev list : CompactList
list = record { start = 1; end_ = 4 }

insert_iter_at_runs :
    (insert_iter_at list 2 (7 ∷ []) pool >>= λ (l, p). as_slice l p) ≡ ok (1 ∷ 2 ∷ 7 ∷ 3 ∷ [])
unfolding insert_iter_at as_slice
insert_iter_at_runs = refl

swap_remove_runs : (swap_remove list 0 pool >>= λ (l, p). as_slice l p) ≡ ok (3 ∷ 2 ∷ [])
unfolding swap_remove as_slice
swap_remove_runs = refl

insert_iter_at-as_slice_example :
    Returns
      (λ (l', pool').
        (as_slice l' pool'
          ≡ (as_slice list pool >>= λ old. ok (take 2 old ++ ((7 ∷ []) ++ drop 2 old))))
        × ((k : CompactList) → IsIn k pool → as_slice k pool' ≡ as_slice k pool))
      (insert_iter_at list 2 (7 ∷ []) pool)
insert_iter_at-as_slice_example =
    insert_iter_at-as_slice list 2 (7 ∷ []) pool (omega arith, omega arith) (omega arith)
      (omega arith)
