-- ===== src/EntitySet/Examples.antt =====
-- Tests of `EntitySet` (src/entity/set.rs), and the theorems at inputs.
use regalloc.Base.{
  ◌≤◌, ◌<◌, ◌⊎◌, ℕ, suc, ◌*◌, ◌≡◌, refl, true, false, [], ◌∷◌, some, length, ok, panic, ◌>>=◌,
  Returns, arith,
}
use regalloc.Function.{count_up}
use regalloc.EntitySet.{
  EntitySet, contains, insert, remove, grow_to, clear_and_resize, with_max_index, from_iter,
  next_present_from, next_absent_from, trailing_ones, full, iter, collect, next, refill,
  take_lowest, extend, first_in_words, search_from, shift_right, trailing_zeros,
}
use regalloc.EntitySet.Contents.{
  AreWords, capacity, Updated, Resized, insert-remove-Updated, grow_to-Resized,
}
use regalloc.EntitySet.Iterate.{select}
use regalloc.EntitySet.Walk.{collect-iter}
use regalloc.EntitySet.Gaps.{IsFirstAbsent, next_absent_from-IsFirstAbsent}
use regalloc.EntitySet.Search.{IsFirst, next_present_from-IsFirst}

-- The elements 0, 2 and 67.
abbrev three : EntitySet
three = record { storage = 5 ∷ 8 ∷ [] }

collect_runs : collect 129 three iter ≡ ok (0 ∷ 2 ∷ 67 ∷ [])
unfolding collect iter next refill take_lowest
collect_runs = refl

search_runs : next_present_from three 3 ≡ some 67
unfolding next_present_from search_from first_in_words shift_right trailing_zeros
search_runs = refl

insert_runs : (insert (with_max_index 100) 64 >>= λ s. ok (s.storage)) ≡ ok (0 ∷ 1 ∷ [])
unfolding insert with_max_index
insert_runs = refl

shrinks : contains (grow_to three 64) 67 ≡ false
unfolding contains grow_to
shrinks = refl

from_iter_fails : from_iter (7 ∷ []) ≡ panic
unfolding from_iter extend insert
from_iter_fails = refl

three-AreWords : AreWords three.storage
three-AreWords = (refl, (refl, tt))

insert-remove-Updated_example :
    Returns (Updated true three 66) (insert three 66)
    × Returns (Updated false three 66) (remove three 66)
insert-remove-Updated_example = insert-remove-Updated three 66 three-AreWords (omega arith)

grow_to-Resized_example :
    Resized three 64 (grow_to three 64)
    × Resized (record { storage = [] }) 64 (clear_and_resize three 64)
    × ((y : ℕ) → contains (clear_and_resize three 64) y ≡ false)
grow_to-Resized_example = grow_to-Resized three 64 three-AreWords

collect-iter_example :
    collect (suc (64 * length three.storage)) three iter
    ≡ ok (select (contains three) (count_up 0 (64 * length three.storage)))
collect-iter_example = collect-iter three three-AreWords

next_present_from-IsFirst_example : IsFirst three 3 (next_present_from three 3)
next_present_from-IsFirst_example = next_present_from-IsFirst three 3 three-AreWords

absent_runs : next_absent_from three 66 ≡ 66
unfolding next_absent_from shift_right trailing_ones full
absent_runs = refl

-- Beyond the storage, which ends at 128, the answer is smaller than the argument.
absent_beyond : next_absent_from three 200 ≡ 128
unfolding next_absent_from
absent_beyond = refl

next_absent_from-IsFirstAbsent_example :
    ((67 < capacity three) × IsFirstAbsent three 67 (next_absent_from three 67))
    ⊎ ((capacity three ≤ 67) × (next_absent_from three 67 ≡ capacity three))
next_absent_from-IsFirstAbsent_example = next_absent_from-IsFirstAbsent three 67 three-AreWords
