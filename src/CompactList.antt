-- ===== src/CompactList.antt =====
-- Lists in a shared pool (src/entity/compact_list.rs): a list is a range of the pool's elements. The
-- pool's length is cast to `u32`; an index out of range panics.
pub mod Slices
mod Examples
use regalloc.Base.{
  ℕ, ◌+◌, ◌-◌, ◌%◌, ◌^◌, ◌==◌, leb, if◌then◌else◌, Bool, true, false, ◌&&◌, Run, ok, panic, ◌>>=◌,
  load, store, List, [], ◌∷◌, ◌++◌, length, take, drop,
}
use regalloc.LiveRange.{u32_mod}

pub record CompactList : Type 0 where
  pub start : ℕ
  pub end_ : ℕ

unfoldable pub new : CompactList
new = record { start = 0; end_ = 0 }

unfoldable pub is_empty : CompactList → Bool
is_empty l = l.start == l.end_

module _ {A : Type 0} where
  -- `from_iter`: the new list, and the pool with the elements at its end.
  unfoldable pub from_iter : List A → List A → CompactList × List A
  from_iter xs pool =
      (record { start = length pool % u32_mod; end_ = length (pool ++ xs) % u32_mod }, pool ++ xs)

  -- `&pool.elems[from..to]`.
  unfoldable pub range : List A → ℕ → ℕ → Run (List A)
  range pool from to =
      if leb from to && leb to (length pool) then ok (take (to - from) (drop from pool)) else panic

  -- `as_slice`.
  unfoldable pub as_slice : CompactList → List A → Run (List A)
  unfolding range
  as_slice l pool = range pool l.start l.end_

  -- `insert_iter_at`: a new list at the end of the pool. `extend_from_within` copies a range.
  unfoldable pub insert_iter_at : CompactList → ℕ → List A → List A → Run (CompactList × List A)
  insert_iter_at l index xs pool = do
    before ← range pool l.start (l.start + index)
    let pool₁ = (pool ++ before) ++ xs
    after ← range pool₁ (l.start + index) l.end_
    let pool₂ = pool₁ ++ after
    ok (record { start = length pool % u32_mod; end_ = length pool₂ % u32_mod }, pool₂)

  -- `swap_remove`, whose swap panics where the index is not in the list.
  unfoldable pub swap_remove : CompactList → ℕ → List A → Run (CompactList × List A)
  unfolding as_slice
  swap_remove l index pool = do
    slice ← as_slice l pool
    a ← load slice index
    b ← load slice (length slice - 1)
    pool₁ ← store pool (l.start + index) b
    pool₂ ← store pool₁ (l.start + (length slice - 1)) a
    ok (record l { end_ = l.end_ - 1 }, pool₂)
