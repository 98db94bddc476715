-- ===== src/PostOrder.antt =====
-- src/debug_utils/postorder.rs: the depth-first traversal of the control flow graph.
pub mod Pushes
pub mod Invariant
pub mod Order
pub mod Traversal
mod Examples
use regalloc.Base.{
  ℕ, zero, suc, ◌+◌, ◌==◌, not, if◌then◌else◌, Bool, true, false, List, [], ◌∷◌, ◌++◌, length, set,
  get_or, replicate, load, store, Run, ok, out_of_fuel, ◌>>=◌,
}
use regalloc.Function.{Function}

pub data Visit : Type 0 where
  first last : Visit

-- `PostOrder`: the number of a block is `UNREACHABLE` (0), `SEEN` (1), or more once it is in the list.
pub record PostOrder : Type 0 where
  pub stack : List (Visit × ℕ)
  pub postorder : List ℕ
  pub po_number : List ℕ

-- The loop over the successors, those that are left.
unfoldable pub push_succs : List ℕ → List ℕ → List (Visit × ℕ) → Run (List (Visit × ℕ))
push_succs po_number [] stack = ok stack
push_succs po_number (succ ∷ succs) stack = do
  number ← load po_number succ
  push_succs po_number succs (if number == 0 then (Visit.first, succ) ∷ stack else stack)

unfoldable pub is_reachable : PostOrder → ℕ → Run Bool
is_reachable s block = do number ← load s.po_number block; ok (not (number == 0))

module _ {Freq : Type 0} (func : Function Freq) where
  -- The body of the loop, where the entry is popped from the stack.
  unfoldable pub first_visit : ℕ → PostOrder → ℕ → Run PostOrder
  first_visit block s number =
      if number == 0
      then (do
        po_number ← store s.po_number block 1
        stack ← push_succs po_number (func.block_succs block) ((Visit.last, block) ∷ s.stack)
        ok (record s { stack = stack; po_number = po_number }))
      else ok s

  -- The length of the list is less than 2 ^ 32, as the number of blocks is.
  unfoldable pub visit_block : Visit → ℕ → PostOrder → Run PostOrder
  visit_block Visit.first block s = do number ← load s.po_number block; first_visit block s number
  visit_block Visit.last block s = do
    let postorder = s.postorder ++ block ∷ []
    po_number ← store s.po_number block (2 + length postorder)
    ok (record s { postorder = postorder; po_number = po_number })

  unfoldable pub traverse : ℕ → PostOrder → Run PostOrder
  traverse zero s = out_of_fuel
  traverse (suc fuel) s = elim s.stack [
    | [] ↦ ok s
    | (visit, block) ∷ rest ↦ do
      s' ← visit_block visit block (record s { stack = rest })
      traverse fuel s'
  ]

  -- The rounds that are left at most: one for an entry of the stack, and for a block that has not been
  -- seen one more than it has successors.
  unfoldable pub work_left : ℕ → List ℕ → ℕ
  work_left block [] = 0
  work_left block (number ∷ numbers) =
      (if number == 0 then suc (length (func.block_succs block)) else 0)
      + work_left (suc block) numbers

  -- `compute`, from the entry block 0.
  unfoldable pub compute : Run PostOrder
  unfolding traverse work_left
  compute =
      let po_number = replicate func.num_blocks 0 in
      traverse (suc (suc (work_left 0 po_number)))
        (record { stack = (Visit.first, 0) ∷ []; postorder = []; po_number = po_number })
