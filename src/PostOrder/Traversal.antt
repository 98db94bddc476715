-- ===== src/PostOrder/Traversal.antt =====
-- The traversal (src/debug_utils/postorder.rs) ends, and lists each reachable block once, in postorder.
use regalloc.Base.{
  ℕ, zero, suc, ◌+◌, ◌<◌, ◌≡◌, ◌≢◌, ◌↔◌, inl, inr, refl, sym, ap, ◌∙◌, ◌==◌, not, Bool, true, false,
  Bool-cases, List, [], ◌∷◌, ◌++◌, length, set, length-set, get_or, replicate, length-replicate,
  load, load-ok, store-ok, ok, Returns, Returns-bind, Returns-map, In, IsNodup, All, arith,
}
use mathlib.Core.Path.{subst}
use regalloc.Function.{Function}
use regalloc.PostOrder.{
  Visit, PostOrder, push_succs, first_visit, visit_block, traverse, work_left, compute,
  is_reachable,
}
use regalloc.PostOrder.Pushes.{Pushed, push_succs-Pushed, work_left-seen, work_left-marked}
use regalloc.PostOrder.Order.{Numbered, Earlier, InOrder, InOrder-skip, InOrder-first, InOrder-last}
use regalloc.PostOrder.Invariant.{
  Reaches, Marked, Inv, Inv-skip, Inv-last, Inv-first, at, ne_zero, All-In,
}

-- The blocks that can be reached from the entry block are listed once each, and are those that
-- `is_reachable` tells. They are numbered in turn from 3 on, and a successor of a block comes before it
-- in the list, with a smaller number, unless there is a path from the successor back to the block.
pub record IsPostOrder {Freq : Type 0} (func : Function Freq) (s : PostOrder) : Type 0 where
  pub nodup : IsNodup s.postorder
  pub all : (b : ℕ) → In b s.postorder ↔ Reaches func b
  pub numbered : Numbered s.po_number 3 s.postorder
  pub earlier :
      (b v : ℕ)
      → In b s.postorder
      → In v (func.block_succs b)
      → Earlier func s.postorder s.po_number b v
  pub answers :
      (b : ℕ)
      → b < func.num_blocks
      → (answer : Bool) × (is_reachable s b ≡ ok answer) × ((answer ≡ true) ↔ Reaches func b)

is_reachable-eq :
    (stack : List (Visit × ℕ)) (l po : List ℕ) (b : ℕ) (answer : Bool)
    → load po b ≡ ok (get_or po b 0)
    → not (get_or po b 0 == 0) ≡ answer
    → is_reachable (record { stack = stack; postorder = l; po_number = po }) b ≡ ok answer
unfolding is_reachable
is_reachable-eq stack l po b answer e k = rw (e, k) refl

module _ {Freq : Type 0} (func : Function Freq)
    (succs_inside : (b : ℕ)
      → b < func.num_blocks
      → All (λ c. c < func.num_blocks) (func.block_succs b)) where
  abbrev measure : PostOrder → ℕ
  measure s = length s.stack + work_left func 0 s.po_number

  abbrev IsKept : PostOrder → Type 0
  IsKept s = Inv func s × InOrder func s.stack s.postorder s.po_number

  -- One round keeps the invariant, and less work is left.
  abbrev Advanced : ℕ → PostOrder → Type 0
  Advanced m s = IsKept s × (measure s < m)

  first_visit-Advanced :
      (b : ℕ) (rest : List (Visit × ℕ)) (l po : List ℕ)
      → IsKept (at func succs_inside ((Visit.first, b) ∷ rest) l po)
      → Returns
          (Advanced (measure (at func succs_inside ((Visit.first, b) ∷ rest) l po)))
          (first_visit func b (at func succs_inside rest l po) (get_or po b 0))
  unfolding first_visit
  first_visit-Advanced b rest l po w = elim (Bool-cases (get_or po b 0 == 0)) [
    | inl e ↦
        let new : get_or po b 0 ≡ 0 = ground (arith, e) in
        let (path, lt) = w.0.ahead b (inl refl) in
        let room : b < length po = rw (w.0.size) lt in
        let inside : All (λ c. c < length (set po b 1)) (func.block_succs b) =
          rw (length-set po b 1 ∙ w.0.size) (succs_inside b lt) in
        let less = work_left-seen func 0 b 1 po room new (ne_zero 1 (omega arith)) in
        let at_b : 0 + b ≡ b = omega arith in
        let less' : work_left func 0 (set po b 1) + suc (length (func.block_succs b))
            ≡ work_left func 0 po =
          subst
            (λ z.
              work_left func 0 (set po b 1) + suc (length (func.block_succs z))
              ≡ work_left func 0 po)
            at_b less in
        rw (e, store-ok po b 1 room)
          (Returns-bind (Pushed (set po b 1) (func.block_succs b) ((Visit.last, b) ∷ rest))
            (Advanced (measure (at func succs_inside ((Visit.first, b) ∷ rest) l po)))
            (push_succs (set po b 1) (func.block_succs b) ((Visit.last, b) ∷ rest))
            (λ stack'. ok (at func succs_inside stack' l (set po b 1)))
            (λ stack' p. (
              (
                Inv-first func succs_inside b rest stack' l po new w.0 p,
                InOrder-first func b rest stack' l po new w.0 w.1 p,
              ),
              omega (arith, p.bound, less'),
            ))
            (push_succs-Pushed (set po b 1) (func.block_succs b) ((Visit.last, b) ∷ rest) inside))
    | inr e ↦
        let m : Marked po b = λ k. ground (arith, e, k) in
        rw (e) (
          (Inv-skip func succs_inside b rest l po m w.0, InOrder-skip func b rest l po m w.1),
          omega arith,
        )
  ]

  visit_block-Advanced :
      (visit : Visit) (b : ℕ) (rest : List (Visit × ℕ)) (l po : List ℕ)
      → IsKept (at func succs_inside ((visit, b) ∷ rest) l po)
      → Returns
          (Advanced (measure (at func succs_inside ((visit, b) ∷ rest) l po)))
          (visit_block func visit b (at func succs_inside rest l po))
  unfolding visit_block
  visit_block-Advanced Visit.first b rest l po w =
      rw (load-ok po b 0 (rw (w.0.size) (w.0.ahead b (inl refl)).1))
        (first_visit-Advanced b rest l po w)
  visit_block-Advanced Visit.last b rest l po w =
      let (lt, m, fresh) = w.0.pending b (inl refl) in
      let v = 2 + length (l ++ b ∷ []) in
      let ne : v ≢ 0 = ne_zero v (omega arith) in
      let same = work_left-marked func 0 b v po m ne in
      rw (store-ok po b v (rw (w.0.size) lt)) (
        (Inv-last func succs_inside b v rest l po ne w.0, InOrder-last func b rest l po w.0 w.1),
        omega (arith, same),
      )

  traverse-Inv :
      (fuel : ℕ) (stack : List (Visit × ℕ)) (l po : List ℕ)
      → IsKept (at func succs_inside stack l po)
      → measure (at func succs_inside stack l po) < fuel
      → Returns
          (λ s. IsKept s × (s.stack ≡ []))
          (traverse func fuel (at func succs_inside stack l po))
  unfolding traverse
  traverse-Inv zero stack l po w lt = absurd (omega arith)
  traverse-Inv (suc fuel) [] l po w lt = (w, refl)
  traverse-Inv (suc fuel) ((visit, b) ∷ rest) l po w lt =
      Returns-bind (Advanced (measure (at func succs_inside ((visit, b) ∷ rest) l po)))
        (λ s. IsKept s × (s.stack ≡ [])) (visit_block func visit b (at func succs_inside rest l po))
        (traverse func fuel)
        (λ s' (w', less). traverse-Inv fuel s'.stack s'.postorder s'.po_number w' (omega arith))
        (visit_block-Advanced visit b rest l po w)

  -- The state that `compute` starts from.
  abbrev blank : List ℕ
  blank = replicate func.num_blocks 0

  blank_none : (k b : ℕ) → get_or {A = ℕ} (replicate k 0) b 0 ≡ 0
  blank_none zero b = refl
  blank_none (suc k) zero = refl
  blank_none (suc k) (suc b) = blank_none k b

  Inv-start :
      0 < func.num_blocks
      → Inv func (record { stack = (Visit.first, 0) ∷ []; postorder = []; po_number = blank })
  Inv-start pos = record {
    size = length-replicate func.num_blocks 0;
    closed = λ b c lt m h. absurd (m (blank_none func.num_blocks b));
    entered = inr (inl refl);
    reached = λ b lt m. absurd (m (blank_none func.num_blocks b));
    ahead = λ c h. elim h [
      | inl e ↦ (subst (Reaches func) (sym e) Reaches.entry, omega (arith, e))
      | inr h' ↦ elim h' [ ]
    ];
    placed = λ b lt m. absurd (m (blank_none func.num_blocks b));
    listed = λ b h. elim h [ ];
    pending = λ b h. elim h [ ];
    nodup = tt;
    once = tt;
  }

  InOrder-start : InOrder func ((Visit.first, 0) ∷ []) [] blank
  InOrder-start = record { numbered = tt; earlier = λ b v i h. elim i [ ]; stacked = tt }

  -- At the end, with an empty stack, the marks are closed under successors.
  Reaches-Marked :
      (l po : List ℕ) {b : ℕ}
      → 0 < func.num_blocks
      → Inv func (record { stack = []; postorder = l; po_number = po })
      → Reaches func b
      → (b < func.num_blocks) × Marked po b
  Reaches-Marked l po pos w Reaches.entry = (pos, elim w.entered [ inl m ↦ m | inr h ↦ elim h [ ] ])
  Reaches-Marked l po pos w (Reaches.next {b} {c} path h) =
      let (lt, m) = Reaches-Marked l po pos w path in
      (
        All-In (λ z. z < func.num_blocks) (func.block_succs b) c (succs_inside b lt) h,
        elim (w.closed b c lt m h) [ inl k ↦ k | inr k ↦ elim k [ ] ],
      )

  finished :
      (stack : List (Visit × ℕ)) (l po : List ℕ)
      → 0 < func.num_blocks
      → stack ≡ []
      → IsKept (record { stack = stack; postorder = l; po_number = po })
      → IsPostOrder func (record { stack = stack; postorder = l; po_number = po })
  finished ((visit, b) ∷ rest) l po pos e w = cc
  finished [] l po pos e (w, o) = record {
    nodup = w.nodup;
    numbered = o.numbered;
    earlier = o.earlier;
    all = λ b. (
      λ h. w.reached b (w.listed b h).0 (w.listed b h).1,
      λ path.
          let (lt, m) = Reaches-Marked l po pos w path in
          elim (w.placed b lt m) [ inl h ↦ h | inr h ↦ elim h [ ] ],
    );
    answers = λ b lt.
        let read = load-ok po b 0 (rw (w.size) lt) in
        elim (Bool-cases (get_or po b 0 == 0)) [
          | inl e ↦ (
            false,
            is_reachable-eq [] l po b false read (ap not e),
            (λ k. cc, λ path. absurd ((Reaches-Marked l po pos w path).1 (ground (arith, e)))),
          )
          | inr e ↦ (
            true,
            is_reachable-eq [] l po b true read (ap not e),
            (λ k. w.reached b lt (λ z. ground (arith, e, z)), λ path. refl),
          )
        ];
  }

  -- On a function with an entry block, whose successors are blocks of the function: `compute` returns,
  -- lists every block that can be reached from the entry block once and no other, and numbers them 3, 4
  -- and so on in the order of the list. A successor of a listed block comes before it, with a smaller
  -- number, unless there is a path from the successor back to the block. `is_reachable` then returns and
  -- tells of each block whether it can be reached.
  pub compute-IsPostOrder : 0 < func.num_blocks → Returns (IsPostOrder func) (compute func)
  unfolding compute
  compute-IsPostOrder pos =
      Returns-map (λ s. IsKept s × (s.stack ≡ [])) (IsPostOrder func)
        (traverse func (suc (suc (work_left func 0 blank)))
          (record { stack = (Visit.first, 0) ∷ []; postorder = []; po_number = blank }))
        (λ s (w, e). finished s.stack s.postorder s.po_number pos e w)
        (traverse-Inv (suc (suc (work_left func 0 blank))) ((Visit.first, 0) ∷ []) [] blank
          (Inv-start pos, InOrder-start) (omega arith))
