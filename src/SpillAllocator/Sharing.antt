-- ===== src/SpillAllocator/Sharing.antt =====
-- `SpillAllocator::allocate` (src/internal/spill_allocator.rs): which sets may share a slot.
use regalloc.Base.{
  ℕ, ◌≤◌, ◌<◌, ◌≡◌, ◌≢◌, ◌⊎◌, inl, inr, refl, ap, List, [], ◌∷◌, length, get_or, load-ok,
  ReturnsOrErr, ReturnsOrErr-bind, ReturnsOrErr-map, In, IsNodup, arith,
}
use regalloc.SpillAllocator.{SpillData, SpillAllocator, allocate_set, allocate_loop, allocate}
use regalloc.SpillAllocator.Retain.{blank, range_of, size_of, slot_of}
use regalloc.SpillAllocator.Invariant.{Inv}
use regalloc.SpillAllocator.Step.{Grew, InvOf, AllocatedSet, allocate_set_lem}

-- The next set of an order by size, the highest first, and then by the start of the range.
abbrev pub NotBefore : List SpillData → ℕ → ℕ → ℕ → Type 0
NotBefore t size now x = (size_of t x < size) ⊎ ((size_of t x ≡ size) × (now ≤ (range_of t x).from))

abbrev pub IsOrderedFrom : List SpillData → ℕ → ℕ → List ℕ → Type 0
IsOrderedFrom t size now [] = Unit
IsOrderedFrom t size now (x ∷ order) =
    NotBefore t size now x × IsOrderedFrom t (size_of t x) (range_of t x).from order

-- What the sort of `allocate` leaves.
abbrev pub IsOrdered : List SpillData → List ℕ → Type 0
IsOrdered t [] = Unit
IsOrdered t (x ∷ order) = IsOrderedFrom t (size_of t x) (range_of t x).from order

-- All that the loop needs of the order: sets of one size come by the starts of their ranges, and no
-- size is higher than the one before.
abbrev FollowsAll : List SpillData → ℕ → ℕ → ℕ → List ℕ → Type 0
FollowsAll t size now top [] = Unit
FollowsAll t size now top (x ∷ order) =
    ((size_of t x ≢ size) ⊎ (now ≤ (range_of t x).from))
    × (size_of t x ≤ top)
    × FollowsAll t (size_of t x) (range_of t x).from (size_of t x) order

IsOrderedFrom-FollowsAll :
    (t : List SpillData) (size now : ℕ) (order : List ℕ)
    → IsOrderedFrom t size now order
    → FollowsAll t size now size order
IsOrderedFrom-FollowsAll t size now [] h = tt
IsOrderedFrom-FollowsAll t size now (x ∷ order) h = (
  ground arith,
  ground arith,
  IsOrderedFrom-FollowsAll t (size_of t x) (range_of t x).from order h.1,
)

abbrev first_size : List SpillData → List ℕ → ℕ
first_size t [] = 0
first_size t (x ∷ order) = size_of t x

IsOrdered-FollowsAll :
    (t : List SpillData) (order : List ℕ)
    → IsOrdered t order
    → FollowsAll t 0 0 (first_size t order) order
IsOrdered-FollowsAll t [] h = tt
IsOrdered-FollowsAll t (x ∷ order) h = (
  inr (omega arith),
  omega arith,
  IsOrderedFrom-FollowsAll t (size_of t x) (range_of t x).from order h,
)

-- Every set of `order` has a slot of its size, two sets have one slot only where their ranges do not
-- overlap, and sizes and ranges are those of the table `t` before.
pub record Allocated {V : Type 0} (t : List SpillData) (order : List ℕ) (s : SpillAllocator V)
    : Type 0 where
  pub same_len : length s.sets ≡ length t
  pub sizes : (y : ℕ) → size_of s.sets y ≡ size_of t y
  pub ranges : (y : ℕ) → range_of s.sets y ≡ range_of t y
  pub slots_exist : (y : ℕ) → In y order → slot_of s.sets y < length s.slots
  pub slot_sizes : (y : ℕ) → In y order → (get_or s.slots (slot_of s.sets y) (0, 0)).1 ≡ size_of t y
  pub apart :
      (y z : ℕ)
      → In y order
      → In z order
      → y ≢ z
      → slot_of s.sets y ≡ slot_of s.sets z
      → ((range_of t y).to ≤ (range_of t z).from) ⊎ ((range_of t z).to ≤ (range_of t y).from)

-- A further invariant `layout` of the slots and the area, at a size that those of the sets to come do
-- not exceed.
module _ {V : Type 0} (t : List SpillData) (layout : List (ℕ × ℕ) → ℕ → ℕ → Type 0)
    (grows : (slots slots' : List (ℕ × ℕ)) (area area' top size : ℕ)
      → size ≤ top
      → layout slots area top
      → Grew slots area slots' area' size
      → layout slots' area' size) where
  abbrev Holds : List ℕ → SpillAllocator V → Type 0
  Holds order s =
      (p : List ℕ) × (cur : ℕ) × (now : ℕ) × Inv t s.sets s.slots s.available_slots s.active_sets p
        cur now
      × ((y : ℕ) → In y order → In y p)
      × ((top : ℕ) × layout s.slots s.spillslot_area_size top)

  allocate_loop_lem :
      (order : List ℕ) (s : SpillAllocator V) (p done : List ℕ) (cur now top : ℕ)
      → InvOf t s p cur now
      → layout s.slots s.spillslot_area_size top
      → ((y : ℕ) → In y done → In y p ⊎ In y order)
      → ((y : ℕ) → In y order → (y < length t) × (¬ In y p))
      → IsNodup order
      → FollowsAll t cur now top order
      → ReturnsOrErr (Holds done) (allocate_loop cur s order)
  unfolding allocate_loop
  allocate_loop_lem [] s p done cur now top v l all new nodup ordered =
      (p, cur, now, v, λ y i. elim (all y i) [ inl j ↦ j | inr j ↦ elim j [ ] ], (top, l))
  allocate_loop_lem (x ∷ order) s p done cur now top v l all new nodup ordered =
      let hx : x < length s.sets = rw v.same_len (new x (inl refl)).0 in
      rw (load-ok s.sets x blank hx) (
        ReturnsOrErr-bind (AllocatedSet t s p x) (Holds done) (allocate_set cur s x)
          (λ s'. allocate_loop (size_of s.sets x) s' order)
          (λ s' (v', grew).
            allocate_loop_lem order s' (x ∷ p) done (size_of s.sets x) (range_of s.sets x).from
              (size_of s.sets x) v'
              (grows s.slots s'.slots s.spillslot_area_size s'.spillslot_area_size top
                (size_of s.sets x) (rw (v.sizes x) ordered.1) l grew)
              (λ y i. elim (all y i) [
                | inl j ↦ inl (inr j)
                | inr (inl e) ↦ inl (inl e)
                | inr (inr j) ↦ inr j
              ])
              (λ y i. (
                (new y (inr i)).0,
                λ j. elim j [ inl e ↦ nodup.0 (rw e at i) | inr k ↦ (new y (inr i)).1 k ],
              ))
              nodup.1 (rw (v.sizes x, v.ranges x) ordered.2))
          (allocate_set_lem t s p cur now x v (new x (inl refl)).1 (new x (inl refl)).0 ordered.0))

  empty-Inv : (s : SpillAllocator V) → s.sets ≡ t → Inv t s.sets [] [] [] [] 0 0
  empty-Inv s same = record {
    same_len = ap length same;
    sizes = λ j. ap (λ l. size_of l j) same;
    ranges = λ j. ap (λ l. range_of l j) same;
    inside = λ y i. elim i [ ];
    slots_exist = λ y i. elim i [ ];
    slot_sizes = λ y i. elim i [ ];
    apart = λ y z i. elim i [ ];
    once = λ q. omega arith;
    available_exist = λ q c. absurd (omega arith);
    available_sizes = λ q c. absurd (omega arith);
    free = λ q y c i. elim i [ ];
    active_in = λ a i. elim i [ ];
    active_from = λ a i. elim i [ ];
    active_sizes = λ a i. elim i [ ];
    active_last = λ a y i. elim i [ ];
  }

  -- `allocate` keeps the invariant and the further one.
  pub allocate_lem :
      (s : SpillAllocator V) (order : List ℕ)
      → s.sets ≡ t
      → ((top : ℕ) → layout [] 0 top)
      → IsNodup order
      → ((y : ℕ) → In y order → y < length t)
      → IsOrdered t order
      → ReturnsOrErr
          (λ s'. Allocated t order s' × ((top : ℕ) × layout s'.slots s'.spillslot_area_size top))
          (allocate s order)
  unfolding allocate
  allocate_lem s order same laid nodup inside ordered =
      ReturnsOrErr-map (Holds order)
        (λ s'. Allocated t order s' × ((top : ℕ) × layout s'.slots s'.spillslot_area_size top)) _
        (λ s' (p, cur, now, v, all, l). (
          record {
            same_len = v.same_len;
            sizes = v.sizes;
            ranges = v.ranges;
            slots_exist = λ y i. v.slots_exist y (all y i);
            slot_sizes = λ y i. v.slot_sizes y (all y i);
            apart = λ y z i j. v.apart y z (all y i) (all z j);
          },
          l,
        ))
        (allocate_loop_lem order _ [] order 0 0 (first_size t order) (empty-Inv s same)
          (laid (first_size t order)) (λ y i. inr i) (λ y i. (inside y i, λ j. j)) nodup
          (IsOrdered-FollowsAll t order ordered))

-- `allocate` on an order without duplicates, of sets of the table, that is sorted by size and start:
-- it ends without a panic, and where it does not report that the function is too big, every set of
-- the order has a slot of its size, two sets share one only where their live ranges do not overlap,
-- and the sizes and ranges of all sets are as before.
pub allocate_allocates :
    {V : Type 0} (s : SpillAllocator V) (order : List ℕ)
    → IsNodup order
    → ((y : ℕ) → In y order → y < length s.sets)
    → IsOrdered s.sets order
    → ReturnsOrErr (Allocated s.sets order) (allocate s order)
allocate_allocates s order nodup inside ordered =
    ReturnsOrErr-map (λ s'. Allocated s.sets order s' × ((top : ℕ) × Unit {0}))
      (Allocated s.sets order) (allocate s order) (λ s' r. r.0)
      (allocate_lem s.sets (λ slots area top. Unit {0}) (λ a b c d e f g h k. tt) s order refl
        (λ top. tt) nodup inside ordered)
