-- ===== src/SpillAllocator/Assign.antt =====
-- A set is given its slot: the invariant of `SpillAllocator::allocate` holds again
-- (src/internal/spill_allocator.rs).
use regalloc.Base.{
  ℕ, ◌+◌, ◌≤◌, ◌<◌, ◌≡◌, ◌≢◌, ◌⊎◌, inl, inr, sym, ap, ◌∙◌, ◌==◌, if◌then◌else◌, List, [], ◌∷◌, ◌++◌,
  length, get_or, set, length-set, get_or-set, In, In-append-inv, arith, ℕ_discrete,
}
use regalloc.SpillAllocator.{SpillData}
use regalloc.SpillAllocator.Retain.{blank, range_of, size_of, slot_of, held}
use regalloc.SpillAllocator.Invariant.{Inv, Taken}

-- The table once the set `x` has the slot `q`.
abbrev pub assign : List SpillData → ℕ → ℕ → List SpillData
assign sets x q = set sets x (record (get_or sets x blank) { slot = q })

module _ (sets : List SpillData) (x q : ℕ) (h : x < length sets) where
  slot-assign : (j : ℕ) → slot_of (assign sets x q) j ≡ (if x == j then q else slot_of sets j)
  slot-assign j =
      ground (arith, get_or-set sets x j (record (get_or sets x blank) { slot = q }) blank h)

  size-assign : (j : ℕ) → size_of (assign sets x q) j ≡ size_of sets j
  size-assign j =
      ground (arith, get_or-set sets x j (record (get_or sets x blank) { slot = q }) blank h)

  range-assign : (j : ℕ) → range_of (assign sets x q) j ≡ range_of sets j
  range-assign j =
      ground (arith, get_or-set sets x j (record (get_or sets x blank) { slot = q }) blank h)

  held-assign :
      (r : ℕ) (a : List ℕ)
      → ¬ In x a
      → held (assign sets x q) r (a ++ x ∷ []) ≡ held sets r a + (if r == q then 1 else 0)
  held-assign r [] n = ground (arith, slot-assign x)
  held-assign r (b ∷ a) n =
      let differs : x ≢ b = λ e. n (inl e) in
      ground (arith, slot-assign b, held-assign r a (λ i. n (inr i)))

module _ (t sets : List SpillData) (slots : List (ℕ × ℕ)) (available active p : List ℕ)
    (cur now q x : ℕ) (k : Taken t sets slots available active p cur now q) (n : ¬ In x p)
    (h : x < length t) (size_x : size_of t x ≡ cur) (from_x : (range_of t x).from ≡ now) where
  inside_x : x < length sets
  inside_x = rw k.inv.same_len h

  self : slot_of (assign sets x q) x ≡ q
  self = ground (arith, slot-assign sets x q inside_x x)

  other : (y : ℕ) → In y p → slot_of (assign sets x q) y ≡ slot_of sets y
  other y i = elim (ℕ_discrete x y) [
    | yes e ↦ absurd (n (rw e i))
    | no m ↦ ground (arith, slot-assign sets x q inside_x y)
  ]

  -- Any set that has the slot of the new one ended before it.
  before :
      (y : ℕ) → In y p → slot_of (assign sets x q) y ≡ q → (range_of t y).to ≤ (range_of t x).from
  before y i e = rw from_x (k.done y i (sym (other y i) ∙ e))

  assign-apart :
      (y z : ℕ)
      → In y (x ∷ p)
      → In z (x ∷ p)
      → y ≢ z
      → slot_of (assign sets x q) y ≡ slot_of (assign sets x q) z
      → ((range_of t y).to ≤ (range_of t z).from) ⊎ ((range_of t z).to ≤ (range_of t y).from)
  assign-apart y z (inl a) (inl b) m e = absurd (m (a ∙ sym b))
  assign-apart y z (inl a) (inr b) m e =
      inr (rw a (before z b (sym e ∙ ap (slot_of (assign sets x q)) a ∙ self)))
  assign-apart y z (inr a) (inl b) m e =
      inl (rw b (before y a (e ∙ ap (slot_of (assign sets x q)) b ∙ self)))
  assign-apart y z (inr a) (inr b) m e = k.inv.apart y z a b m (sym (other y a) ∙ e ∙ other z b)

  -- No active set holds the slot of the new one.
  free_of : (a : List ℕ) → held sets q a ≡ 0 → (b : ℕ) → In b a → slot_of sets b ≢ q
  free_of [] e b i = elim i [ ]
  free_of (c ∷ a) e b (inl j) = λ w. absurd (ground (arith, ap (slot_of sets) j))
  free_of (c ∷ a) e b (inr j) = free_of a (ground arith) b j

  assign-active_last :
      (a y : ℕ)
      → In a (active ++ x ∷ [])
      → In y (x ∷ p)
      → y ≢ a
      → slot_of (assign sets x q) y ≡ slot_of (assign sets x q) a
      → (range_of t y).to ≤ (range_of t a).from
  assign-active_last a y i (inl e) m w = elim (In-append-inv a x active i) [
    | inl j ↦ absurd (
        free_of active (omega (arith, k.untaken)) a j
          (sym (other a (k.inv.active_in a j)) ∙ sym w ∙ ap (slot_of (assign sets x q)) e ∙ self))
    | inr j ↦ absurd (m (e ∙ sym j))
  ]
  assign-active_last a y i (inr e) m w = elim (In-append-inv a x active i) [
    | inl j ↦ k.inv.active_last a y j e m (sym (other y e) ∙ w ∙ other a (k.inv.active_in a j))
    | inr j ↦ rw j (before y e (w ∙ ap (slot_of (assign sets x q)) j ∙ self))
  ]

  pub Inv-assign : Inv t (assign sets x q) slots available (active ++ x ∷ []) (x ∷ p) cur now
  Inv-assign =
      let v = k.inv in
      record {
        same_len = length-set sets x _ ∙ v.same_len;
        sizes = λ j. size-assign sets x q inside_x j ∙ v.sizes j;
        ranges = λ j. range-assign sets x q inside_x j ∙ v.ranges j;
        inside = λ y i. elim i [ inl e ↦ rw e h | inr j ↦ v.inside y j ];
        slots_exist = λ y i. elim i [
          | inl e ↦ rw (e, self) k.exists
          | inr j ↦ rw (other y j) (v.slots_exist y j)
        ];
        slot_sizes = λ y i. elim i [
          | inl e ↦ rw (e, self) (k.sized ∙ sym size_x)
          | inr j ↦ rw (other y j) (v.slot_sizes y j)
        ];
        apart = assign-apart;
        once = λ r. ground (
          arith,
          held-assign sets x q inside_x r active (λ i. n (v.active_in x i)),
          v.once r,
          k.untaken,
        );
        available_exist = v.available_exist;
        available_sizes = v.available_sizes;
        free = λ r y c i e. elim i [
          | inl j ↦ absurd (ground (arith, k.untaken, self, ap (slot_of (assign sets x q)) j))
          | inr j ↦ v.free r y c j (sym (other y j) ∙ e)
        ];
        active_in = λ a i. elim (In-append-inv a x active i) [
          | inl j ↦ inr (v.active_in a j)
          | inr j ↦ inl j
        ];
        active_from = λ a i. elim (In-append-inv a x active i) [
          | inl j ↦ v.active_from a j
          | inr j ↦ rw j (omega (arith, from_x))
        ];
        active_sizes = λ a i. elim (In-append-inv a x active i) [
          | inl j ↦ v.active_sizes a j
          | inr j ↦ rw j size_x
        ];
        active_last = assign-active_last;
      }
