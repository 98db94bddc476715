-- ===== src/SpillAllocator/Invariant.antt =====
-- The invariant of the loop of `SpillAllocator::allocate` (src/internal/spill_allocator.rs).
use regalloc.Base.{
  ℕ, ◌+◌, ◌≤◌, ◌<◌, ◌≡◌, ◌≢◌, ◌⊎◌, inl, inr, refl, sym, ap, ◌∙◌, List, [], ◌∷◌, ◌++◌, length,
  get_or, length-append, In, count, arith, get_or-append_left, get_or-append_last, ℕ_discrete,
}
use regalloc.SpillAllocator.{SpillData}
use regalloc.SpillAllocator.Retain.{range_of, size_of, slot_of, held, Retained}

-- The invariant of the loop. `t` is the table before `allocate`, which only `slot` fields leave; `p`
-- are the sets that have a slot, the last of them of size `cur` and starting at `now` or before.
pub record Inv (t sets : List SpillData) (slots : List (ℕ × ℕ)) (available active p : List ℕ)
    (cur now : ℕ) : Type 0 where
  pub same_len : length sets ≡ length t
  pub sizes : (j : ℕ) → size_of sets j ≡ size_of t j
  pub ranges : (j : ℕ) → range_of sets j ≡ range_of t j
  pub inside : (y : ℕ) → In y p → y < length t
  pub slots_exist : (y : ℕ) → In y p → slot_of sets y < length slots
  pub slot_sizes : (y : ℕ) → In y p → (get_or slots (slot_of sets y) (0, 0)).1 ≡ size_of t y
  pub apart :
      (y z : ℕ)
      → In y p
      → In z p
      → y ≢ z
      → slot_of sets y ≡ slot_of sets z
      → ((range_of t y).to ≤ (range_of t z).from) ⊎ ((range_of t z).to ≤ (range_of t y).from)
  pub once : (q : ℕ) → count q available + held sets q active ≤ 1
  pub available_exist : (q : ℕ) → 0 < count q available → q < length slots
  pub available_sizes : (q : ℕ) → 0 < count q available → (get_or slots q (0, 0)).1 ≡ cur
  pub free :
      (q y : ℕ) → 0 < count q available → In y p → slot_of sets y ≡ q → (range_of t y).to ≤ now
  pub active_in : (a : ℕ) → In a active → In a p
  pub active_from : (a : ℕ) → In a active → (range_of t a).from ≤ now
  pub active_sizes : (a : ℕ) → In a active → size_of t a ≡ cur
  pub active_last :
      (a y : ℕ)
      → In a active
      → In y p
      → y ≢ a
      → slot_of sets y ≡ slot_of sets a
      → (range_of t y).to ≤ (range_of t a).from

module _ {t sets : List SpillData} {slots : List (ℕ × ℕ)} {available active p : List ℕ}
    {cur now : ℕ} where
  -- A set of the same size starts later.
  pub Inv-later :
      {now' : ℕ}
      → now ≤ now'
      → Inv t sets slots available active p cur now
      → Inv t sets slots available active p cur now'
  Inv-later le v = record {
    same_len = v.same_len;
    sizes = v.sizes;
    ranges = v.ranges;
    inside = v.inside;
    slots_exist = v.slots_exist;
    slot_sizes = v.slot_sizes;
    apart = v.apart;
    once = v.once;
    available_exist = v.available_exist;
    available_sizes = v.available_sizes;
    free = λ q y c i e. omega (arith, v.free q y c i e);
    active_in = v.active_in;
    active_from = λ a i. omega (arith, v.active_from a i);
    active_sizes = v.active_sizes;
    active_last = v.active_last;
  }

  -- A set of another size takes no slot that is in use.
  pub Inv-cleared :
      (cur' now' : ℕ)
      → Inv t sets slots available active p cur now
      → Inv t sets slots [] [] p cur' now'
  Inv-cleared cur' now' v = record {
    same_len = v.same_len;
    sizes = v.sizes;
    ranges = v.ranges;
    inside = v.inside;
    slots_exist = v.slots_exist;
    slot_sizes = v.slot_sizes;
    apart = v.apart;
    once = λ q. omega arith;
    available_exist = λ q c. absurd (omega arith);
    available_sizes = λ q c. absurd (omega arith);
    free = λ q y c i e. absurd (omega arith);
    active_in = λ a i. elim i [ ];
    active_from = λ a i. elim i [ ];
    active_sizes = λ a i. elim i [ ];
    active_last = λ a y i. elim i [ ];
  }

  -- After `retain` at `now`.
  pub Inv-Retained :
      (kept available' : List ℕ)
      → Inv t sets slots available active p cur now
      → Retained sets now active available kept available'
      → Inv t sets slots available' kept p cur now
  Inv-Retained kept available' v r = record {
    same_len = v.same_len;
    sizes = v.sizes;
    ranges = v.ranges;
    inside = v.inside;
    slots_exist = v.slots_exist;
    slot_sizes = v.slot_sizes;
    apart = v.apart;
    once = λ q. omega (arith, v.once q, r.hands q);
    available_exist = λ q c. elim (r.given q c) [
      | inl k ↦ v.available_exist q k
      | inr (a, i, e, z) ↦ rw e at (v.slots_exist a (v.active_in a i))
    ];
    available_sizes = λ q c. elim (r.given q c) [
      | inl k ↦ v.available_sizes q k
      | inr (a, i, e, z) ↦
          ap (λ x. (get_or slots x (0, 0)).1) (sym e)
          ∙ v.slot_sizes a (v.active_in a i)
          ∙ v.active_sizes a i
    ];
    free = λ q y c i e. elim (r.given q c) [
      | inl k ↦ v.free q y k i e
      | inr (a, j, w, z) ↦ elim (ℕ_discrete y a) [
        | yes u ↦ rw u (rw (v.ranges a) at z)
        | no u ↦ omega (arith, v.active_last a y j i u (e ∙ sym w), v.active_from a j)
      ]
    ];
    active_in = λ a i. v.active_in a (r.kept_active a i);
    active_from = λ a i. v.active_from a (r.kept_active a i);
    active_sizes = λ a i. v.active_sizes a (r.kept_active a i);
    active_last = λ a y i. v.active_last a y (r.kept_active a i);
  }

-- The slot `q` for the next set: it exists, has the size `cur`, is in no other hand, and the sets
-- that had it before have ended by `now`.
pub record Taken (t sets : List SpillData) (slots : List (ℕ × ℕ)) (available active p : List ℕ)
    (cur now q : ℕ) : Type 0 where
  pub inv : Inv t sets slots available active p cur now
  pub exists : q < length slots
  pub sized : (get_or slots q (0, 0)).1 ≡ cur
  pub untaken : count q available + held sets q active ≡ 0
  pub done : (y : ℕ) → In y p → slot_of sets y ≡ q → (range_of t y).to ≤ now

held-none :
    (sets : List SpillData) (q : ℕ) (a : List ℕ)
    → ((b : ℕ) → In b a → slot_of sets b ≢ q)
    → held sets q a ≡ 0
held-none sets q [] h = refl
held-none sets q (b ∷ a) h =
    let tail = held-none sets q a (λ c i. h c (inr i)) in
    let differs : slot_of sets b ≢ q = h b (inl refl) in ground arith

module _ {t sets : List SpillData} {slots : List (ℕ × ℕ)} {active p : List ℕ} {cur now : ℕ} where
  pub Taken-pop :
      (q : ℕ) (rest : List ℕ)
      → Inv t sets slots (q ∷ rest) active p cur now
      → Taken t sets slots rest active p cur now q
  Taken-pop q rest v = record {
    inv = record {
      same_len = v.same_len;
      sizes = v.sizes;
      ranges = v.ranges;
      inside = v.inside;
      slots_exist = v.slots_exist;
      slot_sizes = v.slot_sizes;
      apart = v.apart;
      once = λ r. ground (arith, v.once r);
      available_exist = λ r c. v.available_exist r (ground arith);
      available_sizes = λ r c. v.available_sizes r (ground arith);
      free = λ r y c. v.free r y (ground arith);
      active_in = v.active_in;
      active_from = v.active_from;
      active_sizes = v.active_sizes;
      active_last = v.active_last;
    };
    exists = v.available_exist q (ground arith);
    sized = v.available_sizes q (ground arith);
    untaken = ground (arith, v.once q);
    done = λ y. v.free q y (ground arith);
  }

  pub Taken-fresh :
      (area : ℕ)
      → Inv t sets slots [] active p cur now
      → Taken t sets (slots ++ (area, cur) ∷ []) [] active p cur now (length slots)
  Taken-fresh area v =
      let longer = length-append slots ((area, cur) ∷ []) in
      record {
        inv = record {
          same_len = v.same_len;
          sizes = v.sizes;
          ranges = v.ranges;
          inside = v.inside;
          slots_exist = λ y i. omega (arith, v.slots_exist y i, longer);
          slot_sizes = λ y i.
              ap (λ x. x.1)
                (get_or-append_left slots ((area, cur) ∷ []) (slot_of sets y) (0, 0)
                  (v.slots_exist y i))
              ∙ v.slot_sizes y i;
          apart = v.apart;
          once = v.once;
          available_exist = λ r c. absurd (omega arith);
          available_sizes = λ r c. absurd (omega arith);
          free = λ r y c. absurd (omega arith);
          active_in = v.active_in;
          active_from = v.active_from;
          active_sizes = v.active_sizes;
          active_last = v.active_last;
        };
        exists = omega (arith, longer);
        sized = ap (λ x. x.1) (get_or-append_last slots (area, cur) (0, 0) (length slots) refl);
        untaken = omega (
          arith,
          held-none sets (length slots) active
              (λ b i e. absurd (omega (arith, v.slots_exist b (v.active_in b i)))),
        );
        done = λ y i e. absurd (omega (arith, v.slots_exist y i));
      }
