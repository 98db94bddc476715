-- ===== src/SpillAllocator/Step.antt =====
-- The body of the loop of `SpillAllocator::allocate` (src/internal/spill_allocator.rs).
use mathlib.Core.Path.{subst}
use regalloc.Base.{
  ℕ, ◌+◌, ◌^◌, ◌≤◌, ◌<◌, ◌≡◌, ◌≢◌, ◌⊎◌, inl, inr, refl, sym, ap, ◌∙◌, false, ltb, ◌==◌, List, [],
  ◌∷◌, ◌++◌, length, get_or, set, load-ok, store-ok, ok, err, function_too_big, Returns-inv,
  ReturnsOrErr, In, arith, Bool-cases, ==_iff, ℕ_discrete,
}
use regalloc.LiveRange.{u32_mod}
use regalloc.SpillAllocator.{
  SpillData, SpillAllocator, retain, take_slot, change_size, allocate_set,
}
use regalloc.SpillAllocator.Retain.{blank, range_of, size_of, Retained, retain_retains}
use regalloc.SpillAllocator.Invariant.{
  Inv, Inv-later, Inv-cleared, Inv-Retained, Taken, Taken-pop, Taken-fresh,
}
use regalloc.SpillAllocator.Assign.{Inv-assign}

-- The slots and the area after a set of this size has got its slot: as before, or with a slot of the
-- size at the end of the area.
abbrev pub Grew : List (ℕ × ℕ) → ℕ → List (ℕ × ℕ) → ℕ → ℕ → Type 0
Grew slots area slots' area' size =
    ((slots' ≡ slots) × (area' ≡ area))
    ⊎ ((slots' ≡ slots ++ (area, size) ∷ []) × (area' ≡ area + 2 ^ size) × (area' < u32_mod))

module _ {V : Type 0} where
  abbrev pub InvOf : List SpillData → SpillAllocator V → List ℕ → ℕ → ℕ → Type 0
  InvOf t s p cur now = Inv t s.sets s.slots s.available_slots s.active_sets p cur now

  abbrev TakenBy :
      List SpillData → SpillAllocator V → List ℕ → ℕ → ℕ → ℕ → SpillAllocator V → Type 0
  TakenBy t s p cur now q s' =
      (s'.sets ≡ s.sets)
      × (s'.active_sets ≡ s.active_sets)
      × Grew s.slots s.spillslot_area_size s'.slots s'.spillslot_area_size cur
      × Taken t s.sets s'.slots s'.available_slots s.active_sets p cur now q

  take_slot_takes :
      (t : List SpillData) (s : SpillAllocator V) (p : List ℕ) (cur now : ℕ)
      → InvOf t s p cur now
      → ((q : ℕ) × (s' : SpillAllocator V) × (take_slot s cur ≡ ok (q, s'))
          × TakenBy t s p cur now q s')
        ⊎ (take_slot s cur ≡ err function_too_big)
  unfolding take_slot
  take_slot_takes t s p cur now v = go s.available_slots refl
    where
      go :
          (l : List ℕ)
          → s.available_slots ≡ l
          → ((q : ℕ) × (s' : SpillAllocator V) × (take_slot s cur ≡ ok (q, s'))
              × TakenBy t s p cur now q s')
            ⊎ (take_slot s cur ≡ err function_too_big)
      go (q ∷ rest) e = inl (
        q,
        record s { available_slots = rest },
        rw e,
        (
          refl,
          refl,
          inl (refl, refl),
          Taken-pop q rest (subst (λ l. Inv t s.sets s.slots l s.active_sets p cur now) e v),
        ),
      )
      go [] e =
          let fresh =
            Taken-fresh s.spillslot_area_size
              (subst (λ l. Inv t s.sets s.slots l s.active_sets p cur now) e v) in
          elim (Bool-cases (ltb (s.spillslot_area_size + 2 ^ cur) u32_mod)) [
            | inl fits ↦ inl (
              length s.slots,
              record s {
                slots = s.slots ++ (s.spillslot_area_size, cur) ∷ [];
                spillslot_area_size = s.spillslot_area_size + 2 ^ cur;
              },
              rw (e, fits),
              (
                refl,
                refl,
                inr (refl, refl, ground arith),
                subst
                    (λ l.
                      Taken t s.sets (s.slots ++ (s.spillslot_area_size, cur) ∷ []) l s.active_sets
                        p cur now (length s.slots))
                    (sym e) fresh,
              ),
            )
            | inr big ↦ inr (rw (e, big))
          ]

  change_size-Inv :
      (t : List SpillData) (s : SpillAllocator V) (p : List ℕ) (cur now size now' : ℕ)
      → InvOf t s p cur now
      → (size ≢ cur) ⊎ (now ≤ now')
      → InvOf t (change_size cur size s) p size now'
  unfolding change_size
  change_size-Inv t s p cur now size now' v order = elim (ℕ_discrete size cur) [
    | yes e ↦ rw ((==_iff size cur).1 e) (rw e (Inv-later (ground arith) v))
    | no n ↦
        let differs : (size == cur) ≡ false = ground arith in rw differs (Inv-cleared size now' v)
  ]

  change_size-sets : (cur size : ℕ) (s : SpillAllocator V) → (change_size cur size s).sets ≡ s.sets
  unfolding change_size
  change_size-sets cur size s = ground arith

  change_size-slots :
      (cur size : ℕ) (s : SpillAllocator V) → (change_size cur size s).slots ≡ s.slots
  unfolding change_size
  change_size-slots cur size s = ground arith

  change_size-area :
      (cur size : ℕ) (s : SpillAllocator V)
      → (change_size cur size s).spillslot_area_size ≡ s.spillslot_area_size
  unfolding change_size
  change_size-area cur size s = ground arith

  -- The state in which `allocate_set` asks for a slot.
  abbrev asking : ℕ → SpillAllocator V → ℕ → List ℕ → List ℕ → SpillAllocator V
  asking cur s x kept available = record (change_size cur (size_of s.sets x) s) {
    active_sets = kept;
    available_slots = available;
  }

  module _ (cur : ℕ) (s : SpillAllocator V) (x : ℕ) (kept available : List ℕ)
      (h : x < length s.sets)
      (retained : let s₁ = change_size cur (size_of s.sets x) s in
        retain s₁.sets (range_of s.sets x).from s₁.active_sets s₁.available_slots
        ≡ ok (kept, available)) where
    allocate_set-err :
        take_slot (asking cur s x kept available) (size_of s.sets x) ≡ err function_too_big
        → allocate_set cur s x ≡ err function_too_big
    unfolding allocate_set
    allocate_set-err e = rw (load-ok s.sets x blank h, allocate_set) (rw (retained, e))

    allocate_set-ok :
        (q : ℕ) (s' : SpillAllocator V)
        → take_slot (asking cur s x kept available) (size_of s.sets x) ≡ ok (q, s')
        → x < length s'.sets
        → allocate_set cur s x
          ≡ ok (record s' {
            sets = set s'.sets x (record (get_or s.sets x blank) { slot = q });
            active_sets = s'.active_sets ++ x ∷ [];
          })
    unfolding allocate_set
    allocate_set-ok q s' e h' =
        rw (load-ok s.sets x blank h, allocate_set) (rw (retained, e, store-ok s'.sets x _ h'))

  assigned-Inv :
      (t sets : List SpillData) (s' : SpillAllocator V) (kept p : List ℕ) (size now q x : ℕ)
      (d : SpillData)
      → s'.sets ≡ sets
      → s'.active_sets ≡ kept
      → d ≡ get_or sets x blank
      → Taken t sets s'.slots s'.available_slots kept p size now q
      → ¬ In x p
      → x < length t
      → size_of t x ≡ size
      → (range_of t x).from ≡ now
      → Inv t
          (set s'.sets x (record d { slot = q }))
          s'.slots
          s'.available_slots
          (s'.active_sets ++ x ∷ [])
          (x ∷ p)
          size
          now
  assigned-Inv t sets s' kept p size now q x d es ea ed taken n h hs hf =
      simp (es, ea, ed)
        (Inv-assign t sets s'.slots s'.available_slots kept p size now q x taken n h hs hf)

  -- What `allocate_set` promises.
  abbrev pub AllocatedSet :
      List SpillData → SpillAllocator V → List ℕ → ℕ → SpillAllocator V → Type 0
  AllocatedSet t s p x s' =
      InvOf t s' (x ∷ p) (size_of s.sets x) (range_of s.sets x).from
      × Grew s.slots s.spillslot_area_size s'.slots s'.spillslot_area_size (size_of s.sets x)

  pub allocate_set_lem :
      (t : List SpillData) (s : SpillAllocator V) (p : List ℕ) (cur now x : ℕ)
      → InvOf t s p cur now
      → ¬ In x p
      → x < length t
      → (size_of t x ≢ cur) ⊎ (now ≤ (range_of t x).from)
      → ReturnsOrErr (AllocatedSet t s p x) (allocate_set cur s x)
  allocate_set_lem t s p cur now x v n h order =
      let s₁ = change_size cur (size_of s.sets x) s in
      let size = size_of s.sets x in
      let start = (range_of s.sets x).from in
      let hx : x < length s.sets = rw v.same_len h in
      let v₁ : InvOf t s₁ p size start =
        change_size-Inv t s p cur now size start v (rw (v.sizes x, v.ranges x) order) in
      let ((kept, available), run, r) =
        Returns-inv (λ (k, a). Retained s₁.sets start s₁.active_sets s₁.available_slots k a)
          (retain s₁.sets start s₁.active_sets s₁.available_slots)
          (retain_retains s₁.sets start s₁.active_sets s₁.available_slots
            (λ a i. rw v₁.same_len (v₁.inside a (v₁.active_in a i)))) in
      elim (take_slot_takes t (asking cur s x kept available) p size start
        (Inv-Retained kept available v₁ r)) [
          | inl (q, s', took, by) ↦
              let same : s'.sets ≡ s.sets = by.0 ∙ change_size-sets cur size s in
              rw (allocate_set-ok cur s x kept available hx run q s' took (rw same hx)) (
                (assigned-Inv t s₁.sets s' kept p size start q x (get_or s.sets x blank) by.0 by.1
                    (ap (λ l. get_or l x blank) (sym (change_size-sets cur size s))) by.3 n h
                    (sym (v.sizes x)) (ap (λ z. z.from) (sym (v.ranges x)))),
                rw (change_size-slots cur size s, change_size-area cur size s) at by.2,
              )
          | inr e ↦ rw (allocate_set-err cur s x kept available hx run e) tt
        ]
