-- ===== src/SpillAllocator/Layout.antt =====
-- The stack frame that `SpillAllocator` lays out (src/internal/spill_allocator.rs): where each slot
-- lies in the spill area.
use native.Mathlib.Nat.{pow-suc, mod-eq_of_lt, div-add-mod', mod-lt}
use regalloc.Base.{
  ℕ, zero, suc, ◌+◌, ◌-◌, ◌*◌, ◌/◌, ◌%◌, ◌^◌, ◌≤◌, ◌<◌, ◌≡◌, inl, inr, refl, sym, ap, ◌∙◌, List, [],
  ◌∷◌, ◌++◌, length, get_or, length-append, get_or-append_left, get_or-append_last, ltb, ◌==◌,
  arith, false, Bool-cases, ReturnsOrErr, In, IsNodup, ReturnsOrErr-map,
}
use regalloc.LiveRange.{u32_mod}
use regalloc.SpillAllocator.{SpillAllocator, bytes, alloc_emergency_spillslot, allocate}
use regalloc.SpillAllocator.Step.{Grew}
use regalloc.SpillAllocator.Sharing.{IsOrdered, Allocated, allocate_lem}

abbrev pub offset_of : List (ℕ × ℕ) → ℕ → ℕ
offset_of slots i = (get_or slots i (0, 0)).0

abbrev pub bytes_of : List (ℕ × ℕ) → ℕ → ℕ
bytes_of slots i = bytes (get_or slots i (0, 0)).1

-- The slots lie one behind the other, each at a multiple of its size, within an area of `u32` size.
pub record IsLaidOut (slots : List (ℕ × ℕ)) (area : ℕ) : Type 0 where
  pub within : (i : ℕ) → i < length slots → offset_of slots i + bytes_of slots i ≤ area
  pub behind :
      (i j : ℕ)
      → i < j
      → j < length slots
      → offset_of slots i + bytes_of slots i ≤ offset_of slots j
  pub aligned : (i : ℕ) → i < length slots → (m : ℕ) × (offset_of slots i ≡ m * bytes_of slots i)
  pub fits : area < u32_mod

pow-pos : (n : ℕ) → 0 < 2 ^ n
pow-pos zero = omega arith
pow-pos (suc n) = rw pow-suc (omega (arith, pow-pos n))

-- A slot of `size` is appended at `at`, a multiple of its size at the end of the area or behind it.
IsLaidOut-append :
    (slots : List (ℕ × ℕ)) (area at size m : ℕ)
    → IsLaidOut slots area
    → area ≤ at
    → at ≡ m * bytes size
    → at + bytes size < u32_mod
    → IsLaidOut (slots ++ (at, size) ∷ []) (at + bytes size)
IsLaidOut-append slots area at size m l behind al fits = record {
  within = λ i h. elim (Bool-cases (ltb i (length slots))) [
    | inl e ↦
        omega (
          arith,
          old_offset i (ground arith),
          old_bytes i (ground arith),
          l.within i (ground arith),
        )
    | inr e ↦ omega (arith, new_offset i (last i h e), new_bytes i (last i h e))
  ];
  behind = λ i j p h. elim (Bool-cases (ltb j (length slots))) [
    | inl e ↦ omega (
      arith,
      old_offset i (ground arith),
      old_bytes i (ground arith),
      old_offset j (ground arith),
      l.behind i j p (ground arith),
    )
    | inr e ↦
        let q : i < length slots = ground (arith, last j h e) in
        omega (arith, old_offset i q, old_bytes i q, new_offset j (last j h e), l.within i q)
  ];
  aligned = λ i h. elim (Bool-cases (ltb i (length slots))) [
    | inl e ↦
        let (k, q) = l.aligned i (ground arith) in
        (k, old_offset i (ground arith) ∙ q ∙ ap (λ x. k * x) (sym (old_bytes i (ground arith))))
    | inr e ↦ (m, new_offset i (last i h e) ∙ al ∙ ap (λ x. m * x) (sym (new_bytes i (last i h e))))
  ];
  fits = fits;
}
  where
    slots' : List (ℕ × ℕ)
    slots' = slots ++ (at, size) ∷ []

    last : (i : ℕ) → i < length slots' → ltb i (length slots) ≡ false → i ≡ length slots
    last i h e = ground (arith, length-append slots ((at, size) ∷ []))

    old_offset : (i : ℕ) → i < length slots → offset_of slots' i ≡ offset_of slots i
    old_offset i h = ap (λ x. x.0) (get_or-append_left slots ((at, size) ∷ []) i (0, 0) h)

    old_bytes : (i : ℕ) → i < length slots → bytes_of slots' i ≡ bytes_of slots i
    old_bytes i h = ap (λ x. bytes x.1) (get_or-append_left slots ((at, size) ∷ []) i (0, 0) h)

    new_offset : (i : ℕ) → i ≡ length slots → offset_of slots' i ≡ at
    new_offset i h = ap (λ x. x.0) (get_or-append_last slots (at, size) (0, 0) i h)

    new_bytes : (i : ℕ) → i ≡ length slots → bytes_of slots' i ≡ bytes size
    new_bytes i h = ap (λ x. bytes x.1) (get_or-append_last slots (at, size) (0, 0) i h)

-- 2 ^ b splits at any a up to b.
pow_split : (a b : ℕ) → a ≤ b → (m : ℕ) × (2 ^ b ≡ m * 2 ^ a)
pow_split a zero h =
    let z : a ≡ 0 = omega arith in
    let q : 2 ^ zero ≡ 2 ^ a = ap (λ x. 2 ^ x) (sym z) in (1, omega (arith, q))
pow_split a (suc b) h = elim (Bool-cases (a == suc b)) [
  | inl e ↦
      let z : suc b ≡ a = ground arith in
      let q : 2 ^ suc b ≡ 2 ^ a = ap (λ x. 2 ^ x) z in (1, omega (arith, q))
  | inr e ↦ let (m, q) = pow_split a b (ground arith) in (2 * m, omega (arith, pow-suc 2 b, q))
]

-- The layout, with an area that a slot of size `top` may begin at the end of.
pub record IsLaidOutFor (slots : List (ℕ × ℕ)) (area top : ℕ) : Type 0 where
  pub laid : IsLaidOut slots area
  pub multiple : ℕ
  pub ends : area ≡ multiple * bytes top

empty-IsLaidOutFor : (top : ℕ) → IsLaidOutFor [] 0 top
empty-IsLaidOutFor top = record {
  laid = record {
    within = λ i h. absurd (omega arith);
    behind = λ i j p h. absurd (omega arith);
    aligned = λ i h. absurd (omega arith);
    fits = omega arith;
  };
  multiple = 0;
  ends = omega arith;
}

IsLaidOutFor-Grew :
    (slots slots' : List (ℕ × ℕ)) (area area' top size : ℕ)
    → size ≤ top
    → IsLaidOutFor slots area top
    → Grew slots area slots' area' size
    → IsLaidOutFor slots' area' size
IsLaidOutFor-Grew slots slots' area area' top size le l grew =
    let (k, split) = pow_split size top le in
    let whole : area ≡ l.multiple * k * bytes size = grind (arith, l.ends, split) in
    elim grew [
      | inl same ↦
          rw (same.0, same.1) (record { laid = l.laid; multiple = l.multiple * k; ends = whole })
      | inr more ↦
          rw (more.0, more.1)
            (record {
              laid =
                  IsLaidOut-append slots area area size (l.multiple * k) l.laid (omega arith) whole
                    (rw more.1 at more.2);
              multiple = l.multiple * k + 1;
              ends = omega (arith, whole);
            })
    ]

-- `allocate`, on an order as in the theorem about sharing, lays the slots out one behind the other
-- within the area, each at a multiple of its size.
pub allocate-IsLaidOut :
    {V : Type 0} (s : SpillAllocator V) (order : List ℕ)
    → IsNodup order
    → ((y : ℕ) → In y order → y < length s.sets)
    → IsOrdered s.sets order
    → ReturnsOrErr (λ s'. IsLaidOut s'.slots s'.spillslot_area_size) (allocate s order)
allocate-IsLaidOut s order nodup inside ordered =
    ReturnsOrErr-map
      (λ s'.
        Allocated s.sets order s' × ((top : ℕ) × IsLaidOutFor s'.slots s'.spillslot_area_size top))
      (λ s'. IsLaidOut s'.slots s'.spillslot_area_size) (allocate s order) (λ s' r. r.1.1.laid)
      (allocate_lem s.sets IsLaidOutFor IsLaidOutFor-Grew s order refl empty-IsLaidOutFor nodup
        inside ordered)

-- `alloc_emergency_spillslot` keeps the layout and every earlier slot, and the new slot is the last
-- one, where the area rounded up to a multiple of the slot's size stays within `u32` with the slot added.
pub alloc_emergency_spillslot-IsLaidOut :
    {V : Type 0} (s : SpillAllocator V) (size : ℕ)
    → IsLaidOut s.slots s.spillslot_area_size
    → (s.spillslot_area_size + (bytes size - 1)) / bytes size * bytes size + bytes size < u32_mod
    → let (slot, s') = alloc_emergency_spillslot s size in
      IsLaidOut s'.slots s'.spillslot_area_size
      × (slot ≡ length s.slots)
      × (length s'.slots ≡ slot + 1)
      × ((get_or s'.slots slot (0, 0)).1 ≡ size)
      × ((i : ℕ) → i < length s.slots → get_or s'.slots i (0, 0) ≡ get_or s.slots i (0, 0))
unfolding alloc_emergency_spillslot
alloc_emergency_spillslot-IsLaidOut s size l room =
    let b = bytes size in
    let x = s.spillslot_area_size + (b - 1) in
    let pos : 0 < b = pow-pos size in
    let split : x / b * b + x % b ≡ x = div-add-mod' x b in
    let rest : x % b < b = mod-lt x pos in
    let small : x % u32_mod ≡ x = mod-eq_of_lt (omega (arith, split, rest, room)) in
    let offset : x % u32_mod / b * b ≡ x / b * b = ap (λ y. y / b * b) small in
    let area : (x % u32_mod / b * b + b) % u32_mod ≡ x % u32_mod / b * b + b =
      mod-eq_of_lt (omega (arith, offset, room)) in
    let slots' = (x % u32_mod / b * b, size) ∷ [] in
    (
      rw area (
          IsLaidOut-append s.slots s.spillslot_area_size (x % u32_mod / b * b) size
            (x % u32_mod / b) l (omega (arith, offset, split, rest)) refl
            (omega (arith, offset, room))),
      refl,
      length-append s.slots slots',
      ap (λ y. y.1)
          (get_or-append_last s.slots (x % u32_mod / b * b, size) (0, 0) (length s.slots) refl),
      λ i h. get_or-append_left s.slots slots' i (0, 0) h,
    )
