-- ===== src/SpillAllocator/Examples.antt =====
-- Tests of src/internal/spill_allocator.rs, and the theorems at inputs.
use regalloc.Base.{
  ℕ, zero, suc, ◌+◌, ◌<◌, ◌≡◌, ◌≢◌, ◌⊎◌, inl, inr, refl, true, false, List, [], ◌∷◌, ◌++◌, length,
  get_or, ok, err, function_too_big, ◌>>=◌, Returns, ReturnsOrErr, In, IsNodup, arith,
}
use regalloc.SpillAllocator.{
  SpillData, SpillAllocator, spill_segment, set_spillslot, alloc_emergency_spillslot, allocate,
}
use regalloc.SpillAllocator.Sharing.{Allocated, IsOrdered, allocate_allocates}
use regalloc.SpillAllocator.Layout.{
  IsLaidOut, allocate-IsLaidOut, alloc_emergency_spillslot-IsLaidOut,
}
use regalloc.SpillAllocator.Spilled.{spilled_of, IsQueued, spill_segment-IsQueued}

abbrev spill_data : ℕ → ℕ → ℕ → SpillData
spill_data size from to = record {
  size = size;
  live_range_union = record { from = from; to = to };
  slot = 0;
  spilled = false;
}

-- Two sets of eight bytes that overlap, one that follows both, and one of four bytes.
abbrev sets : List SpillData
sets = spill_data 2 8 24 ∷ spill_data 3 0 16 ∷ spill_data 3 8 20 ∷ spill_data 3 20 32 ∷ []

abbrev fresh : SpillAllocator ℕ
fresh = record {
  sets = sets;
  spilled_segments = [];
  slots = [];
  spillslot_area_size = 0;
  sets_to_allocate = [];
  active_sets = [];
  available_slots = [];
}

abbrev order : List ℕ
order = 1 ∷ 2 ∷ 3 ∷ 0 ∷ []

-- Set 3 takes the slot that set 2 gave back last.
allocate_runs : (allocate fresh order >>= λ s. ok s.slots) ≡ ok ((0, 3) ∷ (8, 3) ∷ (16, 2) ∷ [])
unfolding allocate
allocate_runs = refl

allocate_shares :
    (allocate fresh order >>= λ s. set_spillslot s 3)
    ≡ (allocate fresh order >>= λ s. set_spillslot s 2)
unfolding allocate set_spillslot
allocate_shares = refl

-- A frame that does not fit.
allocate_too_big :
    allocate (record fresh { sets = spill_data 31 0 8 ∷ spill_data 31 0 8 ∷ [] }) (0 ∷ 1 ∷ [])
    ≡ err function_too_big
unfolding allocate
allocate_too_big = refl

order-IsNodup : IsNodup order
order-IsNodup = omega arith

order_inside : (y : ℕ) → In y order → y < length fresh.sets
order_inside y i = ground arith

order-IsOrdered : IsOrdered fresh.sets order
order-IsOrdered = (inr (refl, omega arith), (inr (refl, omega arith), (inl (omega arith), tt)))

allocate_allocates_example : ReturnsOrErr (Allocated fresh.sets order) (allocate fresh order)
allocate_allocates_example =
    allocate_allocates fresh order order-IsNodup order_inside order-IsOrdered

allocate-IsLaidOut_example :
    ReturnsOrErr (λ s'. IsLaidOut s'.slots s'.spillslot_area_size) (allocate fresh order)
allocate-IsLaidOut_example =
    allocate-IsLaidOut fresh order order-IsNodup order_inside order-IsOrdered

fresh-IsLaidOut : IsLaidOut fresh.slots fresh.spillslot_area_size
fresh-IsLaidOut = record {
  within = λ i h. absurd (omega arith);
  behind = λ i j p h. absurd (omega arith);
  aligned = λ i h. absurd (omega arith);
  fits = omega arith;
}

alloc_emergency_spillslot-IsLaidOut_example :
    let (slot, s') = alloc_emergency_spillslot fresh 4 in
    IsLaidOut s'.slots s'.spillslot_area_size
    × (slot ≡ length fresh.slots)
    × (length s'.slots ≡ slot + 1)
    × ((get_or s'.slots slot (0, 0)).1 ≡ 4)
    × ((i : ℕ) → i < length fresh.slots → get_or s'.slots i (0, 0) ≡ get_or fresh.slots i (0, 0))
alloc_emergency_spillslot-IsLaidOut_example =
    alloc_emergency_spillslot-IsLaidOut fresh 4 fresh-IsLaidOut (omega arith)

unspilled : (i : ℕ) → spilled_of fresh.sets i ≢ true
unspilled zero = λ e. cc
unspilled (suc zero) = λ e. cc
unspilled (suc (suc zero)) = λ e. cc
unspilled (suc (suc (suc zero))) = λ e. cc
unspilled (suc (suc (suc (suc i)))) = λ e. cc

fresh-IsQueued : IsQueued fresh
fresh-IsQueued = record {
  nodup = tt;
  inside = λ i h. elim h [ ];
  exactly = λ i h. (λ e. absurd (unspilled i e), λ k. elim k [ ]);
}

spill_segment-IsQueued_example :
    Returns
      (λ s'.
        IsQueued s'
        × In 2 s'.sets_to_allocate
        × (s'.spilled_segments ≡ fresh.spilled_segments ++ (2, 7) ∷ [])
        × ((j : ℕ) → In j s'.sets_to_allocate → In j fresh.sets_to_allocate ⊎ (j ≡ 2)))
      (spill_segment fresh 2 7)
spill_segment-IsQueued_example = spill_segment-IsQueued fresh 2 (omega arith) 7 fresh-IsQueued
