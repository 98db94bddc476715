-- ===== src/SpillAllocator.antt =====
-- src/internal/spill_allocator.rs: spilled value sets, and their spill slots in the stack frame.
-- A `ValueSet` and a `SpillSlot` are their indices, and a `SpillSlotSize` is its log2. The vector
-- `available_slots` is a stack: its last element stands at the head of the list. `StackLayout` of
-- src/output.rs is the fields `slots` (offset and size of each) and `spillslot_area_size`.
mod Retain
mod Invariant
mod Assign
mod Step
pub mod Sharing
pub mod Layout
pub mod Spilled
mod Examples
use regalloc.Base.{
  ℕ, zero, suc, ◌+◌, ◌-◌, ◌*◌, ◌/◌, ◌%◌, ◌^◌, ◌≤◌, ◌<◌, ◌≡◌, Bool, true, false, ltb, leb, ◌==◌,
  if◌then◌else◌, List, [], ◌∷◌, ◌++◌, length, get_or, set, load, store, Run, Option, none, some, ok,
  err, function_too_big, ◌>>=◌,
}
use regalloc.LiveRange.{LiveRangeSegment, u32_mod}

pub record SpillData : Type 0 where
  pub size : ℕ
  pub live_range_union : LiveRangeSegment
  pub slot : ℕ
  pub spilled : Bool

-- `ValueSegment` stands for the segment that is recorded: it is only handed on.
pub record SpillAllocator (ValueSegment : Type 0) : Type 0 where
  pub sets : List SpillData
  pub spilled_segments : List (ℕ × ValueSegment)
  pub slots : List (ℕ × ℕ)
  pub spillslot_area_size : ℕ
  pub sets_to_allocate : List ℕ
  pub active_sets : List ℕ
  pub available_slots : List ℕ

-- `SpillSlotSize::bytes`.
abbrev pub bytes : ℕ → ℕ
bytes log2_bytes = 2 ^ log2_bytes

module _ {ValueSegment : Type 0} where
  -- `SpillAllocator::set_range`.
  unfoldable pub set_range :
      SpillAllocator ValueSegment → ℕ → ℕ → LiveRangeSegment → Run (SpillAllocator ValueSegment)
  set_range s i size live_range_union = do
    d ← load s.sets i
    sets ←
        store s.sets i
          (record d { size = size; live_range_union = live_range_union; spilled = false })
    ok (record s { sets = sets })

  -- `SpillAllocator::spill_segment`: a set is queued for allocation with its first segment.
  unfoldable pub spill_segment :
      SpillAllocator ValueSegment → ℕ → ValueSegment → Run (SpillAllocator ValueSegment)
  spill_segment s i segment = do
    d ← load s.sets i
    let spilled_segments = s.spilled_segments ++ (i, segment) ∷ []
    elim d.spilled [
      | true ↦ ok (record s { spilled_segments = spilled_segments })
      | false ↦ do
        sets ← store s.sets i (record d { spilled = true })
        ok (record s {
          sets = sets;
          spilled_segments = spilled_segments;
          sets_to_allocate = s.sets_to_allocate ++ i ∷ [];
        })
    ]

  -- `SpillAllocator::value_spillslot`, behind the lookup of the value's set.
  unfoldable pub set_spillslot : SpillAllocator ValueSegment → ℕ → Run (Option ℕ)
  set_spillslot s i = do d ← load s.sets i; ok (if d.spilled then some d.slot else none)

  -- `SpillAllocator::alloc_emergency_spillslot`: the area is rounded up to the slot's size. The sums
  -- are of `u32`s, as they wrap. `a & !(b - 1)` at a power of two `b` is `a / b * b`.
  unfoldable pub alloc_emergency_spillslot :
      SpillAllocator ValueSegment → ℕ → ℕ × SpillAllocator ValueSegment
  alloc_emergency_spillslot s size =
      let offset = (s.spillslot_area_size + (bytes size - 1)) % u32_mod / bytes size * bytes size in
      (
        length s.slots,
        record s {
          slots = s.slots ++ (offset, size) ∷ [];
          spillslot_area_size = (offset + bytes size) % u32_mod;
        },
      )

-- `active_sets.retain(..)`: the sets that end before `from` give their slots back.
unfoldable pub retain : List SpillData → ℕ → List ℕ → List ℕ → Run (List ℕ × List ℕ)
retain sets from [] available = ok ([], available)
retain sets from (a ∷ active) available = do
  d ← load sets a
  elim (leb d.live_range_union.to from) [
    | true ↦ retain sets from active (d.slot ∷ available)
    | false ↦ do (kept, available') ← retain sets from active available; ok (a ∷ kept, available')
  ]

module _ {ValueSegment : Type 0} where
  -- A slot for a set of this size: one that was given back, or a new one at the end of the area,
  -- where the area stays within `u32`.
  unfoldable pub take_slot : SpillAllocator ValueSegment → ℕ → Run (ℕ × SpillAllocator ValueSegment)
  take_slot s size = elim s.available_slots [
    | slot ∷ rest ↦ ok (slot, record s { available_slots = rest })
    | [] ↦
        if ltb (s.spillslot_area_size + bytes size) u32_mod
        then ok (
          length s.slots,
          record s {
            slots = s.slots ++ (s.spillslot_area_size, size) ∷ [];
            spillslot_area_size = s.spillslot_area_size + bytes size;
          },
        )
        else err function_too_big
  ]

  -- The two clears where the size changes.
  unfoldable pub change_size : ℕ → ℕ → SpillAllocator ValueSegment → SpillAllocator ValueSegment
  change_size current_size size s =
      if size == current_size then s else record s { available_slots = []; active_sets = [] }

  -- The body of the loop of `allocate`, for the set `i`.
  unfoldable pub allocate_set :
      ℕ → SpillAllocator ValueSegment → ℕ → Run (SpillAllocator ValueSegment)
  unfolding retain take_slot change_size
  allocate_set current_size s i = do
    d ← load s.sets i
    let s₁ = change_size current_size d.size s
    (kept, available) ← retain s₁.sets d.live_range_union.from s₁.active_sets s₁.available_slots
    (slot, s₂) ← take_slot (record s₁ { active_sets = kept; available_slots = available }) d.size
    sets ← store s₂.sets i (record d { slot = slot })
    ok (record s₂ { sets = sets; active_sets = s₂.active_sets ++ i ∷ [] })

  unfoldable pub allocate_loop :
      ℕ → SpillAllocator ValueSegment → List ℕ → Run (SpillAllocator ValueSegment)
  allocate_loop current_size s [] = ok s
  allocate_loop current_size s (i ∷ order) = do
    d ← load s.sets i
    s' ← allocate_set current_size s i
    allocate_loop d.size s' order

  -- `SpillAllocator::allocate`. `order` is what the unstable sort by size, the highest first, and then
  -- by the start of the live range leaves in `sets_to_allocate`. The loop starts at one byte.
  unfoldable pub allocate : SpillAllocator ValueSegment → List ℕ → Run (SpillAllocator ValueSegment)
  unfolding allocate_loop allocate_set
  allocate s order =
      allocate_loop 0
        (record s {
          slots = [];
          spillslot_area_size = 0;
          active_sets = [];
          available_slots = [];
          sets_to_allocate = order;
        })
        order
