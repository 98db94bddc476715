-- ===== src/LiveRange/Points.antt =====
-- Points and their parts (src/internal/live_range.rs).
use regalloc.Base.{ℕ, ◌+◌, ◌^◌, ◌≤◌, ◌<◌, ◌≡◌, ◌⊎◌, ◌↔◌, ok, arith}
use regalloc.LiveRange.{
  Slot, slot_bits, u32_mod, LiveRangePoint, point, inst, slot, round_to_next_inst,
  round_to_prev_inst,
}

-- `MAX_INSTS` of src/function.rs bounds the instructions of a function.
abbrev pub max_insts : ℕ
max_insts = 2 ^ 28

-- For an instruction within `MAX_INSTS` a point gives back its instruction and its slot.
pub inst-slot-point :
    (i : ℕ) (s : Slot) → i < max_insts → (inst (point i s) ≡ i) × (slot (point i s) ≡ ok s)
unfolding point inst slot
inst-slot-point i s h = ground arith

-- Points of instructions within `MAX_INSTS` are ordered by instruction and then by slot.
pub point_order :
    (i j : ℕ) (s t : Slot)
    → i < max_insts
    → j < max_insts
    → (point i s < point j t) ↔ ((i < j) ⊎ ((i ≡ j) × (slot_bits s < slot_bits t)))
unfolding point
point_order i j s t hi hj = ground arith

-- Where the next instruction is within `u32`, rounding goes to a boundary point on its side of the
-- point, less than an instruction away.
pub round_nearest :
    (p : LiveRangePoint)
    → p + 3 < u32_mod
    → (round_to_prev_inst p ≤ p)
      × (p ≤ round_to_next_inst p)
      × (round_to_next_inst p < p + 4)
      × (p < round_to_prev_inst p + 4)
      × (slot (round_to_prev_inst p) ≡ ok Slot.boundary)
      × (slot (round_to_next_inst p) ≡ ok Slot.boundary)
unfolding round_to_prev_inst round_to_next_inst slot
round_nearest p h = ground arith
