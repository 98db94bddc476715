-- ===== src/Output/Packing.antt =====
-- What is read back from packed values (src/output.rs, src/allocation_unit.rs and
-- src/entity/packed_option.rs).
use regalloc.Base.{◌+◌, ◌^◌, ◌<◌, ◌≡◌, refl, true, false, ok, arith, Option, none, some}
use regalloc.LiveRange.{u32_mod}
use regalloc.Operand.{max_physregs}
use regalloc.Output.{
  AllocationKind, new_allocation, kind, ReservedValue, allocation_reserved, is_none, expand, pack,
  take_packed, AllocationUnitKind, max_reg_units, new_unit, unit_kind,
}

-- The index of an allocation within the bits that it has.
abbrev pub Fits : AllocationKind → Type 0
Fits (AllocationKind.phys_reg r) = r < max_physregs
Fits (AllocationKind.spill_slot s) = s < 2 ^ 31

-- An allocation made of an index within its limit gives back what it was made of, and is not the
-- reserved value.
pub kind-new_allocation :
    (k : AllocationKind)
    → Fits k
    → (kind (new_allocation k) ≡ ok k)
      × (allocation_reserved.is_reserved_value (new_allocation k) ≡ false)
unfolding kind new_allocation
kind-new_allocation (AllocationKind.phys_reg r) h = ground arith
kind-new_allocation (AllocationKind.spill_slot s) h = ground arith

abbrev pub UnitFits : AllocationUnitKind → Type 0
UnitFits (AllocationUnitKind.reg_unit u) = u < max_reg_units
UnitFits (AllocationUnitKind.slot_unit s) = s + max_reg_units < u32_mod

-- A unit gives back what it was made of, where its index is within `u32`.
pub unit_kind-new_unit : (k : AllocationUnitKind) → UnitFits k → unit_kind (new_unit k) ≡ k
unfolding unit_kind new_unit
unit_kind-new_unit (AllocationUnitKind.reg_unit u) h = ground arith
unit_kind-new_unit (AllocationUnitKind.slot_unit s) h = ground arith

-- The value, if there is one, is not the reserved one.
abbrev pub IsFree {ℓ} : {T : Type ℓ} → ReservedValue T → Option T → Type 0
IsFree R none = Unit
IsFree R (some t) = R.is_reserved_value t ≡ false

-- An option that does not hold the reserved value is given back, also by `take`, which leaves
-- `None`.
pub expand-pack {ℓ} :
    {T : Type ℓ} (R : ReservedValue T) (o : Option T)
    → IsFree R o
    → (expand R (pack R o) ≡ o)
      × ((take_packed R (pack R o)).0 ≡ o)
      × (is_none R (take_packed R (pack R o)).1 ≡ true)
unfolding expand pack take_packed is_none
expand-pack R none h = rw (R.is_reserved_value_reserved) (refl, refl, refl)
expand-pack R (some t) h = rw (R.is_reserved_value_reserved, h) (refl, refl, refl)
