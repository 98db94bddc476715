-- ===== src/Output.antt =====
-- Where a value is placed: `Allocation` (src/output.rs), `AllocationUnit` (src/allocation_unit.rs) and
-- `PackedOption` (src/entity/packed_option.rs).
pub mod Packing
mod Examples
use regalloc.Base.{
  ℕ, ◌+◌, ◌-◌, ◌*◌, ◌/◌, ◌%◌, ◌^◌, ◌≡◌, refl, ◌==◌, ltb, if◌then◌else◌, Bool, true, false, not, Run,
  ok, panic, err, function_too_big, ◌>>=◌, load, store, Option, none, some, List, [], ◌∷◌, ◌++◌,
  length, replicate, leb, take, drop,
}
use regalloc.LiveRange.{u32_mod}
use regalloc.Operand.{max_physregs}

-- `AllocationKind`; registers and spill slots are their indices.
pub data AllocationKind : Type 0 where
  phys_reg spill_slot : ℕ → AllocationKind

-- `Allocation` is its bits.
abbrev pub Allocation : Type 0
Allocation = ℕ

-- `Allocation::new`. A register's index and the bit 31 have no bit in common, so `|` is a sum.
unfoldable pub new_allocation : AllocationKind → Allocation
new_allocation (AllocationKind.spill_slot s) = s % u32_mod
new_allocation (AllocationKind.phys_reg r) = 2 ^ 31 + r % u32_mod

unfoldable pub reg : ℕ → Allocation
unfolding new_allocation
reg r = new_allocation (AllocationKind.phys_reg r)

unfoldable pub spillslot : ℕ → Allocation
unfolding new_allocation
spillslot s = new_allocation (AllocationKind.spill_slot s)

-- `Allocation::kind`.
unfoldable pub kind : Allocation → Run AllocationKind
kind bits =
    if bits / 2 ^ 31 == 0
    then ok (AllocationKind.spill_slot bits)
    else if bits / 2 ^ 31 == 1
    then ok (AllocationKind.phys_reg (bits % 2 ^ 31))
    else panic

-- `Allocation::is_memory`, where `reginfo_is_memory` is the register's `is_memory`.
unfoldable pub is_memory : (ℕ → Bool) → Allocation → Run Bool
unfolding kind
is_memory reginfo_is_memory bits = do
  k ← kind bits
  elim k [ phys_reg r ↦ ok (reginfo_is_memory r) | spill_slot s ↦ ok true ]

-- `ReservedValue`: a value that marks the absence of one.
pub record ReservedValue {ℓ} (T : Type ℓ) : Type ℓ where
  pub reserved_value : T
  pub is_reserved_value : T → Bool
  pub is_reserved_value_reserved : is_reserved_value reserved_value ≡ true

abbrev pub allocation_reserved : ReservedValue Allocation
allocation_reserved = record {
  reserved_value = u32_mod - 1;
  is_reserved_value = λ bits. bits == u32_mod - 1;
  is_reserved_value_reserved = refl;
}

-- `PackedOption`: the value or the reserved one.
abbrev pub PackedOption {ℓ} : Type ℓ → Type ℓ
PackedOption T = T

module _ {ℓ} {T : Type ℓ} (R : ReservedValue T) where
  unfoldable pub is_none : PackedOption T → Bool
  is_none p = R.is_reserved_value p

  unfoldable pub is_some : PackedOption T → Bool
  is_some p = not (R.is_reserved_value p)

  unfoldable pub expand : PackedOption T → Option T
  unfolding is_none
  expand p = if is_none p then none else some p

  -- `From<Option<T>>` and `Default`.
  unfoldable pub pack : Option T → PackedOption T
  pack none = R.reserved_value
  pack (some t) = t

  -- `unwrap`, and `expect`, whose message is not modelled.
  unfoldable pub unwrap : PackedOption T → Run T
  unfolding expand
  unwrap p = elim (expand p) [ none ↦ panic | some t ↦ ok t ]

  -- `take`: the value, and what is left in its place.
  unfoldable pub take_packed : PackedOption T → Option T × PackedOption T
  unfolding expand pack
  take_packed p = (expand p, pack none)

-- `AllocationUnit`: an index below `MAX_REG_UNITS` is a register unit's.
abbrev pub max_reg_units : ℕ
max_reg_units = 512

pub data AllocationUnitKind : Type 0 where
  reg_unit slot_unit : ℕ → AllocationUnitKind

unfoldable pub new_unit : AllocationUnitKind → ℕ
new_unit (AllocationUnitKind.slot_unit s) = (s + max_reg_units) % u32_mod
new_unit (AllocationUnitKind.reg_unit u) = u % u32_mod

unfoldable pub unit_kind : ℕ → AllocationUnitKind
unit_kind index =
    if ltb index max_reg_units
    then AllocationUnitKind.reg_unit index
    else AllocationUnitKind.slot_unit (index - max_reg_units)
