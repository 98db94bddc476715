-- ===== src/Operand.antt =====
-- `Operand` of src/function.rs: an operand's kind and constraint, packed in 32 and 16 bits.
-- Values, groups, registers and classes are their indices. The tag that `new` shifts in and an index
-- below the tag's bits have no bit in common, so `|` is a sum; the theorems ask for such an index.
pub mod Packing
mod Examples
use regalloc.Base.{ℕ, ◌+◌, ◌*◌, ◌/◌, ◌%◌, ◌^◌, ◌==◌, if◌then◌else◌, Run, ok, panic}

pub data OperandKind : Type 0 where
  def use_ early_def def_group use_group early_def_group : ℕ → OperandKind
  non_allocatable : OperandKind

pub data OperandConstraint : Type 0 where
  class fixed reuse : ℕ → OperandConstraint

-- `MAX_VALUES`, `MAX_INST_OPERANDS` and, of src/reginfo.rs, `MAX_PHYSREGS` and `MAX_REG_CLASSES`.
abbrev pub max_values : ℕ
max_values = 2 ^ 28

abbrev pub max_inst_operands : ℕ
max_inst_operands = 2 ^ 10

abbrev pub max_physregs : ℕ
max_physregs = 512

abbrev pub max_reg_classes : ℕ
max_reg_classes = 64

-- `Operand`, with the fields as they are packed.
pub record Operand : Type 0 where
  pub kind_bits : ℕ
  pub constraint_bits : ℕ

unfoldable pub kind_field : OperandKind → ℕ
kind_field (OperandKind.def value) = 0 * 2 ^ 29 + value % 2 ^ 32
kind_field (OperandKind.use_ value) = 1 * 2 ^ 29 + value % 2 ^ 32
kind_field (OperandKind.early_def value) = 2 * 2 ^ 29 + value % 2 ^ 32
kind_field (OperandKind.def_group group) = 3 * 2 ^ 29 + group % 2 ^ 32
kind_field (OperandKind.use_group group) = 4 * 2 ^ 29 + group % 2 ^ 32
kind_field (OperandKind.early_def_group group) = 5 * 2 ^ 29 + group % 2 ^ 32
kind_field OperandKind.non_allocatable = 6 * 2 ^ 29

unfoldable pub constraint_field : OperandConstraint → ℕ
constraint_field (OperandConstraint.class index) = 0 * 2 ^ 14 + index % 2 ^ 16
constraint_field (OperandConstraint.fixed index) = 1 * 2 ^ 14 + index % 2 ^ 16
constraint_field (OperandConstraint.reuse index) = 2 * 2 ^ 14 + index % 2 ^ 16

-- `Operand::new`.
unfoldable pub new_operand : OperandKind → OperandConstraint → Operand
unfolding kind_field constraint_field
new_operand k c = record { kind_bits = kind_field k; constraint_bits = constraint_field c }

-- `Operand::kind`: the value is the field under the mask `MAX_VALUES - 1`.
unfoldable pub kind : Operand → Run OperandKind
kind o =
    let value = o.kind_bits % max_values in
    let tag = o.kind_bits / 2 ^ 29 % 8 in
    if tag == 0
    then ok (OperandKind.def value)
    else if tag == 1
    then ok (OperandKind.use_ value)
    else if tag == 2
    then ok (OperandKind.early_def value)
    else if tag == 3
    then ok (OperandKind.def_group value)
    else if tag == 4
    then ok (OperandKind.use_group value)
    else if tag == 5
    then ok (OperandKind.early_def_group value)
    else if tag == 6
    then ok OperandKind.non_allocatable
    else panic

-- `Operand::constraint`: the index is the field under the mask `MAX_PHYSREGS - 1`.
unfoldable pub constraint : Operand → Run OperandConstraint
constraint o =
    let index = o.constraint_bits % max_physregs in
    let tag = o.constraint_bits / 2 ^ 14 in
    if tag == 0
    then ok (OperandConstraint.class index)
    else if tag == 1
    then ok (OperandConstraint.fixed index)
    else if tag == 2
    then ok (OperandConstraint.reuse index)
    else panic

-- The named constructors.
unfoldable pub regclass_use : ℕ → ℕ → Operand
unfolding new_operand
regclass_use value index = new_operand (OperandKind.use_ value) (OperandConstraint.class index)

unfoldable pub regclass_def : ℕ → ℕ → Operand
unfolding new_operand
regclass_def value index = new_operand (OperandKind.def value) (OperandConstraint.class index)

unfoldable pub regclass_early_def : ℕ → ℕ → Operand
unfolding new_operand
regclass_early_def value index =
    new_operand (OperandKind.early_def value) (OperandConstraint.class index)

unfoldable pub fixed_use : ℕ → ℕ → Operand
unfolding new_operand
fixed_use value reg = new_operand (OperandKind.use_ value) (OperandConstraint.fixed reg)

unfoldable pub fixed_def : ℕ → ℕ → Operand
unfolding new_operand
fixed_def value reg = new_operand (OperandKind.def value) (OperandConstraint.fixed reg)

unfoldable pub fixed_early_def : ℕ → ℕ → Operand
unfolding new_operand
fixed_early_def value reg = new_operand (OperandKind.early_def value) (OperandConstraint.fixed reg)

unfoldable pub reuse_def : ℕ → ℕ → Operand
unfolding new_operand
reuse_def value input_idx = new_operand (OperandKind.def value) (OperandConstraint.reuse input_idx)

unfoldable pub reuse_early_def : ℕ → ℕ → Operand
unfolding new_operand
reuse_early_def value input_idx =
    new_operand (OperandKind.early_def value) (OperandConstraint.reuse input_idx)

unfoldable pub fixed_nonallocatable : ℕ → Operand
unfolding new_operand
fixed_nonallocatable reg = new_operand OperandKind.non_allocatable (OperandConstraint.fixed reg)
