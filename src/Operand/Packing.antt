-- ===== src/Operand/Packing.antt =====
-- What is read back from an `Operand` (src/function.rs).
use regalloc.Base.{◌%◌, ◌<◌, ◌≡◌, refl, ok, arith}
use regalloc.Operand.{
  OperandKind, OperandConstraint, max_values, max_inst_operands, max_physregs, max_reg_classes,
  new_operand, kind, constraint,
}

-- The index of the kind is one of the function's values or groups.
abbrev pub KindFits : OperandKind → Type 0
KindFits (OperandKind.def v) = v < max_values
KindFits (OperandKind.use_ v) = v < max_values
KindFits (OperandKind.early_def v) = v < max_values
KindFits (OperandKind.def_group g) = g < max_values
KindFits (OperandKind.use_group g) = g < max_values
KindFits (OperandKind.early_def_group g) = g < max_values
KindFits OperandKind.non_allocatable = Unit

-- The index of the constraint is within the limit for its kind of index.
abbrev pub ConstraintFits : OperandConstraint → Type 0
ConstraintFits (OperandConstraint.class i) = i < max_reg_classes
ConstraintFits (OperandConstraint.fixed r) = r < max_physregs
ConstraintFits (OperandConstraint.reuse i) = i < max_inst_operands

-- The constraint with the index of a reused operand as the mask leaves it.
abbrev pub masked : OperandConstraint → OperandConstraint
masked (OperandConstraint.class i) = OperandConstraint.class i
masked (OperandConstraint.fixed r) = OperandConstraint.fixed r
masked (OperandConstraint.reuse i) = OperandConstraint.reuse (i % max_physregs)

-- An operand gives back the kind that it was made of, where the index is within `MAX_VALUES`.
pub kind-new_operand :
    (k : OperandKind) (c : OperandConstraint) → KindFits k → kind (new_operand k c) ≡ ok k
unfolding kind new_operand
kind-new_operand (OperandKind.def v) c h = ground arith
kind-new_operand (OperandKind.use_ v) c h = ground arith
kind-new_operand (OperandKind.early_def v) c h = ground arith
kind-new_operand (OperandKind.def_group v) c h = ground arith
kind-new_operand (OperandKind.use_group v) c h = ground arith
kind-new_operand (OperandKind.early_def_group v) c h = ground arith
kind-new_operand OperandKind.non_allocatable c h = refl

-- An operand gives back the constraint that it was made of, where the index is within the limit
-- for its kind of index, but an operand to reuse only modulo `MAX_PHYSREGS`, which is smaller than
-- `MAX_INST_OPERANDS`.
pub constraint-new_operand :
    (k : OperandKind) (c : OperandConstraint)
    → ConstraintFits c
    → constraint (new_operand k c) ≡ ok (masked c)
unfolding constraint new_operand
constraint-new_operand k (OperandConstraint.class i) h = ground arith
constraint-new_operand k (OperandConstraint.fixed i) h = ground arith
constraint-new_operand k (OperandConstraint.reuse i) h = ground arith
