-- ===== src/Operand/Examples.antt =====
-- Tests of `Operand` (src/function.rs), and the theorems at inputs.
use regalloc.Base.{◌≡◌, refl, ok, arith}
use regalloc.Operand.{
  OperandKind, OperandConstraint, new_operand, kind, constraint, fixed_use, reuse_def,
}
use regalloc.Operand.Packing.{masked, kind-new_operand, constraint-new_operand}

fixed_use_runs : kind (fixed_use 7 3) ≡ ok (OperandKind.use_ 7)
unfolding kind fixed_use
fixed_use_runs = refl

reuse_wraps : constraint (reuse_def 7 600) ≡ ok (OperandConstraint.reuse 88)
unfolding constraint reuse_def
reuse_wraps = refl

kind-new_operand_example :
    kind (new_operand (OperandKind.early_def 9) (OperandConstraint.class 2))
    ≡ ok (OperandKind.early_def 9)
kind-new_operand_example =
    kind-new_operand (OperandKind.early_def 9) (OperandConstraint.class 2) (omega arith)

constraint-new_operand_example :
    constraint (new_operand (OperandKind.def 9) (OperandConstraint.reuse 5))
    ≡ ok (masked (OperandConstraint.reuse 5))
constraint-new_operand_example =
    constraint-new_operand (OperandKind.def 9) (OperandConstraint.reuse 5) (omega arith)
