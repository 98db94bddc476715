-- ===== src/Coalescing/Pass/Blocks.antt =====
-- The operands of an instruction in the coalescing pass (src/internal/coalescing.rs): each tried merge
-- keeps the invariant.
use regalloc.Base.{
  ℕ, ◌<◌, ◌∙◌, ◌==◌, List, [], ◌∷◌, length, length-set, get_or, load, load-ok, store-ok, inl, inr,
  Option, none, some, ◌>>=◌, Returns, Returns-bind, All, Bool-cases,
}
use regalloc.Function.{Function}
use regalloc.Operand.{Operand, OperandKind, OperandConstraint, kind, constraint}
use regalloc.Coalescing.{LiveRanges}
use regalloc.Coalescing.Pass.{
  Pass, try_distinct_pairs, set_last_group, coalesce_tied, coalesce_seen, coalesce_member,
  coalesce_members, coalesce_group, coalesce_constraint, coalesce_operand, coalesce_operands,
}
use regalloc.Coalescing.Pass.Invariant.{
  Inv, AreValues, try_pair-Inv, try_pairs-Inv, try_distinct_pairs-Inv,
}

-- The operands of a pair that is to share its register: a definition and a use, or two groups.
abbrev pub IsTied : {Freq : Type 0} → Function Freq → OperandKind → OperandKind → Type 0
IsTied func (OperandKind.def d) (OperandKind.use_ u) = (d < func.num_values) × (u < func.num_values)
IsTied func (OperandKind.early_def d) (OperandKind.use_ u) =
    (d < func.num_values) × (u < func.num_values)
IsTied func (OperandKind.def_group d) (OperandKind.use_group u) = Unit
IsTied func (OperandKind.early_def_group d) (OperandKind.use_group u) = Unit
IsTied func k k' = ⊥

-- An operand that reuses another one names an operand of the instruction, of the kind that fits.
abbrev pub ReuseFits :
    {Freq : Type 0} → Function Freq → List Operand → OperandKind → OperandConstraint → Type 0
ReuseFits func operands k (OperandConstraint.reuse idx) =
    Returns (λ use_op. Returns (IsTied func k) (kind use_op)) (load operands idx)
ReuseFits func operands k c = Unit

abbrev pub OperandFits : {Freq : Type 0} → Function Freq → List Operand → Operand → Type 0
OperandFits func operands op =
    Returns (λ c. Returns (λ k. ReuseFits func operands k c) (kind op)) (constraint op)

-- What the pass relies on of a function: the values of groups and of block parameters are values of
-- the function, and operands are well formed.
pub record IsWellFormed {Freq : Type 0} (func : Function Freq) : Type 0 where
  pub groups : (g : ℕ) → AreValues func.num_values (func.value_group_members g)
  pub params : (block : ℕ) → AreValues func.num_values (func.block_params block)
  pub jump_params : (block : ℕ) → AreValues func.num_values (func.jump_blockparams block)
  pub operands :
      (inst : ℕ) → All (OperandFits func (func.inst_operands inst)) (func.inst_operands inst)

module _ {Freq : Type 0} (func : Function Freq) (wf : IsWellFormed func) (r₀ : LiveRanges)
    (pairs : List (ℕ × ℕ)) where
  abbrev pub Keeps : Pass → Type 0
  Keeps s = Inv func.num_values r₀ pairs s

  coalesce_tied-Inv :
      (s : Pass) (k k' : OperandKind)
      → IsTied func k k'
      → Keeps s
      → Returns Keeps (coalesce_tied func s k k')
  unfolding coalesce_tied
  coalesce_tied-Inv s (OperandKind.def d) (OperandKind.use_ u) h w =
      try_pair-Inv func.num_values r₀ pairs s u d h.1 h.0 w
  coalesce_tied-Inv s (OperandKind.early_def d) (OperandKind.use_ u) h w =
      try_pair-Inv func.num_values r₀ pairs s u d h.1 h.0 w
  coalesce_tied-Inv s (OperandKind.def_group d) (OperandKind.use_group u) h w =
      try_pairs-Inv func.num_values r₀ pairs s (func.value_group_members u)
        (func.value_group_members d) (wf.groups u) (wf.groups d) w
  coalesce_tied-Inv s (OperandKind.early_def_group d) (OperandKind.use_group u) h w =
      try_pairs-Inv func.num_values r₀ pairs s (func.value_group_members u)
        (func.value_group_members d) (wf.groups u) (wf.groups d) w
  coalesce_tied-Inv s k k' h w = absurd h

  set_last_group-Inv :
      (value group : ℕ) (s : Pass)
      → value < func.num_values
      → Keeps s
      → Returns Keeps (set_last_group value group s)
  unfolding set_last_group
  set_last_group-Inv value group s h w =
      rw (store-ok s.last_group_for_value value (some group) (rw (w.groups) h)) (record {
        valid = w.valid;
        size = w.size;
        sorted = w.sorted;
        holds = w.holds;
        sets = w.sets;
        settled = w.settled;
        groups = length-set s.last_group_for_value value (some group) ∙ w.groups;
      })

  coalesce_seen-Inv :
      (group value : ℕ) (s : Pass) (last : Option ℕ)
      → value < func.num_values
      → Keeps s
      → Returns Keeps (coalesce_seen func group value s last)
  unfolding coalesce_seen
  coalesce_seen-Inv group value s none h w = set_last_group-Inv value group s h w
  coalesce_seen-Inv group value s (some prev) h w =
      elim (Bool-cases
        (length (func.value_group_members group) == length (func.value_group_members prev))) [
          | inl e ↦ rw (e) (
              Returns-bind Keeps Keeps
                (try_distinct_pairs s (func.value_group_members group)
                  (func.value_group_members prev))
                (set_last_group value group) (λ s' w'. set_last_group-Inv value group s' h w')
                (try_distinct_pairs-Inv func.num_values r₀ pairs s (func.value_group_members group)
                  (func.value_group_members prev) (wf.groups group) (wf.groups prev) w))
          | inr e ↦ rw (e) w
        ]

  coalesce_member-Inv :
      (group value : ℕ) (s : Pass)
      → value < func.num_values
      → Keeps s
      → Returns Keeps (coalesce_member func group value s)
  unfolding coalesce_member
  coalesce_member-Inv group value s h w =
      rw (load-ok s.last_group_for_value value none (rw (w.groups) h))
        (coalesce_seen-Inv group value s (get_or s.last_group_for_value value none) h w)

  coalesce_members-Inv :
      (group : ℕ) (members : List ℕ) (s : Pass)
      → AreValues func.num_values members
      → Keeps s
      → Returns Keeps (coalesce_members func group members s)
  unfolding coalesce_members
  coalesce_members-Inv group [] s h w = w
  coalesce_members-Inv group (value ∷ rest) s h w =
      Returns-bind Keeps Keeps (coalesce_member func group value s)
        (coalesce_members func group rest) (λ s' w'. coalesce_members-Inv group rest s' h.1 w')
        (coalesce_member-Inv group value s h.0 w)

  coalesce_group-Inv :
      (s : Pass) (k : OperandKind) → Keeps s → Returns Keeps (coalesce_group func s k)
  unfolding coalesce_group
  coalesce_group-Inv s (OperandKind.def_group g) w =
      coalesce_members-Inv g (func.value_group_members g) s (wf.groups g) w
  coalesce_group-Inv s (OperandKind.early_def_group g) w =
      coalesce_members-Inv g (func.value_group_members g) s (wf.groups g) w
  coalesce_group-Inv s (OperandKind.use_group g) w =
      coalesce_members-Inv g (func.value_group_members g) s (wf.groups g) w
  coalesce_group-Inv s k w = w

  coalesce_constraint-Inv :
      (operands : List Operand) (s : Pass) (k : OperandKind) (c : OperandConstraint)
      → ReuseFits func operands k c
      → Keeps s
      → Returns Keeps (coalesce_constraint func operands s k c)
  unfolding coalesce_constraint
  coalesce_constraint-Inv operands s k (OperandConstraint.reuse idx) h w =
      Returns-bind (λ use_op. Returns (IsTied func k) (kind use_op)) Keeps (load operands idx)
        (λ use_op. kind use_op >>= coalesce_tied func s k)
        (λ use_op h'.
          Returns-bind (IsTied func k) Keeps (kind use_op) (coalesce_tied func s k)
            (λ k' h''. coalesce_tied-Inv s k k' h'' w) h')
        h
  coalesce_constraint-Inv operands s k c h w = coalesce_group-Inv s k w

  coalesce_operand-Inv :
      (operands : List Operand) (op : Operand) (s : Pass)
      → OperandFits func operands op
      → Keeps s
      → Returns Keeps (coalesce_operand func operands op s)
  unfolding coalesce_operand
  coalesce_operand-Inv operands op s h w =
      Returns-bind (λ c. Returns (λ k. ReuseFits func operands k c) (kind op)) Keeps (constraint op)
        (λ c. kind op >>= λ k. coalesce_constraint func operands s k c)
        (λ c h'.
          Returns-bind (λ k. ReuseFits func operands k c) Keeps (kind op)
            (λ k. coalesce_constraint func operands s k c)
            (λ k h''. coalesce_constraint-Inv operands s k c h'' w) h')
        h

  pub coalesce_operands-Inv :
      (operands rest : List Operand) (s : Pass)
      → All (OperandFits func operands) rest
      → Keeps s
      → Returns Keeps (coalesce_operands func operands rest s)
  unfolding coalesce_operands
  coalesce_operands-Inv operands [] s h w = w
  coalesce_operands-Inv operands (op ∷ rest) s h w =
      Returns-bind Keeps Keeps (coalesce_operand func operands op s)
        (coalesce_operands func operands rest)
        (λ s' w'. coalesce_operands-Inv operands rest s' h.1 w')
        (coalesce_operand-Inv operands op s h.0 w)
