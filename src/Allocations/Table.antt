-- ===== src/Allocations/Table.antt =====
-- The parts of the table of src/internal/allocations.rs, and that a write stays in its part.
use regalloc.Base.{
  ℕ, ◌+◌, ◌%◌, ◌<◌, ◌≤◌, ◌≡◌, refl, ap, ◌∙◌, ltb, true, false, Run, ok, err, function_too_big,
  ◌>>=◌, List, [], ◌∷◌, ◌++◌, length, replicate, length-replicate, arith, dec_lt, All, panic,
  out_of_fuel,
}
use regalloc.LiveRange.{u32_mod}
use regalloc.Output.{allocation_reserved}
use regalloc.Allocations.{Allocations, offsets_from, compute_alloc_offsets}

-- The operands of all instructions.
abbrev pub total : List ℕ → ℕ
total [] = 0
total (operands ∷ insts) = operands + total insts

-- The numbers of operands are those of `u32`.
abbrev pub IsSmall : List ℕ → Type 0
IsSmall insts = All (λ n. n < u32_mod) insts

-- Where the parts start that follow each other from `offset`, and where the last one ends.
abbrev pub starts_from : ℕ → List ℕ → List ℕ
starts_from offset [] = offset ∷ []
starts_from offset (operands ∷ insts) = offset ∷ starts_from (offset + operands) insts

-- The table has a part for each instruction, as long as its operands are many.
pub record IsTable (t : Allocations) (insts : List ℕ) : Type 0 where
  pub offsets : t.operands_offset ≡ starts_from 0 insts
  pub size : length t.allocations ≡ total insts

-- What the loop answers, by whether the operands fit in `u32`.
abbrev Offsets : ℕ → List ℕ → Run (List ℕ × ℕ) → Type 0
Offsets offset insts (ok (offsets, end_)) =
    (offset + total insts < u32_mod)
    × (offsets ++ end_ ∷ [] ≡ starts_from offset insts)
    × (end_ ≡ offset + total insts)
Offsets offset insts (err function_too_big) = u32_mod ≤ offset + total insts
Offsets offset insts panic = ⊥
Offsets offset insts out_of_fuel = ⊥

offsets_cons :
    (offset n : ℕ) (insts : List ℕ) (r : Run (List ℕ × ℕ))
    → Offsets (offset + n) insts r
    → Offsets offset (n ∷ insts) (r >>= λ (offsets, end_). ok (offset ∷ offsets, end_))
offsets_cons offset n insts (ok (offsets, end_)) h =
    (omega (arith, h.0), ap (◌∷◌ offset) h.1, omega (arith, h.2))
offsets_cons offset n insts (err function_too_big) h = omega (arith, h)
offsets_cons offset n insts panic h = h
offsets_cons offset n insts out_of_fuel h = h

offsets_from-Offsets :
    (offset : ℕ) (insts : List ℕ)
    → IsSmall insts
    → offset < u32_mod
    → Offsets offset insts (offsets_from offset insts)
unfolding offsets_from
offsets_from-Offsets offset [] s h = (omega (arith, h), refl, omega arith)
offsets_from-Offsets offset (n ∷ insts) s h =
    let cast : n % u32_mod ≡ n = omega (arith, s.0) in
    elim (dec_lt (offset + n) u32_mod) [
      | yes p ↦
          let t : ltb (offset + n) u32_mod ≡ true = ground arith in
          rw (cast, t)
            (offsets_cons offset n insts (offsets_from (offset + n) insts)
              (offsets_from-Offsets (offset + n) insts s.1 p))
      | no p ↦
          let t : ltb (offset + n) u32_mod ≡ false = ground arith in rw (cast, t) (omega (arith, p))
    ]

-- What `compute_alloc_offsets` answers, by whether the operands fit in `u32`.
abbrev pub Computed : List ℕ → Run Allocations → Type 0
Computed insts (ok t) =
    (total insts < u32_mod)
    × IsTable t insts
    × (t.allocations ≡ replicate (total insts) allocation_reserved.reserved_value)
Computed insts (err function_too_big) = u32_mod ≤ total insts
Computed insts panic = ⊥
Computed insts out_of_fuel = ⊥

gathered :
    (insts : List ℕ) (r : Run (List ℕ × ℕ))
    → Offsets 0 insts r
    → Computed insts (
        r >>= λ (offsets, end_). ok (record {
          allocations = replicate end_ allocation_reserved.reserved_value;
          operands_offset = offsets ++ end_ ∷ [];
        }))
gathered insts (ok (offsets, end_)) h = (
  omega (arith, h.0),
  record {
    offsets = h.1;
    size = length-replicate end_ allocation_reserved.reserved_value ∙ omega (arith, h.2);
  },
  let q : end_ ≡ total insts = omega (arith, h.2) in
      ap (λ n. replicate n allocation_reserved.reserved_value) q,
)
gathered insts (err function_too_big) h = omega (arith, h)
gathered insts panic h = h
gathered insts out_of_fuel h = h

-- Where the number of each instruction's operands fits in `u32`, `compute_alloc_offsets` gives a
-- table with a part for each instruction, filled with the reserved value, if the number of all
-- operands fits in `u32`, and the error `FunctionTooBig` if it does not.
pub compute_alloc_offsets-Computed :
    (insts : List ℕ) → IsSmall insts → Computed insts (compute_alloc_offsets insts)
unfolding compute_alloc_offsets
compute_alloc_offsets-Computed insts s =
    gathered insts (offsets_from 0 insts) (offsets_from-Offsets 0 insts s (omega arith))
