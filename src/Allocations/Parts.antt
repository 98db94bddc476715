-- ===== src/Allocations/Parts.antt =====
-- `set_allocation` and `inst_allocations` of src/internal/allocations.rs: a write stays in its part.
use regalloc.Base.{
  ℕ, zero, suc, ◌+◌, ◌-◌, ◌<◌, ◌≤◌, ◌≡◌, refl, ap, ◌∙◌, ◌==◌, ltb, if◌then◌else◌, false, ok, ◌>>=◌,
  load, load-ok, store-ok, List, [], ◌∷◌, length, get_or, set, take, drop, length-set, Returns,
  arith, ℕ_discrete, dec_lt,
}
use regalloc.Output.{Allocation}
use regalloc.Allocations.{Allocations, set_allocation, inst_allocations}
use regalloc.Allocations.Table.{total, starts_from, IsTable}

-- The operands of instruction `i`, and where its part starts.
abbrev pub operands_of : List ℕ → ℕ → ℕ
operands_of insts i = get_or insts i 0

abbrev pub start_of : List ℕ → ℕ → ℕ
start_of insts i = total (take i insts)

length-starts_from : (o : ℕ) (insts : List ℕ) → length (starts_from o insts) ≡ suc (length insts)
length-starts_from o [] = refl
length-starts_from o (n ∷ insts) = ap suc (length-starts_from (o + n) insts)

get_or-starts_from :
    (o : ℕ) (insts : List ℕ) (i : ℕ)
    → i ≤ length insts
    → get_or (starts_from o insts) i 0 ≡ o + start_of insts i
get_or-starts_from o [] zero h = omega arith
get_or-starts_from o [] (suc i) h = absurd (omega arith)
get_or-starts_from o (n ∷ insts) zero h = omega arith
get_or-starts_from o (n ∷ insts) (suc i) h =
    omega (arith, get_or-starts_from (o + n) insts i (omega arith))

start_of-suc :
    (insts : List ℕ) (i : ℕ)
    → i < length insts
    → start_of insts (suc i) ≡ start_of insts i + operands_of insts i
start_of-suc [] i h = absurd (omega arith)
start_of-suc (n ∷ insts) zero h = omega arith
start_of-suc (n ∷ insts) (suc i) h = omega (arith, start_of-suc insts i (omega arith))

-- Parts follow each other, inside the table.
start_of-le : (insts : List ℕ) (i j : ℕ) → i ≤ j → start_of insts i ≤ start_of insts j
start_of-le insts zero j h = omega arith
start_of-le [] (suc i) j h = omega arith
start_of-le (n ∷ insts) (suc i) zero h = absurd (omega arith)
start_of-le (n ∷ insts) (suc i) (suc j) h = omega (arith, start_of-le insts i j (omega arith))

start_of-total : (insts : List ℕ) (i : ℕ) → start_of insts i ≤ total insts
start_of-total insts zero = omega arith
start_of-total [] (suc i) = omega arith
start_of-total (n ∷ insts) (suc i) = omega (arith, start_of-total insts i)

module _ {A : Type 0} where
  drop-set :
      (s p : ℕ) (xs : List A) (a : A)
      → drop s (set xs p a) ≡ (if ltb p s then drop s xs else set (drop s xs) (p - s) a)
  drop-set zero p xs a = ground arith
  drop-set (suc s) p [] a = ground arith
  drop-set (suc s) zero (x ∷ xs) a = ground arith
  drop-set (suc s) (suc p) (x ∷ xs) a = ground (arith, drop-set s p xs a)

  take-set :
      (n p : ℕ) (xs : List A) (a : A)
      → take n (set xs p a) ≡ (if ltb p n then set (take n xs) p a else take n xs)
  take-set zero p xs a = ground arith
  take-set (suc n) p [] a = ground arith
  take-set (suc n) zero (x ∷ xs) a = ground arith
  take-set (suc n) (suc p) (x ∷ xs) a = ground (arith, take-set n p xs a)

-- The part of an instruction.
abbrev pub part : List Allocation → List ℕ → ℕ → List Allocation
part xs insts i = take (operands_of insts i) (drop (start_of insts i) xs)

-- `inst_allocations` gives the part of the instruction.
inst_allocations-part :
    (t : Allocations) (insts : List ℕ) (i : ℕ)
    → IsTable t insts
    → i < length insts
    → inst_allocations t i ≡ ok (part t.allocations insts i)
unfolding inst_allocations
inst_allocations-part t insts i w h =
    let one : i + 1 ≡ suc i = omega arith in
    let at_i : get_or (starts_from 0 insts) i 0 ≡ start_of insts i =
      omega (arith, get_or-starts_from 0 insts i (omega arith)) in
    let at_next : get_or (starts_from 0 insts) (suc i) 0 ≡ start_of insts i + operands_of insts i =
      omega (arith, get_or-starts_from 0 insts (suc i) (omega arith), start_of-suc insts i h) in
    let from : load t.operands_offset i ≡ ok (start_of insts i) = rw (w.offsets) (
      load-ok (starts_from 0 insts) i 0 (omega (arith, length-starts_from 0 insts)) ∙ ap ok at_i) in
    let to : load t.operands_offset (i + 1) ≡ ok (start_of insts i + operands_of insts i) =
      rw (w.offsets, one)
        (load-ok (starts_from 0 insts) (suc i) 0 (omega (arith, length-starts_from 0 insts))
          ∙ ap ok at_next) in
    let inside : start_of insts i + operands_of insts i ≤ length t.allocations =
      omega (arith, w.size, start_of-suc insts i h, start_of-total insts (suc i)) in
    ground (arith, from, to, inside)

-- What a write leaves of the parts.
part-set :
    (xs : List Allocation) (insts : List ℕ) (i j s : ℕ) (a : Allocation)
    → i < length insts
    → j < length insts
    → s < operands_of insts i
    → part (set xs (start_of insts i + s) a) insts j
      ≡ (if i == j then set (part xs insts j) s a else part xs insts j)
part-set xs insts i j s a hi hj hs =
    let next_i = start_of-suc insts i hi in
    let next_j = start_of-suc insts j hj in
    let cut = drop-set (start_of insts j) (start_of insts i + s) xs a in
    let back =
      take-set (operands_of insts j) (start_of insts i + s - start_of insts j)
        (drop (start_of insts j) xs) a in
    elim (dec_lt i j) [
      | yes p ↦
          let before : start_of insts i + s < start_of insts j =
            omega (arith, next_i, hs, start_of-le insts (suc i) j (omega (arith, p))) in
          ground (arith, cut, before)
      | no p ↦ elim (ℕ_discrete i j) [
        | yes q ↦
            let same : start_of insts i + s - start_of insts j ≡ s =
              omega (arith, ap (start_of insts) q) in
            let fits : s < operands_of insts j = omega (arith, hs, ap (operands_of insts) q) in
            let at_ : ltb (start_of insts i + s) (start_of insts j) ≡ false =
              ground (arith, ap (start_of insts) q) in
            ground (arith, cut, at_, back, same, fits)
        | no q ↦
            let behind : start_of insts j + operands_of insts j ≤ start_of insts i + s =
              omega (arith, next_j, start_of-le insts (suc j) i (omega (arith, p, q))) in
            ground (arith, cut, back, behind)
      ]
    ]

-- What `set_allocation` leaves: a table with the same parts, where only the operand `slot` of
-- `inst` has another allocation.
pub record Assigned (t t' : Allocations) (insts : List ℕ) (inst slot : ℕ) (alloc : Allocation)
    : Type 0 where
  pub table : IsTable t' insts
  pub reads :
      (j : ℕ)
      → j < length insts
      → inst_allocations t' j
        ≡ (inst_allocations t j >>= λ part. ok (if inst == j then set part slot alloc else part))

-- For an operand of an instruction of the table, `set_allocation` returns and changes the
-- allocation of this operand alone: `inst_allocations` reads the new one for it, and for all other
-- operands and instructions what it read before.
pub set_allocation-Assigned :
    (t : Allocations) (insts : List ℕ) (inst slot : ℕ) (alloc : Allocation)
    → IsTable t insts
    → inst < length insts
    → slot < operands_of insts inst
    → Returns (λ t'. Assigned t t' insts inst slot alloc) (set_allocation t inst slot alloc)
unfolding set_allocation
set_allocation-Assigned t insts i s a w hi hs =
    let at_i : get_or (starts_from 0 insts) i 0 ≡ start_of insts i =
      omega (arith, get_or-starts_from 0 insts i (omega arith)) in
    let from : load t.operands_offset i ≡ ok (start_of insts i) = rw (w.offsets) (
      load-ok (starts_from 0 insts) i 0 (omega (arith, length-starts_from 0 insts)) ∙ ap ok at_i) in
    let inside : start_of insts i + s < length t.allocations =
      omega (arith, w.size, start_of-suc insts i hi, start_of-total insts (suc i), hs) in
    let t' : Allocations = record t { allocations = set t.allocations (start_of insts i + s) a } in
    let w' : IsTable t' insts = record { offsets = w.offsets; size = rw (length-set) w.size } in
    rw (from, store-ok t.allocations (start_of insts i + s) a inside)
      (record {
        table = w';
        reads = λ j hj.
            rw (inst_allocations-part t' insts j w' hj, inst_allocations-part t insts j w hj)
              (ap ok (part-set t.allocations insts i j s a hi hj hs));
      })
