-- ===== src/Queue/Priority.antt =====
-- What an entry of the queue says, and the order of entries (src/internal/allocator/queue.rs).
use regalloc.Base.{
  ℕ, ◌-◌, ◌/◌, ◌%◌, ◌^◌, ◌<◌, ◌≤◌, ◌≡◌, ◌⊎◌, ◌↔◌, Bool, true, false, List, length, min, arith,
}
use regalloc.ValueSegment.{live_insts}
use regalloc.Queue.{
  Stage, VirtRegOrGroup, hint_bit, pack, VirtReg, encode, any_hint, total_insts, encode_group,
  decode,
}

-- The fields of an entry are within their bits.
abbrev pub IsField : ℕ → ℕ → ℕ → ℕ → ℕ → Type 0
IsField s h g z i = (s < 2) × (h < 2) × (g < 8) × (z < 2 ^ 27) × (i < 2 ^ 32)

-- The word gives back its fields.
fields :
    (s h g z i : ℕ)
    → IsField s h g z i
    → (pack s h g z i / 2 ^ 63 ≡ s)
      × (pack s h g z i / 2 ^ 59 % 8 ≡ g)
      × (pack s h g z i % 2 ^ 32 ≡ i)
unfolding pack
fields s h g z i w = (omega (arith, w), omega (arith, w), omega (arith, w))

-- Entries are ordered by stage, then by hint, then by group size, then by size and then by index:
-- of two entries that differ in the index alone, the one with the lower index is the lesser.
pub pack_order :
    (s h g z i s' h' g' z' i' : ℕ)
    → IsField s h g z i
    → IsField s' h' g' z' i'
    → (pack s h g z i < pack s' h' g' z' i') ↔ (
        (s < s')
        ⊎ ((s ≡ s')
            × ((h < h')
                ⊎ ((h ≡ h') × ((g < g') ⊎ ((g ≡ g') × ((z < z') ⊎ ((z ≡ z') × (i < i')))))))))
unfolding pack
pack_order s h g z i s' h' g' z' i' w w' = ground (arith, w, w')

bits_fit : (b : Bool) → hint_bit b < 2
bits_fit true = omega arith
bits_fit false = omega arith

-- The entry of a virtual register gives back its index and the stage, and that of a group of two
-- to eight members the group's index and the stage, where the index is within `u32`.
pub decode-encode :
    (index : ℕ) (stage : Stage) (vreg : VirtReg) (members : List VirtReg)
    → index < 2 ^ 32
    → 2 ≤ length members
    → length members ≤ 8
    → (decode (encode index vreg stage) ≡ (VirtRegOrGroup.reg index, stage))
      × (decode (encode_group index members stage) ≡ (VirtRegOrGroup.group index, stage))
unfolding decode encode encode_group
decode-encode index Stage.evict vreg members h a b =
    let v = bits_fit vreg.has_fixed_hint in
    let m = bits_fit (any_hint members) in
    (
      ground (
        arith,
        fields 1 (hint_bit vreg.has_fixed_hint) 0 (min (live_insts vreg.segments) (2 ^ 27 - 1))
            index (omega arith, v, omega arith, omega arith, h),
      ),
      ground (
        arith,
        a,
        b,
        fields 1 (hint_bit (any_hint members)) (length members - 1)
            (min (total_insts members) (2 ^ 27 - 1)) index
            (omega arith, m, omega (arith, b), omega arith, h),
      ),
    )
decode-encode index Stage.split vreg members h a b =
    let v = bits_fit vreg.has_fixed_hint in
    let m = bits_fit (any_hint members) in
    (
      ground (
        arith,
        fields 0 (hint_bit vreg.has_fixed_hint) 0 (min (live_insts vreg.segments) (2 ^ 27 - 1))
            index (omega arith, v, omega arith, omega arith, h),
      ),
      ground (
        arith,
        a,
        b,
        fields 0 (hint_bit (any_hint members)) (length members - 1)
            (min (total_insts members) (2 ^ 27 - 1)) index
            (omega arith, m, omega (arith, b), omega arith, h),
      ),
    )
