-- ===== src/Queue.antt =====
-- Entries of the allocation queue (src/internal/allocator/queue.rs): what is to be allocated next, with
-- its priority, packed in 64 bits. The derived order of entries is that of the numbers.
pub mod Priority
mod Examples
use regalloc.Base.{
  ℕ, ◌+◌, ◌-◌, ◌*◌, ◌/◌, ◌%◌, ◌^◌, ◌==◌, if◌then◌else◌, Bool, true, false, List, [], ◌∷◌, length,
  min,
}
use regalloc.ValueSegment.{ValueSegment, live_insts}

-- `Stage` of src/internal/allocator/mod.rs.
pub data Stage : Type 0 where
  evict split : Stage

-- `VirtRegOrGroup`, with the index of the register or of the group.
pub data VirtRegOrGroup : Type 0 where
  reg group : ℕ → VirtRegOrGroup

abbrev pub stage_bit : Stage → ℕ
stage_bit Stage.evict = 1
stage_bit Stage.split = 0

abbrev pub hint_bit : Bool → ℕ
hint_bit true = 1
hint_bit false = 0

-- The word of an entry. Every field is within its bits, so `|` is a sum.
unfoldable pub pack : ℕ → ℕ → ℕ → ℕ → ℕ → ℕ
pack stage has_fixed_hint group_size size index =
    stage * 2 ^ 63 + has_fixed_hint * 2 ^ 62 + group_size * 2 ^ 59 + size * 2 ^ 32 + index

-- A virtual register as far as its entry reads it: whether it has a hint, and its segments.
pub record VirtReg : Type 0 where
  pub has_fixed_hint : Bool
  pub segments : List ValueSegment

-- `Entry::encode`.
unfoldable pub encode : ℕ → VirtReg → Stage → ℕ
encode index vreg stage =
    pack (stage_bit stage) (hint_bit vreg.has_fixed_hint) 0
      (min (live_insts vreg.segments) (2 ^ 27 - 1)) index

unfoldable pub any_hint : List VirtReg → Bool
any_hint [] = false
any_hint (v ∷ members) = if v.has_fixed_hint then true else any_hint members

unfoldable pub total_insts : List VirtReg → ℕ
total_insts [] = 0
total_insts (v ∷ members) = live_insts v.segments + total_insts members

-- `Entry::encode_group`, of a group with members.
unfoldable pub encode_group : ℕ → List VirtReg → Stage → ℕ
encode_group index members stage =
    pack (stage_bit stage) (hint_bit (any_hint members)) (length members - 1)
      (min (total_insts members) (2 ^ 27 - 1)) index

-- `Entry::decode`.
unfoldable pub decode : ℕ → VirtRegOrGroup × Stage
decode bits = (
  if bits / 2 ^ 59 % 8 + 1 == 1
      then VirtRegOrGroup.reg (bits % 2 ^ 32)
      else VirtRegOrGroup.group (bits % 2 ^ 32),
  if bits / 2 ^ 63 == 0 then Stage.split else Stage.evict,
)
