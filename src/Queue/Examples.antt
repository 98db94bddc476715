-- ===== src/Queue/Examples.antt =====
-- Tests of the entries of the queue (src/internal/allocator/queue.rs), and the theorems at inputs.
use regalloc.Base.{ℕ, ◌+◌, ◌*◌, ◌^◌, ◌<◌, ◌≡◌, ◌⊎◌, ◌↔◌, refl, true, [], ◌∷◌, arith}
use regalloc.ValueSegment.{live_insts}
use regalloc.Queue.{Stage, VirtRegOrGroup, pack, VirtReg, encode, encode_group, decode}
use regalloc.Queue.Priority.{pack_order, decode-encode}

abbrev vreg : VirtReg
vreg = record {
  has_fixed_hint = true;
  segments =
      record {
        live_range = record { from = 4; to = 17 };
        use_list = record { from = 0; to = 0 };
        value = 0;
      }
      ∷ [];
}

encode_runs : encode 9 vreg Stage.evict ≡ 2 ^ 63 + 2 ^ 62 + 4 * 2 ^ 32 + 9
unfolding encode pack live_insts
encode_runs = refl

decode-encode_example :
    (decode (encode 9 vreg Stage.evict) ≡ (VirtRegOrGroup.reg 9, Stage.evict))
    × (decode (encode_group 9 (vreg ∷ vreg ∷ []) Stage.evict)
        ≡ (VirtRegOrGroup.group 9, Stage.evict))
decode-encode_example =
    decode-encode 9 Stage.evict vreg (vreg ∷ vreg ∷ []) (omega arith) (omega arith) (omega arith)

-- Two virtual registers that differ in the index alone.
pack_order_example : (pack 1 0 0 5 3 < pack 1 0 0 5 4) ↔ (
    (1 < 1)
    ⊎ ((◌≡◌ {A = ℕ} 1 1)
        × ((0 < 0)
            ⊎ ((◌≡◌ {A = ℕ} 0 0)
                × ((0 < 0) ⊎ ((◌≡◌ {A = ℕ} 0 0) × ((5 < 5) ⊎ ((◌≡◌ {A = ℕ} 5 5) × (3 < 4)))))))))
pack_order_example =
    pack_order 1 0 0 5 3 1 0 0 5 4 (omega arith, omega arith, omega arith, omega arith, omega arith)
      (omega arith, omega arith, omega arith, omega arith, omega arith)
