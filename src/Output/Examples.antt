-- ===== src/Output/Examples.antt =====
-- Tests of packed values (src/output.rs, src/entity/packed_option.rs).
use regalloc.Base.{◌≡◌, refl, true, false, ok, some}
use regalloc.Output.{spillslot, is_memory, allocation_reserved, expand, pack}

is_memory_runs : is_memory (λ r. false) (spillslot 4) ≡ ok true
unfolding is_memory spillslot
is_memory_runs = refl

packed_runs : expand allocation_reserved (pack allocation_reserved (some 7)) ≡ some 7
unfolding expand pack
packed_runs = refl
