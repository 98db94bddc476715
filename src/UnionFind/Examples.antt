-- ===== src/UnionFind/Examples.antt =====
-- Tests of src/union_find.rs on a small table, and the theorems at inputs.
use regalloc.Base.{
  ℕ, zero, suc, ◌≢◌, ◌≡◌, ◌<◌, refl, Bool, true, [], ◌∷◌, length, ok, panic, ◌>>=◌, Returns, arith,
}
use regalloc.UnionFind.{UnionFindEntry, UnionFind, new, reset, find, try_union}
use regalloc.UnionFind.Leads.{Leads, IsValid, parent, rank}
use regalloc.UnionFind.Find.{Found, find_finds}
use regalloc.UnionFind.Union.{Unioned, try_union_unions, reset-IsValid}

abbrev entry : ℕ → ℕ → UnionFindEntry
entry p r = record { parent = p; rank = r }

abbrev accept : ℕ → ℕ → ℕ → Bool × ℕ
accept l f calls = (true, calls)

-- A chain 3 → 2 → 1 → 0, on which `find` halves the path.
abbrev chain : UnionFind
chain = record { table = entry 0 3 ∷ entry 0 2 ∷ entry 1 1 ∷ entry 2 0 ∷ entry 4 0 ∷ [] }

find_runs :
    find chain 3
    ≡ ok (0, record { table = entry 0 3 ∷ entry 0 2 ∷ entry 1 1 ∷ entry 1 0 ∷ entry 4 0 ∷ [] })
unfolding find
find_runs = refl

find_panics : find new 0 ≡ panic
unfolding find new
find_panics = refl

try_union_runs :
    (try_union (reset new 3) 0 2 7 accept >>= λ (u, s). ok u)
    ≡ ok (record { table = entry 0 1 ∷ entry 1 0 ∷ entry 0 0 ∷ [] })
unfolding try_union reset
try_union_runs = refl

chain_inside : (k : ℕ) → k < 5 → parent chain.table k < 5
chain_inside zero h = omega arith
chain_inside (suc zero) h = omega arith
chain_inside (suc (suc zero)) h = omega arith
chain_inside (suc (suc (suc zero))) h = omega arith
chain_inside (suc (suc (suc (suc zero)))) h = omega arith
chain_inside (suc (suc (suc (suc (suc k))))) h = absurd (omega arith)

chain_climbs :
    (k : ℕ)
    → k < 5
    → parent chain.table k ≢ k
    → rank chain.table k < rank chain.table (parent chain.table k)
chain_climbs zero h n = absurd (n refl)
chain_climbs (suc zero) h n = omega arith
chain_climbs (suc (suc zero)) h n = omega arith
chain_climbs (suc (suc (suc zero))) h n = omega arith
chain_climbs (suc (suc (suc (suc zero)))) h n = absurd (n refl)
chain_climbs (suc (suc (suc (suc (suc k))))) h n = absurd (omega arith)

chain-IsValid : IsValid chain.table
chain-IsValid = record { inside = chain_inside; climbs = chain_climbs }

find_finds_example : Returns (λ (r, u'). Found chain.table 3 r u'.table) (find chain 3)
find_finds_example = find_finds chain 3 chain-IsValid (omega arith)

try_union_unions_example :
    Returns
      (λ (u', s'). Unioned chain.table u'.table 3 4 7 s' accept)
      (try_union chain 3 4 7 accept)
try_union_unions_example =
    try_union_unions chain 3 4 7 accept chain-IsValid (omega arith) (omega arith)

reset-IsValid_example :
    IsValid (reset chain 2).table
    × (length (reset chain 2).table ≡ 2)
    × ((k : ℕ) → k < 2 → Leads (parent (reset chain 2).table) k k)
reset-IsValid_example = reset-IsValid chain 2
