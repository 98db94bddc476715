-- ===== src/UnionFind.antt =====
-- src/union_find.rs: `UnionFind` with path halving and union by rank. Keys are their indices.
-- The rank is a `u32` that grows by one only where two sets of the same rank merge; the model
-- leaves it unbounded. `while` loops take fuel, here the highest rank plus one.
pub mod Leads
pub mod Find
mod Link
pub mod Union
mod Examples
use regalloc.Base.{
  ℕ, zero, suc, true, false, ◌+◌, ◌≤◌, ◌<◌, ◌≡◌, Bool, List, [], ◌∷◌, length, get_or, set, store,
  load, Run, ok, out_of_fuel, ◌>>=◌, ltb, leb, ◌==◌, if◌then◌else◌, max, not,
}

-- `UnionFindEntry`.
pub record UnionFindEntry : Type 0 where
  pub parent : ℕ
  pub rank : ℕ

pub record UnionFind : Type 0 where
  pub table : List UnionFindEntry

-- The entries `(i..i + n)`, each its own parent.
unfoldable pub singletons : ℕ → ℕ → List UnionFindEntry
singletons i zero = []
singletons i (suc n) = record { parent = i; rank = 0 } ∷ singletons (i + 1) n

-- `UnionFind::new`.
unfoldable pub new : UnionFind
new = record { table = [] }

-- `UnionFind::reset`: whatever the table held is cleared.
unfoldable pub reset : UnionFind → ℕ → UnionFind
unfolding singletons
reset u num_keys = record { table = singletons 0 num_keys }

-- The loop of `UnionFind::find`: every visited node is made to point at its grandparent.
unfoldable pub find_loop : ℕ → List UnionFindEntry → ℕ → Run (ℕ × List UnionFindEntry)
find_loop zero t k = out_of_fuel
find_loop (suc fuel) t k = do
  entry ← load t k
  elim (entry.parent == k) [
    | true ↦ ok (k, t)
    | false ↦ do
      above ← load t entry.parent
      t' ← store t k (record entry { parent = above.parent })
      find_loop fuel t' above.parent
  ]

-- The highest rank in the table, which bounds the rounds of `find`.
unfoldable pub max_rank : List UnionFindEntry → ℕ
max_rank [] = 0
max_rank (e ∷ t) = max e.rank (max_rank t)

-- `UnionFind::find`.
unfoldable pub find : UnionFind → ℕ → Run (ℕ × UnionFind)
unfolding find_loop max_rank
find u k = do
  (leader, t) ← find_loop (suc (max_rank u.table)) u.table k
  ok (leader, record { table = t })

-- The part of `try_union` behind the choice of leader and follower, entered where `unify` is true.
unfoldable pub link : List UnionFindEntry → ℕ → ℕ → Run (List UnionFindEntry)
link t leader follower = do
  l ← load t leader
  f ← load t follower
  t₁ ← (if l.rank == f.rank then store t leader (record l { rank = l.rank + 1 }) else ok t)
  g ← load t₁ follower
  store t₁ follower (record g { parent = leader })

-- The two keys of `try_union` once `find` has led them to their sets' leaders: the set with the
-- higher rank stays, `a` where they are equal.
unfoldable pub choose : List UnionFindEntry → ℕ → ℕ → Run (ℕ × ℕ)
choose t a b = do ea ← load t a; eb ← load t b; ok (if leb eb.rank ea.rank then (a, b) else (b, a))

-- `try_union` behind the two calls of `find`. The closure `unify` also changes what it captures, a
-- state of type `S`, which is handed through: it answers whether to merge, with the state it leaves.
unfoldable pub union_leaders :
    {S : Type 0} → UnionFind → ℕ → ℕ → S → (ℕ → ℕ → S → Bool × S) → Run (UnionFind × S)
unfolding link choose
union_leaders u a b s unify = elim (a == b) [
  | true ↦ ok (u, s)
  | false ↦ do
    (leader, follower) ← choose u.table a b
    let (merge, s') = unify leader follower s
    elim merge [
      | true ↦ do t ← link u.table leader follower; ok (record { table = t }, s')
      | false ↦ ok (u, s')
    ]
]

-- `UnionFind::try_union`.
unfoldable pub try_union :
    {S : Type 0} → UnionFind → ℕ → ℕ → S → (ℕ → ℕ → S → Bool × S) → Run (UnionFind × S)
unfolding find union_leaders
try_union u a b s unify = do
  (a', u₁) ← find u a
  (b', u₂) ← find u₁ b
  union_leaders u₂ a' b' s unify
