-- ===== src/UnionFind/Union.antt =====
-- `UnionFind::try_union` and `reset` (src/union_find.rs).
use regalloc.Base.{
  ℕ, zero, suc, ◌+◌, ◌≤◌, ◌<◌, ◌≡◌, ◌≢◌, ◌⊎◌, inl, inr, refl, ap, ◌∙◌, List, length, get_or,
  load-ok, ok, Returns, Returns-map, arith, ◌==◌, if◌then◌else◌, Bool-cases, Bool, true, false,
  ℕ_discrete, ==_iff, Returns-inv,
}
use regalloc.UnionFind.{
  UnionFindEntry, UnionFind, find, link, choose, union_leaders, try_union, singletons, reset,
}
use regalloc.UnionFind.Leads.{
  vacant, parent, rank, Leads, stop, IsValid, SameLeaders, hung-Leads, Leads-root,
}
use regalloc.UnionFind.Find.{Found, find_finds}
use regalloc.UnionFind.Link.{Linked, link_links}

-- How a call of `try_union` ends. `ra` and `rb` are the leaders of `a` and `b` before the call, `s`
-- is the state that the closure starts from and `s'` the one that is left.
pub data Outcome {S : Type 0} (t t' : List UnionFindEntry) (ra rb : ℕ) (s s' : S)
    (unify : ℕ → ℕ → S → Bool × S) : Type 0 where
  -- One set already: `unify` is not called.
  together : ra ≡ rb → s' ≡ s → SameLeaders (parent t) (parent t') → Outcome t t' ra rb s s' unify
  -- `unify` refuses the leader `l` and the follower `f`, and no key moves.
  refused :
      (l f : ℕ)
      → ((l ≡ ra) × (f ≡ rb)) ⊎ ((l ≡ rb) × (f ≡ ra))
      → l ≢ f
      → unify l f s ≡ (false, s')
      → SameLeaders (parent t) (parent t')
      → Outcome t t' ra rb s s' unify
  -- `unify` accepts, and exactly the keys of the follower's set go over to the leader.
  merged :
      (l f : ℕ)
      → ((l ≡ ra) × (f ≡ rb)) ⊎ ((l ≡ rb) × (f ≡ ra))
      → l ≢ f
      → unify l f s ≡ (true, s')
      → ((j r : ℕ) → Leads (parent t) j r → Leads (parent t') j (if f == r then l else r))
      → Outcome t t' ra rb s s' unify

pub record Unioned {S : Type 0} (t t' : List UnionFindEntry) (a b : ℕ) (s s' : S)
    (unify : ℕ → ℕ → S → Bool × S) : Type 0 where
  pub valid : IsValid t'
  pub size : length t' ≡ length t
  pub leader_a : ℕ
  pub leader_b : ℕ
  pub leads_a : Leads (parent t) a leader_a
  pub leads_b : Leads (parent t) b leader_b
  pub outcome : Outcome t t' leader_a leader_b s s' unify

-- What `choose` does with two leaders.
abbrev Chosen : List UnionFindEntry → ℕ → ℕ → ℕ × ℕ → Type 0
Chosen t a b (l, f) = (((l ≡ a) × (f ≡ b)) ⊎ ((l ≡ b) × (f ≡ a))) × (rank t f ≤ rank t l)

choose_chooses :
    (t : List UnionFindEntry) (a b : ℕ)
    → a < length t
    → b < length t
    → Returns (Chosen t a b) (choose t a b)
unfolding choose
choose_chooses t a b ha hb = ground (arith, load-ok t a vacant ha, load-ok t b vacant hb)

-- What `union_leaders` promises, where `find` led the table `t` to the roots `a` and `b` of `u`.
abbrev UnionedLeaders :
    {S : Type 0}
    → List UnionFindEntry
    → UnionFind
    → ℕ
    → ℕ
    → S
    → (ℕ → ℕ → S → Bool × S)
    → UnionFind × S
    → Type 0
UnionedLeaders t u a b s unify (u', s') =
    IsValid u'.table × (length u'.table ≡ length u.table) × Outcome t u'.table a b s s' unify

abbrev FoundBy : UnionFind → ℕ → ℕ × UnionFind → Type 0
FoundBy u k (r, u') = Found u.table k r u'.table

-- The three ways through `union_leaders`, by what `choose` and `unify` return.
module _ {S : Type 0} (u : UnionFind) (a b : ℕ) (s : S) (unify : ℕ → ℕ → S → Bool × S) where
  union_leaders-together : a ≡ b → union_leaders u a b s unify ≡ ok (u, s)
  unfolding union_leaders
  union_leaders-together e = rw ((==_iff a b).1 e, union_leaders)

  module _ (l f : ℕ) (n : a ≢ b) (chosen : choose u.table a b ≡ ok (l, f)) where
    union_leaders-refused :
        (unify l f s).0 ≡ false → union_leaders u a b s unify ≡ ok (u, (unify l f s).1)
    unfolding union_leaders
    union_leaders-refused e = ground arith

    union_leaders-merged :
        (t : List UnionFindEntry)
        → (unify l f s).0 ≡ true
        → link u.table l f ≡ ok t
        → union_leaders u a b s unify ≡ ok (record { table = t }, (unify l f s).1)
    unfolding union_leaders
    union_leaders-merged t e linked = ground arith

-- `union_leaders` once `choose` has named the leader `l` and the follower `f`.
chosen_lem :
    {S : Type 0} (t : List UnionFindEntry) (u : UnionFind) (a b : ℕ) (s : S)
    (unify : ℕ → ℕ → S → Bool × S)
    → IsValid u.table
    → SameLeaders (parent t) (parent u.table)
    → a < length u.table
    → b < length u.table
    → parent u.table a ≡ a
    → parent u.table b ≡ b
    → a ≢ b
    → (l f : ℕ) → choose u.table a b ≡ ok (l, f)
    → ((l ≡ a) × (f ≡ b)) ⊎ ((l ≡ b) × (f ≡ a))
    → rank u.table f ≤ rank u.table l
    → Returns (UnionedLeaders t u a b s unify) (union_leaders u a b s unify)
chosen_lem t u a b s unify v same ha hb ra rb n l f chosen which higher =
    let apart : l ≢ f = ground arith in
    elim (Bool-cases (unify l f s).0) [
      | inl e ↦
          let hl : l < length u.table = ground arith in
          let hf : f < length u.table = ground arith in
          let rl : parent u.table l ≡ l = ground arith in
          let rf : parent u.table f ≡ f = ground arith in
          let (t', linked, done) =
            Returns-inv (Linked u.table l f) (link u.table l f)
              (link_links u.table l f hl hf v rl rf apart higher) in
          rw (union_leaders-merged u a b s unify l f n chosen t' e linked) (
            done.valid,
            done.size,
            merged l f which apart (λ i. (e i, (unify l f s).1))
                (λ j r d.
                  hung-Leads (parent u.table) (parent t') f l done.parents rf rl apart
                    ((same j r).0 d)),
          )
      | inr e ↦
          rw (union_leaders-refused u a b s unify l f n chosen e)
            (v, refl, refused l f which apart (λ i. (e i, (unify l f s).1)) same)
    ]

union_leaders_lem :
    {S : Type 0} (t : List UnionFindEntry) (u : UnionFind) (a b : ℕ) (s : S)
    (unify : ℕ → ℕ → S → Bool × S)
    → IsValid u.table
    → SameLeaders (parent t) (parent u.table)
    → a < length u.table
    → b < length u.table
    → parent u.table a ≡ a
    → parent u.table b ≡ b
    → Returns (UnionedLeaders t u a b s unify) (union_leaders u a b s unify)
union_leaders_lem t u a b s unify v same ha hb ra rb = elim (ℕ_discrete a b) [
  | yes e ↦ rw (union_leaders-together u a b s unify e) (v, refl, together e refl same)
  | no n ↦
      let ((l, f), chosen, (which, higher)) =
        Returns-inv (Chosen u.table a b) (choose u.table a b) (choose_chooses u.table a b ha hb) in
      chosen_lem t u a b s unify v same ha hb ra rb n l f chosen which higher
]

-- On a valid table `try_union` ends for every two keys, with a valid table of the same size: the two
-- sets are one already and nothing moves, or `unify` refuses and nothing moves, or it accepts and
-- exactly the keys of the follower's set go over to the leader.
pub try_union_unions :
    {S : Type 0} (u : UnionFind) (a b : ℕ) (s : S) (unify : ℕ → ℕ → S → Bool × S)
    → IsValid u.table
    → a < length u.table
    → b < length u.table
    → Returns (λ (u', s'). Unioned u.table u'.table a b s s' unify) (try_union u a b s unify)
unfolding try_union
try_union_unions u a b s unify v ha hb =
    let ((a', u₁), e₁, f₁) = Returns-inv (FoundBy u a) (find u a) (find_finds u a v ha) in
    let ((b', u₂), e₂, f₂) =
      Returns-inv (FoundBy u₁ b) (find u₁ b) (find_finds u₁ b f₁.valid (rw f₁.size hb)) in
    let leads_a = (f₁.same a a').0 f₁.leader in
    let same : SameLeaders (parent u.table) (parent u₂.table) =
      λ j r. (λ d. (f₂.same j r).0 ((f₁.same j r).0 d), λ d. (f₁.same j r).1 ((f₂.same j r).1 d)) in
    rw (e₁, e₂)
      (Returns-map (UnionedLeaders u.table u₂ a' b' s unify)
        (λ (u', s'). Unioned u.table u'.table a b s s' unify) _
        (λ (u', s') (valid, size, outcome). record {
          valid = valid;
          size = size ∙ f₂.size ∙ f₁.size;
          leader_a = a';
          leader_b = b';
          leads_a = f₁.leader;
          leads_b = (f₁.same b b').1 f₂.leader;
          outcome = outcome;
        })
        (union_leaders_lem u.table u₂ a' b' s unify f₂.valid same
          (rw (f₂.size, f₁.size) f₁.leader_inside) (rw f₂.size f₂.leader_inside)
          (Leads-root ((f₂.same a a').0 leads_a)) (Leads-root ((f₂.same b b').0 f₂.leader))))

singletons_lem :
    (i n j : ℕ) → j < n → get_or (singletons i n) j vacant ≡ record { parent = i + j; rank = 0 }
unfolding singletons
singletons_lem i zero j h = absurd (omega arith)
singletons_lem i (suc n) zero h = ground arith
singletons_lem i (suc n) (suc j) h = ground (arith, singletons_lem (i + 1) n j)

length-singletons : (i n : ℕ) → length (singletons i n) ≡ n
unfolding singletons
length-singletons i zero = refl
length-singletons i (suc n) = ap suc (length-singletons (i + 1) n)

-- After `reset`, whatever was there before, the table is valid, holds `num_keys` keys, and each key
-- leads itself.
pub reset-IsValid :
    (u : UnionFind) (num_keys : ℕ)
    → IsValid (reset u num_keys).table
      × (length (reset u num_keys).table ≡ num_keys)
      × ((k : ℕ) → k < num_keys → Leads (parent (reset u num_keys).table) k k)
unfolding reset
reset-IsValid u n =
    let root : (k : ℕ) → k < n → parent (singletons 0 n) k ≡ k =
      λ k h. ground (arith, singletons_lem 0 n k h) in
    (
      record {
        inside = λ k h.
            rw (length-singletons, root k (rw length-singletons at h)) (rw length-singletons at h);
        climbs = λ k h m. absurd (m (root k (rw length-singletons at h)));
      },
      length-singletons 0 n,
      λ k h. stop refl (root k h),
    )
