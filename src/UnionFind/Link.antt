-- ===== src/UnionFind/Link.antt =====
-- The step of `UnionFind::try_union` that hangs one root below another (src/union_find.rs).
use regalloc.Base.{
  ℕ, ◌+◌, ◌≤◌, ◌<◌, ◌≡◌, ◌≢◌, ◌∙◌, List, length, get_or, set, length-set, get_or-set, load-ok,
  store-ok, ok, Returns, arith, ◌==◌, if◌then◌else◌, ℕ_discrete,
}
use regalloc.UnionFind.{UnionFindEntry, link}
use regalloc.UnionFind.Leads.{vacant, parent, rank, IsValid}

-- The rank of the leader grows where both sets have the same rank.
abbrev pub raise : List UnionFindEntry → ℕ → ℕ → List UnionFindEntry
raise t l f =
    if rank t l == rank t f then set t l (record (get_or t l vacant) { rank = rank t l + 1 }) else t

abbrev pub hang : List UnionFindEntry → ℕ → ℕ → List UnionFindEntry
hang t l f = set t f (record (get_or t f vacant) { parent = l })

-- `f` hangs below `l` in `t'`, and every other key has the parent that it has in `t`.
pub record Linked (t : List UnionFindEntry) (l f : ℕ) (t' : List UnionFindEntry) : Type 0 where
  pub valid : IsValid t'
  pub size : length t' ≡ length t
  pub parents : (j : ℕ) → parent t' j ≡ (if f == j then l else parent t j)

module _ (t : List UnionFindEntry) (l f : ℕ) (hl : l < length t) (hf : f < length t) where
  parent-raise : (j : ℕ) → parent (raise t l f) j ≡ parent t j
  parent-raise j =
      ground
        (arith, get_or-set t l j (record (get_or t l vacant) { rank = rank t l + 1 }) vacant hl)

  rank-raise :
      (j : ℕ)
      → rank (raise t l f) j
        ≡ (if rank t l == rank t f then (if l == j then rank t l + 1 else rank t j) else rank t j)
  rank-raise j =
      ground
        (arith, get_or-set t l j (record (get_or t l vacant) { rank = rank t l + 1 }) vacant hl)

  length-raise : length (raise t l f) ≡ length t
  length-raise = ground (arith, length-set t l (record (get_or t l vacant) { rank = rank t l + 1 }))

  length-linked : length (hang (raise t l f) l f) ≡ length t
  length-linked = length-set (raise t l f) f _ ∙ length-raise

  parent-linked : (j : ℕ) → parent (hang (raise t l f) l f) j ≡ (if f == j then l else parent t j)
  parent-linked j = ground (
    arith,
    get_or-set (raise t l f) f j (record (get_or (raise t l f) f vacant) { parent = l }) vacant
        (rw length-raise hf),
    parent-raise j,
  )

  rank-linked : (j : ℕ) → rank (hang (raise t l f) l f) j ≡ rank (raise t l f) j
  rank-linked j = ground (
    arith,
    get_or-set (raise t l f) f j (record (get_or (raise t l f) f vacant) { parent = l }) vacant
        (rw length-raise hf),
  )

  linked-IsValid :
      IsValid t
      → parent t l ≡ l
      → parent t f ≡ f
      → l ≢ f
      → rank t f ≤ rank t l
      → IsValid (hang (raise t l f) l f)
  linked-IsValid v rl rf n r = record {
    inside = λ j h. ground (arith, parent-linked j, length-linked, v.inside j);
    climbs = λ j h m. elim (ℕ_discrete f j) [
      | yes e ↦
          let p : parent (hang (raise t l f) l f) j ≡ l = ground (arith, parent-linked j) in
          rw (rank-linked, p, rank-linked, rank-raise, rank-raise) (ground (arith))
      | no e ↦
          let p : parent (hang (raise t l f) l f) j ≡ parent t j =
            ground (arith, parent-linked j) in
          rw (rank-linked, p, rank-linked, rank-raise, rank-raise)
            (ground (arith, v.climbs j (rw length-linked at h) (λ q. m (p ∙ q))))
    ];
  }

  pub link_links :
      IsValid t
      → parent t l ≡ l
      → parent t f ≡ f
      → l ≢ f
      → rank t f ≤ rank t l
      → Returns (Linked t l f) (link t l f)
  unfolding link
  link_links v rl rf n r =
      rw steps (record {
        valid = linked-IsValid v rl rf n r;
        size = length-linked;
        parents = parent-linked;
      })
    where
      steps : link t l f ≡ ok (hang (raise t l f) l f)
      steps = ground (
        arith,
        load-ok t l vacant hl,
        load-ok t f vacant hf,
        store-ok t l (record (get_or t l vacant) { rank = rank t l + 1 }) hl,
        load-ok (raise t l f) f vacant (rw length-raise hf),
        store-ok (raise t l f) f (record (get_or (raise t l f) f vacant) { parent = l })
            (rw length-raise hf),
      )
