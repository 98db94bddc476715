-- ===== src/UnionFind/Find.antt =====
-- `UnionFind::find` (src/union_find.rs): it ends, keeps the table valid, returns the leader, and
-- moves no key to another set.
use regalloc.Base.{
  ℕ_discrete, Returns-map, ℕ, zero, suc, ◌-◌, ◌≤◌, ◌<◌, ◌≡◌, ◌≢◌, inl, inr, refl, ap, ◌∙◌, List, [],
  ◌∷◌, length, get_or, set, length-set, get_or-set, load-ok, store-ok, ok, Returns, Returns-bind,
  arith, ◌==◌, if◌then◌else◌, Bool-cases,
}
use regalloc.UnionFind.{UnionFindEntry, UnionFind, find_loop, max_rank, find}
use regalloc.UnionFind.Leads.{
  vacant, parent, rank, Leads, stop, up, IsValid, SameLeaders, halved_fwd, halved_back,
}

-- The table with `k` moved below its grandparent.
abbrev pub halve : List UnionFindEntry → ℕ → List UnionFindEntry
halve t k = set t k (record (get_or t k vacant) { parent = parent t (parent t k) })

module _ (t : List UnionFindEntry) (k : ℕ) (inside : k < length t) where
  pub parent-halve :
      (j : ℕ) → parent (halve t k) j ≡ (if k == j then parent t (parent t k) else parent t j)
  parent-halve j = ground (
    arith,
    get_or-set t k j (record (get_or t k vacant) { parent = parent t (parent t k) }) vacant inside,
  )

  pub rank-halve : (j : ℕ) → rank (halve t k) j ≡ rank t j
  rank-halve j = ground (
    arith,
    get_or-set t k j (record (get_or t k vacant) { parent = parent t (parent t k) }) vacant inside,
  )

  pub length-halve : length (halve t k) ≡ length t
  length-halve = length-set t k _

  grand_climbs : IsValid t → parent t k ≢ k → rank t k < rank t (parent t (parent t k))
  grand_climbs v n = elim (Bool-cases (parent t (parent t k) == parent t k)) [
    | inl e ↦
        let fix : parent t (parent t k) ≡ parent t k = ground arith in rw fix (v.climbs k inside n)
    | inr e ↦
        omega (arith, v.climbs k inside n, v.climbs (parent t k) (v.inside k inside) (ground arith))
  ]

  halve-IsValid : IsValid t → parent t k ≢ k → IsValid (halve t k)
  halve-IsValid v n = record {
    inside = λ j h.
        ground (arith, parent-halve j, length-halve, v.inside j, v.inside k, v.inside (parent t k));
    climbs = λ j h m. elim (Bool-cases (k == j)) [
      | inl e ↦
          let here : k ≡ j = ground arith in
          let p : parent (halve t k) j ≡ parent t (parent t k) = ground (arith, parent-halve j) in
          omega (
            arith,
            rank-halve j,
            rank-halve (parent (halve t k) j),
            ap (rank t) p,
            ap (rank t) here,
            grand_climbs v n,
          )
      | inr e ↦
          let p : parent (halve t k) j ≡ parent t j = ground (arith, parent-halve j) in
          omega (
            arith,
            rank-halve j,
            rank-halve (parent (halve t k) j),
            ap (rank t) p,
            v.climbs j (rw (← length-halve) h) (λ q. m (p ∙ q)),
          )
    ];
  }

  halve-SameLeaders : IsValid t → parent t k ≢ k → SameLeaders (parent t) (parent (halve t k))
  halve-SameLeaders v n j r = (
    halved_fwd (parent t) (parent (halve t k)) k parent-halve,
    halved_back (parent t) (parent (halve t k)) k parent-halve
        (inl (λ q. absurd (omega (arith, grand_climbs v n, ap (rank t) q)))),
  )

-- What `find` promises of its answer `r` and of the table `t'` that it leaves.
pub record Found (t : List UnionFindEntry) (k r : ℕ) (t' : List UnionFindEntry) : Type 0 where
  pub valid : IsValid t'
  pub size : length t' ≡ length t
  pub ranks : (j : ℕ) → rank t' j ≡ rank t j
  pub same : SameLeaders (parent t) (parent t')
  pub leader : Leads (parent t) k r
  pub leader_inside : r < length t

-- The two rounds of the loop: the last one, and one that halves the path.
find_loop-root :
    (fuel : ℕ) (t : List UnionFindEntry) (k : ℕ)
    → k < length t
    → parent t k ≡ k
    → find_loop (suc fuel) t k ≡ ok (k, t)
unfolding find_loop
find_loop-root fuel t k inside e = ground (arith, load-ok t k vacant inside)

find_loop-halve :
    (fuel : ℕ) (t : List UnionFindEntry) (k : ℕ)
    → IsValid t
    → k < length t
    → parent t k ≢ k
    → find_loop (suc fuel) t k ≡ find_loop fuel (halve t k) (parent t (parent t k))
unfolding find_loop
find_loop-halve fuel t k v inside n = ground (
  arith,
  load-ok t k vacant inside,
  load-ok t (parent t k) vacant (v.inside k inside),
  store-ok t k (record (get_or t k vacant) { parent = parent t (parent t k) }) inside,
)

-- What a round leaves to do, done, is what was to be done.
Found-halve :
    (t : List UnionFindEntry) (k : ℕ)
    → IsValid t
    → k < length t
    → parent t k ≢ k
    → (r : ℕ) (t' : List UnionFindEntry) → Found (halve t k) (parent t (parent t k)) r t'
    → Found t k r t'
Found-halve t k v inside n r t' found =
    let halved = halve-SameLeaders t k inside v n in
    record {
      valid = found.valid;
      size = found.size ∙ length-halve t k inside;
      ranks = λ j. found.ranks j ∙ rank-halve t k inside j;
      same = λ j s.
          (λ d. (found.same j s).0 ((halved j s).0 d), λ d. (halved j s).1 ((found.same j s).1 d));
      leader = up (up ((halved (parent t (parent t k)) r).1 found.leader));
      leader_inside = rw (length-halve t k inside) at found.leader_inside;
    }

find_loop_finds :
    (fuel m : ℕ) (t : List UnionFindEntry) (k : ℕ)
    → IsValid t
    → k < length t
    → ((j : ℕ) → j < length t → rank t j ≤ m)
    → m - rank t k < fuel
    → Returns (λ (r, t'). Found t k r t') (find_loop fuel t k)
find_loop_finds zero m t k v inside top f = absurd (omega arith)
find_loop_finds (suc fuel) m t k v inside top f = elim (ℕ_discrete (parent t k) k) [
  | yes e ↦ rw (find_loop-root fuel t k inside e) (record {
    valid = v;
    size = refl;
    ranks = λ j. refl;
    same = λ j r. (λ d. d, λ d. d);
    leader = stop refl e;
    leader_inside = inside;
  })
  | no n ↦
      let grand = v.inside (parent t k) (v.inside k inside) in
      let kept = rank-halve t k inside in
      let size = length-halve t k inside in
      rw (find_loop-halve fuel t k v inside n) (
        Returns-map (λ (r, t'). Found (halve t k) (parent t (parent t k)) r t')
          (λ (r, t'). Found t k r t') _ (λ (r, t'). Found-halve t k v inside n r t')
          (find_loop_finds fuel m (halve t k) (parent t (parent t k)) (halve-IsValid t k inside v n)
            (rw size grand) (λ j h. rw kept (top j (rw (← size) h)))
            (omega (
              arith,
              kept (parent t (parent t k)),
              grand_climbs t k inside v n,
              top (parent t (parent t k)) grand,
            ))))
]

rank-le-max_rank : (t : List UnionFindEntry) (j : ℕ) → j < length t → rank t j ≤ max_rank t
unfolding max_rank
rank-le-max_rank [] j h = absurd (omega arith)
rank-le-max_rank (e ∷ t) zero h = omega arith
rank-le-max_rank (e ∷ t) (suc j) h = omega (arith, rank-le-max_rank t j)

-- On a valid table `find` ends for every key: it returns the key's leader, and leaves a valid table
-- with the same ranks in which every key has the leader that it had.
pub find_finds :
    (u : UnionFind) (k : ℕ)
    → IsValid u.table
    → k < length u.table
    → Returns (λ (r, u'). Found u.table k r u'.table) (find u k)
unfolding find
find_finds u k v inside =
    Returns-bind _ _ (find_loop (suc (max_rank u.table)) u.table k) _ (λ (r, t') f. f)
      (find_loop_finds (suc (max_rank u.table)) (max_rank u.table) u.table k v inside
        (rank-le-max_rank u.table) (omega arith))
