-- ===== src/Coalescing/Pass/Invariant.antt =====
-- What every step of the coalescing pass (src/internal/coalescing.rs) keeps.
use regalloc.Base.{
  ℕ, ◌≤◌, ◌<◌, ◌≡◌, inl, inr, ◌∙◌, Bool, ◌==◌, if◌then◌else◌, List, [], ◌∷◌, length, ok, Returns,
  Returns-bind, Returns-map, Returns-inv, All, Bool-cases,
}
use regalloc.UnionFind.{UnionFindEntry, UnionFind, find}
use regalloc.UnionFind.Leads.{Leads, Leads-inside, IsValid, parent}
use regalloc.UnionFind.Find.{Found, find_finds}
use regalloc.Coalescing.{ValueSet, LiveRanges, coalesce_values}
use regalloc.Coalescing.Unify.{IsSorted}
use regalloc.Coalescing.Values.{
  Coalesces, Coalesced, joined, same_set, kept, coalesce_values-Coalesces,
}
use regalloc.Coalescing.Pass.{Pass, try_pair, try_pairs, try_distinct_pairs}
use regalloc.Coalescing.Pass.Settled.{Settled, Coalesced-Settled, All-Settled}
use regalloc.Coalescing.Pass.Segments.{Holds, Holds-same, Holds-joined}

-- For `n` values whose segments `r₀` gives: the table of sets is valid, the segments of a set do not
-- overlap and are those of its values, there is a last group, if any, for each value, there are live
-- ranges for as many sets, and `pairs` are settled.
pub record Inv (n : ℕ) (r₀ : LiveRanges) (pairs : List (ℕ × ℕ)) (s : Pass) : Type 0 where
  pub valid : IsValid s.set_for_value.table
  pub size : length s.set_for_value.table ≡ n
  pub sorted : (x : ValueSet) → IsSorted (s.ranges x)
  pub holds : Holds n r₀ s.set_for_value.table s.ranges
  pub groups : length s.last_group_for_value ≡ n
  pub sets : n ≤ s.num_sets
  pub settled : All (λ (a, b). Settled s.set_for_value.table s.ranges a b) pairs

leader_of :
    (u : UnionFind) (j : ℕ)
    → IsValid u.table
    → j < length u.table
    → (x : ℕ) × (Leads (parent u.table) j x) × (x < length u.table)
leader_of u j v h =
    let ((x, u'), e, w) =
      Returns-inv (λ (x, u'). Found u.table j x u'.table) (find u j) (find_finds u j v h) in
    (x, w.leader, w.leader_inside)

-- One call keeps the segments with their values.
Coalesced-Holds :
    (n : ℕ) (r₀ : LiveRanges) (t t' : List UnionFindEntry) (a b : ℕ) (r r' : LiveRanges)
    (answer : Bool)
    → IsValid t
    → length t ≡ n
    → a < n
    → b < n
    → Holds n r₀ t r
    → Coalesced t t' a b r r' answer
    → Holds n r₀ t' r'
Coalesced-Holds n r₀ t t' a b r r' answer v size ha hb h (joined l f o ne m leads) =
    let in_table : (j x : ℕ) → j < n → Leads (parent t) j x → x < n =
      λ j x lt d. rw (size) at (Leads-inside v (rw (size) lt) d) in
    let inside : (l < n) × (f < n) = elim o [
      | inl (da, db) ↦ (in_table a l ha da, in_table b f hb db)
      | inr (da, db) ↦ (in_table b l hb db, in_table a f ha da)
    ] in
    Holds-joined n r₀ t t' r r' h l f inside.0 inside.1 ne m leads
      (λ j lt. let (x, d, k) = leader_of (record { table = t }) j v (rw (size) lt) in (x, d))
Coalesced-Holds n r₀ t t' a b r r' answer v size ha hb h (same_set x d e same) =
    Holds-same n r₀ t t' r r' h e same
Coalesced-Holds n r₀ t t' a b r r' answer v size ha hb h (kept l f o why e same) =
    Holds-same n r₀ t t' r r' h e same

-- The values of a list are values of the function.
abbrev pub AreValues : ℕ → List ℕ → Type 0
AreValues n vs = All (λ v. v < n) vs

-- The pairs of two lists side by side, last first, before `pairs`.
abbrev pub zipped : List ℕ → List ℕ → List (ℕ × ℕ) → List (ℕ × ℕ)
zipped [] bs pairs = pairs
zipped (a ∷ as_) [] pairs = pairs
zipped (a ∷ as_) (b ∷ bs) pairs = zipped as_ bs ((a, b) ∷ pairs)

module _ (n : ℕ) (r₀ : LiveRanges) (pairs : List (ℕ × ℕ)) where
  -- A tried pair is settled.
  pub try_pair-settles :
      (s : Pass) (a b : ℕ)
      → a < n
      → b < n
      → Inv n r₀ pairs s
      → Returns (Inv n r₀ ((a, b) ∷ pairs)) (try_pair s a b)
  unfolding try_pair
  try_pair-settles s a b ha hb w =
      Returns-bind
        (λ (answer, u', r'). Coalesces s.set_for_value.table u'.table a b s.ranges r' answer)
        (Inv n r₀ ((a, b) ∷ pairs)) (coalesce_values s.set_for_value s.num_sets s.ranges a b)
        (λ (answer, u, r). ok (record s { set_for_value = u; ranges = r }))
        (λ (answer, u, r) c. record {
          valid = c.valid;
          size = c.size ∙ w.size;
          sorted = c.sorted;
          holds =
              Coalesced-Holds n r₀ s.set_for_value.table u.table a b s.ranges r answer w.valid
                w.size ha hb w.holds c.outcome;
          groups = w.groups;
          sets = w.sets;
          settled = (
            Coalesced-Settled s.set_for_value.table u.table a b s.ranges r c.outcome,
            All-Settled s.set_for_value.table u.table a b s.ranges r c.outcome pairs w.settled,
          );
        })
        (coalesce_values-Coalesces s.set_for_value s.num_sets s.ranges a b w.valid
          (rw (w.size) w.sets) w.sorted (rw (w.size) ha) (rw (w.size) hb))

  pub try_pair-Inv :
      (s : Pass) (a b : ℕ)
      → a < n
      → b < n
      → Inv n r₀ pairs s
      → Returns (Inv n r₀ pairs) (try_pair s a b)
  try_pair-Inv s a b ha hb w =
      Returns-map (Inv n r₀ ((a, b) ∷ pairs)) (Inv n r₀ pairs) (try_pair s a b)
        (λ s' w'. record {
          valid = w'.valid;
          size = w'.size;
          sorted = w'.sorted;
          holds = w'.holds;
          groups = w'.groups;
          sets = w'.sets;
          settled = w'.settled.1;
        })
        (try_pair-settles s a b ha hb w)

  pub try_pairs-Inv :
      (s : Pass) (as_ bs : List ℕ)
      → AreValues n as_
      → AreValues n bs
      → Inv n r₀ pairs s
      → Returns (Inv n r₀ pairs) (try_pairs s as_ bs)
  unfolding try_pairs
  try_pairs-Inv s [] bs ha hb w = w
  try_pairs-Inv s (a ∷ as_) [] ha hb w = w
  try_pairs-Inv s (a ∷ as_) (b ∷ bs) ha hb w =
      Returns-bind (Inv n r₀ pairs) (Inv n r₀ pairs) (try_pair s a b) (λ s'. try_pairs s' as_ bs)
        (λ s' w'. try_pairs-Inv s' as_ bs ha.1 hb.1 w') (try_pair-Inv s a b ha.0 hb.0 w)

  pub try_distinct_pairs-Inv :
      (s : Pass) (as_ bs : List ℕ)
      → AreValues n as_
      → AreValues n bs
      → Inv n r₀ pairs s
      → Returns (Inv n r₀ pairs) (try_distinct_pairs s as_ bs)
  unfolding try_distinct_pairs
  try_distinct_pairs-Inv s [] bs ha hb w = w
  try_distinct_pairs-Inv s (a ∷ as_) [] ha hb w = w
  try_distinct_pairs-Inv s (a ∷ as_) (b ∷ bs) ha hb w =
      let first : Returns (Inv n r₀ pairs) (if a == b then ok s else try_pair s a b) =
        elim (Bool-cases (a == b)) [
          | inl e ↦ rw (e) w
          | inr e ↦ rw (e) (try_pair-Inv s a b ha.0 hb.0 w)
        ] in
      Returns-bind (Inv n r₀ pairs) (Inv n r₀ pairs) (if a == b then ok s else try_pair s a b)
        (λ s'. try_distinct_pairs s' as_ bs)
        (λ s' w'. try_distinct_pairs-Inv s' as_ bs ha.1 hb.1 w') first

-- The loop over two lists settles their pairs.
pub try_pairs-settles :
    (n : ℕ) (r₀ : LiveRanges) (pairs : List (ℕ × ℕ)) (s : Pass) (as_ bs : List ℕ)
    → AreValues n as_
    → AreValues n bs
    → Inv n r₀ pairs s
    → Returns (Inv n r₀ (zipped as_ bs pairs)) (try_pairs s as_ bs)
unfolding try_pairs
try_pairs-settles n r₀ pairs s [] bs ha hb w = w
try_pairs-settles n r₀ pairs s (a ∷ as_) [] ha hb w = w
try_pairs-settles n r₀ pairs s (a ∷ as_) (b ∷ bs) ha hb w =
    Returns-bind (Inv n r₀ ((a, b) ∷ pairs)) (Inv n r₀ (zipped as_ bs ((a, b) ∷ pairs)))
      (try_pair s a b) (λ s'. try_pairs s' as_ bs)
      (λ s' w'. try_pairs-settles n r₀ ((a, b) ∷ pairs) s' as_ bs ha.1 hb.1 w')
      (try_pair-settles n r₀ pairs s a b ha.0 hb.0 w)
