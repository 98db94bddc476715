-- ===== src/Coalescing/Values.antt =====
-- `coalesce_values` (src/internal/coalescing.rs): the sets of two values, on the table of
-- src/union_find.rs.
use regalloc.Base.{
  ℕ, ◌<◌, ◌≡◌, ◌≢◌, ◌⊎◌, inl, inr, refl, sym, Bool, true, false, ◌==◌, if◌then◌else◌, List, length,
  ok, panic, arith, ◌≤◌, Returns, Returns-bind, ℕ_discrete,
}
use mathlib.Core.Path.{subst}
use regalloc.UnionFind.{UnionFindEntry, UnionFind, try_union}
use regalloc.UnionFind.Leads.{Leads, Leads-inside, IsValid, SameLeaders, parent}
use regalloc.UnionFind.Union.{Unioned, Outcome, together, refused, merged, try_union_unions}
use regalloc.Coalescing.{ValueSet, LiveRanges, Captured, unify, coalesce_values}
use regalloc.Coalescing.Chains.{AllApart}
use regalloc.Coalescing.Unify.{IsSorted, IsEmpty, Merged, Unifies, unify-Unifies}

-- `x` and `y` lead the sets of `a` and `b`, in one order or the other.
abbrev pub AreLeaders : List UnionFindEntry → ℕ → ℕ → ℕ → ℕ → Type 0
AreLeaders t a b x y =
    (Leads (parent t) a x × Leads (parent t) b y) ⊎ (Leads (parent t) a y × Leads (parent t) b x)

-- What `coalesce_values` does, by its answer.
pub data Coalesced (t t' : List UnionFindEntry) (a b : ℕ) (r r' : LiveRanges) : Bool → Type 0 where
  -- The set of `f` is merged into that of `l`: its values and its segments.
  joined :
      (l f : ℕ)
      → AreLeaders t a b l f
      → l ≢ f
      → Merged l f r r'
      → ((j x : ℕ) → Leads (parent t) j x → Leads (parent t') j (if f == x then l else x))
      → Coalesced t t' a b r r' true
  -- The values are in one set already.
  same_set :
      (x : ℕ)
      → Leads (parent t) a x × Leads (parent t) b x
      → r' ≡ r
      → SameLeaders (parent t) (parent t')
      → Coalesced t t' a b r r' false
  -- One of the sets has no segments, or two segments overlap.
  kept :
      (l f : ℕ)
      → AreLeaders t a b l f
      → IsEmpty (r l) ⊎ (IsEmpty (r f) ⊎ (¬ AllApart (r l) (r f)))
      → r' ≡ r
      → SameLeaders (parent t) (parent t')
      → Coalesced t t' a b r r' false

-- The state that `coalesce_values` leaves.
pub record Coalesces (t t' : List UnionFindEntry) (a b : ℕ) (r r' : LiveRanges) (answer : Bool)
    : Type 0 where
  pub valid : IsValid t'
  pub size : length t' ≡ length t
  pub sorted : (s : ValueSet) → IsSorted (r' s)
  pub outcome : Coalesced t t' a b r r' answer

-- Merging keeps every set sorted.
Merged-IsSorted :
    (l f : ℕ) (r r' : LiveRanges)
    → ((s : ValueSet) → IsSorted (r s))
    → Merged l f r r'
    → (s : ValueSet) → IsSorted (r' s)
Merged-IsSorted l f r r' h m s = elim (ℕ_discrete s l) [
  | yes e ↦ subst (λ x. IsSorted (r' x)) (sym e) m.sorted
  | no n ↦ elim (ℕ_discrete s f) [
    | yes e ↦ subst (λ x. IsSorted (r' x)) (sym e) (subst (λ x. IsSorted x) (sym m.cleared) tt)
    | no n' ↦ subst (λ x. IsSorted x) (sym (m.others s n n')) (h s)
  ]
]

module _ (t : List UnionFindEntry) (a b : ℕ) (r : LiveRanges)
    (sorted : (s : ValueSet) → IsSorted (r s)) (num_sets : ℕ) (before : IsValid t)
    (room : length t ≤ num_sets) (ha : a < length t) (hb : b < length t) where
  abbrev start : Captured
  start = record { ranges = r; merged = false; panicked = false }

  order :
      {ra rb l f : ℕ}
      → Leads (parent t) a ra
      → Leads (parent t) b rb
      → ((l ≡ ra) × (f ≡ rb)) ⊎ ((l ≡ rb) × (f ≡ ra))
      → AreLeaders t a b l f
  order da db (inl (e, f)) = inl (rw (e) da, rw (f) db)
  order da db (inr (e, f)) = inr (rw (f) da, rw (e) db)

  inside : {l f : ℕ} → AreLeaders t a b l f → (l < num_sets) × (f < num_sets)
  inside (inl (da, db)) =
      (omega (arith, Leads-inside before ha da), omega (arith, Leads-inside before hb db))
  inside (inr (da, db)) =
      (omega (arith, Leads-inside before hb db), omega (arith, Leads-inside before ha da))

  module _ (t' : List UnionFindEntry) (valid : IsValid t') (size : length t' ≡ length t) (ra rb : ℕ)
      (da : Leads (parent t) a ra) (db : Leads (parent t) b rb) where
    by-Outcome :
        (c : Captured)
        → Outcome t t' ra rb start c (unify num_sets)
        → (c.panicked ≡ false) × Coalesces t t' a b r c.ranges c.merged
    by-Outcome c (together e k same) =
        subst (λ z. (z.panicked ≡ false) × Coalesces t t' a b r z.ranges z.merged) (sym k)
          (
            refl,
            record {
              valid = valid;
              size = size;
              sorted = sorted;
              outcome = same_set ra (da, subst (λ z. Leads (parent t) b z) (sym e) db) refl same;
            },
          )
    by-Outcome c (refused l f o n e same) =
        let (hl, hf) = inside (order da db o) in
        let u : Unifies l f start (false, c) =
          subst (λ z. Unifies l f start z) e
            (unify-Unifies num_sets l f start hl hf n (sorted l) (sorted f)) in
        subst (λ z. (z.panicked ≡ false) × Coalesces t t' a b r z.ranges z.merged) (sym u.0)
          (
            refl,
            record {
              valid = valid;
              size = size;
              sorted = sorted;
              outcome = kept l f (order da db o) u.1 refl same;
            },
          )
    by-Outcome c (merged l f o n e leads) =
        let (hl, hf) = inside (order da db o) in
        let u : Unifies l f start (true, c) =
          subst (λ z. Unifies l f start z) e
            (unify-Unifies num_sets l f start hl hf n (sorted l) (sorted f)) in
        subst (λ z. (c.panicked ≡ false) × Coalesces t t' a b r c.ranges z) (sym u.0)
          (
            u.1,
            record {
              valid = valid;
              size = size;
              sorted = Merged-IsSorted l f r c.ranges sorted u.2;
              outcome = joined l f (order da db o) n u.2 leads;
            },
          )

-- On a valid table, where the segments of every set are sorted and there are live ranges for as many
-- sets as the table has keys, `coalesce_values` returns for two
-- values of the table and keeps both conditions. It answers true exactly where the values are in
-- different sets, both sets have segments and no segment of the one overlaps one of the other: the
-- sets and their segments are then merged. Otherwise no set and no segment changes.
pub coalesce_values-Coalesces :
    (u : UnionFind) (num_sets : ℕ) (r : LiveRanges) (a b : ℕ)
    → IsValid u.table
    → length u.table ≤ num_sets
    → ((s : ValueSet) → IsSorted (r s))
    → a < length u.table
    → b < length u.table
    → Returns
        (λ (answer, u', r'). Coalesces u.table u'.table a b r r' answer)
        (coalesce_values u num_sets r a b)
unfolding coalesce_values
coalesce_values-Coalesces u num_sets r a b v room s ha hb =
    let start : Captured = record { ranges = r; merged = false; panicked = false } in
    Returns-bind (λ (u', c). Unioned u.table u'.table a b start c (unify num_sets))
      (λ (answer, u', r'). Coalesces u.table u'.table a b r r' answer)
      (try_union u a b start (unify num_sets))
      (λ (u', c). if c.panicked then panic else ok (c.merged, u', c.ranges))
      (λ (u', c) w.
        let (calm, done) =
          by-Outcome u.table a b r s num_sets v room ha hb u'.table w.valid w.size w.leader_a
            w.leader_b w.leads_a w.leads_b c w.outcome in
        rw (calm) done)
      (try_union_unions u a b start (unify num_sets) v ha hb)
