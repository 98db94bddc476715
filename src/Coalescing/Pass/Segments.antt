-- ===== src/Coalescing/Pass/Segments.antt =====
-- What a merge of two sets (src/internal/coalescing.rs) does to the segments of the values in them.
use regalloc.Base.{
  ℕ, ◌<◌, ◌≡◌, ◌≢◌, inl, inr, sym, ap, ◌∙◌, ◌==◌, if◌then◌else◌, List, ℕ_discrete, arith,
}
use mathlib.Core.Path.{subst}
use mathlib.Core.Logic.{∥∥₁_map, ∥∥₁_elim, ∥∥₁_prop}
use mathlib.Core.List.{Mem, mem-append, mem-append_left, mem-append_right, not-mem-nil}
use mathlib.Core.List.Perm
use regalloc.UnionFind.{UnionFindEntry}
use regalloc.UnionFind.Leads.{Leads, SameLeaders, parent, Leads-unique}
use regalloc.ValueSegment.{ValueSegment}
use regalloc.Coalescing.{LiveRanges}
use regalloc.Coalescing.Unify.{Merged}

-- The sets hold the segments of their values, as `r₀` gives them: none is lost, and none is added.
pub record Holds (n : ℕ) (r₀ : LiveRanges) (t : List UnionFindEntry) (r : LiveRanges) : Type 0 where
  pub complete :
      (v x : ℕ) (s : ValueSegment) → v < n → Leads (parent t) v x → Mem s (r₀ v) → Mem s (r x)
  pub sound :
      (x : ℕ) (s : ValueSegment)
      → x < n
      → Mem s (r x)
      → ∥ ((v : ℕ) × (v < n) × Leads (parent t) v x × Mem s (r₀ v)) ∥₁

abbrev Source : ℕ → LiveRanges → List UnionFindEntry → ℕ → ValueSegment → Type 0
Source n r₀ t x s = ∥ ((v : ℕ) × (v < n) × Leads (parent t) v x × Mem s (r₀ v)) ∥₁

module _ (n : ℕ) (r₀ : LiveRanges) (t t' : List UnionFindEntry) (r r' : LiveRanges)
    (h : Holds n r₀ t r) where
  -- Nothing moves.
  pub Holds-same : r' ≡ r → SameLeaders (parent t) (parent t') → Holds n r₀ t' r'
  Holds-same e same = record {
    complete =
        λ v x s lt d m. subst (λ z. Mem s (z x)) (sym e) (h.complete v x s lt ((same v x).1 d) m);
    sound = λ x s lt m.
        ∥∥₁_map (h.sound x s lt (subst (λ z. Mem s (z x)) e m))
          (λ (v, lt', d, k). (v, lt', (same v x).0 d, k));
  }

  module _ (l f : ℕ) (inside : l < n) (inside' : f < n) (ne : l ≢ f) (m : Merged l f r r')
      (leads : (j x : ℕ) → Leads (parent t) j x → Leads (parent t') j (if f == x then l else x))
      (total : (j : ℕ) → j < n → (x : ℕ) × Leads (parent t) j x) where
    -- The segments of a set after the merge.
    moved : (x : ℕ) (s : ValueSegment) → Mem s (r x) → Mem s (r' (if f == x then l else x))
    moved x s k = elim (ℕ_discrete f x) [
      | yes e ↦
          let to : (if f == x then l else x) ≡ l = ground (arith, e) in
          rw (to) (
            (Perm.mem_iff m.joined).1 (mem-append_right (r l) (subst (λ z. Mem s (r z)) (sym e) k)))
      | no n' ↦
          let to : (if f == x then l else x) ≡ x = ground (arith, n') in
          elim (ℕ_discrete x l) [
            | yes e ↦ rw (to) (
                subst (λ z. Mem s (r' z)) (sym e)
                  ((Perm.mem_iff m.joined).1
                    (mem-append_left (r f) (subst (λ z. Mem s (r z)) e k))))
            | no n'' ↦ rw (to) (subst (λ z. Mem s z) (sym (m.others x n'' (λ e. n' (sym e)))) k)
          ]
    ]

    carried : (x : ℕ) (s : ValueSegment) → x ≢ f → Source n r₀ t x s → Source n r₀ t' x s
    carried x s ne' src = ∥∥₁_map src (λ (v, lt, d, k).
        let to : (if f == x then l else x) ≡ x = ground (arith, ne') in
        (v, lt, subst (Leads (parent t') v) to (leads v x d), k))

    followed : (s : ValueSegment) → Source n r₀ t f s → Source n r₀ t' l s
    followed s src = ∥∥₁_map src (λ (v, lt, d, k).
        let to : (if f == f then l else f) ≡ l = ground arith in
        (v, lt, subst (Leads (parent t') v) to (leads v f d), k))

    pub Holds-joined : Holds n r₀ t' r'
    Holds-joined = record {
      complete = λ v x s lt d k.
          let (y, d') = total v lt in
          let to = Leads-unique (leads v y d') d in
          subst (λ z. Mem s (r' z)) to (moved y s (h.complete v y s lt d' k));
      sound = λ x s lt k. elim (ℕ_discrete x l) [
        | yes e ↦
            let both = mem-append.0 ((Perm.mem_iff m.joined).0 (subst (λ z. Mem s (r' z)) e k)) in
            subst (λ z. Source n r₀ t' z s) (sym e)
              (∥∥₁_elim both ∥∥₁_prop (λ c. elim c [
                | inl a ↦ carried l s ne (h.sound l s inside a)
                | inr b ↦ followed s (h.sound f s inside' b)
              ]))
        | no n' ↦ elim (ℕ_discrete x f) [
          | yes e ↦ absurd (not-mem-nil (subst (λ z. Mem s z) (ap r' e ∙ m.cleared) k))
          | no n'' ↦ carried x s n'' (h.sound x s lt (subst (λ z. Mem s z) (m.others x n' n'') k))
        ]
      ];
    }
