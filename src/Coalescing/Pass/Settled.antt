-- ===== src/Coalescing/Pass/Settled.antt =====
-- What the coalescing pass (src/internal/coalescing.rs) has done about a pair of values once it has
-- tried to merge them, whatever it merges later.
use regalloc.Base.{
  ℕ, ◌≡◌, ◌⊎◌, inl, inr, sym, ap, ◌==◌, if◌then◌else◌, List, [], ◌∷◌, ◌++◌, All, ℕ_discrete, arith,
  Bool, refl,
}
use mathlib.Core.Path.{subst}
use mathlib.Core.Logic.{∥∥₁_elim}
use mathlib.Core.List.{Permᴰ}
use regalloc.UnionFind.{UnionFindEntry}
use regalloc.UnionFind.Leads.{Leads, SameLeaders, parent}
use regalloc.ValueSegment.{ValueSegment}
use regalloc.Coalescing.{LiveRanges}
use regalloc.Coalescing.Chains.{Apart, AllApart}
use regalloc.Coalescing.Merge.{AllApart-sym}
use regalloc.Coalescing.Unify.{IsEmpty, Merged}
use regalloc.Coalescing.Values.{Coalesced, joined, same_set, kept}

-- The values are in one set, or their sets cannot merge: one has no segments, or segments overlap.
abbrev pub Settled : List UnionFindEntry → LiveRanges → ℕ → ℕ → Type 0
Settled t r a b =
    (x : ℕ) × (y : ℕ) × Leads (parent t) a x
    × Leads (parent t) b y
    × ((x ≡ y) ⊎ (IsEmpty (r x) ⊎ (IsEmpty (r y) ⊎ (¬ AllApart (r x) (r y)))))

module _ (P : ValueSegment → Type 0) where
  All-part : (xs ys : List ValueSegment) → All P (xs ++ ys) → All P xs × All P ys
  All-part [] ys h = (tt, h)
  All-part (x ∷ xs) ys h = let (k, l) = All-part xs ys h.1 in ((h.0, k), l)

  All-Permᴰ : {xs ys : List ValueSegment} → Permᴰ xs ys → All P xs → All P ys
  All-Permᴰ Permᴰ.nil h = tt
  All-Permᴰ (Permᴰ.cons e p) h = (subst P e h.0, All-Permᴰ p h.1)
  All-Permᴰ (Permᴰ.swap e f) h = (subst P f h.1.0, (subst P e h.0, h.1.1))
  All-Permᴰ (Permᴰ.trans p q) h = All-Permᴰ q (All-Permᴰ p h)

All-map :
    (P Q : ValueSegment → Type 0) (xs : List ValueSegment)
    → ((x : ValueSegment) → P x → Q x)
    → All P xs
    → All Q xs
All-map P Q [] f h = tt
All-map P Q (x ∷ xs) f h = (f x h.0, All-map P Q xs f h.1)

-- Nothing moves.
Settled-same :
    (t t' : List UnionFindEntry) (r r' : LiveRanges) (a b : ℕ)
    → r' ≡ r
    → SameLeaders (parent t) (parent t')
    → Settled t r a b
    → Settled t' r' a b
Settled-same t t' r r' a b e same (x, y, da, db, why) =
    subst (λ z. Settled t' z a b) (sym e) (x, y, (same a x).0 da, (same b y).0 db, why)

module _ (l f : ℕ) (r r' : LiveRanges) (m : Merged l f r r') where
  -- Where the segments of a set go.
  abbrev to : ℕ → ℕ
  to x = if f == x then l else x

  to-part :
      (P : ValueSegment → Type 0) (x : ℕ)
      → Permᴰ (r' l) (r l ++ r f)
      → All P (r' (to x))
      → All P (r x)
  to-part P x p h = elim (ℕ_discrete f x) [
    | yes e ↦
        let q : to x ≡ l = ground (arith, e) in
        let k : All P (r' l) = subst (λ z. All P (r' z)) q h in
        subst (λ z. All P (r z)) e (All-part P (r l) (r f) (All-Permᴰ P p k)).1
    | no n ↦
        let q : to x ≡ x = ground (arith, n) in
        let k : All P (r' x) = subst (λ z. All P (r' z)) q h in
        elim (ℕ_discrete x l) [
          | yes e ↦
              let k' : All P (r' l) = subst (λ z. All P (r' z)) e k in
              subst (λ z. All P (r z)) (sym e) (All-part P (r l) (r f) (All-Permᴰ P p k')).0
          | no n' ↦ subst (λ z. All P z) (m.others x n' (λ e. n (sym e))) k
        ]
  ]

  to-apart :
      (x y : ℕ)
      → Permᴰ (r' l) (r l ++ r f)
      → AllApart (r' (to x)) (r' (to y))
      → AllApart (r x) (r y)
  to-apart x y p h =
      to-part (λ a. All (Apart a) (r y)) x p
        (All-map (λ a. All (Apart a) (r' (to y))) (λ a. All (Apart a) (r y)) (r' (to x))
          (λ a k. to-part (Apart a) y p k) h)

  to-empty : (x : ℕ) → IsEmpty (r x) → IsEmpty (r' (to x))
  to-empty x h = elim (ℕ_discrete f x) [
    | yes e ↦ absurd (m.some_b (subst (λ z. IsEmpty (r z)) (sym e) h))
    | no n ↦ elim (ℕ_discrete x l) [
      | yes e ↦ absurd (m.some_a (subst (λ z. IsEmpty (r z)) e h))
      | no n' ↦
          let q : to x ≡ x = ground (arith, n) in
          subst (λ z. IsEmpty (r' z)) (sym q)
            (subst (λ z. IsEmpty z) (sym (m.others x n' (λ e. n (sym e)))) h)
    ]
  ]

  Settled-joined :
      (t t' : List UnionFindEntry) (a b : ℕ)
      → ((j x : ℕ) → Leads (parent t) j x → Leads (parent t') j (to x))
      → Settled t r a b
      → Settled t' r' a b
  Settled-joined t t' a b leads (x, y, da, db, why) = (
    to x,
    to y,
    leads a x da,
    leads b y db,
    elim why [
      | inl e ↦ inl (ap to e)
      | inr (inl h) ↦ inr (inl (to-empty x h))
      | inr (inr (inl h)) ↦ inr (inr (inl (to-empty y h)))
      | inr (inr (inr h)) ↦
          inr (inr (inr (λ k. ∥∥₁_elim m.joined (λ u v. absurd u) (λ p. h (to-apart x y p k)))))
    ],
  )

module _ (t t' : List UnionFindEntry) (a b : ℕ) (r r' : LiveRanges) where
  -- A pair that is settled stays so when another one is tried.
  Settled-kept :
      {answer : Bool} (v w : ℕ)
      → Coalesced t t' a b r r' answer
      → Settled t r v w
      → Settled t' r' v w
  Settled-kept v w (joined l f o ne m leads) s = Settled-joined l f r r' m t t' v w leads s
  Settled-kept v w (same_set x d e same) s = Settled-same t t' r r' v w e same s
  Settled-kept v w (kept l f o why e same) s = Settled-same t t' r r' v w e same s

  pub All-Settled :
      {answer : Bool}
      → Coalesced t t' a b r r' answer
      → (pairs : List (ℕ × ℕ)) → All (λ (v, w). Settled t r v w) pairs
      → All (λ (v, w). Settled t' r' v w) pairs
  All-Settled c [] h = tt
  All-Settled c ((v, w) ∷ pairs) h = (Settled-kept v w c h.0, All-Settled c pairs h.1)

  -- A pair that is tried is settled.
  pub Coalesced-Settled : {answer : Bool} → Coalesced t t' a b r r' answer → Settled t' r' a b
  Coalesced-Settled (joined l f o ne m leads) =
      let stay : to l f r r' m l ≡ l = ground arith in
      let move : to l f r r' m f ≡ l = ground arith in
      elim o [
        | inl (da, db) ↦ (
          l,
          l,
          subst (Leads (parent t') a) stay (leads a l da),
          subst (Leads (parent t') b) move (leads b f db),
          inl refl,
        )
        | inr (da, db) ↦ (
          l,
          l,
          subst (Leads (parent t') a) move (leads a f da),
          subst (Leads (parent t') b) stay (leads b l db),
          inl refl,
        )
      ]
  Coalesced-Settled (same_set x d e same) = (x, x, (same a x).0 d.0, (same b x).0 d.1, inl refl)
  Coalesced-Settled (kept l f o why e same) = Settled-same t t' r r' a b e same (elim o [
    | inl (da, db) ↦ (l, f, da, db, inr why)
    | inr (da, db) ↦ (
      f,
      l,
      da,
      db,
      inr (elim why [
        | inl h ↦ inr (inl h)
        | inr (inl h) ↦ inl h
        | inr (inr n) ↦ inr (inr (λ k. n (AllApart-sym (r f) (r l) k)))
      ]),
    )
  ])
