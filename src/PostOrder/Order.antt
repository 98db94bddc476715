-- ===== src/PostOrder/Order.antt =====
-- The order in which the traversal (src/debug_utils/postorder.rs) lists the blocks.
use regalloc.Base.{
  ℕ, zero, suc, ◌+◌, ◌<◌, ◌≡◌, ◌≢◌, ◌⊎◌, inl, inr, refl, sym, ap, ◌∙◌, List, [], ◌∷◌, ◌++◌, length,
  length-append, set, get_or, get_or-set, In, In-append_left, In-append-inv, arith,
}
use mathlib.Core.Path.{subst}
use regalloc.Function.{Function}
use regalloc.PostOrder.{Visit}
use regalloc.PostOrder.Pushes.{lasts, push_all, Pushed}
use regalloc.PostOrder.Invariant.{Marked, Inv}

-- There is a path from one block to another.
pub data ReachesFrom {Freq : Type 0} (func : Function Freq) (b : ℕ) : ℕ → Type 0 where
  stay : ReachesFrom func b b
  go : {c d : ℕ} → ReachesFrom func b c → In d (func.block_succs c) → ReachesFrom func b d

-- The blocks of the list are numbered in turn, from `k` on.
abbrev pub Numbered : List ℕ → ℕ → List ℕ → Type 0
Numbered po k [] = Unit
Numbered po k (b ∷ l) = (get_or po b 0 ≡ k) × Numbered po (suc k) l

Numbered-same :
    (po po' : List ℕ) (k : ℕ) (l : List ℕ)
    → ((b : ℕ) → In b l → get_or po' b 0 ≡ get_or po b 0)
    → Numbered po k l
    → Numbered po' k l
Numbered-same po po' k [] same h = tt
Numbered-same po po' k (b ∷ l) same h =
    (same b (inl refl) ∙ h.0, Numbered-same po po' (suc k) l (λ c i. same c (inr i)) h.1)

Numbered-append :
    (po : List ℕ) (k b : ℕ) (l : List ℕ)
    → Numbered po k l
    → get_or po b 0 ≡ k + length l
    → Numbered po k (l ++ b ∷ [])
Numbered-append po k b [] h e = (omega (arith, e), tt)
Numbered-append po k b (c ∷ l) h e = (h.0, Numbered-append po (suc k) b l h.1 (omega (arith, e)))

Numbered-below :
    (po : List ℕ) (k b : ℕ) (l : List ℕ) → Numbered po k l → In b l → get_or po b 0 < k + length l
Numbered-below po k b [] h i = elim i [ ]
Numbered-below po k b (c ∷ l) h (inl e) =
    let q : get_or po b 0 ≡ get_or po c 0 = ap (λ z. get_or po z 0) e in omega (arith, q, h.0)
Numbered-below po k b (c ∷ l) h (inr i) = omega (arith, Numbered-below po (suc k) b l h.1 i)

Marked-inside : (po : List ℕ) (b : ℕ) → Marked po b → b < length po
Marked-inside [] b m = absurd (m refl)
Marked-inside (x ∷ po) zero m = omega arith
Marked-inside (x ∷ po) (suc b) m = omega (arith, Marked-inside po b m)

module _ {Freq : Type 0} (func : Function Freq) where
  -- A successor that comes earlier in the list, or from which there is a path back.
  abbrev pub Earlier : List ℕ → List ℕ → ℕ → ℕ → Type 0
  Earlier l po b v = (In v l × (get_or po v 0 < get_or po b 0)) ⊎ ReachesFrom func v b

  -- The successors of a block that waits for its last visit are marked or above it on the stack, and
  -- there is a path from it to each block above. `ups` are the blocks above.
  abbrev pub Stacked : List ℕ → List ℕ → List (Visit × ℕ) → Type 0
  Stacked po ups [] = Unit
  Stacked po ups ((Visit.first, c) ∷ rest) = Stacked po (c ∷ ups) rest
  Stacked po ups ((Visit.last, u) ∷ rest) =
      ((v : ℕ) → In v (func.block_succs u) → Marked po v ⊎ In v ups)
      × ((x : ℕ) → In x ups → ReachesFrom func u x)
      × Stacked po (u ∷ ups) rest

  Stacked-change :
      (po po' : List ℕ) (stack : List (Visit × ℕ)) (ups ups' : List ℕ)
      → ((v : ℕ) → Marked po v → Marked po' v)
      → ((v : ℕ) → In v ups → Marked po' v ⊎ In v ups')
      → ((u : ℕ)
          → ((x : ℕ) → In x ups → ReachesFrom func u x)
          → (x : ℕ) → In x ups'
          → ReachesFrom func u x)
      → Stacked po ups stack
      → Stacked po' ups' stack
  Stacked-change po po' [] ups ups' keep left paths h = tt
  Stacked-change po po' ((Visit.first, c) ∷ rest) ups ups' keep left paths h =
      Stacked-change po po' rest (c ∷ ups) (c ∷ ups') keep
        (λ v i. elim i [
          | inl e ↦ inr (inl e)
          | inr i' ↦ elim (left v i') [ inl m ↦ inl m | inr k ↦ inr (inr k) ]
        ])
        (λ u f x i. elim i [ inl e ↦ f x (inl e) | inr i' ↦ paths u (λ y j. f y (inr j)) x i' ]) h
  Stacked-change po po' ((Visit.last, w) ∷ rest) ups ups' keep left paths h = (
    λ v i. elim (h.0 v i) [ inl m ↦ inl (keep v m) | inr k ↦ left v k ],
    paths w h.1,
    Stacked-change po po' rest (w ∷ ups) (w ∷ ups') keep
        (λ v i. elim i [
          | inl e ↦ inr (inl e)
          | inr i' ↦ elim (left v i') [ inl m ↦ inl m | inr k ↦ inr (inr k) ]
        ])
        (λ u f x i. elim i [ inl e ↦ f x (inl e) | inr i' ↦ paths u (λ y j. f y (inr j)) x i' ])
        h.2,
  )

  Stacked-push_all :
      (po cs : List ℕ) (stack : List (Visit × ℕ))
      → Stacked po cs stack
      → Stacked po [] (push_all cs stack)
  Stacked-push_all po [] stack h = h
  Stacked-push_all po (c ∷ cs) stack h = Stacked-push_all po cs ((Visit.first, c) ∷ stack) h

  -- A block that waits for its last visit has a path to each block above.
  Stacked-path :
      (po ups : List ℕ) (stack : List (Visit × ℕ)) (v x : ℕ)
      → Stacked po ups stack
      → In v (lasts stack)
      → In x ups
      → ReachesFrom func v x
  Stacked-path po ups [] v x h i j = elim i [ ]
  Stacked-path po ups ((Visit.first, c) ∷ rest) v x h i j =
      Stacked-path po (c ∷ ups) rest v x h i (inr j)
  Stacked-path po ups ((Visit.last, w) ∷ rest) v x h (inl e) j =
      subst (λ z. ReachesFrom func z x) (sym e) (h.1 x j)
  Stacked-path po ups ((Visit.last, w) ∷ rest) v x h (inr i) j =
      Stacked-path po (w ∷ ups) rest v x h.2 i (inr j)

  -- What every round keeps of the order.
  pub record InOrder (stack : List (Visit × ℕ)) (l po : List ℕ) : Type 0 where
    pub numbered : Numbered po 3 l
    pub earlier : (b v : ℕ) → In b l → In v (func.block_succs b) → Earlier l po b v
    pub stacked : Stacked po [] stack

  abbrev InvAt : List (Visit × ℕ) → List ℕ → List ℕ → Type 0
  InvAt stack l po = Inv func (record { stack = stack; postorder = l; po_number = po })

  pub InOrder-skip :
      (b : ℕ) (rest : List (Visit × ℕ)) (l po : List ℕ)
      → Marked po b
      → InOrder ((Visit.first, b) ∷ rest) l po
      → InOrder rest l po
  InOrder-skip b rest l po m o = record {
    numbered = o.numbered;
    earlier = o.earlier;
    stacked =
        Stacked-change po po rest (b ∷ []) [] (λ v k. k)
          (λ v i. elim i [ inl e ↦ inl (subst (Marked po) (sym e) m) | inr k ↦ elim k [ ] ])
          (λ u f x i. elim i [ ]) o.stacked;
  }

  -- The numbers of the listed blocks stay where another block's is set.
  unlisted-set :
      (l po : List ℕ) (b number c : ℕ)
      → b < length po
      → (¬ In b l)
      → In c l
      → get_or (set po b number) c 0 ≡ get_or po c 0
  unlisted-set l po b number c lt out i =
      let ne : b ≢ c = λ e. out (subst (λ z. In z l) (sym e) i) in
      ground (arith, get_or-set po b c number 0 lt, ne)

  Marked-set_of :
      (po : List ℕ) (b number c : ℕ)
      → b < length po
      → number ≢ 0
      → (c ≡ b) ⊎ Marked po c
      → Marked (set po b number) c
  Marked-set_of po b number c lt ne (inl e) k = ground (arith, get_or-set po b c number 0, e, k, ne)
  Marked-set_of po b number c lt ne (inr m) k = ground (arith, get_or-set po b c number 0, m, k, ne)

  pub InOrder-first :
      (b : ℕ) (rest stack' : List (Visit × ℕ)) (l po : List ℕ)
      → get_or po b 0 ≡ 0
      → InvAt ((Visit.first, b) ∷ rest) l po
      → InOrder ((Visit.first, b) ∷ rest) l po
      → Pushed (set po b 1) (func.block_succs b) ((Visit.last, b) ∷ rest) stack'
      → InOrder stack' l (set po b 1)
  InOrder-first b rest stack' l po new w o p =
      let room : b < length po = rw (w.size) ((w.ahead b (inl refl)).1) in
      let out : ¬ In b l = λ i. (w.listed b i).1 new in
      let same : (c : ℕ) → In c l → get_or (set po b 1) c 0 ≡ get_or po c 0 =
        λ c i. unlisted-set l po b 1 c room out i in
      let one : 1 ≢ 0 = λ k. absurd (omega (arith, k)) in
      record {
        numbered = Numbered-same po (set po b 1) 3 l same o.numbered;
        earlier = λ c v i h. elim (o.earlier c v i h) [
          | inl (j, lt) ↦ inl (j, rw (same v j, same c i) lt)
          | inr path ↦ inr path
        ];
        stacked = subst (Stacked (set po b 1) []) (sym p.pushed) (
            Stacked-push_all (set po b 1) p.news ((Visit.last, b) ∷ rest) (
              p.done,
              λ x i. ReachesFrom.go ReachesFrom.stay (p.fresh x i),
              Stacked-change po (set po b 1) rest (b ∷ []) (b ∷ p.news)
                  (λ v m. Marked-set_of po b 1 v room one (inr m))
                  (λ v i. elim i [ inl e ↦ inr (inl e) | inr k ↦ elim k [ ] ])
                  (λ u f x i. elim i [
                    | inl e ↦ f x (inl e)
                    | inr i' ↦ ReachesFrom.go (f b (inl refl)) (p.fresh x i')
                  ])
                  o.stacked,
            ));
      }

  pub InOrder-last :
      (b : ℕ) (rest : List (Visit × ℕ)) (l po : List ℕ)
      → InvAt ((Visit.last, b) ∷ rest) l po
      → InOrder ((Visit.last, b) ∷ rest) l po
      → InOrder rest (l ++ b ∷ []) (set po b (2 + length (l ++ b ∷ [])))
  InOrder-last b rest l po w o =
      let (lt, m, out) = w.pending b (inl refl) in
      let room : b < length po = rw (w.size) lt in
      let number = 2 + length (l ++ b ∷ []) in
      let po' = set po b number in
      let long : length (l ++ b ∷ []) ≡ length l + 1 = length-append l (b ∷ []) in
      let here : get_or po' b 0 ≡ 3 + length l = ground (arith, get_or-set po b b number 0, long) in
      let same : (c : ℕ) → In c l → get_or po' c 0 ≡ get_or po c 0 =
        λ c i. unlisted-set l po b number c room out i in
      let old = Numbered-same po po' 3 l same o.numbered in
      let ne : number ≢ 0 = λ k. absurd (omega (arith, k)) in
      let mine : (v : ℕ) → In v (func.block_succs b) → Earlier (l ++ b ∷ []) po' b v = λ v h.
        let marked : Marked po v = elim (o.stacked.0 v h) [ inl k ↦ k | inr k ↦ elim k [ ] ] in
        elim (w.placed v (rw (w.size) at (Marked-inside po v marked)) marked) [
          | inl i ↦ inl (In-append_left v l (b ∷ []) i, rw (here) (Numbered-below po' 3 v l old i))
          | inr i ↦ elim i [
            | inl e ↦ inr (subst (λ z. ReachesFrom func z b) (sym e) ReachesFrom.stay)
            | inr i' ↦ inr (Stacked-path po (b ∷ []) rest v b o.stacked.2 i' (inl refl))
          ]
        ] in
      record {
        numbered = Numbered-append po' 3 b l old here;
        earlier = λ c v i h. elim (In-append-inv c b l i) [
          | inl i' ↦ elim (o.earlier c v i' h) [
            | inl (j, less) ↦ inl (In-append_left v l (b ∷ []) j, rw (same v j, same c i') less)
            | inr path ↦ inr path
          ]
          | inr e ↦
              subst (λ z. Earlier (l ++ b ∷ []) po' z v) (sym e)
                (mine v (subst (λ z. In v (func.block_succs z)) e h))
        ];
        stacked =
            Stacked-change po po' rest (b ∷ []) []
              (λ v k. Marked-set_of po b number v room ne (inr k))
              (λ v i. elim i [
                | inl e ↦ inl (Marked-set_of po b number v room ne (inl e))
                | inr k ↦ elim k [ ]
              ])
              (λ u f x i. elim i [ ]) o.stacked.2;
      }
