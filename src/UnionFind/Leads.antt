-- ===== src/UnionFind/Leads.antt =====
-- The abstract view of the union-find table (src/union_find.rs): which key leads which set.
use mathlib.Core.Path.{subst}
use regalloc.Base.{
  ℕ, ℕ_discrete, ◌<◌, ◌≡◌, ◌≢◌, ◌⊎◌, ◌↔◌, sym, ◌∙◌, ap, List, length, get_or, arith, ◌==◌,
  if◌then◌else◌,
}
use regalloc.UnionFind.{UnionFindEntry}

-- Read past the end of a table: no theorem depends on it.
abbrev pub vacant : UnionFindEntry
vacant = record { parent = 0; rank = 0 }

abbrev pub parent : List UnionFindEntry → ℕ → ℕ
parent t k = (get_or t k vacant).parent

abbrev pub rank : List UnionFindEntry → ℕ → ℕ
rank t k = (get_or t k vacant).rank

-- Following parents from `k` ends at the root `r`.
pub data Leads (par : ℕ → ℕ) : ℕ → ℕ → Type 0 where
  stop : {k r : ℕ} → k ≡ r → par r ≡ r → Leads par k r
  up : {k r : ℕ} → Leads par (par k) r → Leads par k r

-- Every parent is a key of the table, and ranks grow strictly on the way to a root.
pub record IsValid (t : List UnionFindEntry) : Type 0 where
  pub inside : (k : ℕ) → k < length t → parent t k < length t
  pub climbs : (k : ℕ) → k < length t → parent t k ≢ k → rank t k < rank t (parent t k)

pub Leads-root : {par : ℕ → ℕ} {k r : ℕ} → Leads par k r → par r ≡ r
Leads-root (stop e h) = h
Leads-root (up d) = Leads-root d

-- From a root nothing else is reached.
pub Leads-self : {par : ℕ → ℕ} {k r : ℕ} → Leads par k r → par k ≡ k → k ≡ r
Leads-self (stop e h) fix = e
Leads-self {par} {k} {r} (up d) fix = sym fix ∙ Leads-self d (ap par fix)

-- A key has one leader.
pub Leads-unique : {par : ℕ → ℕ} {k r s : ℕ} → Leads par k r → Leads par k s → r ≡ s
Leads-unique {par} {k} {r} {s} (stop e h) d = sym e ∙ Leads-self d (ap par e ∙ h ∙ sym e)
Leads-unique {par} {k} {r} {s} (up d) (stop e h) =
    sym (Leads-self d (ap par (ap par e ∙ h ∙ sym e))) ∙ ap par e ∙ h
Leads-unique (up d) (up d') = Leads-unique d d'

-- Two parent functions lead every key alike: the sets and their leaders are the same.
abbrev pub SameLeaders : (ℕ → ℕ) → (ℕ → ℕ) → Type 0
SameLeaders par par' = (j r : ℕ) → Leads par j r ↔ Leads par' j r

-- Path halving at `k`, where ranks exclude a cycle through `k`.
module _ (par par' : ℕ → ℕ) (k : ℕ)
    (halved : (j : ℕ) → par' j ≡ (if k == j then par (par k) else par j)) where
  pub halved_fwd : {j r : ℕ} → Leads par j r → Leads par' j r
  halved_fwd {j} {r} (stop e h) = stop e (ground (arith, halved r))
  halved_fwd {j} {r} (up (stop e h)) =
      up (stop (ground (arith, halved j)) (ground (arith, halved r)))
  halved_fwd {j} {r} (up (up d)) = elim (ℕ_discrete k j) [
    | yes e ↦
        let jump : par' j ≡ par (par j) = ground (arith, halved j) in
        up (subst (λ x. Leads par' x r) (sym jump) (halved_fwd d))
    | no n ↦
        let same : par' j ≡ par j = ground (arith, halved j) in
        up (subst (λ x. Leads par' x r) (sym same) (halved_fwd (up d)))
  ]

  pub halved_back : (par (par k) ≢ k) ⊎ (par k ≡ k) → {j r : ℕ} → Leads par' j r → Leads par j r
  halved_back acyclic {j} {r} (stop e h) = stop e (ground (arith, halved r))
  halved_back acyclic {j} {r} (up d) = elim (ℕ_discrete k j) [
    | yes e ↦
        let jump : par' j ≡ par (par j) = ground (arith, halved j) in
        up (up (subst (λ x. Leads par x r) jump (halved_back acyclic d)))
    | no n ↦
        let same : par' j ≡ par j = ground (arith, halved j) in
        up (subst (λ x. Leads par x r) same (halved_back acyclic d))
  ]

-- A root `f` is hung below another root `l`: the keys of its set go over to `l`, and the others stay.
module _ (par par' : ℕ → ℕ) (f l : ℕ)
    (hung : (j : ℕ) → par' j ≡ (if f == j then l else par j)) where
  abbrev pub moved : ℕ → ℕ
  moved r = if f == r then l else r

  pub hung-Leads :
      par f ≡ f → par l ≡ l → l ≢ f → {j r : ℕ} → Leads par j r → Leads par' j (moved r)
  hung-Leads hf hl n {j} {r} (stop e h) = elim (ℕ_discrete f r) [
    | yes q ↦
        let root : par' l ≡ l = ground (arith, hung l) in
        let to : moved r ≡ l = ground arith in
        let step : par' j ≡ l = ground (arith, hung j) in rw to (up (stop step root))
    | no q ↦ let same : moved r ≡ r = ground arith in rw same (stop e (ground (arith, hung r)))
  ]
  hung-Leads hf hl n {j} {r} (up d) = elim (ℕ_discrete f j) [
    | yes q ↦
        let here : par j ≡ j = rw (← q) hf in
        let to : moved r ≡ l = ground (arith, here, Leads-self d (ap par here)) in
        let root : par' l ≡ l = ground (arith, hung l) in
        rw to (up (stop (ground (arith, hung j)) root))
    | no q ↦
        let same : par' j ≡ par j = ground (arith, hung j) in
        up (subst (λ x. Leads par' x (moved r)) (sym same) (hung-Leads hf hl n d))
  ]

-- A leader of a key of the table is in the table.
pub Leads-inside :
    {t : List UnionFindEntry} {j x : ℕ}
    → IsValid t
    → j < length t
    → Leads (parent t) j x
    → x < length t
Leads-inside {t} v h (stop e k) = subst (λ z. z < length t) e h
Leads-inside {t} {j} {x} v h (up d) = Leads-inside v (v.inside j h) d
