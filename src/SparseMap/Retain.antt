-- ===== src/SparseMap/Retain.antt =====
-- `retain` of `SparseMap` (src/entity/sparse.rs).
use regalloc.Base.{
  ℕ, zero, suc, ◌+◌, ◌<◌, ◌≤◌, ◌≡◌, ◌≢◌, inl, inr, refl, sym, ap, ◌∙◌, ◌==◌, Bool, Bool-cases,
  if◌then◌else◌, Option, none, some, List, [], ◌∷◌, length, get_elem?, get_or, Returns, Returns-map,
  arith, ℕ_discrete,
}
use mathlib.Core.Path.{subst}
use regalloc.SparseMap.{SparseMap, value_at, rebuild_mapping, retain_pairs, retain}
use regalloc.SparseMap.Lookup.{IsValid, index_of, lookup, pair-eq}
use regalloc.SparseMap.Rebuild.{NoKey, KeysDiffer, rebuild_mapping-IsValid}

module _ {V : Type 0} where
  -- Each pair stands at the index of its key, less `i`.
  abbrev AreAt : List ℕ → ℕ → List (ℕ × V) → Type 0
  AreAt sparse i dense =
      (j k : ℕ) (v : V)
      → get_elem? dense j ≡ some (k, v)
      → (k < length sparse) × (get_or sparse k 0 ≡ i + j)

  AreAt-rest :
      (sparse : List ℕ) (i : ℕ) (p : ℕ × V) (dense : List (ℕ × V))
      → AreAt sparse i (p ∷ dense)
      → AreAt sparse (suc i) dense
  AreAt-rest sparse i p dense h j k v e = let (lt, k') = h (suc j) k v e in (lt, omega arith)

  AreAt-NoKey :
      (sparse : List ℕ) (i k : ℕ) (dense : List (ℕ × V))
      → get_or sparse k 0 < i
      → AreAt sparse i dense
      → NoKey k dense
  AreAt-NoKey sparse i k [] lt h = tt
  AreAt-NoKey sparse i k ((c, v) ∷ dense) lt h = (
    λ e.
        let at = (h 0 c v refl).1 in
        let same = ap (λ z. get_or sparse z 0) e in absurd (omega arith),
    AreAt-NoKey sparse (suc i) k dense (omega arith) (AreAt-rest sparse i (c, v) dense h),
  )

  AreAt-KeysDiffer :
      (sparse : List ℕ) (i : ℕ) (dense : List (ℕ × V))
      → AreAt sparse i dense
      → KeysDiffer (length sparse) dense
  AreAt-KeysDiffer sparse i [] h = tt
  AreAt-KeysDiffer sparse i ((k, v) ∷ dense) h =
      let (lt, at) = h 0 k v refl in
      let rest = AreAt-rest sparse i (k, v) dense h in
      (
        lt,
        AreAt-NoKey sparse (suc i) k dense (omega arith) rest,
        AreAt-KeysDiffer sparse (suc i) dense rest,
      )

  -- The value of a key in a list of pairs.
  abbrev find_key : ℕ → List (ℕ × V) → Option V
  find_key k [] = none
  find_key k ((c, v) ∷ dense) = if c == k then some v else find_key k dense

  find_key-NoKey : (k : ℕ) (dense : List (ℕ × V)) → NoKey k dense → find_key k dense ≡ none
  find_key-NoKey k [] h = refl
  find_key-NoKey k ((c, v) ∷ dense) h = ground (arith, h.0, find_key-NoKey k dense h.1)

  AreAt-passed :
      (sparse : List ℕ) (i k : ℕ) (dense : List (ℕ × V))
      → get_or sparse k 0 < i
      → AreAt sparse i dense
      → find_key k dense ≡ none
  AreAt-passed sparse i k dense lt h = find_key-NoKey k dense (AreAt-NoKey sparse i k dense lt h)

  find_key-at :
      (sparse : List ℕ) (i k at : ℕ) (dense : List (ℕ × V))
      → AreAt sparse i dense
      → get_or sparse k 0 ≡ i + at
      → find_key k dense ≡ value_at k (get_elem? dense at)
  unfolding value_at
  find_key-at sparse i k at [] h e = refl
  find_key-at sparse i k zero ((c, v) ∷ dense) h e =
      let rest =
        AreAt-passed sparse (suc i) k dense (omega arith) (AreAt-rest sparse i (c, v) dense h) in
      ground (arith, rest)
  find_key-at sparse i k (suc at) ((c, v) ∷ dense) h e =
      let rest =
        find_key-at sparse (suc i) k at dense (AreAt-rest sparse i (c, v) dense h) (omega arith) in
      let ne : c ≢ k = λ q.
        let p = (h 0 c v refl).1 in
        let q' = ap (λ z. get_or sparse z 0) q in absurd (omega arith) in
      ground (arith, rest, ne)

  IsValid-lookup : (m : SparseMap V) (k : ℕ) → IsValid m → lookup m k ≡ find_key k m.dense
  IsValid-lookup m k w = sym (
      find_key-at m.sparse 0 k (index_of m k) m.dense
        (λ j c v e. let (lt, p) = w.placed j c v e in (lt, omega arith)) (omega arith))

  -- What is left of a value.
  abbrev pub kept : (ℕ → V → Bool × V) → ℕ → Option V → Option V
  kept keep k none = none
  kept keep k (some v) = if (keep k v).0 then some ((keep k v).1) else none

  module _ (keep : ℕ → V → Bool × V) where
    retain-NoKey :
        (k : ℕ) (dense : List (ℕ × V)) → NoKey k dense → NoKey k (retain_pairs keep dense)
    unfolding retain_pairs
    retain-NoKey k [] h = tt
    retain-NoKey k ((c, v) ∷ dense) h = elim (Bool-cases (keep c v).0) [
      | inl e ↦ rw (e) (h.0, retain-NoKey k dense h.1)
      | inr e ↦ rw (e) (retain-NoKey k dense h.1)
    ]

    retain-KeysDiffer :
        (n : ℕ) (dense : List (ℕ × V)) → KeysDiffer n dense → KeysDiffer n (retain_pairs keep dense)
    unfolding retain_pairs
    retain-KeysDiffer n [] h = tt
    retain-KeysDiffer n ((c, v) ∷ dense) h = elim (Bool-cases (keep c v).0) [
      | inl e ↦ rw (e) (h.0, retain-NoKey c dense h.1, retain-KeysDiffer n dense h.2)
      | inr e ↦ rw (e) (retain-KeysDiffer n dense h.2)
    ]

    length-retain_pairs : (dense : List (ℕ × V)) → length (retain_pairs keep dense) ≤ length dense
    unfolding retain_pairs
    length-retain_pairs [] = omega arith
    length-retain_pairs ((c, v) ∷ dense) = ground (arith, length-retain_pairs dense)

    find_key-retain :
        (n k : ℕ) (dense : List (ℕ × V))
        → KeysDiffer n dense
        → find_key k (retain_pairs keep dense) ≡ kept keep k (find_key k dense)
    unfolding retain_pairs
    find_key-retain n k [] h = refl
    find_key-retain n k ((c, v) ∷ dense) h = elim (ℕ_discrete c k) [
      | yes e ↦
          let out = find_key-NoKey c (retain_pairs keep dense) (retain-NoKey c dense h.1) in
          subst
            (λ z.
              find_key z (retain_pairs keep ((c, v) ∷ dense))
              ≡ kept keep z (find_key z ((c, v) ∷ dense)))
            e
            (elim (Bool-cases (keep c v).0) [
              | inl p ↦ ground (arith, p)
              | inr p ↦ ground (arith, p, out)
            ])
      | no ne ↦
          let rest = find_key-retain n k dense h.2 in
          elim (Bool-cases (keep c v).0) [
            | inl p ↦ ground (arith, p, ne, rest)
            | inr p ↦ ground (arith, p, ne, rest)
          ]
    ]

    -- Where nothing is dropped, the keys stay where they were.
    same_keys :
        (dense : List (ℕ × V))
        → length (retain_pairs keep dense) ≡ length dense
        → (j k : ℕ) (v' : V) → get_elem? (retain_pairs keep dense) j ≡ some (k, v')
        → (v : V) × (get_elem? dense j ≡ some (k, v))
    unfolding retain_pairs
    same_keys [] e j k v' h = cc
    same_keys ((c, v) ∷ dense) e zero k v' h = elim (Bool-cases (keep c v).0) [
      | inl p ↦ (v, ap (λ z. some (z, v)) (pair-eq (rw p at h)).0)
      | inr p ↦ absurd (omega (arith, length-retain_pairs dense, rw p at e))
    ]
    same_keys ((c, v) ∷ dense) e (suc j) k v' h = elim (Bool-cases (keep c v).0) [
      | inl p ↦
          let size : suc (length (retain_pairs keep dense)) ≡ suc (length dense) = rw p at e in
          same_keys dense (omega arith) j k v' (rw p at h)
      | inr p ↦ absurd (omega (arith, length-retain_pairs dense, rw p at e))
    ]

  -- A map after `retain`.
  pub record Retained (keep : ℕ → V → Bool × V) (m m' : SparseMap V) : Type 0 where
    pub valid : IsValid m'
    pub size : length m'.sparse ≡ length m.sparse
    pub order : m'.dense ≡ retain_pairs keep m.dense
    pub values : (k : ℕ) → lookup m' k ≡ kept keep k (lookup m k)

  retain_values :
      (keep : ℕ → V → Bool × V) (m m' : SparseMap V)
      → IsValid m
      → IsValid m'
      → m'.dense ≡ retain_pairs keep m.dense
      → (k : ℕ) → lookup m' k ≡ kept keep k (lookup m k)
  retain_values keep m m' w w' e k =
      IsValid-lookup m' k w'
      ∙ ap (find_key k) e
      ∙ find_key-retain keep (length m.sparse) k m.dense (
          AreAt-KeysDiffer m.sparse 0 m.dense
            (λ j c v h. let (lt, p) = w.placed j c v h in (lt, omega arith)))
      ∙ ap (kept keep k) (sym (IsValid-lookup m k w))

  -- On a valid map `retain` returns and leaves the map valid, with its index array as long as before. The
  -- pairs that the closure keeps stay in their order, with their new values, and every key has what the
  -- closure left of its value.
  pub retain-Retained :
      (keep : ℕ → V → Bool × V) (m : SparseMap V)
      → IsValid m
      → Returns (Retained keep m) (retain keep m)
  unfolding retain
  retain-Retained keep m w =
      let dense = retain_pairs keep m.dense in
      let m' : SparseMap V = record m { dense = dense } in
      let shorter = length-retain_pairs keep m.dense in
      elim (Bool-cases (length m.dense == length dense)) [
        | inl e ↦
            let valid : IsValid m' = record {
              placed = λ j k v h.
                  let (u, at) = same_keys keep m.dense (ground (arith, e)) j k v h in
                  w.placed j k u at;
              small = omega (arith, w.small, shorter);
            } in
            rw (e) (record {
              valid = valid;
              size = refl;
              order = refl;
              values = retain_values keep m m' w valid refl;
            })
        | inr e ↦
            let differ =
              AreAt-KeysDiffer m.sparse 0 m.dense
                (λ j c v h. let (lt, p) = w.placed j c v h in (lt, omega arith)) in
            rw (e) (
              Returns-map (λ r. IsValid r × (r.dense ≡ dense) × (length r.sparse ≡ length m.sparse))
                (Retained keep m) (rebuild_mapping m')
                (λ r (valid, same, size). record {
                  valid = valid;
                  size = size;
                  order = same;
                  values = retain_values keep m r w valid same;
                })
                (rebuild_mapping-IsValid m'
                  (retain-KeysDiffer keep (length m.sparse) m.dense differ)
                  (omega (arith, w.small, shorter))))
      ]
