-- ===== src/SparseMap/Rebuild.antt =====
-- `rebuild_mapping` of `SparseMap` (src/entity/sparse.rs).
use regalloc.Base.{
  ℕ, zero, suc, ◌+◌, ◌%◌, ◌<◌, ◌≡◌, ◌≢◌, refl, sym, ap, ◌∙◌, some, List, [], ◌∷◌, length, get_elem?,
  get_or, set, length-set, get_or-set, store-ok, ok, Returns, Returns-bind, Returns-map, arith,
}
use mathlib.Core.Path.{subst}
use regalloc.LiveRange.{u32_mod}
use regalloc.SparseMap.{SparseMap, rebuild_loop, rebuild_mapping}
use regalloc.SparseMap.Lookup.{IsValid, pair-eq}

module _ {V : Type 0} where
  -- No key has two pairs, and each key has an index.
  abbrev pub NoKey : ℕ → List (ℕ × V) → Type 0
  NoKey k [] = Unit
  NoKey k ((j, v) ∷ rest) = (k ≢ j) × NoKey k rest

  abbrev pub KeysDiffer : ℕ → List (ℕ × V) → Type 0
  KeysDiffer n [] = Unit
  KeysDiffer n ((k, v) ∷ rest) = (k < n) × NoKey k rest × KeysDiffer n rest

  record Mapped (sparse : List ℕ) (i : ℕ) (dense : List (ℕ × V)) (sparse' : List ℕ) : Type 0 where
    size : length sparse' ≡ length sparse
    others : (k : ℕ) → NoKey k dense → get_or sparse' k 0 ≡ get_or sparse k 0
    placed : (j k : ℕ) (v : V) → get_elem? dense j ≡ some (k, v) → get_or sparse' k 0 ≡ i + j

  NoKey-get_elem? :
      (k j : ℕ) (v : V) (dense : List (ℕ × V)) (i : ℕ)
      → NoKey k dense
      → get_elem? dense i ≡ some (j, v)
      → k ≢ j
  NoKey-get_elem? k j v [] i h e = cc
  NoKey-get_elem? k j v ((j', v') ∷ dense) zero h e = λ q. h.0 (q ∙ sym (pair-eq e).0)
  NoKey-get_elem? k j v ((j', v') ∷ dense) (suc i) h e = NoKey-get_elem? k j v dense i h.1 e

  placed_first :
      (sparse : List ℕ) (k : ℕ) (v : V) (i : ℕ) (dense : List (ℕ × V)) (s' : List ℕ)
      → KeysDiffer (length sparse) ((k, v) ∷ dense)
      → Mapped (set sparse k i) (suc i) dense s'
      → (j c : ℕ) (u : V) → get_elem? ((k, v) ∷ dense) j ≡ some (c, u)
      → get_or s' c 0 ≡ i + j
  placed_first sparse k v i dense s' h w zero c u e =
      let same : k ≡ c = (pair-eq e).0 in
      ap (λ z. get_or s' z 0) (sym same)
      ∙ w.others k h.1
      ∙ get_or-set sparse k k i 0 h.0
      ∙ ground arith
  placed_first sparse k v i dense s' h w (suc j) c u e = omega (arith, w.placed j c u e)

  rebuild_loop-Mapped :
      (sparse : List ℕ) (i : ℕ) (dense : List (ℕ × V))
      → KeysDiffer (length sparse) dense
      → i + length dense < u32_mod
      → Returns (Mapped sparse i dense) (rebuild_loop sparse i dense)
  unfolding rebuild_loop
  rebuild_loop-Mapped sparse i [] h lt = record {
    size = refl;
    others = λ k n. refl;
    placed = λ j k v e. cc;
  }
  rebuild_loop-Mapped sparse i ((k, v) ∷ dense) h lt =
      let e : i % u32_mod ≡ i = omega arith in
      let s = set sparse k i in
      let size = length-set sparse k i in
      rw (e, store-ok sparse k i h.0)
        (Returns-map (Mapped s (suc i) dense) (Mapped sparse i ((k, v) ∷ dense))
          (rebuild_loop s (suc i) dense)
          (λ s' w. record {
            size = w.size ∙ size;
            others = λ c n. w.others c n.1 ∙ get_or-set sparse k c i 0 h.0 ∙ ground (arith, n.0);
            placed = placed_first sparse k v i dense s' h w;
          })
          (rebuild_loop-Mapped s (suc i) dense (rw (size) h.2) (omega arith)))

  KeysDiffer-inside :
      (n : ℕ) (dense : List (ℕ × V)) (j k : ℕ) (v : V)
      → KeysDiffer n dense
      → get_elem? dense j ≡ some (k, v)
      → k < n
  KeysDiffer-inside n [] j k v h e = cc
  KeysDiffer-inside n ((c, u) ∷ dense) zero k v h e = subst (λ z. z < n) (pair-eq e).0 h.0
  KeysDiffer-inside n ((c, u) ∷ dense) (suc j) k v h e = KeysDiffer-inside n dense j k v h.2 e

  -- On pairs with different keys in range, `rebuild_mapping` returns a valid map of the same pairs.
  pub rebuild_mapping-IsValid :
      (m : SparseMap V)
      → KeysDiffer (length m.sparse) m.dense
      → length m.dense < u32_mod
      → Returns
          (λ m'. IsValid m' × (m'.dense ≡ m.dense) × (length m'.sparse ≡ length m.sparse))
          (rebuild_mapping m)
  unfolding rebuild_mapping
  rebuild_mapping-IsValid m h lt =
      Returns-bind (Mapped m.sparse 0 m.dense)
        (λ m'. IsValid m' × (m'.dense ≡ m.dense) × (length m'.sparse ≡ length m.sparse))
        (rebuild_loop m.sparse 0 m.dense) (λ s. ok (record m { sparse = s }))
        (λ s w. (
          record {
            placed = λ j k v e. (
              rw (w.size) (KeysDiffer-inside (length m.sparse) m.dense j k v h e),
              w.placed j k v e ∙ omega arith,
            );
            small = lt;
          },
          refl,
          w.size,
        ))
        (rebuild_loop-Mapped m.sparse 0 m.dense h (omega arith))
