-- ===== src/SparseMap/Change.antt =====
-- `insert` of `SparseMap` (src/entity/sparse.rs) as a change of the map that `get` reads.
use regalloc.Base.{
  ℕ, suc, ◌%◌, ◌<◌, ◌≡◌, ◌≢◌, refl, sym, ap, ◌∙◌, ◌==◌, if◌then◌else◌, ok, load-ok, store-ok,
  Option, none, some, [], ◌∷◌, ◌++◌, length, get_elem?, set, length-set, length-append, get_or-set,
  get_elem?-none, Returns, arith, ℕ_discrete,
}
use mathlib.Core.Path.{subst}
use regalloc.LiveRange.{u32_mod}
use regalloc.SparseMap.{SparseMap, value_at, get, insert}
use regalloc.SparseMap.Lookup.{
  get_elem?-append_last, get_elem?-set, get_elem?-some, index_of, IsValid, pair-eq, lookup,
  get-lookup, value_at-hit, value_at-miss, value_at-inv, placed-lookup,
}

-- `m'` is `m` with the value `o` at the key `k`, or without one.
pub record Updated {V : Type 0} (m m' : SparseMap V) (k : ℕ) (o : Option V) : Type 0 where
  pub valid : IsValid m'
  pub range : length m'.sparse ≡ length m.sparse
  pub at_key : lookup m' k ≡ o
  pub elsewhere : (j : ℕ) → j ≢ k → lookup m' j ≡ lookup m j

-- The map that `insert_unique` leaves.
abbrev pushed : {V : Type 0} → SparseMap V → ℕ → V → SparseMap V
pushed m k v = record {
  sparse = set m.sparse k (length m.dense % u32_mod);
  dense = m.dense ++ (k, v) ∷ [];
}

-- The map that the write through `get_mut` leaves.
abbrev replaced : {V : Type 0} → SparseMap V → ℕ → V → SparseMap V
replaced m k v = record m { dense = set m.dense (index_of m k) (k, v) }

abbrev IsSome : {V : Type 0} → Option V → Type 0
IsSome none = ⊥
IsSome (some v) = Unit

module _ {V : Type 0} (m : SparseMap V) (k : ℕ) (v : V) (w : IsValid m)
    (h : k < length m.sparse) where
  index-pushed :
      (j : ℕ) → index_of (pushed m k v) j ≡ (if k == j then length m.dense else index_of m j)
  index-pushed j = ground (arith, get_or-set m.sparse k j (length m.dense % u32_mod) 0 h, w.small)

  -- A key without a value: the pair goes to the end.
  module _ (new_key : lookup m k ≡ none) (room : suc (length m.dense) < u32_mod) where
    pushed-placed :
        (i j : ℕ) (x : V)
        → get_elem? (pushed m k v).dense i ≡ some (j, x)
        → (j < length (pushed m k v).sparse) × (index_of (pushed m k v) j ≡ i)
    pushed-placed i j x e = elim (ℕ_discrete i (length m.dense)) [
      | yes p ↦
          let both : ◌≡◌ {A = Option (ℕ × V)} (some (k, v)) (some (j, x)) =
            ground (arith, e, get_elem?-append_last m.dense (k, v) i) in
          let q = (pair-eq both).0 in
          (rw (length-set) (omega (arith, h, q)), ground (arith, index-pushed j, q, p))
      | no n ↦
          let old : get_elem? m.dense i ≡ some (j, x) =
            ground (arith, e, get_elem?-append_last m.dense (k, v) i) in
          let at_ = w.placed i j x old in
          (
            rw (length-set) at_.0,
            elim (ℕ_discrete k j) [
              | yes q ↦ absurd (
                  subst (λ o. IsSome o)
                    (sym (placed-lookup m i j x w old) ∙ ap (λ z. lookup m z) (sym q) ∙ new_key) tt)
              | no q ↦ ground (arith, index-pushed j, at_.1)
            ],
          )
    ]

    pushed-Updated : Updated m (pushed m k v) k (some v)
    unfolding value_at
    pushed-Updated = record {
      valid = record {
        placed = pushed-placed;
        small = omega (arith, room, length-append m.dense ((k, v) ∷ []));
      };
      range = length-set m.sparse k (length m.dense % u32_mod);
      at_key =
          let e : index_of (pushed m k v) k ≡ length m.dense = ground (arith, index-pushed k) in
          let f : get_elem? (m.dense ++ (k, v) ∷ []) (length m.dense) ≡ some (k, v) =
            ground (arith, get_elem?-append_last m.dense (k, v) (length m.dense)) in
          rw (e, f) (value_at-hit k v);
      elsewhere = λ j n.
          let e : index_of (pushed m k v) j ≡ index_of m j = ground (arith, index-pushed j) in
          elim (ℕ_discrete (index_of m j) (length m.dense)) [
            | yes p ↦
                let f : get_elem? (m.dense ++ (k, v) ∷ []) (index_of m j) ≡ some (k, v) =
                  ground (arith, get_elem?-append_last m.dense (k, v) (index_of m j)) in
                let g : get_elem? m.dense (index_of m j) ≡ none =
                  get_elem?-none m.dense (index_of m j) (omega arith) in
                rw (e, f, g) (value_at-miss k j v (λ q. n (sym q)))
            | no p ↦
                let f : get_elem? (m.dense ++ (k, v) ∷ []) (index_of m j)
                    ≡ get_elem? m.dense (index_of m j) =
                  ground (arith, get_elem?-append_last m.dense (k, v) (index_of m j)) in
                rw (e, f) refl
          ];
    }

  -- A key with a value: its pair is overwritten in its place.
  module _ (old : V) (old_key : lookup m k ≡ some old) where
    here : get_elem? m.dense (index_of m k) ≡ some (k, old)
    here = value_at-inv k (get_elem? m.dense (index_of m k)) old old_key

    inside : index_of m k < length m.dense
    inside = get_elem?-some m.dense (index_of m k) (k, old) here

    replaced-placed :
        (i j : ℕ) (x : V)
        → get_elem? (replaced m k v).dense i ≡ some (j, x)
        → (j < length m.sparse) × (index_of m j ≡ i)
    replaced-placed i j x e = elim (ℕ_discrete (index_of m k) i) [
      | yes p ↦
          let both : ◌≡◌ {A = Option (ℕ × V)} (some (k, v)) (some (j, x)) =
            ground (arith, e, get_elem?-set m.dense (index_of m k) i (k, v) inside) in
          let q = (pair-eq both).0 in (omega (arith, h, q), ap (λ z. index_of m z) (sym q) ∙ p)
      | no n ↦
          let kept : get_elem? m.dense i ≡ some (j, x) =
            ground (arith, e, get_elem?-set m.dense (index_of m k) i (k, v) inside) in
          w.placed i j x kept
    ]

    replaced-Updated : Updated m (replaced m k v) k (some v)
    unfolding value_at
    replaced-Updated = record {
      valid = record { placed = replaced-placed; small = rw (length-set) w.small };
      range = refl;
      at_key =
          let f : get_elem? (set m.dense (index_of m k) (k, v)) (index_of m k) ≡ some (k, v) =
            ground (arith, get_elem?-set m.dense (index_of m k) (index_of m k) (k, v) inside) in
          rw (f) (value_at-hit k v);
      elsewhere = λ j n. elim (ℕ_discrete (index_of m k) (index_of m j)) [
        | yes p ↦
            let f : get_elem? (set m.dense (index_of m k) (k, v)) (index_of m j) ≡ some (k, v) =
              ground (arith, get_elem?-set m.dense (index_of m k) (index_of m j) (k, v) inside) in
            let g : get_elem? m.dense (index_of m j) ≡ some (k, old) =
              ap (get_elem? m.dense) (sym p) ∙ here in
            rw (f, g)
              (value_at-miss k j v (λ q. n (sym q)) ∙ sym (value_at-miss k j old (λ q. n (sym q))))
        | no p ↦
            let f : get_elem? (set m.dense (index_of m k) (k, v)) (index_of m j)
                ≡ get_elem? m.dense (index_of m j) =
              ground (arith, get_elem?-set m.dense (index_of m k) (index_of m j) (k, v) inside) in
            rw (f) refl
      ];
    }

    insert-replaces : insert m k v ≡ ok (some old, replaced m k v)
    unfolding insert
    insert-replaces =
        rw (load-ok m.sparse k 0 h) (ground (arith, here, value_at-hit k old, old_key))

  insert-pushes : lookup m k ≡ none → insert m k v ≡ ok (none, pushed m k v)
  unfolding insert
  insert-pushes e =
      rw (load-ok m.sparse k 0 h)
        (ground (arith, e, store-ok m.sparse k (length m.dense % u32_mod) h))

insert_by :
    {V : Type 0} (m : SparseMap V) (k : ℕ) (v : V)
    → IsValid m
    → k < length m.sparse
    → suc (length m.dense) < u32_mod
    → (o : Option V) → lookup m k ≡ o
    → Returns (λ (old, m'). (get m k ≡ ok old) × Updated m m' k (some v)) (insert m k v)
insert_by m k v w h room none e =
    rw (insert-pushes m k v w h e) (get-lookup m k h ∙ ap ok e, pushed-Updated m k v w h e room)
insert_by m k v w h room (some old) e =
    rw (insert-replaces m k v w h old e)
      (get-lookup m k h ∙ ap ok e, replaced-Updated m k v w h old e)

-- On a valid map, for a key within the range and with room for one more pair below `u32::MAX`, `insert` returns
-- the value that the key had, if it had one. The map stays valid, `get` reads the new value at the
-- key and what it read before at every other key.
pub insert_inserts :
    {V : Type 0} (m : SparseMap V) (k : ℕ) (v : V)
    → IsValid m
    → k < length m.sparse
    → suc (length m.dense) < u32_mod
    → Returns (λ (old, m'). (get m k ≡ ok old) × Updated m m' k (some v)) (insert m k v)
insert_inserts m k v w h room = insert_by m k v w h room (lookup m k) refl
