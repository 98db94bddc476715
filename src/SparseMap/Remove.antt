-- ===== src/SparseMap/Remove.antt =====
-- `remove` of `SparseMap` (src/entity/sparse.rs), which fills the gap with the last pair.
use regalloc.Base.{
  ℕ, ◌-◌, ◌%◌, ◌<◌, ◌≡◌, ◌≢◌, refl, sym, ap, ◌∙◌, ◌==◌, if◌then◌else◌, ok, ◌>>=◌, load-ok, store-ok,
  Option, none, some, List, length, get_elem?, get_or, set, take, length-set, length-take,
  get_or-set, get_elem?-none, get_elem?-get_or, Returns, arith, ℕ_discrete, dec_lt,
}
use regalloc.LiveRange.{u32_mod}
use regalloc.SparseMap.{SparseMap, value_at, get, remove_at, remove}
use regalloc.SparseMap.Lookup.{
  get_elem?-set, get_elem?-take, get_elem?-some, index_of, IsValid, pair-eq, lookup, get-lookup,
  value_at-hit, value_at-miss, value_at-inv, placed-lookup,
}
use regalloc.SparseMap.Change.{Updated}

-- The index of the last pair, and the pairs before it.
abbrev last : {V : Type 0} → SparseMap V → ℕ
last m = length m.dense - 1

abbrev rest : {V : Type 0} → SparseMap V → List (ℕ × V)
rest m = take (last m) m.dense

-- The map without the pair at `i`, whose place the pair `(b, bv)` from the end takes.
abbrev swapped : {V : Type 0} → SparseMap V → ℕ → ℕ → V → SparseMap V
swapped m i b bv = record { sparse = set m.sparse b (i % u32_mod); dense = set (rest m) i (b, bv) }

-- The pairs before the last stay where they are.
rest-same :
    {V : Type 0} (m : SparseMap V) (i : ℕ) → i ≢ last m → get_elem? (rest m) i ≡ get_elem? m.dense i
rest-same m i n = elim (dec_lt i (last m)) [
  | yes p ↦ ground (arith, get_elem?-take (last m) m.dense i)
  | no p ↦ ground (arith, get_elem?-take (last m) m.dense i, get_elem?-none m.dense i)
]

module _ {V : Type 0} (m : SparseMap V) (k : ℕ) (old : V) (w : IsValid m) (h : k < length m.sparse)
    (old_key : lookup m k ≡ some old) where
  here : get_elem? m.dense (index_of m k) ≡ some (k, old)
  here = value_at-inv k (get_elem? m.dense (index_of m k)) old old_key

  inside : index_of m k < length m.dense
  inside = get_elem?-some m.dense (index_of m k) (k, old) here

  length-rest : length (rest m) ≡ last m
  length-rest = omega (arith, length-take (last m) m.dense)

  -- The pair is the last one.
  module _ (at_end : index_of m k ≡ last m) where
    abbrev cut : SparseMap V
    cut = record m { dense = rest m }

    kept :
        (i j : ℕ) (x : V)
        → get_elem? (rest m) i ≡ some (j, x)
        → (i < last m) × (get_elem? m.dense i ≡ some (j, x))
    kept i j x e = (
      rw (length-rest) at (get_elem?-some (rest m) i (j, x) e),
      ground (
        arith,
        e,
        get_elem?-take (last m) m.dense i,
        length-rest,
        get_elem?-some (rest m) i (j, x) e,
      ),
    )

    cut-Updated : Updated m cut k none
    unfolding value_at
    cut-Updated = record {
      valid = record {
        placed = λ i j x e. w.placed i j x (kept i j x e).1;
        small = omega (arith, length-rest, w.small);
      };
      range = refl;
      at_key =
          let f : get_elem? (rest m) (index_of m k) ≡ none =
            get_elem?-none (rest m) (index_of m k) (omega (arith, length-rest, at_end)) in
          rw (f) refl;
      elsewhere = λ j n. elim (ℕ_discrete (index_of m j) (last m)) [
        | yes p ↦
            let f : get_elem? (rest m) (index_of m j) ≡ none =
              get_elem?-none (rest m) (index_of m j) (omega (arith, length-rest, p)) in
            let g : get_elem? m.dense (index_of m j) ≡ some (k, old) =
              ap (get_elem? m.dense) (p ∙ sym at_end) ∙ here in
            rw (f, g) (sym (value_at-miss k j old (λ q. n (sym q))))
        | no p ↦
            let f : get_elem? (rest m) (index_of m j) ≡ get_elem? m.dense (index_of m j) =
              rest-same m (index_of m j) p in
            rw (f) refl
      ];
    }

    remove_at-end : remove_at m (index_of m k) ≡ ok (old, cut)
    unfolding remove_at
    remove_at-end =
        let e : get_elem? m.dense (length m.dense - 1) ≡ some (k, old) =
          ap (get_elem? m.dense) (sym at_end) ∙ here in
        ground (arith, e, length-rest, at_end)

  -- The pair is before the last one, `(b, bv)`.
  module _ (not_end : index_of m k ≢ last m) (b : ℕ) (bv : V)
      (back : get_elem? m.dense (last m) ≡ some (b, bv)) where
    abbrev filled : SparseMap V
    filled = swapped m (index_of m k) b bv

    below : index_of m k < length (rest m)
    below = omega (arith, length-rest, inside, not_end)

    b_placed : (b < length m.sparse) × (index_of m b ≡ last m)
    b_placed = w.placed (last m) b bv back

    b_other : b ≢ k
    b_other q = not_end (ap (index_of m) (sym q) ∙ b_placed.1)

    index-filled : (j : ℕ) → index_of filled j ≡ (if b == j then index_of m k else index_of m j)
    index-filled j =
        ground
          (arith, get_or-set m.sparse b j (index_of m k % u32_mod) 0 b_placed.0, w.small, inside)

    pairs-filled :
        (i : ℕ)
        → get_elem? filled.dense i
          ≡ (if index_of m k == i then some (b, bv) else get_elem? (rest m) i)
    pairs-filled i = get_elem?-set (rest m) (index_of m k) i (b, bv) below

    kept_filled :
        (i j : ℕ) (x : V)
        → get_elem? (rest m) i ≡ some (j, x)
        → (i ≢ last m) × (get_elem? m.dense i ≡ some (j, x))
    kept_filled i j x e =
        let lt = get_elem?-some (rest m) i (j, x) e in
        (omega (arith, lt, length-rest), sym (rest-same m i (omega (arith, lt, length-rest))) ∙ e)

    filled-placed :
        (i j : ℕ) (x : V)
        → get_elem? filled.dense i ≡ some (j, x)
        → (j < length filled.sparse) × (index_of filled j ≡ i)
    filled-placed i j x e = elim (ℕ_discrete (index_of m k) i) [
      | yes p ↦
          let both : ◌≡◌ {A = Option (ℕ × V)} (some (b, bv)) (some (j, x)) =
            ground (arith, e, pairs-filled i) in
          let q = (pair-eq both).0 in
          (rw (length-set) (omega (arith, b_placed.0, q)), ground (arith, index-filled j, q, p))
      | no n ↦
          let e' : get_elem? (rest m) i ≡ some (j, x) = ground (arith, e, pairs-filled i) in
          let (stays, old_pair) = kept_filled i j x e' in
          let at_ = w.placed i j x old_pair in
          let other : b ≢ j = λ q. stays (sym at_.1 ∙ ap (index_of m) (sym q) ∙ b_placed.1) in
          (rw (length-set) at_.0, ground (arith, index-filled j, other, at_.1))
    ]

    filled-elsewhere : (j : ℕ) → j ≢ k → lookup filled j ≡ lookup m j
    unfolding value_at
    filled-elsewhere j n = elim (ℕ_discrete b j) [
      | yes q ↦
          let e : index_of filled j ≡ index_of m k = ground (arith, index-filled j) in
          let f : get_elem? filled.dense (index_of m k) ≡ some (b, bv) =
            ground (arith, pairs-filled (index_of m k)) in
          rw (e, f, ← q, value_at-hit) (sym (placed-lookup m (last m) b bv w back))
      | no q ↦
          let e : index_of filled j ≡ index_of m j = ground (arith, index-filled j) in
          elim (ℕ_discrete (index_of m k) (index_of m j)) [
            | yes p ↦
                let f : get_elem? filled.dense (index_of m j) ≡ some (b, bv) =
                  ground (arith, pairs-filled (index_of m j)) in
                let g : get_elem? m.dense (index_of m j) ≡ some (k, old) =
                  ap (get_elem? m.dense) (sym p) ∙ here in
                rw (e, f, g) (value_at-miss b j bv q ∙ sym (value_at-miss k j old (λ r. n (sym r))))
            | no p ↦
                let f : get_elem? filled.dense (index_of m j) ≡ get_elem? (rest m) (index_of m j) =
                  ground (arith, pairs-filled (index_of m j)) in
                elim (ℕ_discrete (index_of m j) (last m)) [
                  | yes r ↦
                      let g : get_elem? (rest m) (index_of m j) ≡ none =
                        get_elem?-none (rest m) (index_of m j) (omega (arith, length-rest, r)) in
                      let g' : get_elem? m.dense (index_of m j) ≡ some (b, bv) =
                        ap (get_elem? m.dense) r ∙ back in
                      rw (e, f, g, g') (sym (value_at-miss b j bv q))
                  | no r ↦ rw (e, f, rest-same m (index_of m j) r) refl
                ]
          ]
    ]

    filled-Updated : Updated m filled k none
    filled-Updated = record {
      valid = record {
        placed = filled-placed;
        small = rw (length-set, length-rest) (omega (arith, w.small));
      };
      range = length-set m.sparse b (index_of m k % u32_mod);
      at_key =
          let e : index_of filled k ≡ index_of m k = ground (arith, index-filled k, b_other) in
          let f : get_elem? filled.dense (index_of m k) ≡ some (b, bv) =
            ground (arith, pairs-filled (index_of m k)) in
          rw (e, f) (value_at-miss b k bv b_other);
      elsewhere = filled-elsewhere;
    }

    remove_at-fills : remove_at m (index_of m k) ≡ ok (old, filled)
    unfolding remove_at
    remove_at-fills =
        let same : get_elem? (rest m) (index_of m k) ≡ some (k, old) =
          rest-same m (index_of m k) not_end ∙ here in
        ground (
          arith,
          back,
          length-rest,
          not_end,
          same,
          store-ok m.sparse b (index_of m k % u32_mod) b_placed.0,
          store-ok (rest m) (index_of m k) (b, bv) below,
        )

  remove-present : remove m k ≡ (remove_at m (index_of m k) >>= λ (x, m'). ok (some x, m'))
  unfolding remove
  remove-present = ground (arith, load-ok m.sparse k 0 h, here, value_at-hit k old)

  remove_found : Returns (λ (x, m'). (get m k ≡ ok x) × Updated m m' k none) (remove m k)
  remove_found =
      let found : get m k ≡ ok (some old) = get-lookup m k h ∙ ap ok old_key in
      elim (ℕ_discrete (index_of m k) (last m)) [
        | yes p ↦ rw (remove-present, remove_at-end p) (found, cut-Updated p)
        | no n ↦
            let pair = get_or m.dense (last m) (k, old) in
            let back : get_elem? m.dense (last m) ≡ some (pair.0, pair.1) =
              get_elem?-get_or m.dense (last m) (k, old) (omega (arith, inside)) in
            rw (remove-present, remove_at-fills n pair.0 pair.1 back)
              (found, filled-Updated n pair.0 pair.1 back)
      ]

remove-absent :
    {V : Type 0} (m : SparseMap V) (k : ℕ)
    → k < length m.sparse
    → lookup m k ≡ none
    → remove m k ≡ ok (none, m)
unfolding remove
remove-absent m k h e = ground (arith, load-ok m.sparse k 0 h, e)

remove_by :
    {V : Type 0} (m : SparseMap V) (k : ℕ)
    → IsValid m
    → k < length m.sparse
    → (o : Option V) → lookup m k ≡ o
    → Returns (λ (x, m'). (get m k ≡ ok x) × Updated m m' k none) (remove m k)
remove_by m k w h none e = rw (remove-absent m k h e) (
  get-lookup m k h ∙ ap ok e,
  record { valid = w; range = refl; at_key = e; elsewhere = λ j n. refl },
)
remove_by m k w h (some old) e = remove_found m k old w h e

-- On a valid map, for a key within the range, `remove` returns the value that the key had, if it had one. The map
-- stays valid, `get` finds nothing at the key and reads what it read before at every other key.
pub remove_removes :
    {V : Type 0} (m : SparseMap V) (k : ℕ)
    → IsValid m
    → k < length m.sparse
    → Returns (λ (x, m'). (get m k ≡ ok x) × Updated m m' k none) (remove m k)
remove_removes m k w h = remove_by m k w h (lookup m k) refl
