-- ===== src/CompactList/Slices.antt =====
-- What `as_slice` reads after a list is added to the pool (src/entity/compact_list.rs).
use regalloc.Base.{
  ℕ, zero, suc, ◌+◌, ◌-◌, ◌%◌, ◌<◌, ◌≤◌, ◌≡◌, refl, sym, ap, ◌∙◌, ok, ◌>>=◌, List, [], ◌∷◌, ◌++◌,
  length, take, drop, length-append, length-take, length-drop, arith, Returns,
}
use regalloc.LiveRange.{u32_mod}
use regalloc.CompactList.{CompactList, range, as_slice, insert_iter_at}

module _ {A : Type 0} where
  take-append_left : (n : ℕ) (xs ys : List A) → n ≤ length xs → take n (xs ++ ys) ≡ take n xs
  take-append_left zero xs ys h = refl
  take-append_left (suc n) [] ys h = absurd (omega arith)
  take-append_left (suc n) (x ∷ xs) ys h = ap (◌∷◌ x) (take-append_left n xs ys (omega arith))

  drop-append_left : (n : ℕ) (xs ys : List A) → n ≤ length xs → drop n (xs ++ ys) ≡ drop n xs ++ ys
  drop-append_left zero xs ys h = refl
  drop-append_left (suc n) [] ys h = absurd (omega arith)
  drop-append_left (suc n) (x ∷ xs) ys h = drop-append_left n xs ys (omega arith)

  take-length : (xs : List A) → take (length xs) xs ≡ xs
  take-length [] = refl
  take-length (x ∷ xs) = ap (◌∷◌ x) (take-length xs)

  drop-length-append : (xs ys : List A) → drop (length xs) (xs ++ ys) ≡ ys
  drop-length-append [] ys = refl
  drop-length-append (x ∷ xs) ys = drop-length-append xs ys

  append_assoc : (xs ys zs : List A) → (xs ++ ys) ++ zs ≡ xs ++ (ys ++ zs)
  append_assoc [] ys zs = refl
  append_assoc (x ∷ xs) ys zs = ap (◌∷◌ x) (append_assoc xs ys zs)

  -- A range within the pool.
  range-inside :
      (pool : List A) (from to : ℕ)
      → from ≤ to
      → to ≤ length pool
      → range pool from to ≡ ok (take (to - from) (drop from pool))
  unfolding range
  range-inside pool from to h k = ground arith

  -- What is added to the pool does not change a range that is within it.
  pub range-append :
      (pool xs : List A) (from to : ℕ)
      → from ≤ to
      → to ≤ length pool
      → range (pool ++ xs) from to ≡ range pool from to
  range-append pool xs from to h k =
      range-inside (pool ++ xs) from to h (omega (arith, length-append pool xs, k))
      ∙ ap (λ z. ok (take (to - from) z)) (drop-append_left from pool xs (omega (arith, h, k)))
      ∙ ap ok (
          take-append_left (to - from) (drop from pool) xs
            (omega (arith, length-drop from pool, h, k)))
      ∙ sym (range-inside pool from to h k)

  -- The end of the pool, read as a range.
  range-end : (pool xs : List A) → range (pool ++ xs) (length pool) (length (pool ++ xs)) ≡ ok xs
  range-end pool xs =
      let n : length (pool ++ xs) - length pool ≡ length xs =
        omega (arith, length-append pool xs) in
      range-inside (pool ++ xs) (length pool) (length (pool ++ xs))
        (omega (arith, length-append pool xs)) (omega arith)
      ∙ ap (λ z. ok (take (length (pool ++ xs) - length pool) z)) (drop-length-append pool xs)
      ∙ ap (λ z. ok (take z xs)) n
      ∙ ap ok (take-length xs)

  -- The list is a range of the pool.
  abbrev pub IsIn : CompactList → List A → Type 0
  IsIn l pool = (l.start ≤ l.end_) × (l.end_ ≤ length pool)

  abbrev pub slice_of : CompactList → List A → List A
  slice_of l pool = take (l.end_ - l.start) (drop l.start pool)

  take-nil : (n : ℕ) → take n (◌++◌ {A = A} [] []) ≡ []
  take-nil zero = refl
  take-nil (suc n) = refl

  drop-nil : (n : ℕ) → drop n (◌++◌ {A = A} [] []) ≡ []
  drop-nil zero = refl
  drop-nil (suc n) = refl

  take-take : (i n : ℕ) (xs : List A) → i ≤ n → take i (take n xs) ≡ take i xs
  take-take zero n xs h = refl
  take-take (suc i) zero xs h = absurd (omega arith)
  take-take (suc i) (suc n) [] h = refl
  take-take (suc i) (suc n) (x ∷ xs) h = ap (◌∷◌ x) (take-take i n xs (omega arith))

  drop-take : (i n : ℕ) (xs : List A) → i ≤ n → drop i (take n xs) ≡ take (n - i) (drop i xs)
  drop-take zero n xs h = let e : n ≡ n - 0 = omega arith in ap (λ z. take z xs) e
  drop-take (suc i) zero xs h = absurd (omega arith)
  drop-take (suc i) (suc n) [] h = sym (take-nil (suc n - suc i))
  drop-take (suc i) (suc n) (x ∷ xs) h =
      let e : n - i ≡ suc n - suc i = omega arith in
      drop-take i n xs (omega arith) ∙ ap (λ z. take z (drop i xs)) e

  drop-drop : (i s : ℕ) (xs : List A) → drop i (drop s xs) ≡ drop (s + i) xs
  drop-drop i zero xs = let e : i ≡ 0 + i = omega arith in ap (λ z. drop z xs) e
  drop-drop zero (suc s) [] = sym (drop-nil (suc s + 0))
  drop-drop (suc i) (suc s) [] = sym (drop-nil (suc s + suc i))
  drop-drop i (suc s) (x ∷ xs) =
      let e : suc s + i ≡ suc (s + i) = omega arith in
      drop-drop i s xs ∙ ap (λ z. drop z (x ∷ xs)) (sym e)

  -- The two copies of `insert_iter_at` are the parts of the list at the index.
  parts :
      (l : CompactList) (index : ℕ) (pool : List A)
      → IsIn l pool
      → l.start + index ≤ l.end_
      → (range pool l.start (l.start + index) ≡ ok (take index (slice_of l pool)))
        × (range pool (l.start + index) l.end_ ≡ ok (drop index (slice_of l pool)))
  parts l index pool w h =
      let n : l.start + index - l.start ≡ index = omega arith in
      let m : l.end_ - l.start - index ≡ l.end_ - (l.start + index) = omega arith in
      (
        range-inside pool l.start (l.start + index) (omega arith) (omega (arith, h, w.1))
            ∙ ap (λ z. ok (take z (drop l.start pool))) n
            ∙ ap ok
                (sym (take-take index (l.end_ - l.start) (drop l.start pool) (omega (arith, h)))),
        range-inside pool (l.start + index) l.end_ h w.1
            ∙ ap ok (
                sym (
                  drop-take index (l.end_ - l.start) (drop l.start pool) (omega (arith, h))
                  ∙ ap (take (l.end_ - l.start - index)) (drop-drop index l.start pool)
                  ∙ ap (λ z. take z (drop (l.start + index) pool)) m)),
      )

-- For a list in the pool, an index within it and a pool that stays within `u32`, `insert_iter_at`
-- returns a list that reads as the old one with the elements inserted at the index, and every list
-- that was in the pool reads as before.
pub insert_iter_at-as_slice :
    {A : Type 0} (l : CompactList) (index : ℕ) (xs pool : List A)
    → IsIn l pool
    → l.start + index ≤ l.end_
    → length pool + (l.end_ - l.start) + length xs < u32_mod
    → Returns
        (λ (l', pool').
          (as_slice l' pool'
            ≡ (as_slice l pool >>= λ old. ok (take index old ++ (xs ++ drop index old))))
          × ((k : CompactList) → IsIn k pool → as_slice k pool' ≡ as_slice k pool))
        (insert_iter_at l index xs pool)
unfolding as_slice insert_iter_at
insert_iter_at-as_slice l index xs pool w h room =
    let old = slice_of l pool in
    let first = take index old in
    let last = drop index old in
    let p = parts l index pool w h in
    let copied : range ((pool ++ first) ++ xs) (l.start + index) l.end_ ≡ ok last =
      range-append (pool ++ first) xs (l.start + index) l.end_ h
        (omega (arith, length-append pool first, w.1))
      ∙ range-append pool first (l.start + index) l.end_ h w.1
      ∙ p.1 in
    let joined : ((pool ++ first) ++ xs) ++ last ≡ pool ++ (first ++ (xs ++ last)) =
      append_assoc (pool ++ first) xs last ∙ append_assoc pool first (xs ++ last) in
    let old_length : length old ≡ l.end_ - l.start = omega (
      arith,
      length-take (l.end_ - l.start) (drop l.start pool),
      length-drop l.start pool,
      w.0,
      w.1,
    ) in
    let long : length (pool ++ (first ++ (xs ++ last)))
        ≡ length pool + (l.end_ - l.start) + length xs =
      omega (
        arith,
        length-append pool (first ++ (xs ++ last)),
        length-append first (xs ++ last),
        length-append xs last,
        length-take index old,
        length-drop index old,
        old_length,
        h,
      ) in
    let start : length pool % u32_mod ≡ length pool = omega (arith, room) in
    let stop : length (pool ++ (first ++ (xs ++ last))) % u32_mod
        ≡ length (pool ++ (first ++ (xs ++ last))) =
      omega (arith, room, long) in
    let whole : range pool l.start l.end_ ≡ ok old = range-inside pool l.start l.end_ w.0 w.1 in
    rw (p.0, copied, joined, start, stop, whole)
      (
        range-end pool (first ++ (xs ++ last)),
        λ k v. range-append pool (first ++ (xs ++ last)) k.start k.end_ v.0 v.1,
      )
