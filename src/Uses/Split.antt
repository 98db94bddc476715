-- ===== src/Uses/Split.antt =====
-- `UseList::split_at_inst` (src/internal/uses.rs) shares the uses and the flags out.
use regalloc.Base.{
  ℕ, zero, suc, ◌+◌, ◌-◌, ◌^◌, ◌≤◌, ◌<◌, ◌≡◌, refl, sym, ap, ◌∙◌, Bool, true, false, List, [], ◌∷◌,
  ◌++◌, length, take, drop, length-take, take-append-drop, arith, ltb, leb, ok, Returns, Bool-cases,
  All, inl, inr,
}
use regalloc.Uses.{
  UseList, has_livein, has_liveout, has_fixedhint, has_fixeddef, masked, slice, partition_point,
  set_livein, set_liveout, split_at_index, split_at_inst,
}
use regalloc.Uses.Flags.{IsWord, view}

add-sub_cancel : (a b : ℕ) → a + b - a ≡ b
add-sub_cancel a b = omega arith

module _ {ℓ} {A : Type ℓ} where
  drop-nil : (n : ℕ) → drop {A = A} n [] ≡ []
  drop-nil zero = refl
  drop-nil (suc n) = refl

  take-nil : (n : ℕ) → take {A = A} n [] ≡ []
  take-nil zero = refl
  take-nil (suc n) = refl

  drop-drop : (a k m : ℕ) (xs : List A) → m ≡ a + k → drop m xs ≡ drop k (drop a xs)
  drop-drop zero k m xs e = let q : m ≡ k = omega arith in ap (λ n. drop n xs) q
  drop-drop (suc a) k m [] e = drop-nil m ∙ sym (drop-nil k)
  drop-drop (suc a) k zero (x ∷ xs) e = absurd (omega arith)
  drop-drop (suc a) k (suc m) (x ∷ xs) e = drop-drop a k m xs (omega arith)

  take-take : (k n : ℕ) (xs : List A) → k ≤ n → take k (take n xs) ≡ take k xs
  take-take zero n xs h = refl
  take-take (suc k) zero xs h = absurd (omega arith)
  take-take (suc k) (suc n) [] h = refl
  take-take (suc k) (suc n) (x ∷ xs) h = ap (◌∷◌ x) (take-take k n xs (omega arith))

  drop-take : (k n m : ℕ) (xs : List A) → m ≡ n - k → drop k (take n xs) ≡ take m (drop k xs)
  drop-take zero n m xs e = let q : n ≡ m = omega arith in ap (λ j. take j xs) q
  drop-take (suc k) zero zero xs e = refl
  drop-take (suc k) zero (suc m) xs e = absurd (omega arith)
  drop-take (suc k) (suc n) m [] e = sym (take-nil m)
  drop-take (suc k) (suc n) m (x ∷ xs) e = drop-take k n m xs (omega arith)

  partition_point-le : (p : A → Bool) (xs : List A) → partition_point p xs ≤ length xs
  unfolding partition_point
  partition_point-le p [] = omega arith
  partition_point-le p (x ∷ xs) = ground (arith, partition_point-le p xs)

-- Where positions never fall, the partition point of `pos x < at` parts the list.
module _ {ℓ} {A : Type ℓ} (pos : A → ℕ) where
  abbrev pub IsSortedFrom : ℕ → List A → Type 0
  IsSortedFrom low [] = Unit
  IsSortedFrom low (x ∷ xs) = (low ≤ pos x) × IsSortedFrom (pos x) xs

  abbrev before : ℕ → A → Bool
  before at x = ltb (pos x) at

  partition_point-take :
      (at : ℕ) (xs : List A) → All (λ x. pos x < at) (take (partition_point (before at) xs) xs)
  unfolding partition_point
  partition_point-take at [] = tt
  partition_point-take at (x ∷ xs) = elim (Bool-cases (before at x)) [
    | inl e ↦ rw e (ground arith, partition_point-take at xs)
    | inr e ↦ rw e tt
  ]

  sorted_above :
      (at low : ℕ) (xs : List A) → at ≤ low → IsSortedFrom low xs → All (λ x. at ≤ pos x) xs
  sorted_above at low [] h s = tt
  sorted_above at low (x ∷ xs) h s = (omega arith, sorted_above at (pos x) xs (omega arith) s.1)

  partition_point-drop :
      (at low : ℕ) (xs : List A)
      → IsSortedFrom low xs
      → All (λ x. at ≤ pos x) (drop (partition_point (before at) xs) xs)
  unfolding partition_point
  partition_point-drop at low [] s = tt
  partition_point-drop at low (x ∷ xs) s = elim (Bool-cases (before at x)) [
    | inl e ↦ rw e (partition_point-drop at (pos x) xs s.1)
    | inr e ↦ rw e (ground arith, sorted_above at (pos x) xs (ground arith) s.1)
  ]

-- The uses of a list within the array.
unfoldable pub uses_of {ℓ} : {A : Type ℓ} → UseList → List A → List A
uses_of u uses = take (masked u.to - masked u.from) (drop (masked u.from) uses)

-- A list of uses within the array.
pub record IsWithin {ℓ} {A : Type ℓ} (u : UseList) (uses : List A) : Type 0 where
  pub word : IsWord u
  pub ascends : masked u.from ≤ masked u.to
  pub inside : masked u.to ≤ length uses

-- What `split_at_inst` promises of the two lists, where the uses come by their positions.
pub record IsSplit {A : Type 0} (pos : A → ℕ) (u : UseList) (at : ℕ) (uses : List A)
    (first second : UseList) : Type 0 where
  pub whole : uses_of first uses ++ uses_of second uses ≡ uses_of u uses
  pub before_split : All (λ x. pos x < at) (uses_of first uses)
  pub after_split : All (λ x. at ≤ pos x) (uses_of second uses)
  pub first_flags :
      (has_livein first ≡ has_livein u)
      × (has_liveout first ≡ true)
      × (has_fixedhint first ≡ false)
      × (has_fixeddef first ≡ has_fixeddef u)
  pub second_flags :
      (has_livein second ≡ true)
      × (has_liveout second ≡ has_liveout u)
      × (has_fixedhint second ≡ false)
      × (has_fixeddef second ≡ false)

-- All that can be read of the two lists of `split_at_inst`, split at the index `m`.
split_first :
    (u : UseList) (m : ℕ)
    → IsWord u
    → m < 2 ^ 30
    → view (set_liveout true (split_at_index u m).0)
      ≡ record (view u) { liveout = true; fixedhint = false; end = m }
unfolding view split_at_index set_liveout has_livein has_liveout has_fixedhint
split_first u m w h = ground arith

split_second :
    (u : UseList) (m : ℕ)
    → IsWord u
    → m < 2 ^ 30
    → view (set_livein true (split_at_index u m).1)
      ≡ record (view u) { livein = true; fixedhint = false; fixeddef = false; start = m }
unfolding view split_at_index set_livein has_livein has_liveout has_fixedhint has_fixeddef
split_second u m w h = ground arith

module _ {A : Type 0} (pos : A → ℕ) (u : UseList) (at : ℕ) (uses : List A) where
  abbrev mid : ℕ
  mid = partition_point (before pos at) (uses_of u uses)

  mid-le : IsWithin u uses → mid ≤ masked u.to - masked u.from
  unfolding uses_of
  mid-le w = omega (
    arith,
    partition_point-le (before pos at) (uses_of u uses),
    length-take (masked u.to - masked u.from) (drop (masked u.from) uses),
  )

  abbrev pub first_list : UseList
  first_list = set_liveout true (split_at_index u (masked u.from + mid)).0

  abbrev pub second_list : UseList
  second_list = set_livein true (split_at_index u (masked u.from + mid)).1

  -- `split_at_inst` splits at this index and sets the two flags.
  pub split_at_inst_lem :
      IsWithin u uses → split_at_inst pos u at uses ≡ ok (first_list, second_list)
  unfolding split_at_inst slice uses_of
  split_at_inst_lem w =
      let up : leb (masked u.from) (masked u.to) ≡ true = ground (arith, w.ascends) in
      let inside : leb (masked u.to) (length uses) ≡ true = ground (arith, w.inside) in
      rw (up, inside) refl

  module _ (w : IsWithin u uses) where
    small : masked u.from + mid < 2 ^ 30
    small = let top : masked u.to < 2 ^ 30 = omega arith in omega (arith, mid-le w)

    view-first :
        view first_list
        ≡ record (view u) { liveout = true; fixedhint = false; end = masked u.from + mid }
    view-first = split_first u (masked u.from + mid) w.word small

    view-second : view second_list ≡ record (view u) {
      livein = true;
      fixedhint = false;
      fixeddef = false;
      start = masked u.from + mid;
    }
    view-second = split_second u (masked u.from + mid) w.word small

    uses_of-first : uses_of first_list uses ≡ take mid (uses_of u uses)
    unfolding uses_of view
    uses_of-first =
        ap (λ v. take (v.end - v.start) (drop v.start uses)) view-first
        ∙ ap (λ n. take n (drop (masked u.from) uses)) (add-sub_cancel (masked u.from) mid)
        ∙ sym (take-take mid (masked u.to - masked u.from) (drop (masked u.from) uses) (mid-le w))

    uses_of-second : uses_of second_list uses ≡ drop mid (uses_of u uses)
    unfolding uses_of view
    uses_of-second =
        ap (λ v. take (v.end - v.start) (drop v.start uses)) view-second
        ∙ ap (take (masked u.to - (masked u.from + mid)))
            (drop-drop (masked u.from) mid (masked u.from + mid) uses refl)
        ∙ sym (
            drop-take mid (masked u.to - masked u.from) (masked u.to - (masked u.from + mid))
              (drop (masked u.from) uses) (omega arith))

  -- `split_at_inst` returns for a list within the array whose uses come sorted by position, and shares
  -- them out: the two lists' uses, one after the other, are the list's; those before the split point go
  -- to the first list, the others to the second; the first list is live-out and the second live-in, the
  -- outer live flags stay where they are, the hint is taken off both and the fixed definition stays with
  -- the first.
  pub split_at_inst-IsSplit :
      (low : ℕ)
      → IsWithin u uses
      → IsSortedFrom pos low (uses_of u uses)
      → Returns
          (λ (first, second). IsSplit pos u at uses first second)
          (split_at_inst pos u at uses)
  unfolding view
  split_at_inst-IsSplit low w s =
      let one = view-first w in
      let two = view-second w in
      rw (split_at_inst_lem w) (record {
        whole = rw (uses_of-first w, uses_of-second w) (take-append-drop mid (uses_of u uses));
        before_split = rw (uses_of-first w) (partition_point-take pos at (uses_of u uses));
        after_split = rw (uses_of-second w) (partition_point-drop pos at low (uses_of u uses) s);
        first_flags = (
          ap (λ v. v.livein) one,
          ap (λ v. v.liveout) one,
          ap (λ v. v.fixedhint) one,
          ap (λ v. v.fixeddef) one,
        );
        second_flags = (
          ap (λ v. v.livein) two,
          ap (λ v. v.liveout) two,
          ap (λ v. v.fixedhint) two,
          ap (λ v. v.fixeddef) two,
        );
      })
