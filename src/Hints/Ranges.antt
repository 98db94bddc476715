-- ===== src/Hints/Ranges.antt =====
-- Finding the hints with keys in a range, in a sorted list (src/internal/hints.rs).
use regalloc.Base.{
  ℕ, zero, suc, ◌-◌, ◌<◌, ◌≤◌, ◌≡◌, inl, inr, refl, sym, ap, ◌∙◌, ltb, leb, ◌==◌, if◌then◌else◌,
  Bool, true, false, ◌&&◌, ◌||◌, Bool-cases, List, [], ◌∷◌, drop, ok, All, arith,
}
use regalloc.Hints.{Hint, partition_point, take_while, any_before, any_at}

module _ {Freq : Type 0} where
  abbrev pub select : (Hint Freq → Bool) → List (Hint Freq) → List (Hint Freq)
  select p [] = []
  select p (h ∷ hs) = if p h then h ∷ select p hs else select p hs

  abbrev pub any : (Hint Freq → Bool) → List (Hint Freq) → Bool
  any p [] = false
  any p (h ∷ hs) = p h || any p hs

  -- The keys ascend.
  abbrev pub IsSorted : List (Hint Freq) → Type 0
  IsSorted [] = Unit
  IsSorted (h ∷ hs) = All (λ h'. h.key ≤ h'.key) hs × IsSorted hs

  abbrev pub between : ℕ → ℕ → Hint Freq → Bool
  between lo hi h = leb lo h.key && leb h.key hi

  abbrev AllFrom : ℕ → List (Hint Freq) → Type 0
  AllFrom lo hs = All (λ (h : Hint Freq). lo ≤ h.key) hs

  AllFrom-trans : (lo lo' : ℕ) (hs : List (Hint Freq)) → lo ≤ lo' → AllFrom lo' hs → AllFrom lo hs
  AllFrom-trans lo lo' [] le w = tt
  AllFrom-trans lo lo' (h ∷ hs) le w = (omega (arith, w.0), AllFrom-trans lo lo' hs le w.1)

  select-above :
      (lo hi k : ℕ) (hs : List (Hint Freq)) → hi < k → AllFrom k hs → select (between lo hi) hs ≡ []
  select-above lo hi k [] lt w = refl
  select-above lo hi k (h ∷ hs) lt w =
      let out : between lo hi h ≡ false = ground (arith, w.0) in
      rw (out) (select-above lo hi k hs lt w.1)

  any-above :
      (lo hi k : ℕ) (hs : List (Hint Freq)) → hi < k → AllFrom k hs → any (between lo hi) hs ≡ false
  any-above lo hi k [] lt w = refl
  any-above lo hi k (h ∷ hs) lt w =
      let out : between lo hi h ≡ false = ground (arith, w.0) in
      rw (out) (any-above lo hi k hs lt w.1)

  take_while-select :
      (lo hi : ℕ) (hs : List (Hint Freq))
      → AllFrom lo hs
      → IsSorted hs
      → take_while (λ h. leb h.key hi) hs ≡ select (between lo hi) hs
  unfolding take_while
  take_while-select lo hi [] w s = refl
  take_while-select lo hi (h ∷ hs) w s = ground (
    arith,
    w.0,
    take_while-select lo hi hs w.1 s.1,
    λ (lt : hi < h.key). select-above lo hi h.key hs lt s.0,
  )

  -- The hints with keys from `lo` to `hi` are those after the last smaller key, while no key is larger.
  pub range-select :
      (lo hi : ℕ) (hs : List (Hint Freq))
      → IsSorted hs
      → take_while (λ h. leb h.key hi) (drop (partition_point (λ h. ltb h.key lo) hs) hs)
        ≡ select (between lo hi) hs
  unfolding partition_point take_while
  range-select lo hi [] s = refl
  range-select lo hi (h ∷ hs) s = elim (Bool-cases (ltb h.key lo)) [
    | inl e ↦ rw (e) (ground (arith, e, range-select lo hi hs s.1))
    | inr e ↦
        let le : lo ≤ h.key = ground (arith, e) in
        rw (e) (take_while-select lo hi (h ∷ hs) (le, AllFrom-trans lo h.key hs le s.0) s)
  ]

  any-from :
      (lo hi : ℕ) (hs : List (Hint Freq))
      → AllFrom lo hs
      → IsSorted hs
      → any_at hs 0 hi ≡ any (between lo hi) hs
  unfolding any_at
  any-from lo hi [] w s = refl
  any-from lo hi (h ∷ hs) w s =
      ground (arith, w.0, λ (lt : hi < h.key). any-above lo hi h.key hs lt s.0)

  -- The hint at the first key from `mid` on tells whether there is one from `mid` to `hi`.
  pub any_at-any :
      (mid hi : ℕ) (hs : List (Hint Freq))
      → IsSorted hs
      → any_at hs (partition_point (λ h. ltb h.key mid) hs) hi ≡ any (between mid hi) hs
  unfolding partition_point any_at
  any_at-any mid hi [] s = refl
  any_at-any mid hi (h ∷ hs) s = elim (Bool-cases (ltb h.key mid)) [
    | inl e ↦ rw (e) (ground (arith, e, any_at-any mid hi hs s.1))
    | inr e ↦
        let le : mid ≤ h.key = ground (arith, e) in
        rw (e) (any-from mid hi (h ∷ hs) (le, AllFrom-trans mid h.key hs le s.0) s)
  ]

  -- Where the first key fails the test, all keys do.
  partition_point-zero :
      (mid : ℕ) (hs : List (Hint Freq))
      → IsSorted hs
      → partition_point (λ h. ltb h.key mid) hs ≡ 0
      → AllFrom mid hs
  unfolding partition_point
  partition_point-zero mid [] s e = tt
  partition_point-zero mid (h ∷ hs) s e =
      let le : mid ≤ h.key = ground (arith, e) in (le, AllFrom-trans mid h.key hs le s.0)

  any_before-suc :
      (lo m : ℕ) (h : Hint Freq) (hs : List (Hint Freq))
      → any_before (h ∷ hs) (suc (suc m)) lo ≡ any_before hs (suc m) lo
  unfolding any_before
  any_before-suc lo m h hs =
      let e : suc (suc m) - 1 ≡ suc m = omega arith in
      let e' : suc m - 1 ≡ m = omega arith in
      let t : (suc (suc m) == 0) ≡ false = ground arith in
      let t' : (suc m == 0) ≡ false = ground arith in rw (e, e', t, t') refl

  any_before-true :
      (lo k m : ℕ) (hs : List (Hint Freq)) (answer : Bool)
      → lo ≤ k
      → AllFrom k hs
      → any_before hs (suc m) lo ≡ ok answer
      → answer ≡ true
  unfolding any_before
  any_before-true lo k zero [] answer le w e = ground (arith, e)
  any_before-true lo k (suc m) [] answer le w e = ground (arith, e)
  any_before-true lo k zero (h ∷ hs) answer le w e = ground (arith, e, w.0)
  any_before-true lo k (suc m) (h ∷ hs) answer le w e =
      any_before-true lo k m hs answer le w.1 (sym (any_before-suc lo m h hs) ∙ e)

  any_before-one :
      (lo mid : ℕ) (h : Hint Freq) (hs : List (Hint Freq)) (n : ℕ)
      → h.key < mid
      → IsSorted (h ∷ hs)
      → n ≡ partition_point (λ h. ltb h.key mid) hs
      → any_before hs n lo ≡ ok (any (between lo (mid - 1)) hs)
      → any_before (h ∷ hs) (suc n) lo ≡ ok (any (between lo (mid - 1)) (h ∷ hs))
  unfolding any_before
  any_before-one lo mid h hs zero lt s e ih =
      let w = partition_point-zero mid hs s.1 (sym e) in
      ground (arith, any-above lo (mid - 1) mid hs (omega arith) w)
  any_before-one lo mid h hs (suc m) lt s e ih =
      let rest = any (between lo (mid - 1)) hs in
      let here : (lo ≤ h.key) → rest ≡ true = λ le. any_before-true lo h.key m hs rest le s.0 ih in
      any_before-suc lo m h hs ∙ ih ∙ ap ok (ground (arith, here))

  -- The hint at the last key below `mid` tells whether there is one from `lo` on and below `mid`.
  pub any_before-any :
      (lo mid : ℕ) (hs : List (Hint Freq))
      → 0 < mid
      → IsSorted hs
      → any_before hs (partition_point (λ h. ltb h.key mid) hs) lo
        ≡ ok (any (between lo (mid - 1)) hs)
  unfolding partition_point any_before
  any_before-any lo mid [] pos s = refl
  any_before-any lo mid (h ∷ hs) pos s = elim (Bool-cases (ltb h.key mid)) [
    | inl e ↦ rw (e) (
        any_before-one lo mid h hs (partition_point (λ h. ltb h.key mid) hs) (ground (arith, e)) s
          refl (any_before-any lo mid hs pos s.1))
    | inr e ↦
        let le : mid ≤ h.key = ground (arith, e) in
        let none_in = any-above lo (mid - 1) h.key (h ∷ hs) (omega arith) (omega arith, s.0) in
        rw (e) (ground (arith, none_in))
  ]
