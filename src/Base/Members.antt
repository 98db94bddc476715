-- ===== src/Base/Members.antt =====
-- Membership and duplicates in a list of numbers, as predicates by recursion.
use Prim.Native.Nat.{ℕ, suc}
use regalloc.Base.Tests.{◌==◌, if◌then◌else◌}
use mathlib.Core.Path.{◌≡◌, refl, sym}
use mathlib.Core.Logic.{◌⊎◌, inl, inr}
use mathlib.Core.List.{List, [], ◌∷◌, ◌++◌}

abbrev pub In : ℕ → List ℕ → Type 0
In x [] = ⊥
In x (y ∷ ys) = (x ≡ y) ⊎ In x ys

abbrev pub IsNodup : List ℕ → Type 0
IsNodup [] = Unit
IsNodup (x ∷ xs) = (¬ In x xs) × IsNodup xs

abbrev pub All {ℓ κ} : {A : Type ℓ} → (A → Type κ) → List A → Type κ
All P [] = Unit
All P (x ∷ xs) = P x × All P xs

abbrev pub count : ℕ → List ℕ → ℕ
count x [] = 0
count x (y ∷ ys) = if x == y then suc (count x ys) else count x ys

pub In-append_left : (x : ℕ) (xs ys : List ℕ) → In x xs → In x (xs ++ ys)
In-append_left x [] ys h = elim h [ ]
In-append_left x (y ∷ xs) ys (inl e) = inl e
In-append_left x (y ∷ xs) ys (inr h) = inr (In-append_left x xs ys h)

pub In-append_last : (x : ℕ) (xs : List ℕ) → In x (xs ++ x ∷ [])
In-append_last x [] = inl refl
In-append_last x (y ∷ xs) = inr (In-append_last x xs)

pub In-append-inv : (x y : ℕ) (xs : List ℕ) → In x (xs ++ y ∷ []) → In x xs ⊎ (x ≡ y)
In-append-inv x y [] (inl e) = inr e
In-append-inv x y [] (inr h) = elim h [ ]
In-append-inv x y (z ∷ xs) (inl e) = inl (inl e)
In-append-inv x y (z ∷ xs) (inr h) = elim (In-append-inv x y xs h) [
  | inl k ↦ inl (inr k)
  | inr e ↦ inr e
]

pub IsNodup-append_last : (x : ℕ) (xs : List ℕ) → IsNodup xs → (¬ In x xs) → IsNodup (xs ++ x ∷ [])
IsNodup-append_last x [] h n = (λ i. i, tt)
IsNodup-append_last x (y ∷ xs) h n = (
  λ i. elim (In-append-inv y x xs i) [ inl j ↦ h.0 j | inr e ↦ n (inl (sym e)) ],
  IsNodup-append_last x xs h.1 (λ i. n (inr i)),
)
