-- ===== src/Base/Outcome.antt =====
-- How a call ends: a value, an error value, a panic (an index out of range, `unwrap` of a `None`,
-- `unreachable!`), or the model's fuel running out; and the rules for calls that end well.
use mathlib.Core.Path.{◌≡◌, refl}
use mathlib.Core.List.{List}
use mathlib.Core.Option.{none, some}
use Prim.Native.Nat.{ℕ, ◌<◌}
use regalloc.Base.Tests.{ltb, if◌then◌else◌}
use regalloc.Base.Arrays.{length, get_elem?, get_or, set, get_elem?-get_or}
use native.Mathlib.Omega.{arith}

-- `RegAllocError::FunctionTooBig` of lib.rs is the error that the modelled operations return.
pub data RegAllocError : Type 0 where
  function_too_big : RegAllocError

pub data Run {κ} (Value : Type κ) : Type κ where
  panic : Run Value
  out_of_fuel : Run Value
  err : RegAllocError → Run Value
  ok : Value → Run Value

infixl 5 ◌>>=◌
abbrev pub ◌>>=◌ {ℓ ℓ'} : {A : Type ℓ} {B : Type ℓ'} → Run A → (A → Run B) → Run B
panic >>= next = panic
out_of_fuel >>= next = out_of_fuel
err e >>= next = err e
ok a >>= next = next a

-- `v[i]`, which panics out of range.
abbrev pub load {ℓ} : {A : Type ℓ} → List A → ℕ → Run A
load xs i = elim (get_elem? xs i) [ none ↦ panic | some a ↦ ok a ]

-- `v[i] = a`.
abbrev pub store {ℓ} : {A : Type ℓ} → List A → ℕ → A → Run (List A)
store xs i a = if ltb i (length xs) then ok (set xs i a) else panic

pub load-ok {ℓ} :
    {A : Type ℓ} (xs : List A) (i : ℕ) (d : A) → i < length xs → load xs i ≡ ok (get_or xs i d)
load-ok xs i d h = ground (arith, get_elem?-get_or xs i d)

pub store-ok {ℓ} :
    {A : Type ℓ} (xs : List A) (i : ℕ) (a : A) → i < length xs → store xs i a ≡ ok (set xs i a)
store-ok xs i a h = ground arith

-- The call returns normally, with a value that satisfies `P`.
abbrev pub Returns {ℓ} : {A : Type ℓ} → (A → Type 0) → Run A → Type 0
Returns P (ok a) = P a
Returns P (err e) = ⊥
Returns P panic = ⊥
Returns P out_of_fuel = ⊥

-- The call returns normally with such a value, or with an error value: it neither panics nor runs
-- out of fuel.
abbrev pub ReturnsOrErr {ℓ} : {A : Type ℓ} → (A → Type 0) → Run A → Type 0
ReturnsOrErr P (ok a) = P a
ReturnsOrErr P (err e) = Unit
ReturnsOrErr P panic = ⊥
ReturnsOrErr P out_of_fuel = ⊥

pub Returns-inv {ℓ} :
    {A : Type ℓ} (P : A → Type 0) (r : Run A) → Returns P r → (a : A) × (r ≡ ok a) × P a
Returns-inv P (ok a) p = (a, refl, p)
Returns-inv P (err e) p = elim p [ ]
Returns-inv P panic p = elim p [ ]
Returns-inv P out_of_fuel p = elim p [ ]

pub Returns-map {ℓ} :
    {A : Type ℓ} (P : A → Type 0) (Q : A → Type 0) (r : Run A)
    → ((a : A) → P a → Q a)
    → Returns P r
    → Returns Q r
Returns-map P Q (ok a) f p = f a p
Returns-map P Q (err e) f p = elim p [ ]
Returns-map P Q panic f p = elim p [ ]
Returns-map P Q out_of_fuel f p = elim p [ ]

pub Returns-bind {ℓ ℓ'} :
    {A : Type ℓ} {B : Type ℓ'} (P : A → Type 0) (Q : B → Type 0) (r : Run A) (f : A → Run B)
    → ((a : A) → P a → Returns Q (f a))
    → Returns P r
    → Returns Q (r >>= f)
Returns-bind P Q (ok a) f k p = k a p
Returns-bind P Q (err e) f k p = elim p [ ]
Returns-bind P Q panic f k p = elim p [ ]
Returns-bind P Q out_of_fuel f k p = elim p [ ]

pub ReturnsOrErr-bind {ℓ ℓ'} :
    {A : Type ℓ} {B : Type ℓ'} (P : A → Type 0) (Q : B → Type 0) (r : Run A) (f : A → Run B)
    → ((a : A) → P a → ReturnsOrErr Q (f a))
    → ReturnsOrErr P r
    → ReturnsOrErr Q (r >>= f)
ReturnsOrErr-bind P Q (ok a) f k p = k a p
ReturnsOrErr-bind P Q (err e) f k p = tt
ReturnsOrErr-bind P Q panic f k p = elim p [ ]
ReturnsOrErr-bind P Q out_of_fuel f k p = elim p [ ]

pub ReturnsOrErr-map {ℓ} :
    {A : Type ℓ} (P : A → Type 0) (Q : A → Type 0) (r : Run A)
    → ((a : A) → P a → Q a)
    → ReturnsOrErr P r
    → ReturnsOrErr Q r
ReturnsOrErr-map P Q (ok a) f p = f a p
ReturnsOrErr-map P Q (err e) f p = tt
ReturnsOrErr-map P Q panic f p = elim p [ ]
ReturnsOrErr-map P Q out_of_fuel f p = elim p [ ]
