-- ===== src/Uses.antt =====
-- src/internal/uses.rs: `UseList`, a range of the array of uses with four flags in the top bits of
-- its two ends. A flag's bit is clear or set apart from the others, so `|` adds and `& !` subtracts.
pub mod Flags
pub mod Split
mod Examples
use regalloc.Base.{
  ℕ, zero, suc, ◌+◌, ◌-◌, ◌*◌, ◌/◌, ◌%◌, ◌^◌, ◌≤◌, ◌<◌, ◌≡◌, Bool, true, false, not, ltb, leb, ◌==◌,
  if◌then◌else◌, List, [], ◌∷◌, length, take, drop, Run, ok, panic, ◌>>=◌,
}

pub record UseList : Type 0 where
  pub from : ℕ
  pub to : ℕ

-- `word & (1 << k) != 0`.
unfoldable pub has_bit : ℕ → ℕ → Bool
has_bit k word = word / 2 ^ k % 2 == 1

-- `word |= 1 << k` where `val`, and `word &= !(1 << k)` otherwise.
unfoldable pub set_bit : ℕ → Bool → ℕ → ℕ
unfolding has_bit
set_bit k true word = if has_bit k word then word else word + 2 ^ k
set_bit k false word = if has_bit k word then word - 2 ^ k else word

-- `USE_INDEX_LIVE_IN` and `USE_INDEX_LIVE_OUT` are bit 31 of the two ends, `USE_INDEX_FIXED_HINT` and
-- `USE_INDEX_FIXED_DEF` are bit 30, and `USE_INDEX_MASK` is the 30 bits below.
abbrev pub live_bit : ℕ
live_bit = 31

abbrev pub fixed_bit : ℕ
fixed_bit = 30

abbrev pub masked : ℕ → ℕ
masked word = word % 2 ^ 30

unfoldable pub has_livein : UseList → Bool
unfolding has_bit
has_livein u = has_bit live_bit u.from

unfoldable pub has_liveout : UseList → Bool
unfolding has_bit
has_liveout u = has_bit live_bit u.to

unfoldable pub has_fixedhint : UseList → Bool
unfolding has_bit
has_fixedhint u = has_bit fixed_bit u.to

unfoldable pub has_fixeddef : UseList → Bool
unfolding has_bit
has_fixeddef u = has_bit fixed_bit u.from

unfoldable pub set_livein : Bool → UseList → UseList
unfolding set_bit
set_livein val u = record u { from = set_bit live_bit val u.from }

unfoldable pub set_liveout : Bool → UseList → UseList
unfolding set_bit
set_liveout val u = record u { to = set_bit live_bit val u.to }

unfoldable pub set_fixedhint : Bool → UseList → UseList
unfolding set_bit
set_fixedhint val u = record u { to = set_bit fixed_bit val u.to }

unfoldable pub set_fixeddef : Bool → UseList → UseList
unfolding set_bit
set_fixeddef val u = record u { from = set_bit fixed_bit val u.from }

-- `UseList::split_at_index`.
unfoldable pub split_at_index : UseList → ℕ → UseList × UseList
unfolding set_bit has_fixeddef set_fixeddef
split_at_index u mid =
    let first : UseList = record { from = u.from; to = mid } in
    (
      if has_fixeddef u then set_fixeddef true first else first,
      record { from = mid; to = set_bit fixed_bit false u.to },
    )

module _ {ℓ} {A : Type ℓ} where
  -- `uses[u]`: the slice from the one masked end to the other, which panics out of range.
  unfoldable pub slice : UseList → List A → Run (List A)
  slice u uses =
      if leb (masked u.from) (masked u.to)
      then (if leb (masked u.to) (length uses)
          then ok (take (masked u.to - masked u.from) (drop (masked u.from) uses))
          else panic)
      else panic

-- `partition_point`, on a slice where the test holds of a prefix: the length of that prefix.
unfoldable pub partition_point {ℓ} : {A : Type ℓ} → (A → Bool) → List A → ℕ
partition_point p [] = 0
partition_point p (x ∷ xs) = if p x then suc (partition_point p xs) else 0

-- `UseList::split_at_inst`. Of a use only its position matters here: `pos` reads it.
unfoldable pub split_at_inst {ℓ} :
    {A : Type ℓ} → (A → ℕ) → UseList → ℕ → List A → Run (UseList × UseList)
unfolding slice partition_point split_at_index set_liveout set_livein
split_at_inst pos u split_at uses = do
  used ← slice u uses
  let split_index = partition_point (λ x. ltb (pos x) split_at) used
  let (first, second) = split_at_index u (masked u.from + split_index)
  ok (set_liveout true first, set_livein true second)
