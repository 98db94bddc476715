-- ===== src/Uses/Examples.antt =====
-- Tests of src/internal/uses.rs, and the theorems at inputs.
use regalloc.Base.{ℕ, ◌≡◌, refl, ◌+◌, ◌^◌, true, List, [], ◌∷◌, ok, panic, Returns, arith}
use regalloc.Uses.{UseList, split_at_inst, set_livein, set_liveout, set_fixedhint, set_fixeddef}
use regalloc.Uses.Flags.{view, setters-view}
use regalloc.Uses.Split.{uses_of, IsSplit, split_at_inst-IsSplit}

-- The uses 1 to 3 of an array of positions, with a hint and a fixed definition.
abbrev list : UseList
list = record { from = 1 + 2 ^ 30; to = 4 + 2 ^ 30 }

abbrev positions : List ℕ
positions = 2 ∷ 5 ∷ 7 ∷ 9 ∷ 11 ∷ []

split_runs :
    split_at_inst (λ p. p) list 8 positions
    ≡ ok (record { from = 1 + 2 ^ 30; to = 3 + 2 ^ 31 }, record { from = 3 + 2 ^ 31; to = 4 })
unfolding split_at_inst
split_runs = refl

short_runs : split_at_inst (λ p. p) list 8 (2 ∷ 5 ∷ []) ≡ panic
unfolding split_at_inst
short_runs = refl

setters-view_example :
    (view (set_livein true list) ≡ record (view list) { livein = true })
    × (view (set_liveout true list) ≡ record (view list) { liveout = true })
    × (view (set_fixedhint true list) ≡ record (view list) { fixedhint = true })
    × (view (set_fixeddef true list) ≡ record (view list) { fixeddef = true })
setters-view_example = setters-view true list (omega arith)

split_at_inst-IsSplit_example :
    Returns
      (λ (first, second). IsSplit (λ p. p) list 8 positions first second)
      (split_at_inst (λ p. p) list 8 positions)
unfolding uses_of
split_at_inst-IsSplit_example =
    split_at_inst-IsSplit (λ p. p) list 8 positions 0 (omega arith) (omega arith)
