-- ===== src/Uses/Flags.antt =====
-- The flags of a `UseList` (src/internal/uses.rs).
use regalloc.Base.{ℕ, ◌^◌, ◌<◌, ◌≡◌, Bool, true, false, arith}
use regalloc.Uses.{
  UseList, masked, has_livein, has_liveout, has_fixedhint, has_fixeddef, set_livein, set_liveout,
  set_fixedhint, set_fixeddef,
}

-- Both ends are `u32`s.
pub record IsWord (u : UseList) : Type 0 where
  pub from_word : u.from < 2 ^ 32
  pub to_word : u.to < 2 ^ 32

-- The flags and the two masked ends: all that a `UseList` tells.
pub record View : Type 0 where
  pub livein : Bool
  pub liveout : Bool
  pub fixedhint : Bool
  pub fixeddef : Bool
  pub start : ℕ
  pub end : ℕ

unfoldable pub view : UseList → View
view u = record {
  livein = has_livein u;
  liveout = has_liveout u;
  fixedhint = has_fixedhint u;
  fixeddef = has_fixeddef u;
  start = masked u.from;
  end = masked u.to;
}

-- On a list whose ends are words of 32 bits each setter writes its own flag, and no other flag and
-- neither end of the range changes.
pub setters-view :
    (val : Bool) (u : UseList)
    → IsWord u
    → (view (set_livein val u) ≡ record (view u) { livein = val })
      × (view (set_liveout val u) ≡ record (view u) { liveout = val })
      × (view (set_fixedhint val u) ≡ record (view u) { fixedhint = val })
      × (view (set_fixeddef val u) ≡ record (view u) { fixeddef = val })
unfolding view set_livein set_liveout set_fixedhint set_fixeddef has_livein has_liveout
    has_fixedhint has_fixeddef
setters-view true u w = (ground arith, ground arith, ground arith, ground arith)
setters-view false u w = (ground arith, ground arith, ground arith, ground arith)

-- So words stay words.
pub setters-IsWord :
    (val : Bool) (u : UseList)
    → IsWord u
    → IsWord (set_livein val u)
      × IsWord (set_liveout val u)
      × IsWord (set_fixedhint val u)
      × IsWord (set_fixeddef val u)
unfolding set_livein set_liveout set_fixedhint set_fixeddef
setters-IsWord true u w = (ground arith, ground arith, ground arith, ground arith)
setters-IsWord false u w = (ground arith, ground arith, ground arith, ground arith)
