-- ===== src/Hints/Recorded.antt =====
-- What recording a hint keeps (src/internal/hints.rs): a value with a hint is marked as such.
use regalloc.Base.{
  ℕ, suc, ◌/◌, ◌^◌, ◌<◌, ◌≤◌, ◌≡◌, ap, ◌∙◌, true, Option, none, some, List, [], ◌∷◌, ◌++◌, ok,
  Returns, Returns-bind, Returns-map, All, arith,
}
use regalloc.Function.{Function, TerminatorKind}
use regalloc.EntitySet.{EntitySet, contains, insert}
use regalloc.EntitySet.Contents.{AreWords, capacity, Updated, insert-remove-Updated}
use regalloc.Hints.{Hint, Hints, incoming, outgoing, incoming_hints, def_hints, add_fixed_def}
use regalloc.Hints.Queries.{value_of}

value_of_incoming : (value at : ℕ) → at < 2 ^ 31 → incoming value at / 2 ^ 32 ≡ value
unfolding incoming
value_of_incoming value at lt = omega arith

pub value_of_outgoing : (value at : ℕ) → at < 2 ^ 31 → outgoing value at / 2 ^ 32 ≡ value
unfolding outgoing
value_of_outgoing value at lt = omega arith

pub All-append {ℓ} :
    {A : Type ℓ} (P : A → Type 0) (xs ys : List A) → All P xs → All P ys → All P (xs ++ ys)
All-append P [] ys h k = k
All-append P (x ∷ xs) ys h k = (h.0, All-append P xs ys h.1 k)

-- The value of each hint is in the set.
abbrev pub AreMarked : {Freq : Type 0} → EntitySet → List (Hint Freq) → Type 0
AreMarked has_hint hints = All (λ h. contains has_hint (value_of h) ≡ true) hints

-- For `n` values: each value with a hint is marked, and there is room for the marks.
pub record Recorded {Freq : Type 0} (n : ℕ) (s : Hints Freq) : Type 0 where
  pub words : AreWords s.has_hint.storage
  pub room : n ≤ capacity s.has_hint
  pub marked : AreMarked s.has_hint s.hints

-- The marks after one more.
pub record Marked (n x : ℕ) (old new : EntitySet) : Type 0 where
  pub words : AreWords new.storage
  pub room : n ≤ capacity new
  pub here : contains new x ≡ true
  pub kept : (y : ℕ) → contains old y ≡ true → contains new y ≡ true

pub insert-Marked :
    (n x : ℕ) (old : EntitySet)
    → AreWords old.storage
    → n ≤ capacity old
    → x < n
    → Returns (Marked n x old) (insert old x)
insert-Marked n x old w room lt =
    Returns-map (Updated true old x) (Marked n x old) (insert old x)
      (λ new u. record {
        words = u.words;
        room = omega (arith, u.size);
        here = u.contents x ∙ ground arith;
        kept = λ y e. u.contents y ∙ ground (arith, e);
      })
      (insert-remove-Updated old x w (omega arith)).0

-- The boundaries of blocks fit into a key.
abbrev pub BlocksFit : {Freq : Type 0} → Function Freq → Type 0
BlocksFit func =
    (block : ℕ) → ((func.block_insts block).from < 2 ^ 31) × ((func.block_insts block).to < 2 ^ 31)

module _ {Freq : Type 0} (n : ℕ) where
  AreMarked-kept :
      (old new : EntitySet) (hs : List (Hint Freq))
      → ((y : ℕ) → contains old y ≡ true → contains new y ≡ true)
      → AreMarked old hs
      → AreMarked new hs
  AreMarked-kept old new [] k w = tt
  AreMarked-kept old new (h ∷ hs) k w = (k (value_of h) w.0, AreMarked-kept old new hs k w.1)

  -- Each of the hints is one for the value `x`.
  abbrev pub AreOf : ℕ → List (Hint Freq) → Type 0
  AreOf x hs = All (λ (h : Hint Freq). value_of h ≡ x) hs

  AreOf-AreMarked :
      (s : EntitySet) (x : ℕ) (hs : List (Hint Freq))
      → contains s x ≡ true
      → AreOf x hs
      → AreMarked s hs
  AreOf-AreMarked s x [] e w = tt
  AreOf-AreMarked s x (h ∷ hs) e w = (ap (contains s) w.0 ∙ e, AreOf-AreMarked s x hs e w.1)

  -- One mark and hints for its value.
  pub extended :
      (s : Hints Freq) (x : ℕ) (hs : List (Hint Freq)) (new : EntitySet)
      → Recorded n s
      → AreOf x hs
      → Marked n x s.has_hint new
      → Recorded n (record { hints = s.hints ++ hs; has_hint = new })
  extended s x hs new w of m = record {
    words = m.words;
    room = m.room;
    marked =
        All-append (λ h. contains new (value_of h) ≡ true) s.hints hs
          (AreMarked-kept s.has_hint new s.hints m.kept w.marked)
          (AreOf-AreMarked new x hs m.here of);
  }

  incoming_hints-AreOf :
      (func : Function Freq) (x block reg : ℕ) (kind : TerminatorKind) (succs : List ℕ)
      → BlocksFit func
      → AreOf x (incoming_hints func x block reg kind succs)
  unfolding incoming_hints
  incoming_hints-AreOf func x block reg kind [] fit = tt
  incoming_hints-AreOf func x block reg kind (succ ∷ succs) fit = (
    value_of_incoming x (func.block_insts succ).from (fit succ).0,
    incoming_hints-AreOf func x block reg kind succs fit,
  )

  def_hints-AreOf :
      (func : Function Freq) (x block at reg : ℕ) (kind : Option TerminatorKind)
      → BlocksFit func
      → at < 2 ^ 28
      → AreOf x (def_hints func x block at reg kind)
  unfolding def_hints
  def_hints-AreOf func x block at reg none fit lt = (value_of_incoming x (suc at) (omega arith), tt)
  def_hints-AreOf func x block at reg (some kind) fit lt =
      incoming_hints-AreOf func x block reg kind (func.block_succs block) fit

  pub add_fixed_def-Recorded :
      (func : Function Freq) (x at reg : ℕ) (s : Hints Freq)
      → BlocksFit func
      → x < n
      → at < 2 ^ 28
      → Recorded n s
      → Returns
          (λ s'. Recorded n s' × (contains s'.has_hint x ≡ true))
          (add_fixed_def func x at reg s)
  unfolding add_fixed_def
  add_fixed_def-Recorded func x at reg s fit lt lt' w =
      let hs = def_hints func x (func.inst_block at) at reg (func.terminator_kind at) in
      Returns-bind (Marked n x s.has_hint) (λ s'. Recorded n s' × (contains s'.has_hint x ≡ true))
        (insert s.has_hint x)
        (λ has_hint. ok (record { hints = s.hints ++ hs; has_hint = has_hint }))
        (λ new m. (
          extended s x hs new w
              (def_hints-AreOf func x (func.inst_block at) at reg (func.terminator_kind at) fit lt')
              m,
          m.here,
        ))
        (insert-Marked n x s.has_hint w.words w.room lt)
