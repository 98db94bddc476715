-- ===== src/Hints.antt =====
-- src/internal/hints.rs: hints for a fixed register, each at an instruction boundary, and how they are
-- recorded and found. A value, instruction or register is its index; `Freq` is the type of weights.
pub mod Ranges
pub mod Queries
pub mod Recorded
pub mod Outgoing
mod Examples
use regalloc.Base.{
  ℕ, zero, suc, ◌+◌, ◌-◌, ◌*◌, ◌%◌, ◌^◌, ltb, leb, ◌==◌, if◌then◌else◌, Bool, true, false, ◌&&◌,
  Option, none, some, List, [], ◌∷◌, ◌++◌, map, length, drop, get_elem?, load, Run, ok, ◌>>=◌,
}
use regalloc.LiveRange.{LiveRangeSegment, inst, round_to_next_inst}
use regalloc.Function.{Function, TerminatorKind}
use regalloc.EntitySet
use regalloc.EntitySet.{EntitySet, contains, insert, clear_and_resize}

-- `HintKey::incoming` and `outgoing`. An instruction has less than 31 bits (`MAX_INSTS` of
-- src/function.rs), so the fields lie apart and `|` adds.
unfoldable pub incoming : ℕ → ℕ → ℕ
incoming value at = value * 2 ^ 32 + at * 2 + 1

unfoldable pub outgoing : ℕ → ℕ → ℕ
outgoing value at = value * 2 ^ 32 + at * 2

pub record Hint (Freq : Type 0) : Type 0 where
  pub key : ℕ
  pub reg : ℕ
  pub weight : Freq

pub record Hints (Freq : Type 0) : Type 0 where
  pub hints : List (Hint Freq)
  pub has_hint : EntitySet

-- `kind == TerminatorKind::Jump`.
abbrev pub is_jump : TerminatorKind → Bool
is_jump TerminatorKind.jump = true
is_jump TerminatorKind.branch = false
is_jump TerminatorKind.ret = false

-- `slice::partition_point`: how many elements come before the first that fails the test.
unfoldable pub partition_point {ℓ} : {A : Type ℓ} → (A → Bool) → List A → ℕ
partition_point p [] = 0
partition_point p (x ∷ xs) = if p x then suc (partition_point p xs) else 0

-- `Iterator::take_while`.
unfoldable pub take_while {ℓ} : {A : Type ℓ} → (A → Bool) → List A → List A
take_while p [] = []
take_while p (x ∷ xs) = if p x then x ∷ take_while p xs else []

module _ {Freq : Type 0} where
  unfoldable pub new : Hints Freq
  unfolding EntitySet.new
  new = record { hints = []; has_hint = EntitySet.new }

  -- `sort_hints`; `sort` is the unstable sort by key of the standard library.
  unfoldable pub sort_hints : (List (Hint Freq) → List (Hint Freq)) → Hints Freq → Hints Freq
  sort_hints sort s = record s { hints = sort s.hints }

  unfoldable pub clear : Function Freq → Hints Freq → Hints Freq
  clear func s = record { hints = []; has_hint = clear_and_resize s.has_hint func.num_values }

  -- The hints of a definition by a terminator, one for each successor.
  unfoldable pub incoming_hints :
      Function Freq → ℕ → ℕ → ℕ → TerminatorKind → List ℕ → List (Hint Freq)
  incoming_hints func value block reg kind succs =
      map
        (λ succ. record {
          key = incoming value (func.block_insts succ).from;
          reg = reg;
          weight = func.block_frequency (if is_jump kind then block else succ);
        })
        succs

  unfoldable pub def_hints :
      Function Freq → ℕ → ℕ → ℕ → ℕ → Option TerminatorKind → List (Hint Freq)
  unfolding incoming_hints
  def_hints func value block at reg (some kind) =
      incoming_hints func value block reg kind (func.block_succs block)
  def_hints func value block at reg none =
      record { key = incoming value (suc at); reg = reg; weight = func.block_frequency block } ∷ []

  unfoldable pub add_fixed_def : Function Freq → ℕ → ℕ → ℕ → Hints Freq → Run (Hints Freq)
  unfolding def_hints
  add_fixed_def func value at reg s = do
    has_hint ← insert s.has_hint value
    ok (record {
      hints = s.hints ++ def_hints func value (func.inst_block at) at reg (func.terminator_kind at);
      has_hint = has_hint;
    })

  -- The value that a block parameter has on the edge from `pred`, put into `has_hint`, or the value
  -- itself where the use is no block parameter.
  unfoldable pub value_on_edge : Function Freq → ℕ → Option ℕ → ℕ → EntitySet → Run (ℕ × EntitySet)
  value_on_edge func value none pred has_hint = ok (value, has_hint)
  value_on_edge func value (some idx) pred has_hint = do
    value' ← load (func.jump_blockparams pred) idx
    has_hint' ← insert has_hint value'
    ok (value', has_hint')

  -- The loop over the predecessors, those that are left.
  unfoldable pub outgoing_loop :
      Function Freq → ℕ → ℕ → ℕ → Option ℕ → Bool → List ℕ → Hints Freq → Run (Hints Freq)
  outgoing_loop func value block reg idx jumps [] s = ok s
  outgoing_loop func value block reg idx jumps (pred ∷ preds) s = do
    (value', has_hint) ← value_on_edge func value idx pred s.has_hint
    outgoing_loop func value block reg idx jumps preds (record {
      hints =
          s.hints
          ++ record {
            key = outgoing value' (func.block_insts pred).to;
            reg = reg;
            weight = func.block_frequency (if jumps then pred else block);
          }
            ∷ [];
      has_hint = has_hint;
    })

  -- The insertion after the loop, where the use is no block parameter.
  unfoldable pub insert_unless : Option ℕ → ℕ → Hints Freq → Run (Hints Freq)
  insert_unless (some idx) value s = ok s
  insert_unless none value s = do
    has_hint ← insert s.has_hint value
    ok (record s { has_hint = has_hint })

  unfoldable pub add_fixed_use :
      Function Freq → ℕ → ℕ → ℕ → Option ℕ → Hints Freq → Run (Hints Freq)
  add_fixed_use func value at reg idx s =
      let block = func.inst_block at in
      let preds = func.block_preds block in
      if at == (func.block_insts block).from
      then (do
        s' ← outgoing_loop func value block reg idx (ltb 1 (length preds)) preds s
        insert_unless idx value s')
      else insert_unless none value (record s {
        hints =
            s.hints
            ++ record { key = outgoing value at; reg = reg; weight = func.block_frequency block }
              ∷ [];
      })

  unfoldable pub has_fixed_hint : Hints Freq → ℕ → Bool
  has_fixed_hint s value = contains s.has_hint value

  unfoldable pub hints_for_segment : Hints Freq → ℕ → LiveRangeSegment → List (Hint Freq)
  unfolding incoming outgoing inst round_to_next_inst partition_point take_while
  hints_for_segment s value seg =
      let start = incoming value (inst seg.from) in
      let end = outgoing value (inst (round_to_next_inst seg.to)) in
      let from = partition_point (λ hint. ltb hint.key start) s.hints in
      take_while (λ hint. leb hint.key end) (drop from s.hints)

  -- `mid != 0 && self.hints[mid - 1].key >= start`.
  unfoldable pub any_before : List (Hint Freq) → ℕ → ℕ → Run Bool
  any_before hints mid start =
      if mid == 0 then ok false else (do hint ← load hints (mid - 1); ok (leb start hint.key))

  -- `self.hints.get(mid).is_some_and(|hint| hint.key <= end)`.
  unfoldable pub any_at : List (Hint Freq) → ℕ → ℕ → Bool
  any_at hints mid end = elim (get_elem? hints mid) [ none ↦ false | some hint ↦ leb hint.key end ]

  unfoldable pub hints_for_split : Hints Freq → ℕ → LiveRangeSegment → ℕ → Run (Bool × Bool)
  unfolding incoming outgoing inst round_to_next_inst partition_point any_before any_at
  hints_for_split s value seg split_at = do
    let start = incoming value (inst seg.from)
    let end = outgoing value (inst (round_to_next_inst seg.to))
    let mid_key = incoming value split_at
    let mid = partition_point (λ hint. ltb hint.key mid_key) s.hints
    first ← any_before s.hints mid start
    ok (first, any_at s.hints mid end)
