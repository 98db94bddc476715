-- ===== src/Hints/Outgoing.antt =====
-- Recording the hints of a fixed use (`add_fixed_use` of src/internal/hints.rs).
use regalloc.Base.{
  ℕ, ◌^◌, ◌<◌, ◌≡◌, inl, inr, sym, ap, ◌∙◌, ltb, ◌==◌, if◌then◌else◌, Bool, true, Bool-cases,
  Option, none, some, List, [], ◌∷◌, ◌++◌, length, load, ok, ◌>>=◌, Returns, Returns-bind,
  Returns-map, All, arith,
}
use mathlib.Core.List.{append-nil, append_assoc}
use regalloc.Function.{Function}
use regalloc.EntitySet.{contains, insert}
use regalloc.EntitySet.Contents.{grow_to-Resized}
use regalloc.Hints.{
  Hint, Hints, outgoing, clear, add_fixed_def, value_on_edge, outgoing_loop, insert_unless,
  add_fixed_use,
}
use regalloc.Hints.Recorded.{
  Recorded, Marked, BlocksFit, AreOf, insert-Marked, extended, value_of_outgoing,
  add_fixed_def-Recorded,
}

-- The value that a block parameter has on an edge is a value of the function.
abbrev pub EdgeFits : {Freq : Type 0} → ℕ → Function Freq → Option ℕ → ℕ → Type 0
EdgeFits n func none pred = Unit
EdgeFits n func (some idx) pred = Returns (λ v. v < n) (load (func.jump_blockparams pred) idx)

module _ {Freq : Type 0} (n : ℕ) (func : Function Freq) (fit : BlocksFit func) where
  -- Without a block parameter the loop only adds hints for the value.
  plain_loop :
      (x block reg : ℕ) (jumps : Bool) (preds : List ℕ) (s : Hints Freq)
      → (hs : List (Hint Freq)) × (outgoing_loop func x block reg none jumps preds s
          ≡ ok (record s { hints = s.hints ++ hs }))
        × AreOf n x hs
  unfolding outgoing_loop value_on_edge
  plain_loop x block reg jumps [] s =
      ([], ap (λ z. ok (record s { hints = z })) (sym (append-nil s.hints)), tt)
  plain_loop x block reg jumps (pred ∷ preds) s =
      let h : Hint Freq = record {
        key = outgoing x (func.block_insts pred).to;
        reg = reg;
        weight = func.block_frequency (if jumps then pred else block);
      } in
      let (hs, e, of) =
        plain_loop x block reg jumps preds (record s { hints = s.hints ++ h ∷ [] }) in
      (
        h ∷ hs,
        e ∙ ap (λ z. ok (record s { hints = z })) (append_assoc s.hints (h ∷ []) hs),
        (value_of_outgoing x (func.block_insts pred).to (fit pred).1, of),
      )

  insert_unless-Recorded :
      (x : ℕ) (s : Hints Freq) (hs : List (Hint Freq))
      → x < n
      → AreOf n x hs
      → Recorded n s
      → Returns
          (λ s'. Recorded n s' × (contains s'.has_hint x ≡ true))
          (insert_unless none x (record s { hints = s.hints ++ hs }))
  unfolding insert_unless
  insert_unless-Recorded x s hs lt of w =
      Returns-bind (Marked n x s.has_hint) (λ s'. Recorded n s' × (contains s'.has_hint x ≡ true))
        (insert s.has_hint x)
        (λ has_hint. ok (record { hints = s.hints ++ hs; has_hint = has_hint }))
        (λ new m. (extended n s x hs new w of m, m.here))
        (insert-Marked n x s.has_hint w.words w.room lt)

  on_edge :
      (x idx pred : ℕ) (s : Hints Freq)
      → EdgeFits n func (some idx) pred
      → Recorded n s
      → Returns
          (λ (v, new). Marked n v s.has_hint new)
          (value_on_edge func x (some idx) pred s.has_hint)
  unfolding value_on_edge
  on_edge x idx pred s edge w =
      Returns-bind (λ v. v < n) (λ (v, new). Marked n v s.has_hint new)
        (load (func.jump_blockparams pred) idx) (λ v. insert s.has_hint v >>= λ new. ok (v, new))
        (λ v lt.
          Returns-bind (Marked n v s.has_hint) (λ (v, new). Marked n v s.has_hint new)
            (insert s.has_hint v) (λ new. ok (v, new)) (λ new m. m)
            (insert-Marked n v s.has_hint w.words w.room lt))
        edge

  -- With a block parameter each round marks the value of its edge.
  edge_loop-Recorded :
      (x block reg idx : ℕ) (jumps : Bool) (preds : List ℕ) (s : Hints Freq)
      → All (EdgeFits n func (some idx)) preds
      → Recorded n s
      → Returns (Recorded n) (outgoing_loop func x block reg (some idx) jumps preds s)
  unfolding outgoing_loop
  edge_loop-Recorded x block reg idx jumps [] s edges w = w
  edge_loop-Recorded x block reg idx jumps (pred ∷ preds) s edges w =
      Returns-bind (λ (v, new). Marked n v s.has_hint new) (Recorded n)
        (value_on_edge func x (some idx) pred s.has_hint)
        (λ (v, new). outgoing_loop func x block reg (some idx) jumps preds (record {
          hints =
              s.hints
              ++ record {
                key = outgoing v (func.block_insts pred).to;
                reg = reg;
                weight = func.block_frequency (if jumps then pred else block);
              }
                ∷ [];
          has_hint = new;
        }))
        (λ (v, new) m. edge_loop-Recorded x block reg idx jumps preds _ edges.1 (
          extended n s v _ new w (value_of_outgoing v (func.block_insts pred).to (fit pred).1, tt)
            m))
        (on_edge x idx pred s edges.0 w)

  kept_as_is :
      (x idx : ℕ) (s : Hints Freq)
      → Recorded n s
      → Returns (Recorded n) (insert_unless (some idx) x s)
  unfolding insert_unless
  kept_as_is x idx s w = w

  -- The case of an instruction that starts its block.
  at_start :
      (x block reg : ℕ) (idx : Option ℕ) (jumps : Bool) (preds : List ℕ) (s : Hints Freq)
      → x < n
      → All (EdgeFits n func idx) preds
      → Recorded n s
      → Returns
          (Recorded n)
          (outgoing_loop func x block reg idx jumps preds s >>= insert_unless idx x)
  at_start x block reg none jumps preds s lt edges w =
      let (hs, e, of) = plain_loop x block reg jumps preds s in
      rw (e) (
        Returns-map (λ s'. Recorded n s' × (contains s'.has_hint x ≡ true)) (Recorded n)
          (insert_unless none x (record s { hints = s.hints ++ hs })) (λ s' w'. w'.0)
          (insert_unless-Recorded x s hs lt of w))
  at_start x block reg (some idx) jumps preds s lt edges w =
      Returns-bind (Recorded n) (Recorded n)
        (outgoing_loop func x block reg (some idx) jumps preds s) (insert_unless (some idx) x)
        (λ s' w'. kept_as_is x idx s' w') (edge_loop-Recorded x block reg idx jumps preds s edges w)

  add_fixed_use-Recorded :
      (x at reg : ℕ) (idx : Option ℕ) (s : Hints Freq)
      → x < n
      → at < 2 ^ 28
      → All (EdgeFits n func idx) (func.block_preds (func.inst_block at))
      → Recorded n s
      → Returns (Recorded n) (add_fixed_use func x at reg idx s)
  unfolding add_fixed_use
  add_fixed_use-Recorded x at reg idx s lt lt' edges w =
      let block = func.inst_block at in
      elim (Bool-cases (at == (func.block_insts block).from)) [
        | inl e ↦ rw (e) (
            at_start x block reg idx (ltb 1 (length (func.block_preds block)))
              (func.block_preds block) s lt edges w)
        | inr e ↦
            let hs : List (Hint Freq) =
              record { key = outgoing x at; reg = reg; weight = func.block_frequency block } ∷ [] in
            rw (e) (
              Returns-map (λ s'. Recorded n s' × (contains s'.has_hint x ≡ true)) (Recorded n)
                (insert_unless none x (record s { hints = s.hints ++ hs })) (λ s' w'. w'.0)
                (insert_unless-Recorded x s hs lt (value_of_outgoing x at (omega arith), tt) w))
      ]

-- On a function with less than 2 ^ 28 instructions, for values among those of the function and block
-- parameters that are there on each incoming edge: `add_fixed_def` and `add_fixed_use` return, and they
-- keep every value with a hint marked, with room for all marks. `add_fixed_def` marks its value. `clear`
-- gives such a state again.
pub recording-Recorded :
    {Freq : Type 0} (func : Function Freq) (x at reg : ℕ) (idx : Option ℕ) (s : Hints Freq)
    → BlocksFit func
    → x < func.num_values
    → at < 2 ^ 28
    → All (EdgeFits func.num_values func idx) (func.block_preds (func.inst_block at))
    → Recorded func.num_values s
    → Returns
        (λ s'. Recorded func.num_values s' × (contains s'.has_hint x ≡ true))
        (add_fixed_def func x at reg s)
      × Returns (Recorded func.num_values) (add_fixed_use func x at reg idx s)
      × Recorded func.num_values (clear func s)
unfolding clear
recording-Recorded func x at reg idx s fit lt lt' edges w =
    let fresh = (grow_to-Resized s.has_hint func.num_values w.words).1 in
    (
      add_fixed_def-Recorded func.num_values func x at reg s fit lt lt' w,
      add_fixed_use-Recorded func.num_values func fit x at reg idx s lt lt' edges w,
      record { words = fresh.words; room = fresh.large_enough; marked = tt },
    )
