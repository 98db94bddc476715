-- ===== src/PostOrder/Invariant.antt =====
-- What a round of the traversal (src/debug_utils/postorder.rs) keeps.
use regalloc.Base.{
  ℕ, ◌<◌, ◌≡◌, ◌≢◌, ◌⊎◌, inl, inr, refl, sym, ap, ◌∙◌, List, [], ◌∷◌, ◌++◌, length, set, length-set,
  get_or, get_or-set, In, In-append_left, In-append_last, In-append-inv, IsNodup,
  IsNodup-append_last, All, ℕ_discrete, arith,
}
use mathlib.Core.Path.{subst}
use regalloc.Function.{Function}
use regalloc.PostOrder.{Visit, PostOrder}
use regalloc.PostOrder.Pushes.{firsts, lasts, Pushed}

-- There is a path from the entry block, block 0.
pub data Reaches {Freq : Type 0} (func : Function Freq) : ℕ → Type 0 where
  entry : Reaches func 0
  next : {b c : ℕ} → Reaches func b → In c (func.block_succs b) → Reaches func c

abbrev pub Marked : List ℕ → ℕ → Type 0
Marked po b = get_or po b 0 ≢ 0

-- What every round keeps: a block with a mark is reachable, and is listed or on the stack for its last
-- visit, once; the successors of such a block have a mark or wait on the stack.
pub record Inv {Freq : Type 0} (func : Function Freq) (s : PostOrder) : Type 0 where
  pub size : length s.po_number ≡ func.num_blocks
  pub closed :
      (b c : ℕ)
      → b < func.num_blocks
      → Marked s.po_number b
      → In c (func.block_succs b)
      → Marked s.po_number c ⊎ In c (firsts s.stack)
  pub entered : Marked s.po_number 0 ⊎ In 0 (firsts s.stack)
  pub reached : (b : ℕ) → b < func.num_blocks → Marked s.po_number b → Reaches func b
  pub ahead : (c : ℕ) → In c (firsts s.stack) → Reaches func c × (c < func.num_blocks)
  pub placed :
      (b : ℕ) → b < func.num_blocks → Marked s.po_number b → In b s.postorder ⊎ In b (lasts s.stack)
  pub listed : (b : ℕ) → In b s.postorder → (b < func.num_blocks) × Marked s.po_number b
  pub pending :
      (b : ℕ)
      → In b (lasts s.stack)
      → (b < func.num_blocks) × Marked s.po_number b × (¬ In b s.postorder)
  pub nodup : IsNodup s.postorder
  pub once : IsNodup (lasts s.stack)

Marked-set :
    (po : List ℕ) (b v c : ℕ)
    → b < length po
    → v ≢ 0
    → (c ≡ b) ⊎ Marked po c
    → Marked (set po b v) c
Marked-set po b v c lt ne (inl e) k = ground (arith, get_or-set po b c v 0, e, k, ne)
Marked-set po b v c lt ne (inr m) k = ground (arith, get_or-set po b c v 0, m, k, ne)

Marked-inv :
    (po : List ℕ) (b v c : ℕ) → b < length po → Marked (set po b v) c → (c ≡ b) ⊎ Marked po c
Marked-inv po b v c lt m = elim (ℕ_discrete c b) [
  | yes e ↦ inl e
  | no n ↦ inr (λ k. m (ground (arith, get_or-set po b c v 0, k, n)))
]

pub ne_zero : (v : ℕ) → 0 < v → v ≢ 0
ne_zero v lt k = absurd (omega arith)

pub All-In : (P : ℕ → Type 0) (xs : List ℕ) (c : ℕ) → All P xs → In c xs → P c
All-In P [] c h k = elim k [ ]
All-In P (x ∷ xs) c h (inl e) = subst P (sym e) h.0
All-In P (x ∷ xs) c h (inr k) = All-In P xs c h.1 k

module _ {Freq : Type 0} (func : Function Freq)
    (succs_inside : (b : ℕ)
      → b < func.num_blocks
      → All (λ c. c < func.num_blocks) (func.block_succs b)) where
  abbrev n : ℕ
  n = func.num_blocks

  abbrev pub at : List (Visit × ℕ) → List ℕ → List ℕ → PostOrder
  at stack l po = record { stack = stack; postorder = l; po_number = po }

  -- A block that has been seen is dropped.
  pub Inv-skip :
      (b : ℕ) (rest : List (Visit × ℕ)) (l po : List ℕ)
      → Marked po b
      → Inv func (at ((Visit.first, b) ∷ rest) l po)
      → Inv func (at rest l po)
  Inv-skip b rest l po m w = record {
    size = w.size;
    closed = λ c d lt k h. seen d (w.closed c d lt k h);
    entered = seen 0 w.entered;
    reached = w.reached;
    ahead = λ c h. w.ahead c (inr h);
    placed = w.placed;
    listed = w.listed;
    pending = w.pending;
    nodup = w.nodup;
    once = w.once;
  }
    where
      seen :
          (d : ℕ) → Marked po d ⊎ ((d ≡ b) ⊎ In d (firsts rest)) → Marked po d ⊎ In d (firsts rest)
      seen d (inl k) = inl k
      seen d (inr (inl e)) = inl (λ z. m (ap (λ x. get_or po x 0) (sym e) ∙ z))
      seen d (inr (inr h)) = inr h

  -- A block on its last visit is listed.
  pub Inv-last :
      (b v : ℕ) (rest : List (Visit × ℕ)) (l po : List ℕ)
      → v ≢ 0
      → Inv func (at ((Visit.last, b) ∷ rest) l po)
      → Inv func (at rest (l ++ b ∷ []) (set po b v))
  Inv-last b v rest l po ne w =
      let (lt, m, fresh) = w.pending b (inl refl) in
      let room : b < length po = rw (w.size) lt in
      let keep : (c : ℕ) → Marked po c → Marked (set po b v) c =
        λ c k. Marked-set po b v c room ne (inr k) in
      let back : (c : ℕ) → Marked (set po b v) c → Marked po c = λ c k.
        elim (Marked-inv po b v c room k) [ inl e ↦ subst (Marked po) (sym e) m | inr k' ↦ k' ] in
      record {
        size = length-set po b v ∙ w.size;
        closed = λ c d lt' k h. elim (w.closed c d lt' (back c k) h) [
          | inl k' ↦ inl (keep d k')
          | inr h' ↦ inr h'
        ];
        entered = elim w.entered [ inl k ↦ inl (keep 0 k) | inr h ↦ inr h ];
        reached = λ c lt' k. w.reached c lt' (back c k);
        ahead = w.ahead;
        placed = λ c lt' k. elim (w.placed c lt' (back c k)) [
          | inl h ↦ inl (In-append_left c l (b ∷ []) h)
          | inr h ↦ elim h [
            | inl e ↦ inl (subst (λ z. In z (l ++ b ∷ [])) (sym e) (In-append_last b l))
            | inr h' ↦ inr h'
          ]
        ];
        listed = λ c h. elim (In-append-inv c b l h) [
          | inl h' ↦ ((w.listed c h').0, keep c (w.listed c h').1)
          | inr e ↦ (subst (λ z. z < n) (sym e) lt, keep c (subst (Marked po) (sym e) m))
        ];
        pending = λ c h.
            let (lt', k, out) = w.pending c (inr h) in
            (
              lt',
              keep c k,
              λ h'. elim (In-append-inv c b l h') [
                | inl h'' ↦ out h''
                | inr e ↦ w.once.0 (subst (λ z. In z (lasts rest)) e h)
              ],
            );
        nodup = IsNodup-append_last b l w.nodup fresh;
        once = w.once.1;
      }

  -- A block is seen for the first time.
  pub Inv-first :
      (b : ℕ) (rest stack' : List (Visit × ℕ)) (l po : List ℕ)
      → get_or po b 0 ≡ 0
      → Inv func (at ((Visit.first, b) ∷ rest) l po)
      → Pushed (set po b 1) (func.block_succs b) ((Visit.last, b) ∷ rest) stack'
      → Inv func (at stack' l (set po b 1))
  Inv-first b rest stack' l po new w p =
      let (path, lt) = w.ahead b (inl refl) in
      let room : b < length po = rw (w.size) lt in
      let one : 1 ≢ 0 = ne_zero 1 (omega arith) in
      let keep : (c : ℕ) → Marked po c → Marked (set po b 1) c =
        λ c k. Marked-set po b 1 c room one (inr k) in
      let here : (c : ℕ) → c ≡ b → Marked (set po b 1) c =
        λ c k. Marked-set po b 1 c room one (inl k) in
      let follow : (c : ℕ)
          → Marked po c ⊎ ((c ≡ b) ⊎ In c (firsts rest))
          → Marked (set po b 1) c ⊎ In c (firsts stack') =
        λ c h. elim h [
          | inl k ↦ inl (keep c k)
          | inr h' ↦ elim h' [ inl e ↦ inl (here c e) | inr h'' ↦ inr (p.kept c h'') ]
        ] in
      record {
        size = length-set po b 1 ∙ w.size;
        closed = λ c d lt' k h. elim (Marked-inv po b 1 c room k) [
          | inl e ↦ p.seen d (subst (λ z. In d (func.block_succs z)) e h)
          | inr k' ↦ follow d (w.closed c d lt' k' h)
        ];
        entered = follow 0 w.entered;
        reached = λ c lt' k. elim (Marked-inv po b 1 c room k) [
          | inl e ↦ subst (Reaches func) (sym e) path
          | inr k' ↦ w.reached c lt' k'
        ];
        ahead = λ c h. elim (p.only c h) [
          | inl h' ↦ (
            Reaches.next path h',
            All-In (λ z. z < n) (func.block_succs b) c (succs_inside b lt) h',
          )
          | inr h' ↦ w.ahead c (inr h')
        ];
        placed = λ c lt' k. elim (Marked-inv po b 1 c room k) [
          | inl e ↦ inr (subst (In c) (sym p.same_lasts) (inl e))
          | inr k' ↦ elim (w.placed c lt' k') [
            | inl h ↦ inl h
            | inr h ↦ inr (subst (In c) (sym p.same_lasts) (inr h))
          ]
        ];
        listed = λ c h. ((w.listed c h).0, keep c (w.listed c h).1);
        pending = λ c h. elim (subst (In c) p.same_lasts h) [
          | inl e ↦ (
            subst (λ z. z < n) (sym e) lt,
            here c e,
            λ h'. (w.listed c h').1 (ap (λ z. get_or po z 0) e ∙ new),
          )
          | inr h' ↦ let (lt', k, out) = w.pending c h' in (lt', keep c k, out)
        ];
        nodup = w.nodup;
        once = subst IsNodup (sym p.same_lasts) (λ h. (w.pending b h).1 new, w.once);
      }
