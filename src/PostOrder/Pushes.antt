-- ===== src/PostOrder/Pushes.antt =====
-- What pushing the successors of a block does to the stack, and how the work that is left falls
-- (src/debug_utils/postorder.rs).
use regalloc.Base.{
  ℕ, zero, suc, ◌+◌, ◌<◌, ◌≤◌, ◌≡◌, ◌≢◌, ◌⊎◌, inl, inr, refl, sym, ap, ◌∙◌, ◌==◌, Bool-cases, List,
  [], ◌∷◌, length, set, get_or, load-ok, Returns, Returns-map, In, All, arith,
}
use regalloc.Function.{Function}
use regalloc.PostOrder.{Visit, push_succs, work_left}

-- The blocks on the stack, by the kind of their visit.
abbrev pub firsts : List (Visit × ℕ) → List ℕ
firsts [] = []
firsts ((Visit.first, b) ∷ stack) = b ∷ firsts stack
firsts ((Visit.last, b) ∷ stack) = firsts stack

abbrev pub lasts : List (Visit × ℕ) → List ℕ
lasts [] = []
lasts ((Visit.first, b) ∷ stack) = lasts stack
lasts ((Visit.last, b) ∷ stack) = b ∷ lasts stack

-- The stack with blocks to visit pushed on it, one after the other.
abbrev pub push_all : List ℕ → List (Visit × ℕ) → List (Visit × ℕ)
push_all [] stack = stack
push_all (c ∷ cs) stack = push_all cs ((Visit.first, c) ∷ stack)

pub record Pushed (po succs : List ℕ) (stack stack' : List (Visit × ℕ)) : Type 0 where
  pub same_lasts : lasts stack' ≡ lasts stack
  pub kept : (c : ℕ) → In c (firsts stack) → In c (firsts stack')
  pub seen : (c : ℕ) → In c succs → (get_or po c 0 ≢ 0) ⊎ In c (firsts stack')
  pub only : (c : ℕ) → In c (firsts stack') → In c succs ⊎ In c (firsts stack)
  pub news : List ℕ
  pub pushed : stack' ≡ push_all news stack
  pub fresh : (c : ℕ) → In c news → In c succs
  pub done : (c : ℕ) → In c succs → (get_or po c 0 ≢ 0) ⊎ In c news
  pub bound : length stack' ≤ length succs + length stack

Pushed-skip :
    (po succs : List ℕ) (c : ℕ) (stack stack' : List (Visit × ℕ))
    → get_or po c 0 ≢ 0
    → Pushed po succs stack stack'
    → Pushed po (c ∷ succs) stack stack'
Pushed-skip po succs c stack stack' m w = record {
  same_lasts = w.same_lasts;
  kept = w.kept;
  seen = λ d h. elim h [
    | inl e ↦ inl (λ k. m (ap (λ z. get_or po z 0) (sym e) ∙ k))
    | inr h' ↦ w.seen d h'
  ];
  only = λ d h. elim (w.only d h) [ inl k ↦ inl (inr k) | inr k ↦ inr k ];
  news = w.news;
  pushed = w.pushed;
  fresh = λ d h. inr (w.fresh d h);
  done = λ d h. elim h [
    | inl e ↦ inl (λ k. m (ap (λ z. get_or po z 0) (sym e) ∙ k))
    | inr h' ↦ w.done d h'
  ];
  bound = omega (arith, w.bound);
}

Pushed-push :
    (po succs : List ℕ) (c : ℕ) (stack stack' : List (Visit × ℕ))
    → Pushed po succs ((Visit.first, c) ∷ stack) stack'
    → Pushed po (c ∷ succs) stack stack'
Pushed-push po succs c stack stack' w = record {
  same_lasts = w.same_lasts;
  kept = λ d h. w.kept d (inr h);
  seen = λ d h. elim h [ inl e ↦ inr (w.kept d (inl e)) | inr h' ↦ w.seen d h' ];
  only = λ d h. elim (w.only d h) [
    | inl k ↦ inl (inr k)
    | inr k ↦ elim k [ inl e ↦ inl (inl e) | inr k' ↦ inr k' ]
  ];
  news = c ∷ w.news;
  pushed = w.pushed;
  fresh = λ d h. elim h [ inl e ↦ inl e | inr h' ↦ inr (w.fresh d h') ];
  done = λ d h. elim h [
    | inl e ↦ inr (inl e)
    | inr h' ↦ elim (w.done d h') [ inl k ↦ inl k | inr k ↦ inr (inr k) ]
  ];
  bound = omega (arith, w.bound);
}

pub push_succs-Pushed :
    (po succs : List ℕ) (stack : List (Visit × ℕ))
    → All (λ c. c < length po) succs
    → Returns (Pushed po succs stack) (push_succs po succs stack)
unfolding push_succs
push_succs-Pushed po [] stack h = record {
  same_lasts = refl;
  kept = λ c k. k;
  seen = λ c k. elim k [ ];
  only = λ c k. inr k;
  news = [];
  pushed = refl;
  fresh = λ c k. elim k [ ];
  done = λ c k. elim k [ ];
  bound = omega arith;
}
push_succs-Pushed po (c ∷ succs) stack h = elim (Bool-cases (get_or po c 0 == 0)) [
  | inl e ↦
      rw (load-ok po c 0 h.0, e)
        (Returns-map (Pushed po succs ((Visit.first, c) ∷ stack)) (Pushed po (c ∷ succs) stack)
          (push_succs po succs ((Visit.first, c) ∷ stack))
          (λ stack' w. Pushed-push po succs c stack stack' w)
          (push_succs-Pushed po succs ((Visit.first, c) ∷ stack) h.1))
  | inr e ↦
      let m : get_or po c 0 ≢ 0 = λ k. ground (arith, e, k) in
      rw (load-ok po c 0 h.0, e)
        (Returns-map (Pushed po succs stack) (Pushed po (c ∷ succs) stack)
          (push_succs po succs stack) (λ stack' w. Pushed-skip po succs c stack stack' m w)
          (push_succs-Pushed po succs stack h.1))
]

module _ {Freq : Type 0} (func : Function Freq) where
  -- A block that is seen for the first time takes its share from the work that is left.
  pub work_left-seen :
      (start b number : ℕ) (po : List ℕ)
      → b < length po
      → get_or po b 0 ≡ 0
      → number ≢ 0
      → work_left func start (set po b number) + suc (length (func.block_succs (start + b)))
        ≡ work_left func start po
  unfolding work_left
  work_left-seen start b number [] lt e ne = absurd (omega arith)
  work_left-seen start zero number (x ∷ po) lt e ne =
      let at : start + 0 ≡ start = omega arith in rw (at) (ground (arith, e, ne))
  work_left-seen start (suc b) number (x ∷ po) lt e ne =
      let at : start + suc b ≡ suc start + b = omega arith in
      rw (at) (omega (arith, work_left-seen (suc start) b number po (omega arith) e ne))

  -- A change from one mark to another leaves it.
  pub work_left-marked :
      (start b number : ℕ) (po : List ℕ)
      → get_or po b 0 ≢ 0
      → number ≢ 0
      → work_left func start (set po b number) ≡ work_left func start po
  unfolding work_left
  work_left-marked start b number [] e ne = refl
  work_left-marked start zero number (x ∷ po) e ne = ground (arith, e, ne)
  work_left-marked start (suc b) number (x ∷ po) e ne =
      omega (arith, work_left-marked (suc start) b number po e ne)
