-- ===== src/SpillAllocator/Retain.antt =====
-- What `active_sets.retain(..)` leaves (src/internal/spill_allocator.rs).
use regalloc.Base.{
  ℕ, suc, ◌+◌, ◌≤◌, ◌<◌, ◌≡◌, ◌⊎◌, inl, inr, refl, sym, false, leb, ◌==◌, if◌then◌else◌, List, [],
  ◌∷◌, length, get_or, load-ok, ok, Returns, Returns-inv, Returns-map, In, count, arith, Bool-cases,
  ℕ_discrete,
}
use regalloc.LiveRange.{LiveRangeSegment}
use regalloc.SpillAllocator.{SpillData, retain}

-- Read past the end of `sets`: no theorem depends on it.
abbrev pub blank : SpillData
blank = record {
  size = 0;
  live_range_union = record { from = 0; to = 0 };
  slot = 0;
  spilled = false;
}

abbrev pub range_of : List SpillData → ℕ → LiveRangeSegment
range_of sets i = (get_or sets i blank).live_range_union

abbrev pub size_of : List SpillData → ℕ → ℕ
size_of sets i = (get_or sets i blank).size

abbrev pub slot_of : List SpillData → ℕ → ℕ
slot_of sets i = (get_or sets i blank).slot

-- How many of these sets hold the slot.
abbrev pub held : List SpillData → ℕ → List ℕ → ℕ
held sets s [] = 0
held sets s (a ∷ active) =
    if s == slot_of sets a then suc (held sets s active) else held sets s active

-- What `retain` leaves: each slot is in as many hands as before, and one that was given back was
-- available before or belongs to a set that has ended.
pub record Retained (sets : List SpillData) (from : ℕ) (active available kept available' : List ℕ)
    : Type 0 where
  pub kept_active : (a : ℕ) → In a kept → In a active
  pub hands :
      (s : ℕ) → count s available' + held sets s kept ≡ count s available + held sets s active
  pub given :
      (s : ℕ)
      → 0 < count s available'
      → (0 < count s available)
        ⊎ ((a : ℕ) × In a active × (slot_of sets a ≡ s) × ((range_of sets a).to ≤ from))

module _ (sets : List SpillData) (from a : ℕ) (active available : List ℕ)
    (h : a < length sets) where
  retain-end :
      (range_of sets a).to ≤ from
      → retain sets from (a ∷ active) available
        ≡ retain sets from active (slot_of sets a ∷ available)
  unfolding retain
  retain-end e = ground (arith, load-ok sets a blank h)

  retain-keep :
      (kept available' : List ℕ)
      → from < (range_of sets a).to
      → retain sets from active available ≡ ok (kept, available')
      → retain sets from (a ∷ active) available ≡ ok (a ∷ kept, available')
  unfolding retain
  retain-keep kept available' e r = ground (arith, load-ok sets a blank h)

pub retain_retains :
    (sets : List SpillData) (from : ℕ) (active available : List ℕ)
    → ((a : ℕ) → In a active → a < length sets)
    → Returns
        (λ (k, v). Retained sets from active available k v)
        (retain sets from active available)
unfolding retain
retain_retains sets from [] available h = record {
  kept_active = λ a i. i;
  hands = λ s. refl;
  given = λ s p. inl p;
}
retain_retains sets from (a ∷ active) available h =
    elim (Bool-cases (leb (range_of sets a).to from)) [
      | inl e ↦ rw (retain-end sets from a active available (h a (inl refl)) (ground arith)) (
          Returns-map (λ (k, v). Retained sets from active (slot_of sets a ∷ available) k v)
            (λ (k, v). Retained sets from (a ∷ active) available k v) _
            (λ (k, v) r. record {
              kept_active = λ b i. inr (r.kept_active b i);
              hands = λ s. ground (arith, r.hands s);
              given = λ s p. elim (r.given s p) [
                | inl q ↦ elim (ℕ_discrete s (slot_of sets a)) [
                  | yes z ↦ inr (a, inl refl, sym z, ground arith)
                  | no z ↦ inl (ground arith)
                ]
                | inr (b, i, q, z) ↦ inr (b, inr i, q, z)
              ];
            })
            (retain_retains sets from active (slot_of sets a ∷ available) (λ b i. h b (inr i))))
      | inr e ↦
          let ((k, v), run, r) =
            Returns-inv (λ (k, v). Retained sets from active available k v) _
              (retain_retains sets from active available (λ b i. h b (inr i))) in
          rw (retain-keep sets from a active available (h a (inl refl)) k v (ground arith) run)
            (record {
              kept_active = λ b i. elim i [ inl q ↦ inl q | inr q ↦ inr (r.kept_active b q) ];
              hands = λ s. ground (arith, r.hands s);
              given = λ s p. elim (r.given s p) [
                | inl q ↦ inl q
                | inr (b, i, q, z) ↦ inr (b, inr i, q, z)
              ];
            })
    ]
