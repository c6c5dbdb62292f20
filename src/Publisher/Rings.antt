-- ===== src/Publisher/Rings.antt =====
-- What the loops that empty the rings leave.
use native.Mathlib.Decide.{ℕ_discrete}
use crossbar.Base.{
  ℕ, zero, suc, ◌+◌, ◌≤◌, ◌<◌, ◌≡◌, refl, ap, ◌∙◌, ◌⊎◌, inl, inr, arith, eq→==, ne→==,
}
use crossbar.Layout.{no_block}
use crossbar.Region.State.{Region, RingEntry, set_entry}
use crossbar.Publisher.Create.{init_slots, init_rings}

abbrev pub empty_entry : RingEntry
empty_entry = record { seq = 0; block_idx = no_block; data_len = 0 }

abbrev Emptied : ℕ → ℕ → Region → Type 0
Emptied i j r = r.ring i j ≡ empty_entry

set_entry-Emptied :
    (i j k s : ℕ) (r : Region)
    → (Emptied i j r ⊎ ((i ≡ k) × (j ≡ s)))
    → Emptied i j (set_entry r k s empty_entry)
set_entry-Emptied i j k s r (inr (same, slot)) =
    rw (eq→== k i (omega arith), eq→== s j (omega arith)) refl
set_entry-Emptied i j k s r (inl e) = elim (ℕ_discrete k i) [
  | no ne ↦ rw (ne→== k i ne) e
  | yes same ↦ rw (eq→== k i same) (elim (ℕ_discrete s j) [
    | yes slot ↦ rw (eq→== s j slot) refl
    | no other ↦ rw (ne→== s j other) (ap (λ m. r.ring m j) same ∙ e)
  ])
]

init_slots-Emptied :
    (k n s i j : ℕ) (r : Region)
    → (Emptied i j r ⊎ ((i ≡ k) × (s ≤ j) × (j < s + n)))
    → Emptied i j (init_slots k n s r)
unfolding init_slots
init_slots-Emptied k zero s i j r (inl e) = e
init_slots-Emptied k zero s i j r (inr (same, low, high)) = absurd (omega arith)
init_slots-Emptied k (suc n) s i j r (inl e) =
    init_slots-Emptied k n (s + 1) i j (set_entry r k s empty_entry)
      (inl (set_entry-Emptied i j k s r (inl e)))
init_slots-Emptied k (suc n) s i j r (inr (same, low, high)) = elim (ℕ_discrete j s) [
  | yes here ↦
      init_slots-Emptied k n (s + 1) i j (set_entry r k s empty_entry)
        (inl (set_entry-Emptied i j k s r (inr (same, here))))
  | no later ↦
      init_slots-Emptied k n (s + 1) i j (set_entry r k s empty_entry)
        (inr (same, (omega arith), (omega arith)))
]

init_slots-frame :
    (k n s : ℕ) (r : Region) → init_slots k n s r ≡ record r { ring = (init_slots k n s r).ring }
unfolding init_slots
init_slots-frame k zero s r = refl
init_slots-frame k (suc n) s r = init_slots-frame k n (s + 1) (set_entry r k s empty_entry)

pub init_rings-Emptied :
    (n k i j : ℕ) (r : Region)
    → (Emptied i j r ⊎ ((k ≤ i) × (i < k + n) × (j < r.config.ring_depth)))
    → Emptied i j (init_rings n k r)
unfolding init_rings
init_rings-Emptied zero k i j r (inl e) = e
init_rings-Emptied zero k i j r (inr (low, high, depth)) = absurd (omega arith)
init_rings-Emptied (suc n) k i j r (inl e) =
    init_rings-Emptied n (k + 1) i j (init_slots k r.config.ring_depth 0 r)
      (inl (init_slots-Emptied k r.config.ring_depth 0 i j r (inl e)))
init_rings-Emptied (suc n) k i j r (inr (low, high, depth)) = elim (ℕ_discrete i k) [
  | yes here ↦ init_rings-Emptied n (k + 1) i j (init_slots k r.config.ring_depth 0 r) (
      inl (
        init_slots-Emptied k r.config.ring_depth 0 i j r
          (inr (here, (omega arith), (omega arith)))))
  | no later ↦
      let same : (init_slots k r.config.ring_depth 0 r).config.ring_depth ≡ r.config.ring_depth =
        ap (λ (q : Region). q.config.ring_depth) (init_slots-frame k r.config.ring_depth 0 r) in
      init_rings-Emptied n (k + 1) i j (init_slots k r.config.ring_depth 0 r)
        (inr ((omega arith), (omega arith), (omega arith)))
]

-- Nothing but the rings is changed.
pub init_rings-frame :
    (n k : ℕ) (r : Region) → init_rings n k r ≡ record r { ring = (init_rings n k r).ring }
unfolding init_rings
init_rings-frame zero k r = refl
init_rings-frame (suc n) k r =
    let r' = init_slots k r.config.ring_depth 0 r in
    init_rings-frame n (k + 1) r'
    ∙ ap (λ (q : Region). record q { ring = (init_rings n (k + 1) r').ring })
        (init_slots-frame k r.config.ring_depth 0 r)
