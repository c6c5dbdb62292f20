-- ===== src/PodBus/Scan.antt =====
-- The scan of the subscriber slots.
use crossbar.Base.{
  ℕ, zero, suc, ◌+◌, ◌≤◌, ◌<◌, ◌≡◌, refl, sym, ◌∙◌, Bool, true, Option, none, some, arith,
}
use mathlib.Core.Path.{subst}
use native.Mathlib.Decide.{ℕ_discrete}
use crossbar.PodBus.State.{PodBus, SubscriberSlot, state_active, state_bits, value_bits}
use crossbar.PodBus.Publish.{Scan, visit_slot, scan_slots}

-- A slot in use by a process that is alive.
abbrev pub IsLive : (ℕ → Bool) → SubscriberSlot → Type 0
IsLive is_pid_alive s = (state_bits s.state_cursor ≡ state_active) × (is_pid_alive s.pid ≡ true)

-- What of the bus a scan leaves alone.
pub record SameRing (b c : PodBus) : Type 0 where
  pub same_seq : c.write_seq ≡ b.write_seq
  pub same_size : c.ring_size ≡ b.ring_size
  pub same_ring : c.ring ≡ b.ring
  pub same_watermark : c.watermark ≡ b.watermark

-- What a scan of the slots from `lo` below `hi` does: live slots stay and none appears, the minimum
-- falls, and every live slot in the range is counted.
pub record Scanned (is_pid_alive : ℕ → Bool) (lo hi : ℕ) (s t : Scan) : Type 0 where
  pub keeps : (j : ℕ) → IsLive is_pid_alive (s.bus.slots j) → t.bus.slots j ≡ s.bus.slots j
  pub no_new : (j : ℕ) → IsLive is_pid_alive (t.bus.slots j) → t.bus.slots j ≡ s.bus.slots j
  pub lower : t.min_cursor ≤ s.min_cursor
  pub active : s.has_active ≡ true → t.has_active ≡ true
  pub seen :
      (j : ℕ)
      → lo ≤ j
      → j < hi
      → IsLive is_pid_alive (s.bus.slots j)
      → (t.has_active ≡ true) × (t.min_cursor ≤ value_bits (s.bus.slots j).state_cursor)
  pub ring : SameRing s.bus t.bus

module _ (is_pid_alive : ℕ → Bool) where
  visit_slot-keeps :
      (now : Option ℕ) (i j : ℕ) (s : Scan)
      → IsLive is_pid_alive (s.bus.slots j)
      → (visit_slot now is_pid_alive i s).bus.slots j ≡ s.bus.slots j
  unfolding visit_slot
  visit_slot-keeps none i j s live = ground arith
  visit_slot-keeps (some now) i j s live = ground arith

  visit_slot-no_new :
      (now : Option ℕ) (i j : ℕ) (s : Scan)
      → IsLive is_pid_alive ((visit_slot now is_pid_alive i s).bus.slots j)
      → (visit_slot now is_pid_alive i s).bus.slots j ≡ s.bus.slots j
  unfolding visit_slot
  visit_slot-no_new none i j s live = ground arith
  visit_slot-no_new (some now) i j s live = ground arith

  visit_slot-counts :
      (now : Option ℕ) (i : ℕ) (s : Scan)
      → let t = visit_slot now is_pid_alive i s in
        (t.min_cursor ≤ s.min_cursor)
        × (s.has_active ≡ true → t.has_active ≡ true)
        × (IsLive is_pid_alive (s.bus.slots i)
            → (t.has_active ≡ true) × (t.min_cursor ≤ value_bits (s.bus.slots i).state_cursor))
  unfolding visit_slot
  visit_slot-counts now i s = (ground arith, λ h. ground arith, λ live. ground arith)

  visit_slot-SameRing :
      (now : Option ℕ) (i : ℕ) (s : Scan) → SameRing s.bus (visit_slot now is_pid_alive i s).bus
  unfolding visit_slot
  visit_slot-SameRing none i s = ground arith
  visit_slot-SameRing (some now) i s = ground arith

  SameRing-trans : {a b c : PodBus} → SameRing a b → SameRing b c → SameRing a c
  SameRing-trans p q = record {
    same_seq = q.same_seq ∙ p.same_seq;
    same_size = q.same_size ∙ p.same_size;
    same_ring = q.same_ring ∙ p.same_ring;
    same_watermark = q.same_watermark ∙ p.same_watermark;
  }

  -- The scan of the subscriber slots from one index up to another, whatever the clock reads: the slots
  -- of live subscribers stay as they are and no slot becomes live, the minimum only falls, every live
  -- slot in the range is counted and its cursor is not below the minimum, and ring, sequence number,
  -- ring size and watermark stay.
  pub scan_slots-Scanned :
      (clock : ℕ → Option ℕ) (n i hi : ℕ) (s : Scan)
      → i + n ≡ hi
      → Scanned is_pid_alive i hi s (scan_slots clock is_pid_alive n i s)
  unfolding scan_slots
  scan_slots-Scanned clock zero i hi s e = record {
    keeps = λ j live. refl;
    no_new = λ j live. refl;
    lower = omega arith;
    active = λ h. h;
    seen = λ j p q live. absurd (omega arith);
    ring = record { same_seq = refl; same_size = refl; same_ring = refl; same_watermark = refl };
  }
  scan_slots-Scanned clock (suc n) i hi s e =
      let m : Scan = visit_slot (clock i) is_pid_alive i s in
      let rest = scan_slots-Scanned clock n (i + 1) hi m (omega arith) in
      let keeps : (j : ℕ) → IsLive is_pid_alive (s.bus.slots j) → m.bus.slots j ≡ s.bus.slots j =
        λ j live. visit_slot-keeps (clock i) i j s live in
      let (lower, active, seen) = visit_slot-counts (clock i) i s in
      let rest_lower = rest.lower in
      record {
        keeps = λ j live.
            rest.keeps j (subst (IsLive is_pid_alive) (sym (keeps j live)) live) ∙ keeps j live;
        no_new = λ j live.
            let back = rest.no_new j live in
            back ∙ visit_slot-no_new (clock i) i j s (subst (IsLive is_pid_alive) back live);
        lower = omega arith;
        active = λ h. rest.active (active h);
        seen = λ j p q live. elim (ℕ_discrete i j) [
          | yes same ↦
              let here = seen (subst (λ k. IsLive is_pid_alive (s.bus.slots k)) (sym same) live) in
              let bound : m.min_cursor ≤ value_bits (s.bus.slots j).state_cursor =
                subst (λ k. m.min_cursor ≤ value_bits (s.bus.slots k).state_cursor) same here.1 in
              (rest.active here.0, omega arith)
          | no other ↦
              let still = subst (IsLive is_pid_alive) (sym (keeps j live)) live in
              let there = rest.seen j (omega arith) q still in
              (
                there.0,
                subst
                    (λ (t : SubscriberSlot).
                      (scan_slots clock is_pid_alive n (i + 1) m).min_cursor
                      ≤ value_bits t.state_cursor)
                    (keeps j live) there.1,
              )
        ];
        ring = SameRing-trans (visit_slot-SameRing (clock i) i s) rest.ring;
      }
