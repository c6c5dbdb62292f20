-- ===== src/PodBus/Lossless.antt =====
-- Backpressure on a bounded bus.
use crossbar.Base.{
  ℕ, ◌+◌, ◌-◌, ◌^◌, ◌≤◌, ◌<◌, ◌≡◌, refl, sym, ap, Bool, false, Option, none, some, arith, le→leb,
  lt→leb,
}
use mathlib.Core.Path.{subst}
use native.Mathlib.Decide.{dec_le}
use crossbar.PodBus.State.{PodBus, Value, value_bits, max_subscriber_slots}
use crossbar.PodBus.Publish.{
  Scan, Clock, scan_all, cache_slowest, slowest_at, slowest_subscriber_cursor, publish_if_room,
  rescan_and_publish, try_publish_at, try_publish,
}
use crossbar.PodBus.History.{Published, publish_unchecked-Published}
use crossbar.PodBus.Scan.{IsLive, SameRing, scan_slots-Scanned}

-- No live subscriber is more than `effective` entries behind, and the cached cursor is not ahead of
-- any of them.
pub record Lossless (is_pid_alive : ℕ → Bool) (effective : ℕ) (b : PodBus) : Type 0 where
  pub within :
      (j : ℕ)
      → j < max_subscriber_slots
      → IsLive is_pid_alive (b.slots j)
      → let cursor = value_bits (b.slots j).state_cursor in
        (b.cached_slowest ≤ cursor) × (b.write_seq ≤ cursor + effective)

-- The result of the rescan: the slots and the sequence number are as before to live subscribers, and
-- the cursor that it returns is not ahead of any.
record Rescanned (is_pid_alive : ℕ → Bool) (b b' : PodBus) (slowest : Option ℕ) : Type 0 where
  no_new : (j : ℕ) → IsLive is_pid_alive (b'.slots j) → b'.slots j ≡ b.slots j
  counted :
      (j : ℕ)
      → j < max_subscriber_slots
      → IsLive is_pid_alive (b.slots j)
      → (m : ℕ) × (slowest ≡ some m) × (m ≤ value_bits (b.slots j).state_cursor)
  ring : SameRing b b'

scan_all-Rescanned :
    (clock : ℕ → Option ℕ) (is_pid_alive : ℕ → Bool) (b : PodBus)
    → let (slowest, b') = scan_all clock is_pid_alive b in Rescanned is_pid_alive b b' slowest
unfolding scan_all
scan_all-Rescanned clock is_pid_alive b =
    let start : Scan = record { bus = b; min_cursor = 0xffff_ffff_ffff_ffff; has_active = false } in
    let s =
      scan_slots-Scanned is_pid_alive clock max_subscriber_slots 0 max_subscriber_slots start
        (omega arith) in
    record {
      no_new = s.no_new;
      counted =
          λ j lt live. let (act, low) = s.seen j (omega arith) lt live in (_, rw act refl, low);
      ring = s.ring;
    }

-- A publish with room for every live subscriber keeps them within reach.
roomy_publish-Lossless :
    (is_pid_alive : ℕ → Bool) (effective : ℕ) (value : Value) (b b' : PodBus)
    → Published value b b'
    → ((j : ℕ)
        → j < max_subscriber_slots
        → IsLive is_pid_alive (b.slots j)
        → let cursor = value_bits (b.slots j).state_cursor in
          (b.cached_slowest ≤ cursor) × (b.write_seq < cursor + effective))
    → Lossless is_pid_alive effective b'
roomy_publish-Lossless is_pid_alive effective value b b' p room = record {
  within = λ j lt live.
      let same = ap (λ f. f j) p.same_slots in
      let (low, reach) = room j lt (subst (IsLive is_pid_alive) same live) in
      let seq = p.next_seq in let cached = p.same_cached in rw same (omega arith, omega arith);
}

publish_if_room-Lossless :
    (is_pid_alive : ℕ → Bool) (effective : ℕ) (clock : Clock) (value : Value) (slowest : Option ℕ)
    (b b' : PodBus)
    → Lossless is_pid_alive effective b
    → b.write_seq < 2 ^ 62
    → Rescanned is_pid_alive b b' slowest
    → Lossless is_pid_alive effective
        (publish_if_room effective slowest clock value (cache_slowest slowest b')).1
unfolding publish_if_room
publish_if_room-Lossless is_pid_alive effective clock value none b b' l room r =
    let seq = r.ring.same_seq in
    roomy_publish-Lossless is_pid_alive effective value b' _
      (publish_unchecked-Published clock.at_publish value b' (omega arith))
      (λ j lt live.
        let (m, none_is_some, _) =
          r.counted j lt (subst (IsLive is_pid_alive) (r.no_new j live) live) in
        absurd cc)
publish_if_room-Lossless is_pid_alive effective clock value (some m) b b' l room r =
    let seq = r.ring.same_seq in
    let low : (j : ℕ)
        → j < max_subscriber_slots
        → IsLive is_pid_alive (b'.slots j)
        → m ≤ value_bits (b'.slots j).state_cursor =
      (λ j lt live.
        let same = r.no_new j live in
        let (m', e, low) = r.counted j lt (subst (IsLive is_pid_alive) same live) in
        let m_is : m ≡ m' = cc in rw same (omega arith)) in
    elim (dec_le (m + effective) b'.write_seq) [
      | yes is_full ↦ rw (le→leb (m + effective) b'.write_seq is_full) record {
        within = λ j lt live.
            let same = r.no_new j live in
            let (_, reach) = l.within j lt (subst (IsLive is_pid_alive) same live) in
            let low = low j lt live in (omega arith, rw same (omega arith));
      }
      | no has_room ↦ rw (lt→leb (m + effective) b'.write_seq (omega arith)) (
          roomy_publish-Lossless is_pid_alive effective value (record b' { cached_slowest = m }) _
            (publish_unchecked-Published clock.at_publish value (record b' { cached_slowest = m })
              (omega arith))
            (λ j lt live. let low = low j lt live in (omega arith, omega arith)))
    ]

try_publish_at-Lossless :
    (is_pid_alive : ℕ → Bool) (clock : Clock) (value : Value) (watermark : ℕ) (b : PodBus)
    → Lossless is_pid_alive (b.ring_size - watermark) b
    → b.write_seq < 2 ^ 62
    → b.watermark ≡ some watermark
    → Lossless is_pid_alive
        (b.ring_size - watermark)
        (try_publish_at (some watermark) clock is_pid_alive value b).1
unfolding try_publish_at rescan_and_publish slowest_subscriber_cursor slowest_at
try_publish_at-Lossless is_pid_alive clock value watermark b l room bounded =
    let effective = b.ring_size - watermark in
    let scanned : Lossless is_pid_alive effective
        (rescan_and_publish effective clock is_pid_alive value b).1 =
      let s = scan_all clock.at_slot is_pid_alive b in
      subst
        (λ w.
          let t = slowest_at w clock.at_slot is_pid_alive b in
          Lossless is_pid_alive effective
            (publish_if_room effective t.0 clock value (cache_slowest t.0 t.1)).1)
        (sym bounded)
        (publish_if_room-Lossless is_pid_alive effective clock value s.0 b s.1 l room
          (scan_all-Rescanned clock.at_slot is_pid_alive b)) in
    elim (dec_le (b.cached_slowest + effective) b.write_seq) [
      | yes seems_full ↦ rw (le→leb (b.cached_slowest + effective) b.write_seq seems_full) scanned
      | no has_room ↦ rw (lt→leb (b.cached_slowest + effective) b.write_seq (omega arith)) (
          roomy_publish-Lossless is_pid_alive effective value b _
            (publish_unchecked-Published clock.at_publish value b room)
            (λ j lt live. let (low, _) = l.within j lt live in (low, omega arith)))
    ]

-- `try_publish` on a bounded bus, whatever it answers: if no live subscriber is more than
-- `ring_size - watermark` entries behind and the cached cursor is not ahead of any, then both still
-- hold afterwards. The sequence number is below 2^62.
pub try_publish-Lossless :
    (is_pid_alive : ℕ → Bool) (clock : Clock) (value : Value) (watermark : ℕ) (b : PodBus)
    → Lossless is_pid_alive (b.ring_size - watermark) b
    → b.write_seq < 2 ^ 62
    → b.watermark ≡ some watermark
    → Lossless is_pid_alive (b.ring_size - watermark) (try_publish clock is_pid_alive value b).1
unfolding try_publish
try_publish-Lossless is_pid_alive clock value watermark b l room bounded =
    subst
      (λ w.
        Lossless is_pid_alive (b.ring_size - watermark)
          (try_publish_at w clock is_pid_alive value b).1)
      (sym bounded) (try_publish_at-Lossless is_pid_alive clock value watermark b l room bounded)
