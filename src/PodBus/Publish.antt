-- ===== src/PodBus/Publish.antt =====
-- The publisher's operations. What the clock reads is an argument: `none` is a time before the
-- epoch. So is the answer of the operating system to whether a process is alive.
use Prim.Native.Nat.{bit_and}
use crossbar.Base.{
  ℕ, zero, suc, ◌+◌, ◌-◌, ◌*◌, Bool, true, false, not, ◌&&◌, Option, none, some, List, [], ◌∷◌, ltb,
  leb, ◌==◌, if◌then◌else◌, update,
}
use crossbar.Error.{full, Result, ok, err}
use crossbar.PodBus.State.{
  PodBus, Value, max_subscriber_slots, state_free, state_active, state_claiming, state_bits,
  value_bits, u64, index_of, set_slot,
}

-- The time of the last reading, if there was one.
unfoldable pub store_heartbeat : Option ℕ → PodBus → PodBus
store_heartbeat none b = b
store_heartbeat (some now) b = record b { heartbeat = now }

-- The steps of a publish in their order: the odd stamp, the data, the even stamp, the sequence.
abbrev pub set_stamp : ℕ → PodBus → PodBus
set_stamp stamp b =
    let idx = index_of b.ring_size b.write_seq in
    record b { ring = update b.ring idx (record (b.ring idx) { stamp = stamp }) }

abbrev pub set_data : Value → PodBus → PodBus
set_data value b =
    let idx = index_of b.ring_size b.write_seq in
    record b { ring = update b.ring idx (record (b.ring idx) { value = value }) }

unfoldable pub write_value : Value → PodBus → PodBus
write_value value b =
    let w = b.write_seq in
    let b1 = set_stamp (u64 (w * 2 + 1)) b in
    let b2 = set_data value b1 in
    let b3 = set_stamp (u64 (w * 2 + 2)) b2 in record b3 { write_seq = u64 (w + 1) }

-- The heartbeat is stored every 1024 publishes.
unfoldable pub publish_unchecked : Option ℕ → Value → PodBus → PodBus
unfolding store_heartbeat write_value
publish_unchecked now value b =
    write_value value (if bit_and b.write_seq 0x3ff == 0 then store_heartbeat now b else b)

-- The loop variables of `slowest_subscriber_cursor`.
pub record Scan : Type 0 where
  pub bus : PodBus
  pub min_cursor : ℕ
  pub has_active : Bool

-- A slot that stays CLAIMING for more than five seconds is freed.
unfoldable pub prune_claiming : Option ℕ → ℕ → PodBus → PodBus
prune_claiming none i b = b
prune_claiming (some now) i b =
    if ltb 5_000_000 (now - value_bits (b.slots i).state_cursor)
    then set_slot b i (record { pid = 0; state_cursor = state_free })
    else b

-- One round of the loop, at slot `i`; no other process changes the slot within the round.
unfoldable pub visit_slot : Option ℕ → (ℕ → Bool) → ℕ → Scan → Scan
unfolding prune_claiming
visit_slot now is_pid_alive i s =
    let slot = s.bus.slots i in
    let state = state_bits slot.state_cursor in
    let value = value_bits slot.state_cursor in
    if state == state_claiming
    then record s { bus = prune_claiming now i s.bus }
    else if state == state_active
    then (if not (slot.pid == 0) && not (is_pid_alive slot.pid)
        then record s { bus = set_slot s.bus i (record { pid = 0; state_cursor = state_free }) }
        else record s {
          has_active = true;
          min_cursor = if ltb value s.min_cursor then value else s.min_cursor;
        })
    else s

-- The loop over the slots, from slot `i` on with `n` rounds left. `clock i` is what the clock reads
-- when slot `i` is visited.
unfoldable pub scan_slots : (ℕ → Option ℕ) → (ℕ → Bool) → ℕ → ℕ → Scan → Scan
scan_slots clock is_pid_alive zero i s = s
scan_slots clock is_pid_alive (suc n) i s =
    scan_slots clock is_pid_alive n (i + 1) (visit_slot (clock i) is_pid_alive i s)

unfoldable pub scan_all : (ℕ → Option ℕ) → (ℕ → Bool) → PodBus → Option ℕ × PodBus
scan_all clock is_pid_alive b =
    let s =
      scan_slots clock is_pid_alive max_subscriber_slots 0
        (record { bus = b; min_cursor = 0xffff_ffff_ffff_ffff; has_active = false }) in
    (if s.has_active then some s.min_cursor else none, s.bus)

-- By the watermark of the bus: an unbounded bus has no slots.
unfoldable pub slowest_at : Option ℕ → (ℕ → Option ℕ) → (ℕ → Bool) → PodBus → Option ℕ × PodBus
unfolding scan_all
slowest_at none clock is_pid_alive b = (none, b)
slowest_at (some _) clock is_pid_alive b = scan_all clock is_pid_alive b

unfoldable pub slowest_subscriber_cursor : (ℕ → Option ℕ) → (ℕ → Bool) → PodBus → Option ℕ × PodBus
unfolding slowest_at
slowest_subscriber_cursor clock is_pid_alive b = slowest_at b.watermark clock is_pid_alive b

-- What the clock reads in one call: at each slot that is visited, and in `publish_unchecked`.
pub record Clock : Type 0 where
  pub at_slot : ℕ → Option ℕ
  pub at_publish : Option ℕ

-- The state after a rescan; `cached_slowest` is stored before the test.
abbrev pub cache_slowest : Option ℕ → PodBus → PodBus
cache_slowest none b = b
cache_slowest (some slowest) b = record b { cached_slowest = slowest }

-- The test after a rescan, against the sequence number that was read before it.
unfoldable pub publish_if_room : ℕ → Option ℕ → Clock → Value → PodBus → Result (Unit {0}) × PodBus
publish_if_room effective none clock value b = (ok tt, publish_unchecked clock.at_publish value b)
publish_if_room effective (some slowest) clock value b =
    if leb (slowest + effective) b.write_seq
    then (err full, b)
    else (ok tt, publish_unchecked clock.at_publish value b)

-- The slow path.
unfoldable pub rescan_and_publish :
    ℕ → Clock → (ℕ → Bool) → Value → PodBus → Result (Unit {0}) × PodBus
unfolding slowest_subscriber_cursor publish_if_room
rescan_and_publish effective clock is_pid_alive value b =
    let (slowest, b') = slowest_subscriber_cursor clock.at_slot is_pid_alive b in
    publish_if_room effective slowest clock value (cache_slowest slowest b')

-- By the watermark of the bus.
unfoldable pub try_publish_at :
    Option ℕ → Clock → (ℕ → Bool) → Value → PodBus → Result (Unit {0}) × PodBus
unfolding rescan_and_publish
try_publish_at none clock is_pid_alive value b = (ok tt, publish_unchecked clock.at_publish value b)
try_publish_at (some watermark) clock is_pid_alive value b =
    let effective = b.ring_size - watermark in
    if leb (b.cached_slowest + effective) b.write_seq
    then rescan_and_publish effective clock is_pid_alive value b
    else (ok tt, publish_unchecked clock.at_publish value b)

unfoldable pub try_publish : Clock → (ℕ → Bool) → Value → PodBus → Result (Unit {0}) × PodBus
unfolding try_publish_at
try_publish clock is_pid_alive value b = try_publish_at b.watermark clock is_pid_alive value b

-- `publish` on a bounded bus. The list holds, for each round in which the ring is full, what the
-- others do before the next round and what the clock then reads; `spins` counts such rounds. The
-- result is `none` if the ring is full also in the round after the last one of the list.
pub record Round : Type 0 where
  pub others : PodBus → PodBus
  pub clock : Clock

unfoldable pub refresh : ℕ → Option ℕ → PodBus → PodBus
refresh spins now b = if bit_and spins 0x3ff == 0 then store_heartbeat now b else b

unfoldable pub publish_from : List Round → ℕ → Clock → (ℕ → Bool) → Value → PodBus → Option PodBus
publish_from [] spins clock is_pid_alive value b =
    let (r, b') = try_publish clock is_pid_alive value b in elim r [ ok _ ↦ some b' | err _ ↦ none ]
publish_from (round ∷ rounds) spins clock is_pid_alive value b =
    let (r, b') = try_publish clock is_pid_alive value b in
    elim r [
      | ok _ ↦ some b'
      | err _ ↦
          publish_from rounds (suc spins) round.clock is_pid_alive value
            (round.others (refresh (suc spins) round.clock.at_publish b'))
    ]

unfoldable pub publish : List Round → Clock → (ℕ → Bool) → Value → PodBus → Option PodBus
unfolding publish_from
publish rounds clock is_pid_alive value b = elim b.watermark [
  | none ↦ some (publish_unchecked clock.at_publish value b)
  | some _ ↦ publish_from rounds 0 clock is_pid_alive value b
]
