-- ===== src/PodBus/Subscribe.antt =====
-- The subscriber's operations.
use crossbar.Base.{
  ℕ, zero, suc, ◌+◌, ◌-◌, ◌*◌, ◌/◌, ◌%◌, not, Option, none, some, ltb, leb, ◌==◌, if◌then◌else◌,
}
use crossbar.Error.{pool_exhausted, Result, ok, err}
use crossbar.PodBus.State.{
  PodBus, BusSubscriber, SubscriberSlot, Value, max_subscriber_slots, state_free, state_active,
  state_claiming, value_bits, u64, index_of, set_slot,
}

unfoldable pub update_shm_cursor : BusSubscriber → ℕ → PodBus → PodBus
update_shm_cursor sub new_cursor b = elim sub.slot_index [
  | none ↦ b
  | some idx ↦
      set_slot b idx (record (b.slots idx) { state_cursor = state_active + value_bits new_cursor })
]

-- What other processes do while `try_recv` runs: the state when each word of the data is read, and
-- the state when the stamp is read again, from the state when it is read first.
pub record During : Type 0 where
  pub at_word : PodBus → ℕ → PodBus
  pub at_recheck : PodBus → PodBus

-- Nothing else happens.
abbrev pub alone : During
alone = record { at_word = λ b w. b; at_recheck = λ b. b }

-- A subscriber that is more than the ring behind goes on at the oldest entry.
unfoldable pub skip_ahead : ℕ → BusSubscriber → BusSubscriber
skip_ahead head sub =
    if ltb sub.ring_size (head - sub.cursor)
    then record sub {
      total_lagged = sub.total_lagged + (head - sub.ring_size - sub.cursor);
      cursor = head - sub.ring_size;
    }
    else sub

-- The read of one slot, from the first load of the stamp on.
unfoldable pub read_slot : During → BusSubscriber → PodBus → Option Value × BusSubscriber × PodBus
unfolding update_shm_cursor
read_slot during sub b =
    let idx = index_of sub.ring_size sub.cursor in
    let stamp_before = (b.ring idx).stamp in
    if not (stamp_before % 2 == 0)
    then (none, sub, b)
    else if stamp_before == 0
    then (none, sub, b)
    else (let value : Value = λ w. ((during.at_word b w).ring idx).value w in
        let b' = during.at_recheck b in
        let stamp_after = (b'.ring idx).stamp in
        if not (stamp_after == stamp_before)
        then (none, sub, b')
        else if not (stamp_before == u64 (sub.cursor * 2 + 2))
        then (
          none,
          record sub {
            total_lagged = sub.total_lagged + (stamp_before / 2 - 1 + 1 - sub.cursor);
            cursor = stamp_before / 2 - 1 + 1;
          },
          b',
        )
        else (
          some value,
          record sub { cursor = sub.cursor + 1 },
          update_shm_cursor sub (sub.cursor + 1) b',
        ))

unfoldable pub try_recv : During → BusSubscriber → PodBus → Option Value × BusSubscriber × PodBus
unfolding skip_ahead read_slot
try_recv during sub b =
    if leb b.write_seq sub.cursor
    then (none, sub, b)
    else read_slot during (skip_ahead b.write_seq sub) b

-- `claim_subscriber_slot`, from slot `i` on with `n` rounds left; no other process claims a slot
-- meanwhile. The claim passes through CLAIMING with the time of the claim to ACTIVE.
abbrev pub claiming_slot : Option ℕ → ℕ → SubscriberSlot
claiming_slot none pid = record { pid = pid; state_cursor = state_claiming }
claiming_slot (some now) pid = record { pid = pid; state_cursor = state_claiming + value_bits now }

unfoldable pub claim_from : (ℕ → Option ℕ) → ℕ → ℕ → ℕ → ℕ → PodBus → Result ℕ × PodBus
claim_from clock initial_cursor pid zero i b = (err pool_exhausted, b)
claim_from clock initial_cursor pid (suc n) i b =
    let claimed = set_slot b i (claiming_slot (clock i) pid) in
    let rest = claim_from clock initial_cursor pid n (i + 1) b in
    if (b.slots i).state_cursor == state_free
    then (
      ok i,
      set_slot claimed i
          (record (claimed.slots i) { state_cursor = state_active + value_bits initial_cursor }),
    )
    else rest

unfoldable pub claim_subscriber_slot : (ℕ → Option ℕ) → ℕ → ℕ → PodBus → Result ℕ × PodBus
unfolding claim_from
claim_subscriber_slot clock initial_cursor pid b =
    claim_from clock initial_cursor pid max_subscriber_slots 0 b

-- `Drop`
unfoldable pub drop_subscriber : BusSubscriber → PodBus → PodBus
drop_subscriber sub b = elim sub.slot_index [
  | none ↦ b
  | some idx ↦ set_slot b idx (record { pid = 0; state_cursor = state_free })
]
