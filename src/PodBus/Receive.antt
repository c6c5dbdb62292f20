-- ===== src/PodBus/Receive.antt =====
-- What a subscriber receives while nobody else acts.
use crossbar.Base.{
  ℕ, ◌+◌, ◌-◌, ◌*◌, ◌%◌, ◌^◌, ◌≤◌, ◌<◌, ◌≡◌, none, some, arith, ltb, leb, if◌then◌else◌, le→leb,
  lt→leb, ap, ◌∙◌,
}
use native.Mathlib.Decide.{dec_le}
use crossbar.PodBus.State.{PodBus, BusSubscriber, Value, index_of}
use crossbar.PodBus.Subscribe.{alone, skip_ahead, read_slot, try_recv, update_shm_cursor}
use crossbar.PodBus.History.{Holds, index_of-mod}

-- Where a subscriber at `cursor` reads next: at the oldest entry of the ring, if it is behind that.
unfoldable pub next_cursor : (head ring_size cursor : ℕ) → ℕ
next_cursor head ring_size cursor =
    if ltb ring_size (head - cursor) then head - ring_size else cursor

pub skip_ahead_lem :
    (head : ℕ) (sub : BusSubscriber)
    → sub.cursor ≤ head
    → let c = next_cursor head sub.ring_size sub.cursor in
      skip_ahead head sub
      ≡ record sub { cursor = c; total_lagged = sub.total_lagged + (c - sub.cursor) }
unfolding skip_ahead next_cursor
skip_ahead_lem head sub h = ground arith

pub next_cursor_range :
    (head n cursor : ℕ)
    → cursor < head
    → 0 < n
    → let c = next_cursor head n cursor in (cursor ≤ c) × (c < head) × (head ≤ c + n)
unfolding next_cursor
next_cursor_range head n cursor h pos = ground arith

-- Reading a slot that holds the entry under the cursor returns the entry.
read_slot_committed :
    (sub : BusSubscriber) (b : PodBus)
    → sub.cursor < 2 ^ 62
    → (b.ring (index_of sub.ring_size sub.cursor)).stamp ≡ sub.cursor * 2 + 2
    → read_slot alone sub b ≡ (
      some (b.ring (index_of sub.ring_size sub.cursor)).value,
      record sub { cursor = sub.cursor + 1 },
      update_shm_cursor sub (sub.cursor + 1) b,
    )
unfolding read_slot
read_slot_committed sub b room e = ground arith

-- A call that is behind the publisher returns the value of the history at the next cursor, advances
-- past it, counts exactly the entries that it skipped, and reports the new cursor; a call that has
-- caught up returns nothing and changes nothing.
pub try_recv_history :
    (h : ℕ → Value) (sub : BusSubscriber) (b : PodBus)
    → Holds h b
    → sub.ring_size ≡ b.ring_size
    → let c = next_cursor b.write_seq sub.ring_size sub.cursor in
      try_recv alone sub b ≡ (
        if leb b.write_seq sub.cursor then (none, sub, b) else (
          some (h c),
          record sub { cursor = c + 1; total_lagged = sub.total_lagged + (c - sub.cursor) },
          update_shm_cursor sub (c + 1) b,
        ))
unfolding try_recv
try_recv_history h sub b i size = elim (dec_le b.write_seq sub.cursor) [
  | yes caught_up ↦ rw (le→leb _ _ caught_up)
  | no behind ↦
      let c = next_cursor b.write_seq sub.ring_size sub.cursor in
      let room = i.room in
      let (place, pos) = index_of-mod b.ring_size c i.power in
      let c_range =
        next_cursor_range b.write_seq sub.ring_size sub.cursor (omega arith) (omega arith) in
      let entry = i.recent c (omega arith) (omega arith) in
      let place' : index_of sub.ring_size c ≡ c % b.ring_size =
        ap (λ (m : ℕ). index_of m c) size ∙ place in
      let at : BusSubscriber = record sub {
        cursor = c;
        total_lagged = sub.total_lagged + (c - sub.cursor);
      } in
      let read = read_slot_committed at b (omega arith) (rw place' entry.0) in
      rw (lt→leb b.write_seq sub.cursor (omega arith), skip_ahead_lem b.write_seq sub (omega arith))
        (read
          ∙ ap (λ v. (some v, record at { cursor = c + 1 }, update_shm_cursor at (c + 1) b))
              (rw place' entry.1))
]
