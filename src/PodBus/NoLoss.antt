-- ===== src/PodBus/NoLoss.antt =====
-- Receiving on a bounded bus.
use crossbar.Base.{
  ℕ, ◌+◌, ◌-◌, ◌≤◌, ◌<◌, ◌≡◌, ap, ◌∙◌, Bool, false, Option, none, some, arith, if◌then◌else◌,
  lt→leb,
}
use crossbar.PodBus.State.{PodBus, BusSubscriber, Value, value_bits, max_subscriber_slots}
use crossbar.PodBus.Subscribe.{alone, try_recv, update_shm_cursor}
use crossbar.PodBus.History.{Holds}
use crossbar.PodBus.Receive.{next_cursor, try_recv_history}
use crossbar.PodBus.Scan.{IsLive}
use crossbar.PodBus.Lossless.{Lossless}

next_cursor_near : (head n cursor : ℕ) → head ≤ cursor + n → next_cursor head n cursor ≡ cursor
unfolding next_cursor
next_cursor_near head n cursor near = ground arith

if_false : {A : Type 0} {b : Bool} (x y : A) → b ≡ false → (if b then x else y) ≡ y
if_false {A} {b} x y e = ap (λ b. if b then x else y) e

-- The bus is bounded and no live subscriber is more than `ring_size - watermark` entries behind. A
-- live subscriber that is behind the publisher, and whose slot shows its cursor, receives exactly the
-- value of the history at its cursor, moves on by one, reports that, and counts no loss.
pub try_recv_no_loss :
    (h : ℕ → Value) (is_pid_alive : ℕ → Bool) (watermark : ℕ) (sub : BusSubscriber) (b : PodBus)
    (j : ℕ)
    → Holds h b
    → Lossless is_pid_alive (b.ring_size - watermark) b
    → sub.ring_size ≡ b.ring_size
    → j < max_subscriber_slots
    → IsLive is_pid_alive (b.slots j)
    → value_bits (b.slots j).state_cursor ≡ sub.cursor
    → sub.cursor < b.write_seq
    → try_recv alone sub b ≡ (
      some (h sub.cursor),
      record sub { cursor = sub.cursor + 1 },
      update_shm_cursor sub (sub.cursor + 1) b,
    )
try_recv_no_loss h is_pid_alive watermark sub b j i l size lt live at behind =
    let (_, reach) = l.within j lt live in
    let c = next_cursor b.write_seq sub.ring_size sub.cursor in
    let same : c ≡ sub.cursor =
      next_cursor_near b.write_seq sub.ring_size sub.cursor (omega arith) in
    let no_lag : sub.total_lagged + (sub.cursor - sub.cursor) ≡ sub.total_lagged = omega arith in
    let result : ℕ → ℕ → Option Value × BusSubscriber × PodBus = λ c lagged. (
      some (h c),
      record sub { cursor = c + 1; total_lagged = lagged },
      update_shm_cursor sub (c + 1) b,
    ) in
    try_recv_history h sub b i size
    ∙ if_false (none, sub, b) (result c (sub.total_lagged + (c - sub.cursor)))
        (lt→leb b.write_seq sub.cursor behind)
    ∙ ap (λ c. result c (sub.total_lagged + (c - sub.cursor))) same
    ∙ ap (result sub.cursor) no_lag
