-- ===== src/PodBus/State.antt =====
-- The shared region of a `PodBus`, with the fields of the publisher's handle, and the handle of a
-- subscriber. A value of the `Pod` type is the family of its memory words.
use Prim.Native.Nat.{bit_and}
use crossbar.Base.{ℕ, ◌-◌, ◌*◌, ◌/◌, ◌%◌, ◌^◌, Option, update}

abbrev pub max_subscriber_slots : ℕ
max_subscriber_slots = 64

abbrev pub heartbeat_stale_us : ℕ
heartbeat_stale_us = 5_000_000

-- `state_cursor`: the state in the two high bits, a cursor or a time in the other 62.
abbrev pub state_free : ℕ
state_free = 0

abbrev pub state_active : ℕ
state_active = 2 ^ 62

abbrev pub state_claiming : ℕ
state_claiming = 2 ^ 63

-- `packed & !VALUE_MASK`
abbrev pub state_bits : ℕ → ℕ
state_bits packed = packed / 2 ^ 62 * 2 ^ 62

-- `packed & VALUE_MASK`
abbrev pub value_bits : ℕ → ℕ
value_bits packed = packed % 2 ^ 62

abbrev pub u64 : ℕ → ℕ
u64 n = n % 2 ^ 64

abbrev pub Value : Type 0
Value = ℕ → ℕ

pub record Slot : Type 0 where
  pub stamp : ℕ
  pub value : Value

pub record SubscriberSlot : Type 0 where
  pub pid : ℕ
  pub state_cursor : ℕ

-- `slots` is used where the bus is bounded, that is where `watermark` is given.
pub record PodBus : Type 0 where
  pub heartbeat : ℕ
  pub write_seq : ℕ
  pub ring : ℕ → Slot
  pub slots : ℕ → SubscriberSlot
  pub ring_size : ℕ
  pub watermark : Option ℕ
  pub cached_slowest : ℕ

pub record BusSubscriber : Type 0 where
  pub ring_size : ℕ
  pub cursor : ℕ
  pub total_lagged : ℕ
  pub slot_index : Option ℕ

-- `seq & mask`
unfoldable pub index_of : ℕ → ℕ → ℕ
index_of ring_size seq = bit_and seq (ring_size - 1)

abbrev pub set_slot : PodBus → ℕ → SubscriberSlot → PodBus
set_slot b i s = record b { slots = update b.slots i s }
