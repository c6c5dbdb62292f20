-- ===== src/PodBus/Tests.antt =====
-- A bus of four slots with one live subscriber, from its first publish on.
use crossbar.Base.{
  ℕ, ◌+◌, ◌-◌, ◌≡◌, refl, Bool, true, none, some, arith, leb, if◌then◌else◌, update,
  is_power_of_two,
}
use crossbar.PodBus.State.{PodBus, BusSubscriber, Value, state_active, index_of}
use crossbar.PodBus.Publish.{Clock, publish_unchecked, write_value, try_publish}
use crossbar.PodBus.Subscribe.{alone, skip_ahead, read_slot, try_recv, update_shm_cursor}
use crossbar.PodBus.History.{Holds, publish_unchecked-Holds}
use crossbar.PodBus.Receive.{next_cursor, try_recv_history}
use crossbar.PodBus.Seqlock.{idle, here, Inv}
use crossbar.PodBus.Torn.{Legal, try_recv_untorn}
use crossbar.PodBus.Lossless.{Lossless, try_publish-Lossless}
use crossbar.PodBus.NoLoss.{try_recv_no_loss}

-- The value whose words are all `n`.
abbrev words_of : ℕ → Value
words_of n = λ w. n

abbrev empty_bus : PodBus
empty_bus = record {
  heartbeat = 0;
  write_seq = 0;
  ring = λ i. record { stamp = 0; value = words_of 0 };
  slots = λ i. record { pid = 7; state_cursor = state_active };
  ring_size = 4;
  watermark = some 1;
  cached_slowest = 0;
}

empty_bus-Holds : Holds words_of empty_bus
unfolding is_power_of_two
empty_bus-Holds = record {
  power = refl;
  room = omega arith;
  recent = λ s below near. absurd (omega arith);
}

publish_unchecked-Holds_example :
    Holds (update words_of 0 (words_of 5)) (publish_unchecked none (words_of 5) empty_bus)
    × ((publish_unchecked none (words_of 5) empty_bus).write_seq ≡ 1)
publish_unchecked-Holds_example =
    publish_unchecked-Holds words_of none (words_of 5) empty_bus empty_bus-Holds (omega arith)

abbrev one_published : PodBus
one_published = publish_unchecked none (words_of 5) empty_bus

one_published-Holds : Holds (update words_of 0 (words_of 5)) one_published
one_published-Holds =
    (publish_unchecked-Holds words_of none (words_of 5) empty_bus empty_bus-Holds (omega arith)).0

abbrev subscriber : BusSubscriber
subscriber = record { ring_size = 4; cursor = 0; total_lagged = 0; slot_index = some 0 }

try_recv_history_example :
    let c = next_cursor one_published.write_seq 4 0 in
    try_recv alone subscriber one_published ≡ (
      if leb one_published.write_seq 0 then (none, subscriber, one_published) else (
        some (update words_of 0 (words_of 5) c),
        record subscriber { cursor = c + 1; total_lagged = 0 + (c - 0) },
        update_shm_cursor subscriber (c + 1) one_published,
      ))
unfolding publish_unchecked
try_recv_history_example =
    try_recv_history (update words_of 0 (words_of 5)) subscriber one_published one_published-Holds
      refl

-- A bus that has published the value 5, as plain data.
abbrev written : PodBus
written = record empty_bus {
  write_seq = 1;
  ring = update empty_bus.ring 0 (record { stamp = 2; value = words_of 5 });
}

abbrev fives : ℕ → Value
fives s = words_of 5

written-Inv : Inv fives written idle
written-Inv = record { stamps = λ i. ground arith; current = tt; committed = λ i s e. ground arith }

alone-Legal : Legal fives alone written idle
alone-Legal = record {
  word_phase = λ k. idle;
  last_phase = idle;
  to_word = λ k. here;
  to_recheck = λ k. here;
}

received : (try_recv alone subscriber written).0 ≡ some (words_of 5)
unfolding try_recv skip_ahead read_slot index_of
received = refl

try_recv_untorn_example :
    let c = next_cursor 1 4 0 in
    (words_of 5 ≡ fives c) × ((try_recv alone subscriber written).1.cursor ≡ c + 1)
try_recv_untorn_example =
    try_recv_untorn fives alone subscriber written idle (words_of 5) written-Inv alone-Legal
      (omega arith) (omega arith) received

abbrev everybody : ℕ → Bool
everybody pid = true

abbrev quiet : Clock
quiet = record { at_slot = λ i. none; at_publish = none }

empty_bus-Lossless : Lossless everybody 3 empty_bus
empty_bus-Lossless = record { within = λ j below live. (omega arith, omega arith) }

try_publish-Lossless_example :
    Lossless everybody 3 (try_publish quiet everybody (words_of 5) empty_bus).1
try_publish-Lossless_example =
    try_publish-Lossless everybody quiet (words_of 5) 1 empty_bus empty_bus-Lossless (omega arith)
      refl

one_published-Lossless : Lossless everybody 3 one_published
unfolding publish_unchecked write_value
one_published-Lossless = record { within = λ j below live. (omega arith, omega arith) }

try_recv_no_loss_example : try_recv alone subscriber one_published ≡ (
  some (update words_of 0 (words_of 5) 0),
  record subscriber { cursor = 1 },
  update_shm_cursor subscriber 1 one_published,
)
unfolding publish_unchecked
try_recv_no_loss_example =
    try_recv_no_loss (update words_of 0 (words_of 5)) everybody 1 subscriber one_published 0
      one_published-Holds one_published-Lossless refl (omega arith) (refl, refl) refl (omega arith)
