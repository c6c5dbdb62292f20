-- ===== src/Stream/Tests.antt =====
-- One commit to a topic, and its receive.
use crossbar.Base.{◌≡◌, refl, true, none, some, arith, leb, if◌then◌else◌, update}
use crossbar.Region.State.{Region}
use crossbar.Region.Fixture.{blank}
use crossbar.Region.Ring.{commit_to_ring}
use crossbar.Stream.Receive.{Stream, alone, recv_slot}
use crossbar.Stream.Safety.{KeepsConfigs, Read, recv_slot-InBounds}
use crossbar.Stream.History.{Holds, hold, oldest_unseen, recv_slot_history}
use crossbar.Stream.Append.{commit_to_ring-Holds}
use crossbar.Stream.Fixture.{nothing, three_bytes, blank-Holds, three_bytes-Fresh}

abbrev committed : Region
committed = commit_to_ring 1 3 0 true true blank

commit_to_ring-Holds_example :
    Holds (update nothing 1 three_bytes) 0 committed
    × ((committed.topics 0).write_seq ≡ 1)
    × (committed.bytes ≡ blank.bytes)
commit_to_ring-Holds_example =
    commit_to_ring-Holds nothing three_bytes 0 true true blank blank-Holds three_bytes-Fresh
      (omega arith)

committed-Holds : Holds (update nothing 1 three_bytes) 0 committed
committed-Holds =
    (commit_to_ring-Holds nothing three_bytes 0 true true blank blank-Holds three_bytes-Fresh
      (omega arith)).0

abbrev stream : Stream
stream = record { topic_idx = 0; last_seq = 0; type_size = 0 }

recv_slot_history_example :
    let w = (committed.topics 0).write_seq in
    let c = oldest_unseen w 0 committed.config.ring_depth in
    recv_slot (λ _. alone) stream committed ≡ (
      if leb w 0 then (none, stream, committed) else (
        some (update nothing 1 three_bytes c),
        record stream { last_seq = c },
        hold (update nothing 1 three_bytes c).block_idx committed,
      ))
recv_slot_history_example =
    recv_slot_history (update nothing 1 three_bytes) stream committed committed-Holds

alone-KeepsConfigs : KeepsConfigs alone
alone-KeepsConfigs = record {
  at_block = λ r. refl;
  at_len = λ r. refl;
  at_refcount = λ r. refl;
  at_recheck = λ r. refl;
}

recv_slot-InBounds_example : Read committed (recv_slot (λ _. alone) stream committed)
recv_slot-InBounds_example =
    recv_slot-InBounds (λ _. alone) stream committed (λ i. alone-KeepsConfigs)
