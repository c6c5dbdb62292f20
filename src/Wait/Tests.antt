-- ===== src/Wait/Tests.antt =====
-- A wait for a dead publisher, and one that a commit ends.
use crossbar.Base.{◌≡◌, refl, true, none, some, [], ◌∷◌, arith, replicate}
use crossbar.Error.{publisher_dead, err}
use crossbar.Region.State.{Region}
use crossbar.Region.Fixture.{blank}
use crossbar.Region.Ring.{commit_to_ring}
use crossbar.Publisher.Blocks.{check_heartbeat}
use crossbar.Stream.Receive.{Stream, alone, recv_slot, try_recv}
use crossbar.Stream.History.{hold}
use crossbar.Stream.Fixture.{nothing, three_bytes, blank-Holds, three_bytes-Fresh}
use crossbar.Wait.Strategy.{WaitStrategy, default_strategy, wait, sleeps}
use crossbar.Wait.Blocking.{received, failed, blocking_recv, recv_loop, add_waiter, remove_waiter}
use crossbar.Wait.Terminates.{quiet, blocking_recv_dead}
use crossbar.Wait.Wakes.{asleep, recv_loop-woken}

abbrev stream : Stream
stream = record { topic_idx = 0; last_seq = 0; type_size = 0 }

hints : wait WaitStrategy.backoff_spin 9 ≡ 64
unfolding wait
hints = refl

nothing_yet : try_recv (λ _. alone) stream blank ≡ (none, stream, blank)
unfolding try_recv recv_slot
nothing_yet = refl

dead : check_heartbeat (some 6_000_000) blank ≡ err publisher_dead
unfolding check_heartbeat
dead = refl

blocking_recv_dead_example :
    (blocking_recv
      (try_recv (λ _. alone))
      default_strategy
      (replicate 1024 (quiet 3 (some 6_000_000)))
      stream
      blank).0
    ≡ failed publisher_dead
blocking_recv_dead_example =
    blocking_recv_dead (try_recv (λ _. alone)) default_strategy 3 1024 (some 6_000_000) stream blank
      nothing_yet dead (omega arith)

asleep_now : sleeps default_strategy 110 ≡ true
unfolding sleeps
asleep_now = refl

recv_loop-woken_example :
    let publish : Region → Region = λ q. commit_to_ring 1 3 0 true true q in
    recv_loop
      (try_recv (λ _. alone))
      default_strategy
      (asleep 2 true publish none ∷ quiet 0 none ∷ [])
      110
      stream
      blank
    ≡ (
      received (record { block_idx = 1; len = 3 }),
      record stream { last_seq = 1 },
      hold 1 (remove_waiter 0 (publish (add_waiter 0 blank))),
    )
recv_loop-woken_example =
    recv_loop-woken nothing three_bytes 0 0 2 true true true none blank blank-Holds
      three_bytes-Fresh (omega arith) default_strategy 110 [] (quiet 0 none) asleep_now (λ q. refl)
