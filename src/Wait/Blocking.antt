-- ===== src/Wait/Blocking.antt =====
-- src/platform/subscription.rs: `blocking_recv`, which the waiting receives share.
use crossbar.Base.{ℕ, ◌+◌, ◌%◌, true, Option, none, some, List, [], ◌∷◌, ◌==◌, if◌then◌else◌}
use crossbar.Error.{Error, ok, err}
use crossbar.Region.State.{Region, u32, dec32, set_topic}
use crossbar.Region.Pool.{Interference}
use crossbar.Publisher.Blocks.{check_heartbeat}
use crossbar.Stream.Receive.{
  Stream, Sample, PinnedGuard, During, DuringPinned, try_recv, try_recv_typed, try_recv_pinned,
}
use crossbar.Wait.Strategy.{
  WaitStrategy, default_strategy, sleeps, saturating_add, Look, Waited, changed, timed_out,
  still_parked, wait_until_not,
}

-- One round of the loop: what others do before each of its reads, the looks while it sleeps, and
-- the time of day for the check of the heartbeat.
pub record Round : Type 0 where
  pub at_try : Interference
  pub at_load : Interference
  pub at_retry : Interference
  pub looks : List Look
  pub now : Option ℕ

-- A result, or the wait goes on when the rounds are used up.
pub data Blocked {ℓ} (G : Type ℓ) : Type ℓ where
  received : G → Blocked G
  failed : Error → Blocked G
  waiting : Blocked G

abbrev pub add_waiter : ℕ → Region → Region
add_waiter topic_idx r =
    let t = r.topics topic_idx in set_topic r topic_idx (record t { waiters = u32 (t.waiters + 1) })

abbrev pub remove_waiter : ℕ → Region → Region
remove_waiter topic_idx r =
    let t = r.topics topic_idx in set_topic r topic_idx (record t { waiters = dec32 t.waiters })

-- The low half of the sequence number.
abbrev pub futex_word : ℕ → Region → ℕ
futex_word topic_idx r = u32 (r.topics topic_idx).write_seq

module _ {G : Type 0} (try_fn : Stream → Region → Option G × Stream × Region) where
  -- How a round goes on: with a result, or in the next round.
  pub data Next : Type 0 where
    finish : Blocked G × Stream × Region → Next
    go_on : (iter : ℕ) → Stream → Region → Next

  abbrev pub checked : (now : Option ℕ) (iter : ℕ) → Stream → Region → Next
  checked now iter s r = elim (check_heartbeat now r) [
    | ok _ ↦ go_on iter s r
    | err e ↦ finish (failed e, s, r)
  ]

  -- After the sleep: no longer a waiter, and the heartbeat is checked if nothing has changed.
  unfoldable pub after_wait : Round → (topic_idx iter : ℕ) → Stream → Waited × Region → Next
  after_wait e topic_idx iter s w = elim w.0 [
    | still_parked ↦ finish (waiting, s, w.1)
    | timed_out ↦ checked e.now iter s (remove_waiter topic_idx w.1)
    | changed v ↦ go_on iter s (remove_waiter topic_idx w.1)
  ]

  -- After the second try: register as a waiter, and park until the word differs from `cur`.
  unfoldable pub after_retry : Round → (topic_idx cur iter : ℕ) → Option G × Stream × Region → Next
  unfolding after_wait
  after_retry e topic_idx cur iter t = elim t.0 [
    | some g ↦ finish (received g, t.1, t.2)
    | none ↦ after_wait e topic_idx iter t.1 (
        wait_until_not (futex_word topic_idx) cur true (λ i r. r) e.looks
          (add_waiter topic_idx t.2))
  ]

  -- The sleep: read the word and try again.
  unfoldable pub sleep_round : Round → (iter : ℕ) → Stream → Region → Next
  unfolding after_retry
  sleep_round e iter s r =
      let r1 = e.at_load r in
      after_retry e s.topic_idx (futex_word s.topic_idx r1) iter (try_fn s (e.at_retry r1))

  -- The other strategies: the hint, and the heartbeat in every 1024th iteration.
  unfoldable pub spin_round : Round → (iter : ℕ) → Stream → Region → Next
  spin_round e iter s r =
      let iter' = saturating_add iter 1 in
      if iter' % 1024 == 0 then checked e.now iter' s r else go_on iter' s r

  unfoldable pub after_try : WaitStrategy → Round → (iter : ℕ) → Option G × Stream × Region → Next
  unfolding sleep_round spin_round
  after_try strategy e iter t = elim t.0 [
    | some g ↦ finish (received g, t.1, t.2)
    | none ↦ if sleeps strategy iter then sleep_round e iter t.1 t.2 else spin_round e iter t.1 t.2
  ]

  unfoldable pub one_round : WaitStrategy → Round → (iter : ℕ) → Stream → Region → Next
  unfolding after_try
  one_round strategy e iter s r = after_try strategy e iter (try_fn s (e.at_try r))

  unfoldable pub recv_loop :
      WaitStrategy → List Round → (iter : ℕ) → Stream → Region → Blocked G × Stream × Region
  unfolding one_round
  recv_loop strategy [] iter s r = (waiting, s, r)
  recv_loop strategy (e ∷ es) iter s r = elim (one_round strategy e iter s r) [
    | finish out ↦ out
    | go_on iter' s' r' ↦ recv_loop strategy es iter' s' r'
  ]

  unfoldable pub after_first :
      WaitStrategy → List Round → Option G × Stream × Region → Blocked G × Stream × Region
  unfolding recv_loop
  after_first strategy rounds t = elim t.0 [
    | some g ↦ (received g, t.1, t.2)
    | none ↦ recv_loop strategy rounds 0 t.1 t.2
  ]

  -- The first try stands before the loop.
  unfoldable pub blocking_recv :
      WaitStrategy → List Round → Stream → Region → Blocked G × Stream × Region
  unfolding after_first
  blocking_recv strategy rounds s r = after_first strategy rounds (try_fn s r)

-- `during` is what others do inside a try.
unfoldable pub recv_with :
    WaitStrategy
    → (during : ℕ → During) → List Round
    → Stream
    → Region
    → Blocked Sample × Stream × Region
unfolding blocking_recv
recv_with strategy during rounds s r = blocking_recv (try_recv during) strategy rounds s r

unfoldable pub recv :
    (during : ℕ → During) → List Round → Stream → Region → Blocked Sample × Stream × Region
unfolding recv_with
recv during rounds s r = recv_with default_strategy during rounds s r

-- The guard is the index of the block, as in `try_recv_typed`.
unfoldable pub recv_typed_with :
    (size : ℕ)
    → WaitStrategy
    → (during : ℕ → During) → List Round
    → Stream
    → Region
    → Blocked ℕ × Stream × Region
unfolding blocking_recv
recv_typed_with size strategy during rounds s r =
    blocking_recv (try_recv_typed size during) strategy rounds s r

unfoldable pub recv_typed :
    (size : ℕ) → (during : ℕ → During) → List Round → Stream → Region → Blocked ℕ × Stream × Region
unfolding recv_typed_with
recv_typed size during rounds s r = recv_typed_with size default_strategy during rounds s r

unfoldable pub recv_pinned_with :
    WaitStrategy
    → DuringPinned
    → List Round
    → Stream
    → Region
    → Blocked PinnedGuard × Stream × Region
unfolding blocking_recv
recv_pinned_with strategy during rounds s r =
    blocking_recv (try_recv_pinned during) strategy rounds s r

unfoldable pub recv_pinned :
    DuringPinned → List Round → Stream → Region → Blocked PinnedGuard × Stream × Region
unfolding recv_pinned_with
recv_pinned during rounds s r = recv_pinned_with default_strategy during rounds s r
