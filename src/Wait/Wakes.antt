-- ===== src/Wait/Wakes.antt =====
-- A subscriber that sleeps while its publisher commits.
use crossbar.Base.{
  ℕ, ◌+◌, ◌^◌, ◌<◌, ◌≡◌, refl, ap, ◌∙◌, Bool, true, Option, none, some, List, [], ◌∷◌, ◌++◌, arith,
  eq→==, ne→==, le→leb, replicate, update,
}
use crossbar.Region.State.{Region, TopicEntry, u32, dec32, set_topic, data_capacity}
use crossbar.Region.Ring.{commit_to_ring}
use crossbar.Region.Commit.{slot_of-mod}
use crossbar.Stream.Receive.{Stream, SlotRead, Sample, alone, recv_slot, try_recv}
use crossbar.Stream.History.{Holds, hold}
use crossbar.Stream.Append.{Fresh, commit_to_ring-Holds}
use crossbar.Loan.Deliver.{caught_up, recv_next}
use crossbar.Wait.Strategy.{WaitStrategy, sleeps, changed, park, wait_until_not}
use crossbar.Wait.Blocking.{
  Round, Blocked, received, Next, finish, go_on, add_waiter, remove_waiter, futex_word, after_wait,
  after_retry, sleep_round, after_try, one_round, recv_loop,
}
use crossbar.Wait.Terminates.{idle_look, park-idle, futex_word-add_waiter}

-- Another number of waiters.
abbrev with_topic : ℕ → TopicEntry → Region → Region
with_topic i t r = set_topic r i t

with_waiters-Holds :
    (h : ℕ → SlotRead) (i x : ℕ) (r : Region)
    → Holds h i r
    → Holds h i (set_topic r i (record (r.topics i) { waiters = x }))
unfolding data_capacity
with_waiters-Holds h i x r v =
    let same : ((set_topic r i (record (r.topics i) { waiters = x })).topics i).write_seq
        ≡ (r.topics i).write_seq =
      rw (eq→== i i refl) refl in
    record {
      power = v.power;
      depth = v.depth;
      blocks = v.blocks;
      room = let room = v.room in omega arith;
      recent = λ s pos below near.
          let c = v.recent s pos (omega arith) (omega arith) in
          record {
            entry = c.entry;
            block = c.block;
            len = c.len;
            referenced = c.referenced;
            room = c.room;
          };
      apart = λ s t pos less below near. v.apart s t pos less (omega arith) (omega arith);
      unused = λ s above within. v.unused s (omega arith) within;
    }

-- A round asleep: nobody acts until, after `k` looks, the publisher commits.
abbrev pub asleep : (k : ℕ) (late : Bool) (publish : Region → Region) (now : Option ℕ) → Round
asleep k late publish now = record {
  at_try = λ r. r;
  at_load = λ r. r;
  at_retry = λ r. r;
  looks = replicate k idle_look ++ record { before = publish; late = late } ∷ [];
  now = now;
}

-- The word has changed at the last look, whether or not the deadline has passed.
wait_changed :
    (addr : Region → ℕ) (cur k : ℕ) (late : Bool) (publish : Region → Region) (r : Region)
    → addr r ≡ cur
    → ¬ (addr (publish r) ≡ addr r)
    → wait_until_not addr cur true (λ i r. r) (asleep k late publish none).looks r
      ≡ (changed (addr (publish r)), publish r)
unfolding wait_until_not park
wait_changed addr cur k late publish r e ne = rw (← e) (
    park-idle addr k (record { before = publish; late = late } ∷ []) r
    ∙ rw (ne→== (addr (publish r)) (addr r) ne) refl)

module _ (h : ℕ → SlotRead) (new : SlotRead) (i type_size k : ℕ) (wake single late : Bool)
    (now : Option ℕ) (r : Region) (holds : Holds h i r) (fresh : Fresh h i new r)
    (room : (r.topics i).write_seq + 1 < 2 ^ 62) where
  abbrev publish : Region → Region
  publish q = commit_to_ring new.block_idx new.data_len i wake single q

  abbrev registered : Region
  registered = add_waiter i r

  abbrev published : Region
  published = publish registered

  abbrev woken : Region
  woken = remove_waiter i published

  abbrev stream : Stream
  stream = caught_up i type_size r

  abbrev try_now : Stream → Region → Option Sample × Stream × Region
  try_now = try_recv (λ _. alone)

  abbrev sample : Sample
  sample = record { block_idx = new.block_idx; len = new.data_len }

  same_seq : (registered.topics i).write_seq ≡ (r.topics i).write_seq
  same_seq = rw (eq→== i i refl) refl

  nothing_yet : try_now stream r ≡ (none, stream, r)
  unfolding try_recv recv_slot
  nothing_yet = rw (le→leb (r.topics i).write_seq (r.topics i).write_seq (omega arith)) refl

  registered-Fresh : Fresh h i new registered
  unfolding data_capacity
  registered-Fresh = record {
    block = fresh.block;
    len = fresh.len;
    unheld =
        λ s pos below near. let same = same_seq in fresh.unheld s pos (omega arith) (omega arith);
  }

  abbrev history : ℕ → SlotRead
  history = update h ((registered.topics i).write_seq + 1) new

  after_commit :
      Holds history i published
      × ((published.topics i).write_seq ≡ (registered.topics i).write_seq + 1)
      × (published.bytes ≡ registered.bytes)
  after_commit =
      commit_to_ring-Holds h new i wake single registered
        (with_waiters-Holds h i (u32 ((r.topics i).waiters + 1)) r holds) registered-Fresh
        (let same = same_seq in omega arith)

  word_changes : ¬ (futex_word i published ≡ futex_word i registered)
  word_changes e = let next = after_commit.1 in omega arith

  woken_seq : (woken.topics i).write_seq ≡ (r.topics i).write_seq + 1
  woken_seq =
      let same = same_seq in
      let next = after_commit.1 in
      let kept : (woken.topics i).write_seq ≡ (published.topics i).write_seq =
        rw (eq→== i i refl) refl in
      omega arith

  abbrev as_sample : Option SlotRead × Stream × Region → Option Sample × Stream × Region
  as_sample t = (
    elim t.0 [
      | none ↦ none
      | some slot ↦ some (record { block_idx = slot.block_idx; len = slot.data_len })
    ],
    t.1,
    t.2,
  )

  newest : history ((r.topics i).write_seq + 1) ≡ new
  newest =
      let same = same_seq in
      rw (eq→== ((registered.topics i).write_seq + 1) ((r.topics i).write_seq + 1) (omega arith))
        refl

  abbrev next_stream : Stream
  next_stream = record stream { last_seq = (r.topics i).write_seq + 1 }

  received_next : try_now stream woken ≡ (some sample, next_stream, hold new.block_idx woken)
  unfolding try_recv
  received_next =
      let v =
        with_waiters-Holds history i (dec32 (published.topics i).waiters) published
          after_commit.0 in
      let (_, pos) = slot_of-mod woken 0 v.power v.depth in
      ap as_sample (recv_next history stream woken (r.topics i).write_seq v woken_seq refl pos)
      ∙ ap (λ (found : SlotRead). as_sample (some found, next_stream, hold found.block_idx woken))
          newest

  sleep_round-woken :
      (iter : ℕ)
      → sleep_round try_now (asleep k late publish now) iter stream r ≡ go_on iter stream woken
  unfolding sleep_round after_retry after_wait
  sleep_round-woken iter =
      ap (after_retry try_now (asleep k late publish now) i (futex_word i r) iter) nothing_yet
      ∙ ap (after_wait try_now (asleep k late publish now) i iter stream) (
          wait_changed (futex_word i) (futex_word i r) k late publish registered
            (futex_word-add_waiter i r) word_changes)

  first_round :
      (strategy : WaitStrategy) (iter : ℕ)
      → sleeps strategy iter ≡ true
      → one_round try_now strategy (asleep k late publish now) iter stream r
        ≡ go_on iter stream woken
  unfolding one_round after_try
  first_round strategy iter e =
      ap (after_try try_now strategy (asleep k late publish now) iter) nothing_yet
      ∙ rw e (sleep_round-woken iter)

  abbrev proceed : WaitStrategy → List Round → Next try_now → Blocked Sample × Stream × Region
  proceed strategy es n = elim n [
    | finish out ↦ out
    | go_on iter' s' r' ↦ recv_loop try_now strategy es iter' s' r'
  ]

  -- A stream that had received all is asleep, registered as a waiter, while another process commits a
  -- block to its topic, after any number of looks at the word and even as the deadline passes: the
  -- receive does not miss it. It ends in the next iteration with the sample of that block and length.
  pub recv_loop-woken :
      (strategy : WaitStrategy) (iter : ℕ) (es : List Round) (e : Round)
      → sleeps strategy iter ≡ true
      → ((q : Region) → e.at_try q ≡ q)
      → recv_loop try_now strategy (asleep k late publish now ∷ e ∷ es) iter stream r
        ≡ (received sample, next_stream, hold new.block_idx woken)
  unfolding recv_loop one_round after_try
  recv_loop-woken strategy iter es e asleep_now quiet =
      ap (proceed strategy (e ∷ es)) (first_round strategy iter asleep_now)
      ∙ ap (λ q. proceed strategy es (after_try try_now strategy e iter (try_now stream q)))
          (quiet woken)
      ∙ ap (λ t. proceed strategy es (after_try try_now strategy e iter t)) received_next
