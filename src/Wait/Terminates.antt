-- ===== src/Wait/Terminates.antt =====
-- A wait for a publisher that is dead ends.
use crossbar.Base.{
  ℕ, zero, suc, ◌+◌, ◌%◌, ◌≤◌, ◌<◌, ◌≡◌, refl, ap, ◌∙◌, true, false, ◌⊎◌, inl, inr, Option, none,
  some, List, [], ◌∷◌, ◌++◌, arith, ◌==◌, eq→==, replicate, Bool-cases,
}
use crossbar.Error.{publisher_dead, Result, ok, err}
use crossbar.Region.State.{Region, TopicEntry}
use crossbar.Publisher.Blocks.{check_heartbeat}
use crossbar.Stream.Receive.{Stream}
use crossbar.Wait.Strategy.{
  WaitStrategy, sleeps, saturating_add, Look, timed_out, park, wait_until_not,
}
use crossbar.Wait.Blocking.{
  Round, Blocked, failed, Next, finish, go_on, add_waiter, remove_waiter, futex_word, checked,
  after_wait, after_retry, sleep_round, spin_round, after_try, one_round, after_first, recv_loop,
  blocking_recv,
}

abbrev pub idle_look : Look
idle_look = record { before = λ r. r; late = false }

-- Nobody does anything for `k` looks.
pub park-idle :
    (addr : Region → ℕ) (k : ℕ) (rest : List Look) (r : Region)
    → park addr (addr r) (replicate k idle_look ++ rest) r ≡ park addr (addr r) rest r
unfolding park
park-idle addr zero rest r = refl
park-idle addr (suc k) rest r = rw (eq→== (addr r) (addr r) refl) (park-idle addr k rest r)

park-late :
    (addr : Region → ℕ) (r : Region)
    → park addr (addr r) (record { before = λ r. r; late = true } ∷ []) r ≡ (timed_out, r)
unfolding park
park-late addr r = rw (eq→== (addr r) (addr r) refl) refl

-- A round in which nobody acts; a sleep ends by its deadline, after `k` looks.
abbrev pub quiet : (k : ℕ) (now : Option ℕ) → Round
quiet k now = record {
  at_try = λ r. r;
  at_load = λ r. r;
  at_retry = λ r. r;
  looks = replicate k idle_look ++ record { before = λ r. r; late = true } ∷ [];
  now = now;
}

pub futex_word-add_waiter : (i : ℕ) (r : Region) → futex_word i (add_waiter i r) ≡ futex_word i r
futex_word-add_waiter i r = rw (eq→== i i refl) refl

check_heartbeat-topics :
    (now : Option ℕ) (r : Region) (topics : ℕ → TopicEntry)
    → check_heartbeat now (record r { topics = topics }) ≡ check_heartbeat now r
unfolding check_heartbeat
check_heartbeat-topics none r topics = refl
check_heartbeat-topics (some now) r topics = refl

-- Parking without any change times out, where the word is the one that was read.
timed_out_lem :
    (addr : Region → ℕ) (cur k : ℕ) (r : Region)
    → addr r ≡ cur
    → wait_until_not addr cur true (λ i r. r) (quiet k none).looks r ≡ (timed_out, r)
unfolding wait_until_not
timed_out_lem addr cur k r e =
    rw (← e) (park-idle addr k (record { before = λ r. r; late = true } ∷ []) r ∙ park-late addr r)

module _ {G : Type 0} (try_fn : Stream → Region → Option G × Stream × Region) (s : Stream)
    (r : Region) (now : Option ℕ) (nothing : try_fn s r ≡ (none, s, r))
    (dead : check_heartbeat now r ≡ err publisher_dead) where
  abbrev Fails : Next try_fn → Type 0
  Fails n = (q : Region) × (n ≡ finish (failed publisher_dead, s, q))

  checked-Fails :
      (iter : ℕ) (q : Region)
      → check_heartbeat now q ≡ err publisher_dead
      → Fails (checked try_fn now iter s q)
  checked-Fails iter q e = (
    q,
    ap
        (λ (h : Result (Unit {0})). elim h as (λ _. Next try_fn) [
          | ok _ ↦ go_on iter s q
          | err e ↦ finish (failed e, s, q)
        ])
        e,
  )

  sleep_round-Fails : (k iter : ℕ) → Fails (sleep_round try_fn (quiet k now) iter s r)
  unfolding sleep_round after_retry after_wait
  sleep_round-Fails k iter =
      let i = s.topic_idx in
      let ra = add_waiter i r in
      let (q, end) =
        checked-Fails iter (remove_waiter i ra)
          (check_heartbeat-topics now r (remove_waiter i ra).topics ∙ dead) in
      (
        q,
        ap (after_retry try_fn (quiet k now) i (futex_word i r) iter) nothing
            ∙ ap (after_wait try_fn (quiet k now) i iter s)
                (timed_out_lem (futex_word i) (futex_word i r) k ra (futex_word-add_waiter i r))
            ∙ end,
      )

  spin_round-result :
      (k iter : ℕ)
      → iter < 1024
      → Fails (spin_round try_fn (quiet k now) iter s r)
        ⊎ ((iter + 1 < 1024) × (spin_round try_fn (quiet k now) iter s r ≡ go_on (iter + 1) s r))
  unfolding spin_round
  spin_round-result k iter small =
      let next : saturating_add iter 1 ≡ iter + 1 = omega arith in
      elim (Bool-cases ((iter + 1) % 1024 == 0)) [
        | inl turn ↦
            inl (let (q, end) = checked-Fails (iter + 1) r dead in (q, rw (next, turn) end))
        | inr other ↦ inr (ground arith, rw (next, other) refl)
      ]

  one_round-result :
      (strategy : WaitStrategy) (k iter : ℕ)
      → iter < 1024
      → Fails (one_round try_fn strategy (quiet k now) iter s r)
        ⊎ ((iter + 1 < 1024)
            × (one_round try_fn strategy (quiet k now) iter s r ≡ go_on (iter + 1) s r))
  unfolding one_round after_try
  one_round-result strategy k iter small =
      let start = ap (after_try try_fn strategy (quiet k now) iter) nothing in
      elim (Bool-cases (sleeps strategy iter)) [
        | inl asleep ↦ inl (let (q, end) = sleep_round-Fails k iter in (q, start ∙ rw asleep end))
        | inr awake ↦ elim (spin_round-result k iter small) [
          | inl (q, end) ↦ inl (q, start ∙ rw awake end)
          | inr (below, on) ↦ inr (below, start ∙ rw awake on)
        ]
      ]

  abbrev proceed : List Round → WaitStrategy → Next try_fn → Blocked G × Stream × Region
  proceed es strategy n = elim n [
    | finish out ↦ out
    | go_on iter' s' r' ↦ recv_loop try_fn strategy es iter' s' r'
  ]

  recv_loop-failed :
      (strategy : WaitStrategy) (k n iter : ℕ)
      → iter < 1024
      → 1024 ≤ n + iter
      → (recv_loop try_fn strategy (replicate n (quiet k now)) iter s r).0 ≡ failed publisher_dead
  unfolding recv_loop
  recv_loop-failed strategy k zero iter small enough = absurd (omega arith)
  recv_loop-failed strategy k (suc n) iter small enough =
      let es = replicate n (quiet k now) in
      elim (one_round-result strategy k iter small) [
        | inl (q, end) ↦ ap (λ m. (proceed es strategy m).0) end
        | inr (below, on) ↦
            ap (λ m. (proceed es strategy m).0) on
            ∙ recv_loop-failed strategy k n (iter + 1) below (omega arith)
      ]

-- A blocking receive of any kind ends with `PublisherDead`, under every strategy, after at most 1024
-- iterations, however often each sleep looks at the word, where there is nothing to receive and the
-- publisher's heartbeat is stale, while nobody else acts.
pub blocking_recv_dead :
    {G : Type 0} (try_fn : Stream → Region → Option G × Stream × Region) (strategy : WaitStrategy)
    (k n : ℕ) (now : Option ℕ) (s : Stream) (r : Region)
    → try_fn s r ≡ (none, s, r)
    → check_heartbeat now r ≡ err publisher_dead
    → 1024 ≤ n
    → (blocking_recv try_fn strategy (replicate n (quiet k now)) s r).0 ≡ failed publisher_dead
unfolding blocking_recv
blocking_recv_dead try_fn strategy k n now s r nothing dead enough =
    ap (λ t. (after_first try_fn strategy (replicate n (quiet k now)) t).0) nothing
    ∙ recv_loop-failed try_fn s r now nothing dead strategy k n 0 (omega arith) (omega arith)
