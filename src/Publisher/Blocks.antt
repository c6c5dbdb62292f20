-- ===== src/Publisher/Blocks.antt =====
-- The publisher's block cache, its loans, and what its drop gives back. What the clocks read is an
-- argument: `instant` is the monotonic clock, `now` the time of day, if it is after the epoch.
use Prim.Native.Nat.{bit_and}
use crossbar.Base.{
  ℕ, zero, suc, ◌+◌, ◌-◌, Bool, not, ◌&&◌, Option, none, some, List, [], ◌∷◌, ltb, leb, ◌==◌,
  if◌then◌else◌, update, length,
}
use crossbar.Error.{
  Reason, region_corrupted, handle_mismatch, pool_exhausted, clock_error, publisher_dead,
  invalid_region, pinned_readers_active, Result, ok, err,
}
use crossbar.Layout.{no_block, pinned_writer_active}
use crossbar.Region.State.{Region, u32, u64, set_topic, data_capacity}
use crossbar.Region.Pool.{taken, exhausted, corrupt, alloc_block, alloc_recycled, free_block}
use crossbar.Region.Ring.{set_pinned_block}
use crossbar.Publisher.Topics.{Topic}
use crossbar.Loan.Write.{Loan, TypedLoan, PinnedLoan}

-- `block_cache` holds the first `cache_len` blocks of the array, the last one first; `pinned_len` is
-- the length of `pinned_blocks`.
pub record Publisher : Type 0 where
  pub id : ℕ
  pub is_owner : Bool
  pub last_heartbeat : ℕ
  pub loan_count : ℕ
  pub block_cache : List ℕ
  pub pinned_blocks : ℕ → ℕ
  pub pinned_len : ℕ

-- `update_heartbeat` and `check_heartbeat` of the region.
unfoldable pub update_heartbeat : (now : Option ℕ) → Region → Result (Unit {0}) × Region
update_heartbeat none r = (err clock_error, r)
update_heartbeat (some now) r =
    (ok tt, record r { heartbeat = if ltb r.heartbeat now then now else r.heartbeat })

unfoldable pub check_heartbeat : (now : Option ℕ) → Region → Result (Unit {0})
check_heartbeat none r = err clock_error
check_heartbeat (some now) r =
    if ltb (u64 r.config.stale_timeout) (now - r.heartbeat) then err publisher_dead else ok tt

-- The loop that refills the cache, with `n` places left.
unfoldable pub refill : ℕ → List ℕ → Region → Result (Unit {0}) × List ℕ × Region
refill zero cache r = (ok tt, cache, r)
refill (suc n) cache r =
    let (a, r') = alloc_block [] r in
    elim a [
      | taken idx ↦ refill n (idx ∷ cache) r'
      | exhausted ↦ (ok tt, cache, r')
      | corrupt ↦ (err (region_corrupted Reason.free_list_out_of_bounds), cache, r')
    ]

-- The last block of the cache.
unfoldable pub pop_cache : List ℕ → Option ℕ × List ℕ
pop_cache [] = (none, [])
pop_cache (idx ∷ cache) = (some idx, cache)

-- The cache after a refill, or its error.
unfoldable pub refilled :
    Result (Unit {0}) × List ℕ × Region → Publisher → Result (Option ℕ) × Publisher × Region
unfolding pop_cache
refilled t p = elim t.0 [
  | ok _ ↦ let (idx, cache) = pop_cache t.1 in (ok idx, record p { block_cache = cache }, t.2)
  | err e ↦ (err e, record p { block_cache = t.1 }, t.2)
]

unfoldable pub alloc_cached : Publisher → Region → Result (Option ℕ) × Publisher × Region
unfolding refill refilled
alloc_cached p r =
    let (recycled, r1) = alloc_recycled r in
    elim recycled [
      | some idx ↦ (ok (some idx), p, r1)
      | none ↦
          if ltb 0 (length p.block_cache)
          then (let (idx, cache) = pop_cache p.block_cache in
              (ok idx, record p { block_cache = cache }, r1))
          else refilled (refill (8 - length p.block_cache) p.block_cache r1) p
    ]

-- The heartbeat of every 1024th loan.
unfoldable pub beat : (instant : ℕ) (now : Option ℕ) → Publisher → Region → Publisher × Region
unfolding update_heartbeat
beat instant now p r =
    if (bit_and p.loan_count 0x3ff == 0)
      && leb r.config.heartbeat_interval (instant - p.last_heartbeat)
    then (let (done, r') = update_heartbeat now r in
        (elim done [ ok _ ↦ record p { last_heartbeat = instant } | err _ ↦ p ], r'))
    else (p, r)

unfoldable pub loan_preamble :
    (instant : ℕ) (now : Option ℕ) → Topic → Publisher → Region → Result ℕ × Publisher × Region
unfolding beat alloc_cached
loan_preamble instant now handle p r =
    if not (handle.publisher_id == p.id)
    then (err handle_mismatch, p, r)
    else (let (p1, r1) = beat instant now (record p { loan_count = u32 (p.loan_count + 1) }) r in
        let (block, p2, r2) = alloc_cached p1 r1 in
        (
          elim block [
            | ok idx ↦ elim idx [ none ↦ err pool_exhausted | some b ↦ ok b ]
            | err e ↦ err e
          ],
          p2,
          r2,
        ))

unfoldable pub loan :
    (instant : ℕ) (now : Option ℕ) → Topic → Publisher → Region → Result Loan × Publisher × Region
unfolding loan_preamble
loan instant now handle p r =
    let (block, p', r') = loan_preamble instant now handle p r in
    (
      elim block [
        | ok b ↦ ok (record {
          capacity = data_capacity r';
          len = 0;
          block_idx = b;
          topic_idx = handle.topic_idx;
          single_publisher = p'.is_owner;
        })
        | err e ↦ err e
      ],
      p',
      r',
    )

unfoldable pub loan_typed :
    (instant : ℕ) (now : Option ℕ)
    → Topic
    → Publisher
    → Region
    → Result TypedLoan × Publisher × Region
unfolding loan_preamble
loan_typed instant now handle p r =
    let (block, p', r') = loan_preamble instant now handle p r in
    (
      elim block [
        | ok b ↦
            ok (record {
              block_idx = b;
              topic_idx = handle.topic_idx;
              single_publisher = p'.is_owner;
            })
        | err e ↦ err e
      ],
      p',
      r',
    )

-- The compare-exchange of the reader count from 0 to the writer's mark.
unfoldable pub claim_writer : (topic_idx : ℕ) → Region → Option Region
claim_writer topic_idx r =
    let t = r.topics topic_idx in
    if t.pinned_readers == 0
    then some (set_topic r topic_idx (record t { pinned_readers = pinned_writer_active }))
    else none

-- The block of a pinned topic, which the first loan allocates.
unfoldable pub pinned_block_of :
    (topic_idx : ℕ) → Publisher → Region → Result ℕ × Publisher × Region
unfolding alloc_cached
pinned_block_of topic_idx p r =
    if not (p.pinned_blocks topic_idx == no_block)
    then (ok (p.pinned_blocks topic_idx), p, r)
    else (let (block, p1, r1) = alloc_cached p r in
        elim block [
          | ok idx ↦ elim idx [
            | none ↦ (err pool_exhausted, p1, r1)
            | some b ↦ (
              ok b,
              record p1 { pinned_blocks = update p1.pinned_blocks topic_idx b },
              set_pinned_block topic_idx b r1,
            )
          ]
          | err e ↦ (err e, p1, r1)
        ])

unfoldable pub loan_pinned : Topic → Publisher → Region → Result PinnedLoan × Publisher × Region
unfolding pinned_block_of claim_writer
loan_pinned handle p r =
    if not (handle.publisher_id == p.id)
    then (err handle_mismatch, p, r)
    else if leb p.pinned_len handle.topic_idx
    then (err (invalid_region (Reason.topic_idx_out_of_range handle.topic_idx p.pinned_len)), p, r)
    else (let (block, p1, r1) = pinned_block_of handle.topic_idx p r in
        elim block [
          | ok b ↦ elim (claim_writer handle.topic_idx r1) [
            | none ↦
                let current = (r1.topics handle.topic_idx).pinned_readers in
                (
                  err (
                      pinned_readers_active (if current == pinned_writer_active then 0 else current)
                        handle.topic_idx),
                  p1,
                  r1,
                )
            | some r2 ↦ (
              ok (record {
                capacity = data_capacity r2;
                len = 0;
                block_idx = b;
                topic_idx = handle.topic_idx;
              }),
              p1,
              r2,
            )
          ]
          | err e ↦ (err e, p1, r1)
        ])

unfoldable pub subscriber_count : Topic → Publisher → Region → Result ℕ
subscriber_count handle p r =
    if not (handle.publisher_id == p.id)
    then err handle_mismatch
    else ok (r.topics handle.topic_idx).subscriber_count

-- The blocks that `Drop` gives back: the pinned ones from topic `i` on with `n` left, the recycled
-- one, and the cache, from its first place on.
unfoldable pub free_pinned : (n i : ℕ) → (ℕ → ℕ) → Region → Region
free_pinned zero i pinned r = r
free_pinned (suc n) i pinned r =
    free_pinned n (i + 1) pinned
      (if not (pinned i == no_block) then free_block [] (pinned i) r else r)

unfoldable pub free_cache : List ℕ → Region → Region
free_cache [] r = r
free_cache (idx ∷ cache) r = free_block [] idx (free_cache cache r)

unfoldable pub drop_publisher : Publisher → Region → Publisher × Region
unfolding free_pinned free_cache
drop_publisher p r =
    let r1 = free_pinned p.pinned_len 0 p.pinned_blocks r in
    let (recycled, r2) = alloc_recycled r1 in
    let r3 : Region = elim recycled [ none ↦ r2 | some idx ↦ free_block [] idx r2 ] in
    (record p { block_cache = [] }, free_cache p.block_cache r3)
