-- ===== src/Publisher/Kept.antt =====
-- What a loan leaves alone: everything but the head of the pool, the recycled block and the heartbeat.
use mathlib.Core.Path.{subst}
use Prim.Native.Nat.{bit_and}
use crossbar.Base.{
  ℕ, zero, suc, ◌+◌, ◌-◌, ◌≡◌, refl, sym, ap, ◌∙◌, Bool, not, ◌&&◌, Option, none, some, List, [],
  ◌∷◌, arith, ltb, leb, ◌==◌, if◌then◌else◌, if_ind, length, Bool-cases, inl, inr, eq→==,
}
use crossbar.Error.{Result, ok, err, pool_exhausted, handle_mismatch}
use crossbar.Layout.{no_block}
use crossbar.Region.State.{Region, data_capacity, u32}
use crossbar.Region.Pool.{
  taken, exhausted, corrupt, return_now, swap, alloc_plan, alloc_from, alloc_block, alloc_recycled,
}
use crossbar.Region.FreeList.{FreeList}
use crossbar.Loan.Write.{Loan}
use crossbar.Publisher.Topics.{Topic}
use crossbar.Publisher.Blocks.{
  Publisher, update_heartbeat, refill, refilled, alloc_cached, beat, loan_preamble, loan,
}
use crossbar.Publisher.Refill.{expected, alloc_cached-AllocatesAs}

abbrev pub with_pool : (pool_head heartbeat last_freed : ℕ) → Region → Region
with_pool pool_head heartbeat last_freed r = record r {
  pool_head = pool_head;
  heartbeat = heartbeat;
  last_freed = last_freed;
}

pub record Kept (r r' : Region) : Type 0 where
  pub pool_head : ℕ
  pub heartbeat : ℕ
  pub last_freed : ℕ
  pub same : r' ≡ with_pool pool_head heartbeat last_freed r

Kept-refl : (r : Region) → Kept r r
Kept-refl r = record {
  pool_head = r.pool_head;
  heartbeat = r.heartbeat;
  last_freed = r.last_freed;
  same = refl;
}

Kept-trans : (r r' r'' : Region) → Kept r r' → Kept r' r'' → Kept r r''
Kept-trans r r' r'' k l = record {
  pool_head = l.pool_head;
  heartbeat = l.heartbeat;
  last_freed = l.last_freed;
  same = l.same ∙ ap (with_pool l.pool_head l.heartbeat l.last_freed) k.same;
}

alloc_block-Kept : (r : Region) → Kept r (alloc_block [] r).1
unfolding alloc_block alloc_from
alloc_block-Kept r =
    elim (alloc_plan r.pool_head r)
        as (λ o. alloc_plan r.pool_head r ≡ o → Kept r (alloc_block [] r).1) [
          | return_now a ↦ λ e. rw (alloc_from, e) (Kept-refl r)
          | swap idx new_head ↦ λ e.
              rw (alloc_from, e)
                (record {
                  pool_head = new_head;
                  heartbeat = r.heartbeat;
                  last_freed = r.last_freed;
                  same = refl;
                })
        ]
      refl

refill-Kept : (n : ℕ) (cache : List ℕ) (r : Region) → Kept r (refill n cache r).2
unfolding refill
refill-Kept zero cache r = Kept-refl r
refill-Kept (suc n) cache r =
    let k = alloc_block-Kept r in
    let r' = (alloc_block [] r).1 in
    elim (alloc_block [] r).0
        as (λ o. (alloc_block [] r).0 ≡ o → Kept r (refill (suc n) cache r).2) [
          | taken idx ↦ λ e.
              rw (refill, e)
                (Kept-trans r r' (refill n (idx ∷ cache) r').2 k (refill-Kept n (idx ∷ cache) r'))
          | exhausted ↦ λ e. rw (refill, e) k
          | corrupt ↦ λ e. rw (refill, e) k
        ]
      refl

refilled-Kept :
    (r : Region) (t : Result (Unit {0}) × List ℕ × Region) (p : Publisher)
    → Kept r t.2
    → Kept r (refilled t p).2
unfolding refilled
refilled-Kept r t p k =
    elim t.0 as (λ o. t.0 ≡ o → Kept r (refilled t p).2) [
      | err e ↦ λ q. rw q k
      | ok u ↦ λ q. rw q k
    ]
      refl

alloc_cached-Kept : (p : Publisher) (r : Region) → Kept r (alloc_cached p r).2
unfolding alloc_cached alloc_recycled
alloc_cached-Kept p r =
    let r1 : Region = record r { last_freed = no_block } in
    let k1 : Kept r r1 = record {
      pool_head = r.pool_head;
      heartbeat = r.heartbeat;
      last_freed = no_block;
      same = refl;
    } in
    elim (Bool-cases (not (r.last_freed == no_block))) [
      | inl one ↦ rw (alloc_cached, alloc_recycled, one) k1
      | inr other ↦ elim (Bool-cases (ltb 0 (length p.block_cache))) [
        | inl cached ↦ rw (alloc_cached, alloc_recycled, other, cached) k1
        | inr empty ↦
            rw (alloc_cached, alloc_recycled, other, empty)
              (refilled-Kept r _ p
                (Kept-trans r r1 _ k1 (refill-Kept (8 - length p.block_cache) p.block_cache r1)))
      ]
    ]

beat-Kept :
    (instant : ℕ) (now : Option ℕ) (p : Publisher) (r : Region)
    → Kept r (beat instant now p r).1 × ((beat instant now p r).0.block_cache ≡ p.block_cache)
unfolding beat update_heartbeat
beat-Kept instant none p r =
    if_ind (λ (t : Publisher × Region). Kept r t.1 × (t.0.block_cache ≡ p.block_cache))
      ((bit_and p.loan_count 0x3ff == 0)
        && leb r.config.heartbeat_interval (instant - p.last_heartbeat))
      (λ e. (Kept-refl r, refl)) (λ e. (Kept-refl r, refl))
beat-Kept instant (some now) p r =
    if_ind (λ (t : Publisher × Region). Kept r t.1 × (t.0.block_cache ≡ p.block_cache))
      ((bit_and p.loan_count 0x3ff == 0)
        && leb r.config.heartbeat_interval (instant - p.last_heartbeat))
      (λ e. (
        record {
          pool_head = r.pool_head;
          heartbeat = if ltb r.heartbeat now then now else r.heartbeat;
          last_freed = r.last_freed;
          same = refl;
        },
        refl,
      ))
      (λ e. (Kept-refl r, refl))

-- `last_freed` is left by the heartbeat.
beat-last_freed :
    (instant : ℕ) (now : Option ℕ) (p : Publisher) (r : Region)
    → (beat instant now p r).1.last_freed ≡ r.last_freed
unfolding beat update_heartbeat
beat-last_freed instant none p r = ground arith
beat-last_freed instant (some now) p r = ground arith

beat-FreeList :
    (instant : ℕ) (now : Option ℕ) (p : Publisher) (r : Region) (xs : List ℕ)
    → FreeList r xs
    → FreeList (beat instant now p r).1 xs
unfolding beat update_heartbeat
beat-FreeList instant none p r xs f =
    if_ind (λ (t : Publisher × Region). FreeList t.1 xs)
      ((bit_and p.loan_count 0x3ff == 0)
        && leb r.config.heartbeat_interval (instant - p.last_heartbeat))
      (λ e. f) (λ e. f)
beat-FreeList instant (some now) p r xs f =
    if_ind (λ (t : Publisher × Region). FreeList t.1 xs)
      ((bit_and p.loan_count 0x3ff == 0)
        && leb r.config.heartbeat_interval (instant - p.last_heartbeat))
      (λ e. record {
        small = f.small;
        word = f.word;
        chain = f.chain;
        inside = f.inside;
        distinct = f.distinct;
      })
      (λ e. f)

-- What a loan gives, when there is a block.
pub record Loaned (b : ℕ) (handle : Topic) (r : Region) (t : Result Loan × Publisher × Region)
    : Type 0 where
  pub single_publisher : Bool
  pub loaned :
      t.0
      ≡ ok (record {
        capacity = data_capacity r;
        len = 0;
        block_idx = b;
        topic_idx = handle.topic_idx;
        single_publisher = single_publisher;
      })
  pub kept : Kept r t.2

abbrev after_alloc : Result (Option ℕ) × Publisher × Region → Result ℕ × Publisher × Region
after_alloc t = (
  elim t.0 [ ok idx ↦ elim idx [ none ↦ err pool_exhausted | some b ↦ ok b ] | err e ↦ err e ],
  t.1,
  t.2,
)

abbrev after_preamble : Topic → Result ℕ × Publisher × Region → Result Loan × Publisher × Region
after_preamble handle t = (
  elim t.0 [
    | ok b ↦ ok (record {
      capacity = data_capacity t.2;
      len = 0;
      block_idx = b;
      topic_idx = handle.topic_idx;
      single_publisher = t.1.is_owner;
    })
    | err e ↦ err e
  ],
  t.1,
  t.2,
)

after_preamble-Loaned :
    (b : ℕ) (handle : Topic) (r r' : Region) (p' : Publisher)
    → Kept r r'
    → Loaned b handle r (after_preamble handle (ok b, p', r'))
unfolding data_capacity
after_preamble-Loaned b handle r r' p' k = record {
  single_publisher = p'.is_owner;
  loaned =
      ap
        (λ (q : Region). ok (record {
          capacity = data_capacity q;
          len = 0;
          block_idx = b;
          topic_idx = handle.topic_idx;
          single_publisher = p'.is_owner;
        }))
        k.same;
  kept = k;
}

pub loan-Loaned :
    (instant : ℕ) (now : Option ℕ) (handle : Topic) (p : Publisher) (r : Region) (xs : List ℕ)
    (b : ℕ)
    → handle.publisher_id ≡ p.id
    → FreeList r xs
    → (expected r.last_freed p.block_cache xs).0 ≡ some b
    → Loaned b handle r (loan instant now handle p r)
unfolding loan loan_preamble
loan-Loaned instant now handle p r xs b own f found =
    let p0 : Publisher = record p { loan_count = u32 (p.loan_count + 1) } in
    let p1 : Publisher = (beat instant now p0 r).0 in
    let r1 : Region = (beat instant now p0 r).1 in
    let (kept, cache) = beat-Kept instant now p0 r in
    let free = beat-FreeList instant now p0 r xs f in
    let t = alloc_cached p1 r1 in
    let alloc = alloc_cached-AllocatesAs p1.block_cache p1 r1 xs free in
    let got : t.0 ≡ ok (some b) =
      alloc.0
      ∙ ap (λ last. ok (expected last p1.block_cache xs).0) (beat-last_freed instant now p0 r)
      ∙ ap (λ c. ok (expected r.last_freed c xs).0) cache
      ∙ ap ok found in
    let preamble : loan_preamble instant now handle p r ≡ (ok b, t.1, t.2) =
      ap (λ q. if not q then (err handle_mismatch, p, r) else after_alloc t)
        (eq→== handle.publisher_id p.id own)
      ∙ ap (λ o. after_alloc (o, t.1, t.2)) got in
    subst (λ (q : Result ℕ × Publisher × Region). Loaned b handle r (after_preamble handle q))
      (sym preamble)
      (after_preamble-Loaned b handle r t.2 t.1
        (Kept-trans r r1 t.2 kept (alloc_cached-Kept p1 r1)))
