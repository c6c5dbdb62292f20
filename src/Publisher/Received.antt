-- ===== src/Publisher/Received.antt =====
-- From a publisher's `publish` to a subscriber's `try_recv`.
use crossbar.Base.{
  ℕ, ◌+◌, ◌≤◌, ◌<◌, ◌^◌, ◌≡◌, refl, ap, ◌∙◌, true, Option, none, some, List, arith, length,
  write_at, read_at, read_at-write_at, eq→==,
}
use crossbar.Error.{Result, ok, err}
use crossbar.Region.State.{Region, data_capacity}
use crossbar.Region.Ring.{commit_to_ring}
use crossbar.Region.FreeList.{FreeList}
use crossbar.Stream.Receive.{Stream, SlotRead, alone, try_recv, deref}
use crossbar.Stream.History.{Holds}
use crossbar.Stream.Append.{Fresh}
use crossbar.Loan.Write.{Loan, set_data, set_bytes, commit, drop_loan}
use crossbar.Loan.Copy.{set_data_plain}
use crossbar.Loan.Deliver.{caught_up, Reads, committed_deliver, set_bytes-Holds, commit_lem}
use crossbar.Publisher.Topics.{Topic}
use crossbar.Publisher.Blocks.{Publisher, loan}
use crossbar.Publisher.Publish.{publish}
use crossbar.Publisher.Refill.{expected}
use crossbar.Publisher.Kept.{with_pool, Loaned, loan-Loaned}

-- What a subscriber reads after its receive.
unfoldable pub receive : Stream → Region → Option (List ℕ)
unfolding try_recv deref
receive s r =
    let (sample, s', r') = try_recv (λ _. alone) s r in
    elim sample [ none ↦ none | some x ↦ some (deref x r') ]

-- The data of a publish, received by a stream that had received all before.
unfoldable pub publish_and_receive :
    (instant : ℕ) (now : Option ℕ) (addr : ℕ → ℕ)
    → Topic
    → List ℕ
    → Publisher
    → (type_size : ℕ) → Region
    → Option (List ℕ)
unfolding receive
publish_and_receive instant now addr handle content p type_size r =
    elim (publish instant now addr handle content p r) [
      | none ↦ none
      | some (sent, p', r') ↦ elim sent [
        | err e ↦ none
        | ok _ ↦ receive (caught_up handle.topic_idx type_size r) r'
      ]
    ]

abbrev Published : Type 0
Published = Option (Result (Unit {0}) × Publisher × Region)

-- What `publish` does with the result of the loan.
abbrev after_loan : (ℕ → ℕ) → List ℕ → Result Loan × Publisher × Region → Published
after_loan addr content t = elim t.0 [
  | err e ↦ some (err e, t.1, t.2)
  | ok l ↦
      let (copied, l', r2) = set_data (addr l.block_idx) content l t.2 in
      elim copied [
        | err e ↦ some (err e, t.1, drop_loan l' r2)
        | ok _ ↦ elim (commit true l' r2) [ none ↦ none | some r3 ↦ some (ok tt, t.1, r3) ]
      ]
]

abbrev after_copy : Publisher → Result (Unit {0}) × Loan × Region → Published
after_copy p u = elim u.0 [
  | err e ↦ some (err e, p, drop_loan u.1 u.2)
  | ok _ ↦ elim (commit true u.1 u.2) [ none ↦ none | some r3 ↦ some (ok tt, p, r3) ]
]

abbrev after_commit : Publisher → Option Region → Published
after_commit p o = elim o [ none ↦ none | some r3 ↦ some (ok tt, p, r3) ]

with_pool-Holds :
    (h : ℕ → SlotRead) (i a b c : ℕ) (r : Region) → Holds h i r → Holds h i (with_pool a b c r)
unfolding data_capacity
with_pool-Holds h i a b c r holds = record {
  power = holds.power;
  depth = holds.depth;
  blocks = holds.blocks;
  room = holds.room;
  recent = λ s pos below near.
      let e = holds.recent s pos below near in
      record {
        entry = e.entry;
        block = e.block;
        len = e.len;
        referenced = e.referenced;
        room = e.room;
      };
  apart = holds.apart;
  unused = holds.unused;
}

-- `publish` succeeds, and what it commits.
publish_lem :
    (instant : ℕ) (now : Option ℕ) (addr : ℕ → ℕ) (handle : Topic) (content : List ℕ)
    (p : Publisher) (r : Region) (b : ℕ)
    → (l : Loaned b handle r (loan instant now handle p r)) → length content ≤ data_capacity r
    → data_capacity r < 2 ^ 32
    → let r1 = with_pool l.kept.pool_head l.kept.heartbeat l.kept.last_freed r in
      publish instant now addr handle content p r
      ≡ some (
        ok tt,
        (loan instant now handle p r).1,
        commit_to_ring b
            (length content)
            handle.topic_idx
            true
            l.single_publisher
            (set_bytes b (write_at (r.bytes b) 0 content) r1),
      )
unfolding publish
publish_lem instant now addr handle content p r b l fits small =
    let t = loan instant now handle p r in
    let r1 = with_pool l.kept.pool_head l.kept.heartbeat l.kept.last_freed r in
    let r2 = set_bytes b (write_at (r.bytes b) 0 content) r1 in
    let x : Loan = record {
      capacity = data_capacity r;
      len = 0;
      block_idx = b;
      topic_idx = handle.topic_idx;
      single_publisher = l.single_publisher;
    } in
    ap (λ o. after_loan addr content (o, t.1, t.2)) l.loaned
    ∙ ap (λ (q : Region). after_loan addr content (ok x, t.1, q)) l.kept.same
    ∙ ap (after_copy t.1) (set_data_plain (addr b) content x r1 fits)
    ∙ ap (after_commit t.1) (commit_lem true (record x { len = length content }) r2 (omega arith))

-- A publish with a block that the ring does not hold, and data that fit: it succeeds, and a subscriber
-- that had received all before receives these data, read from the block. The block is the one that
-- the recycled block, the cache and the pool give. Nobody else acts meanwhile.
pub publish_and_receive_lem :
    (h : ℕ → SlotRead) (instant : ℕ) (now : Option ℕ) (addr : ℕ → ℕ) (handle : Topic)
    (content : List ℕ) (p : Publisher) (type_size : ℕ) (r : Region) (xs : List ℕ) (b : ℕ)
    → handle.publisher_id ≡ p.id
    → FreeList r xs
    → (expected r.last_freed p.block_cache xs).0 ≡ some b
    → Holds h handle.topic_idx r
    → Fresh h handle.topic_idx (record { block_idx = b; data_len = length content }) r
    → (r.topics handle.topic_idx).write_seq + 1 < 2 ^ 62
    → r.config.block_size < 2 ^ 32
    → publish_and_receive instant now addr handle content p type_size r ≡ some content
unfolding publish_and_receive receive try_recv data_capacity
publish_and_receive_lem h instant now addr handle content p type_size r xs b own free found holds
      fresh room small =
    let i = handle.topic_idx in
    let l = loan-Loaned instant now handle p r xs b own free found in
    let r1 = with_pool l.kept.pool_head l.kept.heartbeat l.kept.last_freed r in
    let bytes : ℕ → ℕ = write_at (r.bytes b) 0 content in
    let r2 = set_bytes b bytes r1 in
    let fits = fresh.len in
    let outcome : Published → Option (List ℕ) = λ o. elim o [
      | none ↦ none
      | some (sent, p', r') ↦ elim sent [
        | err e ↦ none
        | ok _ ↦ receive (caught_up i type_size r) r'
      ]
    ] in
    let reads : Reads b content r2 =
      ap (λ (f : ℕ → ℕ). read_at f 0 (length content)) (rw (eq→== b b refl) refl)
      ∙ read_at-write_at (r.bytes b) 0 content in
    let x : Loan = record {
      capacity = data_capacity r;
      len = length content;
      block_idx = b;
      topic_idx = i;
      single_publisher = l.single_publisher;
    } in
    ap outcome (publish_lem instant now addr handle content p r b l fits (omega arith))
    ∙ committed_deliver h true content x type_size r2
        (set_bytes-Holds h i b bytes r1
          (with_pool-Holds h i l.kept.pool_head l.kept.heartbeat l.kept.last_freed r holds))
        (record { block = fresh.block; len = fresh.len; unheld = fresh.unheld }) room reads
