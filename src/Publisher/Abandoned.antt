-- ===== src/Publisher/Abandoned.antt =====
-- What a pinned loan that is dropped without a publish leaves to subscribers.
use crossbar.Base.{
  ℕ, ◌/◌, ◌^◌, ◌≤◌, ◌<◌, ◌≡◌, refl, ap, ◌∙◌, false, some, List, arith, leb, ◌==◌, eq→==, ne→==,
  lt→ltb, lt→leb, le→ltb, length, write_at, read_at, read_at-write_at,
}
use mathlib.Core.Path.{subst, sym}
use crossbar.Layout.{no_block}
use crossbar.Region.State.{Region, TopicEntry, u32, set_topic}
use crossbar.Stream.Receive.{Stream, alone_pinned, enter, enter_pinned, try_recv_pinned}
use crossbar.Loan.Write.{PinnedLoan, set_bytes, set_pinned_data, clear_writer, drop_pinned_loan}

-- A pinned receive of a number that is new to the stream, with no writer and few readers.
try_recv_pinned_lem :
    (topic last_seq type_size b : ℕ) (r : Region)
    → (r.topics topic).pinned_readers ≡ 0
    → (r.topics topic).pinned_block ≡ b
    → b < r.config.block_count
    → r.config.block_count ≤ no_block
    → last_seq < (r.topics topic).pinned_seq / 2 ^ 32
    → let (guard, _, r') =
        try_recv_pinned alone_pinned
          (record { topic_idx = topic; last_seq = last_seq; type_size = type_size })
          r in
      (guard
        ≡ some (record { block_idx = b; len = u32 (r.topics topic).pinned_seq; topic_idx = topic }))
      × (r'.bytes ≡ r.bytes)
unfolding try_recv_pinned enter_pinned enter
try_recv_pinned_lem topic last_seq type_size b r readers block below count unseen =
    let packed = (r.topics topic).pinned_seq in
    let fresh : leb (packed / 2 ^ 32) last_seq ≡ false = lt→leb _ _ unseen in
    let some_packed : (packed == 0) ≡ false = ne→== _ _ (omega arith) in
    let valid : (b == no_block) ≡ false = ne→== _ _ (omega arith) in
    rw (some_packed, fresh, block, valid, lt→ltb b r.config.block_count below)
      (rw (enter_pinned, enter, readers)
        (rw (eq→== topic topic refl) (rw (eq→== packed packed refl) (refl, refl))))

-- A stream that has not yet received the last pinned publish of its topic: if a pinned loan then
-- writes data that fit and is dropped without a publish, the stream receives a guard on the loan's
-- block with the old length, and the block begins with the data of the dropped loan.
pub drop_pinned_loan-try_recv_pinned :
    (content : List ℕ) (loan : PinnedLoan) (last_seq type_size : ℕ) (r : Region)
    → (r.topics loan.topic_idx).pinned_block ≡ loan.block_idx
    → loan.block_idx < r.config.block_count
    → r.config.block_count ≤ no_block
    → last_seq < (r.topics loan.topic_idx).pinned_seq / 2 ^ 32
    → length content ≤ loan.capacity
    → let s : Stream = record {
      topic_idx = loan.topic_idx;
      last_seq = last_seq;
      type_size = type_size;
    } in
      let r1 = (set_pinned_data content loan r).2 in
      let (guard, _, r2) = try_recv_pinned alone_pinned s (drop_pinned_loan loan r1) in
      (guard
        ≡ some (record {
          block_idx = loan.block_idx;
          len = u32 (r.topics loan.topic_idx).pinned_seq;
          topic_idx = loan.topic_idx;
        }))
      × (read_at (r2.bytes loan.block_idx) 0 (length content) ≡ content)
unfolding set_pinned_data drop_pinned_loan clear_writer
drop_pinned_loan-try_recv_pinned content loan last_seq type_size r block below count unseen fits =
    let topic = loan.topic_idx in
    let written = set_bytes loan.block_idx (write_at (r.bytes loan.block_idx) 0 content) r in
    let r2 : Region = set_topic written topic (record (r.topics topic) { pinned_readers = 0 }) in
    let here : r2.topics topic ≡ record (r.topics topic) { pinned_readers = 0 } =
      rw (eq→== topic topic refl) refl in
    let (guard, bytes) =
      try_recv_pinned_lem topic last_seq type_size loan.block_idx r2
        (ap (λ (t : TopicEntry). t.pinned_readers) here)
        (ap (λ (t : TopicEntry). t.pinned_block) here ∙ block) below count
        (subst (λ (t : TopicEntry). last_seq < t.pinned_seq / 2 ^ 32) (sym here) unseen) in
    let same_len : u32 (r2.topics topic).pinned_seq ≡ u32 (r.topics topic).pinned_seq =
      ap (λ (t : TopicEntry). u32 t.pinned_seq) here in
    let there : r2.bytes loan.block_idx ≡ write_at (r.bytes loan.block_idx) 0 content =
      rw (eq→== loan.block_idx loan.block_idx refl) refl in
    rw (le→ltb loan.capacity (length content) fits) (
      guard
          ∙ ap (λ n. some (record { block_idx = loan.block_idx; len = n; topic_idx = topic }))
              same_len,
      ap (λ (m : ℕ → ℕ → ℕ). read_at (m loan.block_idx) 0 (length content)) bytes
          ∙ ap (λ m. read_at m 0 (length content)) there
          ∙ read_at-write_at (r.bytes loan.block_idx) 0 content,
    )
