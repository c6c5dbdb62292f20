-- ===== src/Loan/Deliver.antt =====
-- From the publisher's data to the subscriber's sample.
use crossbar.Base.{
  ℕ, ◌+◌, ◌≤◌, ◌<◌, ◌^◌, ◌≡◌, refl, ap, ◌∙◌, Bool, false, Option, none, some, List, arith, leb,
  if◌then◌else◌, eq→==, le→leb, lt→leb, update, length, write_at, read_at, read_at-write_at,
}
use native.Mathlib.Nat.{mod-eq_of_lt}
use crossbar.Error.{Result}
use crossbar.Region.State.{Region, u32, data_capacity}
use crossbar.Region.Ring.{commit_to_ring}
use crossbar.Region.Commit.{slot_of-mod}
use crossbar.Stream.Receive.{Stream, SlotRead, Sample, alone, recv_slot, try_recv, deref}
use crossbar.Stream.History.{Holds, oldest_unseen, recv_slot_history, hold}
use crossbar.Stream.Append.{Fresh, commit_to_ring-Holds}
use crossbar.Loan.Write.{Loan, set_data, set_bytes, commit}
use crossbar.Loan.Copy.{set_data_plain}

-- Data from a loan to a subscriber: they are written, published and received, and the sample is
-- read.
unfoldable pub deliver :
    (addr : ℕ) (wake : Bool) → List ℕ → Loan → Stream → Region → Option (List ℕ)
unfolding set_data commit try_recv deref
deliver addr wake content loan s r =
    let (_, loan', r1) = set_data addr content loan r in
    elim (commit wake loan' r1) [
      | none ↦ none
      | some r2 ↦
          let (sample, s', r3) = try_recv (λ _. alone) s r2 in
          elim sample [ none ↦ none | some x ↦ some (deref x r3) ]
    ]

-- The block of a region reads as the content.
abbrev pub Reads : ℕ → List ℕ → Region → Type 0
Reads block_idx content r = read_at (r.bytes block_idx) 0 (length content) ≡ content

pub set_bytes-Holds :
    (h : ℕ → SlotRead) (topic_idx block_idx : ℕ) (bytes : ℕ → ℕ) (r : Region)
    → Holds h topic_idx r
    → Holds h topic_idx (set_bytes block_idx bytes r)
unfolding data_capacity
set_bytes-Holds h topic_idx block_idx bytes r i = record {
  power = i.power;
  depth = i.depth;
  blocks = i.blocks;
  room = i.room;
  recent = λ s pos below near.
      let c = i.recent s pos below near in
      record {
        entry = c.entry;
        block = c.block;
        len = c.len;
        referenced = c.referenced;
        room = c.room;
      };
  apart = i.apart;
  unused = i.unused;
}

oldest_unseen_next :
    (current_seq last_seq depth w : ℕ)
    → current_seq ≡ w + 1
    → last_seq ≡ w
    → 0 < depth
    → oldest_unseen current_seq last_seq depth ≡ w + 1
unfolding oldest_unseen
oldest_unseen_next current_seq last_seq depth w next last pos = ground arith

if_false : {A : Type 0} {b : Bool} (x y : A) → b ≡ false → (if b then x else y) ≡ y
if_false {A} {b} x y e = ap (λ b. if b then x else y) e

abbrev some_result : SlotRead → Stream → Region → Option SlotRead × Stream × Region
some_result found s r = (some found, s, r)

-- The receive of the one entry that is new to the stream.
pub recv_next :
    (h : ℕ → SlotRead) (s : Stream) (r : Region) (w : ℕ)
    → Holds h s.topic_idx r
    → (r.topics s.topic_idx).write_seq ≡ w + 1
    → s.last_seq ≡ w
    → 0 < r.config.ring_depth
    → recv_slot (λ _. alone) s r
      ≡ (some (h (w + 1)), record s { last_seq = w + 1 }, hold (h (w + 1)).block_idx r)
recv_next h s r w i next last pos =
    let current_seq = (r.topics s.topic_idx).write_seq in
    let c = oldest_unseen current_seq s.last_seq r.config.ring_depth in
    let only : c ≡ w + 1 =
      oldest_unseen_next current_seq s.last_seq r.config.ring_depth w next last pos in
    let behind : leb current_seq s.last_seq ≡ false = lt→leb _ _ (omega arith) in
    recv_slot_history h s r i
    ∙ if_false _ _ behind
    ∙ ap (λ c. some_result (h c) (record s { last_seq = c }) (hold (h c).block_idx r)) only

-- What a subscriber reads after the receive.
abbrev pub read_result : Option SlotRead × Stream × Region → Option (List ℕ)
read_result t =
    let sample : Option Sample = elim t.0 [
      | none ↦ none
      | some slot ↦ some (record { block_idx = slot.block_idx; len = slot.data_len })
    ] in
    elim sample [ none ↦ none | some x ↦ some (deref x t.2) ]

-- A stream that has received all that was published.
abbrev pub caught_up : (topic_idx type_size : ℕ) → Region → Stream
caught_up topic_idx type_size r = record {
  topic_idx = topic_idx;
  last_seq = (r.topics topic_idx).write_seq;
  type_size = type_size;
}

-- A block that was written, committed as the next entry of the ring, and received.
pub committed_deliver :
    (h : ℕ → SlotRead) (wake : Bool) (content : List ℕ) (loan : Loan) (type_size : ℕ) (r : Region)
    → Holds h loan.topic_idx r
    → Fresh h loan.topic_idx (record { block_idx = loan.block_idx; data_len = length content }) r
    → (r.topics loan.topic_idx).write_seq + 1 < 2 ^ 62
    → Reads loan.block_idx content r
    → let r2 =
        commit_to_ring loan.block_idx
          (length content)
          loan.topic_idx
          wake
          loan.single_publisher
          r in
      read_result (recv_slot (λ _. alone) (caught_up loan.topic_idx type_size r) r2) ≡ some content
unfolding deref
committed_deliver h wake content loan type_size r i fresh room reads =
    let new : SlotRead = record { block_idx = loan.block_idx; data_len = length content } in
    let w = (r.topics loan.topic_idx).write_seq in
    let r2 : Region =
      commit_to_ring loan.block_idx (length content) loan.topic_idx wake loan.single_publisher r in
    let (holds, next, same_bytes) =
      commit_to_ring-Holds h new loan.topic_idx wake loan.single_publisher r i fresh room in
    let (_, pos) = slot_of-mod r2 0 holds.power holds.depth in
    let s = caught_up loan.topic_idx type_size r in
    let is_new : update h (w + 1) new (w + 1) ≡ new = rw (eq→== (w + 1) (w + 1) refl) refl in
    ap read_result (recv_next (update h (w + 1) new) s r2 w holds next refl pos)
    ∙ ap (λ (found : SlotRead). some (read_at (r2.bytes found.block_idx) 0 found.data_len)) is_new
    ∙ ap (λ (b : ℕ → ℕ → ℕ). some (read_at (b loan.block_idx) 0 (length content))) same_bytes
    ∙ ap some reads

pub commit_lem :
    (wake : Bool) (loan : Loan) (r : Region)
    → loan.len < 2 ^ 32
    → commit wake loan r
      ≡ some (commit_to_ring loan.block_idx loan.len loan.topic_idx wake loan.single_publisher r)
unfolding commit
commit_lem wake loan r small =
    let len : u32 loan.len ≡ loan.len = mod-eq_of_lt small in
    rw (le→leb loan.len 0xffff_ffff (omega arith), len) refl

-- Data that fit the block of a loan are written, published and received: the sample of a stream that
-- had received all before reads as these data, whatever the block held, wherever it lies, and with
-- or without a wake. The ring holds a history in which no entry has the loan's block; nobody else
-- acts meanwhile.
pub deliver_lem :
    (h : ℕ → SlotRead) (addr : ℕ) (wake : Bool) (content : List ℕ) (loan : Loan) (type_size : ℕ)
    (r : Region)
    → Holds h loan.topic_idx r
    → Fresh h loan.topic_idx (record { block_idx = loan.block_idx; data_len = length content }) r
    → (r.topics loan.topic_idx).write_seq + 1 < 2 ^ 62
    → length content ≤ loan.capacity
    → loan.capacity < 2 ^ 32
    → deliver addr wake content loan (caught_up loan.topic_idx type_size r) r ≡ some content
unfolding deliver set_data commit try_recv data_capacity
deliver_lem h addr wake content loan type_size r i fresh room fits small =
    let b = loan.block_idx in
    let written = write_at (r.bytes b) 0 content in
    let r1 : Region = set_bytes b written r in
    let loan' : Loan = record loan { len = length content } in
    let reads : Reads b content r1 =
      ap (λ (f : ℕ → ℕ). read_at f 0 (length content)) (rw (eq→== b b refl) refl)
      ∙ read_at-write_at (r.bytes b) 0 content in
    let fresh1 : Fresh h loan.topic_idx (record { block_idx = b; data_len = length content }) r1 =
      record { block = fresh.block; len = fresh.len; unheld = fresh.unheld } in
    let result : Option Region → Option (List ℕ) = λ m. elim m [
      | none ↦ none
      | some r2 ↦ read_result (recv_slot (λ _. alone) (caught_up loan.topic_idx type_size r) r2)
    ] in
    ap (λ (t : Result (Unit {0}) × Loan × Region). result (commit wake t.1 t.2))
      (set_data_plain addr content loan r fits)
    ∙ ap result (commit_lem wake loan' r1 (omega arith))
    ∙ committed_deliver h wake content loan type_size r1
        (set_bytes-Holds h loan.topic_idx b written r i) fresh1 room reads
