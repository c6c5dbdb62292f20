-- ===== src/Stream/History.antt =====
-- What a subscriber receives from the commits to its topic while nobody else acts.
use crossbar.Base.{
  ℕ, zero, suc, ◌+◌, ◌-◌, ◌%◌, ◌^◌, ◌≤◌, ◌<◌, ◌≡◌, ◌≢◌, refl, ap, ◌∙◌, true, false, Option, none,
  some, arith, leb, ltb, ◌==◌, if◌then◌else◌, update, eq→==, ne→==, lt→ltb, le→ltb, le→leb, lt→leb,
  is_power_of_two,
}
use native.Mathlib.Decide.{dec_le}
use native.Mathlib.Nat.{mod-eq_of_lt}
use crossbar.Layout.{no_block}
use crossbar.Region.State.{
  Region, RingEntry, TopicEntry, set_topic, data_capacity, block_ptr_checked, u32,
}
use crossbar.Region.Ring.{slot_of}
use crossbar.Region.Commit.{slot_of-mod}
use crossbar.Stream.Receive.{
  Stream, SlotRead, alone, acquire_block, finish_read, try_read_slot_raw, scan_window, scan_start,
  recv_slot,
}

-- The ring entry of the sequence number `s` hands out `found`: the block exists, its data fit, and
-- the ring holds a reference to it.
pub record Committed (topic_idx : ℕ) (found : SlotRead) (s : ℕ) (r : Region) : Type 0 where
  pub entry :
      r.ring topic_idx (s % r.config.ring_depth)
      ≡ record { seq = s; block_idx = found.block_idx; data_len = found.data_len }
  pub block : found.block_idx < r.config.block_count
  pub len : found.data_len ≤ data_capacity r
  pub referenced : 0 < r.refcount found.block_idx
  pub room : r.refcount found.block_idx + 1 < 2 ^ 32

-- The ring holds the last `ring_depth` commits of the history `h`, in blocks of their own; a slot
-- that was never used holds no block.
pub record Holds (h : ℕ → SlotRead) (topic_idx : ℕ) (r : Region) : Type 0 where
  pub power : is_power_of_two r.config.ring_depth ≡ true
  pub depth : r.config.ring_depth ≤ 2 ^ 32
  pub blocks : r.config.block_count ≤ no_block
  pub room : (r.topics topic_idx).write_seq < 2 ^ 62
  pub recent :
      (s : ℕ)
      → 0 < s
      → s ≤ (r.topics topic_idx).write_seq
      → (r.topics topic_idx).write_seq < s + r.config.ring_depth
      → Committed topic_idx (h s) s r
  pub apart :
      (s t : ℕ)
      → 0 < s
      → s < t
      → t ≤ (r.topics topic_idx).write_seq
      → (r.topics topic_idx).write_seq < s + r.config.ring_depth
      → (h s).block_idx ≢ (h t).block_idx
  pub unused :
      (s : ℕ)
      → (r.topics topic_idx).write_seq < s
      → s ≤ r.config.ring_depth
      → (r.ring topic_idx (s % r.config.ring_depth)).block_idx ≡ no_block

-- A change of the topic that keeps its sequence number.
pub set_topic-Holds :
    (h : ℕ → SlotRead) (i : ℕ) (t : TopicEntry) (r : Region)
    → t.write_seq ≡ (r.topics i).write_seq
    → Holds h i r
    → Holds h i (set_topic r i t)
unfolding data_capacity
set_topic-Holds h i t r e holds =
    let same : ((set_topic r i t).topics i).write_seq ≡ (r.topics i).write_seq =
      rw (eq→== i i refl) e in
    let small = holds.room in
    record {
      power = holds.power;
      depth = holds.depth;
      blocks = holds.blocks;
      room = omega arith;
      recent = λ s pos below near.
          let c = holds.recent s pos (omega arith) (omega arith) in
          record {
            entry = c.entry;
            block = c.block;
            len = c.len;
            referenced = c.referenced;
            room = c.room;
          };
      apart = λ s t pos less below near. holds.apart s t pos less (omega arith) (omega arith);
      unused = λ s above within. holds.unused s (omega arith) within;
    }

-- The state after a reader has taken a reference to a block.
abbrev pub hold : ℕ → Region → Region
hold idx r = record r { refcount = update r.refcount idx (r.refcount idx + 1) }

acquire_block_lem :
    (idx : ℕ) (r : Region)
    → idx < r.config.block_count
    → 0 < r.refcount idx
    → r.refcount idx + 1 < 2 ^ 32
    → acquire_block idx r ≡ some (hold idx r)
unfolding acquire_block
acquire_block_lem idx r below pos room =
    let counted : u32 (r.refcount idx + 1) ≡ r.refcount idx + 1 = mod-eq_of_lt room in
    rw (acquire_block, block_ptr_checked, lt→ltb idx r.config.block_count below)
      (rw (ne→== (r.refcount idx) 0 (omega arith), counted) refl)

finish_read_held :
    (seq slot : ℕ) (found : SlotRead) (s : Stream) (r : Region)
    → found.block_idx < r.config.block_count
    → 0 < r.refcount found.block_idx
    → r.refcount found.block_idx + 1 < 2 ^ 32
    → (r.ring s.topic_idx slot).seq ≡ seq
    → finish_read (λ r. r) seq slot found s r
      ≡ (some found, record s { last_seq = seq }, hold found.block_idx r)
unfolding finish_read
finish_read_held seq slot found s r below pos room e =
    rw (finish_read, acquire_block_lem found.block_idx r below pos room) (rw (eq→== _ _ e) refl)

try_read_slot_raw_held :
    (h : ℕ → SlotRead) (seq : ℕ) (s : Stream) (r : Region)
    → Holds h s.topic_idx r
    → Committed s.topic_idx (h seq) seq r
    → try_read_slot_raw alone seq s r
      ≡ (some (h seq), record s { last_seq = seq }, hold (h seq).block_idx r)
unfolding try_read_slot_raw
try_read_slot_raw_held h seq s r i c =
    let (place, _) = slot_of-mod r seq i.power i.depth in
    let entry : r.ring s.topic_idx (slot_of r seq)
        ≡ record { seq = seq; block_idx = (h seq).block_idx; data_len = (h seq).data_len } =
      ap (r.ring s.topic_idx) place ∙ c.entry in
    let count = i.blocks in
    let below = c.block in
    let fits = c.len in
    let valid : ((h seq).block_idx == no_block) ≡ false = ne→== _ _ (omega arith) in
    rw (try_read_slot_raw, entry, eq→== seq seq refl, valid, lt→ltb _ _ below, le→ltb _ _ fits)
      (finish_read_held seq (slot_of r seq) (h seq) s r below c.referenced c.room
        (ap (λ (t : RingEntry). t.seq) entry))

-- The oldest of the numbers up to `w` that are above `last` and among the last `depth` ones.
unfoldable pub oldest_unseen : (w last depth : ℕ) → ℕ
oldest_unseen w last depth = if ltb (last + depth) w then w + 1 - depth else last + 1

scan_start-oldest_unseen :
    (w last depth : ℕ) → last < w → 0 < depth → scan_start w last depth ≡ oldest_unseen w last depth
unfolding scan_start oldest_unseen
scan_start-oldest_unseen w last depth h pos = ground arith

oldest_unseen_range :
    (w last depth : ℕ)
    → last < w
    → 0 < depth
    → let c = oldest_unseen w last depth in (last < c) × (c ≤ w) × (w < c + depth)
unfolding oldest_unseen
oldest_unseen_range w last depth h pos = ground arith

scan_window_held :
    (h : ℕ → SlotRead) (n seq : ℕ) (s : Stream) (r : Region)
    → 0 < n
    → Holds h s.topic_idx r
    → Committed s.topic_idx (h seq) seq r
    → scan_window (λ _. alone) n seq s r
      ≡ (some (h seq), record s { last_seq = seq }, hold (h seq).block_idx r)
unfolding scan_window
scan_window_held h zero seq s r pos i c = absurd (omega arith)
scan_window_held h (suc n) seq s r pos i c =
    ap
      (λ (t : Option SlotRead × Stream × Region). (elim t.0 [
        | none ↦ scan_window (λ _. alone) n (seq + 1) t.1 t.2
        | some slot ↦ (some slot, t.1, t.2)
      ]))
      (try_read_slot_raw_held h seq s r i c)

-- A receive on a stream that is behind its topic returns the oldest entry that the stream has not
-- seen, or the oldest in the ring if the stream has fallen further behind; the stream then stands at
-- that entry's number, and the block has one reference more. A stream that has caught up receives
-- nothing and changes nothing. The ring holds the history `h` and nobody else acts meanwhile.
pub recv_slot_history :
    (h : ℕ → SlotRead) (s : Stream) (r : Region)
    → Holds h s.topic_idx r
    → let w = (r.topics s.topic_idx).write_seq in
      let c = oldest_unseen w s.last_seq r.config.ring_depth in
      recv_slot (λ _. alone) s r ≡ (
        if leb w s.last_seq
        then (none, s, r)
        else (some (h c), record s { last_seq = c }, hold (h c).block_idx r))
unfolding recv_slot
recv_slot_history h s r i =
    let w = (r.topics s.topic_idx).write_seq in
    let c = oldest_unseen w s.last_seq r.config.ring_depth in
    let (_, pos) = slot_of-mod r 0 i.power i.depth in
    elim (dec_le w s.last_seq) [
      | yes caught_up ↦ rw (le→leb _ _ caught_up) refl
      | no behind ↦
          let (after, below, near) =
            oldest_unseen_range w s.last_seq r.config.ring_depth (omega arith) pos in
          let start = scan_start-oldest_unseen w s.last_seq r.config.ring_depth (omega arith) pos in
          rw (lt→leb w s.last_seq (omega arith), start)
            (scan_window_held h (w + 1 - c) c s r (omega arith) i
              (i.recent c (omega arith) below near))
    ]
