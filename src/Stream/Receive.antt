-- ===== src/Stream/Receive.antt =====
-- The receives without waiting, and what dropping the guards and the stream does.
use crossbar.Base.{
  ℕ, zero, suc, ◌+◌, ◌-◌, ◌/◌, ◌^◌, not, ◌&&◌, Option, none, some, List, ltb, leb, ◌==◌,
  if◌then◌else◌, update, read_at,
}
use crossbar.Layout.{no_block, pinned_writer_active}
use crossbar.Region.State.{Region, u32, dec32, set_topic, data_capacity, block_ptr_checked}
use crossbar.Region.Pool.{Interference, release_block}
use crossbar.Region.Ring.{slot_of}

pub record Stream : Type 0 where
  pub topic_idx : ℕ
  pub last_seq : ℕ
  pub type_size : ℕ

pub record SlotRead : Type 0 where
  pub block_idx : ℕ
  pub data_len : ℕ

pub record Sample : Type 0 where
  pub block_idx : ℕ
  pub len : ℕ

-- `data_ptr` is the data of the block, `readers` the counter of the topic.
pub record PinnedGuard : Type 0 where
  pub block_idx : ℕ
  pub len : ℕ
  pub topic_idx : ℕ

-- What others do before each read of shared memory that follows the first.
pub record During : Type 0 where
  pub at_block : Interference
  pub at_len : Interference
  pub at_refcount : Interference
  pub at_recheck : Interference

abbrev pub alone : During
alone = record { at_block = λ r. r; at_len = λ r. r; at_refcount = λ r. r; at_recheck = λ r. r }

-- The loop on the reference count. A round that fails has changed nothing, so the loop acts as its
-- last round does.
unfoldable pub acquire_block : ℕ → Region → Option Region
unfolding block_ptr_checked
acquire_block block_idx r = elim (block_ptr_checked r block_idx) [
  | none ↦ none
  | some idx ↦
      if r.refcount idx == 0
      then none
      else some (record r { refcount = update r.refcount idx (u32 (r.refcount idx + 1)) })
]

-- From the reference on: the second check of the sequence number.
unfoldable pub finish_read :
    Interference → (seq slot : ℕ) → SlotRead → Stream → Region → Option SlotRead × Stream × Region
unfolding acquire_block
finish_read at_recheck seq slot found s r = elim (acquire_block found.block_idx r) [
  | none ↦ (none, s, r)
  | some held ↦
      let r' = at_recheck held in
      if not ((r'.ring s.topic_idx slot).seq == seq)
      then (none, s, release_block found.block_idx r')
      else (some found, record s { last_seq = seq }, r')
]

unfoldable pub try_read_slot_raw :
    During → (seq : ℕ) → Stream → Region → Option SlotRead × Stream × Region
unfolding slot_of finish_read
try_read_slot_raw during seq s r =
    let slot = slot_of r seq in
    if not ((r.ring s.topic_idx slot).seq == seq)
    then (none, s, r)
    else (let r1 = during.at_block r in
        let block_idx = (r1.ring s.topic_idx slot).block_idx in
        let r2 = during.at_len r1 in
        let data_len = (r2.ring s.topic_idx slot).data_len in
        if block_idx == no_block
        then (none, s, r2)
        else if not (ltb block_idx r2.config.block_count)
        then (none, s, r2)
        else if ltb (data_capacity r2) data_len
        then (none, s, r2)
        else finish_read during.at_recheck seq slot
            (record { block_idx = block_idx; data_len = data_len }) s (during.at_refcount r2))

-- The scan of the ring window, from `seq` on with `n` sequence numbers left.
unfoldable pub scan_window :
    (ℕ → During) → (n seq : ℕ) → Stream → Region → Option SlotRead × Stream × Region
unfolding try_read_slot_raw
scan_window during zero seq s r = (none, s, r)
scan_window during (suc n) seq s r =
    let (found, s', r') = try_read_slot_raw (during seq) seq s r in
    elim found [ none ↦ scan_window during n (seq + 1) s' r' | some slot ↦ (some slot, s', r') ]

unfoldable pub scan_start : (current_seq last_seq ring_depth : ℕ) → ℕ
scan_start current_seq last_seq ring_depth =
    if leb ring_depth (current_seq - (last_seq + 1))
    then current_seq - ring_depth + 1
    else last_seq + 1

-- What `try_recv` and `try_recv_typed` share.
unfoldable pub recv_slot : (ℕ → During) → Stream → Region → Option SlotRead × Stream × Region
unfolding scan_start scan_window
recv_slot during s r =
    let current_seq = (r.topics s.topic_idx).write_seq in
    if leb current_seq s.last_seq
    then (none, s, r)
    else (let start = scan_start current_seq s.last_seq r.config.ring_depth in
        scan_window during (current_seq + 1 - start) start s r)

unfoldable pub try_recv : (ℕ → During) → Stream → Region → Option Sample × Stream × Region
unfolding recv_slot
try_recv during s r =
    let (found, s', r') = recv_slot during s r in
    (
      elim found [
        | none ↦ none
        | some slot ↦ some (record { block_idx = slot.block_idx; len = slot.data_len })
      ],
      s',
      r',
    )

-- `size` is `size_of::<T>()`; the guard is the index of the block.
unfoldable pub try_recv_typed :
    (size : ℕ) → (ℕ → During) → Stream → Region → Option ℕ × Stream × Region
unfolding recv_slot
try_recv_typed size during s r =
    if not (s.type_size == 0) && not (s.type_size == size)
    then (none, s, r)
    else (let (found, s', r') = recv_slot during s r in
        (elim found [ none ↦ none | some slot ↦ some slot.block_idx ], s', r'))

-- `deref` and `to_vec`
unfoldable pub deref : Sample → Region → List ℕ
deref sample r = read_at (r.bytes sample.block_idx) 0 sample.len

-- `Drop` of a `Sample` and of a `TypedSample`
unfoldable pub drop_sample : Sample → Region → Region
unfolding release_block
drop_sample sample r = release_block sample.block_idx r

-- `Drop` of a `Stream`
unfoldable pub drop_stream : Stream → Region → Region
drop_stream s r =
    let t = r.topics s.topic_idx in
    set_topic r s.topic_idx (record t { subscriber_count = dec32 t.subscriber_count })

-- What others do in `try_recv_pinned` before it reads the block index, before the round of the loop
-- on the reader count that succeeds, and before the sequence number is read again.
pub record DuringPinned : Type 0 where
  pub at_block : Interference
  pub at_readers : Interference
  pub at_recheck : Interference

abbrev pub alone_pinned : DuringPinned
alone_pinned = record { at_block = λ r. r; at_readers = λ r. r; at_recheck = λ r. r }

-- `fetch_sub(1)` of the reader count.
unfoldable pub leave : ℕ → Region → Region
leave topic_idx r =
    let t = r.topics topic_idx in
    set_topic r topic_idx (record t { pinned_readers = dec32 t.pinned_readers })

unfoldable pub enter : ℕ → Region → Option Region
enter topic_idx r =
    let t = r.topics topic_idx in
    if t.pinned_readers == pinned_writer_active
    then none
    else some (set_topic r topic_idx (record t { pinned_readers = u32 (t.pinned_readers + 1) }))

unfoldable pub enter_pinned :
    Interference → (packed block_idx : ℕ) → Stream → Region → Option PinnedGuard × Stream × Region
unfolding enter leave
enter_pinned at_recheck packed block_idx s r = elim (enter s.topic_idx r) [
  | none ↦ (none, s, r)
  | some entered ↦
      let r' = at_recheck entered in
      if not ((r'.topics s.topic_idx).pinned_seq == packed)
      then (none, s, leave s.topic_idx r')
      else (
        some (record { block_idx = block_idx; len = u32 packed; topic_idx = s.topic_idx }),
        record s { last_seq = packed / 2 ^ 32 },
        r',
      )
]

unfoldable pub try_recv_pinned :
    DuringPinned → Stream → Region → Option PinnedGuard × Stream × Region
unfolding enter_pinned
try_recv_pinned during s r =
    let packed = (r.topics s.topic_idx).pinned_seq in
    if packed == 0
    then (none, s, r)
    else if leb (packed / 2 ^ 32) s.last_seq
    then (none, s, r)
    else (let r1 = during.at_block r in
        let block_idx = (r1.topics s.topic_idx).pinned_block in
        if block_idx == no_block
        then (none, s, r1)
        else if not (ltb block_idx r1.config.block_count)
        then (none, s, r1)
        else enter_pinned during.at_recheck packed block_idx s (during.at_readers r1))

-- `Drop` of a `PinnedGuard`
unfoldable pub drop_pinned_guard : PinnedGuard → Region → Region
unfolding leave
drop_pinned_guard g r = leave g.topic_idx r
