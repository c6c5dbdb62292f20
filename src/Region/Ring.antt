-- ===== src/Region/Ring.antt =====
-- The commit operations of src/protocol/region.rs.
use Prim.Native.Nat.{bit_and}
use crossbar.Base.{
  ℕ, zero, suc, ◌+◌, ◌-◌, ◌*◌, ◌^◌, Bool, true, not, ◌&&◌, ◌∷◌, [], ltb, ◌==◌, if◌then◌else◌,
  update,
}
use crossbar.Layout.{no_block, seq_writing}
use crossbar.Region.State.{Region, u32, u64, dec32, set_topic, set_entry}
use crossbar.Region.Pool.{free_block}

-- `seq & ring_mask`
unfoldable pub slot_of : Region → ℕ → ℕ
slot_of r seq = u32 (bit_and seq (r.config.ring_depth - 1))

abbrev pub mark : ℕ → ℕ → Region → Region
mark topic_idx slot r =
    set_entry r topic_idx slot (record (r.ring topic_idx slot) { seq = seq_writing })

-- Step 2 for several publishers, while no other publisher acts: `n` more times that the slot may be
-- seen in the writing state before the claim is forced.
unfoldable pub claim_slot : ℕ → ℕ → ℕ → Region → Region
claim_slot zero topic_idx slot r = mark topic_idx slot r
claim_slot (suc n) topic_idx slot r =
    let rest = claim_slot n topic_idx slot r in
    if (r.ring topic_idx slot).seq == seq_writing then rest else mark topic_idx slot r

-- Step 2.
unfoldable pub claim : (single_publisher : Bool) (topic_idx slot : ℕ) → Region → Region
claim single_publisher topic_idx slot r =
    if single_publisher then mark topic_idx slot r else claim_slot 1024 topic_idx slot r

-- The block that nobody holds any more becomes the recycled block; one that was recycled before and
-- not claimed goes back to the pool.
unfoldable pub recycle : ℕ → Region → Region
recycle old r =
    let r' = record r { last_freed = old } in
    if not (r.last_freed == no_block) then free_block [] r.last_freed r' else r'

-- Step 7: the block that the slot held before loses the ring's reference.
unfoldable pub release_old : ℕ → Region → Region
release_old old r =
    let prev = r.refcount old in
    let r' = record r { refcount = update r.refcount old (dec32 prev) } in
    if not (old == no_block) && ltb old r.config.block_count
    then (if prev == 1 then recycle old r' else r')
    else r

-- Step 8.
unfoldable pub smart_wake : ℕ → Bool → Region → Region
smart_wake topic_idx wake r =
    if wake && ltb 0 (r.topics topic_idx).waiters
    then record r { wakes = topic_idx ∷ r.wakes }
    else r

-- Steps 3 to 6, between the claim of the slot and the release of the old block.
unfoldable pub fill_slot : (seq block_idx data_len topic_idx slot : ℕ) → Region → Region
fill_slot seq block_idx data_len topic_idx slot r =
    set_entry (record r { refcount = update r.refcount block_idx 1 }) topic_idx slot
      (record { seq = seq; block_idx = block_idx; data_len = data_len })

unfoldable pub commit_to_ring :
    (block_idx data_len topic_idx : ℕ) (wake single_publisher : Bool) → Region → Region
unfolding fill_slot
commit_to_ring block_idx data_len topic_idx wake single_publisher r =
    let t = r.topics topic_idx in
    let seq = u64 (t.write_seq + 1) in
    let slot = slot_of r seq in
    let r1 = set_topic r topic_idx (record t { write_seq = seq }) in
    let r2 = claim single_publisher topic_idx slot r1 in
    let old = (r2.ring topic_idx slot).block_idx in
    let r3 = fill_slot seq block_idx data_len topic_idx slot r2 in
    smart_wake topic_idx wake (release_old old r3)

-- `(seq & 0xFFFF_FFFF) << 32 | data_len`
unfoldable pub pack_pinned : ℕ → ℕ → ℕ
pack_pinned seq data_len = u32 seq * 2 ^ 32 + data_len

unfoldable pub commit_pinned : (data_len topic_idx : ℕ) → Region → Region
unfolding pack_pinned smart_wake
commit_pinned data_len topic_idx r =
    let t = r.topics topic_idx in
    let seq = u64 (t.write_seq + 1) in
    smart_wake topic_idx true
      (set_topic r topic_idx (record t { write_seq = seq; pinned_seq = pack_pinned seq data_len }))

unfoldable pub set_pinned_block : (topic_idx block_idx : ℕ) → Region → Region
set_pinned_block topic_idx block_idx r =
    set_topic r topic_idx (record (r.topics topic_idx) { pinned_block = block_idx })
