-- ===== src/Region/State.antt =====
-- The contents of the shared memory that src/protocol/layout.rs lays out, as one record with a field
-- for each atomic or array, and with the fields of
-- the `Region` handle of one process: `config`, `last_freed`. `wakes` lists the topics whose
-- waiters were woken, latest first (the calls of `notify::wake_all`).
use crossbar.Base.{ℕ, ◌+◌, ◌-◌, ◌%◌, ◌^◌, List, Option, none, some, ltb, update, if◌then◌else◌}
use crossbar.Layout.{Config, block_data_offset}

pub record RingEntry : Type 0 where
  pub seq : ℕ
  pub block_idx : ℕ
  pub data_len : ℕ

-- `uri` is the byte array at `TE_URI`.
pub record TopicEntry : Type 0 where
  pub active : ℕ
  pub write_seq : ℕ
  pub waiters : ℕ
  pub uri_len : ℕ
  pub uri_hash : ℕ
  pub uri : ℕ → ℕ
  pub type_size : ℕ
  pub pinned_block : ℕ
  pub pinned_readers : ℕ
  pub pinned_seq : ℕ
  pub subscriber_count : ℕ

-- `link` and `refcount` are the two words at the head of each block, `bytes b` its data region.
pub record Region : Type 0 where
  pub pool_head : ℕ
  pub heartbeat : ℕ
  pub link : ℕ → ℕ
  pub refcount : ℕ → ℕ
  pub bytes : ℕ → ℕ → ℕ
  pub topics : ℕ → TopicEntry
  pub ring : ℕ → ℕ → RingEntry
  pub config : Config
  pub last_freed : ℕ
  pub wakes : List ℕ

abbrev pub u32 : ℕ → ℕ
u32 n = n % 2 ^ 32

abbrev pub u64 : ℕ → ℕ
u64 n = n % 2 ^ 64

-- `fetch_sub(1)` on an `AtomicU32`.
abbrev pub dec32 : ℕ → ℕ
dec32 n = (n + 2 ^ 32 - 1) % 2 ^ 32

abbrev pub set_topic : Region → ℕ → TopicEntry → Region
set_topic r i t = record r { topics = update r.topics i t }

abbrev pub set_entry : Region → ℕ → ℕ → RingEntry → Region
set_entry r i slot e = record r { ring = update r.ring i (update (r.ring i) slot e) }

-- `data_capacity`
unfoldable pub data_capacity : Region → ℕ
data_capacity r = r.config.block_size - block_data_offset

-- The bounds test of `block_ptr_checked`: the block's index where it is in range.
unfoldable pub block_ptr_checked : Region → ℕ → Option ℕ
block_ptr_checked r idx = if ltb idx r.config.block_count then some idx else none
