-- ===== src/Layout.antt =====
-- src/protocol/layout.rs and src/protocol/config.rs: constants, offsets and helpers of the
-- shared-memory layout. `usize` is 64 bits wide; a text is the list of its bytes.
pub mod Consts
pub mod Bounds
pub mod Words
pub mod Names
mod Tests
pub use Consts.*
use Prim.Native.Nat.{bit_xor}
use crossbar.Base.{
  ℕ, ◌+◌, ◌*◌, ◌/◌, ◌%◌, ◌^◌, Bool, true, false, not, ◌&&◌, ◌||◌, Option, none, some, List, [], ◌∷◌,
  ltb, ◌==◌, if◌then◌else◌,
}

-- `Config`. Durations are in microseconds.
pub record Config : Type 0 where
  pub max_topics : ℕ
  pub block_count : ℕ
  pub block_size : ℕ
  pub ring_depth : ℕ
  pub heartbeat_interval : ℕ
  pub stale_timeout : ℕ

-- `Config::default`
abbrev pub default_config : Config
default_config = record {
  max_topics = 16;
  block_count = 256;
  block_size = 65536;
  ring_depth = 8;
  heartbeat_interval = 100_000;
  stale_timeout = 5_000_000;
}

-- `checked_mul` and `checked_add` of `usize`.
infixl 5 ◌>>=◌
abbrev ◌>>=◌ : {A B : Type 0} → Option A → (A → Option B) → Option B
none >>= f = none
some a >>= f = f a

abbrev checked : ℕ → Option ℕ
checked n = if ltb n (2 ^ 64) then some n else none

unfoldable pub topic_entry_off : ℕ → ℕ
topic_entry_off idx = header_size + idx * topic_entry_size

unfoldable pub ring_base : Config → ℕ
ring_base config = header_size + config.max_topics * topic_entry_size

unfoldable pub ring_entry_off : Config → ℕ → ℕ → ℕ
unfolding ring_base
ring_entry_off config topic_idx slot =
    ring_base config + topic_idx * config.ring_depth * ring_entry_size + slot * ring_entry_size

unfoldable pub block_pool_offset : Config → ℕ
unfolding ring_base
block_pool_offset config =
    ring_base config + config.max_topics * config.ring_depth * ring_entry_size

unfoldable pub block_pool_offset_checked : Config → Option ℕ
unfolding ring_base
block_pool_offset_checked config = do
  let rb = ring_base config
  entries ← checked (config.max_topics * config.ring_depth)
  ring_size ← checked (entries * ring_entry_size)
  checked (rb + ring_size)

unfoldable pub region_size_checked : Config → Option ℕ
unfolding block_pool_offset_checked
region_size_checked config = do
  pool_off ← block_pool_offset_checked config
  pool_size ← checked (config.block_count * config.block_size)
  checked (pool_off + pool_size)

-- One round of FNV-1a, and the loop over the bytes.
hash_round : ℕ → ℕ → ℕ
hash_round h b = bit_xor h b * 0x0100_0000_01b3 % 2 ^ 64

hash_from : ℕ → List ℕ → ℕ
unfolding hash_round
hash_from h [] = h
hash_from h (b ∷ bs) = hash_from (hash_round h b) bs

unfoldable pub uri_hash : List ℕ → ℕ
unfolding hash_from
uri_hash uri = hash_from 0xcbf2_9ce4_8422_2325 uri

-- `gen << 32 | idx`: the two halves do not overlap, so the `or` is a sum.
unfoldable pub pack : ℕ → ℕ → ℕ
pack gen idx = gen * 2 ^ 32 % 2 ^ 64 + idx

unfoldable pub unpack : ℕ → ℕ × ℕ
unpack val = (val / 2 ^ 32 % 2 ^ 32, val % 2 ^ 32)

-- `name.contains(c)` and `name.contains("..")`
unfoldable pub contains : ℕ → List ℕ → Bool
contains c [] = false
contains c (b ∷ bs) = (b == c) || contains c bs

unfoldable pub contains_dots : List ℕ → Bool
contains_dots [] = false
contains_dots (b ∷ []) = false
contains_dots (b ∷ c ∷ bs) = (b == b'.') && (c == b'.') || contains_dots (c ∷ bs)

is_empty : List ℕ → Bool
is_empty [] = true
is_empty (b ∷ bs) = false

unfoldable pub is_valid_segment_name : List ℕ → Bool
unfolding is_empty
is_valid_segment_name name =
    if is_empty name
    then false
    else not (contains b'/' name)
      && not (contains 92 name)
      && not (contains 0 name)
      && not (contains_dots name)
