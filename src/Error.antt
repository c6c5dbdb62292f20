-- ===== src/Error.antt =====
-- src/error.rs: the error type, and results.
-- A text that only a human reads is kept as a `Reason`, one constructor for each text of the source.
use crossbar.Base.{ℕ, List}

-- What the source writes into the text of `InvalidRegion`, `SegmentNameInvalid`,
-- `RegionCorrupted` and of the I/O errors that it makes itself. `os_error` is an error of the
-- operating system.
pub data Reason : Type 0 where
  too_small_for_header invalid_magic block_count_zero max_topics_zero free_list_out_of_bounds :
      Reason
  unsupported_version block_size_too_small ring_depth_not_power_of_2 : ℕ → Reason
  max_topics_exceeds_limit : ℕ → Reason
  block_size_below_minimum ring_depth_invalid : ℕ → Reason
  block_count_below_1 max_topics_below_1 : Reason
  region_size_below topic_idx_out_of_range : ℕ → ℕ → Reason
  value_size_mismatch value_align_mismatch : ℕ → ℕ → Reason
  deprecated_version symlink block_full : Reason
  bus_too_small_for_header bus_invalid_magic : Reason
  bus_unsupported_version bus_ring_size_not_power_of_2 : ℕ → Reason
  bus_region_size_below : ℕ → ℕ → Reason
  registry_too_small registry_invalid_magic registry_unsupported_version : Reason
  os_error : ℕ → Reason

pub data Error : Type 0 where
  io : Reason → Error
  publisher_dead : Error
  invalid_region : Reason → Error
  pool_exhausted : Error
  full : Error
  data_too_large : (size capacity : ℕ) → Error
  pinned_readers_active : (count topic_idx : ℕ) → Error
  clock_error : Error
  topic_not_found : List ℕ → Error
  max_topics_reached : Error
  uri_too_long : (len max_len : ℕ) → Error
  lock_contention : List ℕ → Error
  alignment_error : (align max_align : ℕ) → Error
  segment_name_invalid : List ℕ → Error
  handle_mismatch : Error
  region_size_overflow : Error
  region_corrupted : Reason → Error

pub data Result {ℓ} (A : Type ℓ) : Type ℓ where
  ok : A → Result A
  err : Error → Result A
