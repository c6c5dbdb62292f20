-- ===== src/Layout/Tests.antt =====
-- Concrete runs of the layout's functions.
use crossbar.Base.{
  ◌+◌, ◌*◌, ◌^◌, ◌≤◌, ◌≡◌, ◌⊎◌, inl, false, [], ◌∷◌, ◌++◌, arith, ltb, if◌then◌else◌, some, none,
}
use crossbar.Layout.{
  default_config, ring_entry_size, topic_entry_size, topic_entry_off, ring_entry_off,
  block_pool_offset, is_valid_segment_name, region_size_checked,
}
use crossbar.Layout.Bounds.{ring_entry_inside, ring_entries_apart, region_size_checked_exact}
use crossbar.Layout.Names.{is_valid_segment_name_safe}

ring_entry_inside_example :
    (topic_entry_off 15 + topic_entry_size ≤ ring_entry_off default_config 15 7)
    × (ring_entry_off default_config 15 7 + ring_entry_size ≤ block_pool_offset default_config)
ring_entry_inside_example =
    ring_entry_inside default_config 15 7 15 (omega arith) (omega arith) (omega arith)

ring_entries_apart_example :
    (ring_entry_off default_config 2 7 + ring_entry_size ≤ ring_entry_off default_config 3 0)
    ⊎ (ring_entry_off default_config 3 0 + ring_entry_size ≤ ring_entry_off default_config 2 7)
ring_entries_apart_example =
    ring_entries_apart default_config 2 7 3 0 (omega arith) (omega arith) (inl (omega arith))

-- `a/b`
is_valid_segment_name_safe_example :
    (is_valid_segment_name [] ≡ false)
    × (is_valid_segment_name ((97 ∷ []) ++ b'/' ∷ 98 ∷ []) ≡ false)
    × (is_valid_segment_name ((97 ∷ []) ++ 92 ∷ 98 ∷ []) ≡ false)
    × (is_valid_segment_name ((97 ∷ []) ++ 0 ∷ 98 ∷ []) ≡ false)
    × (is_valid_segment_name ((97 ∷ []) ++ b'.' ∷ b'.' ∷ 98 ∷ []) ≡ false)
is_valid_segment_name_safe_example = is_valid_segment_name_safe (97 ∷ []) (98 ∷ [])

-- The region of the default configuration.
region_size_checked_exact_example : region_size_checked default_config ≡ (
    if ltb (block_pool_offset default_config + 256 * 65536) (2 ^ 64)
    then some (block_pool_offset default_config + 256 * 65536)
    else none)
region_size_checked_exact_example = region_size_checked_exact default_config
