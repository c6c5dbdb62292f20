-- ===== src/Layout/Bounds.antt =====
-- The places of the parts of the region, and the checked sizes.
use native.Mathlib.Decide.{dec_lt}
use crossbar.Base.{
  ℕ, ◌+◌, ◌*◌, ◌^◌, ◌≤◌, ◌<◌, ◌≡◌, ◌≢◌, ap, ◌⊎◌, none, some, arith, ltb, if◌then◌else◌,
}
use crossbar.Layout.{
  Config, ring_entry_size, topic_entry_size, topic_entry_off, ring_entry_off, block_pool_offset,
  region_size_checked,
}

-- A position in a table of rows is below the table's size.
below_table : (r c w n : ℕ) → r < n → c < w → r * w + c < n * w
below_table r c w n p q = grind arith

-- The ring entry of a topic and a slot that are in range begins after every topic entry and ends
-- before the block pool.
pub ring_entry_inside :
    (c : Config) (t s i : ℕ)
    → t < c.max_topics
    → s < c.ring_depth
    → i < c.max_topics
    → (topic_entry_off i + topic_entry_size ≤ ring_entry_off c t s)
      × (ring_entry_off c t s + ring_entry_size ≤ block_pool_offset c)
unfolding topic_entry_off ring_entry_off block_pool_offset
ring_entry_inside c t s i ht hs hi =
    (omega arith, omega (arith, below_table t s c.ring_depth c.max_topics ht hs))

row_order : (w t s u v : ℕ) → s < w → t < u → t * w + s < u * w + v
row_order w t s u v hs h = grind arith

-- Different places in a table have different positions.
position_ne : (w t s u v : ℕ) → s < w → v < w → (t ≢ u) ⊎ (s ≢ v) → t * w + s ≢ u * w + v
position_ne w t s u v hs hv d e = elim (dec_lt t u) [
  | yes p ↦ omega (arith, row_order w t s u v hs p)
  | no p ↦ elim (dec_lt u t) [
    | yes q ↦ omega (arith, row_order w u v t s hv q)
    | no q ↦ let same : t * w ≡ u * w = ap (λ (k : ℕ). k * w) (omega arith) in omega arith
  ]
]

-- The ring entries of two different pairs of a topic and a slot in range do not overlap.
pub ring_entries_apart :
    (c : Config) (t s u v : ℕ)
    → s < c.ring_depth
    → v < c.ring_depth
    → (t ≢ u) ⊎ (s ≢ v)
    → (ring_entry_off c t s + ring_entry_size ≤ ring_entry_off c u v)
      ⊎ (ring_entry_off c u v + ring_entry_size ≤ ring_entry_off c t s)
unfolding ring_entry_off
ring_entries_apart c t s u v hs hv d = omega (arith, position_ne c.ring_depth t s u v hs hv d)

-- `region_size_checked` is the size of the region where that fits in `usize`, and `None` where it
-- does not.
pub region_size_checked_exact :
    (c : Config)
    → let size = block_pool_offset c + c.block_count * c.block_size in
      region_size_checked c ≡ (if ltb size (2 ^ 64) then some size else none)
unfolding region_size_checked block_pool_offset
region_size_checked_exact c = ground arith
