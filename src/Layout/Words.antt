-- ===== src/Layout/Words.antt =====
-- The packed words of the free-list head.
use crossbar.Base.{ℕ, ◌^◌, ◌<◌, ◌≡◌, arith}
use crossbar.Layout.{pack, unpack}

-- A generation and an index of 32 bits each, packed and unpacked, come back, and the packed word has
-- 64 bits.
pub unpack-pack :
    (gen idx : ℕ)
    → gen < 2 ^ 32
    → idx < 2 ^ 32
    → (unpack (pack gen idx) ≡ (gen, idx)) × (pack gen idx < 2 ^ 64)
unfolding pack unpack
unpack-pack gen idx hg hi = (ground arith, omega arith)

-- Every word of 64 bits is the packing of what it unpacks to.
pub pack-unpack : (val : ℕ) → val < 2 ^ 64 → pack (unpack val).0 (unpack val).1 ≡ val
unfolding pack unpack
pack-unpack val h = omega arith
