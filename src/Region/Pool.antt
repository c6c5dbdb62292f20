-- ===== src/Region/Pool.antt =====
-- The block pool of src/protocol/region.rs: a Treiber stack of block indices, whose head word holds
-- a generation and an index. A loop that retries a failed compare-exchange takes the list of what
-- the other processes do to the region between a round's reads and its compare-exchange; an
-- operation that runs alone takes the empty list. `compare_exchange_weak` does not fail spuriously.
use crossbar.Base.{
  ℕ, zero, suc, ◌+◌, not, ◌&&◌, Option, none, some, List, [], ◌∷◌, ltb, ◌==◌, if◌then◌else◌, update,
}
use crossbar.Layout.{no_block, pack, unpack}
use crossbar.Region.State.{Region, u32, dec32, block_ptr_checked}

abbrev pub Interference : Type 0
Interference = Region → Region

-- `Ok(Some(idx))`, `Ok(None)` and `Err(())` of `alloc_block`.
pub data Alloc : Type 0 where
  taken : ℕ → Alloc
  exhausted corrupt : Alloc

-- What one round of the loop finds at `head`: it returns, or it tries to swap in a new head.
pub data Plan : Type 0 where
  return_now : Alloc → Plan
  swap : (idx new_head : ℕ) → Plan

unfoldable pub alloc_plan : ℕ → Region → Plan
unfolding unpack
alloc_plan head r =
    let (gen, idx) = unpack head in
    if idx == no_block
    then return_now exhausted
    else if not (ltb idx r.config.block_count)
    then return_now corrupt
    else let next = r.link idx in
      if not (next == no_block) && not (ltb next r.config.block_count)
      then return_now corrupt
      else swap idx (pack (u32 (gen + 1)) next)

unfoldable pub alloc_from : List Interference → ℕ → Region → Alloc × Region
alloc_from [] head r = elim (alloc_plan head r) [
  | return_now a ↦ (a, r)
  | swap idx new_head ↦ (taken idx, record r { pool_head = new_head })
]
alloc_from (e ∷ env) head r = elim (alloc_plan head r) [
  | return_now a ↦ (a, r)
  | swap idx new_head ↦
      let retry = alloc_from env (e r).pool_head (e r) in
      if (e r).pool_head == head then (taken idx, record (e r) { pool_head = new_head }) else retry
]

unfoldable pub alloc_block : List Interference → Region → Alloc × Region
unfolding alloc_from
alloc_block env r = alloc_from env r.pool_head r

-- `last_freed.swap(NO_BLOCK)`
unfoldable pub alloc_recycled : Region → Option ℕ × Region
alloc_recycled r = (
  if not (r.last_freed == no_block) then some r.last_freed else none,
  record r { last_freed = no_block },
)

-- One round of `free_block`: link the block to the old head.
unfoldable pub free_link : ℕ → ℕ → Region → Region
unfolding unpack
free_link idx head r = record r { link = update r.link idx (unpack head).1 }

unfoldable pub free_head : ℕ → ℕ → ℕ
unfolding unpack
free_head idx head = pack (u32 ((unpack head).0 + 1)) idx

unfoldable pub free_from : List Interference → ℕ → ℕ → Region → Region
unfolding free_link free_head
free_from [] idx head r = record (free_link idx head r) { pool_head = free_head idx head }
free_from (e ∷ env) idx head r =
    let r' = e (free_link idx head r) in
    let retry = free_from env idx r'.pool_head r' in
    if r'.pool_head == head then record r' { pool_head = free_head idx head } else retry

unfoldable pub free_block : List Interference → ℕ → Region → Region
unfolding free_from
free_block env idx r =
    if not (ltb idx r.config.block_count) then r else free_from env idx r.pool_head r

-- The loop of `init_free_list` from block `i` on, with `n` rounds left.
unfoldable pub init_links : ℕ → ℕ → Region → Region
init_links zero i r = r
init_links (suc n) i r = init_links n (i + 1) (record r {
  link = update r.link i (if ltb (i + 1) r.config.block_count then i + 1 else no_block);
  refcount = update r.refcount i 0;
})

unfoldable pub init_free_list : Region → Region
unfolding init_links
init_free_list r = record (init_links r.config.block_count 0 r) { pool_head = pack 0 0 }

-- `release_block`: drop one reference, and free the block with the last one.
unfoldable pub release_block : ℕ → Region → Region
unfolding block_ptr_checked
release_block block_idx r = elim (block_ptr_checked r block_idx) [
  | none ↦ r
  | some idx ↦
      let prev = r.refcount idx in
      let r' = record r { refcount = update r.refcount idx (dec32 prev) } in
      if prev == 1 then free_block [] idx r' else r'
]
