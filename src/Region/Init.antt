-- ===== src/Region/Init.antt =====
-- The state that `init_free_list` makes: all blocks free, in order, with no reference.
use crossbar.Base.{
  ℕ, zero, suc, ◌+◌, ◌^◌, ◌≤◌, ◌<◌, ◌≡◌, refl, ap, List, [], ◌∷◌, All, arith, ltb, lt→ltb, le→ltb,
  if◌then◌else◌, update,
}
use crossbar.Layout.{no_block, pack, Config}
use crossbar.Region.State.{Region}
use crossbar.Region.Pool.{init_links, init_free_list}
use crossbar.Region.FreeList.{Chain, NotIn, Distinct, FreeList}

-- The blocks from `i` on, `n` of them.
abbrev pub from : ℕ → ℕ → List ℕ
from i zero = []
from i (suc n) = i ∷ from (i + 1) n

from-All : (hi i n : ℕ) → i + n ≤ hi → All (λ x. x < hi) (from i n)
from-All hi i zero p = tt
from-All hi i (suc n) p = (omega arith, from-All hi (i + 1) n (omega arith))

from-NotIn : (j i n : ℕ) → j < i → NotIn j (from i n)
from-NotIn j i zero p = tt
from-NotIn j i (suc n) p = (omega arith, from-NotIn j (i + 1) n (omega arith))

from-Distinct : (i n : ℕ) → Distinct (from i n)
from-Distinct i zero = tt
from-Distinct i (suc n) = (from-NotIn i (i + 1) n (omega arith), from-Distinct (i + 1) n)

-- The link that block `j` of `count` starts with.
abbrev first_link : ℕ → ℕ → ℕ
first_link count j = if ltb (j + 1) count then j + 1 else no_block

pub init_links-config : (n i : ℕ) (r : Region) → (init_links n i r).config ≡ r.config
unfolding init_links
init_links-config zero i r = refl
init_links-config (suc n) i r = init_links-config n (i + 1) _

init_links-before :
    (n i : ℕ) (r : Region) (j : ℕ)
    → j < i
    → ((init_links n i r).link j ≡ r.link j) × ((init_links n i r).refcount j ≡ r.refcount j)
unfolding init_links
init_links-before zero i r j h = (refl, refl)
init_links-before (suc n) i r j h = ground (
  arith,
  init_links-before n (i + 1)
      (record r {
        link = update r.link i (first_link r.config.block_count i);
        refcount = update r.refcount i 0;
      })
      j,
)

init_links-at :
    (n i : ℕ) (r : Region) (j : ℕ)
    → i ≤ j
    → j < i + n
    → ((init_links n i r).link j ≡ first_link r.config.block_count j)
      × ((init_links n i r).refcount j ≡ 0)
unfolding init_links
init_links-at zero i r j p q = absurd (omega arith)
init_links-at (suc n) i r j p q =
    let r' : Region = record r {
      link = update r.link i (first_link r.config.block_count i);
      refcount = update r.refcount i 0;
    } in
    ground (arith, init_links-at n (i + 1) r' j, init_links-before n (i + 1) r' j)

Chain-from :
    (link : ℕ → ℕ) (count n i : ℕ)
    → i + n ≡ count
    → ((j : ℕ) → j < count → link j ≡ first_link count j)
    → Chain link (if ltb i count then i else no_block) (from i n)
Chain-from link count zero i e h = rw (le→ltb i count (omega arith))
Chain-from link count (suc n) i e h =
    rw (lt→ltb i count (omega arith))
      (refl, rw (h i (omega arith)) (Chain-from link count n (i + 1) (omega arith) h))

-- Initialising a pool of at least one block makes every block free, from block 0 up, sets the
-- reference count of each to 0 and keeps the configuration.
pub init_free_list-FreeList :
    (r : Region)
    → 0 < r.config.block_count
    → r.config.block_count < 2 ^ 32
    → FreeList (init_free_list r) (from 0 r.config.block_count)
      × ((j : ℕ) → j < r.config.block_count → (init_free_list r).refcount j ≡ 0)
      × ((init_free_list r).config ≡ r.config)
unfolding init_free_list pack
init_free_list-FreeList r pos small =
    let n : ℕ = r.config.block_count in
    let same = init_links-config n 0 r in
    let count : (init_links n 0 r).config.block_count ≡ n =
      ap (λ (c : Config). c.block_count) same in
    let links =
      Chain-from (init_links n 0 r).link n n 0 (omega arith)
        (λ j h. (init_links-at n 0 r j (omega arith) (omega arith)).0) in
    (
      record {
        small = rw count small;
        word = omega arith;
        chain = rw (lt→ltb 0 n pos) at links;
        inside = rw count (from-All n 0 n (omega arith));
        distinct = from-Distinct 0 n;
      },
      λ j h. (init_links-at n 0 r j (omega arith) (omega arith)).1,
      same,
    )
