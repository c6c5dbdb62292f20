-- ===== src/Publisher/Initial.antt =====
-- A region after its creation: every block is free and every topic's ring is empty.
use mathlib.Core.Path.{subst}
use native.Mathlib.Nat.{mod-lt}
use crossbar.Base.{
  ℕ, zero, suc, ◌+◌, ◌%◌, ◌^◌, ◌≤◌, ◌<◌, ◌≡◌, refl, sym, ap, ◌∙◌, true, Option, some, List, arith,
  inr, is_power_of_two, bit_and-pred,
}
use crossbar.Error.{ok}
use crossbar.Layout.{Config, no_block}
use crossbar.Region.State.{Region, RingEntry, TopicEntry}
use crossbar.Region.Pool.{init_links, init_free_list}
use crossbar.Region.FreeList.{FreeList}
use crossbar.Region.Init.{from, init_links-config, init_free_list-FreeList}
use crossbar.Stream.Receive.{SlotRead}
use crossbar.Stream.History.{Holds}
use crossbar.Publisher.Blocks.{update_heartbeat}
use crossbar.Publisher.Files.{RegionFile}
use crossbar.Publisher.Create.{CreateCalls, Owner, zero_memory, init_rings, create}
use crossbar.Publisher.Created.{create-Made}
use crossbar.Publisher.Rings.{init_rings-Emptied, init_rings-frame}
use crossbar.Publisher.Reconnect.{check_config-Checked}

init_links-topics : (n i : ℕ) (r : Region) → (init_links n i r).topics ≡ r.topics
unfolding init_links
init_links-topics zero i r = refl
init_links-topics (suc n) i r = init_links-topics n (i + 1) _

-- The memory before the rings are emptied.
abbrev pub pooled : (t : ℕ) → Config → Region
pooled t config = (update_heartbeat (some t) (init_free_list (zero_memory config))).1

pooled-config : (t : ℕ) (config : Config) → (pooled t config).config ≡ config
unfolding update_heartbeat init_free_list
pooled-config t config = init_links-config config.block_count 0 (zero_memory config)

pooled-topics : (t : ℕ) (config : Config) → (pooled t config).topics ≡ (zero_memory config).topics
unfolding update_heartbeat init_free_list
pooled-topics t config = init_links-topics config.block_count 0 (zero_memory config)

abbrev Unused : Config → Region → Type 0
Unused config r =
    FreeList r (from 0 config.block_count) × ((j : ℕ) → j < config.block_count → r.refcount j ≡ 0)

-- The pool is left as it is by the heartbeat and by the rings.
pooled-Unused :
    (t : ℕ) (config : Config) (ring : ℕ → ℕ → RingEntry)
    → 0 < config.block_count
    → config.block_count < 2 ^ 32
    → Unused config (record (pooled t config) { ring = ring })
unfolding update_heartbeat
pooled-Unused t config ring pos small =
    let (free, counts, _) = init_free_list-FreeList (zero_memory config) pos small in
    (
      record {
        small = free.small;
        word = free.word;
        chain = free.chain;
        inside = free.inside;
        distinct = free.distinct;
      },
      counts,
    )

module _ (h : ℕ → SlotRead) (t i : ℕ) (config : Config) where
  -- The memory of a file that was just made.
  abbrev initial : Region
  initial = init_rings config.max_topics 0 (pooled t config)

  pub initial-config : initial.config ≡ config
  initial-config =
      ap (λ (q : Region). q.config) (init_rings-frame config.max_topics 0 (pooled t config))
      ∙ pooled-config t config

  pub initial_topics : initial.topics ≡ (zero_memory config).topics
  initial_topics =
      ap (λ (q : Region). q.topics) (init_rings-frame config.max_topics 0 (pooled t config))
      ∙ pooled-topics t config

  initial_seq : (initial.topics i).write_seq ≡ 0
  initial_seq =
      ap (λ (q : Region). (q.topics i).write_seq)
        (init_rings-frame config.max_topics 0 (pooled t config))
      ∙ ap (λ (ts : ℕ → TopicEntry). (ts i).write_seq) (pooled-topics t config)

  initial_slots :
      i < config.max_topics
      → 0 < config.ring_depth
      → (s : ℕ) → (initial.ring i (s % config.ring_depth)).block_idx ≡ no_block
  initial_slots below deep s =
      let depth : (pooled t config).config.ring_depth ≡ config.ring_depth =
        ap (λ (c : Config). c.ring_depth) (pooled-config t config) in
      let slot = mod-lt s deep in
      ap (λ (e : RingEntry). e.block_idx)
        (init_rings-Emptied config.max_topics 0 i (s % config.ring_depth) (pooled t config)
          (inr (omega arith, omega arith, omega arith)))

  initial-Holds :
      is_power_of_two config.ring_depth ≡ true
      → config.ring_depth ≤ 2 ^ 32
      → config.block_count < 2 ^ 32
      → i < config.max_topics
      → Holds h i initial
  initial-Holds power depth small below =
      let (_, deep) = bit_and-pred config.ring_depth 0 power in
      let seq = initial_seq in
      let same = initial-config in
      let depth_same : initial.config.ring_depth ≡ config.ring_depth =
        ap (λ (c : Config). c.ring_depth) same in
      let count_same : initial.config.block_count ≡ config.block_count =
        ap (λ (c : Config). c.block_count) same in
      record {
        power = ap is_power_of_two depth_same ∙ power;
        depth = omega arith;
        blocks = omega arith;
        room = omega arith;
        recent = λ s pos under near. absurd (omega arith);
        apart = λ s q pos less under near. absurd (omega arith);
        unused = λ s above within.
            ap (λ d. (initial.ring i (s % d)).block_idx) depth_same ∙ initial_slots below deep s;
      }

-- A successful `create` leaves a pool with every block free, from block 0 up, each with a reference
-- count of 0, and the ring of each topic holds the empty history, on which every later commit
-- builds. The numbers of blocks and of ring entries fit the words that hold them.
pub create-Unused :
    (calls : CreateCalls) (name : List ℕ) (config : Config) (old : Option RegionFile)
    (owner : Owner) (f : RegionFile) (h : ℕ → SlotRead)
    → create calls name config old ≡ (ok owner, some f)
    → config.block_count < 2 ^ 32
    → config.ring_depth < 2 ^ 32
    → FreeList f.memory (from 0 config.block_count)
      × ((j : ℕ) → j < config.block_count → f.memory.refcount j ≡ 0)
      × ((i : ℕ) → i < config.max_topics → Holds h i f.memory)
create-Unused calls name config old owner f h e small depth =
    let (_, m) = create-Made calls name config old owner f e in
    let c = check_config-Checked config m.size m.checked in
    subst
      (λ (g : RegionFile).
        FreeList g.memory (from 0 config.block_count)
        × ((j : ℕ) → j < config.block_count → g.memory.refcount j ≡ 0)
        × ((i : ℕ) → i < config.max_topics → Holds h i g.memory))
      (sym m.file)
      (let pool : Unused config (initial h m.t 0 config) =
          subst (Unused config) (sym (init_rings-frame config.max_topics 0 (pooled m.t config)))
            (pooled-Unused m.t config _ c.block_count small) in
        (
          pool.0,
          pool.1,
          λ i below. initial-Holds h m.t i config c.ring_depth (omega arith) small below,
        ))
