-- ===== src/Publisher/First.antt =====
-- The first message of a topic, from the creation of the region to a subscriber.
use mathlib.Core.Path.{subst}
use crossbar.Base.{
  ℕ, zero, suc, ◌+◌, ◌≤◌, ◌<◌, ◌^◌, ◌≡◌, refl, sym, ap, ◌∙◌, Option, none, some, List, [], ◌∷◌, All,
  arith, length, take, ltb, if_ind, option_ind, eq→==,
}
use crossbar.Error.{Result, ok, err}
use crossbar.Layout.{Config, no_block, te_uri_max}
use crossbar.Region.State.{Region, TopicEntry, data_capacity, set_topic}
use crossbar.Region.Pool.{init_links, init_free_list}
use crossbar.Region.FreeList.{FreeList}
use crossbar.Region.Init.{from}
use crossbar.Stream.Receive.{SlotRead}
use crossbar.Stream.History.{set_topic-Holds}
use crossbar.Publisher.Topics.{
  Topic, has_uri, find_topic, find_free, registered, claim_topic, register_inner, register,
}
use crossbar.Publisher.Blocks.{update_heartbeat, pop_cache}
use crossbar.Publisher.Files.{RegionFile}
use crossbar.Publisher.Create.{CreateCalls, Owner, zero_topic, zero_memory, create}
use crossbar.Publisher.Created.{made, create-Made}
use crossbar.Publisher.Rings.{init_rings-frame}
use crossbar.Publisher.Reconnect.{check_config-Checked}
use crossbar.Publisher.Refill.{expected, stack_onto}
use crossbar.Publisher.Initial.{pooled, initial-config, initial_topics, create-Unused}
use crossbar.Publisher.Registered.{find_free_range}
use crossbar.Publisher.Received.{publish_and_receive, publish_and_receive_lem}

-- A region in which no topic is registered and no block is taken.
pub record Blank (config : Config) (r : Region) : Type 0 where
  pub same_config : r.config ≡ config
  pub topics : r.topics ≡ (λ i. zero_topic)
  pub last_freed : r.last_freed ≡ no_block

init_links-last_freed : (n i : ℕ) (r : Region) → (init_links n i r).last_freed ≡ r.last_freed
unfolding init_links
init_links-last_freed zero i r = refl
init_links-last_freed (suc n) i r = init_links-last_freed n (i + 1) _

made-Blank : (pid size t : ℕ) (config : Config) → Blank config (made pid size t config).memory
unfolding update_heartbeat init_free_list
made-Blank pid size t config = record {
  same_config = initial-config (λ s. record { block_idx = 0; data_len = 0 }) t 0 config;
  topics = initial_topics (λ s. record { block_idx = 0; data_len = 0 }) t 0 config;
  last_freed =
      ap (λ (q : Region). q.last_freed) (init_rings-frame config.max_topics 0 (pooled t config))
      ∙ init_links-last_freed config.block_count 0 (zero_memory config);
}

find_topic_blank : (uri : List ℕ) (n i : ℕ) → find_topic uri n i (λ i. zero_topic) ≡ none
unfolding find_topic has_uri
find_topic_blank uri zero i = refl
find_topic_blank uri (suc n) i = find_topic_blank uri n (i + 1)

-- The region after the first registration.
pub record OneTopic (id : ℕ) (config : Config) (r0 : Region) (handle : Topic) (r : Region)
    : Type 0 where
  pub t : TopicEntry
  pub region : r ≡ set_topic r0 handle.topic_idx t
  pub unused : t.write_seq ≡ 0
  pub below : handle.topic_idx < config.max_topics
  pub publisher : handle.publisher_id ≡ id

abbrev Registers : ℕ → Config → Region → Result Topic × Region → Type 0
Registers id config r0 t =
    (handle : Topic) (r : Region) → t ≡ (ok handle, r) → OneTopic id config r0 handle r

handle_of :
    {a b : Topic} {r s : Region}
    → ◌≡◌ {A = Result Topic × Region} (ok a, r) (ok b, s)
    → (a ≡ b) × (r ≡ s)
handle_of e =
    let first : ◌≡◌ {A = Result Topic} (ok _) (ok _) = ap (λ (t : Result Topic × Region). t.0) e in
    (cc, ap (λ (t : Result Topic × Region). t.1) e)

register-OneTopic :
    (id : ℕ) (uri : List ℕ) (config : Config) (r0 : Region)
    → Blank config r0
    → Registers id config r0 (register id uri r0)
unfolding register register_inner claim_topic registered
register-OneTopic id uri config r0 b =
    if_ind (Registers id config r0) (ltb te_uri_max (length uri))
      (λ e handle r q. absurd (failed q))
      (λ fits.
        subst
          (λ o. Registers id config r0 (elim o [
            | none ↦ claim_topic id uri 0 r0
            | some i ↦ (ok (record { topic_idx = i; publisher_id = id }), r0)
          ]))
          (sym (
            ap (find_topic uri r0.config.max_topics 0) b.topics
            ∙ find_topic_blank uri r0.config.max_topics 0))
          (option_ind (Registers id config r0) (find_free r0.config.max_topics 0 r0.topics)
            (λ e handle r q. absurd (failed q))
            (λ i e handle r q.
              let (same, region) = handle_of q in
              let (_, below) = find_free_range r0.config.max_topics 0 i r0.topics e in
              let limit = ap (λ (c : Config). c.max_topics) b.same_config in
              let idx : i ≡ handle.topic_idx = ap (λ (t : Topic). t.topic_idx) same in
              record {
                t = registered uri 0 (r0.topics i);
                region = sym region ∙ ap (λ j. set_topic r0 j (registered uri 0 (r0.topics i))) idx;
                unused = refl;
                below = omega arith;
                publisher = sym (ap (λ (t : Topic). t.publisher_id) same);
              })))
  where
    failed :
        {e : _} {a : Topic} {r s : Region}
        → ◌≡◌ {A = Result Topic × Region} (err e, r) (ok a, s)
        → ⊥
    failed q =
        let first : ◌≡◌ {A = Result Topic} (err _) (ok _) =
          ap (λ (t : Result Topic × Region). t.0) q in
        cc

-- The last block that a refill stacks onto a cache that is not empty.
top_below :
    (hi m : ℕ) (xs : List ℕ) (c : ℕ) (cache : List ℕ)
    → c < hi
    → All (λ x. x < hi) xs
    → (b : ℕ) × ((pop_cache (stack_onto (take m xs) (c ∷ cache))).0 ≡ some b) × (b < hi)
unfolding pop_cache
top_below hi zero xs c cache below all = (c, refl, below)
top_below hi (suc m) [] c cache below all = (c, refl, below)
top_below hi (suc m) (x ∷ xs) c cache below all = top_below hi m xs x (c ∷ cache) all.0 all.1

first_block :
    (n : ℕ)
    → 0 < n
    → All (λ x. x < n) (from 0 n)
    → (b : ℕ) × ((expected no_block [] (from 0 n)).0 ≡ some b) × (b < n)
unfolding expected
first_block zero pos all = absurd (omega arith)
first_block (suc n) pos all = top_below (suc n) 7 (from 1 n) 0 [] all.0 all.1

set_topic-FreeList :
    (r : Region) (i : ℕ) (t : TopicEntry) (xs : List ℕ)
    → FreeList r xs
    → FreeList (set_topic r i t) xs
set_topic-FreeList r i t xs f = record {
  small = f.small;
  word = f.word;
  chain = f.chain;
  inside = f.inside;
  distinct = f.distinct;
}

abbrev no_message : ℕ → SlotRead
no_message s = record { block_idx = 0; data_len = 0 }

-- The first topic of a region that was created: the first data that are published to it and fit a
-- block arrive at a subscriber that was there before, whatever the state of the clock. The publisher is
-- the one that created the region; nobody else acts meanwhile. The fields of the configuration fit
-- the words that hold them.
pub create-publish_and_receive :
    (calls : CreateCalls) (name : List ℕ) (config : Config) (old : Option RegionFile)
    (owner : Owner) (f : RegionFile) (uri : List ℕ) (handle : Topic) (r : Region) (instant : ℕ)
    (now : Option ℕ) (addr : ℕ → ℕ) (content : List ℕ) (type_size : ℕ)
    → create calls name config old ≡ (ok owner, some f)
    → register owner.publisher.id uri f.memory ≡ (ok handle, r)
    → config.block_count < 2 ^ 32
    → config.block_size < 2 ^ 32
    → config.ring_depth < 2 ^ 32
    → length content + 8 ≤ config.block_size
    → publish_and_receive instant now addr handle content owner.publisher type_size r ≡ some content
unfolding data_capacity
create-publish_and_receive calls name config old owner f uri handle r instant now addr content
      type_size created named count_small size_small depth_small fits =
    let (_, m) = create-Made calls name config old owner f created in
    let c = check_config-Checked config m.size m.checked in
    let (free, _, empty) =
      create-Unused calls name config old owner f no_message created count_small depth_small in
    let b : Blank config f.memory =
      subst (λ (g : RegionFile). Blank config g.memory) (sym m.file)
        (made-Blank calls.pid m.size m.t config) in
    let o = register-OneTopic owner.publisher.id uri config f.memory b handle r named in
    let i = handle.topic_idx in
    let r1 = set_topic f.memory i o.t in
    let seq : (r1.topics i).write_seq ≡ 0 = rw (eq→== i i refl) o.unused in
    let old_seq : (f.memory.topics i).write_seq ≡ 0 =
      ap (λ (ts : ℕ → TopicEntry). (ts i).write_seq) b.topics in
    let count : f.memory.config.block_count ≡ config.block_count =
      ap (λ (k : Config). k.block_count) b.same_config in
    let (idx, found, below) =
      first_block config.block_count c.block_count
        (subst (λ k. All (λ x. x < k) (from 0 config.block_count)) count free.inside) in
    let size : f.memory.config.block_size ≡ config.block_size =
      ap (λ (k : Config). k.block_size) b.same_config in
    let block : (expected f.memory.last_freed owner.publisher.block_cache
          (from 0 config.block_count)).0
        ≡ some idx =
      ap (λ l. (expected l owner.publisher.block_cache (from 0 config.block_count)).0) b.last_freed
      ∙ ap (λ l. (expected no_block l (from 0 config.block_count)).0) m.cache
      ∙ found in
    subst
      (λ (q : Region).
        publish_and_receive instant now addr handle content owner.publisher type_size q
        ≡ some content)
      (sym o.region)
      (publish_and_receive_lem no_message instant now addr handle content owner.publisher type_size
        r1 (from 0 config.block_count) idx o.publisher
        (set_topic-FreeList f.memory i o.t (from 0 config.block_count) free) block
        (set_topic-Holds no_message i o.t f.memory (o.unused ∙ sym old_seq) (empty i o.below))
        (record {
          block = omega arith;
          len = omega arith;
          unheld = λ s pos near far. absurd (omega arith);
        })
        (omega arith) (omega arith))
