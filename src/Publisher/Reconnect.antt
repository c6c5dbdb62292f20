-- ===== src/Publisher/Reconnect.antt =====
-- Connecting to a region that was created.
use mathlib.Core.Path.{subst}
use native.Mathlib.Nat.{mod-eq_of_lt}
use crossbar.Base.{
  ℕ, ◌+◌, ◌-◌, ◌*◌, ◌^◌, ◌≤◌, ◌<◌, ◌≡◌, refl, sym, ap, ◌∙◌, true, false, inl, inr, Option, none,
  some, List, arith, ltb, ◌==◌, if◌then◌else◌, is_power_of_two, bit_and-pred, bytes_eq, Bool-cases,
  Option-cases, ne→==, le→ltb,
}
use crossbar.Error.{Reason, invalid_region, Result, ok, err}
use crossbar.Layout.{Config, no_block, region_size_checked, block_pool_offset, max_topics_limit}
use crossbar.Layout.Bounds.{region_size_checked_exact}
use crossbar.Region.State.{Region, u64}
use crossbar.Region.Pool.{init_free_list}
use crossbar.Publisher.Blocks.{update_heartbeat, check_heartbeat}
use crossbar.Publisher.Files.{RegionFile, opened}
use crossbar.Publisher.Create.{
  CreateCalls, Owner, check_config, zero_memory, written_header, create,
}
use crossbar.Publisher.Open.{
  header_config, validate_config, validate_header, from_raw, validate_region,
  open_and_validate_region, connect,
}
use crossbar.Publisher.Created.{made, create-Made}
use crossbar.Publisher.Rings.{init_rings-frame}

-- What the checks of a configuration say.
pub record Checked (config : Config) (size : ℕ) : Type 0 where
  pub block_size : 9 ≤ config.block_size
  pub ring_depth : is_power_of_two config.ring_depth ≡ true
  pub block_count : 0 < config.block_count
  pub max_topics : 0 < config.max_topics
  pub sized : region_size_checked config ≡ some size

pub check_config-Checked :
    (config : Config) (size : ℕ) → check_config config ≡ ok size → Checked config size
unfolding check_config
check_config-Checked config size e = elim (Bool-cases (ltb config.block_size 9)) [
  | inl small ↦ cc (rw small at e)
  | inr large ↦ elim (Bool-cases (is_power_of_two config.ring_depth)) [
    | inr other ↦ cc (rw (large, other) at e)
    | inl power ↦ elim (Bool-cases (config.block_count == 0)) [
      | inl empty ↦ cc (rw (large, power, empty) at e)
      | inr blocks ↦ elim (Bool-cases (config.max_topics == 0)) [
        | inl empty ↦ cc (rw (large, power, blocks, empty) at e)
        | inr topics ↦ elim (Option-cases (region_size_checked config)) [
          | inl overflow ↦ cc (rw (large, power, blocks, topics, overflow) at e)
          | inr (n, sized) ↦
              let same : n ≡ size = cc (rw (large, power, blocks, topics, sized) at e) in
              record {
                block_size = ground arith;
                ring_depth = power;
                block_count = ground arith;
                max_topics = ground arith;
                sized = sized ∙ ap some same;
              }
        ]
      ]
    ]
  ]
]

-- The size that was computed is the size of the region.
pub region_size_checked-eq-some :
    (config : Config) (size : ℕ)
    → region_size_checked config ≡ some size
    → size ≡ block_pool_offset config + config.block_count * config.block_size
region_size_checked-eq-some config size e =
    let exact = region_size_checked_exact config in
    let n : ℕ = block_pool_offset config + config.block_count * config.block_size in
    elim (Bool-cases (ltb n (2 ^ 64))) [
      | inl fits ↦ let both : some n ≡ some size = sym (rw fits at exact) ∙ e in cc
      | inr over ↦ let both : none ≡ some size = sym (rw over at exact) ∙ e in cc
    ]

header_size-le-block_pool_offset : (config : Config) → 128 ≤ block_pool_offset config
unfolding block_pool_offset
header_size-le-block_pool_offset config = omega arith

unsome_ℕ : {a b : ℕ} → ◌≡◌ {A = Option ℕ} (some a) (some b) → a ≡ b
unsome_ℕ e = cc

-- A configuration that passed the checks of `create`, checked again from the header.
abbrev recheck : (size : ℕ) → Config → Result (Unit {0})
recheck size config =
    if ltb max_topics_limit config.max_topics
    then err (invalid_region (Reason.max_topics_exceeds_limit config.max_topics))
    else ok tt

validate_config-Checked :
    (config : Config) (size : ℕ)
    → Checked config size
    → validate_config size config ≡ recheck size config
unfolding validate_config
validate_config-Checked config size c =
    let large : ltb config.block_size 9 ≡ false = le→ltb config.block_size 9 c.block_size in
    let (_, pos) = bit_and-pred config.ring_depth 0 c.ring_depth in
    let depth : (config.ring_depth == 0) ≡ false = ne→== config.ring_depth 0 (omega arith) in
    let topics : (config.max_topics == 0) ≡ false =
      (let m = c.max_topics in ne→== config.max_topics 0 (omega arith)) in
    let blocks : (config.block_count == 0) ≡ false =
      (let m = c.block_count in ne→== config.block_count 0 (omega arith)) in
    let long : ltb size size ≡ false = le→ltb size size (omega arith) in
    rw (large, c.ring_depth, depth, blocks, topics, c.sized, long) refl

-- The checks read only the fields that the header keeps.
header_config-Checked :
    (config : Config) (size pid : ℕ)
    → Checked config size
    → Checked (header_config (written_header pid config)) size
unfolding region_size_checked
header_config-Checked config size pid c = record {
  block_size = c.block_size;
  ring_depth = c.ring_depth;
  block_count = c.block_count;
  max_topics = c.max_topics;
  sized = c.sized;
}

validate_header-made :
    (config : Config) (pid size t : ℕ)
    → Checked config size
    → validate_header (made pid size t config) ≡ recheck size config
unfolding validate_header bytes_eq
validate_header-made config pid size t c =
    let whole = region_size_checked-eq-some config size c.sized in
    let head = header_size-le-block_pool_offset config in
    let long : ltb size 128 ≡ false = le→ltb size 128 (omega arith) in
    rw long (
      validate_config-Checked (header_config (written_header pid config)) size
        (header_config-Checked config size pid c))

made-heartbeat : (config : Config) (pid size t : ℕ) → t ≤ (made pid size t config).memory.heartbeat
unfolding update_heartbeat
made-heartbeat config pid size t =
    rw
      (init_rings-frame config.max_topics 0
        (update_heartbeat (some t) (init_free_list (zero_memory config))).1)
      (ground arith)

-- The heartbeat is fresh enough.
check_heartbeat-made :
    (now t : ℕ) (r : Region)
    → t ≤ r.heartbeat
    → r.config.stale_timeout < 2 ^ 64
    → now ≤ t + r.config.stale_timeout
    → check_heartbeat (some now) r ≡ ok tt
unfolding check_heartbeat
check_heartbeat-made now t r late small fresh =
    let same : u64 r.config.stale_timeout ≡ r.config.stale_timeout = mod-eq_of_lt small in
    rw (same, le→ltb r.config.stale_timeout (now - r.heartbeat) (omega arith)) refl

abbrev checked_region : Result (Unit {0}) → Result (Unit {0}) → Region → Result Region
checked_region v beat r = elim v [
  | err e ↦ err e
  | ok _ ↦ elim beat [ err e ↦ err e | ok _ ↦ ok r ]
]

abbrev connected : RegionFile → Config → Region
connected f config = record f.memory {
  config = record config { heartbeat_interval = 100_000 };
  last_freed = no_block;
}

from_raw-made :
    (config : Config) (pid size t : ℕ)
    → config.stale_timeout < 2 ^ 64
    → from_raw (made pid size t config) ≡ connected (made pid size t config) config
from_raw-made config pid size t small =
    let same : u64 config.stale_timeout ≡ config.stale_timeout = mod-eq_of_lt small in
    ap
      (λ s. record (made pid size t config).memory {
        config = record config { heartbeat_interval = 100_000; stale_timeout = s };
        last_freed = no_block;
      })
      same

validate_region-made :
    (config : Config) (pid size t now : ℕ)
    → Checked config size
    → config.stale_timeout < 2 ^ 64
    → now ≤ t + config.stale_timeout
    → let f = made pid size t config in
      validate_region (some now) f ≡ (
        if ltb max_topics_limit config.max_topics
        then err (invalid_region (Reason.max_topics_exceeds_limit config.max_topics))
        else ok (connected f config))
unfolding validate_region
validate_region-made config pid size t now c small fresh =
    let f = made pid size t config in
    let same = from_raw-made config pid size t small in
    let alive : check_heartbeat (some now) (connected f config) ≡ ok tt =
      check_heartbeat-made now t (connected f config) (made-heartbeat config pid size t) small
        fresh in
    ap (λ v. checked_region v (check_heartbeat (some now) (from_raw f)) (from_raw f))
      (validate_header-made config pid size t c)
    ∙ ap (λ q. checked_region (recheck size config) (check_heartbeat (some now) q) q) same
    ∙ ap (λ b. checked_region (recheck size config) b (connected f config)) alive
    ∙ elim (Bool-cases (ltb max_topics_limit config.max_topics)) [
      | inl more ↦ rw more refl
      | inr less ↦ rw less refl
    ]

-- A subscriber connects to the file of a region that `create` made, while the heartbeat is no older
-- than the stale timeout, which is below 2^64 microseconds: if the region has at most 4096 topics,
-- it gets the publisher's memory under the publisher's configuration (but for the heartbeat
-- interval, which the header does not keep); with more topics, which `create` accepts, it is
-- refused.
pub create-connect :
    (calls : CreateCalls) (name : List ℕ) (config : Config) (old : Option RegionFile)
    (owner : Owner) (f : RegionFile) (path_text : List ℕ) (t now : ℕ)
    → create calls name config old ≡ (ok owner, some f)
    → calls.now ≡ some t
    → now ≤ t + config.stale_timeout
    → config.stale_timeout < 2 ^ 64
    → connect (opened f) path_text (ok tt) (some now) name ≡ (
        if ltb max_topics_limit config.max_topics
        then err (invalid_region (Reason.max_topics_exceeds_limit config.max_topics))
        else ok (record f.memory {
          config = record config { heartbeat_interval = 100_000 };
          last_freed = no_block;
        }))
unfolding connect open_and_validate_region
create-connect calls name config old owner f path_text t now e clock fresh small =
    let (valid, m) = create-Made calls name config old owner f e in
    let same : m.t ≡ t = unsome_ℕ (sym m.clock ∙ clock) in
    let c = check_config-Checked config m.size m.checked in
    rw (connect, valid)
      (subst
        (λ (g : RegionFile). validate_region (some now) g ≡ (
          if ltb max_topics_limit config.max_topics
          then err (invalid_region (Reason.max_topics_exceeds_limit config.max_topics))
          else ok (connected g config)))
        (sym m.file) (validate_region-made config calls.pid m.size m.t now c small (omega arith)))
