-- ===== src/Publisher/Validated.antt =====
-- What a region that was opened is known to satisfy, whatever its file holds.
use crossbar.Base.{
  ℕ, ◌+◌, ◌*◌, ◌≤◌, ◌<◌, ◌≡◌, refl, ap, true, not, ◌||◌, inl, inr, Option, List, arith, ltb, ◌==◌,
  is_power_of_two, bytes_eq, bytes_eq→eq, Bool-cases, Option-cases,
}
use mathlib.Core.Path.{subst}
use crossbar.Error.{Result, ok, err}
use crossbar.Layout.{
  Config, topic_entry_size, ring_entry_size, version, region_size_checked, topic_entry_off,
  ring_entry_off, block_pool_offset,
}
use crossbar.Layout.Bounds.{ring_entry_inside}
use crossbar.Region.State.{Region}
use crossbar.Publisher.Blocks.{check_heartbeat}
use crossbar.Publisher.Files.{RegionFile, opened, validate_name}
use crossbar.Publisher.Create.{region_magic}
use crossbar.Publisher.Open.{
  header_config, validate_config, validate_header, from_raw, validate_region,
  open_and_validate_region, connect,
}
use crossbar.Publisher.Reconnect.{Checked, region_size_checked-eq-some}

-- What the checks of the header say.
record Validated (len : ℕ) (config : Config) : Type 0 where
  size : ℕ
  checked : Checked config size
  topics : config.max_topics ≤ 4096
  long : size ≤ len

validate_config-Validated :
    (len : ℕ) (config : Config) → validate_config len config ≡ ok tt → Validated len config
unfolding validate_config
validate_config-Validated len config e = elim (Bool-cases (ltb config.block_size 9)) [
  | inl small ↦ cc (rw small at e)
  | inr large ↦
      elim (Bool-cases (not (is_power_of_two config.ring_depth) || (config.ring_depth == 0))) [
        | inl other ↦ cc (rw (large, other) at e)
        | inr power ↦ elim (Bool-cases (config.block_count == 0)) [
          | inl empty ↦ cc (rw (large, power, empty) at e)
          | inr blocks ↦ elim (Bool-cases (config.max_topics == 0)) [
            | inl empty ↦ cc (rw (large, power, blocks, empty) at e)
            | inr topics ↦ elim (Bool-cases (ltb 4096 config.max_topics)) [
              | inl many ↦ cc (rw (large, power, blocks, topics, many) at e)
              | inr few ↦ elim (Option-cases (region_size_checked config)) [
                | inl overflow ↦ cc (rw (large, power, blocks, topics, few, overflow) at e)
                | inr (n, sized) ↦ elim (Bool-cases (ltb len n)) [
                  | inl short ↦ cc (rw (large, power, blocks, topics, few, sized, short) at e)
                  | inr long ↦ record {
                    size = n;
                    checked = record {
                      block_size = ground arith;
                      ring_depth = ground arith;
                      block_count = ground arith;
                      max_topics = ground arith;
                      sized = sized;
                    };
                    topics = ground arith;
                    long = ground arith;
                  }
                ]
              ]
            ]
          ]
        ]
      ]
]

abbrev PassedHeader : RegionFile → Type 0
PassedHeader f =
    (f.header.magic ≡ region_magic)
    × (f.header.version ≡ version)
    × Validated f.len (header_config f.header)

validate_header-Validated : (f : RegionFile) → validate_header f ≡ ok tt → PassedHeader f
unfolding validate_header
validate_header-Validated f e = elim (Bool-cases (ltb f.len 128)) [
  | inl short ↦ cc (rw short at e)
  | inr long ↦ elim (Bool-cases (bytes_eq f.header.magic region_magic)) [
    | inr other ↦ cc (rw (long, other) at e)
    | inl magic ↦ elim (Bool-cases (f.header.version == 3)) [
      | inr other ↦ cc (rw (long, magic, other) at e)
      | inl version ↦ (
        bytes_eq→eq f.header.magic region_magic magic,
        ground arith,
        validate_config-Validated f.len (header_config f.header) (rw (long, magic, version) at e),
      )
    ]
  ]
]

unok : {a b : Region} → ◌≡◌ {A = Result Region} (ok a) (ok b) → a ≡ b
unok e = cc

validate_region-ok :
    (now : Option ℕ) (f : RegionFile) (r : Region)
    → validate_region now f ≡ ok r
    → PassedHeader f × (check_heartbeat now (from_raw f) ≡ ok tt) × (from_raw f ≡ r)
unfolding validate_region
validate_region-ok now f r e =
    elim (validate_header f)
        as (λ v.
          validate_header f ≡ v
          → PassedHeader f × (check_heartbeat now (from_raw f) ≡ ok tt) × (from_raw f ≡ r)) [
            | err why ↦ λ eq. cc (rw (validate_region, eq) at e)
            | ok u ↦ λ eq.
                elim (check_heartbeat now (from_raw f))
                    as (λ v.
                      check_heartbeat now (from_raw f) ≡ v
                      → PassedHeader f
                        × (check_heartbeat now (from_raw f) ≡ ok tt)
                        × (from_raw f ≡ r)) [
                          | err why ↦ λ eq1. cc (rw (validate_region, eq, eq1) at e)
                          | ok w ↦ λ eq1. (
                            validate_header-Validated f eq,
                            eq1,
                            unok (rw (validate_region, eq, eq1) at e),
                          )
                        ]
                  refl
          ]
      refl

connect-ok :
    (f : RegionFile) (path_text : List ℕ) (mmap : Result (Unit {0})) (now : Option ℕ)
    (name : List ℕ) (r : Region)
    → connect (opened f) path_text mmap now name ≡ ok r
    → PassedHeader f × (check_heartbeat now (from_raw f) ≡ ok tt) × (from_raw f ≡ r)
unfolding connect open_and_validate_region
connect-ok f path_text mmap now name r e =
    elim (validate_name name)
        as (λ v.
          validate_name name ≡ v
          → PassedHeader f × (check_heartbeat now (from_raw f) ≡ ok tt) × (from_raw f ≡ r)) [
            | err why ↦ λ eq. cc (rw (connect, eq) at e)
            | ok u ↦ λ eq. mapped mmap (rw (connect, eq) at e)
          ]
      refl
  where
    mapped :
        (m : Result (Unit {0}))
        → open_and_validate_region (opened f) path_text m now ≡ ok r
        → PassedHeader f × (check_heartbeat now (from_raw f) ≡ ok tt) × (from_raw f ≡ r)
    mapped (err why) h = cc
    mapped (ok u) h = validate_region-ok now f r h

block_inside : (b count size : ℕ) → b < count → b * size + size ≤ count * size
block_inside b count size below = grind arith

inside :
    (f : RegionFile) (i slot b : ℕ)
    → PassedHeader f
    → let c = header_config f.header in
      i < c.max_topics
      → slot < c.ring_depth
      → b < c.block_count
      → (topic_entry_off i + topic_entry_size ≤ ring_entry_off c i slot)
        × (ring_entry_off c i slot + ring_entry_size ≤ block_pool_offset c)
        × (block_pool_offset c + b * c.block_size + c.block_size ≤ f.len)
inside f i slot b (_, _, v) hi hs hb =
    let c = header_config f.header in
    let (before, after) = ring_entry_inside c i slot i hi hs hi in
    let size = region_size_checked-eq-some c v.size v.checked.sized in
    let block = block_inside b c.block_count c.block_size hb in
    let long = v.long in (before, after, omega arith)

-- Whatever file a subscriber connects to: if that succeeds, the file has the magic number and the
-- version, the region has at most 4096 topics, a ring depth that is a power of two and blocks of at
-- least 9 bytes, and every topic entry, ring entry and block lies inside the file, in this order.
pub connect_inside :
    (f : RegionFile) (path_text : List ℕ) (mmap : Result (Unit {0})) (now : Option ℕ)
    (name : List ℕ) (r : Region) (i slot b : ℕ)
    → connect (opened f) path_text mmap now name ≡ ok r
    → i < r.config.max_topics
    → slot < r.config.ring_depth
    → b < r.config.block_count
    → (f.header.magic ≡ region_magic)
      × (f.header.version ≡ version)
      × (r.config.max_topics ≤ 4096)
      × (is_power_of_two r.config.ring_depth ≡ true)
      × (9 ≤ r.config.block_size)
      × (topic_entry_off i + topic_entry_size ≤ ring_entry_off r.config i slot)
      × (ring_entry_off r.config i slot + ring_entry_size ≤ block_pool_offset r.config)
      × (block_pool_offset r.config + b * r.config.block_size + r.config.block_size ≤ f.len)
connect_inside f path_text mmap now name r i slot b e hi hs hb =
    let (good, _, same) = connect-ok f path_text mmap now name r e in
    let config : header_config f.header ≡ r.config = ap (λ (q : Region). q.config) same in
    let (magic, version', v) = good in
    subst
      (λ c.
        i < c.max_topics
        → slot < c.ring_depth
        → b < c.block_count
        → (f.header.magic ≡ region_magic)
          × (f.header.version ≡ version)
          × (c.max_topics ≤ 4096)
          × (is_power_of_two c.ring_depth ≡ true)
          × (9 ≤ c.block_size)
          × (topic_entry_off i + topic_entry_size ≤ ring_entry_off c i slot)
          × (ring_entry_off c i slot + ring_entry_size ≤ block_pool_offset c)
          × (block_pool_offset c + b * c.block_size + c.block_size ≤ f.len))
      config
      (λ hi' hs' hb'.
        let (before, after, last) = inside f i slot b good hi' hs' hb' in
        (
          magic, version', v.topics, v.checked.ring_depth, v.checked.block_size, before, after,
          last,
        ))
      hi hs hb
