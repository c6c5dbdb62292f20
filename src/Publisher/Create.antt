-- ===== src/Publisher/Create.antt =====
-- src/platform/shm.rs: `Publisher::create`, and what its drop does to the file. The answers of the
-- operating system are fields of `CreateCalls`.
use crossbar.Base.{
  ℕ, zero, suc, ◌+◌, Bool, true, false, not, ◌&&◌, Option, none, some, List, [], ◌∷◌, ltb, ◌==◌,
  if◌then◌else◌, is_power_of_two,
}
use crossbar.Error.{
  Reason, io, invalid_region, lock_contention, region_size_overflow, segment_name_invalid, Result,
  ok, err,
}
use crossbar.Layout.{Config, version, block_data_offset, no_block, region_size_checked}
use crossbar.Region.State.{Region, TopicEntry, u64, set_entry}
use crossbar.Region.Pool.{init_free_list}
use crossbar.Publisher.Blocks.{Publisher, update_heartbeat}
use crossbar.Publisher.Files.{
  Header, RegionFile, Opened, opened, is_symlink, open_failed, validate_name,
}

abbrev pub region_magic : List ℕ
region_magic = 88 ∷ 66 ∷ 65 ∷ 82 ∷ 95 ∷ 90 ∷ 67 ∷ 0 ∷ []

-- The checks before any file is touched; the size of the region.
unfoldable pub check_config : Config → Result ℕ
check_config config =
    if ltb config.block_size (block_data_offset + 1)
    then err (invalid_region (Reason.block_size_below_minimum config.block_size))
    else if not (is_power_of_two config.ring_depth)
    then err (invalid_region (Reason.ring_depth_invalid config.ring_depth))
    else if config.block_count == 0
    then err (invalid_region Reason.block_count_below_1)
    else if config.max_topics == 0
    then err (invalid_region Reason.max_topics_below_1)
    else elim (region_size_checked config) [ none ↦ err region_size_overflow | some size ↦ ok size ]

-- A new file is zero. `Region::from_raw` starts with no recycled block.
abbrev pub zero_topic : TopicEntry
zero_topic = record {
  active = 0;
  write_seq = 0;
  waiters = 0;
  uri_len = 0;
  uri_hash = 0;
  uri = λ i. 0;
  type_size = 0;
  pinned_block = 0;
  pinned_readers = 0;
  pinned_seq = 0;
  subscriber_count = 0;
}

abbrev pub zero_memory : Config → Region
zero_memory config = record {
  pool_head = 0;
  heartbeat = 0;
  link = λ b. 0;
  refcount = λ b. 0;
  bytes = λ b i. 0;
  topics = λ i. zero_topic;
  ring = λ i slot. record { seq = 0; block_idx = 0; data_len = 0 };
  config = config;
  last_freed = no_block;
  wakes = [];
}

abbrev pub written_header : (pid : ℕ) → Config → Header
written_header pid config = record {
  magic = region_magic;
  version = version;
  max_topics = config.max_topics;
  block_count = config.block_count;
  block_size = config.block_size;
  ring_depth = config.ring_depth;
  pid = pid;
  stale_timeout_us = u64 config.stale_timeout;
}

-- The two nested loops that empty the rings, from slot or topic `i` on with `n` left.
unfoldable pub init_slots : (topic_idx n i : ℕ) → Region → Region
init_slots topic_idx zero i r = r
init_slots topic_idx (suc n) i r =
    init_slots topic_idx n (i + 1)
      (set_entry r topic_idx i (record { seq = 0; block_idx = no_block; data_len = 0 }))

unfoldable pub init_rings : (n i : ℕ) → Region → Region
unfolding init_slots
init_rings zero i r = r
init_rings (suc n) i r = init_rings n (i + 1) (init_slots i r.config.ring_depth 0 r)

-- `lock_file`, `file`, `set_len` and `mmap` are the results of opening, sizing and mapping;
-- `exclusive` and `shared` say whether the locks were granted, and `removed` whether the old file
-- could be removed. `path_text` is the path as it is shown in the error.
pub record CreateCalls : Type 0 where
  pub lock_file : Result (Unit {0})
  pub exclusive : Bool
  pub removed : Bool
  pub file : Opened (Unit {0})
  pub path_text : List ℕ
  pub set_len : Result (Unit {0})
  pub mmap : Result (Unit {0})
  pub pid : ℕ
  pub now : Option ℕ
  pub shared : Bool
  pub created_ino : Option ℕ
  pub id : ℕ
  pub instant : ℕ

-- A publisher, and the identity of the file that it created.
pub record Owner : Type 0 where
  pub publisher : Publisher
  pub created_ino : Option ℕ

abbrev pub new_publisher : (id instant : ℕ) (is_owner : Bool) (max_topics : ℕ) → Publisher
new_publisher id instant is_owner max_topics = record {
  id = id;
  is_owner = is_owner;
  last_heartbeat = instant;
  loan_count = 0;
  block_cache = [];
  pinned_blocks = λ i. no_block;
  pinned_len = max_topics;
}

-- From the mapped file on: header, pool, heartbeat, rings, and the downgrade of the lock.
unfoldable pub init_region :
    CreateCalls → List ℕ → Config → (size : ℕ) → Result Owner × Option RegionFile
unfolding init_rings
init_region calls name config size =
    let header = written_header calls.pid config in
    let (beat, r) = update_heartbeat calls.now (init_free_list (zero_memory config)) in
    elim beat [
      | err e ↦ (err e, some (record { len = size; header = header; memory = r }))
      | ok _ ↦
          let file : RegionFile = record {
            len = size;
            header = header;
            memory = init_rings config.max_topics 0 r;
          } in
          if not calls.shared then (err (lock_contention name), some file) else (
            ok (record {
              publisher = new_publisher calls.id calls.instant true config.max_topics;
              created_ino = calls.created_ino;
            }),
            some file,
          )
    ]

-- The file that a failure leaves before the header is written: it holds zeros.
abbrev pub blank_file : (len : ℕ) → Config → RegionFile
blank_file len config = record {
  len = len;
  header = record {
    magic = [];
    version = 0;
    max_topics = 0;
    block_count = 0;
    block_size = 0;
    ring_depth = 0;
    pid = 0;
    stale_timeout_us = 0;
  };
  memory = zero_memory config;
}

-- With the exclusive lock held.
unfoldable pub create_file :
    CreateCalls
    → List ℕ
    → Config
    → (size : ℕ) → Option RegionFile
    → Result Owner × Option RegionFile
unfolding init_region
create_file calls name config size old =
    let kept : Option RegionFile = if calls.removed then none else old in
    elim calls.file [
      | is_symlink ↦ (err (segment_name_invalid calls.path_text), kept)
      | open_failed why ↦ (err (io why), kept)
      | opened _ ↦ elim calls.set_len [
        | err e ↦ (err e, some (blank_file 0 config))
        | ok _ ↦ elim calls.mmap [
          | err e ↦ (err e, some (blank_file size config))
          | ok _ ↦ init_region calls name config size
        ]
      ]
    ]

unfoldable pub lock_and_create :
    CreateCalls
    → List ℕ
    → Config
    → (size : ℕ) → Option RegionFile
    → Result Owner × Option RegionFile
unfolding create_file
lock_and_create calls name config size old = elim calls.lock_file [
  | err e ↦ (err e, old)
  | ok _ ↦
      if not calls.exclusive
      then (err (lock_contention name), old)
      else create_file calls name config size old
]

-- `old` is the file that stands at the region's path before, and the second result the one after.
unfoldable pub create :
    CreateCalls → List ℕ → Config → Option RegionFile → Result Owner × Option RegionFile
unfolding check_config lock_and_create
create calls name config old = elim (validate_name name) [
  | err e ↦ (err e, old)
  | ok _ ↦ elim (check_config config) [
    | err e ↦ (err e, old)
    | ok size ↦ lock_and_create calls name config size old
  ]
]

-- Whether the drop of a publisher removes the file, which has the identity `current` now.
unfoldable pub removes_file : Owner → (current : Option ℕ) → Bool
removes_file owner current =
    let same : Bool = elim owner.created_ino [
      | none ↦ false
      | some a ↦ elim current [ none ↦ false | some b ↦ a == b ]
    ] in
    owner.publisher.is_owner && same
