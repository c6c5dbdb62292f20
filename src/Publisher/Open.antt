-- ===== src/Publisher/Open.antt =====
-- src/platform/shm.rs: `open_and_validate_region`, `Publisher::open` and `Subscriber::connect`.
use crossbar.Base.{
  ℕ, ◌+◌, Bool, false, not, ◌||◌, Option, none, some, List, ltb, ◌==◌, if◌then◌else◌,
  is_power_of_two, bytes_eq,
}
use crossbar.Error.{
  Reason, io, invalid_region, lock_contention, region_size_overflow, segment_name_invalid, Result,
  ok, err,
}
use crossbar.Layout.{
  Config, default_config, version, header_size, block_data_offset, no_block, max_topics_limit,
  region_size_checked,
}
use crossbar.Region.State.{Region}
use crossbar.Publisher.Blocks.{check_heartbeat}
use crossbar.Publisher.Files.{
  Header, RegionFile, Opened, opened, is_symlink, open_failed, validate_name,
}
use crossbar.Publisher.Create.{Owner, region_magic, new_publisher}

-- The configuration that the header gives.
abbrev pub header_config : Header → Config
header_config h = record default_config {
  max_topics = h.max_topics;
  block_count = h.block_count;
  block_size = h.block_size;
  ring_depth = h.ring_depth;
  stale_timeout = h.stale_timeout_us;
}

-- The checks of the configuration read from the header, and of the length of the mapping.
unfoldable pub validate_config : (len : ℕ) → Config → Result (Unit {0})
validate_config len config =
    if ltb config.block_size (block_data_offset + 1)
    then err (invalid_region (Reason.block_size_too_small config.block_size))
    else if not (is_power_of_two config.ring_depth) || (config.ring_depth == 0)
    then err (invalid_region (Reason.ring_depth_not_power_of_2 config.ring_depth))
    else if config.block_count == 0
    then err (invalid_region Reason.block_count_zero)
    else if config.max_topics == 0
    then err (invalid_region Reason.max_topics_zero)
    else if ltb max_topics_limit config.max_topics
    then err (invalid_region (Reason.max_topics_exceeds_limit config.max_topics))
    else elim (region_size_checked config) [
      | none ↦ err region_size_overflow
      | some expected_size ↦
          if ltb len expected_size
          then err (invalid_region (Reason.region_size_below len expected_size))
          else ok tt
    ]

unfoldable pub validate_header : RegionFile → Result (Unit {0})
unfolding validate_config
validate_header f =
    if ltb f.len header_size
    then err (invalid_region Reason.too_small_for_header)
    else if not (bytes_eq f.header.magic region_magic)
    then err (invalid_region Reason.invalid_magic)
    else if not (f.header.version == version)
    then err (invalid_region (Reason.unsupported_version f.header.version))
    else validate_config f.len (header_config f.header)

-- `Region::from_raw` over the mapped memory.
abbrev pub from_raw : RegionFile → Region
from_raw f = record f.memory { config = header_config f.header; last_freed = no_block }

unfoldable pub validate_region : (now : Option ℕ) → RegionFile → Result Region
unfolding validate_header
validate_region now f = elim (validate_header f) [
  | err e ↦ err e
  | ok _ ↦ elim (check_heartbeat now (from_raw f)) [ err e ↦ err e | ok _ ↦ ok (from_raw f) ]
]

-- `file` and `mmap` are the results of opening and mapping the file.
unfoldable pub open_and_validate_region :
    (file : Opened RegionFile) (path_text : List ℕ) (mmap : Result (Unit {0})) (now : Option ℕ)
    → Result Region
unfolding validate_region
open_and_validate_region file path_text mmap now = elim file [
  | is_symlink ↦ err (segment_name_invalid path_text)
  | open_failed why ↦ err (io why)
  | opened f ↦ elim mmap [ err e ↦ err e | ok _ ↦ validate_region now f ]
]

-- `Publisher::open`: also the publisher, which is no owner.
unfoldable pub open_region :
    (lock_file : Result (Unit {0})) (shared : Bool) (file : Opened RegionFile) (path_text : List ℕ)
    (mmap : Result (Unit {0})) (now : Option ℕ) (id instant : ℕ)
    → List ℕ
    → Result (Owner × Region)
unfolding open_and_validate_region
open_region lock_file shared file path_text mmap now id instant name = elim (validate_name name) [
  | err e ↦ err e
  | ok _ ↦ elim lock_file [
    | err e ↦ err e
    | ok _ ↦
        if not shared
        then err (lock_contention name)
        else elim (open_and_validate_region file path_text mmap now) [
          | err e ↦ err e
          | ok r ↦ ok (
            record {
              publisher = new_publisher id instant false r.config.max_topics;
              created_ino = none;
            },
            r,
          )
        ]
  ]
]

-- `Subscriber::connect`
unfoldable pub connect :
    (file : Opened RegionFile) (path_text : List ℕ) (mmap : Result (Unit {0})) (now : Option ℕ)
    → List ℕ
    → Result Region
unfolding open_and_validate_region
connect file path_text mmap now name = elim (validate_name name) [
  | err e ↦ err e
  | ok _ ↦ open_and_validate_region file path_text mmap now
]
