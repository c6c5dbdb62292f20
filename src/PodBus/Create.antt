-- ===== src/PodBus/Create.antt =====
-- src/platform/pod_bus.rs: `create` and `create_bounded`, the file of a bus, and what the drop of
-- its publisher does to it. The answers of the operating system are fields of `BusCalls`.
use crossbar.Base.{
  ℕ, zero, suc, ◌+◌, ◌-◌, ◌*◌, ◌/◌, Bool, false, not, ◌&&◌, Option, none, some, List, [], ◌∷◌, ◌++◌,
  ltb, leb, ◌==◌, if◌then◌else◌, is_power_of_two, update,
}
use crossbar.Error.{
  clock_error, lock_contention, segment_name_invalid, alignment_error, Result, ok, err,
}
use crossbar.Layout.{is_valid_segment_name}
use crossbar.Region.State.{u32}
use crossbar.Publisher.Files.{
  ascii, ShmPath, dev_shm, temp_dir, slash_tmp, Platform, linux, windows, other_os,
  with_lock_extension,
}
use crossbar.PodBus.State.{PodBus, max_subscriber_slots, state_free, u64, set_slot}

abbrev pub pod_bus_magic : List ℕ
pod_bus_magic = 88 ∷ 80 ∷ 79 ∷ 68 ∷ 95 ∷ 90 ∷ 67 ∷ 0 ∷ []

abbrev pub pod_bus_version_v1 : ℕ
pod_bus_version_v1 = 1

abbrev pub pod_bus_version_v2 : ℕ
pod_bus_version_v2 = 2

abbrev pub pod_bus_version_v3 : ℕ
pod_bus_version_v3 = 3

abbrev pub pod_bus_header_size : ℕ
pod_bus_header_size = 64

abbrev pub subscriber_slots_section_size : ℕ
subscriber_slots_section_size = max_subscriber_slots * 16

abbrev pub max_pod_align : ℕ
max_pod_align = 8

unfoldable pub pod_bus_shm_path : Platform → List ℕ → ShmPath
pod_bus_shm_path linux name = dev_shm (ascii "crossbar-pod-" ++ name)
pod_bus_shm_path windows name = temp_dir (ascii "crossbar-pod-" ++ name)
pod_bus_shm_path other_os name = slash_tmp (ascii "crossbar-pod-shm-" ++ name)

unfoldable pub pod_bus_lock_path : Platform → List ℕ → ShmPath
unfolding pod_bus_shm_path
pod_bus_lock_path os name = with_lock_extension (pod_bus_shm_path os name)

-- `size_of` and `align_of` of the type of the values.
pub record PodType : Type 0 where
  pub size : ℕ
  pub align : ℕ

unfoldable pub check_alignment : PodType → Result (Unit {0})
check_alignment type =
    if ltb max_pod_align type.align then err (alignment_error type.align max_pod_align) else ok tt

unfoldable pub validate_name : List ℕ → Result (Unit {0})
validate_name name = if is_valid_segment_name name then ok tt else err (segment_name_invalid name)

abbrev pub round_up : ℕ → ℕ → ℕ
round_up n align = (n + align - 1) / align * align

-- `size_of::<Slot<T>>()`: a stamp of 8 bytes and the value, aligned to 64 bytes.
unfoldable pub slot_size : PodType → ℕ
slot_size type = round_up (round_up 8 type.align + type.size) 64

unfoldable pub region_size_for_version : PodType → (ring_size version : ℕ) → ℕ
unfolding slot_size
region_size_for_version type ring_size version =
    let header_total =
      if leb pod_bus_version_v3 version
      then pod_bus_header_size + subscriber_slots_section_size
      else pod_bus_header_size in
    u64 (header_total + ring_size * slot_size type)

pub record BusHeader : Type 0 where
  pub magic : List ℕ
  pub version : ℕ
  pub ring_size : ℕ
  pub value_size : ℕ
  pub value_align : ℕ
  pub publisher_pid : ℕ
  pub watermark : ℕ

-- `bus` is what the file holds beside the header, with the fields of the publisher's handle.
pub record BusFile : Type 0 where
  pub len : ℕ
  pub header : BusHeader
  pub bus : PodBus

pub record BusCalls : Type 0 where
  pub lock_file : Result (Unit {0})
  pub exclusive : Bool
  pub removed : Bool
  pub file : Result (Unit {0})
  pub set_len : Result (Unit {0})
  pub mmap : Result (Unit {0})
  pub pid : ℕ
  pub now : Option ℕ
  pub created_ino : Option ℕ
  pub shared : Bool

abbrev pub version_for : Option ℕ → ℕ
version_for none = pod_bus_version_v1
version_for (some watermark) = pod_bus_version_v3

abbrev unwrap_or_zero : Option ℕ → ℕ
unwrap_or_zero none = 0
unwrap_or_zero (some watermark) = watermark

abbrev pub zero_bus : (ring_size : ℕ) (watermark : Option ℕ) → PodBus
zero_bus ring_size watermark = record {
  heartbeat = 0;
  write_seq = 0;
  ring = λ i. record { stamp = 0; value = λ w. 0 };
  slots = λ i. record { pid = 0; state_cursor = 0 };
  ring_size = ring_size;
  watermark = watermark;
  cached_slowest = 0;
}

-- The loops that clear the subscriber slots and the stamps, from `i` on with `n` rounds left.
unfoldable pub init_slots : (n i : ℕ) → PodBus → PodBus
init_slots zero i b = b
init_slots (suc n) i b =
    init_slots n (i + 1) (set_slot b i (record { pid = 0; state_cursor = state_free }))

unfoldable pub init_stamps : (n i : ℕ) → PodBus → PodBus
init_stamps zero i b = b
init_stamps (suc n) i b =
    init_stamps n (i + 1) (record b { ring = update b.ring i (record (b.ring i) { stamp = 0 }) })

abbrev pub written_header : (pid : ℕ) → PodType → (ring_size : ℕ) (watermark : Option ℕ) → BusHeader
written_header pid type ring_size watermark = record {
  magic = pod_bus_magic;
  version = version_for watermark;
  ring_size = u32 ring_size;
  value_size = u32 type.size;
  value_align = u32 type.align;
  publisher_pid = pid;
  watermark = u32 (unwrap_or_zero watermark);
}

-- The bus with cleared slots and stamps.
unfoldable pub cleared_bus : (ring_size : ℕ) (watermark : Option ℕ) → PodBus
unfolding init_slots init_stamps
cleared_bus ring_size none = init_stamps ring_size 0 (zero_bus ring_size none)
cleared_bus ring_size (some watermark) =
    init_stamps ring_size 0
      (init_slots max_subscriber_slots 0 (zero_bus ring_size (some watermark)))

-- The publisher's handle, beside the fields that stand in `PodBus`.
pub record BusOwner : Type 0 where
  pub created_ino : Option ℕ

-- From the mapped file on: header, slots, stamps, heartbeat, and the downgrade of the lock.
unfoldable pub init_bus :
    BusCalls
    → PodType
    → List ℕ
    → (ring_size : ℕ) (watermark : Option ℕ) → Result BusOwner × Option BusFile
unfolding cleared_bus region_size_for_version
init_bus calls type name ring_size watermark =
    let len = region_size_for_version type ring_size (version_for watermark) in
    let header = written_header calls.pid type ring_size watermark in
    let b = cleared_bus ring_size watermark in
    elim calls.now [
      | none ↦ (err clock_error, some (record { len = len; header = header; bus = b }))
      | some now ↦
          let file : BusFile = record {
            len = len;
            header = header;
            bus = record b { heartbeat = now };
          } in
          if not calls.shared
          then (err (lock_contention name), some file)
          else (ok (record { created_ino = calls.created_ino }), some file)
    ]

-- A file that was created and not written to yet.
abbrev blank_file : (len ring_size : ℕ) → BusFile
blank_file len ring_size = record {
  len = len;
  header = record {
    magic = [];
    version = 0;
    ring_size = 0;
    value_size = 0;
    value_align = 0;
    publisher_pid = 0;
    watermark = 0;
  };
  bus = zero_bus ring_size none;
}

unfoldable pub create_file :
    BusCalls
    → PodType
    → List ℕ
    → (ring_size : ℕ) (watermark : Option ℕ) → Option BusFile
    → Result BusOwner × Option BusFile
unfolding init_bus
create_file calls type name ring_size watermark old =
    let len = region_size_for_version type ring_size (version_for watermark) in
    elim calls.file [
      | err e ↦ (err e, (if calls.removed then none else old))
      | ok _ ↦ elim calls.set_len [
        | err e ↦ (err e, some (blank_file 0 ring_size))
        | ok _ ↦ elim calls.mmap [
          | err e ↦ (err e, some (blank_file len ring_size))
          | ok _ ↦ init_bus calls type name ring_size watermark
        ]
      ]
    ]

unfoldable pub lock_and_create :
    BusCalls
    → PodType
    → List ℕ
    → (ring_size : ℕ) (watermark : Option ℕ) → Option BusFile
    → Result BusOwner × Option BusFile
unfolding create_file
lock_and_create calls type name ring_size watermark old = elim calls.lock_file [
  | err e ↦ (err e, old)
  | ok _ ↦
      if not calls.exclusive
      then (err (lock_contention name), old)
      else create_file calls type name ring_size watermark old
]

-- `none` is the failed assertion on the ring size. `old` is the file at the bus's path before, and
-- the second result the one after.
unfoldable pub create_inner :
    BusCalls
    → PodType
    → List ℕ
    → (ring_size : ℕ) (watermark : Option ℕ) → Option BusFile
    → Option (Result BusOwner × Option BusFile)
unfolding lock_and_create
create_inner calls type name ring_size watermark old =
    if not (ltb 0 ring_size && is_power_of_two ring_size) then none else elim (validate_name name) [
      | err e ↦ some (err e, old)
      | ok _ ↦ elim (check_alignment type) [
        | err e ↦ some (err e, old)
        | ok _ ↦ some (lock_and_create calls type name ring_size watermark old)
      ]
    ]

-- `create`
unfoldable pub create_unbounded :
    BusCalls
    → PodType
    → List ℕ
    → (ring_size : ℕ) → Option BusFile
    → Option (Result BusOwner × Option BusFile)
unfolding create_inner
create_unbounded calls type name ring_size old = create_inner calls type name ring_size none old

unfoldable pub create_bounded :
    BusCalls
    → PodType
    → List ℕ
    → (ring_size watermark : ℕ) → Option BusFile
    → Option (Result BusOwner × Option BusFile)
unfolding create_inner
create_bounded calls type name ring_size watermark old =
    if not (ltb watermark ring_size)
    then none
    else create_inner calls type name ring_size (some (u64 watermark)) old

-- Whether the drop removes the bus's file, which has the identity `current` now.
unfoldable pub removes_bus_file : BusOwner → (current : Option ℕ) → Bool
removes_bus_file owner current = elim owner.created_ino [
  | none ↦ false
  | some a ↦ elim current [ none ↦ false | some b ↦ a == b ]
]

-- `heartbeat`
unfoldable pub heartbeat : (now : Option ℕ) → PodBus → Result (Unit {0}) × PodBus
heartbeat none b = (err clock_error, b)
heartbeat (some now) b = (ok tt, record b { heartbeat = now })
