-- ===== src/PodBus/Connect.antt =====
-- src/platform/pod_bus.rs: `BusSubscriber::connect`.
use crossbar.Base.{
  ℕ, ◌-◌, Bool, not, ◌&&◌, ◌||◌, Option, none, some, List, ltb, ◌==◌, if◌then◌else◌,
  is_power_of_two, bytes_eq,
}
use crossbar.Error.{
  Reason, clock_error, publisher_dead, lock_contention, invalid_region, Result, ok, err,
}
use crossbar.PodBus.State.{PodBus, BusSubscriber, heartbeat_stale_us}
use crossbar.PodBus.Subscribe.{claim_subscriber_slot}
use crossbar.PodBus.Create.{
  PodType, BusFile, pod_bus_magic, pod_bus_version_v1, pod_bus_version_v2, pod_bus_version_v3,
  pod_bus_header_size, region_size_for_version, check_alignment, validate_name,
}

-- The checks of the header, up to the size of the file.
unfoldable pub check_types : PodType → BusFile → Result (Unit {0})
check_types type f =
    let h = f.header in
    let expected_size = region_size_for_version type h.ring_size h.version in
    if (h.ring_size == 0) || not (is_power_of_two h.ring_size)
    then err (invalid_region (Reason.bus_ring_size_not_power_of_2 h.ring_size))
    else if not (h.value_size == type.size)
    then err (invalid_region (Reason.value_size_mismatch h.value_size type.size))
    else if not (h.value_align == type.align)
    then err (invalid_region (Reason.value_align_mismatch h.value_align type.align))
    else if ltb f.len expected_size
    then err (invalid_region (Reason.bus_region_size_below f.len expected_size))
    else ok tt

unfoldable pub check_file : PodType → BusFile → Result (Unit {0})
unfolding check_types
check_file type f =
    let h = f.header in
    if ltb f.len pod_bus_header_size
    then err (invalid_region Reason.bus_too_small_for_header)
    else if not (bytes_eq h.magic pod_bus_magic)
    then err (invalid_region Reason.bus_invalid_magic)
    else if h.version == pod_bus_version_v2
    then err (invalid_region Reason.deprecated_version)
    else if not (h.version == pod_bus_version_v1) && not (h.version == pod_bus_version_v3)
    then err (invalid_region (Reason.bus_unsupported_version h.version))
    else check_types type f

unfoldable pub check_alive : (now : Option ℕ) → PodBus → Result (Unit {0})
check_alive none b = err clock_error
check_alive (some now) b =
    if ltb heartbeat_stale_us (now - b.heartbeat) then err publisher_dead else ok tt

-- The cursor, and on a bounded bus a slot that shows it.
unfoldable pub attach : (clock : ℕ → Option ℕ) (pid : ℕ) → BusFile → Result BusSubscriber × PodBus
attach clock pid f =
    let cursor = f.bus.write_seq in
    if f.header.version == pod_bus_version_v3
    then (let (claimed, b) = claim_subscriber_slot clock cursor pid f.bus in
        (
          elim claimed [
            | err e ↦ err e
            | ok idx ↦ ok (record {
              ring_size = f.header.ring_size;
              cursor = cursor;
              total_lagged = 0;
              slot_index = some idx;
            })
          ],
          b,
        ))
    else (
      ok (record {
        ring_size = f.header.ring_size;
        cursor = cursor;
        total_lagged = 0;
        slot_index = none;
      }),
      f.bus,
    )

unfoldable pub connect_file :
    PodType
    → (now : Option ℕ) (clock : ℕ → Option ℕ) (pid : ℕ) → BusFile
    → Result BusSubscriber × PodBus
unfolding check_file check_alive attach
connect_file type now clock pid f = elim (check_file type f) [
  | err e ↦ (err e, f.bus)
  | ok _ ↦ elim (check_alive now f.bus) [ err e ↦ (err e, f.bus) | ok _ ↦ attach clock pid f ]
]

-- `lock_file`, `file` and `mmap` are the results of opening and mapping, `shared` whether the lock
-- was granted, and `now` and `clock` the readings of the clock. The second result is the bus after,
-- where the file could be opened.
pub record ConnectCalls : Type 0 where
  pub lock_file : Result (Unit {0})
  pub shared : Bool
  pub file : Result BusFile
  pub mmap : Result (Unit {0})
  pub now : Option ℕ
  pub clock : ℕ → Option ℕ
  pub pid : ℕ

unfoldable pub open_file : PodType → List ℕ → ConnectCalls → Result BusSubscriber × Option PodBus
unfolding connect_file
open_file type name calls = elim calls.lock_file [
  | err e ↦ (err e, none)
  | ok _ ↦ if not calls.shared then (err (lock_contention name), none) else elim calls.file [
    | err e ↦ (err e, none)
    | ok f ↦ elim calls.mmap [
      | err e ↦ (err e, some f.bus)
      | ok _ ↦ let (sub, b) = connect_file type calls.now calls.clock calls.pid f in (sub, some b)
    ]
  ]
]

unfoldable pub connect : PodType → List ℕ → ConnectCalls → Result BusSubscriber × Option PodBus
unfolding open_file
connect type name calls = elim (validate_name name) [
  | err e ↦ (err e, none)
  | ok _ ↦ elim (check_alignment type) [ err e ↦ (err e, none) | ok _ ↦ open_file type name calls ]
]
