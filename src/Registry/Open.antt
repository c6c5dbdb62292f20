-- ===== src/Registry/Open.antt =====
-- src/platform/registry.rs: `open_at`, `try_open_existing` and `create_new`. What the operating
-- system answers is an argument.
use crossbar.Base.{ℕ, not, Option, none, some, List, ltb, ◌==◌, if◌then◌else◌, bytes_eq}
use crossbar.Error.{
  invalid_region, registry_too_small, registry_invalid_magic, registry_unsupported_version, Result,
  ok, err,
}
use crossbar.Registry.State.{
  Entry, Registry, reg_magic, reg_version, reg_max_entries, reg_total_size,
}

-- A file that was opened: its size, and its content mapped as a registry.
pub record RegistryFile : Type 0 where
  pub size : ℕ
  pub content : Registry

pub data Platform : Type 0 where
  linux windows other_os : Platform

pub data RegistryPath : Type 0 where
  custom : List ℕ → RegistryPath
  dev_shm_crossbar_registry temp_dir_crossbar_registry tmp_crossbar_shm_registry : RegistryPath

-- `env` is the variable `CROSSBAR_REGISTRY`.
unfoldable pub registry_path : (env : Option (List ℕ)) → Platform → RegistryPath
registry_path (some p) os = custom p
registry_path none linux = dev_shm_crossbar_registry
registry_path none windows = temp_dir_crossbar_registry
registry_path none other_os = tmp_crossbar_shm_registry

unfoldable pub check_header : RegistryFile → Result Registry
check_header f =
    if ltb f.size reg_total_size
    then err (invalid_region registry_too_small)
    else if not (bytes_eq f.content.magic reg_magic)
    then err (invalid_region registry_invalid_magic)
    else if not (f.content.version == reg_version)
    then err (invalid_region registry_unsupported_version)
    else ok f.content

-- `file` is what opening, measuring and mapping the file gives.
unfoldable pub try_open_existing : (file : Result RegistryFile) → Result Registry
unfolding check_header
try_open_existing (err e) = err e
try_open_existing (ok f) = check_header f

abbrev pub zeroed : Entry
zeroed = record { active = 0; pid = 0; timestamp = 0; region_name = λ i. 0; topic_uri = λ i. 0 }

-- A file that was truncated and set to its size, with the header written.
abbrev pub fresh_registry : Registry
fresh_registry = record {
  magic = reg_magic;
  version = reg_version;
  entry_count = 0;
  max_entries = reg_max_entries;
  entries = λ i. zeroed;
}

-- `created` is what creating, sizing and mapping the file gives.
unfoldable pub create_new : (created : Result (Unit {0})) → Result Registry
create_new (err e) = err e
create_new (ok _) = ok fresh_registry

-- Also `open`, at the path of `registry_path`.
unfoldable pub open_at :
    (file : Result RegistryFile) → (created : Result (Unit {0})) → Result Registry
unfolding try_open_existing create_new
open_at file created = elim (try_open_existing file) [ ok g ↦ ok g | err e ↦ create_new created ]
