-- ===== src/Publisher/Files.antt =====
-- The files of a region: their names, and the shared memory file with its header. The directory
-- is that of the platform; a file name is the list of its bytes.
use Prim.Native.Char.{code}
use Prim.Native.String.{String}
use crossbar.Base.{ℕ, Option, none, some, List, [], ◌∷◌, ◌++◌, ◌==◌, if◌then◌else◌}
use crossbar.Error.{Reason, segment_name_invalid, Result, ok, err}
use crossbar.Layout.{is_valid_segment_name}
use crossbar.Region.State.{Region}

-- The bytes of an ASCII text.
abbrev pub ascii : String → List ℕ
ascii String.[] = []
ascii (String.◌∷◌ c s) = code c ∷ ascii s

pub data ShmPath : Type 0 where
  dev_shm temp_dir slash_tmp : (file_name : List ℕ) → ShmPath

pub data Platform : Type 0 where
  linux windows other_os : Platform

unfoldable pub shm_path : Platform → List ℕ → ShmPath
shm_path linux name = dev_shm (ascii "crossbar-" ++ name)
shm_path windows name = temp_dir (ascii "crossbar-" ++ name)
shm_path other_os name = slash_tmp (ascii "crossbar-shm-" ++ name)

-- What stands before the last dot, if there is one.
unfoldable pub before_dot : List ℕ → Option (List ℕ)
before_dot [] = none
before_dot (c ∷ s) = elim (before_dot s) [
  | some p ↦ some (c ∷ p)
  | none ↦ if c == b'.' then some [] else none
]

-- `Path::set_extension("lock")` of a file name that does not begin with a dot.
unfoldable pub set_extension_lock : List ℕ → List ℕ
unfolding before_dot
set_extension_lock file_name = elim (before_dot file_name) [
  | some stem ↦ stem ++ ascii ".lock"
  | none ↦ file_name ++ ascii ".lock"
]

-- `set_extension("lock")` of a path.
unfoldable pub with_lock_extension : ShmPath → ShmPath
unfolding set_extension_lock
with_lock_extension (dev_shm f) = dev_shm (set_extension_lock f)
with_lock_extension (temp_dir f) = temp_dir (set_extension_lock f)
with_lock_extension (slash_tmp f) = slash_tmp (set_extension_lock f)

unfoldable pub lock_path : Platform → List ℕ → ShmPath
unfolding shm_path with_lock_extension
lock_path os name = with_lock_extension (shm_path os name)

unfoldable pub validate_name : List ℕ → Result (Unit {0})
validate_name name = if is_valid_segment_name name then ok tt else err (segment_name_invalid name)

-- The constant part of the global header.
pub record Header : Type 0 where
  pub magic : List ℕ
  pub version : ℕ
  pub max_topics : ℕ
  pub block_count : ℕ
  pub block_size : ℕ
  pub ring_depth : ℕ
  pub pid : ℕ
  pub stale_timeout_us : ℕ

-- A mapped file: `memory` is all that stands after the constant part.
pub record RegionFile : Type 0 where
  pub len : ℕ
  pub header : Header
  pub memory : Region

-- What opening a file with `O_NOFOLLOW` gives.
pub data Opened {ℓ} (A : Type ℓ) : Type ℓ where
  opened : A → Opened A
  is_symlink : Opened A
  open_failed : Reason → Opened A
