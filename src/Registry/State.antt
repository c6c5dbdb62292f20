-- ===== src/Registry/State.antt =====
-- src/platform/registry.rs: the registry file as one record.
use crossbar.Base.{ℕ, ◌+◌, ◌*◌, Bool, ◌&&◌, List, [], ◌∷◌, ◌==◌, bytes_eq}
use crossbar.Registry.Text.{read_fixed_str}

abbrev pub reg_magic : List ℕ
reg_magic = 88 ∷ 82 ∷ 69 ∷ 71 ∷ 95 ∷ 90 ∷ 67 ∷ 0 ∷ []

abbrev pub reg_version : ℕ
reg_version = 1

abbrev pub reg_header_size : ℕ
reg_header_size = 64

abbrev pub reg_entry_size : ℕ
reg_entry_size = 128

abbrev pub reg_max_entries : ℕ
reg_max_entries = 256

abbrev pub reg_total_size : ℕ
reg_total_size = reg_header_size + reg_max_entries * reg_entry_size

abbrev pub re_region_name_max : ℕ
re_region_name_max = 48

abbrev pub re_topic_uri_max : ℕ
re_topic_uri_max = 64

abbrev pub re_state_free : ℕ
re_state_free = 0

abbrev pub re_state_active : ℕ
re_state_active = 1

-- `region_name` and `topic_uri` are the byte arrays at `RE_REGION_NAME` and `RE_TOPIC_URI`.
pub record Entry : Type 0 where
  pub active : ℕ
  pub pid : ℕ
  pub timestamp : ℕ
  pub region_name : ℕ → ℕ
  pub topic_uri : ℕ → ℕ

pub record Registry : Type 0 where
  pub magic : List ℕ
  pub version : ℕ
  pub entry_count : ℕ
  pub max_entries : ℕ
  pub entries : ℕ → Entry

pub record DiscoveredTopic : Type 0 where
  pub region : List ℕ
  pub uri : List ℕ
  pub pid : ℕ
  pub timestamp_us : ℕ

abbrev pub is_active : Entry → Bool
is_active e = e.active == re_state_active

unfoldable pub region_of : Entry → List ℕ
region_of e = read_fixed_str e.region_name re_region_name_max

unfoldable pub uri_of : Entry → List ℕ
uri_of e = read_fixed_str e.topic_uri re_topic_uri_max

-- The tests of one entry in `register` and in `unregister`.
unfoldable pub has_key : (region uri : List ℕ) → (pid : ℕ) → Entry → Bool
has_key region uri pid e =
    is_active e && (e.pid == pid) && bytes_eq (region_of e) region && bytes_eq (uri_of e) uri

unfoldable pub is_of : (region : List ℕ) → (pid : ℕ) → Entry → Bool
is_of region pid e = is_active e && (e.pid == pid) && bytes_eq (region_of e) region
