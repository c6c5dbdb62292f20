-- ===== src/Layout/Consts.antt =====
-- The constants of src/protocol/layout.rs.
use crossbar.Base.{ℕ}

abbrev pub version : ℕ
version = 3

abbrev pub header_size : ℕ
header_size = 128

abbrev pub topic_entry_size : ℕ
topic_entry_size = 128

abbrev pub ring_entry_size : ℕ
ring_entry_size = 16

abbrev pub block_data_offset : ℕ
block_data_offset = 8

abbrev pub no_block : ℕ
no_block = 0xffff_ffff

abbrev pub seq_writing : ℕ
seq_writing = 0xffff_ffff_ffff_ffff

abbrev pub te_state_free : ℕ
te_state_free = 0

abbrev pub te_state_init : ℕ
te_state_init = 2

abbrev pub te_state_active : ℕ
te_state_active = 1

abbrev pub max_topics_limit : ℕ
max_topics_limit = 4096

abbrev pub pinned_writer_active : ℕ
pinned_writer_active = 0xffff_ffff

abbrev pub gh_magic : ℕ
gh_magic = 0

abbrev pub gh_version : ℕ
gh_version = 8

abbrev pub gh_max_topics : ℕ
gh_max_topics = 0x0c

abbrev pub gh_block_count : ℕ
gh_block_count = 0x10

abbrev pub gh_block_size : ℕ
gh_block_size = 0x14

abbrev pub gh_ring_depth : ℕ
gh_ring_depth = 0x18

abbrev pub gh_pool_head : ℕ
gh_pool_head = 0x20

abbrev pub gh_heartbeat : ℕ
gh_heartbeat = 0x28

abbrev pub gh_pid : ℕ
gh_pid = 0x30

abbrev pub gh_stale_timeout_us : ℕ
gh_stale_timeout_us = 0x38

abbrev pub te_active : ℕ
te_active = 0

abbrev pub te_write_seq : ℕ
te_write_seq = 8

abbrev pub te_waiters : ℕ
te_waiters = 0x10

abbrev pub te_uri_len : ℕ
te_uri_len = 0x14

abbrev pub te_uri_hash : ℕ
te_uri_hash = 0x18

abbrev pub te_uri : ℕ
te_uri = 0x20

abbrev pub te_uri_max : ℕ
te_uri_max = 64

abbrev pub te_type_size : ℕ
te_type_size = 0x60

abbrev pub te_pinned_block : ℕ
te_pinned_block = 0x64

abbrev pub te_pinned_readers : ℕ
te_pinned_readers = 0x68

abbrev pub te_pinned_seq : ℕ
te_pinned_seq = 0x70

abbrev pub te_subscriber_count : ℕ
te_subscriber_count = 0x78

abbrev pub re_seq : ℕ
re_seq = 0

abbrev pub re_block_idx : ℕ
re_block_idx = 8

abbrev pub re_data_len : ℕ
re_data_len = 12

abbrev pub bk_refcount : ℕ
bk_refcount = 4
