-- ===== src/Region/Fixture.antt =====
-- A small region for concrete runs.
use crossbar.Base.{[]}
use crossbar.Layout.{default_config, no_block}
use crossbar.Region.State.{Region, TopicEntry}

abbrev pub blank_topic : TopicEntry
blank_topic = record {
  active = 1;
  write_seq = 0;
  waiters = 0;
  uri_len = 0;
  uri_hash = 0;
  uri = λ i. 0;
  type_size = 0;
  pinned_block = no_block;
  pinned_readers = 0;
  pinned_seq = 0;
  subscriber_count = 0;
}

-- Two blocks of 64 bytes, two topics with rings of four entries.
abbrev pub blank : Region
blank = record {
  pool_head = 0;
  heartbeat = 0;
  link = λ b. 0;
  refcount = λ b. 0;
  bytes = λ b i. 0;
  topics = λ i. blank_topic;
  ring = λ i slot. record { seq = 0; block_idx = no_block; data_len = 0 };
  config = record default_config {
    max_topics = 2;
    block_count = 2;
    block_size = 64;
    ring_depth = 4;
  };
  last_freed = no_block;
  wakes = [];
}
