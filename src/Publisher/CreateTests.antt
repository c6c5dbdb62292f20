-- ===== src/Publisher/CreateTests.antt =====
-- Regions created and connected to.
use crossbar.Base.{
  List, [], ℕ, ◌<◌, ◌+◌, ◌*◌, ◌≤◌, ◌≡◌, ◌≢◌, refl, ap, length, true, none, some, ◌∷◌, ◌++◌, arith,
  ltb, if◌then◌else◌, is_power_of_two,
}
use crossbar.Error.{Reason, invalid_region, ok, err}
use crossbar.Layout.{
  Config, default_config, no_block, max_topics_limit, is_valid_segment_name, contains,
  contains_dots, region_size_checked, version, topic_entry_off, topic_entry_size, ring_entry_off,
  ring_entry_size, block_pool_offset,
}
use crossbar.Region.State.{Region}
use crossbar.Region.FreeList.{FreeList}
use crossbar.Region.Init.{from}
use crossbar.Stream.History.{Holds}
use crossbar.Stream.Fixture.{nothing}
use crossbar.Publisher.Initial.{create-Unused}
use crossbar.Publisher.Topics.{
  Topic, register, register_inner, find_topic, has_uri, claim_topic, find_free,
}
use crossbar.Publisher.Received.{publish_and_receive}
use crossbar.Publisher.First.{create-publish_and_receive}
use crossbar.Publisher.Files.{ascii, linux, lock_path, shm_path, opened, RegionFile, validate_name}
use crossbar.Publisher.Blocks.{update_heartbeat}
use crossbar.Region.Pool.{init_free_list}
use crossbar.Publisher.Create.{init_rings, CreateCalls, Owner, create, region_magic, new_publisher}
use crossbar.Publisher.Open.{connect}
use crossbar.Publisher.Created.{made}
use crossbar.Publisher.Reconnect.{create-connect}
use crossbar.Publisher.Validated.{connect_inside}
use crossbar.Publisher.Locks.{lock_path_shared}

-- `prices.eu` and `prices.usa`
lock_path_shared_example :
    (lock_path linux (ascii "prices" ++ b'.' ∷ ascii "eu")
      ≡ lock_path linux (ascii "prices" ++ b'.' ∷ ascii "usa"))
    × (shm_path linux (ascii "prices" ++ b'.' ∷ ascii "eu")
        ≢ shm_path linux (ascii "prices" ++ b'.' ∷ ascii "usa"))
unfolding contains
lock_path_shared_example =
    lock_path_shared linux (ascii "prices") (ascii "eu") (ascii "usa") refl refl
      (λ e. omega (arith, ap length e))

-- Two topics with rings of two entries, and two blocks of 64 bytes.
abbrev small_config : Config
small_config = record default_config {
  max_topics = 2;
  block_count = 2;
  block_size = 64;
  ring_depth = 2;
}

abbrev granted : CreateCalls
granted = record {
  lock_file = ok tt;
  exclusive = true;
  removed = true;
  file = opened tt;
  path_text = ascii "/dev/shm/crossbar-p";
  set_len = ok tt;
  mmap = ok tt;
  pid = 77;
  now = some 1000;
  shared = true;
  created_ino = some 5;
  id = 7;
  instant = 0;
}

abbrev owner : Owner
owner = record { publisher = new_publisher 7 0 true 2; created_ino = some 5 }

abbrev small_file : RegionFile
small_file = made 77 576 1000 small_config

created : create granted (ascii "p") small_config none ≡ (ok owner, some small_file)
unfolding create validate_name is_valid_segment_name contains contains_dots is_power_of_two
    region_size_checked update_heartbeat
created = refl

create-connect_example :
    connect (opened small_file) (ascii "/dev/shm/crossbar-p") (ok tt) (some 3000) (ascii "p") ≡ (
      if ltb max_topics_limit 2
      then err (invalid_region (Reason.max_topics_exceeds_limit 2))
      else ok (record small_file.memory {
        config = record small_config { heartbeat_interval = 100_000 };
        last_freed = no_block;
      }))
create-connect_example =
    create-connect granted (ascii "p") small_config none owner small_file
      (ascii "/dev/shm/crossbar-p") 1000 3000 created refl (omega arith) (omega arith)

abbrev joined : Region
joined = record small_file.memory { config = small_config; last_freed = no_block }

joins :
    connect (opened small_file) (ascii "/dev/shm/crossbar-p") (ok tt) (some 3000) (ascii "p")
    ≡ ok joined
joins =
    create-connect granted (ascii "p") small_config none owner small_file
      (ascii "/dev/shm/crossbar-p") 1000 3000 created refl (omega arith) (omega arith)

connect_inside_example :
    (small_file.header.magic ≡ region_magic)
    × (small_file.header.version ≡ version)
    × (joined.config.max_topics ≤ 4096)
    × (is_power_of_two joined.config.ring_depth ≡ true)
    × (9 ≤ joined.config.block_size)
    × (topic_entry_off 1 + topic_entry_size ≤ ring_entry_off joined.config 1 1)
    × (ring_entry_off joined.config 1 1 + ring_entry_size ≤ block_pool_offset joined.config)
    × (block_pool_offset joined.config + 1 * joined.config.block_size + joined.config.block_size
        ≤ small_file.len)
connect_inside_example =
    connect_inside small_file (ascii "/dev/shm/crossbar-p") (ok tt) (some 3000) (ascii "p") joined 1
      1 1 joins (omega arith) (omega arith) (omega arith)

create-Unused_example :
    FreeList small_file.memory (from 0 2)
    × ((j : ℕ) → j < 2 → small_file.memory.refcount j ≡ 0)
    × ((i : ℕ) → i < 2 → Holds nothing i small_file.memory)
create-Unused_example =
    create-Unused granted (ascii "p") small_config none owner small_file nothing created
      (omega arith) (omega arith)

-- `/t`
abbrev uri : List ℕ
uri = 47 ∷ 116 ∷ []

abbrev topic : Topic
topic = record { topic_idx = 0; publisher_id = 7 }

abbrev with_topic : Region
with_topic = (register 7 uri small_file.memory).1

registers : register 7 uri small_file.memory ≡ (ok topic, with_topic)
unfolding register register_inner find_topic has_uri claim_topic find_free init_rings
    update_heartbeat init_free_list
registers = refl

create-publish_and_receive_example :
    publish_and_receive 0 (some 1000) (λ b. 0) topic (ascii "abc") owner.publisher 0 with_topic
    ≡ some (ascii "abc")
create-publish_and_receive_example =
    create-publish_and_receive granted (ascii "p") small_config none owner small_file uri topic
      with_topic 0 (some 1000) (λ b. 0) (ascii "abc") 0 created registers (omega arith)
      (omega arith) (omega arith) (omega arith)
