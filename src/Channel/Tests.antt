-- ===== src/Channel/Tests.antt =====
-- A message that is sent before the other endpoint subscribes.
use crossbar.Base.{
  ℕ, ◌<◌, ◌≡◌, refl, true, some, List, arith, is_power_of_two, ◌==◌, if◌then◌else◌, update,
  bytes_eq, read_at, write_at,
}
use mathlib.Core.Path.{subst}
use crossbar.Error.{Reason, ok}
use crossbar.Layout.{is_valid_segment_name, contains, contains_dots, region_size_checked, uri_hash}
use crossbar.Region.State.{Region, data_capacity, set_topic}
use crossbar.Region.Ring.{commit_to_ring, smart_wake, release_old, claim, slot_of}
use crossbar.Region.Fixture.{blank, blank_topic}
use crossbar.Stream.Receive.{alone, SlotRead}
use crossbar.Stream.History.{Holds, hold}
use crossbar.Stream.Append.{Fresh, commit_to_ring-Holds}
use crossbar.Stream.Fixture.{nothing, three_bytes}
use crossbar.Publisher.Files.{ascii, RegionFile, opened, open_failed, validate_name}
use crossbar.Publisher.Blocks.{check_heartbeat}
use crossbar.Publisher.Topics.{Topic, registered, find_topic, has_uri}
use crossbar.Publisher.Create.{Owner, new_publisher, written_header}
use crossbar.Publisher.Open.{from_raw}
use crossbar.Publisher.Open
use crossbar.Channel.Endpoint.{Attempt, channel_uri, attempt, time_left, wait_for_peer, try_recv}
use crossbar.Channel.Early.{Retried, from_start, joined_by_one, wait_for_peer-try_recv}

abbrev region_name : List ℕ
region_name = ascii "rpc-srv"

-- The server has registered the topic of the channel, and sent three bytes.
abbrev before : Region
before = set_topic blank 0 (registered channel_uri 0 blank_topic)

abbrev sent : Region
sent = commit_to_ring 1 3 0 true true before

before-Holds : Holds nothing 0 before
unfolding is_power_of_two registered
before-Holds = record {
  power = refl;
  depth = omega arith;
  blocks = omega arith;
  room = omega arith;
  recent = λ s pos below near. absurd (omega arith);
  apart = λ s t pos less below near. absurd (omega arith);
  unused = λ s above within. refl;
}

three_bytes-Fresh_before : Fresh nothing 0 three_bytes before
unfolding data_capacity registered
three_bytes-Fresh_before = record {
  block = omega arith;
  len = omega arith;
  unheld = λ s pos below near. absurd (omega arith);
}

abbrev history : ℕ → SlotRead
history = update nothing 1 three_bytes

abbrev server_file : RegionFile
server_file = record { len = 4096; header = written_header 77 blank.config; memory = sent }

abbrev peer : Region
peer = from_raw server_file

peer-Holds : Holds history 0 peer
unfolding commit_to_ring registered smart_wake release_old claim slot_of
peer-Holds =
    (commit_to_ring-Holds nothing three_bytes 0 true true before before-Holds
      three_bytes-Fresh_before (omega arith)).0

-- No file in the first round, and the server's in the second.
abbrev world : ℕ → Attempt
world j = record {
  file = if j == 0 then open_failed (Reason.os_error 2) else opened server_file;
  path_text = ascii "/dev/shm/crossbar-rpc-srv";
  mmap = ok tt;
  now = some 3000;
  instant = 10;
}

first_round : Retried (some 5000) (world 0) region_name
unfolding attempt time_left Open.connect validate_name is_valid_segment_name contains contains_dots
first_round = (_, refl, refl)

connects :
    Open.connect
      (opened server_file)
      (ascii "/dev/shm/crossbar-rpc-srv")
      (ok tt)
      (some 3000)
      region_name
    ≡ ok peer
unfolding Open.connect validate_name is_valid_segment_name contains contains_dots bytes_eq
    is_power_of_two region_size_checked check_heartbeat commit_to_ring smart_wake release_old claim
    slot_of registered
connects = refl

found : find_topic channel_uri 2 0 peer.topics ≡ some 0
unfolding find_topic has_uri commit_to_ring smart_wake release_old claim slot_of registered uri_hash
    bytes_eq read_at write_at
found = refl

abbrev client : Owner
client = record { publisher = new_publisher 8 0 true 2; created_ino = some 6 }

abbrev client_topic : Topic
client_topic = record { topic_idx = 0; publisher_id = 8 }

one_seq : (peer.topics 0).write_seq ≡ 1
unfolding commit_to_ring smart_wake release_old claim slot_of registered
one_seq = refl

sent_one : 0 < (peer.topics 0).write_seq
sent_one = let one = one_seq in omega (arith, one)

only_round : (j : ℕ) → 0 ≡ j → Retried (some 5000) (world j) region_name
only_round j e = subst (λ j. Retried (some 5000) (world j) region_name) e first_round

wait_for_peer-try_recv_example :
    let s = from_start 0 peer in
    let r = joined_by_one 0 peer in
    (wait_for_peer 0 5000 world 2 region_name ≡ some (ok (s, r)))
    × (try_recv (λ _. alone) (record { tx_pub = client; tx_topic = client_topic; rx = s }) r ≡ (
      some (record { block_idx = 1; len = 3 }),
      record { tx_pub = client; tx_topic = client_topic; rx = record s { last_seq = 1 } },
      hold 1 r,
    ))
unfolding commit_to_ring smart_wake release_old claim slot_of registered
wait_for_peer-try_recv_example =
    wait_for_peer-try_recv history 0 5000 world region_name 1 2 0 peer client client_topic
      (λ j below. only_round j (omega arith)) connects found peer-Holds sent_one (omega arith)
