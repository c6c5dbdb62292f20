-- ===== src/Channel/Early.antt =====
-- The wait for the peer, and the messages that were sent before it ended.
use native.Mathlib.Decide.{ℕ_discrete}
use crossbar.Base.{
  ℕ, zero, suc, ◌+◌, ◌-◌, ◌≤◌, ◌<◌, ◌≡◌, refl, ap, ◌∙◌, true, false, Option, none, some, arith, leb,
  if◌then◌else◌, eq→==, lt→leb, List,
}
use crossbar.Error.{Error, ok, err}
use crossbar.Region.State.{Region, u32, set_topic}
use crossbar.Region.Commit.{slot_of-mod}
use crossbar.Stream.Receive.{Stream, SlotRead, Sample, alone, recv_slot}
use crossbar.Stream.Receive
use crossbar.Stream.History.{Holds, oldest_unseen, set_topic-Holds, hold, recv_slot_history}
use crossbar.Publisher.Topics.{Topic, find_topic, subscribe}
use crossbar.Publisher.Create.{Owner}
use crossbar.Publisher.Open
use crossbar.Channel.Endpoint.{
  Channel, Attempt, channel_uri, subscribed, attempt, time_left, wait_rounds, deadline_of,
  wait_for_peer, try_recv,
}

-- A round that fails before the deadline.
abbrev pub Retried : (deadline : Option ℕ) → Attempt → List ℕ → Type 0
Retried deadline a region_name =
    (e : Error) × (attempt a region_name ≡ err e) × (time_left deadline a.instant ≡ true)

-- The rounds before round `k` fail before the deadline, and round `k` finds the peer.
wait_rounds_found :
    (deadline : Option ℕ) (world : ℕ → Attempt) (region_name : List ℕ) (found : Stream × Region)
    (k fuel i : ℕ)
    → ((j : ℕ) → j < k → Retried deadline (world j) region_name)
    → attempt (world k) region_name ≡ ok found
    → i ≤ k
    → k < i + fuel
    → wait_rounds deadline world region_name fuel i ≡ some (ok found)
unfolding wait_rounds
wait_rounds_found deadline world region_name found k zero i retried e low high =
    absurd (omega arith)
wait_rounds_found deadline world region_name found k (suc fuel) i retried e low high =
    elim (ℕ_discrete i k) [
      | yes here ↦
          let last : attempt (world i) region_name ≡ ok found =
            ap (λ j. attempt (world j) region_name) here ∙ e in
          rw (wait_rounds, last) refl
      | no earlier ↦
          let (why, fails, left) = retried i (omega arith) in
          rw (wait_rounds, fails, left)
            (wait_rounds_found deadline world region_name found k fuel (i + 1) retried e
              (omega arith) (omega arith))
    ]

-- The region with one subscriber more.
abbrev pub joined_by_one : ℕ → Region → Region
joined_by_one i r =
    let t = r.topics i in
    set_topic r i (record t { subscriber_count = u32 (t.subscriber_count + 1) })

-- The stream from the start of a topic.
abbrev pub from_start : ℕ → Region → Stream
from_start i r = record { topic_idx = i; last_seq = 0; type_size = (r.topics i).type_size }

attempt_found :
    (a : Attempt) (region_name : List ℕ) (r : Region) (i : ℕ)
    → Open.connect a.file a.path_text a.mmap a.now region_name ≡ ok r
    → find_topic channel_uri r.config.max_topics 0 r.topics ≡ some i
    → attempt a region_name ≡ ok (from_start i r, joined_by_one i r)
unfolding attempt subscribed subscribe
attempt_found a region_name r i connected found =
    rw (attempt, connected) (rw (subscribe, found) refl)

same_seq : (i : ℕ) (r : Region) → ((joined_by_one i r).topics i).write_seq ≡ (r.topics i).write_seq
same_seq i r = rw (eq→== i i refl) refl

oldest_unseen_oldest :
    (v w depth : ℕ) → v ≡ w → 0 < w → 0 < depth → oldest_unseen v 0 depth ≡ w - depth + 1
unfolding oldest_unseen
oldest_unseen_oldest v w depth same pos deep = ground arith

recv_slot_oldest :
    (h : ℕ → SlotRead) (i : ℕ) (r : Region)
    → Holds h i r
    → 0 < (r.topics i).write_seq
    → let n = (r.topics i).write_seq - r.config.ring_depth + 1 in
      recv_slot (λ _. alone) (from_start i r) (joined_by_one i r) ≡ (
        some (h n),
        record (from_start i r) { last_seq = n },
        hold (h n).block_idx (joined_by_one i r),
      )
recv_slot_oldest h i r holds pos =
    let r' = joined_by_one i r in
    let s = from_start i r in
    let w = (r'.topics i).write_seq in
    let same : w ≡ (r.topics i).write_seq = same_seq i r in
    let (_, deep) = slot_of-mod r 0 holds.power holds.depth in
    let behind : leb w 0 ≡ false = lt→leb w 0 (omega arith) in
    let oldest = oldest_unseen_oldest w (r.topics i).write_seq r.config.ring_depth same pos deep in
    let result : ℕ → Option SlotRead × Stream × Region =
      λ c. (some (h c), record s { last_seq = c }, hold (h c).block_idx r') in
    recv_slot_history h s r' (set_topic-Holds h i _ r refl holds)
    ∙ ap (λ b. if b then (none, s, r') else result (oldest_unseen w 0 r.config.ring_depth)) behind
    ∙ ap result oldest

-- What the channel makes of a result of `recv_slot`.
abbrev channel_result :
    Owner → Topic → Option SlotRead × Stream × Region → Option Sample × Channel × Region
channel_result tx_pub tx_topic t = (
  elim t.0 [
    | none ↦ none
    | some slot ↦ some (record { block_idx = slot.block_idx; len = slot.data_len })
  ],
  record { tx_pub = tx_pub; tx_topic = tx_topic; rx = t.1 },
  t.2,
)

-- An endpoint whose rounds fail before the deadline until, in round `k`, it can connect to the
-- peer's region and finds the topic there: in more than `k` rounds the wait ends with a stream from
-- the start, and the first receive of the channel gets the oldest message that the ring holds, which
-- is the first one ever sent when no more were sent than the ring has entries. The messages were
-- sent before the endpoint subscribed; nobody else acts between that and the receive.
pub wait_for_peer-try_recv :
    (h : ℕ → SlotRead) (start timeout : ℕ) (world : ℕ → Attempt) (region_name : List ℕ)
    (k fuel i : ℕ) (r : Region) (tx_pub : Owner) (tx_topic : Topic)
    → ((j : ℕ) → j < k → Retried (deadline_of start timeout) (world j) region_name)
    → Open.connect (world k).file (world k).path_text (world k).mmap (world k).now region_name
      ≡ ok r
    → find_topic channel_uri r.config.max_topics 0 r.topics ≡ some i
    → Holds h i r
    → 0 < (r.topics i).write_seq
    → k < fuel
    → let n = (r.topics i).write_seq - r.config.ring_depth + 1 in
      (wait_for_peer start timeout world fuel region_name
        ≡ some (ok (from_start i r, joined_by_one i r)))
      × (try_recv
            (λ _. alone)
            (record { tx_pub = tx_pub; tx_topic = tx_topic; rx = from_start i r })
            (joined_by_one i r)
          ≡ (
            some (record { block_idx = (h n).block_idx; len = (h n).data_len }),
            record {
              tx_pub = tx_pub;
              tx_topic = tx_topic;
              rx = record (from_start i r) { last_seq = n };
            },
            hold (h n).block_idx (joined_by_one i r),
          ))
unfolding wait_for_peer try_recv Receive.try_recv
wait_for_peer-try_recv h start timeout world region_name k fuel i r tx_pub tx_topic retried
      connected found holds pos enough =
    (
      wait_rounds_found (deadline_of start timeout) world region_name
          (from_start i r, joined_by_one i r) k fuel 0 retried
          (attempt_found (world k) region_name r i connected found) (omega arith) (omega arith),
      ap (channel_result tx_pub tx_topic) (recv_slot_oldest h i r holds pos),
    )
