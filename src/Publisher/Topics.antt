-- ===== src/Publisher/Topics.antt =====
-- Registering a topic and subscribing to one, by URI. The entry in the global discovery registry,
-- whose failure the code ignores, does not change the region and is left out.
use crossbar.Base.{
  ℕ, zero, suc, ◌+◌, Bool, ◌&&◌, Option, none, some, List, ltb, ◌==◌, if◌then◌else◌, length,
  bytes_eq, write_at, read_at,
}
use crossbar.Error.{
  uri_too_long, max_topics_reached, topic_not_found, alignment_error, Result, ok, err,
}
use crossbar.Layout.{te_uri_max, te_state_free, te_state_active, uri_hash}
use crossbar.Region.State.{Region, TopicEntry, u32, set_topic}
use crossbar.Stream.Receive.{Stream}

pub record Topic : Type 0 where
  pub topic_idx : ℕ
  pub publisher_id : ℕ

-- The test of one entry, in `register_inner` and in `subscribe`.
unfoldable pub has_uri : List ℕ → TopicEntry → Bool
has_uri uri t =
    (t.active == te_state_active)
    && (t.uri_hash == uri_hash uri)
    && (t.uri_len == length uri)
    && bytes_eq (read_at t.uri 0 t.uri_len) uri

-- The first entry with the URI, from `i` on with `n` entries left.
unfoldable pub find_topic : List ℕ → (n i : ℕ) → (ℕ → TopicEntry) → Option ℕ
find_topic uri zero i topics = none
find_topic uri (suc n) i topics =
    let rest = find_topic uri n (i + 1) topics in if has_uri uri (topics i) then some i else rest

-- The entry of a topic that was just registered.
unfoldable pub registered : List ℕ → (type_size : ℕ) → TopicEntry → TopicEntry
registered uri type_size t = record t {
  active = te_state_active;
  write_seq = 0;
  uri_len = u32 (length uri);
  uri_hash = uri_hash uri;
  uri = write_at t.uri 0 uri;
  type_size = type_size;
}

-- Phase 2: the first free entry.
unfoldable pub find_free : (n i : ℕ) → (ℕ → TopicEntry) → Option ℕ
find_free zero i topics = none
find_free (suc n) i topics =
    let rest = find_free n (i + 1) topics in
    if (topics i).active == te_state_free then some i else rest

unfoldable pub claim_topic : (id : ℕ) → List ℕ → (type_size : ℕ) → Region → Result Topic × Region
unfolding find_free registered
claim_topic id uri type_size r = elim (find_free r.config.max_topics 0 r.topics) [
  | none ↦ (err max_topics_reached, r)
  | some i ↦ (
    ok (record { topic_idx = i; publisher_id = id }),
    set_topic r i (registered uri type_size (r.topics i)),
  )
]

unfoldable pub register_inner : (id : ℕ) → List ℕ → (type_size : ℕ) → Region → Result Topic × Region
unfolding find_topic claim_topic
register_inner id uri type_size r =
    if ltb te_uri_max (length uri)
    then (err (uri_too_long (length uri) te_uri_max), r)
    else elim (find_topic uri r.config.max_topics 0 r.topics) [
      | none ↦ claim_topic id uri type_size r
      | some i ↦ (ok (record { topic_idx = i; publisher_id = id }), r)
    ]

unfoldable pub register : (id : ℕ) → List ℕ → Region → Result Topic × Region
unfolding register_inner
register id uri r = register_inner id uri 0 r

-- `size` and `align` are those of the type.
unfoldable pub register_typed : (size align id : ℕ) → List ℕ → Region → Result Topic × Region
unfolding register_inner
register_typed size align id uri r =
    if ltb 8 align then (err (alignment_error align 8), r) else register_inner id uri (u32 size) r

unfoldable pub subscribe : List ℕ → Region → Result Stream × Region
unfolding find_topic
subscribe uri r = elim (find_topic uri r.config.max_topics 0 r.topics) [
  | none ↦ (err (topic_not_found uri), r)
  | some i ↦
      let t = r.topics i in
      (
        ok (record { topic_idx = i; last_seq = t.write_seq; type_size = t.type_size }),
        set_topic r i (record t { subscriber_count = u32 (t.subscriber_count + 1) }),
      )
]
