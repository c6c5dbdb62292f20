-- ===== src/Publisher/Registered.antt =====
-- Registering a topic and then searching for it.
use mathlib.Core.Path.{subst}
use native.Mathlib.Decide.{ℕ_discrete}
use native.Mathlib.Nat.{mod-eq_of_lt}
use crossbar.Base.{
  ℕ, zero, suc, ◌+◌, ◌^◌, ◌≤◌, ◌<◌, ◌≡◌, refl, ap, ◌∙◌, Bool, true, false, ◌⊎◌, inl, inr, Option,
  none, some, List, arith, ltb, ◌==◌, if◌then◌else◌, if_ind, option_ind, eq→==, ne→==, update,
  length, bytes_eq_refl, read_at-write_at,
}
use crossbar.Error.{Result, ok}
use crossbar.Layout.{te_state_free, uri_hash, te_uri_max}
use crossbar.Region.State.{Region, TopicEntry, u32, set_topic}
use crossbar.Publisher.Topics.{
  Topic, has_uri, find_topic, find_free, registered, claim_topic, register_inner, subscribe,
}

registered-has_uri :
    (uri : List ℕ) (type_size : ℕ) (t : TopicEntry)
    → length uri < 2 ^ 32
    → has_uri uri (registered uri type_size t) ≡ true
unfolding has_uri registered
registered-has_uri uri type_size t small =
    let len : u32 (length uri) ≡ length uri = mod-eq_of_lt small in
    rw
      (
        len,
        eq→== (uri_hash uri) (uri_hash uri) refl,
        eq→== (length uri) (length uri) refl,
        read_at-write_at t.uri 0 uri,
      )
      (bytes_eq_refl uri)

-- The first hit of a search, taken apart.
miss :
    (b : Bool) (i : ℕ) (rest : Option ℕ)
    → (if b then some i else rest) ≡ none
    → (b ≡ false) × (rest ≡ none)
miss true i rest e = cc
miss false i rest e = (refl, e)

hit :
    (b : Bool) (i j : ℕ) (rest : Option ℕ)
    → (if b then some i else rest) ≡ some j
    → (i ≡ j) ⊎ (rest ≡ some j)
hit true i j rest e = inl cc
hit false i j rest e = inr e

-- Where nothing was found, no entry has the URI.
find_topic-none :
    (uri : List ℕ) (n i : ℕ) (f : ℕ → TopicEntry)
    → find_topic uri n i f ≡ none
    → (k : ℕ) → i ≤ k
    → k < i + n
    → has_uri uri (f k) ≡ false
unfolding find_topic
find_topic-none uri zero i f e k p q = absurd (omega arith)
find_topic-none uri (suc n) i f e k p q =
    let (here, later) = miss (has_uri uri (f i)) i (find_topic uri n (i + 1) f) e in
    elim (ℕ_discrete i k) [
      | yes same ↦ subst (λ k. has_uri uri (f k) ≡ false) same here
      | no other ↦ find_topic-none uri n (i + 1) f later k (omega arith) (omega arith)
    ]

find_topic-first :
    (uri : List ℕ) (n i j : ℕ) (f : ℕ → TopicEntry)
    → has_uri uri (f j) ≡ true
    → ((k : ℕ) → i ≤ k → k < j → has_uri uri (f k) ≡ false)
    → i ≤ j
    → j < i + n
    → find_topic uri n i f ≡ some j
unfolding find_topic
find_topic-first uri zero i j f here before p q = absurd (omega arith)
find_topic-first uri (suc n) i j f here before p q = elim (ℕ_discrete i j) [
  | yes e ↦ rw (ap (λ k. has_uri uri (f k)) e ∙ here) (ap some e)
  | no ne ↦ rw (before i (omega arith) (omega arith)) (
      find_topic-first uri n (i + 1) j f here (λ k a b. before k (omega arith) b) (omega arith)
        (omega arith))
]

pub find_free_range :
    (n i j : ℕ) (f : ℕ → TopicEntry) → find_free n i f ≡ some j → (i ≤ j) × (j < i + n)
unfolding find_free
find_free_range zero i j f e = cc
find_free_range (suc n) i j f e =
    elim (hit ((f i).active == te_state_free) i j (find_free n (i + 1) f) e) [
      | inl same ↦ (omega arith, omega arith)
      | inr later ↦
          let (low, high) = find_free_range n (i + 1) j f later in (omega arith, omega arith)
    ]

-- The topic of the result is the one that a search then finds.
abbrev Finds : List ℕ → Topic → Result Topic × Region → Type 0
Finds uri topic t =
    t.0 ≡ ok topic → find_topic uri t.1.config.max_topics 0 t.1.topics ≡ some topic.topic_idx

topic_of : {t u : Topic} → ◌≡◌ {A = Result Topic} (ok t) (ok u) → t.topic_idx ≡ u.topic_idx
topic_of e = cc

claim_topic-Finds :
    (id : ℕ) (uri : List ℕ) (type_size : ℕ) (r : Region) (topic : Topic)
    → length uri < 2 ^ 32
    → find_topic uri r.config.max_topics 0 r.topics ≡ none
    → Finds uri topic (claim_topic id uri type_size r)
unfolding claim_topic
claim_topic-Finds id uri type_size r topic small absent =
    option_ind (Finds uri topic) (find_free r.config.max_topics 0 r.topics)
      (λ e ok_topic. absurd cc)
      (λ j e ok_topic.
        let (_, below) = find_free_range r.config.max_topics 0 j r.topics e in
        let entry = registered uri type_size (r.topics j) in
        let topics' = update r.topics j entry in
        let here : has_uri uri (topics' j) ≡ true =
          rw (eq→== j j refl) (registered-has_uri uri type_size (r.topics j) small) in
        let before : (k : ℕ) → 0 ≤ k → k < j → has_uri uri (topics' k) ≡ false = λ k low high.
          rw (ne→== j k (omega arith))
            (find_topic-none uri r.config.max_topics 0 r.topics absent k low (omega arith)) in
        find_topic-first uri r.config.max_topics 0 j topics' here before (omega arith) below
        ∙ ap some (topic_of ok_topic))

register_inner-Finds :
    (id : ℕ) (uri : List ℕ) (type_size : ℕ) (r : Region) (topic : Topic)
    → Finds uri topic (register_inner id uri type_size r)
unfolding register_inner
register_inner-Finds id uri type_size r topic =
    if_ind (Finds uri topic) (ltb te_uri_max (length uri)) (λ e ok_topic. absurd cc)
      (λ fits.
        option_ind (Finds uri topic) (find_topic uri r.config.max_topics 0 r.topics)
          (λ absent. claim_topic-Finds id uri type_size r topic (ground arith) absent)
          (λ i found ok_topic. found ∙ ap some (topic_of ok_topic)))

-- Whenever registering a URI succeeds, for a new topic or for one that exists, subscribing to that
-- URI afterwards succeeds with the same topic: the stream starts at the topic's latest sequence
-- number, with the type size of its entry, and the topic counts one subscriber more.
pub register_inner-subscribe :
    (id : ℕ) (uri : List ℕ) (type_size : ℕ) (r : Region) (topic : Topic)
    → (register_inner id uri type_size r).0 ≡ ok topic
    → let r' = (register_inner id uri type_size r).1 in
      let t = r'.topics topic.topic_idx in
      subscribe uri r' ≡ (
        ok (record {
          topic_idx = topic.topic_idx;
          last_seq = t.write_seq;
          type_size = t.type_size;
        }),
        set_topic r' topic.topic_idx (record t { subscriber_count = u32 (t.subscriber_count + 1) }),
      )
unfolding subscribe
register_inner-subscribe id uri type_size r topic e =
    rw (subscribe, register_inner-Finds id uri type_size r topic e) refl
