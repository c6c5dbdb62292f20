-- ===== src/Registry/Clear.antt =====
-- What `unregister`, `prune_stale` and `discover_since` leave out of what `discover` finds.
use native.Mathlib.Decide.{ℕ_discrete}
use native.Mathlib.Nat.{mod-eq_of_lt}
use crossbar.Base.{
  ℕ, zero, suc, ◌+◌, ◌-◌, ◌^◌, ◌≤◌, ◌<◌, ◌≡◌, refl, sym, ap, ◌∙◌, Bool, true, not, ◌&&◌, inl, inr,
  some, List, ◌∷◌, arith, ltb, ◌==◌, if◌then◌else◌, eq→==, ne→==, bytes_eq, filter_by, Bool-cases,
}
use crossbar.Registry.State.{
  Entry, Registry, DiscoveredTopic, re_state_free, is_active, uri_of, is_of,
}
use crossbar.Registry.Update.{
  clear_entry, unregister_from, unregister, is_stale, prune_from, prune_stale,
}
use crossbar.Registry.Discover.{
  matches, topic_of, discover_from, discover, discover_since_from, discover_since,
}

-- The loop that `unregister` and `prune_stale` share.
unfoldable pub clear_where : (Entry → Bool) → (n i : ℕ) → Registry → Registry
clear_where test zero i g = g
clear_where test (suc n) i g =
    clear_where test n (i + 1) (if test (g.entries i) then clear_entry i g else g)

pub unregister_from-eq-clear_where :
    (region : List ℕ) (pid n i : ℕ) (g : Registry)
    → unregister_from region pid n i g ≡ clear_where (is_of region pid) n i g
unfolding unregister_from clear_where
unregister_from-eq-clear_where region pid zero i g = refl
unregister_from-eq-clear_where region pid (suc n) i g =
    unregister_from-eq-clear_where region pid n (i + 1)
      (if is_of region pid (g.entries i) then clear_entry i g else g)

pub prune_from-eq-clear_where :
    (cutoff n i : ℕ) (g : Registry) → prune_from cutoff n i g ≡ clear_where (is_stale cutoff) n i g
unfolding prune_from clear_where
prune_from-eq-clear_where cutoff zero i g = refl
prune_from-eq-clear_where cutoff (suc n) i g =
    prune_from-eq-clear_where cutoff n (i + 1)
      (if is_stale cutoff (g.entries i) then clear_entry i g else g)

abbrev freed : Entry → Entry
freed e = record e { active = re_state_free }

-- One round: the entry itself, and the others.
clear_entry_same :
    (i : ℕ) (g : Registry)
    → is_active (g.entries i) ≡ true
    → (clear_entry i g).entries i ≡ freed (g.entries i)
unfolding clear_entry
clear_entry_same i g e = rw (e, eq→== i i refl) refl

clear_entry_other : (i k : ℕ) (g : Registry) → ¬ (i ≡ k) → (clear_entry i g).entries k ≡ g.entries k
unfolding clear_entry
clear_entry_other i k g ne = elim (Bool-cases (is_active (g.entries i))) [
  | inl e ↦ rw (e, ne→== i k ne) refl
  | inr e ↦ rw e refl
]

is_of-is_active :
    (region : List ℕ) (pid : ℕ) (e : Entry) → is_of region pid e ≡ true → is_active e ≡ true
unfolding is_of
is_of-is_active region pid e h = ground arith

is_of-topic_of :
    (region : List ℕ) (pid : ℕ) (e : Entry)
    → is_active e ≡ true
    → not (((topic_of e).pid == pid) && bytes_eq (topic_of e).region region)
      ≡ not (is_of region pid e)
unfolding is_of topic_of
is_of-topic_of region pid e a = rw a refl

is_stale-is_active : (cutoff : ℕ) (e : Entry) → is_stale cutoff e ≡ true → is_active e ≡ true
unfolding is_stale
is_stale-is_active cutoff e h = ground arith

is_stale-topic_of :
    (now stale_timeout : ℕ) (e : Entry)
    → is_active e ≡ true
    → not (ltb ((topic_of e).timestamp_us + stale_timeout) now)
      ≡ not (is_stale (now - stale_timeout) e)
unfolding is_stale topic_of
is_stale-topic_of now stale_timeout e a = ground arith

module _ (test : Entry → Bool)
    (only_active : (e : Entry) → test e ≡ true → is_active e ≡ true) where
  abbrev cleared : Entry → Entry
  cleared e = if test e then freed e else e

  round_same :
      (i : ℕ) (g : Registry)
      → (if test (g.entries i) then clear_entry i g else g).entries i ≡ cleared (g.entries i)
  round_same i g = elim (Bool-cases (test (g.entries i))) [
    | inl t ↦ rw t (clear_entry_same i g (only_active (g.entries i) t))
    | inr f ↦ rw f refl
  ]

  round_other :
      (i k : ℕ) (g : Registry)
      → ¬ (i ≡ k)
      → (if test (g.entries i) then clear_entry i g else g).entries k ≡ g.entries k
  round_other i k g ne = elim (Bool-cases (test (g.entries i))) [
    | inl t ↦ rw t (clear_entry_other i k g ne)
    | inr f ↦ rw f refl
  ]

  clear_where_below :
      (n i k : ℕ) (g : Registry) → k < i → (clear_where test n i g).entries k ≡ g.entries k
  unfolding clear_where
  clear_where_below zero i k g lt = refl
  clear_where_below (suc n) i k g lt =
      clear_where_below n (i + 1) k (if test (g.entries i) then clear_entry i g else g)
        (omega arith)
      ∙ round_other i k g (λ e. omega arith)

  clear_where_range :
      (n i k : ℕ) (g : Registry)
      → i ≤ k
      → k < i + n
      → (clear_where test n i g).entries k ≡ cleared (g.entries k)
  unfolding clear_where
  clear_where_range zero i k g low high = absurd (omega arith)
  clear_where_range (suc n) i k g low high =
      let g' = if test (g.entries i) then clear_entry i g else g in
      elim (ℕ_discrete i k) [
        | yes e ↦
            clear_where_below n (i + 1) k g' (omega arith)
            ∙ ap g'.entries (sym e)
            ∙ round_same i g
            ∙ ap (λ j. cleared (g.entries j)) e
        | no ne ↦
            clear_where_range n (i + 1) k g' (omega arith) (omega arith)
            ∙ ap cleared (round_other i k g ne)
      ]

  -- What is then found: the topics of the entries that the test leaves.
  module _ (keep : DiscoveredTopic → Bool)
      (kept : (e : Entry) → is_active e ≡ true → keep (topic_of e) ≡ not (test e))
      (pattern : List ℕ) where
    abbrev found : Entry → List DiscoveredTopic → List DiscoveredTopic
    found e rest = if is_active e && matches pattern (uri_of e) then topic_of e ∷ rest else rest

    found-cleared :
        (e : Entry) (rest : List DiscoveredTopic)
        → found (cleared e) (filter_by keep rest) ≡ filter_by keep (found e rest)
    unfolding filter_by
    found-cleared e rest = elim (Bool-cases (test e)) [
      | inl t ↦
          rw (t, only_active e t)
            (elim (Bool-cases (matches pattern (uri_of e))) [
              | inl m ↦ rw (m, kept e (only_active e t), t) refl
              | inr m ↦ rw m refl
            ])
      | inr f ↦ rw f (elim (Bool-cases (is_active e)) [
        | inr a ↦ rw a refl
        | inl a ↦ rw a (elim (Bool-cases (matches pattern (uri_of e))) [
          | inl m ↦ rw (m, kept e a, f) refl
          | inr m ↦ rw m refl
        ])
      ])
    ]

    discover_from-cleared :
        (n i : ℕ) (f h : ℕ → Entry)
        → ((k : ℕ) → i ≤ k → k < i + n → h k ≡ cleared (f k))
        → discover_from pattern n i h ≡ filter_by keep (discover_from pattern n i f)
    unfolding discover_from filter_by
    discover_from-cleared zero i f h same = refl
    discover_from-cleared (suc n) i f h same =
        let ih =
          discover_from-cleared n (i + 1) f h (λ k low high. same k (omega arith) (omega arith)) in
        ap (λ e. found e (discover_from pattern n (i + 1) h)) (same i (omega arith) (omega arith))
        ∙ ap (found (cleared (f i))) ih
        ∙ found-cleared (f i) (discover_from pattern n (i + 1) f)

    pub discover-clear_where :
        (g : Registry)
        → discover pattern (clear_where test 256 0 g) ≡ filter_by keep (discover pattern g)
    unfolding discover
    discover-clear_where g =
        discover_from-cleared 256 0 g.entries (clear_where test 256 0 g).entries
          (λ k low high. clear_where_range 256 0 k g low high)

discover-unregister :
    (region : List ℕ) (pid : ℕ) (pattern : List ℕ) (g : Registry)
    → discover pattern (unregister region pid g)
      ≡ filter_by (λ t. not ((t.pid == pid) && bytes_eq t.region region)) (discover pattern g)
unfolding unregister
discover-unregister region pid pattern g =
    ap (discover pattern) (unregister_from-eq-clear_where region pid 256 0 g)
    ∙ discover-clear_where (is_of region pid) (is_of-is_active region pid)
        (λ t. not ((t.pid == pid) && bytes_eq t.region region)) (is_of-topic_of region pid) pattern
        g

discover-prune_stale :
    (now stale_timeout : ℕ) (pattern : List ℕ) (g : Registry)
    → stale_timeout < 2 ^ 64
    → discover pattern (prune_stale (some now) stale_timeout g)
      ≡ filter_by (λ t. not (ltb (t.timestamp_us + stale_timeout) now)) (discover pattern g)
unfolding prune_stale
discover-prune_stale now stale_timeout pattern g small = rw (mod-eq_of_lt small) (
    ap (discover pattern) (prune_from-eq-clear_where (now - stale_timeout) 256 0 g)
    ∙ discover-clear_where (is_stale (now - stale_timeout))
        (is_stale-is_active (now - stale_timeout))
        (λ t. not (ltb (t.timestamp_us + stale_timeout) now)) (is_stale-topic_of now stale_timeout)
        pattern g)

discover_since_from-eq-filter_by :
    (pattern : List ℕ) (since_us n i : ℕ) (f : ℕ → Entry)
    → discover_since_from pattern since_us n i f
      ≡ filter_by (λ t. ltb since_us t.timestamp_us) (discover_from pattern n i f)
unfolding discover_since_from discover_from filter_by topic_of
discover_since_from-eq-filter_by pattern since_us zero i f = refl
discover_since_from-eq-filter_by pattern since_us (suc n) i f =
    ground (arith, discover_since_from-eq-filter_by pattern since_us n (i + 1) f)

discover_since-eq-filter_by :
    (pattern : List ℕ) (since_us : ℕ) (g : Registry)
    → discover_since pattern since_us g
      ≡ filter_by (λ t. ltb since_us t.timestamp_us) (discover pattern g)
unfolding discover_since discover
discover_since-eq-filter_by pattern since_us g =
    discover_since_from-eq-filter_by pattern since_us 256 0 g.entries

-- Whatever the pattern: after `unregister`, discovery finds what it found before, in the same
-- order, without the topics of that region and process; after `prune_stale`, without the topics
-- whose timestamp lies more than the timeout, below 2^64 microseconds, before now; and
-- `discover_since` finds what `discover` finds, in the same order, with a timestamp later than the
-- given one.
pub discover_filters :
    (region : List ℕ) (pid now stale_timeout since_us : ℕ) (pattern : List ℕ) (g : Registry)
    → stale_timeout < 2 ^ 64
    → (discover pattern (unregister region pid g)
        ≡ filter_by (λ t. not ((t.pid == pid) && bytes_eq t.region region)) (discover pattern g))
      × (discover pattern (prune_stale (some now) stale_timeout g)
          ≡ filter_by (λ t. not (ltb (t.timestamp_us + stale_timeout) now)) (discover pattern g))
      × (discover_since pattern since_us g
          ≡ filter_by (λ t. ltb since_us t.timestamp_us) (discover pattern g))
discover_filters region pid now stale_timeout since_us pattern g small = (
  discover-unregister region pid pattern g,
  discover-prune_stale now stale_timeout pattern g small,
  discover_since-eq-filter_by pattern since_us g,
)
