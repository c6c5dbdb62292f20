-- ===== src/Registry/Found.antt =====
-- A topic that was registered is found.
use native.Mathlib.Decide.{ℕ_discrete}
use mathlib.Core.List.{Mem}
use mathlib.Core.Path.{subst}
use crossbar.Base.{
  ℕ, zero, suc, ◌+◌, ◌≤◌, ◌<◌, ◌≡◌, refl, ap, ◌∙◌, true, false, inl, inr, Option, none, some, List,
  [], ◌∷◌, ◌++◌, arith, ◌==◌, bytes_eq→eq, length, Bool-cases, eq→==, lt→leb, option_ind,
}
use crossbar.Layout.{contains}
use crossbar.Registry.Text.{is_utf8}
use crossbar.Registry.Strings.{read_fixed_str-write_fixed_str}
use crossbar.Registry.State.{
  Entry, Registry, DiscoveredTopic, is_active, region_of, uri_of, has_key, re_state_free,
}
use crossbar.Registry.Update.{
  find_entry, find_free_entry, written_entry, claim_entry, register, unwrap_or_zero,
}
use crossbar.Registry.Discover.{matches, topic_of, discover_from, discover}
use crossbar.Registry.Matching.{matches-append, matches_self, discover_from-Mem}

-- What can be stored: valid text without a null byte that leaves room for one.
abbrev pub Fits : List ℕ → ℕ → Type 0
Fits s max_len = (length s < max_len) × (is_utf8 s ≡ true) × (contains 0 s ≡ false)

-- Entry `j` is active and shows this topic.
abbrev Shows : DiscoveredTopic → Registry → ℕ → Type 0
Shows t g j = (j < 256) × (is_active (g.entries j) ≡ true) × (topic_of (g.entries j) ≡ t)

written_entry-topic_of :
    (region uri : List ℕ) (pid ts : ℕ) (e : Entry)
    → Fits region 48
    → Fits uri 64
    → topic_of (written_entry region uri pid ts e)
      ≡ record { region = region; uri = uri; pid = pid; timestamp_us = ts }
unfolding topic_of written_entry region_of uri_of
written_entry-topic_of region uri pid ts e (rf, rv, rc) (uf, uv, uc) =
    let r = read_fixed_str-write_fixed_str e.region_name region 48 rf rv rc in
    let u = read_fixed_str-write_fixed_str e.topic_uri uri 64 uf uv uc in rw (r, u) refl

pub written_entry-active :
    (region uri : List ℕ) (pid ts : ℕ) (e : Entry)
    → is_active (written_entry region uri pid ts e) ≡ true
unfolding written_entry
written_entry-active region uri pid ts e = refl

pub find_entry-has_key :
    (region uri : List ℕ) (pid n i j : ℕ) (f : ℕ → Entry)
    → find_entry region uri pid n i f ≡ some j
    → (j < i + n) × (has_key region uri pid (f j) ≡ true)
unfolding find_entry
find_entry-has_key region uri pid zero i j f e = cc
find_entry-has_key region uri pid (suc n) i j f e =
    elim (Bool-cases (has_key region uri pid (f i))) [
      | inl here ↦
          let same : i ≡ j = cc (rw here at e) in
          (omega arith, subst (λ k. has_key region uri pid (f k) ≡ true) same here)
      | inr later ↦
          let (high, key) = find_entry-has_key region uri pid n (i + 1) j f (rw later at e) in
          (omega arith, key)
    ]

pub find_free_entry_below :
    (n i j : ℕ) (f : ℕ → Entry)
    → find_free_entry n i f ≡ some j
    → (j < i + n) × (is_active (f j) ≡ false)
unfolding find_free_entry
find_free_entry_below zero i j f e = cc
find_free_entry_below (suc n) i j f e = elim (Bool-cases ((f i).active == re_state_free)) [
  | inl here ↦
      let same : i ≡ j = cc (rw here at e) in
      let free : is_active (f i) ≡ false = ground arith in
      (omega arith, subst (λ k. is_active (f k) ≡ false) same free)
  | inr later ↦
      let (high, free) = find_free_entry_below n (i + 1) j f (rw later at e) in (omega arith, free)
]

-- The search misses no free entry.
find_free_entry-eq-none :
    (n i j : ℕ) (f : ℕ → Entry)
    → find_free_entry n i f ≡ none
    → i ≤ j
    → j < i + n
    → ¬ ((f j).active ≡ re_state_free)
unfolding find_free_entry
find_free_entry-eq-none zero i j f e low high free = absurd (omega arith)
find_free_entry-eq-none (suc n) i j f e low high free =
    elim (Bool-cases ((f i).active == re_state_free)) [
      | inl here ↦ cc (rw here at e)
      | inr later ↦ elim (ℕ_discrete i j) [
        | yes same ↦
            let here : ((f i).active == re_state_free) ≡ true =
              eq→== _ _ (ap (λ k. (f k).active) same ∙ free) in
            cc
        | no ne ↦
            find_free_entry-eq-none n (i + 1) j f (rw later at e) (omega arith) (omega arith) free
      ]
    ]

has_key-topic_of :
    (region uri : List ℕ) (pid ts : ℕ) (e : Entry)
    → has_key region uri pid e ≡ true
    → topic_of (record e { timestamp = ts })
      ≡ record { region = region; uri = uri; pid = pid; timestamp_us = ts }
unfolding has_key topic_of region_of uri_of
has_key-topic_of region uri pid ts e h =
    ground (arith, bytes_eq→eq (region_of e) region, bytes_eq→eq (uri_of e) uri)

pub has_key-is_active :
    (region uri : List ℕ) (pid : ℕ) (e : Entry)
    → has_key region uri pid e ≡ true
    → is_active e ≡ true
unfolding has_key
has_key-is_active region uri pid e h = ground arith

module _ (region uri : List ℕ) (pid : ℕ) where
  abbrev as_topic : ℕ → DiscoveredTopic
  as_topic ts = record { region = region; uri = uri; pid = pid; timestamp_us = ts }

  claim_entry-Shows :
      (ts j : ℕ) (g : Registry)
      → Fits region 48
      → Fits uri 64
      → j < 256
      → (g.entries j).active ≡ re_state_free
      → (k : ℕ) × Shows (as_topic ts) (claim_entry region uri pid ts g) k
  unfolding claim_entry
  claim_entry-Shows ts j g fr fu below free =
      option_ind (λ (h : Registry). (k : ℕ) × Shows (as_topic ts) h k)
        (find_free_entry 256 0 g.entries)
        (λ absent.
          absurd (find_free_entry-eq-none 256 0 j g.entries absent (omega arith) below free))
        (λ k found. (
          k,
          (
            (find_free_entry_below 256 0 k g.entries found).0,
            rw (eq→== k k refl) (written_entry-active region uri pid ts (g.entries k)),
            rw (eq→== k k refl) (written_entry-topic_of region uri pid ts (g.entries k) fr fu),
          ),
        ))

  register-Shows :
      (now : Option ℕ) (j : ℕ) (g : Registry)
      → Fits region 48
      → Fits uri 64
      → j < 256
      → (g.entries j).active ≡ re_state_free
      → (k : ℕ) × Shows (as_topic (unwrap_or_zero now)) (register now region uri pid g) k
  unfolding register
  register-Shows now j g fr fu below free =
      rw (lt→leb 48 (length region) fr.0, lt→leb 64 (length uri) fu.0)
        (option_ind (λ (h : Registry). (k : ℕ) × Shows (as_topic (unwrap_or_zero now)) h k)
          (find_entry region uri pid 256 0 g.entries)
          (λ absent. claim_entry-Shows (unwrap_or_zero now) j g fr fu below free)
          (λ k found.
            let (high, key) = find_entry-has_key region uri pid 256 0 k g.entries found in
            (
              k,
              (
                omega arith,
                rw (eq→== k k refl) (has_key-is_active region uri pid (g.entries k) key),
                rw (eq→== k k refl)
                    (has_key-topic_of region uri pid (unwrap_or_zero now) (g.entries k) key),
              ),
            )))

-- While the registry has a free entry, a topic that is registered, for the first time or again, is
-- found afterwards with its region, URI, process and the clock's reading: by its own URI, and by
-- every pattern that is a beginning of its URI followed by a star. The texts are shorter than their
-- arrays and have no null byte.
pub register-discover :
    (now : Option ℕ) (region prefix rest : List ℕ) (pid j : ℕ) (g : Registry)
    → Fits region 48
    → Fits (prefix ++ rest) 64
    → j < 256
    → (g.entries j).active ≡ re_state_free
    → let t : DiscoveredTopic = record {
      region = region;
      uri = prefix ++ rest;
      pid = pid;
      timestamp_us = unwrap_or_zero now;
    } in
      let g' = register now region (prefix ++ rest) pid g in
      Mem t (discover (prefix ++ rest) g') × Mem t (discover (prefix ++ b'*' ∷ []) g')
unfolding discover topic_of
register-discover now region prefix rest pid j g fr fu below free =
    let uri = prefix ++ rest in
    let g' = register now region uri pid g in
    let (k, shows) = register-Shows region uri pid now j g fr fu below free in
    let (high, active, shown) = shows in
    let shown_uri : uri_of (g'.entries k) ≡ uri = ap (λ (t : DiscoveredTopic). t.uri) shown in
    let listed : (pattern : List ℕ)
        → matches pattern uri ≡ true
        → Mem (topic_of (g'.entries k)) (discover_from pattern 256 0 g'.entries) =
      λ pattern fits.
        discover_from-Mem pattern 256 0 k g'.entries (omega arith) high active
          (ap (matches pattern) shown_uri ∙ fits) in
    (
      subst (λ t. Mem t (discover_from uri 256 0 g'.entries)) shown (listed uri (matches_self uri)),
      subst (λ t. Mem t (discover_from (prefix ++ b'*' ∷ []) 256 0 g'.entries)) shown
          (listed (prefix ++ b'*' ∷ []) (matches-append prefix rest)),
    )
