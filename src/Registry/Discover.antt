-- ===== src/Registry/Discover.antt =====
-- src/platform/registry.rs: `discover` and `discover_since`.
use crossbar.Base.{
  ℕ, zero, suc, ◌+◌, Option, none, some, List, [], ◌∷◌, Bool, true, false, leb, ◌==◌, ◌&&◌,
  if◌then◌else◌, bytes_eq,
}
use crossbar.Registry.State.{
  Entry, Registry, DiscoveredTopic, reg_max_entries, is_active, region_of, uri_of,
}

-- `str::starts_with`
unfoldable pub starts_with : (s prefix : List ℕ) → Bool
starts_with s [] = true
starts_with [] (p ∷ ps) = false
starts_with (c ∷ s) (p ∷ ps) = (c == p) && starts_with s ps

-- `str::strip_suffix` at `'*'`
unfoldable pub strip_star : List ℕ → Option (List ℕ)
strip_star [] = none
strip_star (c ∷ []) = if c == b'*' then some [] else none
strip_star (c ∷ d ∷ s) = elim (strip_star (d ∷ s)) [ none ↦ none | some p ↦ some (c ∷ p) ]

unfoldable pub matches : (pattern uri : List ℕ) → Bool
unfolding strip_star starts_with
matches pattern uri = elim (strip_star pattern) [
  | none ↦ bytes_eq uri pattern
  | some prefix ↦ starts_with uri prefix
]

unfoldable pub topic_of : Entry → DiscoveredTopic
topic_of e = record {
  region = region_of e;
  uri = uri_of e;
  pid = e.pid;
  timestamp_us = e.timestamp;
}

-- What is found from entry `i` on with `n` entries left.
unfoldable pub discover_from : (pattern : List ℕ) → (n i : ℕ) → (ℕ → Entry) → List DiscoveredTopic
unfolding topic_of matches
discover_from pattern zero i entries = []
discover_from pattern (suc n) i entries =
    let rest = discover_from pattern n (i + 1) entries in
    if is_active (entries i) && matches pattern (uri_of (entries i))
    then topic_of (entries i) ∷ rest
    else rest

unfoldable pub discover : (pattern : List ℕ) → Registry → List DiscoveredTopic
unfolding discover_from
discover pattern g = discover_from pattern reg_max_entries 0 g.entries

unfoldable pub discover_since_from :
    (pattern : List ℕ) → (since_us n i : ℕ) → (ℕ → Entry) → List DiscoveredTopic
unfolding topic_of matches
discover_since_from pattern since_us zero i entries = []
discover_since_from pattern since_us (suc n) i entries =
    let rest = discover_since_from pattern since_us n (i + 1) entries in
    let later =
      if matches pattern (uri_of (entries i)) then topic_of (entries i) ∷ rest else rest in
    if is_active (entries i)
    then (if leb (entries i).timestamp since_us then rest else later)
    else rest

unfoldable pub discover_since :
    (pattern : List ℕ) → (since_us : ℕ) → Registry → List DiscoveredTopic
unfolding discover_since_from
discover_since pattern since_us g = discover_since_from pattern since_us reg_max_entries 0 g.entries
