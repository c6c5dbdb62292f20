-- ===== src/Registry/Update.antt =====
-- src/platform/registry.rs: `register`, `unregister` and `prune_stale`, each run alone. The clock's
-- reading is an argument, `none` where it stands before the epoch.
use crossbar.Base.{
  ℕ, zero, suc, ◌+◌, ◌-◌, Option, none, some, List, Bool, ltb, leb, ◌==◌, ◌&&◌, ◌||◌, if◌then◌else◌,
  length, update,
}
use crossbar.Region.State.{u32, u64, dec32}
use crossbar.Registry.Text.{write_fixed_str}
use crossbar.Registry.State.{
  Entry, Registry, reg_max_entries, re_region_name_max, re_topic_uri_max, re_state_free,
  re_state_active, is_active, has_key, is_of,
}

abbrev pub set_entry : Registry → ℕ → Entry → Registry
set_entry g i e = record g { entries = update g.entries i e }

-- The first entry with this key, from `i` on with `n` entries left.
unfoldable pub find_entry : (region uri : List ℕ) → (pid n i : ℕ) → (ℕ → Entry) → Option ℕ
find_entry region uri pid zero i entries = none
find_entry region uri pid (suc n) i entries =
    let rest = find_entry region uri pid n (i + 1) entries in
    if has_key region uri pid (entries i) then some i else rest

-- The first entry on which the compare-exchange from free to active succeeds.
unfoldable pub find_free_entry : (n i : ℕ) → (ℕ → Entry) → Option ℕ
find_free_entry zero i entries = none
find_free_entry (suc n) i entries =
    let rest = find_free_entry n (i + 1) entries in
    if (entries i).active == re_state_free then some i else rest

unfoldable pub written_entry : (region uri : List ℕ) → (pid ts : ℕ) → Entry → Entry
written_entry region uri pid ts e = record {
  active = re_state_active;
  pid = pid;
  timestamp = ts;
  region_name = write_fixed_str e.region_name region re_region_name_max;
  topic_uri = write_fixed_str e.topic_uri uri re_topic_uri_max;
}

unfoldable pub claim_entry : (region uri : List ℕ) → (pid ts : ℕ) → Registry → Registry
unfolding find_free_entry written_entry
claim_entry region uri pid ts g = elim (find_free_entry reg_max_entries 0 g.entries) [
  | none ↦ g
  | some i ↦ record (set_entry g i (written_entry region uri pid ts (g.entries i))) {
    entry_count = u32 (g.entry_count + 1);
  }
]

unfoldable pub unwrap_or_zero : Option ℕ → ℕ
unwrap_or_zero none = 0
unwrap_or_zero (some t) = t

-- The result is `Ok(())` on every path.
unfoldable pub register : (now : Option ℕ) → (region uri : List ℕ) → (pid : ℕ) → Registry → Registry
unfolding find_entry claim_entry unwrap_or_zero
register now region uri pid g =
    let ts = unwrap_or_zero now in
    if leb re_region_name_max (length region) || leb re_topic_uri_max (length uri)
    then g
    else elim (find_entry region uri pid reg_max_entries 0 g.entries) [
      | none ↦ claim_entry region uri pid ts g
      | some i ↦ set_entry g i (record (g.entries i) { timestamp = ts })
    ]

-- The compare-exchange from active to free, `fetch_sub` and the clamp.
unfoldable pub clear_entry : ℕ → Registry → Registry
clear_entry i g =
    if is_active (g.entries i)
    then record (set_entry g i (record (g.entries i) { active = re_state_free })) {
      entry_count = if g.entry_count == 0 then 0 else dec32 g.entry_count;
    }
    else g

-- The loops over all entries, from `i` on with `n` entries left.
unfoldable pub unregister_from : (region : List ℕ) → (pid n i : ℕ) → Registry → Registry
unfolding clear_entry
unregister_from region pid zero i g = g
unregister_from region pid (suc n) i g =
    unregister_from region pid n (i + 1)
      (if is_of region pid (g.entries i) then clear_entry i g else g)

unfoldable pub unregister : (region : List ℕ) → (pid : ℕ) → Registry → Registry
unfolding unregister_from
unregister region pid g = unregister_from region pid reg_max_entries 0 g

unfoldable pub is_stale : (cutoff : ℕ) → Entry → Bool
is_stale cutoff e = is_active e && ltb e.timestamp cutoff

unfoldable pub prune_from : (cutoff n i : ℕ) → Registry → Registry
unfolding clear_entry
prune_from cutoff zero i g = g
prune_from cutoff (suc n) i g =
    prune_from cutoff n (i + 1) (if is_stale cutoff (g.entries i) then clear_entry i g else g)

-- `stale_timeout` in microseconds.
unfoldable pub prune_stale : (now : Option ℕ) → (stale_timeout : ℕ) → Registry → Registry
unfolding prune_from
prune_stale none stale_timeout g = g
prune_stale (some t) stale_timeout g = prune_from (t - u64 stale_timeout) reg_max_entries 0 g
