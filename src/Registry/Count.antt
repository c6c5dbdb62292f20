-- ===== src/Registry/Count.antt =====
-- The registry under any sequence of operations.
use native.Mathlib.Decide.{ℕ_discrete}
use native.Mathlib.Nat.{mod-eq_of_lt}
use crossbar.Base.{
  ℕ, zero, suc, ◌+◌, ◌-◌, ◌≤◌, ◌<◌, ◌≡◌, refl, ap, ◌∙◌, Bool, true, false, ◌||◌, inl, inr, Option,
  none, some, List, [], ◌∷◌, arith, leb, if◌then◌else◌, length, Bool-cases, eq→==, ne→==, if_ind,
  option_ind, update,
}
use crossbar.Region.State.{u32, u64}
use crossbar.Registry.State.{
  Entry, Registry, is_active, reg_magic, reg_version, re_state_free, is_of,
}
use crossbar.Registry.Update.{
  set_entry, find_entry, find_free_entry, written_entry, claim_entry, register, unwrap_or_zero,
  clear_entry, unregister, is_stale, prune_stale,
}
use crossbar.Registry.Clear.{clear_where, unregister_from-eq-clear_where, prune_from-eq-clear_where}
use crossbar.Registry.Found.{find_entry-has_key, written_entry-active, find_free_entry_below}

abbrev pub bit : Bool → ℕ
bit true = 1
bit false = 0

-- The active entries from `i` on with `n` entries left.
unfoldable pub active_count : (n i : ℕ) → (ℕ → Entry) → ℕ
active_count zero i f = 0
active_count (suc n) i f = bit (is_active (f i)) + active_count n (i + 1) f

-- What `open_at` and `discover` rely on.
pub record IsRegistry (g : Registry) : Type 0 where
  pub magic : g.magic ≡ reg_magic
  pub version : g.version ≡ reg_version
  pub counted : g.entry_count ≡ active_count 256 0 g.entries

pub data Change : Type 0 where
  registering : (now : Option ℕ) (region uri : List ℕ) (pid : ℕ) → Change
  unregistering : (region : List ℕ) (pid : ℕ) → Change
  pruning : (now : Option ℕ) (stale_timeout : ℕ) → Change

abbrev pub change : Change → Registry → Registry
change (registering now region uri pid) g = register now region uri pid g
change (unregistering region pid) g = unregister region pid g
change (pruning now stale_timeout) g = prune_stale now stale_timeout g

unfoldable pub change_all : List Change → Registry → Registry
change_all [] g = g
change_all (c ∷ cs) g = change_all cs (change c g)

pub active_count-le : (n i : ℕ) (f : ℕ → Entry) → active_count n i f ≤ n
unfolding active_count
active_count-le zero i f = omega arith
active_count-le (suc n) i f = elim (Bool-cases (is_active (f i))) [
  | inl e ↦ rw e (omega (arith, active_count-le n (i + 1) f))
  | inr e ↦ rw e (omega (arith, active_count-le n (i + 1) f))
]

active_count-update_below :
    (n i j : ℕ) (f : ℕ → Entry) (e : Entry)
    → j < i
    → active_count n i (update f j e) ≡ active_count n i f
unfolding active_count
active_count-update_below zero i j f e below = refl
active_count-update_below (suc n) i j f e below =
    rw (ne→== j i (omega arith)) (
      ap (λ k. bit (is_active (f i)) + k) (active_count-update_below n (i + 1) j f e (omega arith)))

active_count-update :
    (n i j : ℕ) (f : ℕ → Entry) (e : Entry)
    → i ≤ j
    → j < i + n
    → active_count n i (update f j e) + bit (is_active (f j))
      ≡ active_count n i f + bit (is_active e)
unfolding active_count
active_count-update zero i j f e low high = absurd (omega arith)
active_count-update (suc n) i j f e low high = elim (ℕ_discrete j i) [
  | yes same ↦
      rw (eq→== j i same, active_count-update_below n (i + 1) j f e (omega arith))
        (let here : bit (is_active (f j)) ≡ bit (is_active (f i)) =
            ap (λ k. bit (is_active (f k))) same in
          omega arith)
  | no ne ↦
      rw (ne→== j i ne)
        (let later = active_count-update n (i + 1) j f e (omega arith) (omega arith) in omega arith)
]

-- An entry that stays active or stays free.
set_entry-IsRegistry :
    (i : ℕ) (e : Entry) (g : Registry)
    → i < 256
    → is_active (g.entries i) ≡ is_active e
    → IsRegistry g
    → IsRegistry (set_entry g i e)
set_entry-IsRegistry i e g below same w = record {
  magic = w.magic;
  version = w.version;
  counted =
      let moved = active_count-update 256 0 i g.entries e (omega arith) (omega arith) in
      let both : bit (is_active (g.entries i)) ≡ bit (is_active e) = ap bit same in
      w.counted ∙ omega arith;
}

claim_entry-IsRegistry :
    (region uri : List ℕ) (pid ts : ℕ) (g : Registry)
    → IsRegistry g
    → IsRegistry (claim_entry region uri pid ts g)
unfolding claim_entry
claim_entry-IsRegistry region uri pid ts g w =
    option_ind IsRegistry (find_free_entry 256 0 g.entries) (λ _. w)
      (λ i found.
        let e = written_entry region uri pid ts (g.entries i) in
        let (below, free) = find_free_entry_below 256 0 i g.entries found in
        let moved = active_count-update 256 0 i g.entries e (omega arith) (omega arith) in
        let was : bit (is_active (g.entries i)) ≡ 0 = ap bit free in
        let is : bit (is_active e) ≡ 1 =
          ap bit (written_entry-active region uri pid ts (g.entries i)) in
        let most = active_count-le 256 0 (update g.entries i e) in
        let count = w.counted in
        let no_wrap : u32 (g.entry_count + 1) ≡ g.entry_count + 1 = mod-eq_of_lt (omega arith) in
        record { magic = w.magic; version = w.version; counted = no_wrap ∙ omega arith })

clear_entry-IsRegistry :
    (i : ℕ) (g : Registry) → i < 256 → IsRegistry g → IsRegistry (clear_entry i g)
unfolding clear_entry
clear_entry-IsRegistry i g below w =
    if_ind IsRegistry (is_active (g.entries i))
      (λ active.
        let e : Entry = record (g.entries i) { active = re_state_free } in
        let moved = active_count-update 256 0 i g.entries e (omega arith) (omega arith) in
        let was : bit (is_active (g.entries i)) ≡ 1 = ap bit active in
        let is : bit (is_active e) ≡ 0 = refl in
        let most = active_count-le 256 0 g.entries in
        let count = w.counted in
        record {
          magic = w.magic;
          version = w.version;
          counted = rw (ne→== g.entry_count 0 (omega arith)) (omega arith);
        })
      (λ _. w)

clear_where-IsRegistry :
    (test : Entry → Bool) (n i : ℕ) (g : Registry)
    → i + n ≤ 256
    → IsRegistry g
    → IsRegistry (clear_where test n i g)
unfolding clear_where
clear_where-IsRegistry test zero i g fits w = w
clear_where-IsRegistry test (suc n) i g fits w =
    clear_where-IsRegistry test n (i + 1) (if test (g.entries i) then clear_entry i g else g)
      (omega arith)
      (if_ind IsRegistry (test (g.entries i)) (λ _. clear_entry-IsRegistry i g (omega arith) w)
        (λ _. w))

register-IsRegistry :
    (now : Option ℕ) (region uri : List ℕ) (pid : ℕ) (g : Registry)
    → IsRegistry g
    → IsRegistry (register now region uri pid g)
unfolding register
register-IsRegistry now region uri pid g w =
    if_ind IsRegistry (leb 48 (length region) || leb 64 (length uri)) (λ _. w)
      (λ _.
        option_ind IsRegistry (find_entry region uri pid 256 0 g.entries)
          (λ _. claim_entry-IsRegistry region uri pid (unwrap_or_zero now) g w)
          (λ i found.
            let (below, _) = find_entry-has_key region uri pid 256 0 i g.entries found in
            set_entry-IsRegistry i (record (g.entries i) { timestamp = unwrap_or_zero now }) g
              (omega arith) refl w))

change-IsRegistry : (c : Change) (g : Registry) → IsRegistry g → IsRegistry (change c g)
unfolding unregister prune_stale
change-IsRegistry (registering now region uri pid) g w = register-IsRegistry now region uri pid g w
change-IsRegistry (unregistering region pid) g w =
    rw (unregister_from-eq-clear_where region pid 256 0 g)
      (clear_where-IsRegistry (is_of region pid) 256 0 g (omega arith) w)
change-IsRegistry (pruning none stale_timeout) g w = w
change-IsRegistry (pruning (some t) stale_timeout) g w =
    rw (prune_from-eq-clear_where (t - u64 stale_timeout) 256 0 g)
      (clear_where-IsRegistry (is_stale (t - u64 stale_timeout)) 256 0 g (omega arith) w)

-- Registering, unregistering and pruning, in any order and however often, keep a registry whole:
-- the magic number, the version, and the entry count, which is the number of the active entries.
pub change_all-IsRegistry :
    (cs : List Change) (g : Registry) → IsRegistry g → IsRegistry (change_all cs g)
unfolding change_all
change_all-IsRegistry [] g w = w
change_all-IsRegistry (c ∷ cs) g w = change_all-IsRegistry cs (change c g) (change-IsRegistry c g w)
