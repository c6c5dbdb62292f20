-- ===== src/Wait/Strategy.antt =====
-- src/wait.rs and src/platform/notify.rs: the wait strategies, and waiting for a word to change.
use crossbar.Base.{
  ℕ, zero, suc, ◌+◌, ◌-◌, ◌^◌, Bool, false, not, Option, none, some, List, [], ◌∷◌, min, ltb, leb,
  ◌==◌, if◌then◌else◌,
}
use crossbar.Region.State.{Region}
use crossbar.Region.Pool.{Interference}

pub data WaitStrategy : Type 0 where
  busy_spin yield_spin backoff_spin : WaitStrategy
  adaptive : (spin_iters yield_iters : ℕ) → WaitStrategy

-- `WaitStrategy::default`
abbrev pub default_strategy : WaitStrategy
default_strategy = adaptive 100 10

-- `saturating_add` of a `u32`.
abbrev pub saturating_add : ℕ → ℕ → ℕ
saturating_add a b = min (a + b) (2 ^ 32 - 1)

-- How often `wait` gives the yield hint, which does nothing to the state.
unfoldable pub wait : WaitStrategy → (iter : ℕ) → ℕ
wait busy_spin iter = 0
wait yield_spin iter = 1
wait backoff_spin iter = 2 ^ min iter 6
wait (adaptive spin_iters yield_iters) iter =
    if ltb iter spin_iters
    then 0
    else if ltb iter (saturating_add spin_iters yield_iters)
    then 1
    else 0

-- Whether a blocking receive sleeps in this iteration.
unfoldable pub sleeps : WaitStrategy → (iter : ℕ) → Bool
sleeps busy_spin iter = false
sleeps yield_spin iter = false
sleeps backoff_spin iter = false
sleeps (adaptive spin_iters yield_iters) iter = leb (saturating_add spin_iters yield_iters) iter

-- Phases 1 and 2 of `wait_until_not`, from load `i` on with `n` left; `env i` is what others do
-- before the load. The value where it differs from `current`.
unfoldable pub spin_loads :
    (addr : Region → ℕ) (current : ℕ) (env : ℕ → Interference) (n i : ℕ)
    → Region
    → Option ℕ × Region
spin_loads addr current env zero i r = (none, r)
spin_loads addr current env (suc n) i r =
    let r' = env i r in
    let rest = spin_loads addr current env n (i + 1) r' in
    if not (addr r' == current) then (some (addr r'), r') else rest

-- One look at the word while parked: what others do before it, and whether the deadline has passed.
pub record Look : Type 0 where
  pub before : Interference
  pub late : Bool

-- What `wait_until_not` ends with: a value, or `Err(())`; `still_parked` if the looks are used up.
pub data Waited : Type 0 where
  changed : ℕ → Waited
  timed_out still_parked : Waited

-- Phase 3: the loop around `futex_wait`.
unfoldable pub park : (addr : Region → ℕ) (current : ℕ) → List Look → Region → Waited × Region
park addr current [] r = (still_parked, r)
park addr current (look ∷ looks) r =
    let r' = look.before r in
    let again = park addr current looks r' in
    let unchanged = if look.late then (timed_out, r') else again in
    if not (addr r' == current) then (changed (addr r'), r') else unchanged

unfoldable pub wait_until_not :
    (addr : Region → ℕ) (current : ℕ) (skip_spin : Bool) (env : ℕ → Interference)
    → List Look
    → Region
    → Waited × Region
unfolding spin_loads park
wait_until_not addr current skip_spin env looks r =
    if skip_spin
    then park addr current looks r
    else (let (found, r') = spin_loads addr current env 110 0 r in
        elim found [ none ↦ park addr current looks r' | some v ↦ (changed v, r') ])
