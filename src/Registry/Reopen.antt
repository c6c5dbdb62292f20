-- ===== src/Registry/Reopen.antt =====
-- A registry that was opened, used and opened again.
use crossbar.Base.{
  ℕ, zero, suc, ◌+◌, ◌≤◌, ◌≡◌, refl, sym, ◌∙◌, ◌⊎◌, inl, inr, List, arith, ltb, ◌==◌, bytes_eq,
  bytes_eq_refl, bytes_eq→eq, le→ltb, Bool-cases,
}
use mathlib.Core.Path.{subst}
use crossbar.Error.{Error, Result, ok, err}
use crossbar.Registry.State.{Registry, reg_magic, reg_version}
use crossbar.Registry.Open.{
  RegistryFile, fresh_registry, check_header, try_open_existing, create_new, open_at,
}
use crossbar.Registry.Count.{IsRegistry, Change, change_all, change_all-IsRegistry, active_count}

zeroed_count : (n i : ℕ) → active_count n i fresh_registry.entries ≡ 0
unfolding active_count
zeroed_count zero i = refl
zeroed_count (suc n) i = omega (arith, zeroed_count n (i + 1))

pub fresh_registry-IsRegistry : IsRegistry fresh_registry
fresh_registry-IsRegistry = record {
  magic = refl;
  version = refl;
  counted = sym (zeroed_count 256 0);
}

check_header-IsRegistry :
    (f : RegistryFile) (g : Registry)
    → f.content.entry_count ≡ active_count 256 0 f.content.entries
    → check_header f ≡ ok g
    → IsRegistry g
unfolding check_header
check_header-IsRegistry f g counted e = elim (Bool-cases (ltb f.size 32832)) [
  | inl small ↦ cc (rw small at e)
  | inr large ↦ elim (Bool-cases (bytes_eq f.content.magic reg_magic)) [
    | inr other ↦ cc (rw (large, other) at e)
    | inl magic ↦ elim (Bool-cases (f.content.version == reg_version)) [
      | inr older ↦ cc (rw (large, magic, older) at e)
      | inl version ↦
          let same : f.content ≡ g = cc (rw (large, magic, version) at e) in
          subst IsRegistry same (record {
            magic = bytes_eq→eq f.content.magic reg_magic magic;
            version = ground arith;
            counted = counted;
          })
    ]
  ]
]

check_header-IsRegistry_ok :
    (size : ℕ) (g : Registry)
    → 32832 ≤ size
    → IsRegistry g
    → check_header (record { size = size; content = g }) ≡ ok g
unfolding check_header
check_header-IsRegistry_ok size g large w =
    rw (le→ltb size 32832 large, w.magic, bytes_eq_refl reg_magic, w.version) refl

-- The file's entry count is right where the file exists.
abbrev pub CountedFile : Result RegistryFile → Type 0
CountedFile (err e) = Unit
CountedFile (ok f) = f.content.entry_count ≡ active_count 256 0 f.content.entries

create_new-IsRegistry :
    (created : Result (Unit {0})) (g : Registry) → create_new created ≡ ok g → IsRegistry g
unfolding create_new
create_new-IsRegistry (err e) g made = cc
create_new-IsRegistry (ok done) g made =
    let same : fresh_registry ≡ g = cc in subst IsRegistry same fresh_registry-IsRegistry

Result-cases : (r : Result Registry) → ((g : Registry) × (r ≡ ok g)) ⊎ ((e : Error) × (r ≡ err e))
Result-cases (ok g) = inl (g, refl)
Result-cases (err e) = inr (e, refl)

try_open_existing-IsRegistry :
    (file : Result RegistryFile) (g : Registry)
    → CountedFile file
    → try_open_existing file ≡ ok g
    → IsRegistry g
unfolding try_open_existing
try_open_existing-IsRegistry (err e) g counted opened = cc
try_open_existing-IsRegistry (ok f) g counted opened = check_header-IsRegistry f g counted opened

open_at-IsRegistry :
    (file : Result RegistryFile) (created : Result (Unit {0})) (g : Registry)
    → CountedFile file
    → open_at file created ≡ ok g
    → IsRegistry g
unfolding open_at
open_at-IsRegistry file created g counted opened = elim (Result-cases (try_open_existing file)) [
  | inl (h, existing) ↦
      try_open_existing-IsRegistry file g counted (existing ∙ rw (open_at, existing) at opened)
  | inr (e, failed) ↦ create_new-IsRegistry created g (rw (open_at, failed) at opened)
]

-- Opening a registry succeeds, on a file that exists with a right entry count or by making a new
-- one. After any registering, unregistering and pruning the registry is whole, and opening its
-- file, of any sufficient size, gives that very registry: it is not made anew.
pub open_at-change_all :
    (file : Result RegistryFile) (created created' : Result (Unit {0})) (g : Registry)
    (cs : List Change) (size : ℕ)
    → CountedFile file
    → open_at file created ≡ ok g
    → 32832 ≤ size
    → let h = change_all cs g in
      IsRegistry h × (open_at (ok (record { size = size; content = h })) created' ≡ ok h)
unfolding open_at try_open_existing
open_at-change_all file created created' g cs size counted opened large =
    let whole = change_all-IsRegistry cs g (open_at-IsRegistry file created g counted opened) in
    (whole, rw (open_at, check_header-IsRegistry_ok size (change_all cs g) large whole) refl)
