-- ===== src/Publisher/Locks.antt =====
-- The names of the lock files.
use mathlib.Core.List.{append_assoc}
use crossbar.Base.{ℕ, ◌≡◌, ◌≢◌, refl, sym, ap, ◌∙◌, false, none, some, List, [], ◌∷◌, ◌++◌, arith}
use crossbar.Layout.{contains}
use crossbar.Publisher.Files.{
  ascii, Platform, linux, windows, other_os, dev_shm, temp_dir, slash_tmp, ShmPath, shm_path,
  before_dot, set_extension_lock, lock_path,
}

before_dot-eq-none : (s : List ℕ) → contains b'.' s ≡ false → before_dot s ≡ none
unfolding before_dot contains
before_dot-eq-none [] h = refl
before_dot-eq-none (c ∷ s) h = ground (arith, before_dot-eq-none s)

before_dot-append :
    (stem ext : List ℕ) → contains b'.' ext ≡ false → before_dot (stem ++ b'.' ∷ ext) ≡ some stem
unfolding before_dot
before_dot-append [] ext h = rw (before_dot-eq-none ext h) refl
before_dot-append (c ∷ stem) ext h = rw (before_dot-append stem ext h) refl

set_extension_lock-append :
    (prefix stem ext : List ℕ)
    → contains b'.' ext ≡ false
    → set_extension_lock (prefix ++ (stem ++ b'.' ∷ ext)) ≡ (prefix ++ stem) ++ ascii ".lock"
unfolding set_extension_lock
set_extension_lock-append prefix stem ext h =
    ap set_extension_lock (sym (append_assoc prefix stem (b'.' ∷ ext)))
    ∙ rw (set_extension_lock, before_dot-append (prefix ++ stem) ext h) refl

append_cancel : (prefix a b : List ℕ) → prefix ++ a ≡ prefix ++ b → a ≡ b
append_cancel [] a b e = e
append_cancel (c ∷ prefix) a b e = append_cancel prefix a b (cc)

same_extension : (stem a b : List ℕ) → stem ++ b'.' ∷ a ≡ stem ++ b'.' ∷ b → a ≡ b
same_extension stem a b e = let tails = append_cancel stem (b'.' ∷ a) (b'.' ∷ b) e in cc

file_name : ShmPath → List ℕ
file_name (dev_shm f) = f
file_name (temp_dir f) = f
file_name (slash_tmp f) = f

-- Two region names that differ only in what follows their last dot have different region files and
-- the same lock file, on every platform.
pub lock_path_shared :
    (os : Platform) (stem a b : List ℕ)
    → contains b'.' a ≡ false
    → contains b'.' b ≡ false
    → a ≢ b
    → (lock_path os (stem ++ b'.' ∷ a) ≡ lock_path os (stem ++ b'.' ∷ b))
      × (shm_path os (stem ++ b'.' ∷ a) ≢ shm_path os (stem ++ b'.' ∷ b))
unfolding lock_path shm_path file_name
lock_path_shared linux stem a b ha hb ne = (
  ap dev_shm (
      set_extension_lock-append (ascii "crossbar-") stem a ha
      ∙ sym (set_extension_lock-append (ascii "crossbar-") stem b hb)),
  λ e. ne (same_extension stem a b (append_cancel (ascii "crossbar-") _ _ (ap file_name e))),
)
lock_path_shared windows stem a b ha hb ne = (
  ap temp_dir (
      set_extension_lock-append (ascii "crossbar-") stem a ha
      ∙ sym (set_extension_lock-append (ascii "crossbar-") stem b hb)),
  λ e. ne (same_extension stem a b (append_cancel (ascii "crossbar-") _ _ (ap file_name e))),
)
lock_path_shared other_os stem a b ha hb ne = (
  ap slash_tmp (
      set_extension_lock-append (ascii "crossbar-shm-") stem a ha
      ∙ sym (set_extension_lock-append (ascii "crossbar-shm-") stem b hb)),
  λ e. ne (same_extension stem a b (append_cancel (ascii "crossbar-shm-") _ _ (ap file_name e))),
)
