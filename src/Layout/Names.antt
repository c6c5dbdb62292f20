-- ===== src/Layout/Names.antt =====
-- Which segment names are accepted.
use crossbar.Base.{ℕ, ◌≡◌, refl, true, false, List, [], ◌∷◌, ◌++◌, arith}
use crossbar.Layout.{contains, contains_dots, is_valid_segment_name}

contains-append : (c : ℕ) (xs ys : List ℕ) → contains c (xs ++ c ∷ ys) ≡ true
unfolding contains
contains-append c [] ys = ground arith
contains-append c (x ∷ xs) ys = ground (arith, contains-append c xs ys)

contains_dots-append : (xs ys : List ℕ) → contains_dots (xs ++ b'.' ∷ b'.' ∷ ys) ≡ true
unfolding contains_dots
contains_dots-append [] ys = refl
contains_dots-append (x ∷ []) ys = ground (arith, contains_dots-append [] ys)
contains_dots-append (x ∷ y ∷ xs) ys = ground (arith, contains_dots-append (y ∷ xs) ys)

-- No accepted name is empty, holds a slash, a backslash or a null byte anywhere, or holds `..`.
pub is_valid_segment_name_safe :
    (xs ys : List ℕ)
    → (is_valid_segment_name [] ≡ false)
      × (is_valid_segment_name (xs ++ b'/' ∷ ys) ≡ false)
      × (is_valid_segment_name (xs ++ 92 ∷ ys) ≡ false)
      × (is_valid_segment_name (xs ++ 0 ∷ ys) ≡ false)
      × (is_valid_segment_name (xs ++ b'.' ∷ b'.' ∷ ys) ≡ false)
unfolding is_valid_segment_name
is_valid_segment_name_safe xs ys =
    let slash = contains-append b'/' xs ys in
    let backslash = contains-append 92 xs ys in
    let null = contains-append 0 xs ys in
    let dots = contains_dots-append xs ys in
    (refl, ground arith, ground arith, ground arith, ground arith)
