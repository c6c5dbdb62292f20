-- ===== src/Registry/Strings.antt =====
-- Text written into a fixed-size array and read back.
use crossbar.Base.{
  ℕ, zero, suc, ◌+◌, ◌-◌, ◌≤◌, ◌<◌, ◌≡◌, refl, ap, ◌∙◌, Bool, true, false, ◌&&◌, ◌||◌, inl, inr,
  List, [], ◌∷◌, ◌++◌, arith, ltb, ◌==◌, if_ind, eq→==, ne→==, length, take, replicate, update,
  write_at, read_at, write_at_outside, read_at-write_at, read_at_cong, Bool-cases, List-cases, min,
}
use mathlib.Core.List.{append_assoc}
use crossbar.Layout.{contains}
use crossbar.Registry.Text.{
  continuation, first_byte, next_byte, decode_byte, decode_from, from_utf8_lossy, utf8_after,
  is_utf8, in_range, until_null, read_fixed_str, write_fixed_str,
}

both : (a b : Bool) → (a && b) ≡ true → (a ≡ true) × (b ≡ true)
both a b e = (ground arith, ground arith)

neither : (a b : Bool) → (a || b) ≡ false → (a ≡ false) × (b ≡ false)
neither a b e = (ground arith, ground arith)

-- What a decoder that holds part of a character gives, on text that completes it.
decode_from_after :
    (held : List ℕ) (missing : List (ℕ × ℕ)) (bs : List ℕ)
    → (missing ≡ [] → held ≡ [])
    → utf8_after missing bs ≡ true
    → decode_from (record { held = held; missing = missing }) bs ≡ held ++ bs
unfolding decode_from decode_byte first_byte next_byte utf8_after
decode_from_after held [] [] none_held e = rw (none_held refl) refl
decode_from_after held (r ∷ rs) [] none_held e = cc
decode_from_after held [] (b ∷ bs) none_held e =
    rw (none_held refl) (elim (Bool-cases (ltb b 0x80)) [
      | inl plain ↦
          let later : utf8_after [] bs ≡ true = rw plain at e in
          rw (first_byte, plain) (ap (◌∷◌ b) (decode_from_after [] [] bs (λ _. refl) later))
      | inr longer ↦ elim (List-cases (continuation b)) [
        | inl none_follow ↦ cc (rw (longer, none_follow) at e)
        | inr (r, rs, follow) ↦
            let later : utf8_after (r ∷ rs) bs ≡ true = rw (longer, follow) at e in
            rw (first_byte, longer, follow) (decode_from_after (b ∷ []) (r ∷ rs) bs (λ e. cc) later)
      ]
    ])
decode_from_after held (r ∷ []) (b ∷ bs) none_held e =
    let (here, later) = both (in_range r b) (utf8_after [] bs) e in
    rw (next_byte, here)
      (ap (λ t. (held ++ b ∷ []) ++ t) (decode_from_after [] [] bs (λ _. refl) later)
        ∙ append_assoc held (b ∷ []) bs)
decode_from_after held (r ∷ q ∷ qs) (b ∷ bs) none_held e =
    let (here, later) = both (in_range r b) (utf8_after (q ∷ qs) bs) e in
    rw (next_byte, here)
      (decode_from_after (held ++ b ∷ []) (q ∷ qs) bs (λ e. cc) later
        ∙ append_assoc held (b ∷ []) bs)

pub from_utf8_lossy_valid : (s : List ℕ) → is_utf8 s ≡ true → from_utf8_lossy s ≡ s
unfolding from_utf8_lossy
from_utf8_lossy_valid s e = decode_from_after [] [] s (λ _. refl) e

-- An array that starts with a text without null bytes, and a null byte after it.
until_null-read_at :
    (mem : ℕ → ℕ) (s : List ℕ) (i n : ℕ)
    → contains 0 s ≡ false
    → length s < n
    → read_at mem i (length s) ≡ s
    → mem (i + length s) ≡ 0
    → until_null mem i n ≡ s
unfolding until_null read_at contains
until_null-read_at mem s i zero clean fits same ended = absurd (omega arith)
until_null-read_at mem [] i (suc n) clean fits same ended =
    let at_end : mem i ≡ 0 = ap mem (omega arith) ∙ ended in rw at_end refl
until_null-read_at mem (b ∷ s) i (suc n) clean fits same ended =
    let first : mem i ≡ b = cc in
    let rest : read_at mem (i + 1) (length s) ≡ s = cc in
    let place : mem ((i + 1) + length s) ≡ 0 = ap mem (omega arith) ∙ ended in
    let (nonzero, clean') = neither (b == 0) (contains 0 s) clean in
    rw (first, nonzero)
      (ap (◌∷◌ b) (until_null-read_at mem s (i + 1) n clean' (omega arith) rest place))

take_all : (n : ℕ) (s : List ℕ) → length s ≤ n → take n s ≡ s
take_all zero [] h = refl
take_all zero (b ∷ s) h = absurd (omega arith)
take_all (suc n) [] h = refl
take_all (suc n) (b ∷ s) h = ap (◌∷◌ b) (take_all n s (omega arith))

-- What `write_fixed_str` leaves of a text that fits: the text and a null byte.
write_fixed_str_places :
    (mem : ℕ → ℕ) (s : List ℕ) (max_len : ℕ)
    → length s < max_len
    → (read_at (write_fixed_str mem s max_len) 0 (length s) ≡ s)
      × (write_fixed_str mem s max_len (length s) ≡ 0)
unfolding write_fixed_str
write_fixed_str_places mem s max_len fits =
    let n : min (length s) (max_len - 1) ≡ length s = omega arith in
    let ended = update (write_at mem 0 s) (length s) 0 in
    let written : read_at ended 0 (length s) ≡ s =
      read_at_cong ended (write_at mem 0 s) 0 (length s)
        (λ j low high. rw (ne→== (length s) j (omega arith)) refl)
      ∙ read_at-write_at mem 0 s in
    let null : ended (length s) ≡ 0 = rw (eq→== (length s) (length s) refl) refl in
    let zeros : List ℕ = replicate (max_len - length s - 1) 0 in
    let full = write_at ended (length s + 1) zeros in
    let untouched : (j : ℕ) → j < length s + 1 → full j ≡ ended j =
      λ j lt. write_at_outside ended (length s + 1) zeros j (λ le. absurd (omega arith)) in
    rw (n, take_all (length s) s (omega arith))
      (if_ind (λ (m : ℕ → ℕ). (read_at m 0 (length s) ≡ s) × (m (length s) ≡ 0))
        (ltb (length s + 1) max_len)
        (λ _. (
          read_at_cong full ended 0 (length s) (λ j low high. untouched j (omega arith)) ∙ written,
          untouched (length s) (omega arith) ∙ null,
        ))
        (λ _. (written, null)))

-- A text that is shorter than the array and has no null byte is read back as it was written,
-- whatever the array held before.
pub read_fixed_str-write_fixed_str :
    (mem : ℕ → ℕ) (s : List ℕ) (max_len : ℕ)
    → length s < max_len
    → is_utf8 s ≡ true
    → contains 0 s ≡ false
    → read_fixed_str (write_fixed_str mem s max_len) max_len ≡ s
unfolding read_fixed_str
read_fixed_str-write_fixed_str mem s max_len fits valid clean =
    let (written, null) = write_fixed_str_places mem s max_len fits in
    ap from_utf8_lossy (
      until_null-read_at (write_fixed_str mem s max_len) s 0 max_len clean fits written
        (ap (write_fixed_str mem s max_len) (omega arith) ∙ null))
    ∙ from_utf8_lossy_valid s valid
