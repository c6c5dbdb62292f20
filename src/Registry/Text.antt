-- ===== src/Registry/Text.antt =====
-- src/platform/registry.rs: text in fixed-size byte arrays, `read_fixed_str` and `write_fixed_str`.
-- Text is the list of its bytes. `from_utf8_lossy` is the function of the standard library: text that
-- is not valid UTF-8 gets U+FFFD in place of each part that is broken.
use crossbar.Base.{
  ℕ, zero, suc, ◌+◌, ◌-◌, Bool, true, false, ◌&&◌, List, [], ◌∷◌, ◌++◌, min, ltb, leb, ◌==◌,
  if◌then◌else◌, length, take, replicate, update, write_at,
}

-- The ranges of the bytes that must follow a first byte from 0x80 on; none if it begins no character.
unfoldable pub continuation : ℕ → List (ℕ × ℕ)
continuation b =
    let tail : ℕ × ℕ = (0x80, 0xbf) in
    if ltb b 0xc2
    then []
    else if ltb b 0xe0
    then tail ∷ []
    else if b == 0xe0
    then (0xa0, 0xbf) ∷ tail ∷ []
    else if b == 0xed
    then (0x80, 0x9f) ∷ tail ∷ []
    else if ltb b 0xf0
    then tail ∷ tail ∷ []
    else if b == 0xf0
    then (0x90, 0xbf) ∷ tail ∷ tail ∷ []
    else if ltb b 0xf4
    then tail ∷ tail ∷ tail ∷ []
    else if b == 0xf4
    then (0x80, 0x8f) ∷ tail ∷ tail ∷ []
    else []

abbrev pub in_range : ℕ × ℕ → ℕ → Bool
in_range (lo, hi) b = leb lo b && leb b hi

-- U+FFFD
abbrev pub replacement : List ℕ
replacement = 0xef ∷ 0xbf ∷ 0xbd ∷ []

-- The bytes of a character that has begun, and the ranges of those that are missing.
pub record Partial : Type 0 where
  pub held : List ℕ
  pub missing : List (ℕ × ℕ)

abbrev pub at_start : Partial
at_start = record { held = []; missing = [] }

-- One byte where a character begins: the output, and what is held now.
unfoldable pub first_byte : ℕ → List ℕ × Partial
unfolding continuation
first_byte b = if ltb b 0x80 then (b ∷ [], at_start) else elim (continuation b) [
  | [] ↦ (replacement, at_start)
  | r ∷ rs ↦ ([], record { held = b ∷ []; missing = r ∷ rs })
]

-- One more byte of a character, with the range that it must be in.
unfoldable pub next_byte : (held : List ℕ) → ℕ × ℕ → List (ℕ × ℕ) → ℕ → List ℕ × Partial
unfolding first_byte
next_byte held r rs b =
    if in_range r b
    then elim rs [
      | [] ↦ (held ++ b ∷ [], at_start)
      | q ∷ qs ↦ ([], record { held = held ++ b ∷ []; missing = q ∷ qs })
    ]
    else let (out, p) = first_byte b in (replacement ++ out, p)

unfoldable pub decode_byte : Partial → ℕ → List ℕ × Partial
unfolding first_byte next_byte
decode_byte p b = elim p.missing [ [] ↦ first_byte b | r ∷ rs ↦ next_byte p.held r rs b ]

unfoldable pub decode_from : Partial → List ℕ → List ℕ
unfolding decode_byte
decode_from p [] = elim p.missing [ [] ↦ [] | r ∷ rs ↦ replacement ]
decode_from p (b ∷ bs) = (decode_byte p b).0 ++ decode_from (decode_byte p b).1 bs

-- `String::from_utf8_lossy`
unfoldable pub from_utf8_lossy : List ℕ → List ℕ
unfolding decode_from
from_utf8_lossy bs = decode_from at_start bs

-- What every `str` is: valid UTF-8.
unfoldable pub utf8_after : List (ℕ × ℕ) → List ℕ → Bool
unfolding continuation
utf8_after [] [] = true
utf8_after (r ∷ rs) [] = false
utf8_after [] (b ∷ bs) =
    let plain = utf8_after [] bs in
    let longer : Bool = elim (continuation b) [ [] ↦ false | r ∷ rs ↦ utf8_after (r ∷ rs) bs ] in
    if ltb b 0x80 then plain else longer
utf8_after (r ∷ rs) (b ∷ bs) = in_range r b && utf8_after rs bs

abbrev pub is_utf8 : List ℕ → Bool
is_utf8 bs = utf8_after [] bs

-- The bytes from `i` on, up to the first zero and at most `n`.
unfoldable pub until_null : (ℕ → ℕ) → (i n : ℕ) → List ℕ
until_null mem i zero = []
until_null mem i (suc n) = if mem i == 0 then [] else mem i ∷ until_null mem (i + 1) n

unfoldable pub read_fixed_str : (ℕ → ℕ) → (max_len : ℕ) → List ℕ
unfolding until_null from_utf8_lossy
read_fixed_str mem max_len = from_utf8_lossy (until_null mem 0 max_len)

unfoldable pub write_fixed_str : (ℕ → ℕ) → (s : List ℕ) → (max_len : ℕ) → ℕ → ℕ
unfolding write_at
write_fixed_str mem s max_len =
    let copy_len = min (length s) (max_len - 1) in
    let ended = update (write_at mem 0 (take copy_len s)) copy_len 0 in
    if ltb (copy_len + 1) max_len
    then write_at ended (copy_len + 1) (replicate (max_len - copy_len - 1) 0)
    else ended
