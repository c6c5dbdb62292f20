-- ===== src/Loan/Structured.antt =====
-- Structured values, written into a block and read from a sample.
use crossbar.Base.{
  ℕ, ◌+◌, ◌-◌, ◌*◌, ◌/◌, ◌%◌, ◌^◌, ◌≤◌, ◌<◌, ◌≡◌, refl, sym, ap, ◌∙◌, some, List, [], ◌∷◌, ◌++◌,
  All, arith, eq→==, le→ltb, length, length-append, write_at, write_at_outside, read_at,
  read_at_cong, read_at-write_at, read_at-append, length-read_at, append_injective,
}
use mathlib.Core.Path.{subst}
use native.Mathlib.Nat.{mod-eq_of_lt, suc-mul}
use crossbar.Error.{Result, ok}
use crossbar.Region.State.{Region, u32, u64}
use crossbar.Stream.Receive.{Sample}
use crossbar.Loan.Write.{
  set_bytes, to_le_bytes, from_le_bytes, concat, write_structured, read_entries, read_array,
  read_header,
}

-- Four bytes in little-endian order are the number again.
le_bytes_roundtrip :
    (f : ℕ → ℕ) (i n : ℕ) → n < 2 ^ 32 → read_at f i 4 ≡ to_le_bytes n → from_le_bytes f i ≡ n
unfolding read_at
le_bytes_roundtrip f i n h e =
    let e0 : f i ≡ n % 256 = cc in
    let e1 : f (i + 1) ≡ n / 256 % 256 = cc in
    let e2 : f (i + 1 + 1) ≡ n / 65536 % 256 = cc in
    let e3 : f (i + 1 + 1 + 1) ≡ n / 16777216 % 256 = cc in
    let p2 : f (i + 2) ≡ f (i + 1 + 1) = ap f (omega arith) in
    let p3 : f (i + 3) ≡ f (i + 1 + 1 + 1) = ap f (omega arith) in omega arith

length-concat :
    (size : ℕ) (xs : List (List ℕ))
    → All (λ x. length x ≡ size) xs
    → length (concat xs) ≡ length xs * size
length-concat size [] h = omega arith
length-concat size (x ∷ xs) (h, hs) =
    omega (arith, length-append x (concat xs), length-concat size xs hs, suc-mul (length xs) size)

-- Entries of one size, written one after the other, are read back one by one.
read_entries-concat :
    (f : ℕ → ℕ) (offset size : ℕ) (xs : List (List ℕ))
    → All (λ x. length x ≡ size) xs
    → read_at f offset (length (concat xs)) ≡ concat xs
    → read_entries f offset size (length xs) ≡ xs
unfolding read_entries
read_entries-concat f offset size [] h e = refl
read_entries-concat f offset size (x ∷ xs) (h, hs) e =
    let size_x : length (x ++ concat xs) ≡ size + length (concat xs) =
      omega (arith, length-append x (concat xs)) in
    let parts = read_at-append f offset size (length (concat xs)) in
    let whole : read_at f offset size ++ read_at f (offset + size) (length (concat xs))
        ≡ x ++ concat xs =
      sym parts ∙ ap (read_at f offset) (sym size_x) ∙ e in
    let (first, rest) = append_injective _ _ _ _ (length-read_at f offset size ∙ sym h) whole in
    ap (λ l. l ∷ read_entries f (offset + size) size (length xs)) first
    ∙ ap (◌∷◌ x) (read_entries-concat f (offset + size) size xs hs rest)

-- Three writes, each after the one before, are all read back.
read_parts :
    (f : ℕ → ℕ) (hs cs ts : List ℕ)
    → let b = write_at (write_at (write_at f 0 hs) (length hs) cs) (length hs + length cs) ts in
      (read_at b 0 (length hs) ≡ hs)
      × (read_at b (length hs) (length cs) ≡ cs)
      × (read_at b (length hs + length cs) (length ts) ≡ ts)
read_parts f hs cs ts =
    let b1 = write_at f 0 hs in
    let b2 = write_at b1 (length hs) cs in
    (
      read_at_cong (write_at b2 (length hs + length cs) ts) b1 0 (length hs) (λ j le lt.
            write_at_outside b2 (length hs + length cs) ts j (λ above. absurd (omega arith))
            ∙ write_at_outside b1 (length hs) cs j (λ above. absurd (omega arith)))
          ∙ read_at-write_at f 0 hs,
      read_at_cong (write_at b2 (length hs + length cs) ts) b2 (length hs) (length cs) (λ j le lt.
            write_at_outside b2 (length hs + length cs) ts j (λ above. absurd (omega arith)))
          ∙ read_at-write_at b1 (length hs) cs,
      read_at-write_at b2 (length hs + length cs) ts,
    )

-- What `write_structured` does when the value fits.
write_structured_lem :
    (capacity block_idx entry_size : ℕ) (header : List ℕ) (entries : List (List ℕ)) (r : Region)
    → length entries < 2 ^ 32
    → length (concat entries) ≡ length entries * entry_size
    → length header + length entries * entry_size + 4 ≤ capacity
    → write_structured capacity block_idx entry_size header entries r ≡ (
      ok (length header + length entries * entry_size + 4),
      set_bytes block_idx
          (write_at
            (write_at (write_at (r.bytes block_idx) 0 header) (length header) (concat entries))
            (length header + length (concat entries))
            (to_le_bytes (length entries)))
          r,
    )
unfolding write_structured
write_structured_lem capacity block_idx entry_size header entries r few array fits =
    let whole : u32 (length entries) ≡ length entries = mod-eq_of_lt few in
    rw (le→ltb capacity (length header + length entries * entry_size + 4) fits, whole, array) refl

-- What `read_array` finds where the count at the end fits the length of the sample.
read_array_lem :
    (addr header_size entry_size align block_idx : ℕ) (entries : List (List ℕ)) (r : Region)
    → header_size + length entries * entry_size + 4 < 2 ^ 32
    → (addr + header_size) % align ≡ 0
    → from_le_bytes (r.bytes block_idx) (header_size + length entries * entry_size + 4 - 4)
      ≡ length entries
    → read_entries (r.bytes block_idx) header_size entry_size (length entries) ≡ entries
    → read_array addr header_size entry_size align
        (record { block_idx = block_idx; len = header_size + length entries * entry_size + 4 })
        r
      ≡ some entries
unfolding read_array
read_array_lem addr header_size entry_size align block_idx entries r small aligned count array =
    let total = header_size + length entries * entry_size + 4 in
    let bytes : u64 (length entries * entry_size) ≡ length entries * entry_size =
      mod-eq_of_lt (omega arith) in
    let sum : u64 (header_size + length entries * entry_size + 4) ≡ total =
      mod-eq_of_lt (omega arith) in
    rw
      (
        le→ltb total (header_size + 4) (omega arith),
        count,
        bytes,
        sum,
        eq→== total total refl,
        eq→== _ _ aligned,
        array,
      )
      refl

-- A header and an array of fewer than 2^32 entries that fit the block: `write_structured` succeeds
-- with the total length, and a sample of that length gives the array back from `read_array` and the
-- header from `read_header`, where the block's data are aligned for both types.
pub structured_roundtrip :
    (addr capacity block_idx entry_size align align_header : ℕ) (header : List ℕ)
    (entries : List (List ℕ)) (r : Region)
    → All (λ x. length x ≡ entry_size) entries
    → length entries < 2 ^ 32
    → length header + length entries * entry_size + 4 ≤ capacity
    → capacity < 2 ^ 32
    → (addr + length header) % align ≡ 0
    → addr % align_header ≡ 0
    → let total = length header + length entries * entry_size + 4 in
      let (written, r') = write_structured capacity block_idx entry_size header entries r in
      let sample : Sample = record { block_idx = block_idx; len = total } in
      (written ≡ ok total)
      × (read_array addr (length header) entry_size align sample r' ≡ some entries)
      × (read_header addr (length header) align_header sample r' ≡ some header)
unfolding write_structured read_array read_header
structured_roundtrip addr capacity block_idx entry_size align align_header header entries r sizes
      few fits small aligned aligned_header =
    let total = length header + length entries * entry_size + 4 in
    let array = length-concat entry_size entries sizes in
    let (h, c, t) =
      read_parts (r.bytes block_idx) header (concat entries) (to_le_bytes (length entries)) in
    let place : length header + length (concat entries) ≡ total - 4 = omega arith in
    let b =
      write_at (write_at (write_at (r.bytes block_idx) 0 header) (length header) (concat entries))
        (length header + length (concat entries)) (to_le_bytes (length entries)) in
    let r' : Region = set_bytes block_idx b r in
    let here : r'.bytes block_idx ≡ b = rw (eq→== block_idx block_idx refl) refl in
    let count : from_le_bytes b (total - 4) ≡ length entries =
      le_bytes_roundtrip b (total - 4) (length entries) few
        (ap (λ k. read_at b k 4) (sym place) ∙ t) in
    let array_back = read_entries-concat b (length header) entry_size entries sizes c in
    subst
      (λ (w : Result ℕ × Region).
        (w.0 ≡ ok total)
        × (read_array addr (length header) entry_size align
              (record { block_idx = block_idx; len = total }) w.1
            ≡ some entries)
        × (read_header addr (length header) align_header
              (record { block_idx = block_idx; len = total }) w.1
            ≡ some header))
      (sym (write_structured_lem capacity block_idx entry_size header entries r few array fits))
      (
        refl,
        read_array_lem addr (length header) entry_size align block_idx entries r' (omega arith)
            aligned (rw here count) (rw here array_back),
        rw (le→ltb total (length header) (omega arith), eq→== _ _ aligned_header, here) (ap some h),
      )
