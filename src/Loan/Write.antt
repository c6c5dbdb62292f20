-- ===== src/Loan/Write.antt =====
-- The operations of `Loan`, `TypedLoan` and `PinnedLoan`. A Pod value is the list of its bytes; the
-- address of a block's data is given by `addr`. `none` from a publish is its failed assertion.
use crossbar.Base.{
  ℕ, zero, suc, ◌+◌, ◌-◌, ◌*◌, ◌/◌, ◌%◌, min, Bool, true, not, ◌&&◌, Option, none, some, List, [],
  ◌∷◌, ◌++◌, ltb, leb, ◌==◌, if◌then◌else◌, update, length, take, drop, write_at, read_at,
}
use crossbar.Error.{Reason, data_too_large, io, Result, ok, err}
use crossbar.Region.State.{Region, u32, u64, set_topic}
use crossbar.Region.Pool.{free_block}
use crossbar.Region.Ring.{commit_to_ring, commit_pinned}
use crossbar.Stream.Receive.{Sample}

pub record Loan : Type 0 where
  pub capacity : ℕ
  pub len : ℕ
  pub block_idx : ℕ
  pub topic_idx : ℕ
  pub single_publisher : Bool

pub record TypedLoan : Type 0 where
  pub block_idx : ℕ
  pub topic_idx : ℕ
  pub single_publisher : Bool

pub record PinnedLoan : Type 0 where
  pub capacity : ℕ
  pub len : ℕ
  pub block_idx : ℕ
  pub topic_idx : ℕ

-- `dst.align_offset(16)`
unfoldable pub align_offset : ℕ → ℕ
align_offset addr = (16 - addr % 16) % 16

-- The loop of `nontemporal_copy` from `offset` on, 16 bytes a round; what is left is the tail.
unfoldable pub stream_chunks : (fuel offset : ℕ) → List ℕ → (ℕ → ℕ) → ℕ → ℕ
stream_chunks zero offset src dst = write_at dst offset src
stream_chunks (suc fuel) offset src dst =
    let rest = stream_chunks fuel (offset + 16) (drop 16 src) (write_at dst offset (take 16 src)) in
    if leb 16 (length src) then rest else write_at dst offset src

unfoldable pub nontemporal_copy : (addr : ℕ) → List ℕ → (ℕ → ℕ) → ℕ → ℕ
unfolding align_offset stream_chunks
nontemporal_copy addr src dst =
    let offset = min (align_offset addr) (length src) in
    stream_chunks (length src) offset (drop offset src) (write_at dst 0 (take offset src))

abbrev pub set_bytes : ℕ → (ℕ → ℕ) → Region → Region
set_bytes block_idx bytes r = record r { bytes = update r.bytes block_idx bytes }

unfoldable pub set_data : (addr : ℕ) → List ℕ → Loan → Region → Result (Unit {0}) × Loan × Region
set_data addr content loan r =
    if ltb loan.capacity (length content)
    then (err (data_too_large (length content) loan.capacity), loan, r)
    else (
      ok tt,
      record loan { len = length content },
      (if leb 2_097_152 (length content)
          then set_bytes loan.block_idx (nontemporal_copy addr content (r.bytes loan.block_idx)) r
          else set_bytes loan.block_idx (write_at (r.bytes loan.block_idx) 0 content) r),
    )

unfoldable pub set_len : ℕ → Loan → Result (Unit {0}) × Loan
set_len len loan =
    if ltb loan.capacity len
    then (err (data_too_large len loan.capacity), loan)
    else (ok tt, record loan { len = len })

-- `u32::to_le_bytes` and `u32::from_le_bytes`
abbrev pub to_le_bytes : ℕ → List ℕ
to_le_bytes n = n % 256 ∷ n / 256 % 256 ∷ n / 65536 % 256 ∷ n / 16777216 % 256 ∷ []

abbrev pub from_le_bytes : (ℕ → ℕ) → ℕ → ℕ
from_le_bytes f i = f i + f (i + 1) * 256 + f (i + 2) * 65536 + f (i + 3) * 16777216

abbrev pub concat : List (List ℕ) → List ℕ
concat [] = []
concat (x ∷ xs) = x ++ concat xs

-- `write_structured` of both kinds of loan; the result is the new length. `entry_size` is
-- `size_of::<E>()`.
unfoldable pub write_structured :
    (capacity block_idx entry_size : ℕ) → List ℕ → List (List ℕ) → Region → Result ℕ × Region
write_structured capacity block_idx entry_size header entries r =
    let header_size = length header in
    let array_size = length entries * entry_size in
    let total = header_size + array_size + 4 in
    if ltb capacity total
    then (err (data_too_large total capacity), r)
    else (let b1 = write_at (r.bytes block_idx) 0 header in
        let b2 = write_at b1 header_size (concat entries) in
        let b3 = write_at b2 (header_size + array_size) (to_le_bytes (u32 (length entries))) in
        (ok total, set_bytes block_idx b3 r))

-- The entries of a slice of `count` values of `size` bytes.
unfoldable pub read_entries : (ℕ → ℕ) → (offset size count : ℕ) → List (List ℕ)
read_entries f offset size zero = []
read_entries f offset size (suc count) =
    read_at f offset size ∷ read_entries f (offset + size) size count

unfoldable pub read_array :
    (addr header_size entry_size align : ℕ) → Sample → Region → Option (List (List ℕ))
unfolding read_entries
read_array addr header_size entry_size align sample r =
    let bytes = r.bytes sample.block_idx in
    if ltb sample.len (header_size + 4)
    then none
    else (let count = from_le_bytes bytes (sample.len - 4) in
        let array_bytes = u64 (count * entry_size) in
        if not (u64 (header_size + array_bytes + 4) == sample.len)
        then none
        else if not ((addr + header_size) % align == 0)
        then none
        else some (read_entries bytes header_size entry_size count))

-- `read_header`: the bytes of the header.
unfoldable pub read_header : (addr header_size align : ℕ) → Sample → Region → Option (List ℕ)
read_header addr header_size align sample r =
    if ltb sample.len header_size
    then none
    else if not (addr % align == 0)
    then none
    else some (read_at (r.bytes sample.block_idx) 0 header_size)

-- `io::Write::write`
unfoldable pub write : List ℕ → Loan → Region → Result ℕ × Loan × Region
write buf loan r =
    let remaining = loan.capacity - loan.len in
    if (remaining == 0) && not (length buf == 0)
    then (err (io Reason.block_full), loan, r)
    else (let n = min (length buf) remaining in
        (
          ok n,
          record loan { len = loan.len + n },
          set_bytes loan.block_idx (write_at (r.bytes loan.block_idx) loan.len (take n buf)) r,
        ))

-- `commit`, which `publish` calls with `true` and `publish_silent` with `false`.
unfoldable pub commit : (wake : Bool) → Loan → Region → Option Region
commit wake loan r =
    if leb loan.len 0xffff_ffff
    then some
        (commit_to_ring loan.block_idx (u32 loan.len) loan.topic_idx wake loan.single_publisher r)
    else none

-- `Drop` of a loan that was not published.
unfoldable pub drop_loan : Loan → Region → Region
drop_loan loan r = free_block [] loan.block_idx r

-- `TypedLoan`: `send`, and `commit`, which the publishing methods call.
unfoldable pub commit_typed : (size : ℕ) (wake : Bool) → TypedLoan → Region → Region
commit_typed size wake loan r =
    commit_to_ring loan.block_idx (u32 size) loan.topic_idx wake loan.single_publisher r

unfoldable pub send : (value : List ℕ) → TypedLoan → Region → Region
unfolding commit_typed
send value loan r =
    commit_typed (length value) true loan
      (set_bytes loan.block_idx (write_at (r.bytes loan.block_idx) 0 value) r)

unfoldable pub drop_typed_loan : TypedLoan → Region → Region
drop_typed_loan loan r = free_block [] loan.block_idx r

-- `PinnedLoan`
unfoldable pub set_pinned_data :
    List ℕ → PinnedLoan → Region → Result (Unit {0}) × PinnedLoan × Region
set_pinned_data content loan r =
    if ltb loan.capacity (length content)
    then (err (data_too_large (length content) loan.capacity), loan, r)
    else (
      ok tt,
      record loan { len = length content },
      set_bytes loan.block_idx (write_at (r.bytes loan.block_idx) 0 content) r,
    )

unfoldable pub set_pinned_len : ℕ → PinnedLoan → Result (Unit {0}) × PinnedLoan
set_pinned_len len loan =
    if ltb loan.capacity len
    then (err (data_too_large len loan.capacity), loan)
    else (ok tt, record loan { len = len })

-- The store of 0 into the reader count.
unfoldable pub clear_writer : ℕ → Region → Region
clear_writer topic_idx r =
    set_topic r topic_idx (record (r.topics topic_idx) { pinned_readers = 0 })

unfoldable pub publish_pinned : PinnedLoan → Region → Option Region
unfolding clear_writer
publish_pinned loan r =
    if leb loan.len 0xffff_ffff
    then some (clear_writer loan.topic_idx (commit_pinned (u32 loan.len) loan.topic_idx r))
    else none

unfoldable pub drop_pinned_loan : PinnedLoan → Region → Region
unfolding clear_writer
drop_pinned_loan loan r = clear_writer loan.topic_idx r
