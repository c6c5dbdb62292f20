-- ===== src/Loan/Copy.antt =====
-- The copy with streaming stores and the plain copy.
use crossbar.Base.{
  ℕ, zero, suc, ◌+◌, ◌≤◌, min, ◌≡◌, refl, sym, ap, ◌∙◌, List, [], ◌∷◌, ◌++◌, arith, leb, if_ind,
  leb→le, le→ltb, length, take, drop, length-take, write_at, write_at-append,
}
use mathlib.Core.Path.{fun_ext}
use crossbar.Error.{Result, ok}
use crossbar.Region.State.{Region}
use crossbar.Loan.Write.{Loan, align_offset, stream_chunks, nontemporal_copy, set_bytes, set_data}

take-drop : (n : ℕ) (xs : List ℕ) → take n xs ++ drop n xs ≡ xs
take-drop zero xs = refl
take-drop (suc n) [] = refl
take-drop (suc n) (x ∷ xs) = ap (◌∷◌ x) (take-drop n xs)

-- Writing a prefix and then the rest after it.
split_write :
    (dst : ℕ → ℕ) (i n k : ℕ) (src : List ℕ) (j : ℕ)
    → n ≤ length src
    → k ≡ i + n
    → write_at (write_at dst i (take n src)) k (drop n src) j ≡ write_at dst i src j
split_write dst i n k src j h at =
    let size : length (take n src) ≡ n = omega (arith, length-take n src) in
    ap (λ k. write_at (write_at dst i (take n src)) k (drop n src) j) (omega arith)
    ∙ sym (write_at-append dst i (take n src) (drop n src) j)
    ∙ ap (λ s. write_at dst i s j) (take-drop n src)

stream_chunks_plain :
    (fuel offset : ℕ) (src : List ℕ) (dst : ℕ → ℕ) (j : ℕ)
    → stream_chunks fuel offset src dst j ≡ write_at dst offset src j
unfolding stream_chunks
stream_chunks_plain zero offset src dst j = refl
stream_chunks_plain (suc fuel) offset src dst j =
    if_ind (λ (f : ℕ → ℕ). f j ≡ write_at dst offset src j) (leb 16 (length src))
      (λ e.
        stream_chunks_plain fuel (offset + 16) (drop 16 src) (write_at dst offset (take 16 src)) j
        ∙ split_write dst offset 16 (offset + 16) src j (leb→le 16 (length src) e) refl)
      (λ e. refl)

-- For every address of the destination and every source, `nontemporal_copy` leaves in every byte of
-- memory what the plain copy leaves.
pub nontemporal_copy_plain :
    (addr : ℕ) (src : List ℕ) (dst : ℕ → ℕ)
    → (j : ℕ) → nontemporal_copy addr src dst j ≡ write_at dst 0 src j
unfolding nontemporal_copy
nontemporal_copy_plain addr src dst j =
    let offset = min (align_offset addr) (length src) in
    stream_chunks_plain (length src) offset (drop offset src) (write_at dst 0 (take offset src)) j
    ∙ split_write dst 0 offset offset src j (omega arith) (omega arith)

-- `set_data` with data that fit: the block holds a plain copy of the data, also where the length
-- selects the streaming copy, and the length of the loan is that of the data.
pub set_data_plain :
    (addr : ℕ) (content : List ℕ) (loan : Loan) (r : Region)
    → length content ≤ loan.capacity
    → set_data addr content loan r ≡ (
      ok tt,
      record loan { len = length content },
      set_bytes loan.block_idx (write_at (r.bytes loan.block_idx) 0 content) r,
    )
unfolding set_data
set_data_plain addr content loan r fits =
    let b = loan.block_idx in
    let plain : ℕ → ℕ = write_at (r.bytes b) 0 content in
    let done : Region → Result (Unit {0}) × Loan × Region =
      λ r'. (ok tt, record loan { len = length content }, r') in
    let copied : nontemporal_copy addr content (r.bytes b) ≡ plain =
      fun_ext (nontemporal_copy_plain addr content (r.bytes b)) in
    rw (le→ltb loan.capacity (length content) fits) (
      if_ind (λ (r' : Region). done r' ≡ done (set_bytes b plain r))
        (leb 2_097_152 (length content)) (λ e. rw copied refl) (λ e. refl))
