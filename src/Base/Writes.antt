-- ===== src/Base/Writes.antt =====
-- Writes of lists into memory: how they compose, and what is read back.
use Prim.Native.Nat.{ℕ, zero, suc, ◌+◌, ◌≤◌, ◌<◌}
use mathlib.Core.Path.{◌≡◌, refl, sym, ap, ◌∙◌}
use mathlib.Core.List.{List, [], ◌∷◌, ◌++◌}
use native.Mathlib.Omega.{arith}
use native.Mathlib.Decide.{ℕ_discrete}
use crossbar.Base.Tests.{◌==◌, if◌then◌else◌, eq→==, ne→==}
use crossbar.Base.Lists.{length}
use crossbar.Base.Maps.{update, write_at, read_at}

module _ {ℓ} {A : Type ℓ} where
  -- A write leaves alone what is below and above it.
  pub write_at_outside :
      (f : ℕ → A) (i : ℕ) (xs : List A) (j : ℕ)
      → (i ≤ j → i + length xs ≤ j)
      → write_at f i xs j ≡ f j
  unfolding write_at
  write_at_outside f i [] j out = refl
  write_at_outside f i (x ∷ xs) j out =
      rw (ne→== i j (λ e. let far = out (omega arith) in omega arith))
        (write_at_outside f (i + 1) xs j (λ le. let far = out (omega arith) in omega arith))

  -- A write depends only on what the memory holds.
  pub write_at_cong :
      (f g : ℕ → A) (i : ℕ) (xs : List A) (j : ℕ)
      → f j ≡ g j
      → write_at f i xs j ≡ write_at g i xs j
  unfolding write_at
  write_at_cong f g i [] j e = e
  write_at_cong f g i (x ∷ xs) j e =
      ap (λ a. if i == j then x else a) (write_at_cong f g (i + 1) xs j e)

  -- One write of a concatenation is two writes.
  pub write_at-append :
      (f : ℕ → A) (i : ℕ) (xs ys : List A) (j : ℕ)
      → write_at f i (xs ++ ys) j ≡ write_at (write_at f i xs) (i + length xs) ys j
  unfolding write_at
  write_at-append f i [] ys j = ap (λ k. write_at f k ys j) (omega arith)
  write_at-append f i (x ∷ xs) ys j = elim (ℕ_discrete i j) [
    | yes e ↦ rw (eq→== i j e) (
        sym (
          write_at_outside (update (write_at f (i + 1) xs) i x) (i + suc (length xs)) ys j
            (λ le. absurd (omega arith))
          ∙ rw (eq→== i j e) refl))
    | no ne ↦ rw (ne→== i j ne) (
        write_at-append f (i + 1) xs ys j
        ∙ write_at_cong (write_at f (i + 1) xs) (update (write_at f (i + 1) xs) i x) _ ys j
            (rw (ne→== i j ne) refl)
        ∙ ap (λ k. write_at (update (write_at f (i + 1) xs) i x) k ys j) (omega arith))
  ]

  -- What is read depends only on the range that is read.
  pub read_at_cong :
      (f g : ℕ → A) (i n : ℕ)
      → ((j : ℕ) → i ≤ j → j < i + n → f j ≡ g j)
      → read_at f i n ≡ read_at g i n
  unfolding read_at
  read_at_cong f g i zero same = refl
  read_at_cong f g i (suc n) same =
      ap (λ a. a ∷ read_at f (i + 1) n) (same i (omega arith) (omega arith))
      ∙ ap (◌∷◌ (g i)) (read_at_cong f g (i + 1) n (λ j le lt. same j (omega arith) (omega arith)))

  -- What was written is read back.
  pub read_at-write_at :
      (f : ℕ → A) (i : ℕ) (xs : List A) → read_at (write_at f i xs) i (length xs) ≡ xs
  unfolding write_at read_at
  read_at-write_at f i [] = refl
  read_at-write_at f i (x ∷ xs) =
      ap (λ a. a ∷ read_at (write_at f i (x ∷ xs)) (i + 1) (length xs)) (rw (eq→== i i refl) refl)
      ∙ ap (◌∷◌ x) (
          read_at_cong (update (write_at f (i + 1) xs) i x) (write_at f (i + 1) xs) (i + 1)
            (length xs) (λ j le lt. rw (ne→== i j (omega arith)) refl)
          ∙ read_at-write_at f (i + 1) xs)

  pub read_at-append :
      (f : ℕ → A) (i m n : ℕ) → read_at f i (m + n) ≡ read_at f i m ++ read_at f (i + m) n
  unfolding read_at
  read_at-append f i zero n =
      let sum : 0 + n ≡ n = omega arith in
      let place : i ≡ i + 0 = omega arith in ap (read_at f i) sum ∙ ap (λ k. read_at f k n) place
  read_at-append f i (suc m) n =
      let sum : suc m + n ≡ suc (m + n) = omega arith in
      ap (read_at f i) sum
      ∙ ap (◌∷◌ (f i)) (
          read_at-append f (i + 1) m n
          ∙ ap (λ k. read_at f (i + 1) m ++ read_at f k n) (omega arith))

  pub length-read_at : (f : ℕ → A) (i n : ℕ) → length (read_at f i n) ≡ n
  unfolding read_at
  length-read_at f i zero = refl
  length-read_at f i (suc n) = ap suc (length-read_at f (i + 1) n)

  -- Equal concatenations with first parts of one length have equal parts.
  pub append_injective :
      (xs ys zs ws : List A) → length xs ≡ length zs → xs ++ ys ≡ zs ++ ws → (xs ≡ zs) × (ys ≡ ws)
  append_injective [] ys [] ws n e = (refl, e)
  append_injective [] ys (z ∷ zs) ws n e = absurd (omega arith)
  append_injective (x ∷ xs) ys [] ws n e = absurd (omega arith)
  append_injective (x ∷ xs) ys (z ∷ zs) ws n e =
      let same : x ≡ z = cc in
      let tails : xs ++ ys ≡ zs ++ ws = cc in
      let (first, rest) = append_injective xs ys zs ws (omega arith) tails in (cc, rest)
