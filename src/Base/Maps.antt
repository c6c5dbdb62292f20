-- ===== src/Base/Maps.antt =====
-- Arrays in memory as functions of the index, with a write at one index.
use Prim.Native.Nat.{ℕ, zero, suc, ◌+◌}
use mathlib.Core.List.{List, [], ◌∷◌}
use crossbar.Base.Tests.{◌==◌, if◌then◌else◌}

abbrev pub update {ℓ} : {A : Type ℓ} → (ℕ → A) → ℕ → A → ℕ → A
update f i v j = if i == j then v else f j

-- Consecutive writes of a list from an index on, and the list read back.
module _ {ℓ} {A : Type ℓ} where
  unfoldable pub write_at : (ℕ → A) → ℕ → List A → ℕ → A
  write_at f i [] = f
  write_at f i (x ∷ xs) = update (write_at f (i + 1) xs) i x

  unfoldable pub read_at : (ℕ → A) → ℕ → ℕ → List A
  read_at f i zero = []
  read_at f i (suc n) = f i ∷ read_at f (i + 1) n
