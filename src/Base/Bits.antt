-- ===== src/Base/Bits.antt =====
-- `bit_and` with a mask of ones is the remainder by a power of two, at every width.
use Prim.Native.Nat.{
  ℕ, zero, suc, ◌+◌, ◌-◌, ◌*◌, ◌/◌, ◌%◌, ◌^◌, ◌≤◌, ◌<◌, min, bit_and, digits, bit_and-bitwise,
}
use mathlib.Core.Path.{◌≡◌, sym, ◌∙◌}
use mathlib.Core.Bool.{Bool, true, ◌||◌}
use native.Mathlib.Omega.{arith}
use native.Mathlib.Nat.{pow-suc, pow-succ', mod-eq_of_lt, div-add-mod, mul-add-mod_self_left}
use native.Mathlib.Decide.{ℕ_discrete}
use crossbar.Base.Tests.{◌==◌}

pow_pos : (k : ℕ) → 0 < 2 ^ k
pow_pos zero = omega arith
pow_pos (suc k) = omega (arith, pow-suc 2 k, pow_pos k)

mod_unique : (x n d s : ℕ) → x ≡ n * d + s → s < n → x % n ≡ s
mod_unique x n d s e h = rw e (rw mul-add-mod_self_left (mod-eq_of_lt h))

mod_double : (a m : ℕ) → 0 < m → a % (2 * m) ≡ (a / 2 % m) * 2 + a % 2
mod_double a m h =
    let split : m * (a / 2 / m) + a / 2 % m ≡ a / 2 = div-add-mod (a / 2) m in
    let small : a / 2 % m < m = omega arith in
    mod_unique a (2 * m) (a / 2 / m) _ (omega arith) (omega arith)

half_mask : (k : ℕ) → (2 ^ suc k - 1) / 2 ≡ 2 ^ k - 1
half_mask k = omega (arith, pow-suc 2 k, pow_pos k)

-- The recursion on binary digits that `bit_and` stands for, at a mask, with fuel for its steps.
digits-mask : (fuel k a : ℕ) → a ≤ fuel → digits (λ y. 0) min fuel a (2 ^ k - 1) ≡ a % 2 ^ k
digits-mask zero k zero h = sym (mod-eq_of_lt (pow_pos k))
digits-mask zero k (suc a) h = absurd (omega arith)
digits-mask (suc fuel) k zero h = sym (mod-eq_of_lt (pow_pos k))
digits-mask (suc fuel) zero (suc a) h = omega (arith, digits-mask fuel 0 (suc a / 2) (omega arith))
digits-mask (suc fuel) (suc k) (suc a) h =
    let below = digits-mask fuel k (suc a / 2) (omega arith) in
    let rest : digits (λ y. 0) min fuel (suc a / 2) ((2 ^ suc k - 1) / 2) ≡ suc a / 2 % 2 ^ k =
      rw (half_mask k) below in
    let odd : (2 ^ suc k - 1) % 2 ≡ 1 = omega (arith, pow-suc 2 k, pow_pos k) in
    let split : suc a % 2 ^ suc k ≡ (suc a / 2 % 2 ^ k) * 2 + suc a % 2 =
      rw pow-succ' (mod_double (suc a) (2 ^ k) (pow_pos k)) in
    omega arith

-- `a & (2^k - 1)` is `a % 2^k`.
pub bit_and-mask : (k a : ℕ) → bit_and a (2 ^ k - 1) ≡ a % 2 ^ k
bit_and-mask k a = bit_and-bitwise a (2 ^ k - 1) ∙ digits-mask a k a (omega arith)

-- `is_power_of_two` of a `u32` or a `usize`: the exponent is below `k + 1`.
unfoldable pub is_power_of_two_upto : ℕ → ℕ → Bool
is_power_of_two_upto zero n = n == 1
is_power_of_two_upto (suc k) n = (n == 2 ^ suc k) || is_power_of_two_upto k n

pub is_power_of_two_upto_sound : (k n : ℕ) → is_power_of_two_upto k n ≡ true → (j : ℕ) × (n ≡ 2 ^ j)
unfolding is_power_of_two_upto
is_power_of_two_upto_sound zero n h = (0, ground arith)
is_power_of_two_upto_sound (suc k) n h = elim (ℕ_discrete n (2 ^ suc k)) [
  | yes e ↦ (suc k, e)
  | no ne ↦ is_power_of_two_upto_sound k n (ground arith)
]

-- `n.is_power_of_two()`; what is tested is below 2^64.
unfoldable pub is_power_of_two : ℕ → Bool
unfolding is_power_of_two_upto
is_power_of_two n = is_power_of_two_upto 63 n

pub is_power_of_two_sound : (n : ℕ) → is_power_of_two n ≡ true → (j : ℕ) × (n ≡ 2 ^ j)
unfolding is_power_of_two
is_power_of_two_sound n h = is_power_of_two_upto_sound 63 n h

-- The mask of a power of two.
pub bit_and-pred : (n a : ℕ) → is_power_of_two n ≡ true → (bit_and a (n - 1) ≡ a % n) × (0 < n)
bit_and-pred n a h =
    let (j, e) = is_power_of_two_sound n h in (rw e (bit_and-mask j a), rw e (pow_pos j))
