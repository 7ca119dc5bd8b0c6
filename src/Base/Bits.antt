-- ===== src/Base/Bits.antt =====
-- The bits of a number, of a signed integer, and of a range of either.
use study_uafx.Base.Tests.{◌==◌}
use study_uafx.Base.Int.{ℤ, pos, negsuc}
use Prim.Native.Nat.{ℕ, zero, suc, ◌+◌, ◌-◌, ◌*◌, ◌/◌, ◌%◌, ◌^◌, ◌<◌}
use mathlib.Core.Path.{◌≡◌, refl}
use mathlib.Core.Bool.{Bool, not}
use native.Mathlib.Omega.{arith}
use native.Mathlib.Nat.{
  pow-suc, mod-lt, mul_comm, div-div-eq-div-mul, mod-eq-sub-div-mul, div-mul-le_self,
}

unfoldable pub bit : ℕ → ℕ → Bool
bit m zero = m % 2 == 1
bit m (suc i) = bit (m / 2) i

-- Two's complement: -(n + 1) has the inverted bits of n.
unfoldable pub bit_ℤ : ℤ → ℕ → Bool
bit_ℤ (pos n) i = bit n i
bit_ℤ (negsuc n) i = not (bit n i)

-- (n >> st) & ((1 << len) - 1) for an int n.
unfoldable pub bit_range : ℤ → ℕ → ℕ → ℕ
bit_range (pos n) st len = n / 2 ^ st % 2 ^ len
bit_range (negsuc n) st len = 2 ^ len - 1 - n / 2 ^ st % 2 ^ len

pow-pos : (k : ℕ) → 0 < 2 ^ k
pow-pos zero = omega arith
pow-pos (suc k) = omega (arith, pow-pos k, pow-suc 2 k)

div_pow_step : (m k : ℕ) → m / 2 ^ suc k ≡ m / 2 / 2 ^ k
div_pow_step m k = rw (div-div-eq-div-mul m 2 (2 ^ k), pow-suc 2 k, mul_comm 2 (2 ^ k))

mod_pow_step : (m k : ℕ) → m % 2 ^ suc k ≡ m / 2 % 2 ^ k * 2 + m % 2
mod_pow_step m k =
    let whole : m % 2 ^ suc k ≡ m - m / 2 / 2 ^ k * (2 ^ k * 2) =
      rw (mod-eq-sub-div-mul m (2 ^ suc k), div_pow_step m k, pow-suc 2 k) refl in
    omega (arith, whole, mod-eq-sub-div-mul (m / 2) (2 ^ k), div-mul-le_self (m / 2) (2 ^ k))

pub bit-div : (m st j : ℕ) → bit (m / 2 ^ st) j ≡ bit m (st + j)
unfolding bit
bit-div m zero j =
    let one : m / 2 ^ 0 ≡ m = omega arith in
    let same : 0 + j ≡ j = omega arith in rw (one, same) refl
bit-div m (suc st) j =
    let next : suc st + j ≡ suc (st + j) = omega arith in
    rw (div_pow_step m st, next) (bit-div (m / 2) st j)

pub bit-mod : (m len j : ℕ) → j < len → bit (m % 2 ^ len) j ≡ bit m j
unfolding bit
bit-mod m zero j h = absurd (omega arith)
bit-mod m (suc len) zero h = ground (arith, mod_pow_step m len)
bit-mod m (suc len) (suc j) h =
    let half : m % 2 ^ suc len / 2 ≡ m / 2 % 2 ^ len = omega (arith, mod_pow_step m len) in
    rw half (bit-mod (m / 2) len j (omega arith))

-- The inverted low bits.
pub bit-flip : (m len j : ℕ) → j < len → bit (2 ^ len - 1 - m % 2 ^ len) j ≡ not (bit m j)
unfolding bit
bit-flip m zero j h = absurd (omega arith)
bit-flip m (suc len) zero h =
    ground (arith, mod_pow_step m len, pow-suc 2 len, pow-pos len, mod-lt (m / 2) (pow-pos len))
bit-flip m (suc len) (suc j) h =
    let half : (2 ^ suc len - 1 - m % 2 ^ suc len) / 2 ≡ 2 ^ len - 1 - m / 2 % 2 ^ len =
      omega (arith, mod_pow_step m len, pow-suc 2 len, pow-pos len, mod-lt (m / 2) (pow-pos len)) in
    rw half (bit-flip (m / 2) len j (omega arith))

pub bit-bit_range : (n : ℤ) (st len j : ℕ) → j < len → bit (bit_range n st len) j ≡ bit_ℤ n (st + j)
unfolding bit_range bit_ℤ
bit-bit_range (pos n) st len j h = rw (bit-mod (n / 2 ^ st) len j h) (bit-div n st j)
bit-bit_range (negsuc n) st len j h = rw (bit-flip (n / 2 ^ st) len j h, bit-div n st j)
