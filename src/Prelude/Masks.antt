-- ===== src/Prelude/Masks.antt =====
-- Single bits of a number, and the masks that set and test them.
use Prim.Native.Nat.{ℕ, zero, suc, ◌*◌, ◌/◌, ◌%◌, ◌^◌, ◌<◌, max, bit_and, bit_or}
use mathlib.Core.Path.{◌≡◌, refl, ap}
use mathlib.Core.Logic.{◌≢◌}
use native.Mathlib.Omega.{arith}
use aimee_module_economizer.Prelude.Digits.{bit_and_halves, bit_or_halves, bit_and_le}

-- The bit at a position, 0 or 1.
unfoldable pub bit : ℕ → ℕ → ℕ
bit zero n = n % 2
bit (suc i) n = bit i (n / 2)

half_or : (a b : ℕ) → bit_or a b / 2 ≡ bit_or (a / 2) (b / 2)
half_or a b = omega (arith, bit_or_halves a b)

half_pow : (j : ℕ) → 2 ^ suc j / 2 ≡ 2 ^ j
half_pow j = omega arith

pub bit-bit_or : (i a b : ℕ) → bit i (bit_or a b) ≡ max (bit i a) (bit i b)
unfolding bit
bit-bit_or zero a b = omega (arith, bit_or_halves a b)
bit-bit_or (suc i) a b = rw (half_or a b) (bit-bit_or i (a / 2) (b / 2))

pub bit_and-pow : (j a : ℕ) → bit_and a (2 ^ j) ≡ bit j a * 2 ^ j
unfolding bit
bit_and-pow zero a = omega (arith, bit_and_halves a 1, bit_and_le (a / 2) 0)
bit_and-pow (suc j) a =
    let e = rw (half_pow j) at (bit_and_halves a (2 ^ suc j)) in
    grind (arith, e, bit_and-pow j (a / 2))

pub bit-zero : (i : ℕ) → bit i 0 ≡ 0
unfolding bit
bit-zero zero = refl
bit-zero (suc i) = bit-zero i

pub bit-pow_self : (i : ℕ) → bit i (2 ^ i) ≡ 1
unfolding bit
bit-pow_self zero = refl
bit-pow_self (suc i) = rw (half_pow i) (bit-pow_self i)

pub bit-pow_ne : (i j : ℕ) → i ≢ j → bit i (2 ^ j) ≡ 0
unfolding bit
bit-pow_ne zero zero n = absurd (n refl)
bit-pow_ne zero (suc j) n = omega arith
bit-pow_ne (suc i) zero n = bit-zero i
bit-pow_ne (suc i) (suc j) n = rw (half_pow j) (bit-pow_ne i j (λ e. n (ap suc e)))

pub pow_pos : (j : ℕ) → 0 < 2 ^ j
pow_pos zero = omega arith
pow_pos (suc j) = omega (arith, pow_pos j)
