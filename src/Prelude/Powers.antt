-- ===== src/Prelude/Powers.antt =====
-- Masks of low bits, and the test for a power of two.
use Prim.Native.Nat.{ℕ, zero, suc, ◌+◌, ◌-◌, ◌*◌, ◌/◌, ◌%◌, ◌^◌, ◌≤◌, ◌<◌, min, bit_and}
use mathlib.Core.Path.{◌≡◌, ap, sym, ◌∙◌}
use mathlib.Core.Logic.{◌≢◌, inl, inr}
use native.Mathlib.Omega.{arith}
use native.Mathlib.Nat.{add-mul-mod_self_right, mod-eq_of_lt, mod-add-div', mod-lt, mod-one}
use aimee_module_economizer.Prelude.Digits.{bit_and_halves, bit_and_le}
use aimee_module_economizer.Prelude.Masks.{pow_pos}
use aimee_module_economizer.Prelude.Tests.{Bool-cases, ◌==◌, ==_iff}

-- the remainder by an even number, from the remainder of the half
mod_double : (i m : ℕ) → 0 < m → i % (2 * m) ≡ i % 2 + 2 * (i / 2 % m)
mod_double i m p =
    let r = i / 2 % m in
    let q = i / 2 / m in
    let e : i ≡ (i % 2 + 2 * r) + q * (2 * m) = omega (arith, mod-add-div' (i / 2) m) in
    ap (λ x. x % (2 * m)) e
    ∙ add-mul-mod_self_right (i % 2 + 2 * r) q (2 * m)
    ∙ mod-eq_of_lt {n = i % 2 + 2 * r} {m = 2 * m} (omega (arith, mod-lt (i / 2) {m = m} p))

-- The mask of the low bits takes the remainder.
pub bit_and-mask : (k i : ℕ) → bit_and i (2 ^ k - 1) ≡ i % 2 ^ k
bit_and-mask zero i = omega (arith, bit_and_le i 0, mod-one i)
bit_and-mask (suc k) i =
    let h : (2 ^ suc k - 1) / 2 ≡ 2 ^ k - 1 = omega (arith, pow_pos k) in
    let o : (2 ^ suc k - 1) % 2 ≡ 1 = omega (arith, pow_pos k) in
    let e : bit_and i (2 ^ suc k - 1) ≡ min (i % 2) 1 + 2 * bit_and (i / 2) (2 ^ k - 1) =
      rw (h, o) at (bit_and_halves i (2 ^ suc k - 1)) in
    let d : 2 * 2 ^ k ≡ 2 ^ suc k = omega arith in
    let r : i % 2 ^ suc k ≡ i % 2 + 2 * (i / 2 % 2 ^ k) =
      ap (λ x. i % x) (sym d) ∙ mod_double i (2 ^ k) (pow_pos k) in
    omega (arith, e, r, bit_and-mask k (i / 2))

bit_and_self : (fuel u : ℕ) → u ≤ fuel → bit_and u u ≡ u
bit_and_self zero u h = omega (arith, bit_and_le u u, bit_and_halves u u)
bit_and_self (suc fuel) u h =
    omega (arith, bit_and_halves u u, bit_and_self fuel (u / 2) (omega arith))

-- A number that shares no bit with the one before it is a power of two.
power_under : (fuel v : ℕ) → v ≤ fuel → 0 < v → bit_and v (v - 1) ≡ 0 → (k : ℕ) × (v ≡ 2 ^ k)
power_under zero v l p h = absurd (omega arith)
power_under (suc fuel) v l p h = elim (Bool-cases (v % 2 == 0)) [
  | inl e ↦
      let even : v % 2 ≡ 0 = (==_iff (v % 2) 0).0 e in
      let half : (v - 1) / 2 ≡ v / 2 - 1 = omega arith in
      let less : bit_and (v / 2) (v / 2 - 1) ≡ 0 =
        omega (arith, rw half at (bit_and_halves v (v - 1))) in
      let (k, q) = power_under fuel (v / 2) (omega arith) (omega arith) less in
      (suc k, omega (arith, q))
  | inr e ↦
      let odd : v % 2 ≢ 0 = ground (arith, e) in
      let half : (v - 1) / 2 ≡ v / 2 = omega (arith, odd) in
      let none : v / 2 ≡ 0 = omega (
        arith,
        rw half at (bit_and_halves v (v - 1)),
        bit_and_self (v / 2) (v / 2) (omega arith),
      ) in
      (0, omega (arith, none, odd))
]

pub power_of_two : (v : ℕ) → 0 < v → bit_and v (v - 1) ≡ 0 → (k : ℕ) × (v ≡ 2 ^ k)
power_of_two v p h = power_under v v (omega arith) p h

pub pow_split : (m k : ℕ) → 2 ^ (m + k) ≡ 2 ^ m * 2 ^ k
pow_split m zero = ap (λ a. 2 ^ a) {x = m + 0} {y = m} (omega arith) ∙ omega arith
pow_split m (suc k) =
    let e : 2 ^ suc (m + k) ≡ 2 * 2 ^ (m + k) = omega arith in
    let f : 2 ^ suc k ≡ 2 * 2 ^ k = omega arith in
    ap (λ a. 2 ^ a) {x = m + suc k} {y = suc (m + k)} (omega arith)
    ∙ e
    ∙ ap (λ a. 2 * a) (pow_split m k)
    ∙ grind (arith, f)

-- a remainder by a multiple keeps the remainder
pub mod-mod_multiple : (a q m : ℕ) → a % (q * m) % m ≡ a % m
mod-mod_multiple a q m =
    let w = a / (q * m) in
    let e : a ≡ a % (q * m) + w * q * m = grind (arith, mod-add-div' a (q * m)) in
    sym (ap (λ x. x % m) e ∙ add-mul-mod_self_right (a % (q * m)) (w * q) m)
