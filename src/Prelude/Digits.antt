-- ===== src/Prelude/Digits.antt =====
-- The binary digits that `bit_and` and `bit_or` stand for.
use Prim.Native.Nat.{
  ℕ, zero, suc, ◌+◌, ◌*◌, ◌/◌, ◌%◌, ◌≤◌, min, max, bit_and, bit_or, digits, bit_and-bitwise,
  bit_or-bitwise,
}
use mathlib.Core.Path.{◌≡◌, refl, ap, sym, ◌∙◌}
use mathlib.Core.Logic.{inl, inr}
use native.Mathlib.Omega.{arith}
use aimee_module_economizer.Prelude.Tests.{◌==◌, ==_iff, Bool-cases}

module _ (last : ℕ → ℕ) (join : ℕ → ℕ → ℕ) where
  -- one step more, where the fuel covers the first number
  one_more : (fuel x y : ℕ) → x ≤ fuel → digits last join (suc fuel) x y ≡ digits last join fuel x y
  one_more zero zero y h = refl
  one_more (suc fuel) zero y h = refl
  one_more (suc fuel) (suc x) y h = omega (arith, one_more fuel (suc x / 2) (y / 2) (omega arith))
  one_more zero (suc x) y h = absurd (omega arith)

  surplus :
      (much fuel x y : ℕ)
      → x ≤ fuel
      → fuel ≤ much
      → digits last join much x y ≡ digits last join fuel x y
  surplus zero zero x y h l = refl
  surplus zero (suc fuel) x y h l = absurd (omega arith)
  surplus (suc much) fuel x y h l = elim (Bool-cases (fuel == suc much)) [
    | inl e ↦ ap (λ n. digits last join n x y) (sym ((==_iff fuel (suc much)).0 e))
    | inr e ↦
        let k : fuel ≤ much = ground (arith, e) in
        one_more much x y (omega arith) ∙ surplus much fuel x y h k
  ]

  -- the halves need no more than half the fuel
  pub halves :
      (x y : ℕ)
      → digits last join x (suc x / 2) (y / 2) ≡ digits last join (suc x / 2) (suc x / 2) (y / 2)
  halves x y = surplus x (suc x / 2) (suc x / 2) (y / 2) (omega arith) (omega arith)

pub bit_and_halves : (x y : ℕ) → bit_and x y ≡ min (x % 2) (y % 2) + 2 * bit_and (x / 2) (y / 2)
bit_and_halves zero y = omega (arith, bit_and-bitwise 0 y, bit_and-bitwise 0 (y / 2))
bit_and_halves (suc x) y =
    let half = bit_and-bitwise (suc x / 2) (y / 2) in
    omega (arith, half, bit_and-bitwise (suc x) y, halves (λ n. zero) min x y)

pub bit_or_halves : (x y : ℕ) → bit_or x y ≡ max (x % 2) (y % 2) + 2 * bit_or (x / 2) (y / 2)
bit_or_halves zero y = omega (arith, bit_or-bitwise 0 y, bit_or-bitwise 0 (y / 2))
bit_or_halves (suc x) y =
    let half = bit_or-bitwise (suc x / 2) (y / 2) in
    omega (arith, half, bit_or-bitwise (suc x) y, halves (λ n. n) max x y)

-- `bit_and` is at most its second argument.
bit_and_under : (fuel x y : ℕ) → x ≤ fuel → bit_and x y ≤ y
bit_and_under fuel zero y h = omega (arith, bit_and-bitwise 0 y)
bit_and_under (suc fuel) (suc x) y h =
    omega (arith, bit_and_halves (suc x) y, bit_and_under fuel (suc x / 2) (y / 2) (omega arith))
bit_and_under zero (suc x) y h = absurd (omega arith)

pub bit_and_le : (x y : ℕ) → bit_and x y ≤ y
bit_and_le x y = bit_and_under x x y (omega arith)
