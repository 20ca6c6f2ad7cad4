-- ===== src/Prelude/Int64.antt =====
-- Go's int64, and its int on the 64-bit platforms: the integers in range, and the wrap-around of an
-- operation that leaves it.
use Prim.Native.Nat.{ℕ, ◌+◌, ◌-◌, ◌%◌, ◌^◌}
use mathlib.Core.Path.{◌≡◌}
use mathlib.Core.Bool.{Bool, true, ◌&&◌}
use native.Mathlib.Omega.{arith}
use aimee_module_economizer.Prelude.Tests.{ltb, if◌then◌else◌}
use aimee_module_economizer.Prelude.Int.{ℤ, pos, negsuc, pos_part, neg_part, ◌-ℤ◌, ◌≤ℤ◌, leb_ℤ}

abbrev pub max_int64 : ℤ
max_int64 = pos 9223372036854775807

abbrev pub min_int64 : ℤ
min_int64 = negsuc 9223372036854775807

-- The integers that an int64 holds.
abbrev pub IsInt64 : ℤ → Type 0
IsInt64 z = (min_int64 ≤ℤ z) × (z ≤ℤ max_int64)

-- two's complement, on 64 bits
abbrev of_bits : ℕ → ℤ
of_bits n = if ltb n 9223372036854775808 then pos n else negsuc (18446744073709551615 - n)

unfoldable pub wrap_int64 : ℤ → ℤ
wrap_int64 z =
    of_bits ((pos_part z % 2 ^ 64 + (18446744073709551616 - neg_part z % 2 ^ 64)) % 2 ^ 64)

-- the integers of an int64 are their own wrap-around
pub wrap_int64_id : (z : ℤ) → IsInt64 z → wrap_int64 z ≡ z
unfolding wrap_int64
wrap_int64_id (pos n) (l, h) = ground arith
wrap_int64_id (negsuc n) (l, h) = ground arith

pub -ℤ_parts :
    (a b : ℤ)
    → pos_part (a -ℤ b) + neg_part a + pos_part b ≡ neg_part (a -ℤ b) + pos_part a + neg_part b
unfolding ◌-ℤ◌
-ℤ_parts a b = ground arith

abbrev pub in_int64 : ℤ → Bool
in_int64 z = leb_ℤ min_int64 z && leb_ℤ z max_int64

pub in_int64_sound : (z : ℤ) → in_int64 z ≡ true → IsInt64 z
in_int64_sound z h = ground arith
