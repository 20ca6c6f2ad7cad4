-- ===== src/Proof/Money.antt =====
-- `Money` of server-go/modules/economizer/proof.go, an int64: the addition that detects an overflow.
use aimee_module_economizer.Prelude.{
  ◌≡◌, inl, inr, ◌&&◌, Option, none, some, arith, if◌then◌else◌, Bool-cases,
}
use aimee_module_economizer.Prelude.Int.{+ℤ_parts, ℤ, pos, ◌+ℤ◌, ◌-ℤ◌, ◌<ℤ◌, ltb_ℤ}
use aimee_module_economizer.Prelude.Int64.{
  max_int64, min_int64, IsInt64, wrap_int64, wrap_int64_id, -ℤ_parts, in_int64, in_int64_sound,
}

-- `moneyAdd`; `none` is an overflow
unfoldable pub money_add : ℤ → ℤ → Option ℤ
money_add a b =
    if ltb_ℤ (pos 0) b && ltb_ℤ (wrap_int64 (max_int64 -ℤ b)) a
    then none
    else if ltb_ℤ b (pos 0) && ltb_ℤ a (wrap_int64 (min_int64 -ℤ b))
    then none
    else some (wrap_int64 (a +ℤ b))

-- the guards of `moneyAdd` compute without a wrap-around
room_above : (b : ℤ) → IsInt64 b → pos 0 <ℤ b → wrap_int64 (max_int64 -ℤ b) ≡ max_int64 -ℤ b
room_above b h k = wrap_int64_id (max_int64 -ℤ b) (omega (arith, -ℤ_parts max_int64 b))

room_below : (b : ℤ) → IsInt64 b → b <ℤ pos 0 → wrap_int64 (min_int64 -ℤ b) ≡ min_int64 -ℤ b
room_below b h k = wrap_int64_id (min_int64 -ℤ b) (omega (arith, -ℤ_parts min_int64 b))

-- `moneyAdd` returns the exact sum of two int64 if an int64 holds it, and an overflow otherwise.
pub money_add_exact :
    (a b : ℤ)
    → IsInt64 a
    → IsInt64 b
    → money_add a b ≡ (if in_int64 (a +ℤ b) then some (a +ℤ b) else none)
unfolding money_add
money_add_exact a b h k = elim (Bool-cases (ltb_ℤ (pos 0) b)) [
  | inl p ↦ elim (Bool-cases (in_int64 (a +ℤ b))) [
    | inl q ↦ ground (
      arith,
      room_above b k (ground arith),
      wrap_int64_id (a +ℤ b) (in_int64_sound (a +ℤ b) q),
      +ℤ_parts a b,
      -ℤ_parts max_int64 b,
    )
    | inr q ↦ ground (arith, room_above b k (ground arith), +ℤ_parts a b, -ℤ_parts max_int64 b)
  ]
  | inr p ↦ elim (Bool-cases (ltb_ℤ b (pos 0))) [
    | inl n ↦ elim (Bool-cases (in_int64 (a +ℤ b))) [
      | inl q ↦ ground (
        arith,
        room_below b k (ground arith),
        wrap_int64_id (a +ℤ b) (in_int64_sound (a +ℤ b) q),
        +ℤ_parts a b,
        -ℤ_parts min_int64 b,
      )
      | inr q ↦ ground (arith, room_below b k (ground arith), +ℤ_parts a b, -ℤ_parts min_int64 b)
    ]
    | inr n ↦ ground (arith, wrap_int64_id (a +ℤ b) (grind (arith, +ℤ_parts a b)), +ℤ_parts a b)
  ]
]
