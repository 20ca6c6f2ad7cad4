-- ===== src/Fold/Excerpt.antt =====
-- The pieces of a skeleton line (server-go/modules/economizer/fold.go): `isCleanUserTurn`,
-- `appendExcerpt`, `skeletonPrefix`, and `%d` of `fmt`. What a function writes to the builder is
-- its result.
use aimee_module_economizer.Prelude.{
  ℕ, zero, suc, ◌+◌, ◌/◌, ◌%◌, Bool, true, false, not, ◌&&◌, ◌||◌, Option, none, some, [], ◌∷◌,
  ◌++◌, map, if◌then◌else◌, ◌==◌, ltb, Bytes, codes, eq_bytes, length, any, take,
}
use aimee_module_economizer.Json.{Value, get, get_string, is_string, is_array, items_of}
use Prim.Native.Nat.{bit_and}
use aimee_module_economizer.Fold.Register.{parse_register, label}

abbrev is_tool_result : Value → Bool
is_tool_result b = eq_bytes (get_string b (codes "type")) (codes "tool_result")

-- `isCleanUserTurn`
unfoldable pub is_clean_user_turn : Option Value → Bool
is_clean_user_turn none = false
is_clean_user_turn (some m) =
    if not (eq_bytes (get_string m (codes "role")) (codes "user"))
    then false
    else let content = get m (codes "content") in
      if is_string content
      then true
      else if is_array content
      then not (any is_tool_result (items_of content))
      else false

-- `s[i]&0xC0 == 0x80`
abbrev pub is_continuation : Bytes → ℕ → Bool
is_continuation [] i = false
is_continuation (c ∷ s) zero = bit_and c 0xc0 == 0x80
is_continuation (c ∷ s) (suc i) = is_continuation s i

-- the loop that backs off the continuation bytes
unfoldable pub back_off : Bytes → ℕ → ℕ
back_off s zero = zero
back_off s (suc n) = elim (is_continuation s (suc n)) [ true ↦ back_off s n | false ↦ suc n ]

-- the number of bytes that `appendExcerpt` keeps
unfoldable pub kept : Bytes → ℕ → ℕ
kept s most = if ltb most (length s) then back_off s most else length s

unfoldable pub one_line : ℕ → ℕ
one_line c = if c == b'\n' || c == b'\r' || c == b'\t' then b' ' else c

abbrev pub ellipsis : Bytes
ellipsis = 0xe2 ∷ 0x80 ∷ 0xa6 ∷ []

-- `appendExcerpt`
unfoldable pub append_excerpt : Bytes → ℕ → Bytes
append_excerpt s most =
    map one_line (take (kept s most) s) ++ (if ltb (kept s most) (length s) then ellipsis else [])

-- `skeletonPrefix`
unfoldable pub skeleton_prefix : Bytes → Bytes → Bool → Bytes
skeleton_prefix role txt register_on =
    if register_on && eq_bytes role (codes "assistant")
    then role ++ b'/' ∷ label (parse_register txt) ++ codes ": "
    else (if eq_bytes role [] then codes "?" else role) ++ codes ": "

-- `%d` of a number that is not negative, on fuel: a round takes a digit
unfoldable pub decimal_digits : ℕ → ℕ → Bytes
decimal_digits zero n = []
decimal_digits (suc fuel) n =
    let rest = decimal_digits fuel (n / 10) in
    (if ltb n 10 then [] else rest) ++ (b'0' + n % 10) ∷ []

abbrev pub decimal : ℕ → Bytes
decimal n = decimal_digits (suc n) n
