-- ===== src/JsonCompact/Lexical.antt =====
-- The tokens of server-go/modules/economizer/json_compact.go: whitespace, `hex4`, `utf8Sequence`,
-- `parseString` and `parseNumber`. The parser's position is the rest of the input behind it.
use aimee_module_economizer.Prelude.{
  ℕ, zero, suc, ◌+◌, ◌-◌, ◌*◌, ◌/◌, ◌%◌, Bool, true, false, ◌&&◌, ◌||◌, Option, none, some, [], ◌∷◌,
  ◌++◌, if◌then◌else◌, ◌==◌, ltb, leb, Bytes, length, take, drop,
}
use Prim.Native.Nat.{bit_and}

-- `JSONResult`
pub data JsonResult : Type 0 where
  ok invalid_argument too_large too_deep invalid_utf8 invalid_syntax duplicate_key not_shorter :
      JsonResult

-- The parser stands before the rest of the input, or has failed for a reason other than `ok`.
pub data Parsed {ℓ} (A : Type ℓ) : Type ℓ where
  done : A → Bytes → Parsed A
  fail : JsonResult → Parsed A

unfoldable pub json_ws : ℕ → Bool
json_ws c = c == b' ' || c == b'\t' || c == b'\n' || c == b'\r'

unfoldable pub skip_ws : Bytes → Bytes
skip_ws [] = []
skip_ws (c ∷ s) = if json_ws c then skip_ws s else c ∷ s

abbrev pub in_range : ℕ → ℕ → ℕ → Bool
in_range lo hi c = leb lo c && leb c hi

-- `none` for the -1
unfoldable pub hex_val : ℕ → Option ℕ
hex_val c =
    if in_range b'0' b'9' c
    then some (c - b'0')
    else if in_range b'a' b'f' c
    then some (c - b'a' + 10)
    else if in_range b'A' b'F' c
    then some (c - b'A' + 10)
    else none

-- the loop of `hex4` with its rounds left; `v<<4 | h` is `v * 16 + h`, since `h` is below 16
unfoldable pub hex_digits : ℕ → ℕ → Bytes → Option (ℕ × Bytes)
hex_digits zero v s = some (v, s)
hex_digits (suc n) v [] = none
hex_digits (suc n) v (c ∷ s) = elim (hex_val c) [
  | none ↦ none
  | some h ↦ hex_digits n (v * 16 + h) s
]

unfoldable pub hex4 : Bytes → Option (ℕ × Bytes)
hex4 s = if ltb (length s) 4 then none else hex_digits 4 0 s

abbrev pub byte_at : (ℕ → Bool) → Bytes → ℕ → Bool
byte_at p [] i = false
byte_at p (c ∷ s) zero = p c
byte_at p (c ∷ s) (suc i) = byte_at p s i

-- `cont`: a continuation byte stands at the index
unfoldable pub cont : Bytes → ℕ → Bool
cont s i = byte_at (λ c. bit_and c 0xc0 == 0x80) s i

-- the length of the UTF-8 sequence at the head, if it is one
unfoldable pub utf8_sequence : Bytes → Option ℕ
utf8_sequence [] = none
utf8_sequence (a ∷ t) =
    let s = a ∷ t in
    let n = length s in
    if ltb a 0x80
    then some 1
    else if in_range 0xc2 0xdf a && cont s 1
    then some 2
    else if a == 0xe0 && leb 3 n && byte_at (in_range 0xa0 0xbf) s 1 && cont s 2
    then some 3
    else if in_range 0xe1 0xec a && cont s 1 && cont s 2
    then some 3
    else if a == 0xed && leb 3 n && byte_at (in_range 0x80 0x9f) s 1 && cont s 2
    then some 3
    else if in_range 0xee 0xef a && cont s 1 && cont s 2
    then some 3
    else if a == 0xf0 && leb 4 n && byte_at (in_range 0x90 0xbf) s 1 && cont s 2 && cont s 3
    then some 4
    else if in_range 0xf1 0xf3 a && cont s 1 && cont s 2 && cont s 3
    then some 4
    else if a == 0xf4 && leb 4 n && byte_at (in_range 0x80 0x8f) s 1 && cont s 2 && cont s 3
    then some 4
    else none

-- `utf16.DecodeRune` of a high and a low surrogate
unfoldable pub decode_rune : ℕ → ℕ → ℕ
decode_rune high low = (high - 0xd800) * 1024 + (low - 0xdc00) + 0x10000

-- `utf8.AppendRune`, for a code point that is no surrogate
unfoldable pub rune_bytes : ℕ → Bytes
rune_bytes r =
    if ltb r 0x80
    then r ∷ []
    else if ltb r 0x800
    then (0xc0 + r / 64) ∷ (0x80 + r % 64) ∷ []
    else if ltb r 0x10000
    then (0xe0 + r / 4096) ∷ (0x80 + r / 64 % 64) ∷ (0x80 + r % 64) ∷ []
    else (0xf0 + r / 262144) ∷ (0x80 + r / 4096 % 64) ∷ (0x80 + r / 64 % 64) ∷ (0x80 + r % 64) ∷ []

-- the low half that must follow a high surrogate
unfoldable pub low_surrogate : ℕ → Bytes → Parsed ℕ
low_surrogate high (b ∷ u ∷ s) =
    if leb 4 (length s) && b == b'\\' && u == b'u'
    then elim (hex4 s) [
      | none ↦ fail invalid_syntax
      | some (low, t) ↦
          if in_range 0xdc00 0xdfff low then done (decode_rune high low) t else fail invalid_syntax
    ]
    else fail invalid_syntax
low_surrogate high _ = fail invalid_syntax

unfoldable pub unicode_escape : Bytes → Parsed ℕ
unicode_escape s = elim (hex4 s) [
  | none ↦ fail invalid_syntax
  | some (cp, t) ↦
      if in_range 0xd800 0xdbff cp
      then low_surrogate cp t
      else if in_range 0xdc00 0xdfff cp
      then fail invalid_syntax
      else done cp t
]

unfoldable pub simple_escape : ℕ → Option ℕ
simple_escape e =
    if e == b'"' || e == b'\\' || e == b'/'
    then some e
    else if e == b'b'
    then some 8
    else if e == b'f'
    then some 12
    else if e == b'n'
    then some 10
    else if e == b'r'
    then some 13
    else if e == b't'
    then some 9
    else none

-- what one escape adds, behind its backslash
unfoldable pub escape : Bytes → Parsed Bytes
escape [] = fail invalid_syntax
escape (e ∷ s) =
    if e == b'u'
    then elim (unicode_escape s) [ fail r ↦ fail r | done cp t ↦ done (rune_bytes cp) t ]
    else elim (simple_escape e) [ none ↦ fail invalid_syntax | some v ↦ done (v ∷ []) s ]

-- what one round of the loop adds, at a byte that does not end the string
unfoldable pub string_item : ℕ → Bytes → Parsed Bytes
string_item c s =
    if ltb c 0x20
    then fail invalid_syntax
    else if c == b'\\'
    then escape s
    else elim (utf8_sequence (c ∷ s)) [
      | none ↦ fail invalid_utf8
      | some size ↦ done (take size (c ∷ s)) (drop size (c ∷ s))
    ]

-- The loop of `parseString`, on fuel. Each round takes a byte at least; without a byte left the
-- string is unterminated.
unfoldable pub string_loop : ℕ → Bool → Bytes → Bytes → Parsed Bytes
string_loop fuel decode out [] = fail invalid_syntax
string_loop zero decode out (c ∷ s) = fail invalid_syntax
string_loop (suc fuel) decode out (c ∷ s) = elim (c == b'"') [
  | true ↦ done out s
  | false ↦ elim (string_item c s) [
    | fail r ↦ fail r
    | done added t ↦ string_loop fuel decode (if decode then out ++ added else out) t
  ]
]

unfoldable pub parse_string : Bool → Bytes → Parsed Bytes
parse_string decode [] = fail invalid_syntax
parse_string decode (c ∷ s) =
    if c == b'"' then string_loop (length s) decode [] s else fail invalid_syntax

abbrev pub is_digit : ℕ → Bool
is_digit c = in_range b'0' b'9' c

unfoldable pub skip_digits : Bytes → Bytes
skip_digits [] = []
skip_digits (c ∷ s) = if is_digit c then skip_digits s else c ∷ s

-- a digit and those behind it, which a point and an exponent want
unfoldable pub some_digits : Bytes → Option Bytes
some_digits [] = none
some_digits (c ∷ s) = if is_digit c then some (skip_digits s) else none

unfoldable pub minus_part : Bytes → Bytes
minus_part [] = []
minus_part (c ∷ s) = if c == b'-' then s else c ∷ s

unfoldable pub integer_part : Bytes → Option Bytes
integer_part [] = none
integer_part (c ∷ s) =
    if c == b'0' then some s else if in_range b'1' b'9' c then some (skip_digits s) else none

unfoldable pub fraction_part : Bytes → Option Bytes
fraction_part [] = some []
fraction_part (c ∷ s) = if c == b'.' then some_digits s else some (c ∷ s)

unfoldable pub sign_part : Bytes → Bytes
sign_part [] = []
sign_part (c ∷ s) = if c == b'+' || c == b'-' then s else c ∷ s

unfoldable pub exponent_part : Bytes → Option Bytes
exponent_part [] = some []
exponent_part (c ∷ s) = if c == b'e' || c == b'E' then some_digits (sign_part s) else some (c ∷ s)

abbrev and_then : Option Bytes → (Bytes → Option Bytes) → Option Bytes
and_then none f = none
and_then (some s) f = f s

abbrev or_syntax : Option Bytes → Parsed (Unit {0})
or_syntax none = fail invalid_syntax
or_syntax (some s) = done tt s

unfoldable pub parse_number : Bytes → Parsed (Unit {0})
parse_number s =
    or_syntax (and_then (and_then (integer_part (minus_part s)) fraction_part) exponent_part)
