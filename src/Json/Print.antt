-- ===== src/Json/Print.antt =====
-- The printer of server-go/modules/economizer/cjson.go, and `Text` of
-- server-go/modules/economizer/jsonval.go. `CJSONNumber`, which works on floating point, is a
-- parameter: the spelling of a number.
use aimee_module_economizer.Prelude.{
  ℕ, ◌+◌, ◌-◌, ◌/◌, ◌%◌, true, false, Option, none, some, [], ◌∷◌, ◌++◌, if◌then◌else◌, ◌==◌, ltb,
  Bytes, codes,
}
use aimee_module_economizer.Json.{
  Value, Items, Fields, null, bool, number, string, array, object, nil, cons, end, field,
}

hex_digit : ℕ → ℕ
hex_digit d = if ltb d 10 then b'0' + d else b'a' + (d - 10)

-- `\\u%04x` of a byte
abbrev pub unicode_of : ℕ → Bytes
unfolding hex_digit
unicode_of c = codes "\\u00" ++ hex_digit (c / 16 % 16) ∷ hex_digit (c % 16) ∷ []

-- one round of `cjsonEscape`
unfoldable pub escape_byte : ℕ → Bytes
escape_byte c =
    if c == b'"'
    then codes "\\\""
    else if c == b'\\'
    then codes "\\\\"
    else if c == 8
    then codes "\\b"
    else if c == 12
    then codes "\\f"
    else if c == b'\n'
    then codes "\\n"
    else if c == b'\r'
    then codes "\\r"
    else if c == b'\t'
    then codes "\\t"
    else if ltb c 32
    then unicode_of c
    else c ∷ []

unfoldable pub escape_bytes : Bytes → Bytes
escape_bytes [] = []
escape_bytes (c ∷ s) = escape_byte c ++ escape_bytes s

-- `cjsonEscape`
unfoldable pub cjson_escape : Bytes → Bytes
cjson_escape s = b'"' ∷ escape_bytes s ++ b'"' ∷ []

module _ (cjson_number : ℕ → Bytes) where
  -- `printJSON`; the items and fields behind the first have a comma before them
  unfoldable mutual
    pub print_json : Value → Bytes
    print_json null = codes "null"
    print_json (bool false) = codes "false"
    print_json (bool true) = codes "true"
    print_json (number n) = cjson_number n
    print_json (string s) = cjson_escape s
    print_json (array nil) = codes "[]"
    print_json (array (cons v vs)) = b'[' ∷ print_json v ++ print_items vs ++ b']' ∷ []
    print_json (object end) = codes "{}"
    print_json (object (field k v fs)) =
        b'{' ∷ cjson_escape k ++ b':' ∷ print_json v ++ print_fields fs ++ b'}' ∷ []

    pub print_items : Items → Bytes
    print_items nil = []
    print_items (cons v vs) = b',' ∷ print_json v ++ print_items vs

    pub print_fields : Fields → Bytes
    print_fields end = []
    print_fields (field k v fs) = b',' ∷ cjson_escape k ++ b':' ∷ print_json v ++ print_fields fs

  -- `Text`
  unfoldable pub text : Option Value → Option Bytes
  text none = none
  text (some (string s)) = some s
  text (some v) = some (print_json v)
