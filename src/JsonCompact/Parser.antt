-- ===== src/JsonCompact/Parser.antt =====
-- `parseArray`, `parseObject`, `keysUnique`, `parseValue` and `lit` of
-- server-go/modules/economizer/json_compact.go. The depth is counted down: the first argument of
-- `parse_value` is `JSONMaxDepth - depth`, so that `too_deep` is its zero.
use aimee_module_economizer.Prelude.{
  ℕ, zero, suc, Bool, true, false, not, ◌&&◌, ◌||◌, List, [], ◌∷◌, ◌++◌, if◌then◌else◌, ◌==◌, ltb,
  leb, Bytes, codes, eq_bytes, length, take, drop,
}
use aimee_module_economizer.JsonCompact.Lexical.{
  Parsed, done, fail, invalid_syntax, too_deep, duplicate_key, skip_ws, parse_string, parse_number,
}

abbrev pub json_max_depth : ℕ
json_max_depth = 64

abbrev pub json_max_object_members : ℕ
json_max_object_members = 65536

-- Go's `<` on strings
unfoldable pub lt_bytes : Bytes → Bytes → Bool
lt_bytes _ [] = false
lt_bytes [] (y ∷ ys) = true
lt_bytes (x ∷ xs) (y ∷ ys) = if ltb x y then true else x == y && lt_bytes xs ys

-- `sort.Slice` by `<`
unfoldable pub insert_key : Bytes → List Bytes → List Bytes
insert_key k [] = k ∷ []
insert_key k (j ∷ js) = if lt_bytes j k then j ∷ insert_key k js else k ∷ j ∷ js

unfoldable pub sort_keys : List Bytes → List Bytes
sort_keys [] = []
sort_keys (k ∷ ks) = insert_key k (sort_keys ks)

unfoldable pub neighbours_differ : List Bytes → Bool
neighbours_differ [] = true
neighbours_differ (k ∷ []) = true
neighbours_differ (k ∷ j ∷ ks) = not (eq_bytes j k) && neighbours_differ (j ∷ ks)

unfoldable pub keys_unique : List Bytes → Bool
keys_unique keys = if ltb (length keys) 2 then true else neighbours_differ (sort_keys keys)

abbrev pub Skipped : Type 0
Skipped = Parsed (Unit {0})

unfoldable pub lit : Bytes → Bytes → Skipped
lit word s =
    if ltb (length s) (length word) || not (eq_bytes (take (length word) s) word)
    then fail invalid_syntax
    else done tt (drop (length word) s)

-- behind an element: a comma goes on with the loop
unfoldable pub array_next : (Bytes → Skipped) → Bytes → Skipped
array_next again [] = fail invalid_syntax
array_next again (c ∷ s) = elim (c == b',') [
  | true ↦ again (skip_ws s)
  | false ↦ if c == b']' then done tt s else fail invalid_syntax
]

-- The loop of `parseArray` on fuel; `value` is `parseValue(depth + 1)`.
unfoldable pub array_loop : (Bytes → Skipped) → ℕ → Bytes → Skipped
array_loop value zero s = fail invalid_syntax
array_loop value (suc fuel) s = elim (value s) [
  | fail r ↦ fail r
  | done _ t ↦ array_next (array_loop value fuel) (skip_ws t)
]

abbrev pub array_items : (Bytes → Skipped) → Bytes → Skipped
array_items value [] = array_loop value 1 []
array_items value (c ∷ s) =
    if c == b']' then done tt s else array_loop value (length (c ∷ s)) (c ∷ s)

-- behind the `[`
unfoldable pub parse_array : (Bytes → Skipped) → Bytes → Skipped
parse_array value s = array_items value (skip_ws s)

-- behind a name: the colon and the value
unfoldable pub member_value : (Bytes → Skipped) → Bytes → Skipped
member_value value [] = fail invalid_syntax
member_value value (c ∷ s) = if c == b':' then value (skip_ws s) else fail invalid_syntax

unfoldable pub object_next : (Bytes → Skipped) → List Bytes → Bytes → Skipped
object_next again keys [] = fail invalid_syntax
object_next again keys (c ∷ s) = elim (c == b',') [
  | true ↦ again s
  | false ↦
      if c == b'}'
      then (if keys_unique keys then done tt s else fail duplicate_key)
      else fail invalid_syntax
]

-- The loop of `parseObject` on fuel, with the names so far.
unfoldable pub object_loop : (Bytes → Skipped) → ℕ → List Bytes → Bytes → Skipped
object_loop value zero keys s = fail invalid_syntax
object_loop value (suc fuel) keys s = elim (parse_string true (skip_ws s)) [
  | fail r ↦ fail r
  | done key t ↦ elim (leb json_max_object_members (length keys)) [
    | true ↦ fail too_deep
    | false ↦ elim (member_value value (skip_ws t)) [
      | fail r ↦ fail r
      | done _ u ↦
          object_next (object_loop value fuel (keys ++ key ∷ [])) (keys ++ key ∷ []) (skip_ws u)
    ]
  ]
]

abbrev pub object_items : (Bytes → Skipped) → Bytes → Skipped
object_items value [] = object_loop value 1 [] []
object_items value (c ∷ s) =
    if c == b'}' then done tt s else object_loop value (length (c ∷ s)) [] (c ∷ s)

-- behind the `{`
unfoldable pub parse_object : (Bytes → Skipped) → Bytes → Skipped
parse_object value s = object_items value (skip_ws s)

abbrev pub forget : Parsed Bytes → Skipped
forget (done _ s) = done tt s
forget (fail r) = fail r

-- `parseValue` at its first byte that is no whitespace; `value` is `parseValue(depth + 1)`
unfoldable pub value_at : (Bytes → Skipped) → Bytes → Skipped
value_at value [] = fail invalid_syntax
value_at value (c ∷ s) = elim (c == b'{') [
  | true ↦ parse_object value s
  | false ↦ elim (c == b'[') [
    | true ↦ parse_array value s
    | false ↦
        if c == b'"'
        then forget (parse_string false (c ∷ s))
        else if c == b't'
        then lit (codes "true") (c ∷ s)
        else if c == b'f'
        then lit (codes "false") (c ∷ s)
        else if c == b'n'
        then lit (codes "null") (c ∷ s)
        else parse_number (c ∷ s)
  ]
]

unfoldable pub parse_value : ℕ → Bytes → Skipped
parse_value zero s = fail too_deep
parse_value (suc left) s = value_at (parse_value left) (skip_ws s)
