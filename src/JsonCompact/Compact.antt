-- ===== src/JsonCompact/Compact.antt =====
-- `JSONCompact` of server-go/modules/economizer/json_compact.go.
use aimee_module_economizer.JsonCompact.Parser.{json_max_depth, parse_value}
use aimee_module_economizer.JsonCompact.Copy.{copy}
use aimee_module_economizer.JsonCompact.Lexical.{
  ok, skip_ws, done, fail, too_large, not_shorter, invalid_syntax, JsonResult,
}
use aimee_module_economizer.Prelude.{
  ℕ, ◌*◌, Option, none, some, [], ◌∷◌, if◌then◌else◌, ◌==◌, ltb, leb, Bytes, length,
}

abbrev pub json_max_input : ℕ
json_max_input = 16 * 1024 * 1024

-- The document is one value with nothing behind it but whitespace.
unfoldable pub validate : Bytes → JsonResult
validate input = elim (parse_value json_max_depth input) [
  | fail r ↦ r
  | done _ rest ↦ elim (skip_ws rest) [ [] ↦ ok | _ ∷ _ ↦ invalid_syntax ]
]

-- behind the validation
unfoldable pub copy_valid : Bytes → JsonResult → Option Bytes × JsonResult
copy_valid input ok =
    let out = copy input in
    if leb (length input) (length out) then (none, not_shorter) else (some out, ok)
copy_valid input r = (none, r)

unfoldable pub json_compact : Bytes → Option Bytes × JsonResult
json_compact input =
    if length input == 0
    then (none, invalid_syntax)
    else if ltb json_max_input (length input)
    then (none, too_large)
    else copy_valid input (validate input)
