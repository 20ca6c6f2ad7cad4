-- ===== src/JsonCompact/Tests.antt =====
-- Documents in the shapes of server-go/modules/economizer/json_compact_test.go, and the theorems at
-- them.
use aimee_module_economizer.Prelude.{
  true, eq_bytes, ◌≤◌, ◌<◌, ◌≡◌, refl, ◌≢◌, ◌↔◌, Option, none, some, [], arith, Bytes, codes,
  eq_bytes, length,
}
use aimee_module_economizer.JsonCompact.Lexical.{
  string_loop, skip_ws, json_ws, parse_number, integer_part, minus_part, fraction_part, skip_digits,
  exponent_part, ok, not_shorter, JsonResult,
}
use aimee_module_economizer.JsonCompact.Parser.{
  parse_value, value_at, parse_array, array_loop, array_next, lit, object_loop,
}
use aimee_module_economizer.JsonCompact.Copy.{copy_step, copy, solid, copy_loop}
use aimee_module_economizer.JsonCompact.Compact.{json_compact, json_max_input, validate, copy_valid}
use aimee_module_economizer.JsonCompact.Literals.{Compacts}
use aimee_module_economizer.JsonCompact.Lexical.{
  parse_string, string_item, escape, simple_escape, utf8_sequence,
}
use aimee_module_economizer.JsonCompact.Fuel.{enough_fuel}
use aimee_module_economizer.JsonCompact.Theorems.{json_compact-ok, json_compact-not_shorter}

-- a document with blanks around its values
abbrev spaced : Bytes
spaced = codes "[ 1, true ]"

abbrev tight : Bytes
tight = codes "[1,true]"

run : Option Bytes × JsonResult
unfolding json_compact validate copy_valid copy copy_loop copy_step parse_value value_at skip_ws
    json_ws parse_array array_loop array_next parse_number integer_part minus_part fraction_part
    skip_digits exponent_part lit eq_bytes
run = json_compact spaced

spaced_compacts : json_compact spaced ≡ (some tight, ok)
unfolding run
spaced_compacts = refl

tight_validates : validate tight ≡ ok
unfolding run
tight_validates = refl

-- blanks around a string that holds blanks, an escaped quote and an escaped backslash
abbrev quoted : Bytes
quoted = codes "[ \" a\\\" \\\\\" , 1 ]"

abbrev quoted_tight : Bytes
quoted_tight = codes "[\" a\\\" \\\\\",1]"

quoted_compacts : json_compact quoted ≡ (some quoted_tight, ok)
unfolding run parse_string string_loop string_item escape simple_escape utf8_sequence
quoted_compacts = refl

json_compact-ok_example :
    (validate quoted ≡ ok)
    × (length quoted ≤ json_max_input)
    × (length quoted_tight < length quoted)
    × Compacts quoted quoted_tight
    × ((t : Bytes) → Compacts quoted t → t ≡ quoted_tight)
    × (solid quoted_tight ≡ solid quoted)
    × (copy quoted_tight ≡ quoted_tight)
json_compact-ok_example = json_compact-ok quoted quoted_compacts

tight_nonempty : tight ≢ []
tight_nonempty h = cc

json_compact-not_shorter_example : (json_compact tight ≡ (none, not_shorter)) ↔ (copy tight ≡ tight)
json_compact-not_shorter_example =
    json_compact-not_shorter tight tight_validates (omega arith) tight_nonempty

enough_fuel_example :
    (string_loop 100 true [] (codes "a\"]") ≡ string_loop 3 true [] (codes "a\"]"))
    × (array_loop (parse_value 2) 100 (codes "a\"]") ≡ array_loop (parse_value 2) 3 (codes "a\"]"))
    × (object_loop (parse_value 2) 100 [] (codes "a\"]")
        ≡ object_loop (parse_value 2) 3 [] (codes "a\"]"))
enough_fuel_example = enough_fuel 2 99 true [] [] (codes "a\"]") (omega arith)
