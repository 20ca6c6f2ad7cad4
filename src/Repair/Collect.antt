-- ===== src/Repair/Collect.antt =====
-- `stringField`, `collectToolCallIDs`, `collectToolResultIDs` and `detectFormat` of
-- server-go/modules/economizer/repair.go, over the messages of a transcript.
use aimee_module_economizer.Prelude.{
  Bool, ◌&&◌, ◌||◌, List, [], ◌∷◌, Option, none, some, Bytes, codes, eq_bytes, if◌then◌else◌, any,
}
use aimee_module_economizer.Json.{Value, string, get, get_string, items_of}
use aimee_module_economizer.Repair.IdSet.{IdSet, new_id_set, add}

abbrev string_of : Option Value → Option Bytes
string_of (some (string s)) = some s
string_of _ = none

-- `none` where the field is absent or no string
unfoldable pub string_field : Value → Bytes → Option Bytes
string_field v key = string_of (get v key)

unfoldable pub add_field : Bytes → IdSet → Value → IdSet
add_field key ids v = elim (string_field v key) [ none ↦ ids | some id ↦ add ids id ]

-- The loops over `tool_calls` and over the blocks of `content`, which add one field of each item
-- of a type; `tool_calls` items are of any type.
unfoldable pub add_fields : Bytes → IdSet → List Value → IdSet
add_fields key ids [] = ids
add_fields key ids (v ∷ vs) = add_fields key (add_field key ids v) vs

unfoldable pub add_block : Bytes → Bytes → IdSet → Value → IdSet
add_block type key ids b =
    if eq_bytes (get_string b (codes "type")) type then add_field key ids b else ids

unfoldable pub add_blocks : Bytes → Bytes → IdSet → List Value → IdSet
add_blocks type key ids [] = ids
add_blocks type key ids (b ∷ bs) = add_blocks type key (add_block type key ids b) bs

unfoldable pub collect_calls_of : IdSet → Value → IdSet
collect_calls_of ids msg =
    let carried =
      if eq_bytes (get_string msg (codes "role")) (codes "assistant")
      then add_blocks (codes "tool_use") (codes "id")
          (add_fields (codes "id") ids (items_of (get msg (codes "tool_calls"))))
          (items_of (get msg (codes "content")))
      else ids in
    if eq_bytes (get_string msg (codes "type")) (codes "function_call")
    then add_field (codes "call_id") carried msg
    else carried

unfoldable pub collect_calls_onto : IdSet → List Value → IdSet
collect_calls_onto ids [] = ids
collect_calls_onto ids (msg ∷ msgs) = collect_calls_onto (collect_calls_of ids msg) msgs

unfoldable pub collect_tool_call_ids : List Value → IdSet
collect_tool_call_ids msgs = collect_calls_onto new_id_set msgs

unfoldable pub collect_results_of : IdSet → Value → IdSet
collect_results_of ids msg =
    let role = get_string msg (codes "role") in
    let carried =
      if eq_bytes role (codes "tool")
      then add_field (codes "tool_call_id") ids msg
      else if eq_bytes role (codes "user")
      then add_blocks (codes "tool_result") (codes "tool_use_id") ids
          (items_of (get msg (codes "content")))
      else ids in
    if eq_bytes (get_string msg (codes "type")) (codes "function_call_output")
    then add_field (codes "call_id") carried msg
    else carried

unfoldable pub collect_results_onto : IdSet → List Value → IdSet
collect_results_onto ids [] = ids
collect_results_onto ids (msg ∷ msgs) = collect_results_onto (collect_results_of ids msg) msgs

unfoldable pub collect_tool_result_ids : List Value → IdSet
collect_tool_result_ids msgs = collect_results_onto new_id_set msgs

pub data Format : Type 0 where
  openai anthropic responses : Format

abbrev is_type : Bytes → Value → Bool
is_type type v = eq_bytes (get_string v (codes "type")) type

unfoldable pub detect_format : List Value → Format
detect_format [] = openai
detect_format (msg ∷ msgs) =
    let rest = detect_format msgs in
    if is_type (codes "function_call") msg || is_type (codes "function_call_output") msg
    then responses
    else if eq_bytes (get_string msg (codes "role")) []
    then rest
    else if eq_bytes (get_string msg (codes "role")) (codes "assistant")
        && any (is_type (codes "tool_use")) (items_of (get msg (codes "content")))
    then anthropic
    else if eq_bytes (get_string msg (codes "role")) (codes "tool")
    then openai
    else rest
