-- ===== src/Repair/Tests.antt =====
-- Transcripts in the shapes that server-go/modules/economizer/repair_test.go uses, and the
-- theorems at them.
use aimee_module_economizer.Repair.Matched.{repair-IsMatched, IsMatched}
use aimee_module_economizer.Repair.Zero.{repair_zero}
use aimee_module_economizer.Repair.Scan.{is_called}
use aimee_module_economizer.Repair.Twice.{repair-repair}
use aimee_module_economizer.Repair.Theorems.{repair-IsAnswered, transcript}
use aimee_module_economizer.Repair.Sanitize.{sanitize_message-HasArguments, HasArguments}
use aimee_module_economizer.Repair.Pairing.{IsPlain, is_plain, IsAnswered}
use aimee_module_economizer.Prelude.{All, true, ℕ, Bool, ◌≡◌, refl, Bytes, codes, eq_bytes}
use aimee_module_economizer.Json.{
  to_list, Value, Items, string, array, object, nil, cons, end, field, get, get_string, set, update,
}
use aimee_module_economizer.Repair.Collect.{
  detect_format, string_field, collect_tool_call_ids, collect_tool_result_ids, collect_calls_onto,
  collect_results_onto, collect_calls_of, collect_results_of, add_field, add_fields, add_block,
  add_blocks,
}
use aimee_module_economizer.Repair.IdSet.{has, add, empty, new_id_set}
use aimee_module_economizer.Repair.Orphans.{
  place_missing, drop_where, unmatched, tool_msg, issued_openai, find_issuer, leading_tools,
  place_openai, orphan_openai, repair_orphans_openai,
}
use aimee_module_economizer.Repair.History.{
  message_history_repair, repair_messages, repair_as, sanitize_message,
  sanitize_assistant_tool_arguments, sanitize_function,
}
use aimee_module_economizer.Json.{is_array, get, get_string, items_of, set, update, append}
use aimee_module_economizer.Repair.Orphans.{
  drop_blocks, takes_blocks, orphan_block, keep_blocks, place_anthropic, append_result,
  issued_anthropic, tool_result, user_msg, repair_orphans_anthropic,
}

-- a stand-in for `ParseJSON(text) != nil`
abbrev accepts_braces : Bytes → Bool
accepts_braces text = eq_bytes text (codes "{}")

-- an assistant message with one OpenAI call "a", whose arguments do not parse
abbrev assistant : Value
assistant = object (
    field (codes "role") (string (codes "assistant")) (
      field (codes "tool_calls")
        (array (
          cons
            (object (
              field (codes "id") (string (codes "a")) (
                field (codes "function")
                  (object (field (codes "arguments") (string (codes "{")) end)) end)))
            nil))
        end))

abbrev tool : Bytes → Value
tool id =
    object
      (field (codes "role") (string (codes "tool")) (field (codes "tool_call_id") (string id) end))

-- a call with no result, and a result with no call
abbrev unpaired : Items
unpaired = cons assistant (cons (tool (codes "b")) nil)

abbrev paired : Items
paired = cons assistant (cons (tool (codes "a")) nil)

run : Items → Value × ℕ
unfolding message_history_repair repair_messages sanitize_message sanitize_assistant_tool_arguments
    sanitize_function repair_as repair_orphans_openai repair_orphans_anthropic get get_string
    eq_bytes set update append collect_tool_call_ids collect_tool_result_ids collect_calls_onto
    collect_results_onto collect_calls_of collect_results_of add_field add_fields add_block
    add_blocks string_field has add empty new_id_set detect_format place_missing drop_where
    place_openai find_issuer issued_openai leading_tools tool_msg orphan_openai unmatched
    drop_blocks takes_blocks orphan_block keep_blocks is_array place_anthropic append_result
    issued_anthropic tool_result user_msg
run vs = message_history_repair accepts_braces (array vs)

unpaired_repairs : (message_history_repair accepts_braces (array unpaired)).1 ≡ 2
unfolding run
unpaired_repairs = refl

paired_repairs : (message_history_repair accepts_braces (array paired)).1 ≡ 0
unfolding run
paired_repairs = refl

unpaired-IsPlain : IsPlain (to_list unpaired)
unfolding is_plain get get_string eq_bytes
unpaired-IsPlain = (refl, (refl, tt))

repair-IsAnswered_example :
    IsAnswered (transcript accepts_braces (message_history_repair accepts_braces (array unpaired)))
    × ((j : Bytes)
        → is_called j
            (transcript accepts_braces (message_history_repair accepts_braces (array unpaired)))
          ≡ is_called j (to_list unpaired))
repair-IsAnswered_example = repair-IsAnswered accepts_braces unpaired unpaired-IsPlain

same_format :
    detect_format
      (transcript accepts_braces (message_history_repair accepts_braces (array unpaired)))
    ≡ detect_format (to_list unpaired)
unfolding run
same_format = refl

repair-repair_example :
    (message_history_repair accepts_braces
      (message_history_repair accepts_braces (array unpaired)).0).1
    ≡ 0
repair-repair_example = repair-repair accepts_braces unpaired unpaired-IsPlain same_format

repair_zero_example : IsAnswered (to_list paired)
repair_zero_example = repair_zero accepts_braces paired paired_repairs

braces_parse : accepts_braces (codes "{}") ≡ true
unfolding eq_bytes
braces_parse = refl

is_assistant : eq_bytes (get_string assistant (codes "role")) (codes "assistant") ≡ true
unfolding get get_string eq_bytes
is_assistant = refl

sanitize_message-HasArguments_example :
    All
      (HasArguments accepts_braces)
      (items_of (get (sanitize_message accepts_braces assistant) (codes "tool_calls")))
sanitize_message-HasArguments_example =
    sanitize_message-HasArguments accepts_braces braces_parse assistant is_assistant

abbrev block : Bytes → Bytes → Bytes → Value
block type key id = object (field (codes "type") (string type) (field key (string id) end))

abbrev with_block : Bytes → Value → Value
with_block role b =
    object (field (codes "role") (string role) (field (codes "content") (array (cons b nil)) end))

-- An OpenAI result in front of an Anthropic conversation.
abbrev mixed : Items
mixed = cons (tool (codes "x")) (
    cons (with_block (codes "assistant") (block (codes "tool_use") (codes "id") (codes "a"))) (
      cons
        (with_block (codes "user") (block (codes "tool_result") (codes "tool_use_id") (codes "y")))
        nil))

-- The first repair drops the message by which the shape was found; the second finds another shape
-- and a further orphan.
mixed_repairs :
    ((message_history_repair accepts_braces (array mixed)).1 ≡ 2)
    × ((message_history_repair accepts_braces
          (message_history_repair accepts_braces (array mixed)).0).1
        ≡ 1)
unfolding run
mixed_repairs = (refl, refl)

repair-IsMatched_example :
    IsMatched
      (detect_format (to_list unpaired))
      (transcript accepts_braces (message_history_repair accepts_braces (array unpaired)))
repair-IsMatched_example = repair-IsMatched accepts_braces unpaired unpaired-IsPlain
