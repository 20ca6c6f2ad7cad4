-- ===== src/Repair/History.antt =====
-- `SanitizeAssistantToolArguments` and `MessageHistoryRepair` of
-- server-go/modules/economizer/repair.go. `encoding/json` is the parameter `is_json`: whether
-- `ParseJSON` reads a value at the head of a text.
use aimee_module_economizer.Prelude.{
  ℕ, Bool, false, ◌&&◌, List, Option, some, Bytes, codes, eq_bytes, if◌then◌else◌, map,
}
use aimee_module_economizer.Json.{
  Value, string, array, to_list, of_list, get, get_string, set, delete, update,
}
use aimee_module_economizer.Repair.IdSet.{IdSet, empty}
use aimee_module_economizer.Repair.Collect.{
  Format, openai, anthropic, responses, collect_tool_call_ids, collect_tool_result_ids,
  detect_format,
}
use aimee_module_economizer.Repair.Orphans.{
  repair_orphans_openai, repair_orphans_anthropic, repair_orphans_responses,
}

-- `f` on each item, where the value is an array
abbrev pub map_items : (Value → Value) → Value → Value
map_items f (array vs) = array (of_list (map f (to_list vs)))
map_items f v = v

module _ (is_json : Bytes → Bool) where
  abbrev pub parses : Option Value → Bool
  parses (some (string s)) = is_json s
  parses _ = false

  unfoldable pub sanitize_function : Value → Value
  sanitize_function fn =
      if parses (get fn (codes "arguments"))
      then fn
      else set (delete fn (codes "arguments")) (codes "arguments") (string (codes "{}"))

  unfoldable pub sanitize_assistant_tool_arguments : Value → Value
  sanitize_assistant_tool_arguments msg =
      update msg (codes "tool_calls")
        (map_items (λ tc. update tc (codes "function") sanitize_function))

  unfoldable pub sanitize_message : Value → Value
  sanitize_message msg =
      if eq_bytes (get_string msg (codes "role")) (codes "assistant")
      then sanitize_assistant_tool_arguments msg
      else msg

  unfoldable pub repair_as : Format → List Value → IdSet → IdSet → List Value × ℕ
  repair_as openai = repair_orphans_openai
  repair_as anthropic = repair_orphans_anthropic
  repair_as responses = repair_orphans_responses

  -- the transcript behind the early returns, with its sanitized messages
  unfoldable pub repair_messages : List Value → List Value × ℕ
  repair_messages msgs =
      let calls = collect_tool_call_ids msgs in
      let results = collect_tool_result_ids msgs in
      if empty calls && empty results
      then (msgs, 0)
      else repair_as (detect_format msgs) msgs calls results

  abbrev rebuild : List Value × ℕ → Value × ℕ
  rebuild (msgs, repairs) = (array (of_list msgs), repairs)

  unfoldable pub message_history_repair : Value → Value × ℕ
  message_history_repair (array vs) = rebuild (repair_messages (map sanitize_message (to_list vs)))
  message_history_repair v = (v, 0)
