-- ===== src/Repair/Zero.antt =====
-- A count of zero from `MessageHistoryRepair` (server-go/modules/economizer/repair.go).
use aimee_module_economizer.Prelude.{
  Bool, true, List, [], ◌∷◌, ◌≡◌, ap, ◌∙◌, sym, arith, Bytes, eq_bytes, eq_bytes_iff, Bool-cases,
  inl, inr,
}
use aimee_module_economizer.Json.{Value, Items, array, to_list}
use aimee_module_economizer.Repair.IdSet.{IdSet, has, is_listed}
use aimee_module_economizer.Repair.Collect.{
  Format, openai, anthropic, responses, detect_format, collect_tool_call_ids,
  collect_tool_result_ids,
}
use aimee_module_economizer.Repair.Pairing.{IsAnswered}
use aimee_module_economizer.Repair.Orphans.{
  place_missing, repair_orphans_openai, repair_orphans_anthropic, repair_orphans_responses,
}
use aimee_module_economizer.Repair.History.{repair_as, repair_messages, message_history_repair}
use aimee_module_economizer.Repair.Strategy.{has-collect_results, is_listed-calls}
use aimee_module_economizer.Repair.Empty.{no_ids, no_ids-is_called}
use aimee_module_economizer.Repair.Again.{sanitized, is_called-sanitized, is_answered-sanitized}
use aimee_module_economizer.Repair.Orphans.{place_openai, place_anthropic, place_responses}
use aimee_module_economizer.Repair.Collect.{openai, anthropic, responses}

module _ (place : Bytes → List Value → List Value) (results : IdSet) where
  -- If nothing was placed, every id has a result.
  place_missing_zero :
      (ids : List Bytes) (ms : List Value)
      → (place_missing place results ids ms).1 ≡ 0
      → (j : Bytes) → is_listed j ids ≡ true
      → has results j ≡ true
  unfolding place_missing
  place_missing_zero [] ms z j l = cc
  place_missing_zero (id ∷ ids) ms z j l = elim (Bool-cases (has results id)) [
    | inl h ↦ elim (Bool-cases (eq_bytes id j)) [
      | inl e ↦ ap (has results) (sym ((eq_bytes_iff id j).0 e)) ∙ h
      | inr e ↦ place_missing_zero ids ms (rw h at z) j (rw e at l)
    ]
    | inr h ↦ absurd (omega (arith, rw h at z))
  ]

IsAnswered-of_placed :
    (place : Bytes → List Value → List Value) (ms : List Value)
    → (place_missing place (collect_tool_result_ids ms) (collect_tool_call_ids ms).order ms).1 ≡ 0
    → IsAnswered ms
IsAnswered-of_placed place ms z j c =
    sym (has-collect_results ms j)
    ∙ place_missing_zero place (collect_tool_result_ids ms) (collect_tool_call_ids ms).order ms z j
        (is_listed-calls ms j ∙ c)

repair_as_zero :
    (is_json : Bytes → Bool) (f : Format) (ms : List Value)
    → (repair_as is_json f ms (collect_tool_call_ids ms) (collect_tool_result_ids ms)).1 ≡ 0
    → IsAnswered ms
unfolding repair_as repair_orphans_openai repair_orphans_anthropic repair_orphans_responses
repair_as_zero is_json openai ms z = IsAnswered-of_placed place_openai ms (omega arith)
repair_as_zero is_json anthropic ms z = IsAnswered-of_placed place_anthropic ms (omega arith)
repair_as_zero is_json responses ms z = IsAnswered-of_placed place_responses ms (omega arith)

repair_messages_zero :
    (is_json : Bytes → Bool) (ms : List Value) → (repair_messages is_json ms).1 ≡ 0 → IsAnswered ms
unfolding repair_messages
repair_messages_zero is_json ms z = elim (Bool-cases (no_ids ms)) [
  | inl h ↦ λ j c. cc (no_ids-is_called ms h j)
  | inr h ↦ repair_as_zero is_json (detect_format ms) ms (rw h at z)
]

-- A transcript that `MessageHistoryRepair` counts no repair for was paired before: each of its
-- tool calls, of any wire shape, has a result.
pub repair_zero :
    (is_json : Bytes → Bool) (vs : Items)
    → (message_history_repair is_json (array vs)).1 ≡ 0
    → IsAnswered (to_list vs)
unfolding message_history_repair
repair_zero is_json vs z j c =
    sym (is_answered-sanitized is_json j (to_list vs))
    ∙ repair_messages_zero is_json (sanitized is_json (to_list vs)) z j
        (is_called-sanitized is_json j (to_list vs) ∙ c)
