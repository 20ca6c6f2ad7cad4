-- ===== src/Repair/Theorems.antt =====
-- `MessageHistoryRepair` of server-go/modules/economizer/repair.go as a whole.
use aimee_module_economizer.Prelude.{
  ℕ, Bool, true, false, List, some, ◌≡◌, refl, ◌∙◌, Bytes, Bool-cases, inl, inr,
}
use aimee_module_economizer.Json.{Value, Items, array, to_list, items_of}
use aimee_module_economizer.Json.Laws.{to_list-of_list}
use aimee_module_economizer.Repair.IdSet.{IdSet}
use aimee_module_economizer.Repair.Collect.{
  Format, openai, anthropic, responses, detect_format, collect_tool_call_ids,
  collect_tool_result_ids,
}
use aimee_module_economizer.Repair.Scan.{is_called}
use aimee_module_economizer.Repair.Pairing.{IsPlain, IsAnswered}
use aimee_module_economizer.Repair.Orphans.{
  place_openai, place_anthropic, place_responses, orphan_openai, orphan_responses, drop_where,
  drop_blocks, repair_orphans_openai, repair_orphans_anthropic, repair_orphans_responses,
}
use aimee_module_economizer.Repair.History.{repair_as, repair_messages, message_history_repair}
use aimee_module_economizer.Repair.Strategy.{
  Drop, IsStrategy, IsRepaired, repair_with, repair_with-IsRepaired, no_orphan,
}
use aimee_module_economizer.Repair.Openai.{openai-IsStrategy}
use aimee_module_economizer.Repair.Responses.{responses-IsStrategy}
use aimee_module_economizer.Repair.Anthropic.{anthropic-IsStrategy}
use aimee_module_economizer.Repair.Anthropic.Dropping.{no_orphan_block}
use aimee_module_economizer.Repair.Empty.{no_ids, no_ids-is_called}
use aimee_module_economizer.Repair.Again.{
  sanitized, is_called-sanitized, sanitized-IsPlain, no_orphan-openai, no_orphan-responses,
  no_orphan_block-sanitized,
}

abbrev pub place_as : Format → Bytes → List Value → List Value
place_as openai = place_openai
place_as anthropic = place_anthropic
place_as responses = place_responses

abbrev pub drop_as : Format → Drop
drop_as openai = λ c. drop_where (orphan_openai c)
drop_as anthropic = drop_blocks
drop_as responses = λ c. drop_where (orphan_responses c)

abbrev pub clean_as : Format → IdSet → List Value → Bool
clean_as openai = no_orphan orphan_openai
clean_as anthropic = no_orphan_block
clean_as responses = no_orphan orphan_responses

pub IsStrategy-as : (f : Format) → IsStrategy (place_as f) (drop_as f) (clean_as f)
IsStrategy-as openai = openai-IsStrategy
IsStrategy-as anthropic = anthropic-IsStrategy
IsStrategy-as responses = responses-IsStrategy

module _ (is_json : Bytes → Bool) where
  repair_as-repair_with :
      (f : Format) (ms : List Value)
      → repair_as is_json f ms (collect_tool_call_ids ms) (collect_tool_result_ids ms)
        ≡ repair_with (place_as f) (drop_as f) (clean_as f) ms
  unfolding repair_as repair_orphans_openai repair_orphans_anthropic repair_orphans_responses
  repair_as-repair_with openai ms = refl
  repair_as-repair_with anthropic ms = refl
  repair_as-repair_with responses ms = refl

  pub repair_messages_ids :
      (ms : List Value)
      → no_ids ms ≡ false
      → repair_messages is_json ms
        ≡ repair_with
            (place_as (detect_format ms))
            (drop_as (detect_format ms))
            (clean_as (detect_format ms))
            ms
  unfolding repair_messages
  repair_messages_ids ms h = rw h (repair_as-repair_with (detect_format ms) ms)

  pub repair_messages_none :
      (ms : List Value) → no_ids ms ≡ true → repair_messages is_json ms ≡ (ms, 0)
  unfolding repair_messages
  repair_messages_none ms h = rw h refl

  pub repaired :
      (ms : List Value)
      → IsPlain ms
      → no_ids ms ≡ false
      → let f = detect_format ms in
        IsRepaired (place_as f) (drop_as f) (clean_as f) ms (repair_messages is_json ms).0
  repaired ms p h =
      let f = detect_format ms in
      rw (repair_messages_ids ms h)
        (repair_with-IsRepaired (place_as f) (drop_as f) (clean_as f) (IsStrategy-as f) ms p)

  repair_messages-IsAnswered :
      (ms : List Value) → IsPlain ms → IsAnswered (repair_messages is_json ms).0
  repair_messages-IsAnswered ms p = elim (Bool-cases (no_ids ms)) [
    | inl h ↦ rw (repair_messages_none ms h) (λ j e. cc (no_ids-is_called ms h j))
    | inr h ↦ (repaired ms p h).answered
  ]

  is_called-repair_messages :
      (ms : List Value)
      → IsPlain ms
      → (j : Bytes) → is_called j (repair_messages is_json ms).0 ≡ is_called j ms
  is_called-repair_messages ms p j = elim (Bool-cases (no_ids ms)) [
    | inl h ↦ rw (repair_messages_none ms h) refl
    | inr h ↦ (repaired ms p h).same_calls j
  ]

  abbrev pub transcript : Value × ℕ → List Value
  transcript (v, repairs) = items_of (some v)

  pub transcript-repair :
      (vs : Items)
      → transcript (message_history_repair is_json (array vs))
        ≡ (repair_messages is_json (sanitized is_json (to_list vs))).0
  unfolding message_history_repair
  transcript-repair vs = to_list-of_list _

  -- Behind `MessageHistoryRepair` every tool call of a transcript, of any of the three wire
  -- shapes, has a result, and the calls are those of the transcript before. The Responses items
  -- of the transcript carry no role.
  pub repair-IsAnswered :
      (vs : Items)
      → IsPlain (to_list vs)
      → IsAnswered (transcript (message_history_repair is_json (array vs)))
        × ((j : Bytes)
            → is_called j (transcript (message_history_repair is_json (array vs)))
              ≡ is_called j (to_list vs))
  repair-IsAnswered vs p =
      let q = sanitized-IsPlain is_json (to_list vs) p in
      rw (transcript-repair vs) (
        repair_messages-IsAnswered (sanitized is_json (to_list vs)) q,
        λ j.
            is_called-repair_messages (sanitized is_json (to_list vs)) q j
            ∙ is_called-sanitized is_json j (to_list vs),
      )

  pub clean-sanitized :
      (f : Format) (c : IdSet) (ms : List Value)
      → clean_as f c (sanitized is_json ms) ≡ clean_as f c ms
  clean-sanitized openai c ms = no_orphan-openai is_json c ms
  clean-sanitized anthropic c ms = no_orphan_block-sanitized is_json c ms
  clean-sanitized responses c ms = no_orphan-responses is_json c ms
