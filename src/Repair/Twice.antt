-- ===== src/Repair/Twice.antt =====
-- A second `MessageHistoryRepair` of a transcript (server-go/modules/economizer/repair.go).
use aimee_module_economizer.Prelude.{
  ℕ, Bool, true, List, ◌≡◌, ap, ◌∙◌, sym, subst, Bytes, Bool-cases, inl, inr, fun_ext,
}
use aimee_module_economizer.Json.{Value, Items, array, to_list}
use aimee_module_economizer.Json.Laws.{to_list-of_list}
use aimee_module_economizer.Repair.IdSet.{has}
use aimee_module_economizer.Repair.Collect.{Format, detect_format, collect_tool_call_ids}
use aimee_module_economizer.Repair.Pairing.{IsPlain, IsAnswered}
use aimee_module_economizer.Repair.History.{repair_messages, message_history_repair}
use aimee_module_economizer.Repair.Strategy.{has-collect_calls, repair_with_none}
use aimee_module_economizer.Repair.Empty.{
  no_ids, no_ids-is_called, no_ids-is_answered, no_ids_of_none,
}
use aimee_module_economizer.Repair.Again.{
  sanitized, is_called-sanitized, is_answered-sanitized, sanitized-IsPlain, sanitized-IsAnswered,
}
use aimee_module_economizer.Repair.Sanitize.{detect_format-sanitize}
use aimee_module_economizer.Repair.Theorems.{
  place_as, drop_as, clean_as, IsStrategy-as, repair_messages_ids, repair_messages_none, repaired,
  transcript, transcript-repair, clean-sanitized,
}

module _ (is_json : Bytes → Bool) where
  -- an answered and clean transcript
  repair_messages_zero :
      (ms : List Value)
      → IsAnswered ms
      → clean_as (detect_format ms) (collect_tool_call_ids ms) ms ≡ true
      → repair_messages is_json ms ≡ (ms, 0)
  repair_messages_zero ms a c = elim (Bool-cases (no_ids ms)) [
    | inl h ↦ repair_messages_none is_json ms h
    | inr h ↦
        let f = detect_format ms in
        repair_messages_ids is_json ms h
        ∙ repair_with_none (place_as f) (drop_as f) (clean_as f) (IsStrategy-as f) ms a c
  ]

  has-sanitized :
      (ms : List Value)
      → has (collect_tool_call_ids (sanitized is_json ms)) ≡ has (collect_tool_call_ids ms)
  has-sanitized ms = fun_ext (λ j.
      has-collect_calls (sanitized is_json ms) j
      ∙ is_called-sanitized is_json j ms
      ∙ sym (has-collect_calls ms j))

  -- sanitizing keeps a transcript clean
  clean-again :
      (f : Format) (ms : List Value)
      → detect_format ms ≡ f
      → clean_as f (collect_tool_call_ids ms) ms ≡ true
      → let t = sanitized is_json ms in
        clean_as (detect_format t) (collect_tool_call_ids t) t ≡ true
  clean-again f ms e c =
      let t = sanitized is_json ms in
      subst (λ g. clean_as g (collect_tool_call_ids t) t ≡ true)
        (sym (detect_format-sanitize is_json ms ∙ e))
        ((IsStrategy-as f).ext (collect_tool_call_ids t) (collect_tool_call_ids ms) t
            (has-sanitized ms)
          ∙ clean-sanitized is_json f (collect_tool_call_ids ms) ms
          ∙ c)

  repair_messages_twice :
      (ms : List Value)
      → IsPlain ms
      → detect_format (repair_messages is_json ms).0 ≡ detect_format ms
      → let t = sanitized is_json (repair_messages is_json ms).0 in
        repair_messages is_json t ≡ (t, 0)
  repair_messages_twice ms p e = elim (Bool-cases (no_ids ms)) [
    | inl h ↦ rw (repair_messages_none is_json ms h) (
        repair_messages_none is_json (sanitized is_json ms) (
          no_ids_of_none (sanitized is_json ms)
            (λ j. is_called-sanitized is_json j ms ∙ no_ids-is_called ms h j)
            (λ j. is_answered-sanitized is_json j ms ∙ no_ids-is_answered ms h j)))
    | inr h ↦
        let r = repaired is_json ms p h in
        repair_messages_zero (sanitized is_json (repair_messages is_json ms).0)
          (sanitized-IsAnswered is_json (repair_messages is_json ms).0 r.answered)
          (clean-again (detect_format ms) (repair_messages is_json ms).0 e r.cleaned)
  ]

  -- A repaired transcript needs no further repair, if the first repair leaves the wire shape that
  -- `detectFormat` finds as it was. The Responses items of the transcript carry no role.
  pub repair-repair :
      (vs : Items)
      → IsPlain (to_list vs)
      → detect_format (transcript is_json (message_history_repair is_json (array vs)))
        ≡ detect_format (to_list vs)
      → (message_history_repair is_json (message_history_repair is_json (array vs)).0).1 ≡ 0
  unfolding message_history_repair
  repair-repair vs p e =
      let ms = sanitized is_json (to_list vs) in
      rw (to_list-of_list (repair_messages is_json ms).0) (
        ap (λ (r : List Value × ℕ). r.1)
          (repair_messages_twice ms (sanitized-IsPlain is_json (to_list vs) p) (
            ap detect_format (sym (transcript-repair is_json vs))
            ∙ e
            ∙ sym (detect_format-sanitize is_json (to_list vs)))))
