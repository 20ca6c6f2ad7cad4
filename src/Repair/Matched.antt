-- ===== src/Repair/Matched.antt =====
-- The results of a repaired transcript and their calls, in the wire shape that was found
-- (server-go/modules/economizer/repair.go).
use aimee_module_economizer.Repair.Sanitize.{detect_format-sanitize}
use aimee_module_economizer.Repair.IdSet.{has}
use aimee_module_economizer.Repair.Again.{sanitized-IsPlain, sanitized}
use aimee_module_economizer.Repair.Strategy.{has-collect_calls}
use aimee_module_economizer.Repair.Empty.{no_ids-is_answered, no_ids}
use aimee_module_economizer.Repair.Blocks.{answers-user, blocks_of, block_answers}
use aimee_module_economizer.Repair.History.{message_history_repair, repair_messages}
use aimee_module_economizer.Repair.Theorems.{
  repaired, transcript-repair, repair_messages_none, transcript, clean_as,
}
use aimee_module_economizer.Repair.Pairing.{IsPlain}
use aimee_module_economizer.Repair.Scan.{
  type_is, is_called, role_is, is_answered, field_is, answers,
}
use aimee_module_economizer.Repair.Anthropic.Dropping.{no_orphan_block, clean_message}
use aimee_module_economizer.Repair.Orphans.{
  takes_blocks, orphan_responses, orphan_openai, orphan_block, unmatched,
}
use aimee_module_economizer.Repair.Collect.{
  string_field, responses, openai, anthropic, detect_format, collect_tool_call_ids, Format,
}
use aimee_module_economizer.Json.{array, to_list, Items, Value}
use aimee_module_economizer.Prelude.{
  ◌≡◌, sym, ap, ◌∙◌, subst, inl, inr, Bool, true, false, List, [], ◌∷◌, arith, Bytes, codes,
  eq_bytes_iff, All, any, all, Bool-cases, Option-cases,
}

-- A result of the message's wire shape names a call of the transcript.
abbrev pub HasCall : Format → List Value → Value → Type 0
HasCall openai ms m =
    (id : Bytes)
    → role_is (codes "tool") m ≡ true
    → field_is (codes "tool_call_id") id m ≡ true
    → is_called id ms ≡ true
HasCall anthropic ms m =
    takes_blocks m ≡ true
    → All (λ b. (id : Bytes) → block_answers id b ≡ true → is_called id ms ≡ true) (blocks_of m)
HasCall responses ms m =
    (id : Bytes)
    → type_is (codes "function_call_output") m ≡ true
    → field_is (codes "call_id") id m ≡ true
    → is_called id ms ≡ true

abbrev pub IsMatched : Format → List Value → Type 0
IsMatched f ms = All (HasCall f ms) ms

All-of-any :
    (p : Value → Bool) (P : Value → Type 0)
    → ((v : Value) → p v ≡ false → P v)
    → (vs : List Value) → any p vs ≡ false
    → All P vs
All-of-any p P h [] e = tt
All-of-any p P h (v ∷ vs) e = (h v (ground arith), All-of-any p P h vs (ground arith))

All-of-all :
    (p : Value → Bool) (P : Value → Type 0)
    → ((v : Value) → p v ≡ true → P v)
    → (vs : List Value) → all p vs ≡ true
    → All P vs
All-of-all p P h [] e = tt
All-of-all p P h (v ∷ vs) e = (h v (ground arith), All-of-all p P h vs (ground arith))

-- A field that is not unmatched names a call.
called_of_matched :
    (ms : List Value) (key id : Bytes) (v : Value)
    → unmatched (collect_tool_call_ids ms) key v ≡ false
    → field_is key id v ≡ true
    → is_called id ms ≡ true
unfolding unmatched field_is
called_of_matched ms key id v u f = elim (Option-cases (string_field v key)) [
  | inl e ↦ cc (rw (e, field_is) at f)
  | inr (s, e) ↦
      sym (has-collect_calls ms id)
      ∙ ap (has (collect_tool_call_ids ms)) (sym ((eq_bytes_iff s id).0 (rw (e, field_is) at f)))
      ∙ ground (arith, rw (e, unmatched) at u)
]

module _ (ms : List Value) where
  openai-HasCall :
      (m : Value) → orphan_openai (collect_tool_call_ids ms) m ≡ false → HasCall openai ms m
  unfolding orphan_openai
  openai-HasCall m o id r f = called_of_matched ms (codes "tool_call_id") id m (ground arith) f

  responses-HasCall :
      (m : Value) → orphan_responses (collect_tool_call_ids ms) m ≡ false → HasCall responses ms m
  unfolding orphan_responses
  responses-HasCall m o id r f = called_of_matched ms (codes "call_id") id m (ground arith) f

  block-called :
      (b : Value)
      → orphan_block (collect_tool_call_ids ms) b ≡ false
      → (id : Bytes) → block_answers id b ≡ true
      → is_called id ms ≡ true
  unfolding orphan_block
  block-called b o id f =
      called_of_matched ms (codes "tool_use_id") id b (ground arith) (ground arith)

  anthropic-HasCall :
      (m : Value) → clean_message (collect_tool_call_ids ms) m ≡ true → HasCall anthropic ms m
  unfolding clean_message
  anthropic-HasCall m c t =
      All-of-any (orphan_block (collect_tool_call_ids ms))
        (λ b. (id : Bytes) → block_answers id b ≡ true → is_called id ms ≡ true) block-called
        (blocks_of m) (ground arith)

  IsMatched-of_clean :
      (f : Format) → clean_as f (collect_tool_call_ids ms) ms ≡ true → IsMatched f ms
  unfolding no_orphan_block
  IsMatched-of_clean openai c =
      All-of-any (orphan_openai (collect_tool_call_ids ms)) (HasCall openai ms) openai-HasCall ms
        (ground arith)
  IsMatched-of_clean anthropic c =
      All-of-all (clean_message (collect_tool_call_ids ms)) (HasCall anthropic ms) anthropic-HasCall
        ms c
  IsMatched-of_clean responses c =
      All-of-any (orphan_responses (collect_tool_call_ids ms)) (HasCall responses ms)
        responses-HasCall ms (ground arith)

  -- The message answers nothing.
  abbrev Silent : Value → Type 0
  Silent m = (id : Bytes) → answers id m ≡ false

  block-Silent :
      (m : Value)
      → takes_blocks m ≡ true
      → Silent m
      → All (λ b. (id : Bytes) → block_answers id b ≡ true → is_called id ms ≡ true) (blocks_of m)
  block-Silent m t s = go (blocks_of m) (λ id. ground (arith, answers-user id m t, s id))
    where
      go :
          (bs : List Value)
          → ((id : Bytes) → any (block_answers id) bs ≡ false)
          → All (λ b. (id : Bytes) → block_answers id b ≡ true → is_called id ms ≡ true) bs
      go [] h = tt
      go (b ∷ bs) h = (λ id e. ground (arith, h id), go bs (λ id. ground (arith, h id)))

  Silent-HasCall : (f : Format) (m : Value) → Silent m → HasCall f ms m
  unfolding answers
  Silent-HasCall openai m s = λ id r f. ground (arith, s id)
  Silent-HasCall anthropic m s = λ t. block-Silent m t s
  Silent-HasCall responses m s = λ id r f. ground (arith, s id)

  silent-All :
      (f : Format) (vs : List Value)
      → ((id : Bytes) → is_answered id vs ≡ false)
      → All (HasCall f ms) vs
  silent-All f [] h = tt
  silent-All f (v ∷ vs) h = (
    Silent-HasCall f v (λ id. ground (arith, h id)),
    silent-All f vs (λ id. ground (arith, h id)),
  )

module _ (is_json : Bytes → Bool) where
  repair_messages-IsMatched :
      (ms : List Value) → IsPlain ms → IsMatched (detect_format ms) (repair_messages is_json ms).0
  repair_messages-IsMatched ms p = elim (Bool-cases (no_ids ms)) [
    | inl h ↦
        rw (repair_messages_none is_json ms h)
          (silent-All ms (detect_format ms) ms (no_ids-is_answered ms h))
    | inr h ↦
        IsMatched-of_clean (repair_messages is_json ms).0 (detect_format ms)
          (repaired is_json ms p h).cleaned
  ]

  -- Behind `MessageHistoryRepair` each result, of the wire shape that `detectFormat` finds, names a
  -- call of the transcript. The Responses items of the transcript carry no role.
  pub repair-IsMatched :
      (vs : Items)
      → IsPlain (to_list vs)
      → IsMatched
          (detect_format (to_list vs))
          (transcript is_json (message_history_repair is_json (array vs)))
  repair-IsMatched vs p = rw (transcript-repair is_json vs) (
      subst (λ f. IsMatched f (repair_messages is_json (sanitized is_json (to_list vs))).0)
        (detect_format-sanitize is_json (to_list vs))
        (repair_messages-IsMatched (sanitized is_json (to_list vs))
          (sanitized-IsPlain is_json (to_list vs) p)))
