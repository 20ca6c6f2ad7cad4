-- ===== src/Repair/Orphans.antt =====
-- `repairOrphansOpenAI`, `repairOrphansAnthropic` and `repairOrphansResponses` of
-- server-go/modules/economizer/repair.go. Each runs a loop over the call ids that places a
-- synthetic result for each id without one, and then a loop from the last message to the first
-- that drops the results without a call. Both loops have one shape in the three functions.
use aimee_module_economizer.Prelude.{
  ℕ, suc, ◌+◌, Bool, true, false, not, ◌&&◌, List, [], ◌∷◌, ◌++◌, Option, none, some, Bytes, codes,
  eq_bytes, if◌then◌else◌, any, drop,
}
use aimee_module_economizer.Json.{
  Value, string, array, object, end, of_list, get, get_string, set, update, append, insert_at,
  is_array, items_of,
}
use aimee_module_economizer.Repair.IdSet.{IdSet, has}
use aimee_module_economizer.Repair.Collect.{string_field}
use mathlib.Core.Option

-- `cancelMsg`
abbrev pub cancel_msg : Bytes
cancel_msg = codes "[Tool call was cancelled or timed out]"

abbrev pub object_of : Value
object_of = object end

-- The first loop: `place id` adds the synthetic result for `id` to the transcript.
unfoldable pub place_missing :
    (Bytes → List Value → List Value) → IdSet → List Bytes → List Value → List Value × ℕ
place_missing place results [] msgs = (msgs, 0)
place_missing place results (id ∷ ids) msgs =
    let present = has results id in
    let (placed, repairs) =
      place_missing place results ids (if present then msgs else place id msgs) in
    (placed, if present then repairs else repairs + 1)

-- The second loop, from the last message to the first.
unfoldable pub drop_where : (Value → Bool) → List Value → List Value × ℕ
drop_where orphan [] = ([], 0)
drop_where orphan (v ∷ vs) =
    let (kept, repairs) = drop_where orphan vs in
    if orphan v then (kept, repairs + 1) else (v ∷ kept, repairs)

-- The field is a string and no call has it for its id.
unfoldable pub unmatched : IdSet → Bytes → Value → Bool
unmatched calls key v = elim (string_field v key) [ none ↦ false | some id ↦ not (has calls id) ]

abbrev has_role : Bytes → Value → Bool
has_role role v = eq_bytes (get_string v (codes "role")) role

abbrev has_type : Bytes → Value → Bool
has_type type v = eq_bytes (get_string v (codes "type")) type

-- OpenAI: the synthetic `role=tool` message.
unfoldable pub tool_msg : Bytes → Value
tool_msg id =
    set
      (set (set object_of (codes "role") (string (codes "tool"))) (codes "tool_call_id")
        (string id))
      (codes "content") (string cancel_msg)

-- The message is an assistant's that issued the call.
unfoldable pub issued_openai : Bytes → Value → Bool
issued_openai id msg =
    has_role (codes "assistant") msg
    && any (λ tc. eq_bytes (get_string tc (codes "id")) id)
        (items_of (get msg (codes "tool_calls")))

-- `insertAt` after the first search: behind the first message that issued the call
unfoldable pub find_issuer : Bytes → List Value → Option ℕ
find_issuer id [] = none
find_issuer id (m ∷ ms) = if issued_openai id m then some 1 else Option.map suc (find_issuer id ms)

-- How many results stand at the head of the list.
unfoldable pub leading_tools : List Value → ℕ
leading_tools [] = 0
leading_tools (m ∷ ms) = if has_role (codes "tool") m then suc (leading_tools ms) else 0

unfoldable pub place_openai : Bytes → List Value → List Value
place_openai id msgs = elim (find_issuer id msgs) [
  | none ↦ msgs ++ tool_msg id ∷ []
  | some at ↦ insert_at msgs (at + leading_tools (drop at msgs)) (tool_msg id)
]

unfoldable pub orphan_openai : IdSet → Value → Bool
orphan_openai calls msg = has_role (codes "tool") msg && unmatched calls (codes "tool_call_id") msg

-- One loop behind the other, with their repairs added up.
abbrev pub then_drop : (List Value → List Value × ℕ) → List Value × ℕ → List Value × ℕ
then_drop dropping (msgs, repairs) =
    let (kept, dropped) = dropping msgs in (kept, repairs + dropped)

unfoldable pub repair_orphans_openai : List Value → IdSet → IdSet → List Value × ℕ
repair_orphans_openai msgs calls results =
    then_drop (drop_where (orphan_openai calls))
      (place_missing place_openai results calls.order msgs)

-- Anthropic: the synthetic `tool_result` block.
unfoldable pub tool_result : Bytes → Value
tool_result id =
    set
      (set (set object_of (codes "type") (string (codes "tool_result"))) (codes "tool_use_id")
        (string id))
      (codes "content") (string cancel_msg)

unfoldable pub issued_anthropic : Bytes → Value → Bool
issued_anthropic id msg =
    has_role (codes "assistant") msg
    && any (λ b. has_type (codes "tool_use") b && eq_bytes (get_string b (codes "id")) id)
        (items_of (get msg (codes "content")))

-- a user message whose content is an array
unfoldable pub takes_blocks : Value → Bool
takes_blocks msg = has_role (codes "user") msg && is_array (get msg (codes "content"))

-- The flag is `foundCall`; `none` if no target user message stands behind the call.
unfoldable pub append_result : Bool → Bytes → List Value → Option (List Value)
append_result found id [] = none
append_result false id (m ∷ ms) = Option.map (◌∷◌ m) (append_result (issued_anthropic id m) id ms)
append_result true id (m ∷ ms) =
    if takes_blocks m
    then some (update m (codes "content") (λ c. append c (tool_result id)) ∷ ms)
    else Option.map (◌∷◌ m) (append_result true id ms)

unfoldable pub user_msg : Bytes → Value
user_msg id =
    set (set object_of (codes "role") (string (codes "user"))) (codes "content")
      (array (of_list (tool_result id ∷ [])))

unfoldable pub place_anthropic : Bytes → List Value → List Value
place_anthropic id msgs = elim (append_result false id msgs) [
  | none ↦ msgs ++ user_msg id ∷ []
  | some placed ↦ placed
]

unfoldable pub orphan_block : IdSet → Value → Bool
orphan_block calls b = has_type (codes "tool_result") b && unmatched calls (codes "tool_use_id") b

abbrev pub with_content : Value → List Value → Value
with_content msg blocks = update msg (codes "content") (λ _. array (of_list blocks))

-- A user message that keeps no block is removed, which is not counted.
unfoldable pub keep_blocks : Value → List Value → List Value → List Value
keep_blocks msg [] rest = rest
keep_blocks msg (b ∷ bs) rest = with_content msg (b ∷ bs) ∷ rest

unfoldable pub drop_blocks : IdSet → List Value → List Value × ℕ
drop_blocks calls [] = ([], 0)
drop_blocks calls (m ∷ ms) =
    let (rest, repairs) = drop_blocks calls ms in
    let (kept, dropped) = drop_where (orphan_block calls) (items_of (get m (codes "content"))) in
    if takes_blocks m then (keep_blocks m kept rest, repairs + dropped) else (m ∷ rest, repairs)

unfoldable pub repair_orphans_anthropic : List Value → IdSet → IdSet → List Value × ℕ
repair_orphans_anthropic msgs calls results =
    then_drop (drop_blocks calls) (place_missing place_anthropic results calls.order msgs)

-- Responses API: the synthetic `function_call_output` item.
unfoldable pub call_output : Bytes → Value
call_output id =
    set
      (set (set object_of (codes "type") (string (codes "function_call_output"))) (codes "call_id")
        (string id))
      (codes "output") (string cancel_msg)

unfoldable pub place_responses : Bytes → List Value → List Value
place_responses id msgs = msgs ++ call_output id ∷ []

unfoldable pub orphan_responses : IdSet → Value → Bool
orphan_responses calls msg =
    has_type (codes "function_call_output") msg && unmatched calls (codes "call_id") msg

unfoldable pub repair_orphans_responses : List Value → IdSet → IdSet → List Value × ℕ
repair_orphans_responses msgs calls results =
    then_drop (drop_where (orphan_responses calls))
      (place_missing place_responses results calls.order msgs)
