-- ===== src/Fold/Skeleton.antt =====
-- `skeletonMessage` of server-go/modules/economizer/fold.go. The string builder and the set of
-- coordinates, which it writes to, are passed from one line to the next.
use aimee_module_economizer.Prelude.{
  ℕ, suc, Bool, true, false, ◌&&◌, Option, none, some, List, [], ◌∷◌, ◌++◌, if◌then◌else◌, Bytes,
  codes, eq_bytes, length,
}
use aimee_module_economizer.Json.{Value, string, array, to_list, get, get_string, items_of}
use aimee_module_economizer.Fold.{Closet}
use aimee_module_economizer.Json.Print.{print_json, text}
use aimee_module_economizer.Fold.Excerpt.{append_excerpt, skeleton_prefix, decimal}

module _ (closet : Closet) where
  abbrev pub Out : Type 0
  Out = Bytes × closet.CoordSet

  write : Bytes → Out → Out
  write bytes out = (out.0 ++ bytes, out.1)

  nominate : Bytes → ℕ → Out → Out
  nominate raw turn out = (out.0, closet.nominate_into raw turn out.1)

  call_line : Bytes → Bytes → ℕ → Bytes
  call_line name args excerpt =
      codes "  $ "
      ++ (if eq_bytes name [] then codes "tool" else name)
      ++ b' ' ∷ append_excerpt args excerpt
      ++ b'\n' ∷ []

  result_line : Bytes → ℕ → Bytes
  result_line body excerpt =
      codes "    "
      ++ 0xe2 ∷ 0x86 ∷ 0x92 ∷ b' ' ∷ append_excerpt body excerpt
      ++ codes " ("
      ++ decimal (length body)
      ++ codes " bytes)"
      ++ b'\n' ∷ []

  text_line : Bytes → Bytes → ℕ → ℕ → Bool → Out → Out
  unfolding write nominate
  text_line role txt turn excerpt register_on out =
      write (skeleton_prefix role txt register_on ++ append_excerpt txt excerpt ++ b'\n' ∷ [])
        (nominate txt turn out)

  result_text : Option Bytes → ℕ → ℕ → Out → Out
  unfolding write nominate result_line
  result_text none turn excerpt out = out
  result_text (some body) turn excerpt out =
      write (result_line body excerpt) (nominate body turn out)

  -- the input of a `tool_use` block, serialized
  use_line : Bytes → Option Value → ℕ → ℕ → Out → Out
  unfolding write nominate call_line
  use_line name none turn excerpt out = write (call_line name [] excerpt) out
  use_line name (some input) turn excerpt out =
      write (call_line name (print_json closet.cjson_number input) excerpt)
        (nominate (print_json closet.cjson_number input) turn out)

  -- a call whose arguments are a JSON string
  argument_line : Bytes → Bytes → ℕ → ℕ → Out → Out
  unfolding write nominate call_line
  argument_line name args turn excerpt out =
      write (call_line name args excerpt) (if eq_bytes args [] then out else nominate args turn out)

  is_none : Option Value → Bool
  is_none none = true
  is_none (some v) = false

  -- one block of an Anthropic content array
  skeleton_block : Bytes → ℕ → ℕ → Bool → Value → Out → Out
  unfolding text_line result_text use_line is_none
  skeleton_block role turn excerpt register_on blk out =
      let kind = get_string blk (codes "type") in
      if eq_bytes kind (codes "text")
      then (let txt = get_string blk (codes "text") in
          if eq_bytes txt [] && is_none (get blk (codes "text"))
          then out
          else text_line role txt turn excerpt register_on out)
      else if eq_bytes kind (codes "tool_use")
      then use_line (get_string blk (codes "name")) (get blk (codes "input")) turn excerpt out
      else if eq_bytes kind (codes "tool_result")
      then result_text (text closet.cjson_number (get blk (codes "content"))) turn excerpt out
      else out

  skeleton_blocks : Bytes → ℕ → ℕ → Bool → List Value → Out → Out
  unfolding skeleton_block
  skeleton_blocks role turn excerpt register_on [] out = out
  skeleton_blocks role turn excerpt register_on (blk ∷ blks) out =
      skeleton_blocks role turn excerpt register_on blks
        (skeleton_block role turn excerpt register_on blk out)

  -- the string content, or the content blocks
  skeleton_content : Bytes → Option Value → ℕ → ℕ → Bool → Out → Out
  unfolding text_line skeleton_blocks
  skeleton_content role (some (string txt)) turn excerpt register_on out =
      text_line role txt turn excerpt register_on out
  skeleton_content role (some (array blks)) turn excerpt register_on out =
      skeleton_blocks role turn excerpt register_on (to_list blks) out
  skeleton_content role _ turn excerpt register_on out = out

  string_of : Option Value → Bytes → Bytes
  string_of none key = []
  string_of (some v) key = get_string v key

  -- the calls of an OpenAI assistant
  skeleton_calls : ℕ → ℕ → List Value → Out → Out
  unfolding argument_line string_of
  skeleton_calls turn excerpt [] out = out
  skeleton_calls turn excerpt (tc ∷ tcs) out =
      let fn = get tc (codes "function") in
      skeleton_calls turn excerpt tcs (
        argument_line (string_of fn (codes "name")) (string_of fn (codes "arguments")) turn excerpt
          out)

  -- a top-level item of the Responses shape
  skeleton_item : Value → ℕ → ℕ → Out → Out
  unfolding argument_line result_text
  skeleton_item m turn excerpt out =
      let kind = get_string m (codes "type") in
      if eq_bytes kind (codes "function_call")
      then argument_line (get_string m (codes "name")) (get_string m (codes "arguments")) turn
          excerpt out
      else if eq_bytes kind (codes "function_call_output")
      then result_text (text closet.cjson_number (get m (codes "output"))) turn excerpt out
      else out

  -- `skeletonMessage`
  unfoldable pub skeleton_message : Value → ℕ → ℕ → Bool → Out → Out
  unfolding skeleton_content skeleton_calls skeleton_item
  skeleton_message m turn excerpt register_on out =
      let shown =
        skeleton_content (get_string m (codes "role")) (get m (codes "content")) turn excerpt
          register_on out in
      let called = skeleton_calls turn excerpt (items_of (get m (codes "tool_calls"))) shown in
      skeleton_item m turn excerpt called

  -- the loop of `FoldView` over the folded messages, from a turn on
  unfoldable pub skeleton_messages : List Value → ℕ → ℕ → Bool → Out → Out
  skeleton_messages [] turn excerpt register_on out = out
  skeleton_messages (m ∷ ms) turn excerpt register_on out =
      skeleton_messages ms (suc turn) excerpt register_on
        (skeleton_message m turn excerpt register_on out)
