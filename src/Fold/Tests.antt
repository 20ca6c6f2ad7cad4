-- ===== src/Fold/Tests.antt =====
-- A small transcript in the shape of server-go/modules/economizer/fold_test.go and a closet that
-- keeps what it is told, and the theorems at them.
use aimee_module_economizer.Prelude.{
  ℕ, ◌+◌, ◌-◌, ◌≤◌, ◌<◌, ◌≡◌, refl, ◌⊎◌, true, false, some, List, [], ◌∷◌, ◌++◌, map, arith, Bytes,
  codes, eq_bytes, length, All, take, drop,
}
use aimee_module_economizer.Json.{
  number, update, set, Value, string, array, object, end, field, of_list, get, get_string,
  is_string, clone,
}
use aimee_module_economizer.Fold.{evict_none, FoldConfig, FoldFreeze, FoldResult, Closet}
use aimee_module_economizer.Prelude.{get_elem?}
use aimee_module_economizer.Json.Print.{text, print_json, cjson_escape, escape_bytes, escape_byte}
use aimee_module_economizer.Fold.Excerpt.{decimal_digits, is_clean_user_turn, decimal}
use aimee_module_economizer.Fold.Digest.{prefix_digest}
use aimee_module_economizer.Fold.View.{
  committed, too_short, retained_of, cut_at, may_reuse, tail_cap_of, find_split, folded_message,
  ack_message, commit, frozen_boundary, fresh_boundary, boundary, folded_body, build, fold_items,
  fold_view,
}
use aimee_module_economizer.Fold.Boundaries.{IsLast}
use aimee_module_economizer.Fold.Compress.{
  CompactConfig, compress_view, compress_items, declines, eligible, compressed_copy, rendered,
  compress_messages, compress_message_bodies, compress_body_field, compress_content, notes, policy,
}
use aimee_module_economizer.Fold.Slots.{compress_view-IsCompressed, IsCompressed}
use aimee_module_economizer.Fold.Theorems.{fold_view-append}
use aimee_module_economizer.Fold.Split.{fold_view-split}
use aimee_module_economizer.Fold.Shorten.{append_excerpt_lem, IsLine}
use aimee_module_economizer.Fold.Extend.{grown}
use aimee_module_economizer.Json.Print.{text, print_json, cjson_escape, escape_bytes, escape_byte}
use aimee_module_economizer.Fold.Excerpt.{
  decimal_digits, back_off, append_excerpt, kept, is_continuation, one_line, ellipsis, decimal,
}

abbrev plain_closet : Closet
plain_closet = record {
  CoordSet = Bytes;
  new_set = [];
  nominate_into = λ raw turn set. set ++ raw;
  render_closet = λ set cfg raw_len. (set, evict_none);
  cjson_number = decimal;
}

abbrev turn : Bytes → Bytes → Value
turn role text =
    object (field (codes "role") (string role) (field (codes "content") (string text) end))

abbrev two_turns : List Value
two_turns = turn (codes "user") (codes "a") ∷ turn (codes "user") (codes "b") ∷ []

abbrev reply : List Value
reply = turn (codes "assistant") (codes "c") ∷ []

abbrev small : FoldConfig
small = record {
  enabled = true;
  retained_msgs = 1;
  min_fold_msgs = 1;
  reasoning_excerpt_bytes = 0;
  register_enabled = true;
  closet = record { enabled = true; budget_bytes = 0; max_ratio_pct = 0; denylist = [] };
  compact_head_bytes = 0;
  compact_tail_bytes = 0;
}

abbrev cold : FoldFreeze
cold = record { active = false; frozen_split = 0; tail_cap_msgs = 0; epochs = 0; prefix_digest = 0 }

abbrev warm : FoldFreeze
warm = record {
  active = true;
  frozen_split = 1;
  tail_cap_msgs = 0;
  epochs = 1;
  prefix_digest = (prefix_digest decimal two_turns 1).0;
}

abbrev first_result : FoldResult
first_result = build plain_closet two_turns small (cut_at plain_closet two_turns 1 false)

first_fold :
    fold_view plain_closet (some (array (of_list two_turns))) (some small) (some cold)
    ≡ (first_result, some warm)
unfolding fold_view fold_items too_short boundary frozen_boundary may_reuse fresh_boundary
    find_split is_clean_user_turn get get_string eq_bytes is_string commit committed cut_at
    prefix_digest
first_fold = refl

abbrev first_view : List Value
first_view =
    folded_message
      (folded_body plain_closet two_turns small (cut_at plain_closet two_turns 1 false)).0
    ∷ ack_message
    ∷ map clone (drop 1 two_turns)

first_messages : first_result.messages ≡ some (array (of_list first_view))
unfolding build cut_at
first_messages = refl

first_folded : first_result.folded_msgs ≡ 1
unfolding build cut_at
first_folded = refl

short_tail :
    length (two_turns ++ reply) - first_result.folded_msgs
    ≤ tail_cap_of (some cold) (retained_of small)
unfolding tail_cap_of
short_tail = rw first_folded (omega arith)

first_is_fold : first_result.folded ≡ true
unfolding build
first_is_fold = refl

fold_view-append_example :
    fold_view plain_closet (some (array (of_list (two_turns ++ reply)))) (some small) (some warm)
    ≡ (
      grown first_result
          (first_view ++ reply)
          (length (two_turns ++ reply) - first_result.folded_msgs),
      some warm,
    )
fold_view-append_example =
    fold_view-append plain_closet small cold warm two_turns reply first_view first_result first_fold
      first_messages short_tail

fold_view-split_example :
    (1 ≤ first_result.folded_msgs)
    × (is_clean_user_turn (get_elem? two_turns first_result.folded_msgs) ≡ true)
    × ((body : Bytes) × (first_result.messages
          ≡ some (
              array (
                of_list
                  (folded_message body ∷ ack_message ∷ drop first_result.folded_msgs two_turns)))))
    × (0 < first_result.retained_msgs)
    × (first_result.folded_msgs + first_result.retained_msgs ≡ 2)
    × ((first_result.reused_boundary ≡ true) ⊎ IsLast two_turns first_result.folded_msgs 1)
fold_view-split_example =
    fold_view-split plain_closet small (some cold) (some warm) two_turns first_result first_fold
      first_is_fold

-- a text whose cap falls inside a character
abbrev accented : Bytes
accented = b'a' ∷ 0xc3 ∷ 0xa9 ∷ b'b' ∷ []

append_excerpt_lem_example :
    (length (append_excerpt accented 2) ≤ 5)
    × All IsLine (append_excerpt accented 2)
    × (4 ≤ 2 → append_excerpt accented 2 ≡ map one_line accented)
    × (2 < 4
        → (append_excerpt accented 2 ≡ map one_line (take (kept accented 2) accented) ++ ellipsis)
          × (kept accented 2 ≤ 2)
          × ((kept accented 2 ≡ 0) ⊎ (is_continuation accented (kept accented 2) ≡ false))
          × ((i : ℕ) → kept accented 2 < i → i ≤ 2 → is_continuation accented i ≡ true))
append_excerpt_lem_example = append_excerpt_lem accented 2

accented_excerpt : append_excerpt accented 2 ≡ b'a' ∷ ellipsis
unfolding append_excerpt kept back_off one_line
accented_excerpt = refl

abbrev long_result : Value
long_result = object (
    field (codes "role") (string (codes "tool")) (
      field (codes "tool_call_id") (string (codes "t"))
        (field (codes "content") (string (codes "abcdefgh")) end)))

abbrev brief : FoldConfig
brief = record {
  enabled = true;
  retained_msgs = 1;
  min_fold_msgs = 0;
  reasoning_excerpt_bytes = 3;
  register_enabled = false;
  closet = record { enabled = true; budget_bytes = 0; max_ratio_pct = 0; denylist = [] };
  compact_head_bytes = 0;
  compact_tail_bytes = 0;
}

abbrev two_bytes : CompactConfig → Bytes → Bytes
two_bytes cc body = take 2 body

abbrev with_result : List Value
with_result = long_result ∷ turn (codes "assistant") (codes "b") ∷ []

abbrev compressed_view : List Value
compressed_view =
    compressed_copy plain_closet two_bytes with_result brief
    ++ notes (compressed_copy plain_closet two_bytes with_result brief) 1 (codes "abcdefgh")

compressed :
    (compress_view plain_closet two_bytes
      (some (array (of_list with_result)))
      (some brief)).messages
    ≡ some (array (of_list compressed_view))
unfolding compress_view compress_items declines eligible compressed_copy rendered compress_messages
    compress_message_bodies compress_body_field compress_content policy text get get_string eq_bytes
    set update clone
compressed = refl

compress_view-IsCompressed_example : (1 < 2) × IsCompressed with_result 1 compressed_view
compress_view-IsCompressed_example =
    compress_view-IsCompressed plain_closet two_bytes with_result compressed_view brief compressed

printed :
    print_json decimal (array (of_list (long_result ∷ number 42 ∷ [])))
    ≡ codes "[{\"role\":\"tool\",\"tool_call_id\":\"t\",\"content\":\"abcdefgh\"},42]"
unfolding print_json cjson_escape escape_bytes escape_byte decimal_digits
printed = refl
