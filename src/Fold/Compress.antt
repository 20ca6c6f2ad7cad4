-- ===== src/Fold/Compress.antt =====
-- `CompressView` of server-go/modules/economizer/fold.go. `CompactBody` of compact.go is a parameter.
-- A change of a message in place is a function to the new message.
use aimee_module_economizer.Prelude.{
  ℕ, suc, ◌+◌, ◌-◌, ◌/◌, Bool, true, false, not, ◌&&◌, ◌||◌, Option, none, some, List, [], ◌∷◌,
  ◌++◌, map, if◌then◌else◌, ◌==◌, ltb, leb, Bytes, codes, eq_bytes, length, take, drop,
}
use aimee_module_economizer.Json.{
  Value, string, array, object, end, to_list, of_list, get, get_string, set, clone, update,
}
use aimee_module_economizer.Fold.{
  EvictResult, FoldConfig, FoldResult, Closet, fold_default_excerpt_bytes, or_default,
}
use aimee_module_economizer.Json.Print.{text}
use aimee_module_economizer.Fold.Excerpt.{decimal}
use aimee_module_economizer.Fold.View.{unchanged, retained_of, folded_message}

-- `CompactConfig`, without the overrides of single tools, which this caller leaves empty
pub record CompactConfig : Type 0 where
  pub enabled : Bool
  pub threshold : ℕ
  pub head_bytes : ℕ
  pub tail_bytes : ℕ

abbrev compact_default_tail_bytes : ℕ
compact_default_tail_bytes = 1024

-- the shrink policy: the tail is at most half of what is kept
unfoldable pub policy : FoldConfig → CompactConfig
policy cfg =
    let keep = or_default cfg.reasoning_excerpt_bytes fold_default_excerpt_bytes in
    let tail_default = or_default cfg.compact_tail_bytes compact_default_tail_bytes in
    let tail_cap = keep / 2 in
    record {
      enabled = true;
      threshold = keep;
      head_bytes = cfg.compact_head_bytes;
      tail_bytes = if ltb 0 tail_cap && ltb tail_cap tail_default then tail_cap else tail_default;
    }

module _ (closet : Closet) (compact_body : CompactConfig → Bytes → Bytes) (cc : CompactConfig) where
  -- the bodies compressed so far, their raw size, and the coordinates nominated from them
  abbrev pub Tally : Type 0
  Tally = ℕ × ℕ × closet.CoordSet

  -- whether the compacted body replaces the body
  abbrev pub replaces : Bytes → Bytes → Bool
  replaces body out =
      not (ltb 0 cc.threshold && leb (length body) cc.threshold)
      && not (length out == 0)
      && ltb (length out) (length body)

  -- `compressBodyField`
  unfoldable pub compress_body_field : Value → Bytes → ℕ → Tally → Value × Tally
  compress_body_field parent key turn t = elim (text closet.cjson_number (get parent key)) [
    | none ↦ (parent, t)
    | some body ↦
        if replaces body (compact_body cc body)
        then (
          set parent key (string (compact_body cc body)),
          (suc t.0, t.1 + length body, closet.nominate_into body turn t.2),
        )
        else (parent, t)
  ]

  abbrev pub compress_tool : Value → ℕ → Tally → Value × Tally
  compress_tool m turn t =
      if eq_bytes (get_string m (codes "role")) (codes "tool")
      then compress_body_field m (codes "content") turn t
      else (m, t)

  abbrev pub compress_block : Value → ℕ → Tally → Value × Tally
  compress_block blk turn t =
      if eq_bytes (get_string blk (codes "type")) (codes "tool_result")
      then compress_body_field blk (codes "content") turn t
      else (blk, t)

  unfoldable pub compress_blocks : List Value → ℕ → Tally → List Value × Tally
  compress_blocks [] turn t = ([], t)
  compress_blocks (blk ∷ blks) turn t =
      let first = compress_block blk turn t in
      let rest = compress_blocks blks turn first.1 in (first.0 ∷ rest.0, rest.1)

  -- the tool results inside a content array
  unfoldable pub compress_content : Value → Option Value → ℕ → Tally → Value × Tally
  compress_content m (some (array blks)) turn t =
      let done = compress_blocks (to_list blks) turn t in
      (update m (codes "content") (λ old. array (of_list done.0)), done.1)
  compress_content m _ turn t = (m, t)

  abbrev pub compress_output : Bytes → Value → ℕ → Tally → Value × Tally
  compress_output kind m turn t =
      if eq_bytes kind (codes "function_call_output")
      then compress_body_field m (codes "output") turn t
      else (m, t)

  -- `compressMessageBodies`
  unfoldable pub compress_message_bodies : Value → ℕ → Tally → Value × Tally
  compress_message_bodies m turn t =
      let a = compress_tool m turn t in
      let b = compress_content a.0 (get a.0 (codes "content")) turn a.1 in
      compress_output (get_string m (codes "type")) b.0 turn b.1

  -- the loop over the messages ahead of the retained ones
  unfoldable pub compress_messages : List Value → ℕ → Tally → List Value × Tally
  compress_messages [] turn t = ([], t)
  compress_messages (m ∷ ms) turn t =
      let first = compress_message_bodies m turn t in
      let rest = compress_messages ms (suc turn) first.1 in (first.0 ∷ rest.0, rest.1)

unfoldable pub conserved_message : Value
conserved_message =
    set (set (object end) (codes "role") (string (codes "assistant"))) (codes "content") (
      string (
        codes "Understood "
        ++ 0xe2
          ∷ 0x80
          ∷ 0x94
          ∷ codes " identifiers from the compressed tool results are conserved below."))

abbrev pub ends_with_user : List Value → Bool
ends_with_user [] = false
ends_with_user (m ∷ []) = eq_bytes (get_string m (codes "role")) (codes "user")
ends_with_user (m ∷ n ∷ ms) = ends_with_user (n ∷ ms)

unfoldable pub note_body : ℕ → Bytes → Bytes
note_body compressed rendered =
    codes "[compressed "
    ++ decimal compressed
    ++ codes " oversized tool-result body(ies) above; full bodies remain "
    ++ codes "in history "
    ++ 0xe2 ∷ 0x80 ∷ 0x94 ∷ codes " exact identifiers are conserved in the Coordinate Closet]"
    ++ b'\n' ∷ b'\n' ∷ rendered

-- the messages appended behind the transcript
unfoldable pub notes : List Value → ℕ → Bytes → List Value
notes arr compressed rendered =
    if eq_bytes rendered []
    then []
    else (if ends_with_user arr then conserved_message ∷ [] else [])
      ++ folded_message (note_body compressed rendered) ∷ []

module _ (closet : Closet) (compact_body : CompactConfig → Bytes → Bytes) where
  abbrev pub limit_of : List Value → FoldConfig → ℕ
  limit_of ms cfg = length ms - retained_of cfg

  -- the messages ahead of the retained ones, compressed, with what was tallied
  unfoldable pub eligible : List Value → FoldConfig → List Value × (ℕ × ℕ × closet.CoordSet)
  eligible ms cfg =
      compress_messages closet compact_body (policy cfg) (take (limit_of ms cfg) (map clone ms)) 0
        (0, 0, closet.new_set)

  unfoldable pub compressed_copy : List Value → FoldConfig → List Value
  compressed_copy ms cfg = (eligible ms cfg).0 ++ drop (limit_of ms cfg) (map clone ms)

  unfoldable pub rendered : List Value → FoldConfig → Bytes × EvictResult
  rendered ms cfg = closet.render_closet (eligible ms cfg).1.2 cfg.closet (eligible ms cfg).1.1

  unfoldable pub declines : List Value → FoldConfig → Bool
  declines ms cfg =
      length ms == 0 || leb (length ms) (retained_of cfg) || (eligible ms cfg).1.0 == 0

  unfoldable pub compress_items : List Value → FoldConfig → FoldResult
  compress_items ms cfg =
      let arr = compressed_copy ms cfg in
      let compressed = (eligible ms cfg).1.0 in
      if declines ms cfg then unchanged else record {
        messages = some (array (of_list (arr ++ notes arr compressed (rendered ms cfg).0)));
        folded = true;
        folded_msgs = compressed;
        retained_msgs = retained_of cfg;
        reused_boundary = false;
        closet_evict = (rendered ms cfg).1;
      }

  -- `CompressView`
  unfoldable pub compress_view : Option Value → Option FoldConfig → FoldResult
  compress_view (some (array vs)) (some cfg) =
      if cfg.enabled then compress_items (to_list vs) cfg else unchanged
  compress_view _ _ = unchanged
