-- ===== src/Repair/Scan.antt =====
-- What it means that a message issues a call or answers one, and the collected sets against it
-- (server-go/modules/economizer/repair.go).
use aimee_module_economizer.Prelude.{
  Bool, false, ◌&&◌, ◌||◌, List, [], ◌∷◌, ◌≡◌, refl, arith, none, some, Bytes, codes, eq_bytes,
  if◌then◌else◌, any, Option-cases, inl, inr, Bool-cases,
}
use aimee_module_economizer.Json.{Value, get, get_string, items_of}
use aimee_module_economizer.Repair.IdSet.{IdSet, new_id_set, seen-add, Agrees, add-Agrees}
use aimee_module_economizer.Repair.Collect.{
  string_field, add_field, add_fields, add_block, add_blocks, collect_calls_of, collect_calls_onto,
  collect_tool_call_ids, collect_results_of, collect_results_onto, collect_tool_result_ids,
}

-- The field holds exactly this string.
unfoldable pub field_is : Bytes → Bytes → Value → Bool
field_is key id v = elim (string_field v key) [ none ↦ false | some s ↦ eq_bytes s id ]

abbrev pub role_is : Bytes → Value → Bool
role_is role v = eq_bytes (get_string v (codes "role")) role

abbrev pub type_is : Bytes → Value → Bool
type_is type v = eq_bytes (get_string v (codes "type")) type

-- The message carries a call with this id, in one of the three wire shapes.
unfoldable pub issues : Bytes → Value → Bool
issues id msg =
    (role_is (codes "assistant") msg
      && (any (field_is (codes "id") id) (items_of (get msg (codes "tool_calls")))
          || any (λ b. type_is (codes "tool_use") b && field_is (codes "id") id b)
              (items_of (get msg (codes "content")))))
    || (type_is (codes "function_call") msg && field_is (codes "call_id") id msg)

-- The message carries a result for this id, in one of the three wire shapes.
unfoldable pub answers : Bytes → Value → Bool
answers id msg =
    (if role_is (codes "tool") msg
      then field_is (codes "tool_call_id") id msg
      else role_is (codes "user") msg
        && any (λ b. type_is (codes "tool_result") b && field_is (codes "tool_use_id") id b)
            (items_of (get msg (codes "content"))))
    || (type_is (codes "function_call_output") msg && field_is (codes "call_id") id msg)

-- Some message of the transcript issues, or answers, a call with this id.
abbrev pub is_called : Bytes → List Value → Bool
is_called id msgs = any (issues id) msgs

abbrev pub is_answered : Bytes → List Value → Bool
is_answered id msgs = any (answers id) msgs

seen-add_field :
    (key id : Bytes) (ids : IdSet) (v : Value)
    → (add_field key ids v).seen id ≡ (ids.seen id || field_is key id v)
unfolding add_field field_is
seen-add_field key id ids v = elim (Option-cases (string_field v key)) [
  | inl e ↦ rw (e, add_field) (rw (e, field_is) (ground arith))
  | inr (s, e) ↦ rw (e, add_field) (rw (e, field_is) (seen-add ids s id))
]

seen-add_fields :
    (key id : Bytes) (ids : IdSet) (vs : List Value)
    → (add_fields key ids vs).seen id ≡ (ids.seen id || any (field_is key id) vs)
unfolding add_fields
seen-add_fields key id ids [] = ground arith
seen-add_fields key id ids (v ∷ vs) =
    ground (arith, seen-add_fields key id (add_field key ids v) vs, seen-add_field key id ids v)

seen-add_block :
    (type key id : Bytes) (ids : IdSet) (b : Value)
    → (add_block type key ids b).seen id ≡ (ids.seen id || (type_is type b && field_is key id b))
unfolding add_block
seen-add_block type key id ids b = ground (arith, seen-add_field key id ids b)

seen-add_blocks :
    (type key id : Bytes) (ids : IdSet) (vs : List Value)
    → (add_blocks type key ids vs).seen id
      ≡ (ids.seen id || any (λ b. type_is type b && field_is key id b) vs)
unfolding add_blocks
seen-add_blocks type key id ids [] = ground arith
seen-add_blocks type key id ids (v ∷ vs) = ground (
  arith,
  seen-add_blocks type key id (add_block type key ids v) vs,
  seen-add_block type key id ids v,
)

seen-collect_calls_of :
    (id : Bytes) (ids : IdSet) (msg : Value)
    → (collect_calls_of ids msg).seen id ≡ (ids.seen id || issues id msg)
unfolding collect_calls_of issues
seen-collect_calls_of id ids msg = ground (
  arith,
  seen-add_fields (codes "id") id ids (items_of (get msg (codes "tool_calls"))),
  seen-add_blocks (codes "tool_use") (codes "id") id
      (add_fields (codes "id") ids (items_of (get msg (codes "tool_calls"))))
      (items_of (get msg (codes "content"))),
  seen-add_field (codes "call_id") id ids msg,
  seen-add_field (codes "call_id") id
      (add_blocks (codes "tool_use") (codes "id")
        (add_fields (codes "id") ids (items_of (get msg (codes "tool_calls"))))
        (items_of (get msg (codes "content"))))
      msg,
)

seen-collect_calls_onto :
    (id : Bytes) (ids : IdSet) (msgs : List Value)
    → (collect_calls_onto ids msgs).seen id ≡ (ids.seen id || is_called id msgs)
unfolding collect_calls_onto
seen-collect_calls_onto id ids [] = ground arith
seen-collect_calls_onto id ids (m ∷ ms) =
    ground (
      arith,
      seen-collect_calls_onto id (collect_calls_of ids m) ms,
      seen-collect_calls_of id ids m,
    )

-- The collected set of calls holds exactly the ids that some message issues.
pub seen-collect_tool_call_ids :
    (id : Bytes) (msgs : List Value) → (collect_tool_call_ids msgs).seen id ≡ is_called id msgs
unfolding collect_tool_call_ids new_id_set
seen-collect_tool_call_ids id msgs = seen-collect_calls_onto id new_id_set msgs

seen-collect_results_of :
    (id : Bytes) (ids : IdSet) (msg : Value)
    → (collect_results_of ids msg).seen id ≡ (ids.seen id || answers id msg)
unfolding collect_results_of answers
seen-collect_results_of id ids msg =
    let blocks = items_of (get msg (codes "content")) in
    let by_tool = add_field (codes "tool_call_id") ids msg in
    let by_user = add_blocks (codes "tool_result") (codes "tool_use_id") ids blocks in
    ground (
      arith,
      seen-add_field (codes "tool_call_id") id ids msg,
      seen-add_blocks (codes "tool_result") (codes "tool_use_id") id ids blocks,
      seen-add_field (codes "call_id") id ids msg,
      seen-add_field (codes "call_id") id by_tool msg,
      seen-add_field (codes "call_id") id by_user msg,
    )

seen-collect_results_onto :
    (id : Bytes) (ids : IdSet) (msgs : List Value)
    → (collect_results_onto ids msgs).seen id ≡ (ids.seen id || is_answered id msgs)
unfolding collect_results_onto
seen-collect_results_onto id ids [] = ground arith
seen-collect_results_onto id ids (m ∷ ms) = ground (
  arith,
  seen-collect_results_onto id (collect_results_of ids m) ms,
  seen-collect_results_of id ids m,
)

pub seen-collect_tool_result_ids :
    (id : Bytes) (msgs : List Value) → (collect_tool_result_ids msgs).seen id ≡ is_answered id msgs
unfolding collect_tool_result_ids new_id_set
seen-collect_tool_result_ids id msgs = seen-collect_results_onto id new_id_set msgs

pub add_field-Agrees :
    (key : Bytes) (ids : IdSet) (v : Value) → Agrees ids → Agrees (add_field key ids v)
unfolding add_field
add_field-Agrees key ids v h = elim (Option-cases (string_field v key)) [
  | inl e ↦ rw (e, add_field) h
  | inr (s, e) ↦ rw (e, add_field) (add-Agrees ids s h)
]

add_fields-Agrees :
    (key : Bytes) (ids : IdSet) (vs : List Value) → Agrees ids → Agrees (add_fields key ids vs)
unfolding add_fields
add_fields-Agrees key ids [] h = h
add_fields-Agrees key ids (v ∷ vs) h =
    add_fields-Agrees key (add_field key ids v) vs (add_field-Agrees key ids v h)

add_block-Agrees :
    (type key : Bytes) (ids : IdSet) (b : Value) → Agrees ids → Agrees (add_block type key ids b)
unfolding add_block
add_block-Agrees type key ids b h = elim (Bool-cases (type_is type b)) [
  | inl e ↦ rw e (add_field-Agrees key ids b h)
  | inr e ↦ rw e h
]

pub add_blocks-Agrees :
    (type key : Bytes) (ids : IdSet) (vs : List Value)
    → Agrees ids
    → Agrees (add_blocks type key ids vs)
unfolding add_blocks
add_blocks-Agrees type key ids [] h = h
add_blocks-Agrees type key ids (v ∷ vs) h =
    add_blocks-Agrees type key (add_block type key ids v) vs (add_block-Agrees type key ids v h)

collect_calls_of-Agrees :
    (ids : IdSet) (msg : Value) → Agrees ids → Agrees (collect_calls_of ids msg)
unfolding collect_calls_of
collect_calls_of-Agrees ids msg h = elim (Bool-cases (role_is (codes "assistant") msg)) [
  | inl r ↦ rw r (
      finish _ (
        add_blocks-Agrees (codes "tool_use") (codes "id")
          (add_fields (codes "id") ids (items_of (get msg (codes "tool_calls"))))
          (items_of (get msg (codes "content")))
          (add_fields-Agrees (codes "id") ids (items_of (get msg (codes "tool_calls"))) h)))
  | inr r ↦ rw r (finish ids h)
]
  where
    finish :
        (s : IdSet)
        → Agrees s
        → Agrees
            (if type_is (codes "function_call") msg then add_field (codes "call_id") s msg else s)
    finish s k = elim (Bool-cases (type_is (codes "function_call") msg)) [
      | inl e ↦ rw e (add_field-Agrees (codes "call_id") s msg k)
      | inr e ↦ rw e k
    ]

collect_calls_onto-Agrees :
    (ids : IdSet) (msgs : List Value) → Agrees ids → Agrees (collect_calls_onto ids msgs)
unfolding collect_calls_onto
collect_calls_onto-Agrees ids [] h = h
collect_calls_onto-Agrees ids (m ∷ ms) h =
    collect_calls_onto-Agrees (collect_calls_of ids m) ms (collect_calls_of-Agrees ids m h)

-- The order in which the repairs run through the calls lists exactly the ids of the set.
pub collect_tool_call_ids-Agrees : (msgs : List Value) → Agrees (collect_tool_call_ids msgs)
unfolding collect_tool_call_ids new_id_set
collect_tool_call_ids-Agrees msgs = collect_calls_onto-Agrees new_id_set msgs (λ id. refl)
