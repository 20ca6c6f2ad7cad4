-- ===== src/Repair/Empty.antt =====
-- The early return of `MessageHistoryRepair` (server-go/modules/economizer/repair.go), where both
-- sets are empty.
use aimee_module_economizer.Prelude.{
  Bool, true, false, ◌&&◌, List, [], ◌∷◌, ◌≡◌, refl, ◌∙◌, sym, arith, Bytes, codes, eq_bytes_refl,
  if◌then◌else◌, Bool-cases, inl, inr,
}
use aimee_module_economizer.Json.{Value, get, items_of}
use aimee_module_economizer.Repair.IdSet.{IdSet, new_id_set, Agrees, empty, is_listed}
use aimee_module_economizer.Repair.Collect.{
  add_field, collect_results_of, collect_results_onto, collect_tool_call_ids,
  collect_tool_result_ids,
}
use aimee_module_economizer.Repair.Scan.{
  is_called, is_answered, role_is, type_is, add_field-Agrees, add_blocks-Agrees,
  collect_tool_call_ids-Agrees, seen-collect_tool_call_ids, seen-collect_tool_result_ids,
}

collect_results_of-Agrees :
    (ids : IdSet) (m : Value) → Agrees ids → Agrees (collect_results_of ids m)
unfolding collect_results_of
collect_results_of-Agrees ids m h = elim (Bool-cases (role_is (codes "tool") m)) [
  | inl t ↦ rw t (finish _ (add_field-Agrees (codes "tool_call_id") ids m h))
  | inr t ↦ rw t (elim (Bool-cases (role_is (codes "user") m)) [
    | inl u ↦ rw u (
        finish _ (
          add_blocks-Agrees (codes "tool_result") (codes "tool_use_id") ids
            (items_of (get m (codes "content"))) h))
    | inr u ↦ rw u (finish ids h)
  ])
]
  where
    finish :
        (s : IdSet)
        → Agrees s
        → Agrees (
            if type_is (codes "function_call_output") m then add_field (codes "call_id") s m else s)
    finish s k = elim (Bool-cases (type_is (codes "function_call_output") m)) [
      | inl e ↦ rw e (add_field-Agrees (codes "call_id") s m k)
      | inr e ↦ rw e k
    ]

collect_results_onto-Agrees :
    (ids : IdSet) (ms : List Value) → Agrees ids → Agrees (collect_results_onto ids ms)
unfolding collect_results_onto
collect_results_onto-Agrees ids [] h = h
collect_results_onto-Agrees ids (m ∷ ms) h =
    collect_results_onto-Agrees (collect_results_of ids m) ms (collect_results_of-Agrees ids m h)

collect_tool_result_ids-Agrees : (ms : List Value) → Agrees (collect_tool_result_ids ms)
unfolding collect_tool_result_ids new_id_set
collect_tool_result_ids-Agrees ms = collect_results_onto-Agrees new_id_set ms (λ id. refl)

is_listed-empty : (ids : List Bytes) → ((j : Bytes) → is_listed j ids ≡ false) → ids ≡ []
is_listed-empty [] h = refl
is_listed-empty (k ∷ ids) h = ground (arith, h k, eq_bytes_refl k)

empty_of_none : (s : IdSet) → ((j : Bytes) → is_listed j s.order ≡ false) → empty s ≡ true
unfolding empty
empty_of_none s h = rw (is_listed-empty s.order h) refl

none_of_empty : (s : IdSet) → empty s ≡ true → (j : Bytes) → is_listed j s.order ≡ false
unfolding empty
none_of_empty s h j = go s.order h
  where
    go :
        (ids : List Bytes)
        → (elim ids [ [] ↦ true | _ ∷ _ ↦ false ]) ≡ true
        → is_listed j ids ≡ false
    go [] e = refl
    go (_ ∷ _) e = cc

-- the test of the early return
abbrev pub no_ids : List Value → Bool
no_ids ms = empty (collect_tool_call_ids ms) && empty (collect_tool_result_ids ms)

pub no_ids-is_called : (ms : List Value) → no_ids ms ≡ true → (j : Bytes) → is_called j ms ≡ false
no_ids-is_called ms h j =
    sym (seen-collect_tool_call_ids j ms)
    ∙ collect_tool_call_ids-Agrees ms j
    ∙ none_of_empty (collect_tool_call_ids ms) (ground arith) j

pub no_ids-is_answered :
    (ms : List Value) → no_ids ms ≡ true → (j : Bytes) → is_answered j ms ≡ false
no_ids-is_answered ms h j =
    sym (seen-collect_tool_result_ids j ms)
    ∙ collect_tool_result_ids-Agrees ms j
    ∙ none_of_empty (collect_tool_result_ids ms) (ground arith) j

pub no_ids_of_none :
    (ms : List Value)
    → ((j : Bytes) → is_called j ms ≡ false)
    → ((j : Bytes) → is_answered j ms ≡ false)
    → no_ids ms ≡ true
no_ids_of_none ms c a =
    rw
      (empty_of_none (collect_tool_call_ids ms)
        (λ j. sym (collect_tool_call_ids-Agrees ms j) ∙ seen-collect_tool_call_ids j ms ∙ c j))
      (empty_of_none (collect_tool_result_ids ms)
        (λ j. sym (collect_tool_result_ids-Agrees ms j) ∙ seen-collect_tool_result_ids j ms ∙ a j))
