-- ===== src/Repair/Responses.antt =====
-- `repairOrphansResponses` of server-go/modules/economizer/repair.go as a strategy.
use aimee_module_economizer.Prelude.{
  true, false, ◌&&◌, List, [], ◌∷◌, ◌≡◌, refl, ap, arith, Bytes, codes, eq_bytes, eq_bytes_iff,
  All-append,
}
use aimee_module_economizer.Json.{Value, get, get_string, set}
use aimee_module_economizer.Repair.IdSet.{IdSet, has}
use aimee_module_economizer.Repair.Collect.{string_field}
use aimee_module_economizer.Repair.Scan.{issues, answers, field_is, role_is, type_is}
use aimee_module_economizer.Repair.Orphans.{
  call_output, place_responses, orphan_responses, drop_where,
}
use aimee_module_economizer.Repair.Loops.{IsPlacing, unmatched_ext, any-append, field_is-unmatched}
use aimee_module_economizer.Repair.Pairing.{is_plain, IsPlain}
use aimee_module_economizer.Repair.Strategy.{IsStrategy, no_orphan, dropping-IsStrategy}

issues-call_output : (id j : Bytes) → issues j (call_output id) ≡ false
unfolding issues call_output eq_bytes get get_string set
issues-call_output id j = refl

answers-call_output : (id j : Bytes) → answers j (call_output id) ≡ eq_bytes id j
unfolding answers call_output field_is string_field eq_bytes get get_string set
answers-call_output id j = ground arith

is_plain-call_output : (id : Bytes) → is_plain (call_output id) ≡ true
unfolding is_plain call_output eq_bytes get get_string set
is_plain-call_output id = refl

place_responses-IsPlacing : IsPlacing place_responses
unfolding place_responses
place_responses-IsPlacing = record {
  calls = λ id j ms.
      ground (arith, any-append (issues j) ms (call_output id ∷ []), issues-call_output id j);
  answered = λ id j ms.
      ground (arith, any-append (answers j) ms (call_output id ∷ []), answers-call_output id j);
}

place_responses-IsPlain :
    (id : Bytes) (ms : List Value) → IsPlain ms → IsPlain (place_responses id ms)
unfolding place_responses
place_responses-IsPlain id ms h =
    All-append (λ m. is_plain m ≡ true) ms (call_output id ∷ []) h (is_plain-call_output id, tt)

-- A result item has no role, and is no call.
output_type :
    (v : Value)
    → type_is (codes "function_call_output") v ≡ true
    → is_plain v ≡ true
    → (role_is (codes "assistant") v ≡ false)
      × (role_is (codes "tool") v ≡ false)
      × (role_is (codes "user") v ≡ false)
      × (type_is (codes "function_call") v ≡ false)
unfolding is_plain
output_type v r p = ground (
  arith,
  eq_bytes_iff (get_string v (codes "role")) (codes "tool"),
  eq_bytes_iff (get_string v (codes "role")) (codes "user"),
  eq_bytes_iff (get_string v (codes "role")) (codes "assistant"),
  eq_bytes_iff (get_string v (codes "role")) [],
  eq_bytes_iff (get_string v (codes "type")) (codes "function_call"),
  eq_bytes_iff (get_string v (codes "type")) (codes "function_call_output"),
)

spares_calls :
    (c : IdSet) (j : Bytes) (v : Value)
    → is_plain v ≡ true
    → orphan_responses c v ≡ true
    → issues j v ≡ false
unfolding orphan_responses issues
spares_calls c j v p o = ground (arith, output_type v)

spares_answers :
    (c : IdSet) (j : Bytes) (v : Value)
    → has c j ≡ true
    → is_plain v ≡ true
    → orphan_responses c v ≡ true
    → answers j v ≡ false
unfolding orphan_responses answers
spares_answers c j v h p o =
    ground (arith, output_type v, field_is-unmatched c (codes "call_id") j v)

ext : (c d : IdSet) (v : Value) → has c ≡ has d → orphan_responses c v ≡ orphan_responses d v
unfolding orphan_responses
ext c d v p =
    ap (λ b. type_is (codes "function_call_output") v && b)
      (unmatched_ext c d (codes "call_id") v p)

pub responses-IsStrategy :
    IsStrategy place_responses (λ c. drop_where (orphan_responses c)) (no_orphan orphan_responses)
responses-IsStrategy =
    dropping-IsStrategy place_responses orphan_responses place_responses-IsPlacing
      place_responses-IsPlain
      (record { spares_calls = spares_calls; spares_answers = spares_answers; ext = ext })
