-- ===== src/Repair/Openai.antt =====
-- `repairOrphansOpenAI` of server-go/modules/economizer/repair.go as a strategy.
use aimee_module_economizer.Prelude.{
  ℕ, zero, suc, Bool, true, false, ◌&&◌, ◌||◌, List, [], ◌∷◌, ◌≡◌, refl, ap, arith, Bytes, codes,
  eq_bytes, eq_bytes_iff, any, All-append, Option-cases, inl, inr,
}
use aimee_module_economizer.Json.{Value, insert_at, get, get_string, set}
use aimee_module_economizer.Repair.IdSet.{IdSet, has}
use aimee_module_economizer.Repair.Collect.{string_field}
use aimee_module_economizer.Repair.Scan.{issues, answers, field_is, role_is, type_is}
use aimee_module_economizer.Repair.Orphans.{
  tool_msg, find_issuer, place_openai, orphan_openai, drop_where,
}
use aimee_module_economizer.Repair.Loops.{IsPlacing, unmatched_ext, any-append, field_is-unmatched}
use aimee_module_economizer.Repair.Pairing.{is_plain, IsPlain}
use aimee_module_economizer.Repair.Strategy.{IsStrategy, no_orphan, dropping-IsStrategy}

any-insert_at :
    (p : Value → Bool) (vs : List Value) (i : ℕ) (v : Value)
    → any p (insert_at vs i v) ≡ (any p vs || p v)
any-insert_at p [] i v = ground arith
any-insert_at p (x ∷ xs) zero v = ground arith
any-insert_at p (x ∷ xs) (suc i) v = ground (arith, any-insert_at p xs i v)

-- Wherever the synthetic message goes, it is one more message.
any-place_openai :
    (p : Value → Bool) (id : Bytes) (ms : List Value)
    → any p (place_openai id ms) ≡ (any p ms || p (tool_msg id))
unfolding place_openai
any-place_openai p id ms = elim (Option-cases (find_issuer id ms)) [
  | inl e ↦ rw (e, place_openai) (ground (arith, any-append p ms (tool_msg id ∷ [])))
  | inr (i, e) ↦ rw (e, place_openai) (any-insert_at p ms _ (tool_msg id))
]

issues-tool_msg : (id j : Bytes) → issues j (tool_msg id) ≡ false
unfolding issues tool_msg eq_bytes get get_string set
issues-tool_msg id j = refl

answers-tool_msg : (id j : Bytes) → answers j (tool_msg id) ≡ eq_bytes id j
unfolding answers tool_msg field_is string_field eq_bytes get get_string set
answers-tool_msg id j = ground arith

place_openai-IsPlacing : IsPlacing place_openai
place_openai-IsPlacing = record {
  calls = λ id j ms. ground (arith, any-place_openai (issues j) id ms, issues-tool_msg id j);
  answered = λ id j ms. ground (arith, any-place_openai (answers j) id ms, answers-tool_msg id j);
}

is_plain-tool_msg : (id : Bytes) → is_plain (tool_msg id) ≡ true
unfolding is_plain tool_msg eq_bytes get get_string set
is_plain-tool_msg id = refl

IsPlain-insert_at :
    (vs : List Value) (i : ℕ) (v : Value)
    → IsPlain vs
    → is_plain v ≡ true
    → IsPlain (insert_at vs i v)
IsPlain-insert_at [] i v h e = (e, tt)
IsPlain-insert_at (x ∷ xs) zero v h e = (e, h)
IsPlain-insert_at (x ∷ xs) (suc i) v h e = (h.0, IsPlain-insert_at xs i v h.1 e)

place_openai-IsPlain : (id : Bytes) (ms : List Value) → IsPlain ms → IsPlain (place_openai id ms)
unfolding place_openai
place_openai-IsPlain id ms h = elim (Option-cases (find_issuer id ms)) [
  | inl e ↦
      rw (e, place_openai)
        (All-append (λ m. is_plain m ≡ true) ms (tool_msg id ∷ []) h (is_plain-tool_msg id, tt))
  | inr (i, e) ↦
      rw (e, place_openai) (IsPlain-insert_at ms _ (tool_msg id) h (is_plain-tool_msg id))
]

-- A `role=tool` message is no assistant's, no user's, and no Responses item.
tool_role :
    (v : Value)
    → role_is (codes "tool") v ≡ true
    → is_plain v ≡ true
    → (role_is (codes "assistant") v ≡ false)
      × (type_is (codes "function_call") v ≡ false)
      × (type_is (codes "function_call_output") v ≡ false)
unfolding is_plain
tool_role v r p = ground (
  arith,
  eq_bytes_iff (get_string v (codes "role")) (codes "tool"),
  eq_bytes_iff (get_string v (codes "role")) (codes "assistant"),
  eq_bytes_iff (get_string v (codes "role")) [],
)

spares_calls :
    (c : IdSet) (j : Bytes) (v : Value)
    → is_plain v ≡ true
    → orphan_openai c v ≡ true
    → issues j v ≡ false
unfolding orphan_openai issues
spares_calls c j v p o = ground (arith, tool_role v)

spares_answers :
    (c : IdSet) (j : Bytes) (v : Value)
    → has c j ≡ true
    → is_plain v ≡ true
    → orphan_openai c v ≡ true
    → answers j v ≡ false
unfolding orphan_openai answers
spares_answers c j v h p o =
    ground (arith, tool_role v, field_is-unmatched c (codes "tool_call_id") j v)

ext : (c d : IdSet) (v : Value) → has c ≡ has d → orphan_openai c v ≡ orphan_openai d v
unfolding orphan_openai
ext c d v p = ap (λ b. role_is (codes "tool") v && b) (unmatched_ext c d (codes "tool_call_id") v p)

pub openai-IsStrategy :
    IsStrategy place_openai (λ c. drop_where (orphan_openai c)) (no_orphan orphan_openai)
openai-IsStrategy =
    dropping-IsStrategy place_openai orphan_openai place_openai-IsPlacing place_openai-IsPlain
      (record { spares_calls = spares_calls; spares_answers = spares_answers; ext = ext })
