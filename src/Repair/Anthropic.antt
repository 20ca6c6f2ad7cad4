-- ===== src/Repair/Anthropic.antt =====
-- `repairOrphansAnthropic` of server-go/modules/economizer/repair.go as a strategy: the loop that
-- places a block in the next user message, or a message.
pub mod Dropping
use aimee_module_economizer.Prelude.{
  Bool, true, false, not, ◌&&◌, ◌||◌, List, [], ◌∷◌, ◌++◌, none, some, Option, ◌≡◌, refl, ap, ◌∙◌,
  sym, arith, Bytes, codes, eq_bytes, eq_bytes_iff, any, All, All-append, Option-cases, Bool-cases,
  inl, inr,
}
use aimee_module_economizer.Json.{
  Value, get, get_string, set, update, append, of_list, to_list, array,
}
use aimee_module_economizer.Json.Laws.{to_list-of_list}
use aimee_module_economizer.Repair.Collect.{string_field}
use aimee_module_economizer.Repair.Scan.{issues, answers, field_is}
use aimee_module_economizer.Repair.Orphans.{
  tool_result, user_msg, takes_blocks, issued_anthropic, append_result, place_anthropic,
  drop_blocks,
}
use aimee_module_economizer.Repair.Loops.{IsPlacing, any-append}
use aimee_module_economizer.Repair.Pairing.{is_plain, IsPlain}
use aimee_module_economizer.Repair.Strategy.{IsStrategy}
use aimee_module_economizer.Repair.Blocks.{
  block_answers, blocks_of, is_plain-update, answers-user, answers-update, issues-update,
}
use Dropping.{
  no_orphan_block, drop_blocks-calls, drop_blocks-answers, drop_blocks-IsPlain, drop_blocks_clean,
  drop_blocks_none, no_orphan_block_ext,
}

block_answers-tool_result : (id j : Bytes) → block_answers j (tool_result id) ≡ eq_bytes id j
unfolding tool_result field_is string_field eq_bytes get get_string set
block_answers-tool_result id j = ground arith

-- the message behind `targetUser.Get("content").Append(tr)`
abbrev with_result : Bytes → Value → Value
with_result id m = update m (codes "content") (λ c. append c (tool_result id))

append_is :
    (id : Bytes) (vs : List Value)
    → append (array (of_list vs)) (tool_result id) ≡ array (of_list (vs ++ tool_result id ∷ []))
unfolding append
append_is id vs = rw (to_list-of_list vs)

issues-with_result :
    (id j : Bytes) (m : Value) → takes_blocks m ≡ true → issues j (with_result id m) ≡ issues j m
issues-with_result id j m h =
    issues-update m h (λ c. append c (tool_result id)) (blocks_of m ++ tool_result id ∷ [])
      (append_is id (blocks_of m)) j

answers-with_result :
    (id j : Bytes) (m : Value)
    → takes_blocks m ≡ true
    → answers j (with_result id m) ≡ (answers j m || eq_bytes id j)
answers-with_result id j m h = ground (
  arith,
  answers-update m h (λ c. append c (tool_result id)) (blocks_of m ++ tool_result id ∷ [])
      (append_is id (blocks_of m)) j,
  answers-user j m h,
  any-append (block_answers j) (blocks_of m) (tool_result id ∷ []),
  block_answers-tool_result id j,
)

-- A statement about the transcript that `append_result` finds, if it finds a target.
abbrev IfFound : (List Value → Type 0) → Option (List Value) → Type 0
IfFound P none = Unit
IfFound P (some ms) = P ms

issues-append_result :
    (found : Bool) (id j : Bytes) (ms : List Value)
    → IfFound (λ out. any (issues j) out ≡ any (issues j) ms) (append_result found id ms)
unfolding append_result
issues-append_result found id j [] = tt
issues-append_result false id j (m ∷ ms) =
    elim (Option-cases (append_result (issued_anthropic id m) id ms)) [
      | inl e ↦ rw e tt
      | inr (out, e) ↦ rw e (
          ap (λ b. issues j m || b)
            (rw e at (issues-append_result (issued_anthropic id m) id j ms)))
    ]
issues-append_result true id j (m ∷ ms) = elim (Bool-cases (takes_blocks m)) [
  | inl h ↦ rw h (ap (λ b. b || any (issues j) ms) (issues-with_result id j m h))
  | inr h ↦ rw h (elim (Option-cases (append_result true id ms)) [
    | inl e ↦ rw e tt
    | inr (out, e) ↦ rw e (ap (λ b. issues j m || b) (rw e at (issues-append_result true id j ms)))
  ])
]

answers-append_result :
    (found : Bool) (id j : Bytes) (ms : List Value)
    → IfFound
        (λ out. any (answers j) out ≡ (any (answers j) ms || eq_bytes id j))
        (append_result found id ms)
unfolding append_result
answers-append_result found id j [] = tt
answers-append_result false id j (m ∷ ms) =
    elim (Option-cases (append_result (issued_anthropic id m) id ms)) [
      | inl e ↦ rw e tt
      | inr (out, e) ↦
          rw e (ground (arith, rw e at (answers-append_result (issued_anthropic id m) id j ms)))
    ]
answers-append_result true id j (m ∷ ms) = elim (Bool-cases (takes_blocks m)) [
  | inl h ↦ rw h (ground (arith, answers-with_result id j m h))
  | inr h ↦ rw h (elim (Option-cases (append_result true id ms)) [
    | inl e ↦ rw e tt
    | inr (out, e) ↦ rw e (ground (arith, rw e at (answers-append_result true id j ms)))
  ])
]

append_result-IsPlain :
    (found : Bool) (id : Bytes) (ms : List Value)
    → IsPlain ms
    → IfFound IsPlain (append_result found id ms)
unfolding append_result
append_result-IsPlain found id [] p = tt
append_result-IsPlain false id (m ∷ ms) p =
    elim (Option-cases (append_result (issued_anthropic id m) id ms)) [
      | inl e ↦ rw e tt
      | inr (out, e) ↦ rw e (p.0, rw e at (append_result-IsPlain (issued_anthropic id m) id ms p.1))
    ]
append_result-IsPlain true id (m ∷ ms) p = elim (Bool-cases (takes_blocks m)) [
  | inl h ↦ rw h (is_plain-update m (λ c. append c (tool_result id)) ∙ p.0, p.1)
  | inr h ↦ rw h (elim (Option-cases (append_result true id ms)) [
    | inl e ↦ rw e tt
    | inr (out, e) ↦ rw e (p.0, rw e at (append_result-IsPlain true id ms p.1))
  ])
]

issues-user_msg : (id j : Bytes) → issues j (user_msg id) ≡ false
unfolding issues user_msg eq_bytes get get_string set
issues-user_msg id j = refl

answers-user_msg : (id j : Bytes) → answers j (user_msg id) ≡ eq_bytes id j
unfolding answers user_msg tool_result field_is string_field eq_bytes get get_string set
answers-user_msg id j = ground arith

is_plain-user_msg : (id : Bytes) → is_plain (user_msg id) ≡ true
unfolding is_plain user_msg eq_bytes get get_string set
is_plain-user_msg id = refl

issues-place :
    (id j : Bytes) (ms : List Value) → any (issues j) (place_anthropic id ms) ≡ any (issues j) ms
unfolding place_anthropic
issues-place id j ms = elim (Option-cases (append_result false id ms)) [
  | inl e ↦
      rw (e, place_anthropic)
        (ground (arith, any-append (issues j) ms (user_msg id ∷ []), issues-user_msg id j))
  | inr (out, e) ↦ rw (e, place_anthropic) (rw e at (issues-append_result false id j ms))
]

answers-place :
    (id j : Bytes) (ms : List Value)
    → any (answers j) (place_anthropic id ms) ≡ (any (answers j) ms || eq_bytes id j)
unfolding place_anthropic
answers-place id j ms = elim (Option-cases (append_result false id ms)) [
  | inl e ↦
      rw (e, place_anthropic)
        (ground (arith, any-append (answers j) ms (user_msg id ∷ []), answers-user_msg id j))
  | inr (out, e) ↦ rw (e, place_anthropic) (rw e at (answers-append_result false id j ms))
]

place-IsPlain : (id : Bytes) (ms : List Value) → IsPlain ms → IsPlain (place_anthropic id ms)
unfolding place_anthropic
place-IsPlain id ms p = elim (Option-cases (append_result false id ms)) [
  | inl e ↦
      rw (e, place_anthropic)
        (All-append (λ m. is_plain m ≡ true) ms (user_msg id ∷ []) p (is_plain-user_msg id, tt))
  | inr (out, e) ↦ rw (e, place_anthropic) (rw e at (append_result-IsPlain false id ms p))
]

pub anthropic-IsStrategy : IsStrategy place_anthropic drop_blocks no_orphan_block
anthropic-IsStrategy = record {
  placing = record { calls = issues-place; answered = answers-place };
  place_plain = place-IsPlain;
  drop_calls = drop_blocks-calls;
  drop_answers = drop_blocks-answers;
  drop_plain = drop_blocks-IsPlain;
  drop_clean = drop_blocks_clean;
  drop_none = drop_blocks_none;
  ext = no_orphan_block_ext;
}
