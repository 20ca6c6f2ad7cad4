-- ===== src/Repair/Anthropic/Dropping.antt =====
-- The second loop of `repairOrphansAnthropic` (server-go/modules/economizer/repair.go): it drops
-- the result blocks without a call, and the user messages that keep no block.
use aimee_module_economizer.Prelude.{
  Bool, true, false, not, ◌&&◌, ◌||◌, List, [], ◌∷◌, ◌≡◌, refl, ap, ◌∙◌, arith, Bytes, codes, any,
  all, All, Bool-cases, inl, inr, fun_ext,
}
use aimee_module_economizer.Json.{Value, array, of_list}
use aimee_module_economizer.Json.Laws.{update_self}
use aimee_module_economizer.Repair.IdSet.{IdSet, has}
use aimee_module_economizer.Repair.Scan.{issues, answers, type_is}
use aimee_module_economizer.Repair.Orphans.{
  takes_blocks, orphan_block, drop_where, drop_blocks, keep_blocks,
}
use aimee_module_economizer.Repair.Loops.{
  any-drop_where, drop_where_clean, drop_where_none, unmatched_ext, field_is-unmatched,
}
use aimee_module_economizer.Repair.Pairing.{is_plain, IsPlain}
use aimee_module_economizer.Repair.Blocks.{
  takes_blocks-update, block_answers, blocks_of, is_plain-update, answers-user, issues-user,
  user_plain, takes_blocks-array, blocks_of-update, answers-update, issues-update,
}

abbrev pub is_empty : List Value → Bool
is_empty [] = true
is_empty (_ ∷ _) = false

-- The message keeps all its blocks, and has one if it takes blocks.
unfoldable pub clean_message : IdSet → Value → Bool
clean_message c m =
    not (takes_blocks m)
    || (not (any (orphan_block c) (blocks_of m)) && not (is_empty (blocks_of m)))

unfoldable pub no_orphan_block : IdSet → List Value → Bool
no_orphan_block c ms = all (clean_message c) ms

orphan_block-answers :
    (c : IdSet) (j : Bytes) (b : Value)
    → has c j ≡ true
    → orphan_block c b ≡ true
    → block_answers j b ≡ false
unfolding orphan_block
orphan_block-answers c j b h o = ground (arith, field_is-unmatched c (codes "tool_use_id") j b)

module _ (c : IdSet) (m : Value) where
  abbrev kept : List Value
  kept = (drop_where (orphan_block c) (blocks_of m)).0

  -- Every id that is called keeps its blocks.
  answers-kept :
      (j : Bytes)
      → has c j ≡ true
      → any (block_answers j) kept ≡ any (block_answers j) (blocks_of m)
  answers-kept j h =
      any-drop_where (orphan_block c) (λ b. is_all b) (block_answers j)
        (λ b _ o. orphan_block-answers c j b h o) (blocks_of m) (every (blocks_of m))
    where
      is_all : Value → Type 0
      is_all b = Unit

      every : (bs : List Value) → All (λ b. is_all b) bs
      every [] = tt
      every (b ∷ bs) = (tt, every bs)

  module _ (h : takes_blocks m ≡ true) (rest : List Value) where
    issues-keep :
        (p : is_plain m ≡ true) (j : Bytes) (bs : List Value)
        → any (issues j) (keep_blocks m bs rest) ≡ (issues j m || any (issues j) rest)
    unfolding keep_blocks
    issues-keep p j [] = ground (arith, issues-user j m h, user_plain m h p)
    issues-keep p j (b ∷ bs) =
        ap (λ x. x || any (issues j) rest)
          (issues-update m h (λ _. array (of_list (b ∷ bs))) (b ∷ bs) refl j)

    answers-keep :
        (p : is_plain m ≡ true) (j : Bytes) (bs : List Value)
        → any (block_answers j) bs ≡ any (block_answers j) (blocks_of m)
        → any (answers j) (keep_blocks m bs rest) ≡ (answers j m || any (answers j) rest)
    unfolding keep_blocks
    answers-keep p j [] e = ground (arith, answers-user j m h, user_plain m h p)
    answers-keep p j (b ∷ bs) e =
        ap (λ x. x || any (answers j) rest)
          (answers-update m h (λ _. array (of_list (b ∷ bs))) (b ∷ bs) refl j
            ∙ ground (arith, answers-user j m h))

    IsPlain-keep :
        (p : is_plain m ≡ true) (bs : List Value) → IsPlain rest → IsPlain (keep_blocks m bs rest)
    unfolding keep_blocks
    IsPlain-keep p [] q = q
    IsPlain-keep p (b ∷ bs) q = (is_plain-update m (λ _. array (of_list (b ∷ bs))) ∙ p, q)

    clean-keep :
        (bs : List Value)
        → any (orphan_block c) bs ≡ false
        → no_orphan_block c rest ≡ true
        → no_orphan_block c (keep_blocks m bs rest) ≡ true
    unfolding keep_blocks no_orphan_block clean_message
    clean-keep [] o q = q
    clean-keep (b ∷ bs) o q =
        rw (blocks_of-update m h (λ _. array (of_list (b ∷ bs))) (b ∷ bs) refl)
          (rw o (rw (takes_blocks-update m h (λ _. array (of_list (b ∷ bs))) (b ∷ bs) refl) q))

    keep_none :
        (bs : List Value)
        → bs ≡ blocks_of m
        → is_empty bs ≡ false
        → keep_blocks m bs rest ≡ m ∷ rest
    unfolding keep_blocks
    keep_none [] e n = cc
    keep_none (b ∷ bs) e n =
        ap (λ x. x ∷ rest)
          (update_self m (codes "content") (λ _. array (of_list (b ∷ bs))) (takes_blocks-array m h)
            (ap (λ xs. array (of_list xs)) e))

pub drop_blocks-calls :
    (c : IdSet) (j : Bytes) (ms : List Value)
    → IsPlain ms
    → any (issues j) (drop_blocks c ms).0 ≡ any (issues j) ms
unfolding drop_blocks
drop_blocks-calls c j [] p = refl
drop_blocks-calls c j (m ∷ ms) p = elim (Bool-cases (takes_blocks m)) [
  | inl h ↦ rw h (
      issues-keep c m h (drop_blocks c ms).0 p.0 j (kept c m)
      ∙ ap (λ b. issues j m || b) (drop_blocks-calls c j ms p.1))
  | inr h ↦ rw h (ap (λ b. issues j m || b) (drop_blocks-calls c j ms p.1))
]

pub drop_blocks-answers :
    (c : IdSet) (j : Bytes) (ms : List Value)
    → has c j ≡ true
    → IsPlain ms
    → any (answers j) (drop_blocks c ms).0 ≡ any (answers j) ms
unfolding drop_blocks
drop_blocks-answers c j [] k p = refl
drop_blocks-answers c j (m ∷ ms) k p = elim (Bool-cases (takes_blocks m)) [
  | inl h ↦ rw h (
      answers-keep c m h (drop_blocks c ms).0 p.0 j (kept c m) (answers-kept c m j k)
      ∙ ap (λ b. answers j m || b) (drop_blocks-answers c j ms k p.1))
  | inr h ↦ rw h (ap (λ b. answers j m || b) (drop_blocks-answers c j ms k p.1))
]

pub drop_blocks-IsPlain : (c : IdSet) (ms : List Value) → IsPlain ms → IsPlain (drop_blocks c ms).0
unfolding drop_blocks
drop_blocks-IsPlain c [] p = tt
drop_blocks-IsPlain c (m ∷ ms) p = elim (Bool-cases (takes_blocks m)) [
  | inl h ↦
      rw h (IsPlain-keep c m h (drop_blocks c ms).0 p.0 (kept c m) (drop_blocks-IsPlain c ms p.1))
  | inr h ↦ rw h (p.0, drop_blocks-IsPlain c ms p.1)
]

pub drop_blocks_clean :
    (c : IdSet) (ms : List Value) → no_orphan_block c (drop_blocks c ms).0 ≡ true
unfolding drop_blocks no_orphan_block clean_message
drop_blocks_clean c [] = refl
drop_blocks_clean c (m ∷ ms) = elim (Bool-cases (takes_blocks m)) [
  | inl h ↦ rw h (
      clean-keep c m h (drop_blocks c ms).0 (kept c m)
        (drop_where_clean (orphan_block c) (blocks_of m)) (drop_blocks_clean c ms))
  | inr h ↦ rw h (rw h (drop_blocks_clean c ms))
]

pub drop_blocks_none :
    (c : IdSet) (ms : List Value) → no_orphan_block c ms ≡ true → drop_blocks c ms ≡ (ms, 0)
unfolding drop_blocks no_orphan_block clean_message
drop_blocks_none c [] q = refl
drop_blocks_none c (m ∷ ms) q = elim (Bool-cases (takes_blocks m)) [
  | inl h ↦
      let u = drop_where_none (orphan_block c) (blocks_of m) (ground arith) in
      rw h (
        rw (drop_blocks_none c ms (ground arith))
          (rw u (ap (λ x. (x, 0)) (keep_none c m h ms (blocks_of m) refl (ground arith)))))
  | inr h ↦ rw h (rw (drop_blocks_none c ms (ground arith)) refl)
]

clean_message_ext :
    (c d : IdSet) (m : Value) → has c ≡ has d → clean_message c m ≡ clean_message d m
unfolding clean_message orphan_block
clean_message_ext c d m p =
    ap
      (λ (q : Value → Bool).
        not (takes_blocks m) || (not (any q (blocks_of m)) && not (is_empty (blocks_of m))))
      (fun_ext (λ b.
        ap (λ x. type_is (codes "tool_result") b && x)
          (unmatched_ext c d (codes "tool_use_id") b p)))

pub no_orphan_block_ext :
    (c d : IdSet) (ms : List Value) → has c ≡ has d → no_orphan_block c ms ≡ no_orphan_block d ms
unfolding no_orphan_block
no_orphan_block_ext c d ms p =
    ap (λ (q : Value → Bool). all q ms) (fun_ext (λ m. clean_message_ext c d m p))
