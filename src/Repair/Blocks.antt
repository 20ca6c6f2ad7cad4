-- ===== src/Repair/Blocks.antt =====
-- Messages whose content is an array of blocks, and what a change of the blocks does to the ids
-- that they issue and answer (server-go/modules/economizer/repair.go, the Anthropic shape).
use aimee_module_economizer.Prelude.{
  Bool, true, false, ◌&&◌, ◌||◌, List, [], none, some, Option, ◌≡◌, refl, ap, ◌∙◌, sym, arith,
  Bytes, codes, eq_bytes, eq_bytes_iff, any,
}
use aimee_module_economizer.Json.{
  Value, array, of_list, get, get_string, update, items_of, is_array,
}
use aimee_module_economizer.Json.Laws.{
  get-update, get-update_ne, get_string-update_ne, to_list-of_list, of_list-to_list,
}
use aimee_module_economizer.Repair.Collect.{string_field}
use aimee_module_economizer.Repair.Scan.{issues, answers, field_is, role_is, type_is}
use aimee_module_economizer.Repair.Orphans.{takes_blocks}
use aimee_module_economizer.Repair.Pairing.{is_plain}

-- The block is a result for this id.
abbrev pub block_answers : Bytes → Value → Bool
block_answers j b = type_is (codes "tool_result") b && field_is (codes "tool_use_id") j b

abbrev pub blocks_of : Value → List Value
blocks_of m = items_of (get m (codes "content"))

abbrev pub is_output : Bytes → Value → Bool
is_output j m = type_is (codes "function_call_output") m && field_is (codes "call_id") j m

content_ne :
    (eq_bytes (codes "content") (codes "role") ≡ false)
    × (eq_bytes (codes "content") (codes "type") ≡ false)
    × (eq_bytes (codes "content") (codes "call_id") ≡ false)
unfolding eq_bytes
content_ne = (refl, refl, refl)

pub role-update :
    (m : Value) (f : Value → Value)
    → get_string (update m (codes "content") f) (codes "role") ≡ get_string m (codes "role")
role-update m f = get_string-update_ne m (codes "content") (codes "role") f content_ne.0

pub type-update :
    (m : Value) (f : Value → Value)
    → get_string (update m (codes "content") f) (codes "type") ≡ get_string m (codes "type")
type-update m f = get_string-update_ne m (codes "content") (codes "type") f content_ne.1

string_field-update :
    (m : Value) (f : Value → Value)
    → string_field (update m (codes "content") f) (codes "call_id")
      ≡ string_field m (codes "call_id")
unfolding string_field
string_field-update m f = rw (get-update_ne m (codes "content") (codes "call_id") f content_ne.2)

call_id-update :
    (m : Value) (f : Value → Value) (j : Bytes)
    → field_is (codes "call_id") j (update m (codes "content") f) ≡ field_is (codes "call_id") j m
unfolding field_is
call_id-update m f j = rw (string_field-update m f, field_is)

pub content-update :
    (m : Value) (f : Value → Value) {vs : Value}
    → get m (codes "content") ≡ some vs
    → get (update m (codes "content") f) (codes "content") ≡ some (f vs)
unfolding eq_bytes
content-update m f h = get-update m (codes "content") (codes "content") f ∙ rw h

-- A message that takes blocks has an array for its content.
pub takes_blocks-array :
    (m : Value)
    → takes_blocks m ≡ true
    → get m (codes "content") ≡ some (array (of_list (blocks_of m)))
unfolding takes_blocks is_array
takes_blocks-array m h = go (get m (codes "content")) (ground arith)
  where
    go : (o : Option Value) → is_array o ≡ true → o ≡ some (array (of_list (items_of o)))
    go (some (array vs)) e = ap (λ xs. some (array xs)) (sym (of_list-to_list vs))
    go none e = cc
    go (some _) e = cc

user_role :
    (m : Value)
    → takes_blocks m ≡ true
    → (role_is (codes "tool") m ≡ false)
      × (role_is (codes "user") m ≡ true)
      × (role_is (codes "assistant") m ≡ false)
unfolding takes_blocks
user_role m h = ground (
  arith,
  eq_bytes_iff (get_string m (codes "role")) (codes "tool"),
  eq_bytes_iff (get_string m (codes "role")) (codes "user"),
  eq_bytes_iff (get_string m (codes "role")) (codes "assistant"),
)

-- A plain message that takes blocks is no Responses item.
pub user_plain :
    (m : Value)
    → takes_blocks m ≡ true
    → is_plain m ≡ true
    → (type_is (codes "function_call") m ≡ false)
      × (type_is (codes "function_call_output") m ≡ false)
unfolding takes_blocks is_plain
user_plain m h p = ground (
  arith,
  eq_bytes_iff (get_string m (codes "role")) (codes "user"),
  eq_bytes_iff (get_string m (codes "role")) [],
)

pub issues-user :
    (j : Bytes) (m : Value)
    → takes_blocks m ≡ true
    → issues j m ≡ (type_is (codes "function_call") m && field_is (codes "call_id") j m)
unfolding issues
issues-user j m h = ground (arith, user_role m h)

pub answers-user :
    (j : Bytes) (m : Value)
    → takes_blocks m ≡ true
    → answers j m ≡ (any (block_answers j) (blocks_of m) || is_output j m)
unfolding answers
answers-user j m h = ground (arith, user_role m h)

pub is_plain-update :
    (m : Value) (f : Value → Value) → is_plain (update m (codes "content") f) ≡ is_plain m
unfolding is_plain
is_plain-update m f = rw (role-update m f, type-update m f) refl

-- The message with other blocks: `f` is what is done to its content.
module _ (m : Value) (h : takes_blocks m ≡ true) (f : Value → Value) (vs : List Value)
    (e : f (array (of_list (blocks_of m))) ≡ array (of_list vs)) where
  content_is : get (update m (codes "content") f) (codes "content") ≡ some (array (of_list vs))
  content_is = content-update m f (takes_blocks-array m h) ∙ ap some e

  pub takes_blocks-update : takes_blocks (update m (codes "content") f) ≡ true
  unfolding takes_blocks is_array
  takes_blocks-update = rw (role-update m f, content_is) (ground arith)

  pub blocks_of-update : blocks_of (update m (codes "content") f) ≡ vs
  blocks_of-update = rw content_is (to_list-of_list vs)

  pub issues-update : (j : Bytes) → issues j (update m (codes "content") f) ≡ issues j m
  issues-update j =
      issues-user j (update m (codes "content") f) takes_blocks-update
      ∙ rw (type-update m f, call_id-update m f j) (sym (issues-user j m h))

  pub answers-update :
      (j : Bytes)
      → answers j (update m (codes "content") f) ≡ (any (block_answers j) vs || is_output j m)
  answers-update j =
      answers-user j (update m (codes "content") f) takes_blocks-update
      ∙ rw (type-update m f, call_id-update m f j, blocks_of-update) refl
