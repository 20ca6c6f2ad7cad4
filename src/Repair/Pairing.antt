-- ===== src/Repair/Pairing.antt =====
-- What it means that a transcript is paired, and the wire shape that the repairs rely on.
use aimee_module_economizer.Prelude.{
  Bool, true, not, ◌||◌, List, [], ◌≡◌, Bytes, codes, eq_bytes, All,
}
use aimee_module_economizer.Json.{Value, get_string}
use aimee_module_economizer.Repair.Scan.{is_called, is_answered, type_is}

-- A Responses item (`function_call` or `function_call_output`) carries no role.
unfoldable pub is_plain : Value → Bool
is_plain msg =
    eq_bytes (get_string msg (codes "role")) []
    || not (type_is (codes "function_call") msg || type_is (codes "function_call_output") msg)

abbrev pub IsPlain : List Value → Type 0
IsPlain ms = All (λ m. is_plain m ≡ true) ms

-- Every call has a result.
abbrev pub IsAnswered : List Value → Type 0
IsAnswered ms = (id : Bytes) → is_called id ms ≡ true → is_answered id ms ≡ true
