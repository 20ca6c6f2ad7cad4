-- ===== src/Recall/Tests.antt =====
-- Turns of server-go/modules/economizer/recall_test.go, and the theorems at them.
use aimee_module_economizer.Prelude.{
  ◌≡◌, refl, true, false, List, [], ◌∷◌, arith, Bytes, codes, eq_bytes,
}
use aimee_module_economizer.Prelude.Int.{pos, negsuc, ◌-ℤ◌}
use aimee_module_economizer.Prelude.Int64.{wrap_int64}
use aimee_module_economizer.Recall.{
  RecallIndex, add, lookup, put, detect, detect_loop, surfaces, contains_token, token_from,
  ends_here, behind, is_coord_char,
}
use aimee_module_economizer.Recall.Token.{Token, contains_token-Token}
use aimee_module_economizer.Recall.Residency.{is_surfaced, detect-detect}

abbrev blank : RecallIndex
blank = record { keys = []; last_turn = [] }

abbrev one_key : RecallIndex
one_key = record { keys = codes "/x" ∷ []; last_turn = (codes "/x", negsuc 0) ∷ [] }

added : add (codes "/x") (add (codes "/x") blank) ≡ one_key
unfolding add lookup put eq_bytes
added = refl

run : List Bytes × RecallIndex
unfolding detect detect_loop surfaces contains_token token_from ends_here behind is_coord_char
    lookup put eq_bytes wrap_int64 ◌-ℤ◌
run = detect (codes "see /x") (pos 3) (pos 0) one_key

surfaced : is_surfaced (codes "/x") (detect (codes "see /x") (pos 3) (pos 0) one_key).0 ≡ true
unfolding run
surfaced = refl

longer_path : contains_token (codes "/xyz") (codes "/x") ≡ false
unfolding run
longer_path = refl

detect-detect_example :
    is_surfaced
      (codes "/x")
      (detect (codes "/x") (pos 5) (pos 0) (detect (codes "see /x") (pos 3) (pos 0) one_key).1).0
    ≡ false
detect-detect_example =
    detect-detect (codes "see /x") (codes "/x") 3 5 (pos 0) one_key (codes "/x") (omega arith)
      (omega arith) (omega arith) surfaced

named : eq_bytes (codes "/x") [] ≡ false
unfolding eq_bytes
named = refl

contains_token-Token_example :
    (contains_token (codes "see /x") (codes "/x") ≡ true → Token true (codes "see /x") (codes "/x"))
    × (Token true (codes "see /x") (codes "/x")
        → contains_token (codes "see /x") (codes "/x") ≡ true)
contains_token-Token_example = contains_token-Token (codes "see /x") (codes "/x") named
