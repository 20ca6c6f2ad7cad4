-- ===== src/Repair/Again.antt =====
-- A repaired transcript under a second repair: what sanitizing it again leaves alone
-- (server-go/modules/economizer/repair.go).
use aimee_module_economizer.Prelude.{
  refl, false, not, ap, codes, ◌&&◌, ap₂, eq_bytes, Bool, List, [], ◌∷◌, ◌≡◌, ◌∙◌, sym, Bytes, map,
}
use aimee_module_economizer.Json.{Value}
use aimee_module_economizer.Repair.Strategy.{no_orphan}
use aimee_module_economizer.Repair.Anthropic.Dropping.{clean_message, no_orphan_block}
use aimee_module_economizer.Repair.Scan.{issues, answers, is_called, is_answered}
use aimee_module_economizer.Repair.Pairing.{IsPlain, IsAnswered}
use aimee_module_economizer.Repair.History.{sanitize_message}
use aimee_module_economizer.Repair.Sanitize.{
  string_field-sanitize, content-sanitize, role-sanitize, type-sanitize, any-map_same,
  issues-sanitize, answers-sanitize, is_plain-sanitize,
}
use aimee_module_economizer.Repair.IdSet.{IdSet}
use aimee_module_economizer.Repair.Orphans.{
  takes_blocks, unmatched, orphan_openai, orphan_responses,
}

module _ (is_json : Bytes → Bool) where
  abbrev pub sanitized : List Value → List Value
  sanitized = map (sanitize_message is_json)

  pub is_called-sanitized :
      (j : Bytes) (ms : List Value) → is_called j (sanitized ms) ≡ is_called j ms
  is_called-sanitized j ms =
      any-map_same (issues j) (sanitize_message is_json) ms (issues-sanitize is_json j)

  pub is_answered-sanitized :
      (j : Bytes) (ms : List Value) → is_answered j (sanitized ms) ≡ is_answered j ms
  is_answered-sanitized j ms =
      any-map_same (answers j) (sanitize_message is_json) ms (answers-sanitize is_json j)

  pub sanitized-IsPlain : (ms : List Value) → IsPlain ms → IsPlain (sanitized ms)
  sanitized-IsPlain [] p = tt
  sanitized-IsPlain (m ∷ ms) p = (is_plain-sanitize is_json m ∙ p.0, sanitized-IsPlain ms p.1)

  pub sanitized-IsAnswered : (ms : List Value) → IsAnswered ms → IsAnswered (sanitized ms)
  sanitized-IsAnswered ms a j e =
      is_answered-sanitized j ms ∙ a j (sym (is_called-sanitized j ms) ∙ e)

  unmatched-sanitize :
      (c : IdSet) (m : Value) (key : Bytes)
      → eq_bytes (codes "tool_calls") key ≡ false
      → unmatched c key (sanitize_message is_json m) ≡ unmatched c key m
  unfolding unmatched
  unmatched-sanitize c m key h = rw (string_field-sanitize is_json m key h, unmatched)

  -- Each strategy's sign that nothing is left to drop reads the same.
  orphan_openai-sanitize :
      (c : IdSet) (m : Value) → orphan_openai c (sanitize_message is_json m) ≡ orphan_openai c m
  unfolding orphan_openai eq_bytes
  orphan_openai-sanitize c m =
      rw (role-sanitize is_json m) (rw (unmatched-sanitize c m (codes "tool_call_id") refl) refl)

  orphan_responses-sanitize :
      (c : IdSet) (m : Value)
      → orphan_responses c (sanitize_message is_json m) ≡ orphan_responses c m
  unfolding orphan_responses eq_bytes
  orphan_responses-sanitize c m =
      rw (type-sanitize is_json m) (rw (unmatched-sanitize c m (codes "call_id") refl) refl)

  pub no_orphan-openai :
      (c : IdSet) (ms : List Value)
      → no_orphan orphan_openai c (sanitized ms) ≡ no_orphan orphan_openai c ms
  no_orphan-openai c ms =
      ap not
        (any-map_same (orphan_openai c) (sanitize_message is_json) ms (orphan_openai-sanitize c))

  pub no_orphan-responses :
      (c : IdSet) (ms : List Value)
      → no_orphan orphan_responses c (sanitized ms) ≡ no_orphan orphan_responses c ms
  no_orphan-responses c ms = ap not (
      any-map_same (orphan_responses c) (sanitize_message is_json) ms (orphan_responses-sanitize c))

  clean_message-sanitize :
      (c : IdSet) (m : Value) → clean_message c (sanitize_message is_json m) ≡ clean_message c m
  unfolding clean_message takes_blocks
  clean_message-sanitize c m = rw (role-sanitize is_json m) (rw (content-sanitize is_json m) refl)

  pub no_orphan_block-sanitized :
      (c : IdSet) (ms : List Value) → no_orphan_block c (sanitized ms) ≡ no_orphan_block c ms
  unfolding no_orphan_block
  no_orphan_block-sanitized c [] = refl
  no_orphan_block-sanitized c (m ∷ ms) =
      ap₂ ◌&&◌ (clean_message-sanitize c m) (no_orphan_block-sanitized c ms)
