-- ===== src/JsonCompact/Theorems.antt =====
-- What `JSONCompact` returns on each path (server-go/modules/economizer/json_compact.go).
use aimee_module_economizer.JsonCompact.Copy.{
  length-copy_loop, copy_loop-copy_loop, solid-copy_loop, outside, solid, copy_loop_full, copy,
}
use aimee_module_economizer.Prelude.{subst, ◌∙◌}
use aimee_module_economizer.JsonCompact.Literals.{Compacts, copy-Compacts, Compacts-copy}
use aimee_module_economizer.JsonCompact.Compact.{json_max_input, validate, json_compact, copy_valid}
use aimee_module_economizer.Prelude.{
  ◌≤◌, ◌<◌, ◌≡◌, ap, ◌≢◌, ◌↔◌, none, some, [], arith, Bytes, length,
}
use aimee_module_economizer.JsonCompact.Lexical.{ok, not_shorter, JsonResult}

copy_valid-ok :
    (input : Bytes) (r : JsonResult) {out : Bytes}
    → copy_valid input r ≡ (some out, ok)
    → (r ≡ ok) × (copy input ≡ out) × (length out < length input)
unfolding copy_valid
copy_valid-ok input ok h = ground arith
copy_valid-ok input _ h = cc

json_compact-valid :
    (input : Bytes) {out : Bytes}
    → json_compact input ≡ (some out, ok)
    → copy_valid input (validate input) ≡ (some out, ok)
unfolding json_compact
json_compact-valid input h = ground arith

-- A compaction that succeeds is of a valid document within the size limit: its output is shorter, and it
-- is the input without the whitespace outside its string literals, every literal and every other byte
-- kept, which no other text is; it keeps every byte that is no whitespace in order, and a second copy pass
-- takes nothing from it.
pub json_compact-ok :
    (input : Bytes) {out : Bytes}
    → json_compact input ≡ (some out, ok)
    → (validate input ≡ ok)
      × (length input ≤ json_max_input)
      × (length out < length input)
      × Compacts input out
      × ((t : Bytes) → Compacts input t → t ≡ out)
      × (solid out ≡ solid input)
      × (copy out ≡ out)
unfolding json_compact copy
json_compact-ok input {out} h =
    let (v, e, l) = copy_valid-ok input (validate input) (json_compact-valid input h) in
    (
      v,
      ground arith,
      l,
      subst (Compacts input) e (copy-Compacts input),
      λ t k. Compacts-copy k ∙ e,
      rw (← e) (solid-copy_loop outside input),
      rw (← e) (copy_loop-copy_loop outside input),
    )

copy_valid-not_shorter :
    (input : Bytes) (r : JsonResult)
    → r ≢ not_shorter
    → copy_valid input r ≡ (none, not_shorter)
    → (r ≡ ok) × (length input ≤ length (copy input))
unfolding copy_valid
copy_valid-not_shorter input ok n h = ground arith
copy_valid-not_shorter input _ n h = absurd (n cc)

-- A valid document is refused as `not_shorter` exactly if the copy pass changes nothing.
pub json_compact-not_shorter :
    (input : Bytes)
    → validate input ≡ ok
    → length input ≤ json_max_input
    → input ≢ []
    → (json_compact input ≡ (none, not_shorter)) ↔ (copy input ≡ input)
unfolding json_compact copy_valid copy
json_compact-not_shorter input v l n = (
  λ h. copy_loop_full outside input (ground (arith, length-copy_loop outside input)),
  λ e. ground (arith, ap length e),
)
