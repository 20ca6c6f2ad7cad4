-- ===== src/Fold/Register.antt =====
-- The register of an assistant turn (server-go/modules/economizer/register.go).
use aimee_module_economizer.Prelude.{
  ℕ, ◌+◌, Bool, true, false, ◌&&◌, ◌||◌, [], ◌∷◌, if◌then◌else◌, ◌==◌, leb, Bytes, codes,
}

pub data Register : Type 0 where
  in_progress executing verdict hazard blocked : Register

-- `Label`
unfoldable pub label : Register → Bytes
label executing = codes "exec"
label verdict = codes "verdict"
label hazard = codes "hazard"
label blocked = codes "blocked"
label in_progress = codes "wip"

-- `IsSettled`
unfoldable pub is_settled : Register → Bool
is_settled verdict = true
is_settled hazard = true
is_settled _ = false

-- an ASCII letter in lower case. `EqualFold` against an ASCII tag of the same number of bytes
-- compares so: a wider character would leave fewer characters than the tag has.
abbrev to_lower : ℕ → ℕ
to_lower c = if leb b'A' c && leb c b'Z' then c + 32 else c

-- `bracketTag`: the tag, in lower case, and the bracket behind it
unfoldable pub bracket_tag : Bytes → Bytes → Bool
bracket_tag [] tag = false
bracket_tag (c ∷ s) [] = c == b']'
bracket_tag (c ∷ s) (t ∷ tag) = to_lower c == t && bracket_tag s tag

unfoldable pub has_prefix : Bytes → Bytes → Bool
has_prefix s [] = true
has_prefix [] (p ∷ ps) = false
has_prefix (c ∷ s) (p ∷ ps) = c == p && has_prefix s ps

-- `TrimLeft(text, " \t\n\r")`
unfoldable pub trim_left : Bytes → Bytes
trim_left [] = []
trim_left (c ∷ s) = elim (c == b' ' || c == b'\t' || c == b'\n' || c == b'\r') [
  | true ↦ trim_left s
  | false ↦ c ∷ s
]

unfoldable pub tag_register : Bytes → Register
tag_register t =
    if bracket_tag t (codes "verdict") || bracket_tag t (codes "done")
    then verdict
    else if bracket_tag t (codes "hazard") || bracket_tag t (codes "warning")
    then hazard
    else if bracket_tag t (codes "executing") || bracket_tag t (codes "exec")
    then executing
    else if bracket_tag t (codes "blocked")
    then blocked
    else in_progress

abbrev in_brackets : Bytes → Register
in_brackets [] = in_progress
in_brackets (c ∷ t) = if c == b'[' then tag_register t else in_progress

-- `ParseRegister`: the glyphs are a flag, a magnifying glass, a triangle, a warning sign and a
-- question mark, in UTF-8
unfoldable pub parse_register : Bytes → Register
parse_register text =
    let s = trim_left text in
    if has_prefix s (0xf0 ∷ 0x9f ∷ 0x8f ∷ 0x81 ∷ [])
    then verdict
    else if has_prefix s (0xf0 ∷ 0x9f ∷ 0x94 ∷ 0x8d ∷ [])
    then in_progress
    else if has_prefix s (0xe2 ∷ 0x96 ∷ 0xb6 ∷ [])
    then executing
    else if has_prefix s (0xe2 ∷ 0x9a ∷ 0xa0 ∷ [])
    then hazard
    else if has_prefix s (0xe2 ∷ 0x9d ∷ 0x93 ∷ [])
    then blocked
    else in_brackets s
