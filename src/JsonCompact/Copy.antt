-- ===== src/JsonCompact/Copy.antt =====
-- The copy pass of `JSONCompact` (server-go/modules/economizer/json_compact.go): it drops the
-- whitespace outside strings and keeps every other byte.
use aimee_module_economizer.Prelude.{
  ℕ, ◌≤◌, ◌≡◌, refl, ap, ◌∙◌, inl, inr, Bool, true, false, not, ◌&&◌, [], ◌∷◌, arith, if◌then◌else◌,
  ◌==◌, Bytes, length, Bool-cases,
}
use aimee_module_economizer.JsonCompact.Lexical.{json_ws}

-- The loop's two flags, `inString` and `escaped`.
pub record Copy : Type 0 where
  pub in_string : Bool
  pub escaped : Bool

abbrev pub outside : Copy
outside = record { in_string = false; escaped = false }

unfoldable pub copy_step : Copy → ℕ → Copy
copy_step st c =
    if st.in_string
    then (if st.escaped
        then record st { escaped = false }
        else if c == b'\\'
        then record st { escaped = true }
        else if c == b'"'
        then record st { in_string = false }
        else st)
    else if c == b'"'
    then record st { in_string = true }
    else st

-- The byte is whitespace outside a string.
abbrev pub is_removed : Copy → ℕ → Bool
is_removed st c = not st.in_string && json_ws c

unfoldable pub copy_loop : Copy → Bytes → Bytes
copy_loop st [] = []
copy_loop st (c ∷ s) =
    let rest = copy_loop (if is_removed st c then st else copy_step st c) s in
    if is_removed st c then rest else c ∷ rest

unfoldable pub copy : Bytes → Bytes
copy s = copy_loop outside s

pub length-copy_loop : (st : Copy) (s : Bytes) → length (copy_loop st s) ≤ length s
unfolding copy_loop
length-copy_loop st [] = omega arith
length-copy_loop st (c ∷ s) = elim (Bool-cases (is_removed st c)) [
  | inl e ↦ rw e (omega (arith, length-copy_loop st s))
  | inr e ↦ rw e (omega (arith, length-copy_loop (copy_step st c) s))
]

-- A copy of the same length is the input.
pub copy_loop_full :
    (st : Copy) (s : Bytes) → length s ≤ length (copy_loop st s) → copy_loop st s ≡ s
unfolding copy_loop
copy_loop_full st [] h = refl
copy_loop_full st (c ∷ s) h = elim (Bool-cases (is_removed st c)) [
  | inl e ↦ absurd (omega (arith, length-copy_loop st s, rw e at h))
  | inr e ↦ rw e (ap (◌∷◌ c) (copy_loop_full (copy_step st c) s (omega (arith, rw e at h))))
]

-- A second copy removes nothing.
pub copy_loop-copy_loop : (st : Copy) (s : Bytes) → copy_loop st (copy_loop st s) ≡ copy_loop st s
unfolding copy_loop
copy_loop-copy_loop st [] = refl
copy_loop-copy_loop st (c ∷ s) = elim (Bool-cases (is_removed st c)) [
  | inl e ↦ rw e (copy_loop-copy_loop st s)
  | inr e ↦ rw e (rw e (ap (◌∷◌ c) (copy_loop-copy_loop (copy_step st c) s)))
]

-- the bytes that are no whitespace, in order
abbrev pub solid : Bytes → Bytes
solid [] = []
solid (c ∷ s) = if json_ws c then solid s else c ∷ solid s

-- Every byte that is no whitespace is kept, in order.
pub solid-copy_loop : (st : Copy) (s : Bytes) → solid (copy_loop st s) ≡ solid s
unfolding copy_loop
solid-copy_loop st [] = refl
solid-copy_loop st (c ∷ s) = elim (Bool-cases (is_removed st c)) [
  | inl e ↦ rw e (solid-copy_loop st s ∙ ground arith)
  | inr e ↦ rw e (ap (λ r. if json_ws c then r else c ∷ r) (solid-copy_loop (copy_step st c) s))
]
