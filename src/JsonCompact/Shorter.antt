-- ===== src/JsonCompact/Shorter.antt =====
-- The parsers of arrays, objects and values of server-go/modules/economizer/json_compact.go: what
-- is left behind a value is shorter than the input.
use aimee_module_economizer.Prelude.{
  ℕ, zero, suc, ◌<◌, ◌≡◌, inl, inr, true, false, List, [], ◌∷◌, ◌++◌, arith, if◌then◌else◌, ◌==◌,
  leb, Bytes, codes, length, Bool-cases,
}
use aimee_module_economizer.JsonCompact.Lexical.{done, skip_ws, parse_string, parse_number}
use aimee_module_economizer.JsonCompact.Parser.{
  json_max_object_members, array_items, object_items, forget, lit, array_next, array_loop,
  parse_array, member_value, object_next, object_loop, parse_object, value_at, parse_value, Skipped,
}
use aimee_module_economizer.JsonCompact.Progress.{
  Parsed-cases, skip_ws_le, parse_string_lt, parse_number_lt, lit_lt,
}

-- a parser that takes a byte at least when it succeeds
unfoldable pub Shortens : (Bytes → Skipped) → Type 0
Shortens value = (s t : Bytes) → value s ≡ done tt t → length t < length s

array_next-Shortens : (again : Bytes → Skipped) → Shortens again → Shortens (array_next again)
unfolding Shortens array_next
array_next-Shortens again p [] t h = cc
array_next-Shortens again p (c ∷ s) t h = elim (Bool-cases (c == b',')) [
  | inl e ↦ omega (arith, p (skip_ws s) t (rw (e, array_next) at h), skip_ws_le s)
  | inr e ↦ ground (arith, rw (e, array_next) at h)
]

array_loop-Shortens :
    (value : Bytes → Skipped) → Shortens value → (fuel : ℕ) → Shortens (array_loop value fuel)
unfolding Shortens array_loop
array_loop-Shortens value p zero s t h = cc
array_loop-Shortens value p (suc fuel) s t h = elim (Parsed-cases (value s)) [
  | inl (r, q) ↦ cc (rw (q, array_loop) at h)
  | inr (tt, u, q) ↦ omega (
    arith,
    p s u q,
    skip_ws_le u,
    array_next-Shortens (array_loop value fuel) (array_loop-Shortens value p fuel) (skip_ws u) t
        (rw (q, array_loop) at h),
  )
]

array_items-Shortens : (value : Bytes → Skipped) → Shortens value → Shortens (array_items value)
unfolding Shortens
array_items-Shortens value p [] t h = array_loop-Shortens value p 1 [] t h
array_items-Shortens value p (c ∷ s) t h = elim (Bool-cases (c == b']')) [
  | inl e ↦ ground (arith, rw e at h)
  | inr e ↦ array_loop-Shortens value p (length (c ∷ s)) (c ∷ s) t (rw e at h)
]

pub member_value-Shortens :
    (value : Bytes → Skipped) → Shortens value → Shortens (member_value value)
unfolding Shortens member_value
member_value-Shortens value p [] t h = cc
member_value-Shortens value p (c ∷ s) t h = elim (Bool-cases (c == b':')) [
  | inl e ↦ omega (arith, p (skip_ws s) t (rw (e, member_value) at h), skip_ws_le s)
  | inr e ↦ cc (rw (e, member_value) at h)
]

object_next-Shortens :
    (again : Bytes → Skipped) (keys : List Bytes)
    → Shortens again
    → Shortens (object_next again keys)
unfolding Shortens object_next
object_next-Shortens again keys p [] t h = cc
object_next-Shortens again keys p (c ∷ s) t h = elim (Bool-cases (c == b',')) [
  | inl e ↦ omega (arith, p s t (rw (e, object_next) at h))
  | inr e ↦ ground (arith, rw (e, object_next) at h)
]

object_loop-Shortens :
    (value : Bytes → Skipped)
    → Shortens value
    → (fuel : ℕ) (keys : List Bytes) → Shortens (object_loop value fuel keys)
unfolding Shortens object_loop
object_loop-Shortens value p zero keys s t h = cc
object_loop-Shortens value p (suc fuel) keys s t h =
    elim (Parsed-cases (parse_string true (skip_ws s))) [
      | inl (r, q) ↦ cc (rw (q, object_loop) at h)
      | inr (key, u, q) ↦ elim (Bool-cases (leb json_max_object_members (length keys))) [
        | inl e ↦ cc (rw (q, e, object_loop) at h)
        | inr e ↦ elim (Parsed-cases (member_value value (skip_ws u))) [
          | inl (r, f) ↦ cc (rw (q, e, f, object_loop) at h)
          | inr (tt, v, f) ↦ omega (
            arith,
            skip_ws_le s,
            parse_string_lt true (skip_ws s) key u q,
            skip_ws_le u,
            member_value-Shortens value p (skip_ws u) v f,
            skip_ws_le v,
            object_next-Shortens (object_loop value fuel (keys ++ key ∷ [])) (keys ++ key ∷ [])
                (object_loop-Shortens value p fuel (keys ++ key ∷ [])) (skip_ws v) t
                (rw (q, e, f, object_loop) at h),
          )
        ]
      ]
    ]

object_items-Shortens : (value : Bytes → Skipped) → Shortens value → Shortens (object_items value)
unfolding Shortens
object_items-Shortens value p [] t h = object_loop-Shortens value p 1 [] [] t h
object_items-Shortens value p (c ∷ s) t h = elim (Bool-cases (c == b'}')) [
  | inl e ↦ ground (arith, rw e at h)
  | inr e ↦ object_loop-Shortens value p (length (c ∷ s)) [] (c ∷ s) t (rw e at h)
]

forget_lt : (s t : Bytes) → forget (parse_string false s) ≡ done tt t → length t < length s
forget_lt s t h = elim (Parsed-cases (parse_string false s)) [
  | inl (r, q) ↦ cc (rw q at h)
  | inr (w, u, q) ↦ ground (arith, rw q at h, parse_string_lt false s w u q)
]

scalar_lt :
    (c : ℕ) (s t : Bytes)
    → (if c == b'"'
        then forget (parse_string false (c ∷ s))
        else if c == b't'
        then lit (codes "true") (c ∷ s)
        else if c == b'f'
        then lit (codes "false") (c ∷ s)
        else if c == b'n'
        then lit (codes "null") (c ∷ s)
        else parse_number (c ∷ s))
      ≡ done tt t
    → length t < length (c ∷ s)
scalar_lt c s t h = elim (Bool-cases (c == b'"')) [
  | inl e ↦ forget_lt (c ∷ s) t (rw e at h)
  | inr e ↦ elim (Bool-cases (c == b't')) [
    | inl f ↦ lit_lt b't' (codes "rue") (c ∷ s) t (rw (e, f) at h)
    | inr f ↦ elim (Bool-cases (c == b'f')) [
      | inl g ↦ lit_lt b'f' (codes "alse") (c ∷ s) t (rw (e, f, g) at h)
      | inr g ↦ elim (Bool-cases (c == b'n')) [
        | inl k ↦ lit_lt b'n' (codes "ull") (c ∷ s) t (rw (e, f, g, k) at h)
        | inr k ↦ parse_number_lt (c ∷ s) t (rw (e, f, g, k) at h)
      ]
    ]
  ]
]

value_at-Shortens : (value : Bytes → Skipped) → Shortens value → Shortens (value_at value)
unfolding Shortens value_at parse_object parse_array
value_at-Shortens value p [] t h = cc
value_at-Shortens value p (c ∷ s) t h = elim (Bool-cases (c == b'{')) [
  | inl e ↦ omega (
    arith,
    skip_ws_le s,
    object_items-Shortens value p (skip_ws s) t (rw (e, value_at, parse_object) at h),
  )
  | inr e ↦ elim (Bool-cases (c == b'[')) [
    | inl f ↦ omega (
      arith,
      skip_ws_le s,
      array_items-Shortens value p (skip_ws s) t (rw (e, f, value_at, parse_array) at h),
    )
    | inr f ↦ scalar_lt c s t (rw (e, f, value_at) at h)
  ]
]

pub parse_value-Shortens : (left : ℕ) → Shortens (parse_value left)
unfolding Shortens parse_value
parse_value-Shortens zero s t h = cc
parse_value-Shortens (suc left) s t h = omega (
  arith,
  skip_ws_le s,
  value_at-Shortens (parse_value left) (parse_value-Shortens left) (skip_ws s) t h,
)
