-- ===== src/JsonCompact/Fuel.antt =====
-- The fuel of the loops of server-go/modules/economizer/json_compact.go: `parseString`, `parseArray`
-- and `parseObject` go round at most once for each byte of the input.
use aimee_module_economizer.Prelude.{
  ℕ, zero, suc, ◌-◌, ◌≤◌, ◌<◌, ◌≡◌, refl, inl, inr, Bool, true, List, [], ◌∷◌, ◌++◌, arith,
  if◌then◌else◌, ◌==◌, leb, Bytes, length, Bool-cases,
}
use aimee_module_economizer.JsonCompact.Lexical.{string_loop, string_item, skip_ws, parse_string}
use aimee_module_economizer.JsonCompact.Parser.{
  json_max_object_members, array_next, array_loop, member_value, object_next, object_loop,
  parse_value, Skipped,
}
use aimee_module_economizer.JsonCompact.Progress.{
  string_item_le, Parsed-cases, skip_ws_le, parse_string_lt,
}
use aimee_module_economizer.JsonCompact.Shorter.{
  Shortens, member_value-Shortens, parse_value-Shortens,
}

string_loop_fuel :
    (f g : ℕ) (d : Bool) (o s : Bytes)
    → length s ≤ f
    → length s ≤ g
    → string_loop f d o s ≡ string_loop g d o s
unfolding string_loop
string_loop_fuel zero zero d o s p q = refl
string_loop_fuel f g d o [] p q = ground arith
string_loop_fuel zero (suc g) d o (c ∷ s) p q = ground arith
string_loop_fuel (suc f) zero d o (c ∷ s) p q = ground arith
string_loop_fuel (suc f) (suc g) d o (c ∷ s) p q = elim (Bool-cases (c == b'"')) [
  | inl e ↦ rw (e, string_loop) refl
  | inr e ↦ elim (Parsed-cases (string_item c s)) [
    | inl (r, k) ↦ rw (e, k, string_loop) refl
    | inr (a, u, k) ↦
        rw (e, k, string_loop)
          (string_loop_fuel f g d (if d then o ++ a else o) u
            (omega (arith, string_item_le c s a u k)) (omega (arith, string_item_le c s a u k)))
  ]
]

-- two loops that agree on every input shorter than a bound
Agree : ℕ → (Bytes → Skipped) → (Bytes → Skipped) → Type 0
Agree n x y = (s : Bytes) → length s < n → x s ≡ y s

array_next_same :
    (n : ℕ) (x y : Bytes → Skipped)
    → Agree n x y
    → (s : Bytes) → length s ≤ n
    → array_next x s ≡ array_next y s
unfolding array_next Agree
array_next_same n x y p [] l = refl
array_next_same n x y p (c ∷ s) l = elim (Bool-cases (c == b',')) [
  | inl e ↦ rw (e, array_next) (p (skip_ws s) (omega (arith, skip_ws_le s)))
  | inr e ↦ rw (e, array_next) refl
]

object_next_same :
    (n : ℕ) (x y : Bytes → Skipped) (keys : List Bytes)
    → Agree n x y
    → (s : Bytes) → length s ≤ n
    → object_next x keys s ≡ object_next y keys s
unfolding object_next Agree
object_next_same n x y keys p [] l = refl
object_next_same n x y keys p (c ∷ s) l = elim (Bool-cases (c == b',')) [
  | inl e ↦ rw (e, object_next) (p s (omega arith))
  | inr e ↦ rw (e, object_next) refl
]

array_round_same :
    (value : Bytes → Skipped)
    → Shortens value
    → (n f g : ℕ) → Agree n (array_loop value f) (array_loop value g)
    → (s : Bytes) → length s ≤ suc n
    → array_loop value (suc f) s ≡ array_loop value (suc g) s
unfolding array_loop Shortens
array_round_same value shorter n f g a s p = elim (Parsed-cases (value s)) [
  | inl (r, k) ↦ rw (k, array_loop) refl
  | inr (tt, u, k) ↦
      rw (k, array_loop)
        (array_next_same n (array_loop value f) (array_loop value g) a (skip_ws u)
          (omega (arith, shorter s u k, skip_ws_le u)))
]

array_loop-Agree :
    (value : Bytes → Skipped)
    → Shortens value
    → (n f g : ℕ) → n ≤ f
    → n ≤ g
    → Agree n (array_loop value f) (array_loop value g)
unfolding Agree
array_loop-Agree value shorter n zero g p q s l = ground arith
array_loop-Agree value shorter n (suc f) zero p q s l = ground arith
array_loop-Agree value shorter n (suc f) (suc g) p q s l =
    array_round_same value shorter (n - 1) f g
      (array_loop-Agree value shorter (n - 1) f g (omega arith) (omega arith)) s (omega arith)

object_round_same :
    (value : Bytes → Skipped)
    → Shortens value
    → (n f g : ℕ)
    → ((keys : List Bytes) → Agree n (object_loop value f keys) (object_loop value g keys))
    → (keys : List Bytes) (s : Bytes) → length s ≤ suc n
    → object_loop value (suc f) keys s ≡ object_loop value (suc g) keys s
unfolding object_loop Shortens
object_round_same value shorter n f g a keys s p =
    elim (Parsed-cases (parse_string true (skip_ws s))) [
      | inl (r, k) ↦ rw (k, object_loop) refl
      | inr (key, t, k) ↦ elim (Bool-cases (leb json_max_object_members (length keys))) [
        | inl e ↦ rw (k, e, object_loop) refl
        | inr e ↦ elim (Parsed-cases (member_value value (skip_ws t))) [
          | inl (r, m) ↦ rw (k, e, m, object_loop) refl
          | inr (tt, u, m) ↦
              rw (k, e, m, object_loop)
                (object_next_same n (object_loop value f (keys ++ key ∷ []))
                  (object_loop value g (keys ++ key ∷ [])) (keys ++ key ∷ []) (a (keys ++ key ∷ []))
                  (skip_ws u)
                  (omega (
                    arith,
                    parse_string_lt true (skip_ws s) key t k,
                    skip_ws_le s,
                    skip_ws_le t,
                    member_value-Shortens value shorter (skip_ws t) u m,
                    skip_ws_le u,
                  )))
        ]
      ]
    ]

object_loop-Agree :
    (value : Bytes → Skipped)
    → Shortens value
    → (n f g : ℕ) → n ≤ f
    → n ≤ g
    → (keys : List Bytes) → Agree n (object_loop value f keys) (object_loop value g keys)
unfolding Agree
object_loop-Agree value shorter n zero g p q keys s l = ground arith
object_loop-Agree value shorter n (suc f) zero p q keys s l = ground arith
object_loop-Agree value shorter n (suc f) (suc g) p q keys s l =
    object_round_same value shorter (n - 1) f g
      (object_loop-Agree value shorter (n - 1) f g (omega arith) (omega arith)) keys s (omega arith)

-- With a round for each byte of the input, and one at least, the loops of `parseString`,
-- `parseArray` and `parseObject` run out of input before they run out of rounds: any more fuel
-- gives the same result, at every depth, with or without decoding, and whatever the string read so far and
-- the names read so far.
pub enough_fuel :
    (left f : ℕ) (d : Bool) (o : Bytes) (keys : List Bytes) (s : Bytes)
    → length s ≤ suc f
    → (string_loop (suc f) d o s ≡ string_loop (length s) d o s)
      × (array_loop (parse_value left) (suc f) s
          ≡ array_loop (parse_value left) (suc (length s - 1)) s)
      × (object_loop (parse_value left) (suc f) keys s
          ≡ object_loop (parse_value left) (suc (length s - 1)) keys s)
enough_fuel left f d o keys s p = (
  string_loop_fuel (suc f) (length s) d o s p (omega arith),
  array_round_same (parse_value left) (parse_value-Shortens left) (length s - 1) f (length s - 1)
      (array_loop-Agree (parse_value left) (parse_value-Shortens left) (length s - 1) f
        (length s - 1) (omega arith) (omega arith))
      s (omega arith),
  object_round_same (parse_value left) (parse_value-Shortens left) (length s - 1) f (length s - 1)
      (object_loop-Agree (parse_value left) (parse_value-Shortens left) (length s - 1) f
        (length s - 1) (omega arith) (omega arith))
      keys s (omega arith),
)
