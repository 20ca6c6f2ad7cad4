-- ===== src/JsonCompact/Progress.antt =====
-- The tokens and values of server-go/modules/economizer/json_compact.go take bytes from the input:
-- what is left behind each is shorter.
use aimee_module_economizer.Prelude.{
  ℕ, zero, suc, ◌+◌, ◌*◌, ◌≤◌, ◌<◌, ◌≡◌, refl, ◌⊎◌, inl, inr, Bool, true, false, ◌&&◌, Option, none,
  some, [], ◌∷◌, ◌++◌, arith, if◌then◌else◌, ◌==◌, ltb, leb, Bytes, length, Bool-cases,
  Option-cases, drop,
}
use aimee_module_economizer.JsonCompact.Lexical.{
  cont, in_range, byte_at, hex_val, Parsed, JsonResult, done, fail, skip_ws, hex_digits, hex4,
  utf8_sequence, low_surrogate, unicode_escape, escape, string_item, string_loop, parse_string,
  skip_digits, some_digits, minus_part, integer_part, fraction_part, sign_part, exponent_part,
  parse_number,
}
use aimee_module_economizer.JsonCompact.Parser.{lit}

pub Parsed-cases {ℓ} :
    {A : Type ℓ} (r : Parsed A)
    → ((e : JsonResult) × (r ≡ fail e)) ⊎ ((a : A) × (t : Bytes) × (r ≡ done a t))
Parsed-cases (fail e) = inl (e, refl)
Parsed-cases (done a t) = inr (a, t, refl)

pub skip_ws_le : (s : Bytes) → length (skip_ws s) ≤ length s
unfolding skip_ws
skip_ws_le [] = omega arith
skip_ws_le (c ∷ s) = ground (arith, skip_ws_le s)

hex_digits_le :
    (n v : ℕ) (s : Bytes) {w : ℕ} {t : Bytes} → hex_digits n v s ≡ some (w, t) → length t ≤ length s
unfolding hex_digits
hex_digits_le zero v s h = ground arith
hex_digits_le (suc n) v [] h = cc
hex_digits_le (suc n) v (c ∷ s) h = elim (Option-cases (hex_val c)) [
  | inl e ↦ cc (rw (e, hex_digits) at h)
  | inr (x, e) ↦ omega (arith, hex_digits_le n (v * 16 + x) s (rw (e, hex_digits) at h))
]

hex4_le : (s : Bytes) (w : ℕ) (t : Bytes) → hex4 s ≡ some (w, t) → length t ≤ length s
unfolding hex4
hex4_le s w t h = elim (Bool-cases (ltb (length s) 4)) [
  | inl e ↦ cc (rw (e, hex4) at h)
  | inr e ↦ hex_digits_le 4 0 s {w = w} {t = t} (rw (e, hex4) at h)
]

low_surrogate_le :
    (high : ℕ) (s : Bytes) (w : ℕ) (t : Bytes)
    → low_surrogate high s ≡ done w t
    → length t ≤ length s
unfolding low_surrogate
low_surrogate_le high [] w t h = cc
low_surrogate_le high (b ∷ []) w t h = cc
low_surrogate_le high (b ∷ u ∷ s) w t h = elim (Option-cases (hex4 s)) [
  | inl e ↦ ground (arith, rw (e, low_surrogate) at h)
  | inr ((low, r), e) ↦ ground (arith, rw (e, low_surrogate) at h, hex4_le s low r e)
]

unicode_escape_le :
    (s : Bytes) (w : ℕ) (t : Bytes) → unicode_escape s ≡ done w t → length t ≤ length s
unfolding unicode_escape
unicode_escape_le s w t h = elim (Option-cases (hex4 s)) [
  | inl e ↦ cc (rw (e, unicode_escape) at h)
  | inr ((cp, r), e) ↦
      ground (arith, rw (e, unicode_escape) at h, hex4_le s cp r e, low_surrogate_le cp r w t)
]

escape_le : (s w t : Bytes) → escape s ≡ done w t → length t ≤ length s
unfolding escape
escape_le [] w t h = cc
escape_le (e ∷ s) w t h = elim (Parsed-cases (unicode_escape s)) [
  | inl (x, q) ↦ ground (arith, rw (q, escape) at h)
  | inr (cp, r, q) ↦ ground (arith, rw (q, escape) at h, unicode_escape_le s cp r q)
]

drop_le : (n : ℕ) (c : ℕ) (s : Bytes) → 0 < n → length (drop n (c ∷ s)) ≤ length s
drop_le zero c s p = omega arith
drop_le (suc zero) c s p = omega arith
drop_le (suc (suc n)) c [] p = omega arith
drop_le (suc (suc n)) c (d ∷ s) p = omega (arith, drop_le (suc n) d s (omega arith))

-- a length, if there is one, that is not 0
IsStep : Option ℕ → Type 0
IsStep o = (n : ℕ) → o ≡ some n → 0 < n

if-IsStep : (b : Bool) (n : ℕ) (o : Option ℕ) → IsStep o → IsStep (if b then some (suc n) else o)
unfolding IsStep
if-IsStep true n o h m q = ground arith
if-IsStep false n o h m q = h m q

none-IsStep : IsStep none
unfolding IsStep
none-IsStep n q = cc

utf8_sequence-IsStep : (s : Bytes) → IsStep (utf8_sequence s)
unfolding utf8_sequence
utf8_sequence-IsStep [] = none-IsStep
utf8_sequence-IsStep (a ∷ t) = if-IsStep (ltb a 0x80) 0 _ (
    if-IsStep (in_range 0xc2 0xdf a && cont (a ∷ t) 1) 1 _ (
      if-IsStep
        (a == 0xe0
          && leb 3 (length (a ∷ t))
          && byte_at (in_range 0xa0 0xbf) (a ∷ t) 1
          && cont (a ∷ t) 2)
        2 _
        (if-IsStep (in_range 0xe1 0xec a && cont (a ∷ t) 1 && cont (a ∷ t) 2) 2 _ (
          if-IsStep
            (a == 0xed
              && leb 3 (length (a ∷ t))
              && byte_at (in_range 0x80 0x9f) (a ∷ t) 1
              && cont (a ∷ t) 2)
            2 _
            (if-IsStep (in_range 0xee 0xef a && cont (a ∷ t) 1 && cont (a ∷ t) 2) 2 _ (
              if-IsStep
                (a == 0xf0
                  && leb 4 (length (a ∷ t))
                  && byte_at (in_range 0x90 0xbf) (a ∷ t) 1
                  && cont (a ∷ t) 2
                  && cont (a ∷ t) 3)
                3 _
                (if-IsStep
                  (in_range 0xf1 0xf3 a && cont (a ∷ t) 1 && cont (a ∷ t) 2 && cont (a ∷ t) 3) 3 _
                  (if-IsStep
                    (a == 0xf4
                      && leb 4 (length (a ∷ t))
                      && byte_at (in_range 0x80 0x8f) (a ∷ t) 1
                      && cont (a ∷ t) 2
                      && cont (a ∷ t) 3)
                    3 _ (none-IsStep)))))))))

pub string_item_le : (c : ℕ) (s w t : Bytes) → string_item c s ≡ done w t → length t ≤ length s
unfolding string_item IsStep
string_item_le c s w t h = elim (Option-cases (utf8_sequence (c ∷ s))) [
  | inl q ↦ ground (arith, rw (q, string_item) at h, escape_le s w t)
  | inr (n, q) ↦ ground (
    arith,
    rw (q, string_item) at h,
    escape_le s w t,
    drop_le n c s (utf8_sequence-IsStep (c ∷ s) n q),
  )
]

string_loop_lt :
    (fuel : ℕ) (d : Bool) (o s w t : Bytes)
    → string_loop fuel d o s ≡ done w t
    → length t < length s
unfolding string_loop
string_loop_lt fuel d o [] w t h = cc
string_loop_lt zero d o (c ∷ s) w t h = cc
string_loop_lt (suc fuel) d o (c ∷ s) w t h = elim (Bool-cases (c == b'"')) [
  | inl e ↦ ground (arith, rw (e, string_loop) at h)
  | inr e ↦ elim (Parsed-cases (string_item c s)) [
    | inl (r, q) ↦ cc (rw (e, q, string_loop) at h)
    | inr (a, u, q) ↦ omega (
      arith,
      string_item_le c s a u q,
      string_loop_lt fuel d (if d then o ++ a else o) u w t (rw (e, q, string_loop) at h),
    )
  ]
]

pub parse_string_lt : (d : Bool) (s w t : Bytes) → parse_string d s ≡ done w t → length t < length s
unfolding parse_string
parse_string_lt d [] w t h = cc
parse_string_lt d (c ∷ s) w t h = elim (Bool-cases (c == b'"')) [
  | inl e ↦ omega (arith, string_loop_lt (length s) d [] s w t (rw (e, parse_string) at h))
  | inr e ↦ cc (rw (e, parse_string) at h)
]

skip_digits_le : (s : Bytes) → length (skip_digits s) ≤ length s
unfolding skip_digits
skip_digits_le [] = omega arith
skip_digits_le (c ∷ s) = ground (arith, skip_digits_le s)

some_digits_lt : (s t : Bytes) → some_digits s ≡ some t → length t < length s
unfolding some_digits
some_digits_lt [] t h = cc
some_digits_lt (c ∷ s) t h = ground (arith, skip_digits_le s)

minus_part_le : (s : Bytes) → length (minus_part s) ≤ length s
unfolding minus_part
minus_part_le [] = omega arith
minus_part_le (c ∷ s) = ground arith

sign_part_le : (s : Bytes) → length (sign_part s) ≤ length s
unfolding sign_part
sign_part_le [] = omega arith
sign_part_le (c ∷ s) = ground arith

integer_part_lt : (s t : Bytes) → integer_part s ≡ some t → length t < length s
unfolding integer_part
integer_part_lt [] t h = cc
integer_part_lt (c ∷ s) t h = ground (arith, skip_digits_le s)

fraction_part_le : (s t : Bytes) → fraction_part s ≡ some t → length t ≤ length s
unfolding fraction_part
fraction_part_le [] t h = ground arith
fraction_part_le (c ∷ s) t h = ground (arith, some_digits_lt s t)

exponent_part_le : (s t : Bytes) → exponent_part s ≡ some t → length t ≤ length s
unfolding exponent_part
exponent_part_le [] t h = ground arith
exponent_part_le (c ∷ s) t h = ground (arith, some_digits_lt (sign_part s) t, sign_part_le s)

pub parse_number_lt : (s t : Bytes) → parse_number s ≡ done tt t → length t < length s
unfolding parse_number
parse_number_lt s t h = elim (Option-cases (integer_part (minus_part s))) [
  | inl e ↦ cc (rw (e, parse_number) at h)
  | inr (u, e) ↦ elim (Option-cases (fraction_part u)) [
    | inl f ↦ cc (rw (e, f, parse_number) at h)
    | inr (v, f) ↦ elim (Option-cases (exponent_part v)) [
      | inl g ↦ cc (rw (e, f, g, parse_number) at h)
      | inr (x, g) ↦ ground (
        arith,
        rw (e, f, g, parse_number) at h,
        minus_part_le s,
        integer_part_lt (minus_part s) u e,
        fraction_part_le u v f,
        exponent_part_le v x g,
      )
    ]
  ]
]

pub lit_lt : (k : ℕ) (word s t : Bytes) → lit (k ∷ word) s ≡ done tt t → length t < length s
unfolding lit
lit_lt k word [] t h = ground arith
lit_lt k word (b ∷ s) t h = ground (arith, drop_le (length (k ∷ word)) b s)
