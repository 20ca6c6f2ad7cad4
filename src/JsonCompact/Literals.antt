-- ===== src/JsonCompact/Literals.antt =====
-- What the copy pass of `JSONCompact` (server-go/modules/economizer/json_compact.go) may take from a
-- text, by the grammar of its string literals and without the flags of the loop.
use aimee_module_economizer.Prelude.{
  ℕ, zero, suc, ◌≤◌, ◌<◌, ◌≡◌, ◌≢◌, refl, sym, subst, ap, ◌∙◌, ◌⊎◌, inl, inr, true, false, [], ◌∷◌,
  ◌++◌, arith, ◌==◌, Bytes, length, length-append, Bool-cases,
}
use aimee_module_economizer.JsonCompact.Lexical.{json_ws}
use aimee_module_economizer.JsonCompact.Copy.{Copy, copy_step, copy_loop, copy, outside}

-- The bytes between the quotes of a string literal: none is a quote, but behind a backslash.
pub data Body : Bytes → Type 0 where
  no_byte : Body []
  plain : {s : Bytes} (c : ℕ) → c ≢ b'"' → c ≢ b'\\' → Body s → Body (c ∷ s)
  escaped_byte : {s : Bytes} (c : ℕ) → Body s → Body (b'\\' ∷ c ∷ s)

-- The bytes behind a quote that no quote closes.
pub data Unclosed : Bytes → Type 0 where
  no_more : Unclosed []
  lone : Unclosed (b'\\' ∷ [])
  plain_on : {s : Bytes} (c : ℕ) → c ≢ b'"' → c ≢ b'\\' → Unclosed s → Unclosed (c ∷ s)
  escaped_on : {s : Bytes} (c : ℕ) → Unclosed s → Unclosed (b'\\' ∷ c ∷ s)

-- The second text is the first without the whitespace outside its string literals: every literal stands
-- in it byte for byte, and so does every other byte that is no whitespace, in order.
pub data Compacts : Bytes → Bytes → Type 0 where
  all_read : Compacts [] []
  blank : {s t : Bytes} (c : ℕ) → json_ws c ≡ true → Compacts s t → Compacts (c ∷ s) t
  other :
      {s t : Bytes} (c : ℕ) → json_ws c ≡ false → c ≢ b'"' → Compacts s t → Compacts (c ∷ s) (c ∷ t)
  literal :
      {s t : Bytes} (b : Bytes)
      → Body b
      → Compacts s t
      → Compacts (b'"' ∷ (b ++ (b'"' ∷ s))) (b'"' ∷ (b ++ (b'"' ∷ t)))
  broken : {s : Bytes} → Unclosed s → Compacts (b'"' ∷ s) (b'"' ∷ s)

abbrev inside : Copy
inside = record { in_string = true; escaped = false }

-- inside a literal, up to its end
copy_loop-Body :
    (b s : Bytes) → Body b → copy_loop inside (b ++ (b'"' ∷ s)) ≡ b ++ (b'"' ∷ copy_loop outside s)
unfolding copy_loop copy_step
copy_loop-Body _ s no_byte = refl
copy_loop-Body _ s (plain {s = b} c q l k) =
    let e : (c == b'"') ≡ false = ground (arith, q) in
    let f : (c == b'\\') ≡ false = ground (arith, l) in
    rw (f, e) (ap (λ x. c ∷ x) (copy_loop-Body b s k))
copy_loop-Body _ s (escaped_byte {s = b} c k) = ap (λ x. b'\\' ∷ c ∷ x) (copy_loop-Body b s k)

copy_loop-Unclosed : (s : Bytes) → Unclosed s → copy_loop inside s ≡ s
unfolding copy_loop copy_step
copy_loop-Unclosed _ no_more = refl
copy_loop-Unclosed _ lone = refl
copy_loop-Unclosed _ (plain_on {s = s} c q l k) =
    let e : (c == b'"') ≡ false = ground (arith, q) in
    let f : (c == b'\\') ≡ false = ground (arith, l) in
    rw (f, e) (ap (λ x. c ∷ x) (copy_loop-Unclosed s k))
copy_loop-Unclosed _ (escaped_on {s = s} c k) = ap (λ x. b'\\' ∷ c ∷ x) (copy_loop-Unclosed s k)

-- behind a quote, a text has the rest of a literal, or no quote closes it
Closing : Bytes → Type 0
Closing s = ((b : Bytes) × (rest : Bytes) × Body b × (s ≡ b ++ (b'"' ∷ rest))) ⊎ Unclosed s

quote_ends : (s : Bytes) → Closing (b'"' ∷ s)
unfolding Closing
quote_ends s = inl ([], s, no_byte, refl)

plain_ends : (c : ℕ) (s : Bytes) → c ≢ b'"' → c ≢ b'\\' → Closing s → Closing (c ∷ s)
unfolding Closing
plain_ends c s q l (inl (b, rest, k, e)) = inl (c ∷ b, rest, plain c q l k, ap (λ x. c ∷ x) e)
plain_ends c s q l (inr u) = inr (plain_on c q l u)

escaped_ends : (c : ℕ) (s : Bytes) → Closing s → Closing (b'\\' ∷ c ∷ s)
unfolding Closing
escaped_ends c s (inl (b, rest, k, e)) =
    inl (b'\\' ∷ c ∷ b, rest, escaped_byte c k, ap (λ x. b'\\' ∷ c ∷ x) e)
escaped_ends c s (inr u) = inr (escaped_on c u)

lone_ends : Closing (b'\\' ∷ [])
unfolding Closing
lone_ends = inr lone

nothing_ends : Closing []
unfolding Closing
nothing_ends = inr no_more

-- a byte is a quote, a backslash or neither
byte_cases : (c : ℕ) → (c ≡ b'"') ⊎ ((c ≡ b'\\') ⊎ ((c ≢ b'"') × (c ≢ b'\\')))
byte_cases c = elim (Bool-cases (c == b'"')) [
  | inl e ↦ inl (ground (arith, e))
  | inr e ↦ elim (Bool-cases (c == b'\\')) [
    | inl g ↦ inr (inl (ground (arith, g)))
    | inr g ↦ inr (inr (ground (arith, e), ground (arith, g)))
  ]
]

closing : (s : Bytes) → Closing s
closing [] = nothing_ends
closing (c ∷ []) = elim (byte_cases c) [
  | inl e ↦ subst (λ x. Closing (x ∷ [])) (sym e) (quote_ends [])
  | inr (inl e) ↦ subst (λ x. Closing (x ∷ [])) (sym e) lone_ends
  | inr (inr (q, l)) ↦ plain_ends c [] q l nothing_ends
]
closing (c ∷ d ∷ s) = elim (byte_cases c) [
  | inl e ↦ subst (λ x. Closing (x ∷ d ∷ s)) (sym e) (quote_ends (d ∷ s))
  | inr (inl e) ↦ subst (λ x. Closing (x ∷ d ∷ s)) (sym e) (escaped_ends d s (closing s))
  | inr (inr (q, l)) ↦ plain_ends c (d ∷ s) q l (closing (d ∷ s))
]

copy_loop-quote : (s : Bytes) → copy_loop outside (b'"' ∷ s) ≡ b'"' ∷ copy_loop inside s
unfolding copy_loop copy_step json_ws
copy_loop-quote s = refl

-- a text with a quote ahead of it, by what follows the quote
quoted-Compacts :
    (n : ℕ) (s : Bytes)
    → length s < suc n
    → ((t : Bytes) → length t ≤ n → Compacts t (copy_loop outside t))
    → Closing s
    → Compacts (b'"' ∷ s) (copy_loop outside (b'"' ∷ s))
unfolding Closing
quoted-Compacts n s l rec (inl (b, rest, k, e)) =
    let m : length rest ≤ n = omega (arith, l, ap length e, length-append b (b'"' ∷ rest)) in
    subst (λ x. Compacts (b'"' ∷ x) (copy_loop outside (b'"' ∷ x))) (sym e)
      (subst (Compacts (b'"' ∷ (b ++ (b'"' ∷ rest))))
        (sym (copy_loop-quote (b ++ (b'"' ∷ rest)) ∙ ap (λ x. b'"' ∷ x) (copy_loop-Body b rest k)))
        (literal b k (rec rest m)))
quoted-Compacts n s l rec (inr u) =
    subst (Compacts (b'"' ∷ s))
      (sym (copy_loop-quote s ∙ ap (λ x. b'"' ∷ x) (copy_loop-Unclosed s u))) (broken u)

copy_loop-Compacts : (n : ℕ) (s : Bytes) → length s ≤ n → Compacts s (copy_loop outside s)
unfolding copy_loop copy_step
copy_loop-Compacts n [] l = all_read
copy_loop-Compacts zero (c ∷ s) l = absurd (omega arith)
copy_loop-Compacts (suc n) (c ∷ s) l = elim (Bool-cases (json_ws c)) [
  | inl w ↦ rw w (blank c w (copy_loop-Compacts n s (omega arith)))
  | inr w ↦ elim (Bool-cases (c == b'"')) [
    | inl e ↦
        let f : c ≡ b'"' = ground (arith, e) in
        subst (λ x. Compacts (x ∷ s) (copy_loop outside (x ∷ s))) (sym f)
          (quoted-Compacts n s (omega arith) (copy_loop-Compacts n) (closing s))
    | inr e ↦ rw (w, e) (other c w (ground (arith, e)) (copy_loop-Compacts n s (omega arith)))
  ]
]

pub copy-Compacts : (s : Bytes) → Compacts s (copy s)
unfolding copy
copy-Compacts s = copy_loop-Compacts (length s) s (omega arith)

-- no other text is the first without that whitespace
pub Compacts-copy : {s t : Bytes} → Compacts s t → t ≡ copy s
unfolding copy copy_loop copy_step
Compacts-copy all_read = refl
Compacts-copy (blank c w k) = rw w (Compacts-copy k)
Compacts-copy (other c w q k) =
    let e : (c == b'"') ≡ false = ground (arith, q) in rw (w, e) (ap (λ x. c ∷ x) (Compacts-copy k))
Compacts-copy (literal {s = s} {t = t} b k r) =
    ap (λ x. b'"' ∷ (b ++ (b'"' ∷ x))) (Compacts-copy r)
    ∙ sym (copy_loop-quote (b ++ (b'"' ∷ s)) ∙ ap (λ x. b'"' ∷ x) (copy_loop-Body b s k))
Compacts-copy (broken {s = s} u) =
    sym (copy_loop-quote s ∙ ap (λ x. b'"' ∷ x) (copy_loop-Unclosed s u))
