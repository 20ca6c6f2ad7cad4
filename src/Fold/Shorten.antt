-- ===== src/Fold/Shorten.antt =====
-- The excerpt that server-go/modules/economizer/fold.go keeps of a text.
use aimee_module_economizer.Prelude.{
  ℕ, zero, suc, ◌+◌, ◌≤◌, ◌<◌, ◌≡◌, refl, ap, ◌≢◌, ◌⊎◌, inl, inr, true, false, [], ◌∷◌, ◌++◌, map,
  append-nil, arith, ◌==◌, ltb, Bytes, length, All, Bool-cases, ==_iff, take,
}
use aimee_module_economizer.Prelude.{length-append, length-take, All-append}
use aimee_module_economizer.Fold.Excerpt.{
  append_excerpt, kept, back_off, is_continuation, one_line, ellipsis,
}

-- all on one line
pub IsLine : ℕ → Type 0
IsLine c = (c ≢ b'\n') × (c ≢ b'\r') × (c ≢ b'\t')

one_line-IsLine : (c : ℕ) → IsLine (one_line c)
unfolding one_line IsLine
one_line-IsLine c = (ground arith, ground arith, ground arith)

map-IsLine : (s : Bytes) → All IsLine (map one_line s)
map-IsLine [] = record {}
map-IsLine (c ∷ s) = (one_line-IsLine c, map-IsLine s)

length-map : (s : Bytes) → length (map one_line s) ≡ length s
length-map [] = refl
length-map (c ∷ s) = ap suc (length-map s)

-- what the loop passes over are continuation bytes, and where it stops is none
back_off-continuation :
    (s : Bytes) (n : ℕ)
    → (back_off s n ≤ n)
      × ((i : ℕ) → back_off s n < i → i ≤ n → is_continuation s i ≡ true)
      × ((back_off s n ≡ 0) ⊎ (is_continuation s (back_off s n) ≡ false))
unfolding back_off
back_off-continuation s zero = (omega arith, (λ i l u. absurd (omega arith)), inl refl)
back_off-continuation s (suc n) = elim (Bool-cases (is_continuation s (suc n))) [
  | inr e ↦ rw (e, back_off) (omega arith, (λ i l u. absurd (omega arith)), inr e)
  | inl e ↦
      let (b, c, d) = back_off-continuation s n in
      rw (e, back_off) (omega (arith, b), (λ i l u. at_most s n i e (c i l) u), d)
]
  where
    at_most :
        (s : Bytes) (n i : ℕ)
        → is_continuation s (suc n) ≡ true
        → (i ≤ n → is_continuation s i ≡ true)
        → i ≤ suc n
        → is_continuation s i ≡ true
    at_most s n i e c u = elim (Bool-cases (i == suc n)) [
      | inl q ↦ rw ((==_iff i (suc n)).0 q) e
      | inr q ↦ c (ground (arith, q))
    ]

take_all : (s : Bytes) → take (length s) s ≡ s
take_all [] = refl
take_all (c ∷ s) = ap (◌∷◌ c) (take_all s)

excerpt_long :
    (s : Bytes) (most : ℕ)
    → most < length s
    → (kept s most ≡ back_off s most)
      × (append_excerpt s most ≡ map one_line (take (back_off s most) s) ++ ellipsis)
unfolding append_excerpt kept
excerpt_long s most l =
    let t : ltb most (length s) ≡ true = ground arith in
    let u : ltb (back_off s most) (length s) ≡ true =
      ground (arith, (back_off-continuation s most).0) in
    (rw (t, kept) refl, rw (t, u, append_excerpt, kept) refl)

excerpt_short : (s : Bytes) (most : ℕ) → length s ≤ most → append_excerpt s most ≡ map one_line s
unfolding append_excerpt kept
excerpt_short s most l =
    let t : ltb most (length s) ≡ false = ground arith in
    let u : ltb (length s) (length s) ≡ false = ground arith in
    rw (t, u, take_all s, append_excerpt, kept) (append-nil (map one_line s))

ellipsis-IsLine : All IsLine ellipsis
unfolding IsLine
ellipsis-IsLine =
    let line : (c : ℕ) → 13 < c → IsLine c = λ c l. (omega arith, omega arith, omega arith) in
    (line 0xe2 (omega arith), (line 0x80 (omega arith), (line 0xa6 (omega arith), record {})))

excerpt-IsLine :
    (s : Bytes) (most : ℕ)
    → (length (append_excerpt s most) ≤ most + 3) × All IsLine (append_excerpt s most)
excerpt-IsLine s most = elim (Bool-cases (ltb most (length s))) [
  | inl e ↦ rw ((excerpt_long s most (ground (arith, e))).1) (
    omega (
      arith,
      length-append (map one_line (take (back_off s most) s)) ellipsis,
      length-map (take (back_off s most) s),
      length-take (back_off s most) s,
      (back_off-continuation s most).0,
    ),
    All-append IsLine (map one_line (take (back_off s most) s)) ellipsis
        (map-IsLine (take (back_off s most) s)) ellipsis-IsLine,
  )
  | inr e ↦
      rw (excerpt_short s most (ground (arith, e))) (ground (arith, e, length-map s), map-IsLine s)
]

-- The excerpt keeps a prefix of the text of at most the cap, on one line, with an ellipsis when
-- something is left out. It is the longest prefix within the cap that does not end inside a UTF-8
-- character: no byte of a character stands at the cut unless the prefix is empty, and between the cut and the cap
-- there are only continuation bytes. A text within the cap is kept whole.
pub append_excerpt_lem :
    (s : Bytes) (most : ℕ)
    → (length (append_excerpt s most) ≤ most + 3)
      × All IsLine (append_excerpt s most)
      × (length s ≤ most → append_excerpt s most ≡ map one_line s)
      × (most < length s
          → (append_excerpt s most ≡ map one_line (take (kept s most) s) ++ ellipsis)
            × (kept s most ≤ most)
            × ((kept s most ≡ 0) ⊎ (is_continuation s (kept s most) ≡ false))
            × ((i : ℕ) → kept s most < i → i ≤ most → is_continuation s i ≡ true))
append_excerpt_lem s most =
    let (b, c, d) = back_off-continuation s most in
    (
      (excerpt-IsLine s most).0,
      (excerpt-IsLine s most).1,
      excerpt_short s most,
      λ l. let (k, e) = excerpt_long s most l in rw k (e, b, d, c),
    )
