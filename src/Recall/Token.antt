-- ===== src/Recall/Token.antt =====
-- What a whole-token match is (server-go/modules/economizer/recall.go).
use aimee_module_economizer.Prelude.{
  false, eq_bytes, ℕ, ◌≡◌, refl, sym, ap, ap₂, inl, inr, Bool, true, not, ◌&&◌, some, [], ◌∷◌, ◌++◌,
  arith, ◌==◌, Bytes, Bool-cases, Option-cases, ==_iff,
}
use aimee_module_economizer.Recall.{
  contains_token, is_coord_char, behind, is_open, ends_here, token_from,
}

behind_sound : (key hay rest : Bytes) → behind key hay ≡ some rest → hay ≡ key ++ rest
unfolding behind
behind_sound [] hay rest h = ground arith
behind_sound (k ∷ ks) [] rest h = cc
behind_sound (k ∷ ks) (x ∷ hs) rest h = elim (Bool-cases (k == x)) [
  | inl e ↦ ap₂ ◌∷◌ (sym ((==_iff k x).0 e)) (behind_sound ks hs rest (rw (e, behind) at h))
  | inr e ↦ ground (arith, rw (e, behind) at h)
]

behind-append : (key rest : Bytes) → behind key (key ++ rest) ≡ some rest
unfolding behind
behind-append [] rest = refl
behind-append (k ∷ ks) rest = ground (arith, behind-append ks rest)

-- the byte before a place, if there is one, may precede a token
abbrev pub opens : Bool → Bytes → Bool
opens free [] = free
opens free (h ∷ hs) = opens (not (is_coord_char h)) hs

-- The key stands in the text, between bytes that cannot extend it.
abbrev pub Token : Bool → Bytes → Bytes → Type 0
Token free hay key =
    (before : Bytes) × (after : Bytes) × (hay ≡ before ++ key ++ after)
    × (opens free before ≡ true)
    × (is_open after ≡ true)

ends_here_sound :
    (key hay : Bytes)
    → ends_here (behind key hay) ≡ true
    → (rest : Bytes) × (hay ≡ key ++ rest) × (is_open rest ≡ true)
unfolding ends_here
ends_here_sound key hay h = elim (Option-cases (behind key hay)) [
  | inl e ↦ absurd (cc (rw (e, ends_here) at h))
  | inr (rest, e) ↦ (rest, behind_sound key hay rest e, rw (e, ends_here) at h)
]

token_from_sound :
    (free : Bool) (key hay : Bytes) → token_from free key hay ≡ true → Token free hay key
unfolding token_from
token_from_sound free key [] h = cc
token_from_sound free key (x ∷ hs) h = elim (Bool-cases (free && ends_here (behind key (x ∷ hs)))) [
  | inl e ↦
      let (rest, q, o) = ends_here_sound key (x ∷ hs) (ground (arith, e)) in
      ([], rest, q, ground (arith, e), o)
  | inr e ↦
      let (b, a, q, o, p) =
        token_from_sound (not (is_coord_char x)) key hs (ground (arith, rw (e, token_from) at h)) in
      (x ∷ b, a, ap (◌∷◌ x) q, o, p)
]

token_from_complete :
    (free : Bool) (k : ℕ) (ks before after : Bytes)
    → opens free before ≡ true
    → is_open after ≡ true
    → token_from free (k ∷ ks) (before ++ (k ∷ ks) ++ after) ≡ true
unfolding token_from ends_here
token_from_complete free k ks [] after o p = rw (behind-append (k ∷ ks) after, o, p) refl
token_from_complete free k ks (x ∷ before) after o p =
    ground (arith, token_from_complete (not (is_coord_char x)) k ks before after o p)

contains_token-of_Token :
    (hay key : Bytes) → eq_bytes key [] ≡ false → Token true hay key → contains_token hay key ≡ true
unfolding contains_token eq_bytes
contains_token-of_Token hay [] n h = cc
contains_token-of_Token hay (k ∷ ks) n (b, a, q, o, p) =
    rw q (token_from_complete true k ks b a o p)

-- A key that is not empty is found in a text exactly if it stands there as a whole token: neither
-- the byte before it nor the one behind it, if there are such, can be part of a coordinate.
pub contains_token-Token :
    (hay key : Bytes)
    → eq_bytes key [] ≡ false
    → (contains_token hay key ≡ true → Token true hay key)
      × (Token true hay key → contains_token hay key ≡ true)
unfolding contains_token
contains_token-Token hay key n = (
  λ h. token_from_sound true key hay (rw (n, contains_token) at h),
  contains_token-of_Token hay key n,
)
