-- ===== src/Fold/Frames.antt =====
-- What the compression of server-go/modules/economizer/fold.go leaves of a message: everything but
-- the bodies.
use aimee_module_economizer.Prelude.{
  ℕ, suc, ◌≡◌, refl, sym, ap, ◌∙◌, subst, ◌⊎◌, inl, inr, true, false, Option, some, List, [], ◌∷◌,
  Bytes, codes, eq_bytes, Bool-cases, Option-cases,
}
use aimee_module_economizer.Json.{
  Value, string, array, object, to_list, of_list, get, get_string, set, update,
}
use aimee_module_economizer.Json.Print.{text}
use aimee_module_economizer.Json.Laws.{get-set, get-update, get-update_ne, to_list-of_list}
use aimee_module_economizer.Fold.{Closet}
use aimee_module_economizer.Fold.Compress.{
  replaces, CompactConfig, compress_body_field, compress_tool, compress_block, compress_blocks,
  compress_content, compress_output, compress_message_bodies, compress_messages, Tally,
}

abbrev pub Pairwise {ℓ} : {A : Type ℓ} → (A → A → Type 0) → List A → List A → Type 0
Pairwise R [] [] = Unit
Pairwise R (x ∷ xs) (y ∷ ys) = R x y × Pairwise R xs ys
Pairwise R _ _ = ⊥

-- The values of all keys but `content` and `output` are the same.
unfoldable pub SameExcept : Value → Value → Type 0
SameExcept v w =
    (key : Bytes)
    → eq_bytes (codes "content") key ≡ false
    → eq_bytes (codes "output") key ≡ false
    → get w key ≡ get v key

-- A content array is one of as many blocks that are the same but for their contents.
unfoldable pub SameBlocks : Option Value → Option Value → Type 0
unfolding SameExcept
SameBlocks (some (array vs)) (some (array ws)) = Pairwise SameExcept (to_list vs) (to_list ws)
SameBlocks (some (array vs)) _ = ⊥
SameBlocks _ _ = Unit

-- The same message with other bodies. A tool message of the OpenAI shape has no blocks to keep.
unfoldable pub SameFrame : Value → Value → Type 0
unfolding SameExcept SameBlocks
SameFrame m w =
    SameExcept m w
    × (eq_bytes (get_string m (codes "role")) (codes "tool") ≡ false
        → SameBlocks (get m (codes "content")) (get w (codes "content")))

get-set_ne :
    (v : Value) (key j : Bytes) (x : Value) → eq_bytes key j ≡ false → get (set v key x) j ≡ get v j
unfolding set
get-set_ne (object fs) key j x h = get-set fs key j x ∙ rw h refl
get-set_ne _ key j x h = refl

SameExcept-refl : (v : Value) → SameExcept v v
unfolding SameExcept
SameExcept-refl v key c o = refl

SameExcept-trans : (u v w : Value) → SameExcept u v → SameExcept v w → SameExcept u w
unfolding SameExcept
SameExcept-trans u v w p q key c o = q key c o ∙ p key c o

-- `content` or `output`
IsBody : Bytes → Type 0
IsBody key =
    (j : Bytes)
    → eq_bytes (codes "content") j ≡ false
    → eq_bytes (codes "output") j ≡ false
    → eq_bytes key j ≡ false

content-IsBody : IsBody (codes "content")
unfolding IsBody
content-IsBody j c o = c

output-IsBody : IsBody (codes "output")
unfolding IsBody
output-IsBody j c o = o

set-SameExcept : (v : Value) (key : Bytes) (x : Value) → IsBody key → SameExcept v (set v key x)
unfolding SameExcept IsBody
set-SameExcept v key x b j c o = get-set_ne v key j x (b j c o)

Pairwise-refl : (vs : List Value) → Pairwise SameExcept vs vs
Pairwise-refl [] = record {}
Pairwise-refl (v ∷ vs) = (SameExcept-refl v, Pairwise-refl vs)

SameBlocks-refl : (o : Option Value) → SameBlocks o o
unfolding SameBlocks
SameBlocks-refl (some (array vs)) = Pairwise-refl (to_list vs)
SameBlocks-refl _ = record {}

module _ (closet : Closet) (compact_body : CompactConfig → Bytes → Bytes)
    (shrink : CompactConfig) where
  compress_body_field-cases :
      (v : Value) (key : Bytes) (turn : ℕ) (t : Tally closet compact_body shrink)
      → ((compress_body_field closet compact_body shrink v key turn t).0 ≡ v)
        ⊎ ((x : Value) × ((compress_body_field closet compact_body shrink v key turn t).0
              ≡ set v key x))
  unfolding compress_body_field
  compress_body_field-cases v key turn t =
      elim (Option-cases (text closet.cjson_number (get v key))) [
        | inl e ↦ inl (rw (e, compress_body_field) refl)
        | inr (body, e) ↦
            elim (Bool-cases
              (replaces closet compact_body shrink body (compact_body shrink body))) [
                | inl r ↦
                    inr (string (compact_body shrink body), rw (e, r, compress_body_field) refl)
                | inr r ↦ inl (rw (e, r, compress_body_field) refl)
              ]
      ]

  compress_body_field-SameExcept :
      (v : Value) (key : Bytes) (turn : ℕ) (t : Tally closet compact_body shrink)
      → IsBody key
      → SameExcept v (compress_body_field closet compact_body shrink v key turn t).0
  compress_body_field-SameExcept v key turn t b = elim (compress_body_field-cases v key turn t) [
    | inl e ↦ rw e (SameExcept-refl v)
    | inr (x, e) ↦ rw e (set-SameExcept v key x b)
  ]

  compress_block-SameExcept :
      (v : Value) (turn : ℕ) (t : Tally closet compact_body shrink)
      → SameExcept v (compress_block closet compact_body shrink v turn t).0
  compress_block-SameExcept v turn t =
      elim (Bool-cases (eq_bytes (get_string v (codes "type")) (codes "tool_result"))) [
        | inl e ↦ rw e (compress_body_field-SameExcept v (codes "content") turn t content-IsBody)
        | inr e ↦ rw e (SameExcept-refl v)
      ]

  compress_blocks-Pairwise :
      (vs : List Value) (turn : ℕ) (t : Tally closet compact_body shrink)
      → Pairwise SameExcept vs (compress_blocks closet compact_body shrink vs turn t).0
  unfolding compress_blocks
  compress_blocks-Pairwise [] turn t = record {}
  compress_blocks-Pairwise (v ∷ vs) turn t = (
    compress_block-SameExcept v turn t,
    compress_blocks-Pairwise vs turn (compress_block closet compact_body shrink v turn t).1,
  )

  compress_content-SameExcept :
      (m : Value) (o : Option Value) (turn : ℕ) (t : Tally closet compact_body shrink)
      → SameExcept m (compress_content closet compact_body shrink m o turn t).0
  unfolding compress_content SameExcept
  compress_content-SameExcept m (some (array vs)) turn t key c o =
      get-update_ne m (codes "content") key _ c
  compress_content-SameExcept m _ turn t key c o = refl

  compress_content-SameBlocks :
      (m : Value) (o : Option Value) (turn : ℕ) (t : Tally closet compact_body shrink)
      → get m (codes "content") ≡ o
      → SameBlocks o
          (get (compress_content closet compact_body shrink m o turn t).0 (codes "content"))
  unfolding compress_content SameBlocks eq_bytes
  compress_content-SameBlocks m (some (array vs)) turn t h =
      let blocks = (compress_blocks closet compact_body shrink (to_list vs) turn t).0 in
      let q : get (update m (codes "content") (λ old. array (of_list blocks))) (codes "content")
          ≡ some (array (of_list blocks)) =
        get-update m (codes "content") (codes "content") (λ old. array (of_list blocks))
        ∙ rw h refl in
      rw (q, to_list-of_list blocks) (compress_blocks-Pairwise (to_list vs) turn t)
  compress_content-SameBlocks m _ turn t h = record {}

  compress_tool-SameFrame :
      (m : Value) (turn : ℕ) (t : Tally closet compact_body shrink)
      → SameFrame m (compress_tool closet compact_body shrink m turn t).0
  unfolding SameFrame
  compress_tool-SameFrame m turn t =
      elim (Bool-cases (eq_bytes (get_string m (codes "role")) (codes "tool"))) [
        | inl e ↦ rw e (
          compress_body_field-SameExcept m (codes "content") turn t content-IsBody,
          λ n. absurd (clash n),
        )
        | inr e ↦ rw e (SameExcept-refl m, λ n. SameBlocks-refl (get m (codes "content")))
      ]
    where
      clash : true ≡ false → ⊥
      clash q = cc

  compress_output-frame :
      (kind : Bytes) (m : Value) (turn : ℕ) (t : Tally closet compact_body shrink)
      → SameExcept m (compress_output closet compact_body shrink kind m turn t).0
        × (get (compress_output closet compact_body shrink kind m turn t).0 (codes "content")
            ≡ get m (codes "content"))
  unfolding eq_bytes
  compress_output-frame kind m turn t =
      elim (Bool-cases (eq_bytes kind (codes "function_call_output"))) [
        | inr e ↦ rw e (SameExcept-refl m, refl)
        | inl e ↦ elim (compress_body_field-cases m (codes "output") turn t) [
          | inl q ↦ rw (e, q) (SameExcept-refl m, refl)
          | inr (x, q) ↦
              rw (e, q)
                (
                  set-SameExcept m (codes "output") x output-IsBody,
                  get-set_ne m (codes "output") (codes "content") x refl,
                )
        ]
      ]

  compress_tool-keeps :
      (m : Value) (turn : ℕ) (t : Tally closet compact_body shrink)
      → eq_bytes (get_string m (codes "role")) (codes "tool") ≡ false
      → compress_tool closet compact_body shrink m turn t ≡ (m, t)
  compress_tool-keeps m turn t n = rw n refl

  compress_message_bodies-SameFrame :
      (m : Value) (turn : ℕ) (t : Tally closet compact_body shrink)
      → SameFrame m (compress_message_bodies closet compact_body shrink m turn t).0
  unfolding compress_message_bodies SameFrame
  compress_message_bodies-SameFrame m turn t =
      let a = compress_tool closet compact_body shrink m turn t in
      let o = get a.0 (codes "content") in
      let b = compress_content closet compact_body shrink a.0 o turn a.1 in
      let (s, k) = compress_tool-SameFrame m turn t in
      let (p, q) = compress_output-frame (get_string m (codes "type")) b.0 turn b.1 in
      let out =
        compress_output closet compact_body shrink (get_string m (codes "type")) b.0 turn b.1 in
      (
        SameExcept-trans m a.0 out.0 s
            (SameExcept-trans a.0 b.0 out.0 (compress_content-SameExcept a.0 o turn a.1) p),
        λ n. subst (SameBlocks (get m (codes "content"))) (sym q) (
            subst (λ x. SameBlocks x (get b.0 (codes "content")))
              (ap (λ x. get x.0 (codes "content")) (compress_tool-keeps m turn t n))
              (compress_content-SameBlocks a.0 o turn a.1 refl)),
      )

  pub compress_messages-Pairwise :
      (ms : List Value) (turn : ℕ) (t : Tally closet compact_body shrink)
      → Pairwise SameFrame ms (compress_messages closet compact_body shrink ms turn t).0
  unfolding compress_messages
  compress_messages-Pairwise [] turn t = record {}
  compress_messages-Pairwise (m ∷ ms) turn t = (
    compress_message_bodies-SameFrame m turn t,
    compress_messages-Pairwise ms (suc turn)
        (compress_message_bodies closet compact_body shrink m turn t).1,
  )
