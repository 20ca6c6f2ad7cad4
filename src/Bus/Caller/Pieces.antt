-- ===== src/Bus/Caller/Pieces.antt =====
-- The pieces of a body in server-go/bus/module_caller.go and module_runtime.go, and a packet of one.
use aimee_module_economizer.Prelude.{
  ℕ, zero, suc, ◌+◌, ◌<◌, ◌≡◌, refl, sym, ap, ◌∙◌, subst, inl, inr, Bool, true, false, Option, none,
  some, List, [], ◌∷◌, ◌++◌, arith, if◌then◌else◌, ltb, Bytes, length, Bool-cases, Option-cases,
  take, drop,
}
use aimee_module_economizer.Prelude.{Option-some, take-append-drop, length-drop, replicate}
use aimee_module_economizer.Bus.Message.{
  ModuleMessage, valid, header, encode, decode, module_message_header_len,
}
use aimee_module_economizer.Bus.MessageTrip.{IsMessage, encode-some, decode-header, length-header}
use aimee_module_economizer.Bus.Endian.{put}
use aimee_module_economizer.Bus.Caller.{pieces, all_pieces, packet}

-- Pieces, of which each but the last says that more follow, of a body.
pub data Splits : List (Bytes × Bool) → Bytes → Type 0 where
  last : {a : Bytes} → Splits ((a, false) ∷ []) a
  more :
      {a rest : Bytes} {ps : List (Bytes × Bool)}
      → Splits ps rest
      → Splits ((a, true) ∷ ps) (a ++ rest)

pieces-Splits :
    (fuel chunk : ℕ) (body : Bytes)
    → 0 < chunk
    → length body < fuel
    → Splits (pieces fuel chunk body) body
unfolding pieces
pieces-Splits zero chunk body p l = absurd (omega arith)
pieces-Splits (suc fuel) chunk body p l = elim (Bool-cases (ltb chunk (length body))) [
  | inr e ↦ rw (e, pieces) last
  | inl e ↦
      rw (e, pieces)
        (subst (Splits ((take chunk body, true) ∷ pieces fuel chunk (drop chunk body)))
          (take-append-drop chunk body)
          (more (
            pieces-Splits fuel chunk (drop chunk body) p
              (ground (arith, e, length-drop chunk body)))))
]

pub all_pieces-Splits : (chunk : ℕ) (body : Bytes) → 0 < chunk → Splits (all_pieces chunk body) body
all_pieces-Splits chunk body p = pieces-Splits (suc (length body)) chunk body p (omega arith)

take-header :
    (m : ModuleMessage) (bs : Bytes) → take module_message_header_len (header m ++ bs) ≡ header m
unfolding header put
take-header m bs = refl

drop-header :
    (m : ModuleMessage) (bs : Bytes) → drop module_message_header_len (header m ++ bs) ≡ bs
unfolding header put
drop-header m bs = refl

take_all : {A : Type 0} → (xs : List A) → take (length xs) xs ≡ xs
take_all [] = refl
take_all (x ∷ xs) = ap (λ ys. x ∷ ys) (take_all xs)

-- what `packet` makes of the written header
abbrev packet_of : Bytes → Option Bytes → Option Bytes
packet_of part none = none
packet_of part (some written) = some (take module_message_header_len written ++ part)

-- a packet is the header and the body
packet-some :
    (m : ModuleMessage) (part payload : Bytes)
    → packet m part ≡ some payload
    → (valid m ≡ true) × (payload ≡ header m ++ part)
unfolding packet
packet-some m part payload h =
    elim (Option-cases (encode m (replicate (module_message_header_len + length part) 0))) [
      | inl e ↦ absurd (ground (arith, e, h))
      | inr (w, e) ↦
          let (l, v, g) = encode-some m (replicate (module_message_header_len + length part) 0) e in
          (
            v,
            sym (Option-some (sym (ap (λ o. packet_of part o) e) ∙ h))
                ∙ ap (λ x. x ++ part)
                    (ap (take module_message_header_len) (sym g) ∙ take-header m _),
          )
    ]

-- a packet whose length is announced is decoded
pub decode-packet :
    (m : ModuleMessage) (part payload : Bytes)
    → IsMessage m
    → m.body_len ≡ length part
    → packet m part ≡ some payload
    → (decode payload ≡ some m)
      × (length payload ≡ module_message_header_len + length part)
      × (take m.body_len (drop module_message_header_len payload) ≡ part)
decode-packet m part payload i l h =
    let (v, e) = packet-some m part payload h in
    let t : ltb (length part) m.body_len ≡ false = ground (arith, l) in
    (
      ap decode e ∙ decode-header m part i v ∙ ap (λ b. if b then none else some m) t,
      ap length e ∙ length-header m part,
      ap (λ x. take m.body_len (drop module_message_header_len x)) e
          ∙ ap (take m.body_len) (drop-header m part)
          ∙ ap (λ n. take n part) l
          ∙ take_all part,
    )
