-- ===== src/Bus/Client/Payload.antt =====
-- What server-go/bus/client.go writes to a slot, and what it reads from it.
use aimee_module_economizer.Prelude.{
  ℕ, zero, suc, ◌+◌, ◌-◌, ◌%◌, ◌^◌, ◌≤◌, ◌<◌, ◌≡◌, refl, ap, ◌∙◌, ◌≢◌, true, [], ◌∷◌, ◌++◌,
  append_assoc, arith, ltb, leb, Bytes, length, take, drop,
}
use native.Mathlib.Nat.{mod-eq_of_lt}
use Prim.Native.Nat.{bit_and, bit_or}
use aimee_module_economizer.Prelude.{take-append, length-append}
use aimee_module_economizer.Prelude.Digits.{bit_and_halves, bit_or_halves}
use aimee_module_economizer.Bus.Frame.{header}
use aimee_module_economizer.Bus.Endian.{put}
use aimee_module_economizer.Bus.RoundTrip.{drop-header, length-header}
use aimee_module_economizer.Bus.Client.{Client, event_frame, copy_payload, event_of, event}
use aimee_module_economizer.Bus.Frame.{Frame, hdr_len, f_inline, has_flag}

take-header : (f : Frame) (bs : Bytes) → take hdr_len (header f ++ bs) ≡ header f
unfolding header put
take-header f bs = refl

take_all : (n : ℕ) (bs : Bytes) → length bs ≤ n → take n bs ≡ bs
take_all zero [] h = refl
take_all zero (b ∷ bs) h = absurd (omega arith)
take_all (suc n) [] h = refl
take_all (suc n) (b ∷ bs) h = ap (◌∷◌ b) (take_all n bs (omega arith))

-- a payload that has room stands whole behind the header
pub copy_payload-header :
    (f : Frame) (bs payload : Bytes)
    → length payload ≤ length bs
    → length (header f ++ bs) ≡ hdr_len + length bs
    → copy_payload (header f ++ bs) payload
      ≡ header f ++ (payload ++ drop (hdr_len + length payload) (header f ++ bs))
unfolding copy_payload
copy_payload-header f bs payload h l =
    rw
      (take-header f bs, take_all (length (header f ++ bs) - hdr_len) payload (omega (arith, l, h)))
      (append_assoc (header f) payload (drop (hdr_len + length payload) (header f ++ bs)))

inline_flag : (flags : ℕ) → bit_and (bit_or flags 1) 1 ≢ 0
inline_flag flags h =
    absurd (omega (arith, h, bit_and_halves (bit_or flags 1) 1, bit_or_halves flags 1))

-- an inline payload behind the header is what the slice expression gives
event_of-inline :
    (d : Client) (f : Frame) (payload rest : Bytes)
    → has_flag f f_inline ≡ true
    → f.payload_ref ≡ hdr_len
    → f.payload_len ≡ length payload
    → 0 < length payload
    → hdr_len + length payload ≤ d.slot_size
    → d.slot_size < 2 ^ 32
    → event_of d (header f ++ (payload ++ rest)) f ≡ event f payload
unfolding event_of header put
event_of-inline d f payload rest has ref len p l w =
    let end : (f.payload_ref + f.payload_len) % 2 ^ 64 ≡ hdr_len + length payload =
      omega (arith, ref, len, l, w) in
    let pos : ltb 0 f.payload_len ≡ true = ground (arith, len, p) in
    let fits : leb (hdr_len + length payload) d.slot_size ≡ true = ground (arith, l) in
    let up : leb hdr_len (hdr_len + length payload) ≡ true = ground arith in
    let all : length (header f ++ (payload ++ rest)) ≡ hdr_len + (length payload + length rest) =
      length-header f (payload ++ rest) ∙ ap (λ n. hdr_len + n) (length-append payload rest) in
    let held : leb (hdr_len + length payload) (length (header f ++ (payload ++ rest))) ≡ true =
      ground (arith, all) in
    let size : hdr_len + length payload - hdr_len ≡ length payload = omega arith in
    rw
      (
        has,
        pos,
        end,
        fits,
        ref,
        up,
        held,
        size,
        drop-header f (payload ++ rest),
        take-append payload rest,
        event_of,
      )
      refl

has_inline :
    (c : Client) (flags kind corr : ℕ) (payload : Bytes)
    → 0 < length payload
    → has_flag (event_frame c flags kind corr payload) f_inline ≡ true
unfolding event_frame
has_inline c flags kind corr payload p =
    let t : ltb 0 (length payload) ≡ true = ground (arith, p) in
    rw t (ground (arith, inline_flag flags))

pub event_of-payload :
    (c d : Client) (flags kind corr : ℕ) (payload rest : Bytes)
    → 0 < length payload
    → hdr_len + length payload ≤ d.slot_size
    → d.slot_size < 2 ^ 32
    → event_of d
        (header (event_frame c flags kind corr payload) ++ (payload ++ rest))
        (event_frame c flags kind corr payload)
      ≡ event (event_frame c flags kind corr payload) payload
unfolding event_frame
event_of-payload c d flags kind corr payload rest p l w =
    let t : ltb 0 (length payload) ≡ true = ground (arith, p) in
    event_of-inline d (event_frame c flags kind corr payload) payload rest
      (has_inline c flags kind corr payload p) (rw t refl)
      (rw t (mod-eq_of_lt {n = length payload} {m = 2 ^ 32} (omega (arith, l, w)))) p l w

pub event_of-empty :
    (c d : Client) (flags kind corr : ℕ) (slot : Bytes)
    → event_of d slot (event_frame c flags kind corr [])
      ≡ event (event_frame c flags kind corr []) []
unfolding event_of event_frame
event_of-empty c d flags kind corr slot = ground arith
