-- ===== src/Bus/MessageTrip.antt =====
-- The round trip of the module messages of server-go/bus/module_protocol.go.
use aimee_module_economizer.Prelude.{
  length-drop, ◌+◌, ◌-◌, ◌≤◌, ◌<◌, ◌≡◌, refl, true, false, none, some, ◌++◌, arith, if◌then◌else◌,
  ltb, Bytes, length, drop,
}
use aimee_module_economizer.Bus.Endian.{put, number_of, number_of-put, uint32_at, uint16_at}
use aimee_module_economizer.Bus.Message.{
  ModuleMessage, valid, header, encode, decode, read_message, module_message_header_len,
  module_message_magic, module_message_version,
}

-- The widths of the fields.
abbrev pub IsMessage : ModuleMessage → Type 0
IsMessage m =
    (m.operation < 65536)
    × (m.status < 65536)
    × (m.stage_id < 4294967296)
    × (m.flags < 4294967296)
    × (m.body_len < 4294967296)
    × (m.deadline_ns < 18446744073709551616)
    × (m.trace_id < 18446744073709551616)

read_message-header :
    (m : ModuleMessage) (bs : Bytes) → IsMessage m → read_message (header m ++ bs) ≡ m
unfolding read_message header put
read_message-header m bs (h0, h1, h2, h3, h4, h5, h6) =
    rw
      (
        number_of-put 2 m.operation _ h0,
        number_of-put 2 m.status _ h1,
        number_of-put 4 m.stage_id _ h2,
        number_of-put 4 m.flags _ h3,
        number_of-put 4 m.body_len _ h4,
        number_of-put 8 m.deadline_ns _ h5,
        number_of-put 8 m.trace_id _ h6,
      )
      refl

read_fixed :
    (m : ModuleMessage) (bs : Bytes)
    → (uint32_at 0 (header m ++ bs) ≡ module_message_magic)
      × (uint16_at 4 (header m ++ bs) ≡ module_message_version)
      × (uint16_at 6 (header m ++ bs) ≡ module_message_header_len)
unfolding header put number_of
read_fixed m bs = (refl, refl, refl)

pub length-header :
    (m : ModuleMessage) (bs : Bytes)
    → length (header m ++ bs) ≡ module_message_header_len + length bs
unfolding header put
length-header m bs = omega arith

pub encode-some :
    (m : ModuleMessage) (out : Bytes) {written : Bytes}
    → encode m out ≡ some written
    → (module_message_header_len ≤ length out)
      × (valid m ≡ true)
      × (header m ++ drop module_message_header_len out ≡ written)
unfolding encode
encode-some m out e = (ground arith, ground arith, ground arith)

pub decode-header :
    (m : ModuleMessage) (bs : Bytes)
    → IsMessage m
    → valid m ≡ true
    → decode (header m ++ bs) ≡ (if ltb (length bs) m.body_len then none else some m)
unfolding decode
decode-header m bs h v =
    let (a, b, c) = read_fixed m bs in
    let l : ltb (length (header m ++ bs)) module_message_header_len ≡ false =
      ground (arith, length-header m bs) in
    let k : length (header m ++ bs) - module_message_header_len ≡ length bs =
      omega (arith, length-header m bs) in
    rw (l, k, a, b, c, read_message-header m bs h, v) refl

-- A message header that `Encode` writes is read back from the buffer, if the body that it announces
-- fits behind it, and is refused otherwise.
pub decode-encode_message :
    (m : ModuleMessage) (out : Bytes) {written : Bytes}
    → IsMessage m
    → encode m out ≡ some written
    → decode written
      ≡ (if ltb (length out - module_message_header_len) m.body_len then none else some m)
decode-encode_message m out h e =
    let (l, v, w) = encode-some m out e in
    rw (← w, ← length-drop module_message_header_len out)
      (decode-header m (drop module_message_header_len out) h v)
