-- ===== src/Bus/RoundTrip.antt =====
-- The round trip of the frames of server-go/bus/wire.go.
use aimee_module_economizer.Prelude.{
  length-drop, ◌+◌, ◌≤◌, ◌<◌, ◌≡◌, refl, true, false, some, ◌++◌, arith, ltb, Bytes, length, drop,
}
use aimee_module_economizer.Bus.Endian.{put, number_of, number_of-put, uint32_at}
use aimee_module_economizer.Bus.Frame.{
  Frame, ok, validate, header, encode, decode, read_frame, hdr_len, is_ok, wire_magic,
}

-- The widths of the fields.
abbrev pub IsFrame : Frame → Type 0
IsFrame f =
    (f.hdr_flags < 65536)
    × (f.version < 65536)
    × (f.event_kind < 4294967296)
    × (f.principal_ref < 4294967296)
    × (f.correlation_id < 18446744073709551616)
    × (f.seq < 18446744073709551616)
    × (f.logical_ts < 18446744073709551616)
    × (f.payload_ref < 18446744073709551616)
    × (f.payload_len < 4294967296)
    × (f.src_handle < 4294967296)
    × (f.dst_handle < 4294967296)
    × (f.generation < 4294967296)

read_frame-header : (f : Frame) (bs : Bytes) → IsFrame f → read_frame (header f ++ bs) ≡ f
unfolding read_frame header put
read_frame-header f bs (h0, h1, h2, h3, h4, h5, h6, h7, h8, h9, h10, h11) =
    rw
      (
        number_of-put 2 f.hdr_flags _ h0,
        number_of-put 2 f.version _ h1,
        number_of-put 4 f.event_kind _ h2,
        number_of-put 4 f.principal_ref _ h3,
        number_of-put 8 f.correlation_id _ h4,
        number_of-put 8 f.seq _ h5,
        number_of-put 8 f.logical_ts _ h6,
        number_of-put 8 f.payload_ref _ h7,
        number_of-put 4 f.payload_len _ h8,
        number_of-put 4 f.src_handle _ h9,
        number_of-put 4 f.dst_handle _ h10,
        number_of-put 4 f.generation _ h11,
      )
      refl

read_magic : (f : Frame) (bs : Bytes) → uint32_at 0 (header f ++ bs) ≡ wire_magic
unfolding header put number_of
read_magic f bs = refl

pub length-header : (f : Frame) (bs : Bytes) → length (header f ++ bs) ≡ hdr_len + length bs
unfolding header put
length-header f bs = omega arith

pub drop-header : (f : Frame) (bs : Bytes) → drop hdr_len (header f ++ bs) ≡ bs
unfolding header put
drop-header f bs = refl

pub encode-some :
    (f : Frame) (out : Bytes) {written : Bytes}
    → encode f out ≡ some written
    → (hdr_len ≤ length out)
      × (is_ok (validate f) ≡ true)
      × (header f ++ drop hdr_len out ≡ written)
unfolding encode
encode-some f out e = (ground arith, ground arith, ground arith)

pub decode-header :
    (f : Frame) (bs : Bytes)
    → IsFrame f
    → is_ok (validate f) ≡ true
    → decode (header f ++ bs) ≡ (ok, some f)
unfolding decode
decode-header f bs h v =
    let l : ltb (length (header f ++ bs)) hdr_len ≡ false = ground (arith, length-header f bs) in
    rw (l, read_magic f bs, read_frame-header f bs h, v) refl

-- A frame that `Encode` writes fills the header of the buffer, leaves the rest of it as it was, and
-- is what `Decode` reads from the buffer.
pub decode-encode :
    (f : Frame) (out : Bytes) {written : Bytes}
    → IsFrame f
    → encode f out ≡ some written
    → (decode written ≡ (ok, some f))
      × (length written ≡ length out)
      × (drop hdr_len written ≡ drop hdr_len out)
decode-encode f out h e =
    let (l, v, w) = encode-some f out e in
    rw (← w) (
      decode-header f (drop hdr_len out) h v,
      omega (arith, length-header f (drop hdr_len out), length-drop hdr_len out, l),
      drop-header f (drop hdr_len out),
    )

-- Every frame that `Decode` returns is valid.
pub decode-validate :
    (bs : Bytes) {f : Frame}
    → decode bs ≡ (ok, some f)
    → (is_ok (validate f) ≡ true) × (hdr_len ≤ length bs)
unfolding decode
decode-validate bs h = (ground arith, ground arith)
