-- ===== src/Bus/Tests.antt =====
-- A frame and a module message in the shapes of server-go/bus/wire_test.go, and the theorems at them.
use aimee_module_economizer.Prelude.{
  replicate, ◌+◌, ◌-◌, ◌≤◌, ◌≡◌, refl, none, some, [], ◌∷◌, arith, if◌then◌else◌, ltb, Bytes,
  length, drop,
}
use aimee_module_economizer.Bus.Endian.{put}
use aimee_module_economizer.Bus.Frame.{
  Frame, ok, validate, encode, decode, header, check_placement, check_payload, check_more,
  check_generation, check_correlation, exactly_one, pattern_of, placement_of, hdr_len, max_payload,
}
use aimee_module_economizer.Bus.RoundTrip.{IsFrame, decode-encode}
use aimee_module_economizer.Bus.Placement.{check_placement-inline}
use aimee_module_economizer.Bus.Message.{ModuleMessage, valid, module_message_header_len}
use aimee_module_economizer.Bus.Message
use aimee_module_economizer.Bus.MessageTrip.{IsMessage, decode-encode_message}

-- an inline request of 16 bytes behind the header
abbrev frame : Frame
frame = record {
  hdr_flags = 9;
  version = 3;
  event_kind = 256;
  principal_ref = 1;
  correlation_id = 7;
  seq = 1;
  logical_ts = 2;
  payload_ref = 64;
  payload_len = 16;
  src_handle = 3;
  dst_handle = 4;
  generation = 0;
}

abbrev out : Bytes
out = replicate 66 1

abbrev written : Bytes
written =
    66 ∷ 85 ∷ 83 ∷ 48 ∷ 9 ∷ 0 ∷ 3 ∷ 0 ∷ 0 ∷ 1 ∷ 0 ∷ 0 ∷ 1 ∷ 0 ∷ 0 ∷ 0 ∷ 7 ∷ 0 ∷ 0 ∷ 0 ∷ 0 ∷ 0 ∷ 0
    ∷ 0 ∷ 1 ∷ 0 ∷ 0 ∷ 0 ∷ 0 ∷ 0 ∷ 0 ∷ 0 ∷ 2 ∷ 0 ∷ 0 ∷ 0 ∷ 0 ∷ 0 ∷ 0 ∷ 0 ∷ 64 ∷ 0 ∷ 0 ∷ 0 ∷ 0 ∷ 0 ∷ 0
    ∷ 0 ∷ 16 ∷ 0 ∷ 0 ∷ 0 ∷ 3 ∷ 0 ∷ 0 ∷ 0 ∷ 4 ∷ 0 ∷ 0 ∷ 0 ∷ 0 ∷ 0 ∷ 0 ∷ 0 ∷ 1 ∷ 1 ∷ []

frame_encodes : encode frame out ≡ some written
unfolding encode validate header put check_payload check_more check_generation check_correlation
    exactly_one pattern_of placement_of
frame_encodes = refl

frame-IsFrame : IsFrame frame
frame-IsFrame = (
  omega arith,
  omega arith,
  omega arith,
  omega arith,
  omega arith,
  omega arith,
  omega arith,
  omega arith,
  omega arith,
  omega arith,
  omega arith,
  omega arith,
)

decode-encode_example :
    (decode written ≡ (ok, some frame))
    × (length written ≡ length out)
    × (drop hdr_len written ≡ drop hdr_len out)
decode-encode_example = decode-encode frame out frame-IsFrame frame_encodes

frame_fits : check_placement frame 128 0 ≡ ok
unfolding check_placement validate check_payload check_more check_generation check_correlation
    exactly_one pattern_of placement_of
frame_fits = refl

check_placement-inline_example :
    (hdr_len ≤ frame.payload_ref)
    × (frame.payload_ref + frame.payload_len ≤ 128)
    × (frame.payload_len ≤ max_payload)
check_placement-inline_example =
    check_placement-inline frame 128 0 (omega arith) (λ e. omega (arith, e)) refl frame_fits

-- an invocation with a body of two bytes
abbrev message : ModuleMessage
message = record {
  operation = 1;
  status = 0;
  stage_id = 5;
  flags = 0;
  body_len = 2;
  deadline_ns = 0;
  trace_id = 6;
}

abbrev buffer : Bytes
buffer = replicate 42 1

abbrev sent : Bytes
sent =
    65 ∷ 77 ∷ 79 ∷ 68 ∷ 1 ∷ 0 ∷ 40 ∷ 0 ∷ 1 ∷ 0 ∷ 0 ∷ 0 ∷ 5 ∷ 0 ∷ 0 ∷ 0 ∷ 0 ∷ 0 ∷ 0 ∷ 0 ∷ 2 ∷ 0 ∷ 0
    ∷ 0 ∷ 0 ∷ 0 ∷ 0 ∷ 0 ∷ 0 ∷ 0 ∷ 0 ∷ 0 ∷ 6 ∷ 0 ∷ 0 ∷ 0 ∷ 0 ∷ 0 ∷ 0 ∷ 0 ∷ 1 ∷ 1 ∷ []

message_encodes : Message.encode message buffer ≡ some sent
unfolding Message.encode valid Message.header put
message_encodes = refl

message-IsMessage : IsMessage message
message-IsMessage =
    (omega arith, omega arith, omega arith, omega arith, omega arith, omega arith, omega arith)

decode-encode_message_example : Message.decode sent ≡ (
    if ltb (length buffer - module_message_header_len) message.body_len then none else some message)
decode-encode_message_example =
    decode-encode_message message buffer message-IsMessage message_encodes
