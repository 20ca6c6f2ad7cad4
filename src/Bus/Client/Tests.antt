-- ===== src/Bus/Client/Tests.antt =====
-- Two clients whose rings have two slots of 66 bytes, a frame whose payload wraps around, and the
-- theorems at them.
use aimee_module_economizer.Prelude.{
  ◌≤◌, ◌<◌, ◌≡◌, refl, ◌↔◌, true, false, none, some, [], ◌∷◌, ◌++◌, arith, drop,
}
use aimee_module_economizer.Bus.Frame.{header, validate}
use aimee_module_economizer.Bus.RoundTrip.{IsFrame, decode-header}
use aimee_module_economizer.Bus.Client.{
  Client, event_frame, copy_payload, too_large, event_of, event,
}
use aimee_module_economizer.Bus.Frame.{Frame, ok, f_inline, f_request, has_flag, encode}
use aimee_module_economizer.Bus.Ring.{Ring, produce_begin, produce_commit, write_slot}
use aimee_module_economizer.Bus.Ring.Window.{entry}
use aimee_module_economizer.Prelude.{replicate}
use aimee_module_economizer.Bus.Frame.{
  check_payload, check_more, check_generation, check_correlation, exactly_one, pattern_of,
  placement_of, check_placement,
}
use aimee_module_economizer.Bus.Ring.{count, distance, slot}
use aimee_module_economizer.Bus.Ring.Window.{IsRing, contents, window}
use aimee_module_economizer.Prelude.{ap, take, length, inl}
use aimee_module_economizer.Bus.Frame.{decode, is_ok}
use aimee_module_economizer.Bus.Ring.{consume_begin}
use aimee_module_economizer.Bus.Client.{reach, panics, emit, poll, epoch_changed}
use aimee_module_economizer.Bus.Client.Loopback.{poll-emit}
use aimee_module_economizer.Bus.Client.Panic.{poll-panics, IsOutside}

abbrev two_slots : Ring
two_slots = record {
  slot_size = 66;
  capacity = 2;
  mask = 1;
  head = 4;
  tail = 4;
  slots = replicate 66 0 ∷ replicate 66 0 ∷ [];
}

two_slots-IsRing : IsRing two_slots
unfolding IsRing count distance
two_slots-IsRing = ((1, refl, omega arith), refl, refl, omega arith, omega arith, omega arith)

two_slots_empty : contents two_slots ≡ []
unfolding contents window count distance
two_slots_empty = refl

abbrev sender : Client
sender = record {
  handle = 3;
  slot_size = 66;
  inline_budget = 2;
  attached_epoch = 1;
  control = some 1;
  inbound = two_slots;
  behind = [];
  outbound = two_slots;
  pending_read = false;
}

abbrev asked : Frame
asked = event_frame sender f_request 9 7 (5 ∷ 6 ∷ [])

abbrev sent : Client
sent = record sender {
  outbound = produce_commit (
      write_slot two_slots 0
        (copy_payload (header asked ++ drop 64 (replicate 66 0)) (5 ∷ 6 ∷ [])));
}

sends : emit sender f_request 9 7 (5 ∷ 6 ∷ []) ≡ (sent, none)
unfolding emit epoch_changed too_large produce_begin slot distance event_frame encode validate
    check_payload check_more check_generation check_correlation exactly_one pattern_of placement_of
    entry
sends = refl

abbrev receiver : Client
receiver = record {
  handle = 4;
  slot_size = 66;
  inline_budget = 2;
  attached_epoch = 1;
  control = some 1;
  inbound = sent.outbound;
  behind = [];
  outbound = two_slots;
  pending_read = false;
}

asked-IsFrame : IsFrame asked
unfolding event_frame
asked-IsFrame = (
  omega arith,
  omega arith,
  omega arith,
  omega arith,
  omega arith,
  omega arith,
  omega arith,
  omega arith,
  omega arith,
  omega arith,
  omega arith,
  omega arith,
)

poll-emit_example : (poll receiver).1 ≡ event asked (5 ∷ 6 ∷ [])
poll-emit_example =
    poll-emit sender receiver sent f_request 9 7 (5 ∷ 6 ∷ []) sends two_slots-IsRing two_slots_empty
      (refl, (refl, record {})) (omega arith) asked-IsFrame refl refl refl refl

-- an inline request with a reference so high that reference and length wrap around to 64
abbrev wrapping : Frame
wrapping = record {
  hdr_flags = 9;
  version = 3;
  event_kind = 1;
  principal_ref = 0;
  correlation_id = 7;
  seq = 0;
  logical_ts = 0;
  payload_ref = 18446744073709551552;
  payload_len = 128;
  src_handle = 0;
  dst_handle = 0;
  generation = 0;
}

wrapping_validates : validate wrapping ≡ ok
unfolding validate check_payload check_more check_generation check_correlation exactly_one
    pattern_of placement_of
wrapping_validates = refl

wrapping_panics : event_of sender (replicate 66 0) wrapping ≡ panics
unfolding event_of
wrapping_panics = refl

-- a client with a slot size of 200, over slots of 66 bytes whose capacity ends with the last of them
long_panics :
    event_of
      (record sender { slot_size = 200 })
      (replicate 66 0)
      (record wrapping { payload_ref = 64 })
    ≡ panics
unfolding event_of
long_panics = refl

-- a ring with one entry, the wrapping frame
abbrev trapped : Client
trapped = record sender {
  inbound = record two_slots {
    head = 5;
    slots = (header wrapping ++ (0 ∷ 0 ∷ [])) ∷ replicate 66 0 ∷ [];
  };
}

trapped_next : consume_begin trapped.inbound ≡ some 0
unfolding consume_begin slot
trapped_next = refl

trapped_decodes : decode (entry trapped.inbound.slots 0) ≡ (ok, some wrapping)
unfolding entry
trapped_decodes =
    decode-header wrapping (0 ∷ 0 ∷ [])
      (
        omega arith,
        omega arith,
        omega arith,
        omega arith,
        omega arith,
        omega arith,
        omega arith,
        omega arith,
        omega arith,
        omega arith,
        omega arith,
        omega arith,
      )
      (ap is_ok wrapping_validates)

poll-panics_example :
    let reached = reach trapped.inbound.slots trapped.behind 0 in
    (((poll trapped).1 ≡ panics)
      ↔ ((has_flag wrapping f_inline ≡ true) × (0 < 128) × IsOutside wrapping 66 (length reached)))
    × (66 ≤ length reached
        → check_placement wrapping 66 0 ≡ ok
        → has_flag wrapping f_inline ≡ true
        → (poll trapped).1 ≡ event wrapping (take 128 (drop wrapping.payload_ref reached)))
poll-panics_example =
    poll-panics trapped wrapping 0 0 refl refl trapped_next trapped_decodes (omega arith)
      (omega arith) (omega arith)

trapped_panics : (poll trapped).1 ≡ panics
trapped_panics =
    (poll-panics trapped wrapping 0 0 refl refl trapped_next trapped_decodes (omega arith)
        (omega arith) (omega arith)).0.1
      (refl, omega arith, inl (omega arith, omega arith))
