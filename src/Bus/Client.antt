-- ===== src/Bus/Client.antt =====
-- The client of server-go/bus/client.go behind its attach: what it emits to its outbound ring and
-- polls from its inbound ring. The control region shows the host's epoch; a client without one is
-- detached. A slot that a ring does not have is empty; no attached ring hands one out. A slot is a Go
-- slice of the mapping of the queue pair, so its capacity reaches to the mapping's end: `behind` holds
-- the bytes of the mapping behind the slots of the inbound ring.
pub mod Payload
pub mod Slot
pub mod Loopback
pub mod Panic
pub mod Tests
use aimee_module_economizer.Prelude.{
  ℕ, zero, suc, ◌+◌, ◌-◌, ◌*◌, ◌/◌, ◌%◌, ◌^◌, ◌≤◌, ◌<◌, min, ◌≡◌, refl, sym, ap, ap₂, ◌∙◌, subst,
  fun_ext, ◌≢◌, ◌↔◌, ◌⊎◌, inl, inr, Bool, true, false, not, ◌&&◌, ◌||◌, Option, none, some, List,
  [], ◌∷◌, ◌++◌, map, append-nil, append_assoc, arith, if◌then◌else◌, ◌==◌, ltb, leb, Bytes, codes,
  eq_bytes, eq_bytes_iff, length, All, any, all, Bool-cases, Option-cases, ==_iff, take, drop,
}
use Prim.Native.Nat.{bit_and, bit_or}
use aimee_module_economizer.Bus.Frame.{
  Frame, ok, wire_version, hdr_len, f_inline, f_notification, f_request, f_reply, f_cancel, f_more,
  has_flag, encode, decode,
}
use aimee_module_economizer.Bus.Ring.{
  Ring, produce_begin, produce_commit, consume_begin, consume_commit, write_slot, read_slot,
}
use aimee_module_economizer.Bus.Ring.Window.{entry}

-- `ErrProtocol`, `ErrEpoch`, `ErrWouldBlock` and `ErrPayload`
pub data ClientError : Type 0 where
  protocol epoch would_block payload_too_large : ClientError

-- `Client`
pub record Client : Type 0 where
  pub handle : ℕ
  pub slot_size : ℕ
  pub inline_budget : ℕ
  pub attached_epoch : ℕ
  pub control : Option ℕ
  pub inbound : Ring
  pub behind : Bytes
  pub outbound : Ring
  pub pending_read : Bool

-- `EpochChanged`
unfoldable pub epoch_changed : Client → Bool
epoch_changed c = elim c.control [ none ↦ false | some e ↦ not (e == c.attached_epoch) ]

abbrev pub is_attached : Client → Bool
is_attached c = elim c.control [ none ↦ false | some e ↦ true ]

-- the length of a payload, as a uint32
abbrev pub uint32_length : Bytes → ℕ
uint32_length payload = length payload % 2 ^ 32

-- the frame of an event
unfoldable pub event_frame : Client → ℕ → ℕ → ℕ → Bytes → Frame
event_frame c flags kind corr payload = record {
  hdr_flags = if ltb 0 (length payload) then bit_or flags f_inline else flags;
  version = wire_version;
  event_kind = kind;
  principal_ref = 0;
  correlation_id = corr;
  seq = 0;
  logical_ts = 0;
  payload_ref = if ltb 0 (length payload) then hdr_len else 0;
  payload_len = if ltb 0 (length payload) then uint32_length payload else 0;
  src_handle = c.handle;
  dst_handle = 0;
  generation = 0;
}

-- `copy(slot[HdrLen:], payload)`, which stops at the end of the slot
unfoldable pub copy_payload : Bytes → Bytes → Bytes
copy_payload slot payload =
    take hdr_len slot
    ++ take (length slot - hdr_len) payload
    ++ drop (hdr_len + length payload) slot

unfoldable pub too_large : Client → Bytes → Bool
too_large c payload =
    ltb 0 (length payload)
    && (ltb c.inline_budget (uint32_length payload) || ltb c.slot_size (hdr_len + length payload))

-- `emit`: the client behind it, and an error
unfoldable pub emit : Client → ℕ → ℕ → ℕ → Bytes → Client × Option ClientError
emit c flags kind corr payload =
    if not (is_attached c)
    then (c, some protocol)
    else if too_large c payload
    then (c, some payload_too_large)
    else if epoch_changed c
    then (c, some epoch)
    else elim (produce_begin c.outbound) [
      | none ↦ (c, some would_block)
      | some i ↦ elim (encode (event_frame c flags kind corr payload) (entry c.outbound.slots i)) [
        | none ↦ (c, some protocol)
        | some written ↦
            let filled = if ltb 0 (length payload) then copy_payload written payload else written in
            (record c { outbound = produce_commit (write_slot c.outbound i filled) }, none)
      ]
    ]

-- `Publish`
unfoldable pub publish : Client → ℕ → Bytes → Client × Option ClientError
publish c kind payload = emit c f_notification kind 0 payload

-- `RequestFragment` and `ReplyFragment`, which differ in their flag
unfoldable pub fragment : ℕ → Client → ℕ → ℕ → Bytes → Bool → Client × Option ClientError
fragment flag c kind corr payload more =
    if corr == 0 || (more && length payload == 0)
    then (c, some protocol)
    else emit c (if more then bit_or flag f_more else flag) kind corr payload

unfoldable pub request_fragment : Client → ℕ → ℕ → Bytes → Bool → Client × Option ClientError
request_fragment = fragment f_request

unfoldable pub reply_fragment : Client → ℕ → ℕ → Bytes → Bool → Client × Option ClientError
reply_fragment = fragment f_reply

-- `Cancel`
unfoldable pub cancel : Client → ℕ → ℕ → Client × Option ClientError
cancel c kind corr = if corr == 0 then (c, some protocol) else emit c f_cancel kind corr []

-- what `Poll` gives: no event, an event, an error, or a panic of the slice expression
pub data Polled : Type 0 where
  nothing : Polled
  event : Frame → Bytes → Polled
  failed : ClientError → Polled
  panics : Polled

-- the bytes from the start of a slot to the end of its capacity
unfoldable pub reach : List Bytes → Bytes → ℕ → Bytes
reach [] behind i = behind
reach (s ∷ ss) behind zero = s ++ reach ss behind zero
reach (s ∷ ss) behind (suc i) = reach ss behind i

-- The payload of a frame: `slot[ref:end]` in uint64, where the end is within the client's slot size.
-- The slice expression panics if the end is ahead of the reference or behind the slot's capacity; what
-- it gives may lie behind the slot's length.
unfoldable pub event_of : Client → Bytes → Frame → Polled
event_of c bytes f =
    let end = (f.payload_ref + f.payload_len) % 2 ^ 64 in
    if has_flag f f_inline && ltb 0 f.payload_len && leb end c.slot_size
    then (if leb f.payload_ref end && leb end (length bytes)
        then event f (take (end - f.payload_ref) (drop f.payload_ref bytes))
        else panics)
    else event f []

-- the slot that the last poll handed out is released
unfoldable pub release : Client → Client
release c =
    if c.pending_read
    then record c { inbound = consume_commit c.inbound; pending_read = false }
    else c

-- an entry, decoded: what is no frame is released at once
unfoldable pub entry_result : Client → Bytes → Option Frame → Client × Polled
entry_result c reached none = (record c { inbound = consume_commit c.inbound }, nothing)
entry_result c reached (some f) = (record c { pending_read = true }, event_of c reached f)

unfoldable pub slot_result : Client → Option ℕ → Client × Polled
slot_result c none = (c, nothing)
slot_result c (some i) =
    entry_result c (reach c.inbound.slots c.behind i) (decode (entry c.inbound.slots i)).1

-- the next slot, read and decoded
unfoldable pub poll_slot : Client → Client × Polled
poll_slot c = slot_result c (consume_begin c.inbound)

-- `Poll`
unfoldable pub poll : Client → Client × Polled
poll c =
    if not (is_attached c)
    then (c, failed protocol)
    else if epoch_changed c
    then (c, failed epoch)
    else poll_slot (release c)

abbrev align64 : ℕ → ℕ
align64 n = (n + 63) / 64 * 64

-- `qpairBytes`
unfoldable pub qpair_bytes : ℕ → ℕ → ℕ
qpair_bytes slot_size capacity =
    let ring = 192 + slot_size * capacity in align64 (align64 96 + ring) + ring
