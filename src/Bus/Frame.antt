-- ===== src/Bus/Frame.antt =====
-- The frame codec of server-go/bus/wire.go. The widths of a field are a predicate on its number.
use aimee_module_economizer.Prelude.{
  ℕ, ◌+◌, ◌-◌, ◌%◌, ◌^◌, Bool, true, false, not, ◌&&◌, ◌||◌, Option, none, some, ◌++◌,
  if◌then◌else◌, ◌==◌, ltb, Bytes, length, drop,
}
use Prim.Native.Nat.{bit_and}
use aimee_module_economizer.Bus.Endian.{put, uint16_at, uint32_at, uint64_at}

abbrev pub wire_magic : ℕ
wire_magic = 810767682

abbrev pub wire_version : ℕ
wire_version = 3

abbrev pub hdr_len : ℕ
hdr_len = 64

abbrev pub max_payload : ℕ
max_payload = 1048576

abbrev pub f_inline : ℕ
f_inline = 1

abbrev pub f_arena : ℕ
f_arena = 2

abbrev pub f_notification : ℕ
f_notification = 4

abbrev pub f_request : ℕ
f_request = 8

abbrev pub f_reply : ℕ
f_reply = 16

abbrev pub f_cancel : ℕ
f_cancel = 32

abbrev pub f_control : ℕ
f_control = 64

abbrev pub f_more : ℕ
f_more = 128

abbrev pub placement_mask : ℕ
placement_mask = 3

abbrev pub pattern_mask : ℕ
pattern_mask = 60

abbrev pub known_mask : ℕ
known_mask = 255

pub record Frame : Type 0 where
  pub hdr_flags : ℕ
  pub version : ℕ
  pub event_kind : ℕ
  pub principal_ref : ℕ
  pub correlation_id : ℕ
  pub seq : ℕ
  pub logical_ts : ℕ
  pub payload_ref : ℕ
  pub payload_len : ℕ
  pub src_handle : ℕ
  pub dst_handle : ℕ
  pub generation : ℕ

pub data Result : Type 0 where
  ok err_short err_magic err_version err_flags err_payload_len err_correlation : Result

abbrev pub is_ok : Result → Bool
is_ok ok = true
is_ok _ = false

-- `v != 0 && v&(v-1) == 0`
unfoldable pub exactly_one : ℕ → Bool
exactly_one v = not (v == 0) && bit_and v (v - 1) == 0

unfoldable pub pattern_of : Frame → ℕ
pattern_of f = bit_and f.hdr_flags pattern_mask

unfoldable pub placement_of : Frame → ℕ
placement_of f = bit_and f.hdr_flags placement_mask

abbrev pub has_flag : Frame → ℕ → Bool
has_flag f flag = not (bit_and f.hdr_flags flag == 0)

-- the checks of `Validate` on the payload: `ok` is to go on
unfoldable pub check_payload : Frame → Result
check_payload f =
    if ltb 0 f.payload_len
    then (if not (exactly_one (placement_of f))
        then err_flags
        else if ltb max_payload f.payload_len
        then err_payload_len
        else ok)
    else if not (placement_of f == 0)
    then err_flags
    else if not (f.payload_ref == 0)
    then err_payload_len
    else ok

-- a fragment is an inline request or reply with a payload
unfoldable pub check_more : Frame → Result
check_more f =
    if has_flag f f_more
      && ((not (pattern_of f == f_request) && not (pattern_of f == f_reply))
          || not (placement_of f == f_inline)
          || f.payload_len == 0)
    then err_flags
    else ok

unfoldable pub check_correlation : Frame → Result
check_correlation f =
    if has_flag f f_notification
    then if not (f.correlation_id == 0) then err_correlation else ok
    else if f.correlation_id == 0
    then err_correlation
    else ok

unfoldable pub check_generation : Frame → Result
check_generation f =
    if not (has_flag f f_arena) && not (f.generation == 0) then err_flags else check_correlation f

-- `Validate`
unfoldable pub validate : Frame → Result
validate f =
    if not (f.version == wire_version)
    then err_version
    else if not (f.hdr_flags - bit_and f.hdr_flags known_mask == 0)
    then err_flags
    else if not (exactly_one (pattern_of f))
    then err_flags
    else if not (is_ok (check_payload f))
    then check_payload f
    else if not (is_ok (check_more f))
    then check_more f
    else check_generation f

unfoldable pub header : Frame → Bytes
header f =
    put 4 wire_magic
    ++ put 2 f.hdr_flags
    ++ put 2 f.version
    ++ put 4 f.event_kind
    ++ put 4 f.principal_ref
    ++ put 8 f.correlation_id
    ++ put 8 f.seq
    ++ put 8 f.logical_ts
    ++ put 8 f.payload_ref
    ++ put 4 f.payload_len
    ++ put 4 f.src_handle
    ++ put 4 f.dst_handle
    ++ put 4 f.generation

-- `Encode`: the buffer behind it, or `none` where it returns 0 and writes nothing
unfoldable pub encode : Frame → Bytes → Option Bytes
encode f out =
    if ltb (length out) hdr_len
    then none
    else if not (is_ok (validate f))
    then none
    else some (header f ++ drop hdr_len out)

unfoldable pub read_frame : Bytes → Frame
read_frame bs = record {
  hdr_flags = uint16_at 4 bs;
  version = uint16_at 6 bs;
  event_kind = uint32_at 8 bs;
  principal_ref = uint32_at 12 bs;
  correlation_id = uint64_at 16 bs;
  seq = uint64_at 24 bs;
  logical_ts = uint64_at 32 bs;
  payload_ref = uint64_at 40 bs;
  payload_len = uint32_at 48 bs;
  src_handle = uint32_at 52 bs;
  dst_handle = uint32_at 56 bs;
  generation = uint32_at 60 bs;
}

-- `Decode`: the result and, on `ok`, the frame
unfoldable pub decode : Bytes → Result × Option Frame
decode bs =
    if ltb (length bs) hdr_len
    then (err_short, none)
    else if not (uint32_at 0 bs == wire_magic)
    then (err_magic, none)
    else if not (is_ok (validate (read_frame bs)))
    then (validate (read_frame bs), none)
    else (ok, some (read_frame bs))

-- `CheckPlacement`; a uint64 sum wraps around
unfoldable pub check_placement : Frame → ℕ → ℕ → Result
check_placement f slot_size arena_size =
    if not (is_ok (validate f))
    then validate f
    else if f.payload_len == 0
    then ok
    else if has_flag f f_inline
    then (let end = (f.payload_ref + f.payload_len) % 2 ^ 64 in
        if ltb end f.payload_ref || ltb f.payload_ref hdr_len || ltb slot_size end
        then err_payload_len
        else ok)
    else if ltb arena_size f.payload_len
    then err_payload_len
    else ok
