-- ===== src/Bus/Message.antt =====
-- The header of a module message, of server-go/bus/module_protocol.go. An error is `none`.
use aimee_module_economizer.Prelude.{
  ℕ, ◌-◌, Bool, false, not, ◌&&◌, ◌||◌, Option, none, some, ◌++◌, if◌then◌else◌, ◌==◌, ltb, leb,
  Bytes, length, drop,
}
use aimee_module_economizer.Bus.Endian.{put, uint16_at, uint32_at, uint64_at}

abbrev pub module_message_magic : ℕ
module_message_magic = 1146047809

abbrev pub module_message_version : ℕ
module_message_version = 1

abbrev pub module_message_header_len : ℕ
module_message_header_len = 40

abbrev pub module_message_max_body : ℕ
module_message_max_body = 16777216

abbrev pub module_op_invoke : ℕ
module_op_invoke = 1

abbrev pub module_op_result : ℕ
module_op_result = 2

abbrev pub module_status_ok : ℕ
module_status_ok = 0

abbrev pub module_status_internal : ℕ
module_status_internal = 5

pub record ModuleMessage : Type 0 where
  pub operation : ℕ
  pub status : ℕ
  pub stage_id : ℕ
  pub flags : ℕ
  pub body_len : ℕ
  pub deadline_ns : ℕ
  pub trace_id : ℕ

-- `valid`
unfoldable pub valid : ModuleMessage → Bool
valid m =
    if not (m.operation == module_op_invoke) && not (m.operation == module_op_result)
    then false
    else if ltb module_status_internal m.status
        || (m.operation == module_op_invoke && not (m.status == module_status_ok))
    then false
    else not (m.stage_id == 0) && m.flags == 0 && leb m.body_len module_message_max_body

unfoldable pub header : ModuleMessage → Bytes
header m =
    put 4 module_message_magic
    ++ put 2 module_message_version
    ++ put 2 module_message_header_len
    ++ put 2 m.operation
    ++ put 2 m.status
    ++ put 4 m.stage_id
    ++ put 4 m.flags
    ++ put 4 m.body_len
    ++ put 8 m.deadline_ns
    ++ put 8 m.trace_id

-- `Encode`: the buffer behind it
unfoldable pub encode : ModuleMessage → Bytes → Option Bytes
encode m out =
    if ltb (length out) module_message_header_len || not (valid m)
    then none
    else some (header m ++ drop module_message_header_len out)

unfoldable pub read_message : Bytes → ModuleMessage
read_message bs = record {
  operation = uint16_at 8 bs;
  status = uint16_at 10 bs;
  stage_id = uint32_at 12 bs;
  flags = uint32_at 16 bs;
  body_len = uint32_at 20 bs;
  deadline_ns = uint64_at 24 bs;
  trace_id = uint64_at 32 bs;
}

-- `DecodeModuleMessage`
unfoldable pub decode : Bytes → Option ModuleMessage
decode bs =
    if ltb (length bs) module_message_header_len
      || not (uint32_at 0 bs == module_message_magic)
      || not (uint16_at 4 bs == module_message_version)
      || not (uint16_at 6 bs == module_message_header_len)
    then none
    else if not (valid (read_message bs))
        || ltb (length bs - module_message_header_len) (read_message bs).body_len
    then none
    else some (read_message bs)

-- `DeadlineExpired`
unfoldable pub deadline_expired : ModuleMessage → ℕ → Bool
deadline_expired m now_ns = not (m.deadline_ns == 0) && leb m.deadline_ns now_ns
