-- ===== src/Bus/Region.antt =====
-- The control region and the queue-pair region of server-go/bus/region.go, over the bytes mapped.
use aimee_module_economizer.Prelude.{
  ℕ, Bool, not, ◌||◌, Option, none, some, ◌++◌, if◌then◌else◌, ◌==◌, ltb, leb, Bytes, length, take,
  drop,
}
use aimee_module_economizer.Bus.Endian.{put, uint32_at, uint64_at}
use aimee_module_economizer.Bus.Ring.{Ring, attach_ring}

abbrev ctl_magic : ℕ
ctl_magic = 1280590658

abbrev ctl_bytes : ℕ
ctl_bytes = 96

abbrev qp_magic : ℕ
qp_magic = 1380991569

abbrev qp_bytes : ℕ
qp_bytes = 96

-- `SlotSize`, `InlineBudget`, `QueueCapacity`, `ArenaSize` and `Epoch` of a control region
abbrev pub slot_size : Bytes → ℕ
slot_size mem = uint32_at 16 mem

abbrev pub inline_budget : Bytes → ℕ
inline_budget mem = uint32_at 20 mem

abbrev pub queue_capacity : Bytes → ℕ
queue_capacity mem = uint32_at 24 mem

abbrev pub arena_size : Bytes → ℕ
arena_size mem = uint64_at 32 mem

abbrev pub current_epoch : Bytes → ℕ
current_epoch mem = uint64_at 40 mem

-- `AttachControl`: the region as it is, or an error; the versions of the specification and of the
-- layout are 1
unfoldable pub attach_control : Bytes → Option Bytes
attach_control mem =
    if ltb (length mem) ctl_bytes
      || not (uint32_at 0 mem == ctl_magic)
      || not (uint32_at 4 mem == 1)
      || not (uint32_at 8 mem == 1)
      || slot_size mem == 0
      || ltb (slot_size mem) (inline_budget mem)
      || arena_size mem == 0
    then none
    else some mem

-- `QueuePair`
pub record QueuePair : Type 0 where
  pub mem : Bytes
  pub inbound : Ring
  pub outbound : Ring

abbrev both : Bytes → Option Ring → Option Ring → Option QueuePair
both mem (some i) (some o) = some (record { mem = mem; inbound = i; outbound = o })
both mem _ _ = none

-- `AttachQueuePair`
unfoldable pub attach_queue_pair : Bytes → Option QueuePair
attach_queue_pair mem =
    let in_off = uint32_at 24 mem in
    let out_off = uint32_at 28 mem in
    if ltb (length mem) qp_bytes
      || not (uint32_at 0 mem == qp_magic)
      || leb (length mem) in_off
      || leb (length mem) out_off
      || in_off == out_off
    then none
    else both mem (attach_ring (drop in_off mem)) (attach_ring (drop out_off mem))

-- `ControlLost`
unfoldable pub control_lost : QueuePair → Bool
control_lost q = not (uint32_at 20 q.mem == 0)

-- `SetHeartbeat`, a store to the mapping
unfoldable pub set_heartbeat : QueuePair → ℕ → QueuePair
set_heartbeat q now = record q { mem = take 32 q.mem ++ put 8 now ++ drop 40 q.mem }
