-- ===== src/Bus/Ring.antt =====
-- The single-producer, single-consumer ring of server-go/bus/ring.go. The mapping behind a ring is
-- its two cursors, which are uint64 and wrap around, and its slots, each a range of `slot_size`
-- bytes; a slot that is handed out is named by its number. The producer is the only writer of `head`
-- and the consumer the only writer of `tail`, so that an operation is one step, taken when it
-- touches the other's cursor.
pub mod Window
pub mod Fifo
pub mod Interleaving
pub mod Begin
pub mod Tests
pub mod Attach
use aimee_module_economizer.Prelude.{
  ℕ, zero, suc, ◌+◌, ◌-◌, ◌*◌, ◌/◌, ◌%◌, ◌^◌, ◌≤◌, ◌<◌, min, ◌≡◌, refl, sym, ap, ap₂, ◌∙◌, subst,
  fun_ext, ◌≢◌, ◌↔◌, ◌⊎◌, inl, inr, Bool, true, false, not, ◌&&◌, ◌||◌, Option, none, some, List,
  [], ◌∷◌, ◌++◌, map, append-nil, append_assoc, arith, if◌then◌else◌, ◌==◌, ltb, leb, Bytes, codes,
  eq_bytes, eq_bytes_iff, length, All, any, all, Bool-cases, Option-cases, ==_iff, take, drop,
}
use Prim.Native.Nat.{bit_and}
use aimee_module_economizer.Prelude.{replicate, get_elem?, set}
use aimee_module_economizer.Bus.Endian.{put, uint32_at, uint64_at}

abbrev pub ring_magic : ℕ
ring_magic = 1196312914

abbrev pub ring_hdr_bytes : ℕ
ring_hdr_bytes = 192

-- `Ring`; the slots' offset, which is always `ring_hdr_bytes`, is left out
pub record Ring : Type 0 where
  pub slot_size : ℕ
  pub capacity : ℕ
  pub mask : ℕ
  pub head : ℕ
  pub tail : ℕ
  pub slots : List Bytes

-- the difference of two uint64
unfoldable pub distance : ℕ → ℕ → ℕ
distance head tail = (head + 2 ^ 64 - tail) % 2 ^ 64

-- `Count`
unfoldable pub count : Ring → ℕ
count r = distance r.head r.tail

-- `slot`, as the number of the slot
unfoldable pub slot : Ring → ℕ → ℕ
slot r index = bit_and index r.mask

-- `ProduceBegin`
unfoldable pub produce_begin : Ring → Option ℕ
produce_begin r = if leb r.capacity (distance r.head r.tail) then none else some (slot r r.head)

-- `ProduceCommit`
unfoldable pub produce_commit : Ring → Ring
produce_commit r = record r { head = (r.head + 1) % 2 ^ 64 }

-- `ConsumeBegin`
unfoldable pub consume_begin : Ring → Option ℕ
consume_begin r = if r.head == r.tail then none else some (slot r r.tail)

-- `ConsumeCommit`
unfoldable pub consume_commit : Ring → Ring
consume_commit r = record r { tail = (r.tail + 1) % 2 ^ 64 }

-- what the holder of a slot writes to it
unfoldable pub write_slot : Ring → ℕ → Bytes → Ring
write_slot r i bytes = record r { slots = set r.slots i bytes }

-- what the holder of a slot reads
unfoldable pub read_slot : Ring → ℕ → Option Bytes
read_slot r i = get_elem? r.slots i

-- the slots one behind the other
unfoldable pub chunks : ℕ → ℕ → Bytes → List Bytes
chunks zero size bs = []
chunks (suc n) size bs = take size bs ∷ chunks n size (drop size bs)

-- `need`, an int
unfoldable pub ring_bytes : ℕ → ℕ → ℕ
ring_bytes slot_size capacity = ring_hdr_bytes + slot_size * capacity

-- the ring that the header describes
unfoldable pub mapped : Bytes → Ring
mapped mem = record {
  slot_size = uint32_at 4 mem;
  capacity = uint32_at 8 mem;
  mask = uint32_at 12 mem;
  head = uint64_at 64 mem;
  tail = uint64_at 128 mem;
  slots = chunks (uint32_at 8 mem) (uint32_at 4 mem) (drop ring_hdr_bytes mem);
}

-- the checks of `AttachRing` on the geometry, all with one error
unfoldable pub bad_geometry : Ring → ℕ → Bool
bad_geometry r slots_off =
    ltb r.capacity 2
    || not (bit_and r.capacity (r.capacity - 1) == 0)
    || r.slot_size == 0
    || not (r.mask == r.capacity - 1)
    || not (slots_off == ring_hdr_bytes)

-- `AttachRing`
unfoldable pub attach_ring : Bytes → Option Ring
attach_ring mem =
    let r = mapped mem in
    if ltb (length mem) ring_hdr_bytes
      || not (uint32_at 0 mem == ring_magic)
      || bad_geometry r (uint32_at 16 mem)
      || ltb (length mem) (ring_bytes r.slot_size r.capacity)
      || ltb r.capacity (distance r.head r.tail)
    then none
    else some r

-- what `initRing` writes: the header, cursors at 0 and empty slots
unfoldable pub laid_out : ℕ → ℕ → Bytes → Bytes
laid_out slot_size capacity mem =
    put 4 ring_magic
    ++ put 4 slot_size
    ++ put 4 capacity
    ++ put 4 (capacity - 1)
    ++ put 4 ring_hdr_bytes
    ++ replicate (ring_bytes slot_size capacity - 20) 0
    ++ drop (ring_bytes slot_size capacity) mem

-- `initRing`
unfoldable pub init_ring : Bytes → ℕ → ℕ → Option Ring
init_ring mem slot_size capacity =
    if ltb capacity 2
      || not (bit_and capacity (capacity - 1) == 0)
      || slot_size == 0
      || ltb (length mem) (ring_bytes slot_size capacity)
    then none
    else attach_ring (laid_out slot_size capacity mem)
